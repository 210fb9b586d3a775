-- ===== src/Etherscan.antt =====
-- apps/api/app/providers/etherscan.py. The answer to a request is what the model of http_retry.py gives;
-- JSON comes as a codec. A field of an item of a list is a text where it is there, as Etherscan documents.
pub mod Holdings
pub mod Entries
pub mod Gains
pub mod Net
pub mod Transfers
use Prim.Native.String.{String}
use crypto_intelligence_plat.Addresses.{is_evm_address, normalized_address, to_eip55}
use crypto_intelligence_plat.Base.{
  Bool, List, Option, Str, [], codes, false, if◌then◌else◌, is_empty, is_some, leb_ℤ, lower, map,
  none, not, one_of, or_default, pos, round_ℤ, some, str_eq, strip, ℕ, ℤ, ◌&&◌, ◌∷◌,
}
use crypto_intelligence_plat.Config.{Settings}
use crypto_intelligence_plat.Errors.{
  Exn, provider_error, provider_permanent, provider_retryable, runtime_error,
}
use crypto_intelligence_plat.Exec.{Result, err, ok}
use crypto_intelligence_plat.Http.{HttpResponse, has_text}
use crypto_intelligence_plat.Shared.{NormalizedAddress, WalletBalance}
use crypto_intelligence_plat.Tokens.{
  Json, JsonFields, array, boolean, integer, lookup, object, real, text,
}

-- An item of `tokentx`.
pub record TokenTx : Type 0 where
  pub contract_address : Option Str
  pub token_decimal : Option Str
  pub value : Option Str
  pub token_symbol : Option Str
  pub token_name : Option Str
  pub to : Option Str

-- An item of `txlist`.
pub record NormalTx : Type 0 where
  pub hash : Option Str
  pub value : Option Str
  pub from_address : Option Str
  pub to : Option Str
  pub time_stamp : Option Str
  pub is_error : Option Str
  pub block_number : Option Str

-- `resp.json()`, `str` of a value that is no text, `int` of a text, and the items of a list, which are
-- none where the value is no list.
pub record EtherscanCodec : Type 0 where
  pub loads : Str → Option Json
  pub str_json : Json → Str
  pub int_of_text : Str → Option ℤ
  pub token_items : Json → Option (List TokenTx)
  pub tx_items : Json → Option (List NormalTx)

abbrev pub permanent : String → Exn
permanent m = provider_error provider_permanent m

-- `_BASE_URLS`, where an override replaces both.
abbrev pub base_urls : Settings → Str → Option Str
base_urls s chain =
    if one_of chain (codes "ethereum" ∷ codes "base" ∷ [])
    then some (
        if not (is_empty (strip s.blockchain_base_url))
        then strip s.blockchain_base_url
        else if str_eq chain (codes "ethereum")
        then codes "https://api.etherscan.io/api"
        else codes "https://api.basescan.org/api")
    else none

-- `_url`
abbrev pub url_of : Settings → Str → Result Str
url_of s chain = elim (base_urls s chain) [
  | none ↦ err (permanent "unsupported chain for etherscan")
  | some base ↦ ok base
]

-- `str(status) == "0"`
abbrev pub is_zero_status : Option Json → Bool
is_zero_status (some (text s)) = str_eq s (codes "0")
is_zero_status (some (integer n)) = leb_ℤ n (pos 0) && leb_ℤ (pos 0) n
is_zero_status _ = false

abbrev pub is_text : Str → Option Json → Bool
is_text s (some (text t)) = str_eq t s
is_text s _ = false

module _ (c : EtherscanCodec) where
  abbrev pub result_text : Option Json → Str
  result_text none = []
  result_text (some (text s)) = s
  result_text (some v) = c.str_json v

  -- `data.get('result', '')[:200]` in the message needs a text or a list.
  abbrev pub refused_answer : Option Json → Exn
  refused_answer none = permanent "etherscan error"
  refused_answer (some (text s)) = permanent "etherscan error"
  refused_answer (some (array vs)) = permanent "etherscan error"
  refused_answer (some _) = runtime_error

  unfoldable pub check_status : JsonFields → Result JsonFields
  check_status fs =
      if is_zero_status (lookup (codes "status") fs)
        && is_text (codes "NOTOK") (lookup (codes "message") fs)
      then (if has_text (codes "rate limit") (map lower (result_text (lookup (codes "result") fs)))
          then err (provider_error provider_retryable "etherscan rate limited")
          else err (refused_answer (lookup (codes "result") fs)))
      else ok fs

  abbrev pub of_json : Option Json → Result JsonFields
  of_json none = err (permanent "non-json provider response")
  of_json (some (object fs)) = check_status fs
  of_json (some _) = err runtime_error

  abbrev pub of_response : Result HttpResponse → Result JsonFields
  of_response (ok r) = of_json (c.loads r.content)
  of_response (err e) = err e

  -- `_get`: what the network answers to a request for that URL.
  unfoldable pub get_data : Settings → (Str → Result HttpResponse) → Str → Result JsonFields
  unfolding check_status
  get_data s network chain = elim (url_of s chain) [
    | ok base ↦ of_response (network base)
    | err e ↦ err e
  ]

  -- `int(raw)`, whose `TypeError` and `ValueError` are caught alike.
  abbrev pub wei_of : Json → Option ℤ
  wei_of (boolean b) = some (if b then pos 1 else pos 0)
  wei_of (integer n) = some n
  wei_of (real n) = some n
  wei_of (text s) = c.int_of_text s
  wei_of _ = none

  -- `Decimal(wei) / Decimal(10) ** 18`
  abbrev pub balance_of : Option ℤ → Result WalletBalance
  balance_of none = err (permanent "invalid balance response")
  balance_of (some wei) = ok (record {
    native_symbol = codes "ETH";
    native_decimals = 18;
    native_amount = round_ℤ wei;
    native_usd_price = none;
    estimated_usd_value = none;
  })

  unfoldable pub fetch_balance : Result JsonFields → Result WalletBalance
  fetch_balance (ok fs) =
      balance_of (wei_of (or_default (lookup (codes "result") fs) (text (codes "0"))))
  fetch_balance (err e) = err e

-- `validate_address` of the provider.
unfoldable pub provider_address : (Str → ℕ → ℕ) → Settings → Str → Str → Result NormalizedAddress
provider_address nibble s chain address =
    if not (is_some (base_urls s chain))
    then err (permanent "unsupported chain for etherscan")
    else if not (is_evm_address address)
    then err (permanent "invalid evm address")
    else normalized_address nibble chain (to_eip55 nibble address)
