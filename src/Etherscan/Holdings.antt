-- ===== src/Etherscan/Holdings.antt =====
-- apps/api/app/providers/etherscan.py: the tokens of a wallet from the transfers of tokens.
use crypto_intelligence_plat.Addresses.{to_eip55}
use crypto_intelligence_plat.Base.{
  Decimal, List, Option, Str, [], codes, decimal_add, decimal_sub, if◌then◌else◌, is_empty, leb_ℤ,
  lower, map, no_amount, none, or_default, pos, pos_part, round_ℤ, some, str_eq, take, ℕ, ℤ, ◌∷◌,
}
use crypto_intelligence_plat.Errors.{value_error}
use crypto_intelligence_plat.Etherscan.{EtherscanCodec, TokenTx}
use crypto_intelligence_plat.Exec.{Result, err, ok}
use crypto_intelligence_plat.Shared.{Holding}
use crypto_intelligence_plat.Tokens.{JsonFields, lookup, null}

-- An entry of `per_token`.
pub record TokenEntry : Type 0 where
  pub contract : Str
  pub amount : Decimal
  pub symbol : Str
  pub name : Str
  pub decimals : ℕ

-- `Decimal(value) / Decimal(10) ** decimals`
abbrev pub scaled : ℤ → ℕ → Decimal
scaled n decimals = record { coef = round_ℤ n; places = decimals }

-- `setdefault`, and what is done to the amount of the entry.
unfoldable pub add_to_entry : TokenEntry → (Decimal → Decimal) → List TokenEntry → List TokenEntry
add_to_entry fresh change [] = record fresh { amount = change fresh.amount } ∷ []
add_to_entry fresh change (e ∷ es) =
    let rest = add_to_entry fresh change es in
    if str_eq e.contract fresh.contract
    then record e { amount = change e.amount } ∷ es
    else e ∷ rest

abbrev pub fresh_entry : Str → ℕ → TokenTx → TokenEntry
fresh_entry contract decimals it = record {
  contract = contract;
  amount = no_amount;
  symbol = or_default it.token_symbol (codes "?");
  name = or_default it.token_name [];
  decimals = decimals;
}

-- A text that is there and not empty.
abbrev pub or_text : Option Str → Str → Str
or_text none d = d
or_text (some s) d = if is_empty s then d else s

module _ (c : EtherscanCodec) (address : Str) where
  -- `entry["amount"] += ...`, or `-=`
  unfoldable pub change_of : TokenTx → ℤ → ℕ → Decimal → Decimal
  unfolding decimal_add decimal_sub
  change_of it n decimals amount =
      if str_eq (map lower (or_default it.to [])) (map lower address)
      then decimal_add amount (scaled n decimals)
      else decimal_sub amount (scaled n decimals)

  -- `tokenDecimal` is not negative.
  abbrev pub decimals_of : TokenTx → Option ℕ
  decimals_of it = elim (c.int_of_text (or_text it.token_decimal (codes "18"))) [
    | none ↦ none
    | some d ↦ some (pos_part d)
  ]

  abbrev pub contract_of : TokenTx → Str
  contract_of it = or_default it.contract_address []

  abbrev pub value_of : TokenTx → Option ℤ
  value_of it = c.int_of_text (or_default it.value (codes "0"))

  abbrev pub with_value : ℕ → TokenTx → Option ℤ → List TokenEntry → List TokenEntry
  with_value decimals it none es = es
  with_value decimals it (some n) es =
      add_to_entry (fresh_entry (contract_of it) decimals it) (change_of it n decimals) es

  abbrev pub with_decimals : TokenTx → Option ℕ → List TokenEntry → Result (List TokenEntry)
  with_decimals it none es = err value_error
  with_decimals it (some d) es = ok (with_value d it (value_of it) es)

  -- One turn of the loop. A `tokenDecimal` that is no number raises, a `value` is passed over.
  unfoldable pub add_transfer : TokenTx → List TokenEntry → Result (List TokenEntry)
  unfolding add_to_entry change_of
  add_transfer it es =
      if is_empty (contract_of it) then ok es else with_decimals it (decimals_of it) es

  unfoldable pub add_transfers : List TokenTx → List TokenEntry → Result (List TokenEntry)
  unfolding add_transfer
  add_transfers [] es = ok es
  add_transfers (it ∷ items) es = elim (add_transfer it es) [
    | ok next ↦ add_transfers items next
    | err e ↦ err e
  ]

  abbrev pub holding_of : TokenEntry → Str → Holding
  holding_of e contract = record {
    contract = contract;
    symbol = take 64 e.symbol;
    name = take 128 e.name;
    decimals = e.decimals;
    amount = e.amount;
    usd_price = none;
    estimated_usd_value = none;
  }

  abbrev pub with_holding : TokenEntry → Result Str → Result (List Holding) → Result (List Holding)
  with_holding e (err x) rest = err x
  with_holding e (ok contract) (err x) = err x
  with_holding e (ok contract) (ok hs) = ok (holding_of e contract ∷ hs)

  -- The loop over the entries.
  unfoldable pub holdings_of : (Str → ℕ → ℕ) → List TokenEntry → Result (List Holding)
  holdings_of nibble [] = ok []
  holdings_of nibble (e ∷ es) =
      let rest = holdings_of nibble es in
      if leb_ℤ e.amount.coef (pos 0) then rest else with_holding e (to_eip55 nibble e.contract) rest

  abbrev pub of_entries : (Str → ℕ → ℕ) → Result (List TokenEntry) → Result (List Holding)
  of_entries nibble (ok es) = holdings_of nibble es
  of_entries nibble (err e) = err e

  abbrev pub of_items : (Str → ℕ → ℕ) → Option (List TokenTx) → Result (List Holding)
  of_items nibble none = ok []
  of_items nibble (some items) = of_entries nibble (add_transfers items [])

  unfoldable pub fetch_token_holdings : (Str → ℕ → ℕ) → Result JsonFields → Result (List Holding)
  unfolding add_transfers holdings_of
  fetch_token_holdings nibble (err e) = err e
  fetch_token_holdings nibble (ok fs) =
      of_items nibble (c.token_items (or_default (lookup (codes "result") fs) null))
