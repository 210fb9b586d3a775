-- ===== src/Etherscan/Transfers.antt =====
-- apps/api/app/providers/etherscan.py: the transactions of a wallet, and the whole provider.
use crypto_intelligence_plat.Base.{
  List, Option, Str, [], codes, if◌then◌else◌, is_empty, leb_ℤ, length, lower, ltb_ℤ, map, none,
  not, or_default, pos, pos_part, round_ℤ, some, str_eq, take, ℕ, ℤ, ◌&&◌, ◌*◌, ◌++◌, ◌^◌, ◌∷◌,
}
use crypto_intelligence_plat.Config.{Settings}
use crypto_intelligence_plat.Errors.{value_error}
use crypto_intelligence_plat.Etherscan.{EtherscanCodec, NormalTx, fetch_balance, get_data}
use crypto_intelligence_plat.Etherscan.Holdings.{fetch_token_holdings, or_text}
use crypto_intelligence_plat.Exec.{Result, err, ok}
use crypto_intelligence_plat.Http.{HttpResponse}
use crypto_intelligence_plat.Provider.{Provider}
use crypto_intelligence_plat.Shared.{
  Holding, ParsedTx, PortfolioSummary, TxDirection, WalletBalance, WalletRiskLevel, high, incoming,
  low, medium, outgoing, self,
}
use crypto_intelligence_plat.Tokens.{JsonFields, lookup, null}

-- `_assess_risk`
abbrev pub failed_reason : Option Str → List Str
failed_reason none = []
failed_reason (some s) =
    if not (is_empty s) && not (str_eq s (codes "0")) then codes "failed_transaction" ∷ [] else []

abbrev pub large_reason : ℤ → List Str
large_reason amount = if ltb_ℤ (pos (1000 * 10 ^ 18)) amount then codes "large_value" ∷ [] else []

abbrev pub level_of : List Str → WalletRiskLevel
level_of [] = low
level_of (r ∷ []) = medium
level_of (r ∷ q ∷ rs) = high

unfoldable pub assess_risk : NormalTx → ℤ → WalletRiskLevel × List Str
assess_risk it amount =
    let reasons = failed_reason it.is_error ++ large_reason amount in (level_of reasons, reasons)

-- The direction and the other side.
unfoldable pub direction_of : Str → Str → Str → TxDirection × Str
direction_of address frm to =
    if str_eq (map lower frm) (map lower address) && str_eq (map lower to) (map lower address)
    then (self, to)
    else if str_eq (map lower frm) (map lower address)
    then (outgoing, to)
    else (incoming, frm)

module _ (c : EtherscanCodec) (address : Str) where
  abbrev pub int_or : Option Str → Str → Option ℤ
  int_or t d = c.int_of_text (or_default t d)

  -- Times and numbers of blocks are not negative.
  abbrev pub parsed_tx : NormalTx → ℤ → ℤ → ℤ → ParsedTx
  parsed_tx it wei seconds block =
      let (direction, counterparty) =
        direction_of address (or_default it.from_address []) (or_default it.to []) in
      let (risk, reasons) = assess_risk it (round_ℤ wei) in
      record {
        tx_hash = or_default it.hash [];
        block = some (pos_part block);
        timestamp = pos_part seconds;
        direction = direction;
        counterparty = counterparty;
        native_amount = round_ℤ wei;
        native_symbol = codes "ETH";
        status =
            if str_eq (or_default it.is_error []) (codes "0") then codes "ok" else codes "failed";
        token_symbol = none;
        token_amount = none;
        token_contract = none;
        risk = risk;
        risk_reasons = reasons;
      }

  -- The number of the block is read after the seconds; both raise where they are no numbers.
  abbrev pub with_numbers : NormalTx → ℤ → Option ℤ → Option ℤ → Result ParsedTx
  with_numbers it wei none block = err value_error
  with_numbers it wei (some seconds) none = err value_error
  with_numbers it wei (some seconds) (some block) = ok (parsed_tx it wei seconds block)

  abbrev pub with_tx : Result ParsedTx → Result (List ParsedTx) → Result (List ParsedTx)
  with_tx (err e) rest = err e
  with_tx (ok tx) (err e) = err e
  with_tx (ok tx) (ok txs) = ok (tx ∷ txs)

  -- One turn of the loop: a value that is no number or is not positive is passed over.
  abbrev pub turn : NormalTx → Option ℤ → Result (List ParsedTx) → Result (List ParsedTx)
  turn it none rest = rest
  turn it (some wei) rest =
      if leb_ℤ wei (pos 0)
      then rest
      else with_tx
          (with_numbers it wei (int_or it.time_stamp (codes "0"))
            (c.int_of_text (or_text it.block_number (codes "0"))))
          rest

  unfoldable pub parse_txs : List NormalTx → Result (List ParsedTx)
  unfolding assess_risk direction_of
  parse_txs [] = ok []
  parse_txs (it ∷ items) = turn it (int_or it.value (codes "0")) (parse_txs items)

  abbrev pub first_of : ℕ → Result (List ParsedTx) → Result (List ParsedTx)
  first_of limit (ok txs) = ok (take limit txs)
  first_of limit (err e) = err e

  abbrev pub of_tx_items : ℕ → Option (List NormalTx) → Result (List ParsedTx)
  of_tx_items limit none = ok []
  of_tx_items limit (some items) = first_of limit (parse_txs items)

  unfoldable pub fetch_recent_transactions : ℕ → Result JsonFields → Result (List ParsedTx)
  unfolding parse_txs
  fetch_recent_transactions limit (err e) = err e
  fetch_recent_transactions limit (ok fs) =
      of_tx_items limit (c.tx_items (or_default (lookup (codes "result") fs) null))

-- The three requests, each by its action.
pub data Action : Type 0 where
  balance_action tokentx_action txlist_action : Action

-- The provider as the services use it: the network answers to an action, an address and a URL.
abbrev pub etherscan_provider :
    EtherscanCodec
    → (Str → ℕ → ℕ)
    → Settings
    → (Action → Str → Str → Result HttpResponse)
    → Provider
etherscan_provider c nibble s network = record {
  fetch_balance =
      λ chain address. fetch_balance c (get_data c s (network balance_action address) chain);
  fetch_token_holdings = λ chain address.
      fetch_token_holdings c address nibble (get_data c s (network tokentx_action address) chain);
  fetch_recent_transactions = λ chain address limit.
      fetch_recent_transactions c address limit
        (get_data c s (network txlist_action address) chain);
}

-- `fetch_portfolio_summary`, of which either call may raise.
abbrev pub portfolio_of : Result WalletBalance → Result (List Holding) → Result PortfolioSummary
portfolio_of (err e) hs = err e
portfolio_of (ok b) (err e) = err e
portfolio_of (ok b) (ok hs) = ok (record {
  native_usd = b.estimated_usd_value;
  tokens_usd = none;
  total_usd = b.estimated_usd_value;
  tokens_count = length hs;
  as_of = 0;
})

unfoldable pub fetch_portfolio_summary : Provider → Str → Str → Result PortfolioSummary
fetch_portfolio_summary p chain address =
    portfolio_of (p.fetch_balance chain address) (p.fetch_token_holdings chain address)
