-- ===== src/Endpoints/Reads.antt =====
-- apps/api/app/api/v1/wallets.py: the endpoints that only read.
use crypto_intelligence_plat.Base.{
  Bool, List, Option, Str, [], if◌then◌else◌, is_empty, map, min, none, not, order_by_desc, select,
  some, split_on, take, ℕ, ◌&&◌, ◌==◌, ◌||◌,
}
use crypto_intelligence_plat.Deps.{Pagination}
use crypto_intelligence_plat.Endpoints.{page_of}
use crypto_intelligence_plat.Endpoints.Wallets.{owned_wallet}
use crypto_intelligence_plat.Exec.{Exec, gets, pure, ◌>>=◌}
use crypto_intelligence_plat.Models.{Db, Transaction, Wallet, WalletSnapshot}
use crypto_intelligence_plat.Schemas.{
  Page, TokenHoldingOut, TransactionOut, WalletOut, WalletSnapshotOut, WalletWithSummary,
  holding_out, snapshot_out, wallet_out, wallet_with_summary,
}
use crypto_intelligence_plat.Wallets.{holdings_in, matches_direction}

abbrev pub listed : ℕ → Bool → Wallet → Bool
listed user_id active_only w = (w.user_id == user_id) && (not active_only || w.is_active)

unfoldable pub get_wallets :
    (List Wallet → List Wallet) → ℕ → Pagination → Bool → Exec Db (Page WalletOut)
get_wallets order user_id pg active_only =
    gets (λ s. page_of (listed user_id active_only) order wallet_out pg s.wallets)

unfoldable pub get_wallet : ℕ → ℕ → Exec Db WalletWithSummary
get_wallet user_id wallet_id = do
  wallet ← owned_wallet user_id wallet_id
  pure (wallet_with_summary wallet)

-- `tx.risk_reasons.split(",") if tx.risk_reasons else []`
abbrev pub reasons_of : Option Str → List Str
reasons_of none = []
reasons_of (some s) = if is_empty s then [] else split_on 44 s

-- `_tx_to_dict`
abbrev pub tx_to_dict : Transaction → TransactionOut
tx_to_dict t = record {
  id = t.id;
  tx_hash = t.tx_hash;
  block = t.block;
  timestamp = t.timestamp;
  direction = t.direction;
  counterparty = t.counterparty;
  native_amount = t.native_amount;
  native_symbol = t.native_symbol;
  token_symbol = t.token_symbol;
  token_contract = t.token_contract;
  token_amount = t.token_amount;
  status = t.status;
  risk_level = t.risk_level;
  risk_reasons = reasons_of t.risk_reasons;
}

-- The direction, where it is given, is one of in, out and self: the query parameter has a pattern.
unfoldable pub get_txs :
    (List Transaction → List Transaction)
    → ℕ
    → ℕ
    → Pagination
    → Option Str
    → Exec Db (Page TransactionOut)
get_txs order user_id wallet_id pg direction = do
  wallet ← owned_wallet user_id wallet_id
  gets (λ s.
      page_of (λ t. (t.wallet_id == wallet.id) && matches_direction direction t) order tx_to_dict pg
        s.transactions)

unfoldable pub get_holdings : ℕ → ℕ → Exec Db (List TokenHoldingOut)
get_holdings user_id wallet_id = do
  wallet ← owned_wallet user_id wallet_id
  rows ← gets (holdings_in wallet.id)
  pure (map holding_out rows)

-- `limit` is between 1 and 200 by its query parameter.
unfoldable pub get_snapshots : ℕ → ℕ → ℕ → Exec Db (List WalletSnapshotOut)
get_snapshots user_id wallet_id limit = do
  wallet ← owned_wallet user_id wallet_id
  rows ← gets (λ s. select (λ (x : WalletSnapshot). x.wallet_id == wallet.id) s.snapshots)
  pure (map snapshot_out (take (min limit 200) (order_by_desc (λ x. x.taken_at) rows)))
