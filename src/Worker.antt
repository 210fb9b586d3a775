-- ===== src/Worker.antt =====
-- apps/worker/worker/tasks.py: the tasks of the worker, over the database, the locks in Redis and the
-- messages handed to Telegram. SHA-256 and the provider are arguments.
pub mod Defs
pub mod Upsert
pub mod Process
pub mod Agreement
pub mod Idempotence
pub mod SameLocks
pub mod Locks
pub mod Broker
use crypto_intelligence_plat.Base.{
  Bool, List, Option, Str, [], false, find, if◌then◌else◌, is_some, none, not, or_default, some,
  true, ℕ, ◌+◌, ◌==◌, ◌∷◌,
}
use crypto_intelligence_plat.Errors.{ErrorClass, Exn, app_error, catches_provider}
use crypto_intelligence_plat.Exec.{Exec, Result, err, gets, ok, pure, raise, ◌>>=◌, ◌>>◌}
use crypto_intelligence_plat.Models.{Wallet}
use crypto_intelligence_plat.Models.Tables.{add_snapshot, save_wallet}
use crypto_intelligence_plat.Provider.{Provider}
use crypto_intelligence_plat.Shared.{Holding, ParsedTx, WalletBalance}
use crypto_intelligence_plat.Wallets.{new_snapshot}
use crypto_intelligence_plat.Worker.Defs.{
  WorkState, acquire_wallet_lock, finally, on_db, process_tx, release_wallet_lock, session_scope,
}

-- What `sync_wallet_task` returns as its status.
pub data SyncOutcome : Type 0 where
  skipped locked permanent_error retryable_error : SyncOutcome
  synced : ℕ → ℕ → SyncOutcome

-- `except ProviderPermanentError`, then `except (ProviderRetryableError, ProviderError)`
abbrev pub is_permanent : Exn → Bool
is_permanent (app_error e) = elim e.class_of [ ErrorClass.provider_permanent ↦ true | _ ↦ false ]
is_permanent _ = false

abbrev pub provider_outcome : Exn → Exec WorkState SyncOutcome
provider_outcome e =
    if is_permanent e
    then pure permanent_error
    else if catches_provider e
    then pure retryable_error
    else raise e

-- `if not lock_acquired: return locked`
abbrev pub if_acquired : Exec WorkState SyncOutcome → Bool → Exec WorkState SyncOutcome
if_acquired run true = run
if_acquired run false = pure locked

-- `new_txs` and `alerts_fired` after one round.
abbrev pub counted : Option ℕ → ℕ × ℕ → ℕ × ℕ
counted fired (new_txs, alerts_fired) =
    ((if is_some fired then 1 else 0) + new_txs, or_default fired 0 + alerts_fired)

module _ (sha256 : Str → Str) where
  unfoldable pub process_txs : Wallet → List ParsedTx → Exec WorkState (ℕ × ℕ)
  process_txs w [] = pure (0, 0)
  process_txs w (p ∷ ps) = do
    fired ← process_tx sha256 w p
    counts ← process_txs w ps
    pure (counted fired counts)

  -- What follows the two answers of the provider.
  unfoldable pub apply_sync :
      Wallet → Result WalletBalance → Result (List ParsedTx) → Exec WorkState SyncOutcome
  apply_sync w (err e) _ = provider_outcome e
  apply_sync w (ok balance) (err e) = provider_outcome e
  apply_sync w (ok balance) (ok txs) = do
    now ← gets (λ s. s.db.clock)
    on_db (
        save_wallet
          (record w { last_native_amount = some balance.native_amount; last_synced_at = some now }))
    (n, k) ← process_txs w txs
    pure (synced n k)

  -- `wallet is None or not wallet.is_active`. `up` says whether Redis answers when the lock is taken,
  -- `up_after` whether it does when the lock is released.
  unfoldable pub sync_found :
      Bool → Bool → ℕ → Provider → ℕ → Option Wallet → Exec WorkState SyncOutcome
  sync_found up up_after now provider wid none = pure skipped
  sync_found up up_after now provider wid (some w) =
      if not w.is_active
      then pure skipped
      else (acquire_wallet_lock up now wid
          >>= if_acquired (
              finally
                (apply_sync w (provider.fetch_balance w.chain w.address)
                  (provider.fetch_recent_transactions w.chain w.address 50))
                (release_wallet_lock up_after wid)))

  -- `now` is the clock of Redis.
  unfoldable pub sync_wallet_task : Bool → Bool → ℕ → Provider → ℕ → Exec WorkState SyncOutcome
  sync_wallet_task up up_after now provider wid = session_scope (do
    found ← gets (λ s. find (λ (w : Wallet). w.id == wid) s.db.wallets)
    sync_found up up_after now provider wid found)

pub data SnapshotOutcome : Type 0 where
  snapshot_skipped provider_failed : SnapshotOutcome
  taken : ℕ → SnapshotOutcome

unfoldable pub snapshot_on :
    Wallet → Result WalletBalance → Result (List Holding) → Exec WorkState SnapshotOutcome
snapshot_on w (err e) _ = if catches_provider e then pure provider_failed else raise e
snapshot_on w (ok balance) (err e) = if catches_provider e then pure provider_failed else raise e
snapshot_on w (ok balance) (ok holdings) = do
  now ← gets (λ s. s.db.clock)
  snap ← on_db (add_snapshot (new_snapshot w.id now balance holdings))
  on_db (save_wallet (record w { last_total_usd = snap.total_usd }))
  pure (taken snap.id)

unfoldable pub snapshot_found : Provider → Option Wallet → Exec WorkState SnapshotOutcome
snapshot_found provider none = pure snapshot_skipped
snapshot_found provider (some w) =
    if not w.is_active
    then pure snapshot_skipped
    else snapshot_on w (provider.fetch_balance w.chain w.address)
        (provider.fetch_token_holdings w.chain w.address)

unfoldable pub snapshot_wallet_task : Provider → ℕ → Exec WorkState SnapshotOutcome
snapshot_wallet_task provider wid = session_scope (do
  found ← gets (λ s. find (λ (w : Wallet). w.id == wid) s.db.wallets)
  snapshot_found provider found)
