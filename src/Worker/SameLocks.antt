-- ===== src/Worker/SameLocks.antt =====
-- What a synchronisation does between taking and releasing the lock leaves the locks alone.
use crypto_intelligence_plat.Alerts.{list_alerts_for_wallet}
use crypto_intelligence_plat.Base.{
  Bool, List, Option, Str, [], false, find, if◌then◌else◌, is_some, none, some, true, ℕ, ◌++◌, ◌+◌,
  ◌==◌, ◌∷◌, ◌≡◌,
}
use crypto_intelligence_plat.Errors.{Exn, catches_provider}
use crypto_intelligence_plat.Exec.{Exec, Result, err, modify, ok, pure, raise, ◌>>=◌, ◌>>◌}
use crypto_intelligence_plat.Exec.Keeps.{Keeps, Keeps-bind}
use crypto_intelligence_plat.Models.{Alert, AlertDelivery, Db, Transaction, User, Wallet}
use crypto_intelligence_plat.Models.Tables.{save_wallet}
use crypto_intelligence_plat.Shared.{ParsedTx, WalletBalance}
use crypto_intelligence_plat.Worker.{
  SyncOutcome, apply_sync, counted, is_permanent, permanent_error, process_txs, provider_outcome,
  retryable_error, synced,
}
use crypto_intelligence_plat.Worker.Defs.{
  WorkState, enqueue_telegram_alert, evaluate_alerts, fire_all, notice_for, on_db, process_tx,
  try_fire_alert, upsert_transaction,
}

abbrev pub SameLocks : List (ℕ × ℕ) → WorkState → Type 0
SameLocks ls s = s.locks ≡ ls

module _ (sha256 : Str → Str) (ls : List (ℕ × ℕ)) where
  on_db-SameLocks : {A : Type 0} (m : Exec Db A) → Keeps (SameLocks ls) (on_db m)
  on_db-SameLocks m = record { at = λ s h. h }

  enqueue-SameLocks :
      (b : Bool) (a : Alert) (t : Transaction)
      → Keeps (SameLocks ls) (modify (if b then enqueue_telegram_alert a t else λ s. s))
  unfolding enqueue_telegram_alert
  enqueue-SameLocks true a t = record {
    at = λ s h. sent (find (λ (u : User). u.id == a.user_id) s.db.users) s h;
  }
    where
      sent :
          (o : Option User) (s : WorkState)
          → SameLocks ls s
          → SameLocks ls (elim o [
            | none ↦ s
            | some u ↦ record s { outbox = s.outbox ++ notice_for a t u ∷ [] }
          ])
      sent none s h = h
      sent (some u) s h = h
  enqueue-SameLocks false a t = record { at = λ s h. h }

  fire_all-SameLocks :
      (alerts : List Alert) (t : Transaction) → Keeps (SameLocks ls) (fire_all sha256 alerts t)
  unfolding fire_all
  fire_all-SameLocks [] t = record { at = λ s h. h }
  fire_all-SameLocks (a ∷ more) t =
      Keeps-bind (on_db (try_fire_alert sha256 a t)) after
        (on_db-SameLocks (try_fire_alert sha256 a t))
        (λ d.
          Keeps-bind (modify (if is_some d then enqueue_telegram_alert a t else λ s. s))
            (λ _. fire_all sha256 more t >>= total d) (enqueue-SameLocks (is_some d) a t)
            (λ _.
              Keeps-bind (fire_all sha256 more t) (total d) (fire_all-SameLocks more t)
                (λ n. record { at = λ s h. h })))
    where
      total : Option AlertDelivery → ℕ → Exec WorkState ℕ
      total d n = pure ((if is_some d then 1 else 0) + n)

      after : Option AlertDelivery → Exec WorkState ℕ
      after d =
          modify (if is_some d then enqueue_telegram_alert a t else λ s. s)
          >> (fire_all sha256 more t >>= total d)

  process_tx-SameLocks : (w : Wallet) (p : ParsedTx) → Keeps (SameLocks ls) (process_tx sha256 w p)
  unfolding process_tx evaluate_alerts
  process_tx-SameLocks w p =
      Keeps-bind (on_db (upsert_transaction w p)) after (on_db-SameLocks (upsert_transaction w p))
        of_insert
    where
      after : Option Transaction → Exec WorkState (Option ℕ)
      after o = elim o [
        | none ↦ pure none
        | some t ↦ (do n ← evaluate_alerts sha256 w t; pure (some n))
      ]

      of_insert : (o : Option Transaction) → Keeps (SameLocks ls) (after o)
      of_insert none = record { at = λ s h. h }
      of_insert (some t) =
          Keeps-bind (evaluate_alerts sha256 w t) (λ n. pure (some n))
            (Keeps-bind (on_db (list_alerts_for_wallet w.id)) (λ alerts. fire_all sha256 alerts t)
              (on_db-SameLocks (list_alerts_for_wallet w.id))
              (λ alerts. fire_all-SameLocks alerts t))
            (λ n. record { at = λ s h. h })

  process_txs-SameLocks :
      (w : Wallet) (ps : List ParsedTx) → Keeps (SameLocks ls) (process_txs sha256 w ps)
  unfolding process_txs
  process_txs-SameLocks w [] = record { at = λ s h. h }
  process_txs-SameLocks w (p ∷ ps) =
      Keeps-bind (process_tx sha256 w p)
        (λ fired. process_txs sha256 w ps >>= (λ counts. pure (counted fired counts)))
        (process_tx-SameLocks w p)
        (λ fired.
          Keeps-bind (process_txs sha256 w ps) (λ counts. pure (counted fired counts))
            (process_txs-SameLocks w ps) (λ counts. record { at = λ s h. h }))

  outcome-SameLocks : (e : Exn) → Keeps (SameLocks ls) (provider_outcome e)
  outcome-SameLocks e = record { at = λ s h. by_class (is_permanent e) (catches_provider e) s h }
    where
      by_class :
          (a b : Bool) (s : WorkState)
          → SameLocks ls s
          → SameLocks ls (
              let r : Result SyncOutcome × WorkState =
                (if a then pure permanent_error else if b then pure retryable_error else raise e)
                  s in
              r.1)
      by_class true b s h = h
      by_class false true s h = h
      by_class false false s h = h

  pub apply_sync-SameLocks :
      (w : Wallet) (b : Result WalletBalance) (txs : Result (List ParsedTx))
      → Keeps (SameLocks ls) (apply_sync sha256 w b txs)
  unfolding apply_sync
  apply_sync-SameLocks w (err e) txs = outcome-SameLocks e
  apply_sync-SameLocks w (ok balance) (err e) = outcome-SameLocks e
  apply_sync-SameLocks w (ok balance) (ok txs) = record {
    at = λ s h.
        (Keeps-bind (on_db (save_wallet (updated s.db.clock)))
            (λ _. process_txs sha256 w txs >>= (λ c. pure (synced c.0 c.1)))
            (on_db-SameLocks (save_wallet (updated s.db.clock)))
            (λ _.
              Keeps-bind (process_txs sha256 w txs) (λ c. pure (synced c.0 c.1))
                (process_txs-SameLocks w txs) (λ c. record { at = λ t q. q }))).at
          s h;
  }
    where
      updated : ℕ → Wallet
      updated now = record w {
        last_native_amount = some balance.native_amount;
        last_synced_at = some now;
      }
