-- ===== src/Tests/Workers.antt =====
-- The worker's tasks.
use crypto_intelligence_plat.Alerts.{deliver_once, list_alerts_for_wallet}
use crypto_intelligence_plat.Base.{
  All, List, [], any, ap, arith, false, find, refl, select, some, str_eq, str_uuid, true, ℕ, ◌∷◌,
  ◌≡◌, ◌≢◌,
}
use crypto_intelligence_plat.Exec.{is_ok, ok}
use crypto_intelligence_plat.Models.Tables.{add_delivery, add_transaction}
use crypto_intelligence_plat.Tests.Data.{toy_provider, toy_sha256, toy_state, toy_tx, wallet_of}
use crypto_intelligence_plat.Worker.{process_txs, sync_found}
use crypto_intelligence_plat.Worker.Defs.{
  acquire_wallet_lock, enqueue_telegram_alert, evaluate_alerts, fire_all, is_held, join_commas,
  process_tx, release_wallet_lock, try_fire_alert, upsert_transaction, worker_signature,
}
use crypto_intelligence_plat.Worker.Idempotence.{process_txs-idempotent}
use crypto_intelligence_plat.Worker.Locks.{
  LockStep, Spares, acquire, acquire-excludes, after_steps, attempts, release-of_another, releases,
  sync-releases,
}

program : Unit {0}
unfolding process_txs process_tx upsert_transaction add_transaction evaluate_alerts fire_all
    try_fire_alert list_alerts_for_wallet deliver_once add_delivery enqueue_telegram_alert
    worker_signature str_uuid join_commas select find str_eq
program = tt

-- One new transaction, one alert.
first_sync : (process_txs toy_sha256 (wallet_of 10 1) (toy_tx ∷ []) toy_state).0 ≡ ok (1, 1)
unfolding program
first_sync = refl

process_txs-idempotent_example :
    process_txs toy_sha256
      (wallet_of 10 1)
      (toy_tx ∷ [])
      (process_txs toy_sha256 (wallet_of 10 1) (toy_tx ∷ []) toy_state).1
    ≡ (ok (0, 0), (process_txs toy_sha256 (wallet_of 10 1) (toy_tx ∷ []) toy_state).1)
process_txs-idempotent_example =
    process_txs-idempotent toy_sha256 (wallet_of 10 1) (toy_tx ∷ []) toy_state (ap is_ok first_sync)

-- Another task fails to get the lock, and one on another wallet comes and goes.
abbrev others : List LockStep
others = attempts true 20 10 ∷ attempts true 30 11 ∷ releases true 11 ∷ []

others-Spare : All (Spares 125 10) others
others-Spare = (omega arith, (omega arith, ((λ e. ground arith), tt)))

acquire-excludes_example :
    ((acquire_wallet_lock true 50 10
        (after_steps others (acquire_wallet_lock true 5 10 toy_state).1)).0
      ≡ ok false)
    × (◌≢◌ {A = ℕ} 11 10
        → any (is_held 50 11) (acquire_wallet_lock true 5 10 toy_state).1.locks
          ≡ any (is_held 50 11) toy_state.locks)
unfolding acquire_wallet_lock
acquire-excludes_example =
    acquire-excludes 5 50 10 11 toy_state others refl others-Spare (omega arith)

release-of_another_example :
    ((acquire_wallet_lock true 0 10 toy_state).0 ≡ ok true)
    × ((acquire_wallet_lock true 120 10 (acquire 0 10 toy_state)).0 ≡ ok true)
    × ((acquire_wallet_lock true 130 10
          (release_wallet_lock true 10 (acquire 120 10 (acquire 0 10 toy_state)))).0
        ≡ ok true)
release-of_another_example =
    release-of_another 0 120 130 10 toy_state (omega arith) (omega arith) refl

sync-releases_example :
    (any
        (is_held 6 10)
        (sync_found toy_sha256 true true 5 toy_provider 10
          (some (wallet_of 10 1))
          toy_state).1.locks
      ≡ false)
    × (any
          (is_held 6 10)
          (sync_found toy_sha256 true false 5 toy_provider 10
            (some (wallet_of 10 1))
            toy_state).1.locks
        ≡ true)
sync-releases_example =
    sync-releases toy_sha256 5 6 10 toy_provider (wallet_of 10 1) toy_state refl refl
