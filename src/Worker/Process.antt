-- ===== src/Worker/Process.antt =====
-- How one transaction of the provider is processed: the table afterwards knows it, once.
use crypto_intelligence_plat.Alerts.{deliver_once, is_delivered, list_alerts_for_wallet}
use crypto_intelligence_plat.Alerts.Once.{deliver_broken, deliver_new, deliver_old, select-append}
use crypto_intelligence_plat.Base.{
  ==_refl, Bool, List, Option, Str, [], ap, arith, false, find, if◌then◌else◌, is_some, none, refl,
  select, some, str_eq_refl, true, ℕ, ◌++◌, ◌+◌, ◌==◌, ◌∙◌, ◌∷◌, ◌≡◌,
}
use crypto_intelligence_plat.Errors.{multiple_results}
use crypto_intelligence_plat.Exec.{
  Exec, Result, bind_err, bind_ok, err, is_ok, modify, ok, pure, state-return, ◌>>=◌, ◌>>◌,
}
use crypto_intelligence_plat.Exec.Keeps.{Keeps, Keeps-bind}
use crypto_intelligence_plat.Models.{Alert, AlertDelivery, Db, Transaction, User, Wallet}
use crypto_intelligence_plat.Shared.{ParsedTx}
use crypto_intelligence_plat.Worker.Defs.{
  WorkState, enqueue_telegram_alert, evaluate_alerts, fire_all, is_known, new_transaction,
  notice_for, on_db, process_tx, try_fire_alert, upsert_transaction, worker_signature,
}
use crypto_intelligence_plat.Worker.Upsert.{
  Known, select-other, upsert-cases, was_broken, was_known, was_new,
}

-- Alerts and messages leave the transactions alone.
deliver_once-transactions :
    (aid : ℕ) (sig : Str) (s : Db) → (deliver_once aid sig s).1.transactions ≡ s.transactions
deliver_once-transactions aid sig s = by_rows (select (is_delivered aid sig) s.deliveries) refl
  where
    by_rows :
        (rows : List AlertDelivery)
        → select (is_delivered aid sig) s.deliveries ≡ rows
        → (deliver_once aid sig s).1.transactions ≡ s.transactions
    by_rows [] e = ap (λ (p : Result _ × Db). p.1.transactions) (deliver_new aid sig s e)
    by_rows (d ∷ []) e = ap (λ (p : Result _ × Db). p.1.transactions) (deliver_old aid sig d s e)
    by_rows (d ∷ d' ∷ rest) e =
        ap (λ (p : Result _ × Db). p.1.transactions) (deliver_broken aid sig d d' rest s e)

abbrev SameTxs : List Transaction → WorkState → Type 0
SameTxs ts s = s.db.transactions ≡ ts

module _ (sha256 : Str → Str) (ts : List Transaction) where
  try_fire-SameTxs :
      (a : Alert) (t : Transaction) → Keeps (SameTxs ts) (on_db (try_fire_alert sha256 a t))
  unfolding try_fire_alert
  try_fire-SameTxs a t = record {
    at = λ s h.
        ground
          (arith, deliver_once-transactions a.id (worker_signature sha256 a.id t.id a.kind) s.db);
  }

  enqueue-SameTxs :
      (b : Bool) (a : Alert) (t : Transaction)
      → Keeps (SameTxs ts) (modify (if b then enqueue_telegram_alert a t else λ s. s))
  unfolding enqueue_telegram_alert
  enqueue-SameTxs true a t = record {
    at = λ s h. sent (find (λ (u : User). u.id == a.user_id) s.db.users) s h;
  }
    where
      sent :
          (o : Option User) (s : WorkState)
          → SameTxs ts s
          → SameTxs ts (elim o [
            | none ↦ s
            | some u ↦ record s { outbox = s.outbox ++ notice_for a t u ∷ [] }
          ])
      sent none s h = h
      sent (some u) s h = h
  enqueue-SameTxs false a t = record { at = λ s h. h }

  fire_all-SameTxs :
      (alerts : List Alert) (t : Transaction) → Keeps (SameTxs ts) (fire_all sha256 alerts t)
  unfolding fire_all
  fire_all-SameTxs [] t = record { at = λ s h. h }
  fire_all-SameTxs (a ∷ as') t =
      Keeps-bind (on_db (try_fire_alert sha256 a t)) after (try_fire-SameTxs a t) (λ d.
        Keeps-bind (modify (if is_some d then enqueue_telegram_alert a t else λ s. s))
          (λ _. fire_all sha256 as' t >>= counted d) (enqueue-SameTxs (is_some d) a t)
          (λ _.
            Keeps-bind (fire_all sha256 as' t) (counted d) (fire_all-SameTxs as' t)
              (λ n. record { at = λ s h. h })))
    where
      counted : Option AlertDelivery → ℕ → Exec WorkState ℕ
      counted d n = pure ((if is_some d then 1 else 0) + n)

      after : Option AlertDelivery → Exec WorkState ℕ
      after d =
          modify (if is_some d then enqueue_telegram_alert a t else λ s. s)
          >> (fire_all sha256 as' t >>= counted d)

  evaluate-SameTxs :
      (w : Wallet) (t : Transaction) → Keeps (SameTxs ts) (evaluate_alerts sha256 w t)
  unfolding evaluate_alerts list_alerts_for_wallet
  evaluate-SameTxs w t =
      Keeps-bind (on_db (list_alerts_for_wallet w.id)) (λ alerts. fire_all sha256 alerts t)
        (record { at = λ s h. h }) (λ alerts. fire_all-SameTxs alerts t)

on_db_run :
    {A : Type 0} (m : Exec Db A) (s : WorkState) {r : Result A} {d : Db}
    → m s.db ≡ (r, d)
    → on_db m s ≡ (r, record s { db = d })
on_db_run m s e = ap (λ (p : Result _ × Db). (p.0, record s { db = p.1 })) e

-- The three ways in which one transaction of the provider is processed.
pub data Processed (sha256 : Str → Str) (w : Wallet) (p : ParsedTx) (s : WorkState) : Type 0 where
  unchanged :
      Known w.id p.tx_hash s → process_tx sha256 w p s ≡ (ok none, s) → Processed sha256 w p s
  grown :
      select (is_known w.id p.tx_hash) s.db.transactions ≡ []
      → (process_tx sha256 w p s).1.db.transactions
        ≡ s.db.transactions ++ new_transaction w.id p s.db.next_id ∷ []
      → Processed sha256 w p s
  failing :
      (t u : Transaction) (rest : List Transaction)
      → select (is_known w.id p.tx_hash) s.db.transactions ≡ t ∷ u ∷ rest
      → process_tx sha256 w p s ≡ (err multiple_results, s)
      → Processed sha256 w p s

module _ (sha256 : Str → Str) (w : Wallet) (p : ParsedTx) (s : WorkState) where
  after_upsert : Option Transaction → Exec WorkState (Option ℕ)
  after_upsert o = elim o [
    | none ↦ pure none
    | some t ↦ (do n ← evaluate_alerts sha256 w t; pure (some n))
  ]

  pub process_tx-cases : Processed sha256 w p s
  unfolding process_tx after_upsert
  process_tx-cases = elim (upsert-cases w p s.db) [
    | was_known t found e ↦
        unchanged (t, found)
          (bind_ok (on_db (upsert_transaction w p)) after_upsert
            (on_db_run (upsert_transaction w p) s e))
    | was_new none_yet e ↦
        let t = new_transaction w.id p s.db.next_id in
        let s1 = record s {
          db = record s.db {
            transactions = s.db.transactions ++ t ∷ [];
            next_id = s.db.next_id + 1;
          };
        } in
        grown none_yet (
          ap (λ (q : Result (Option ℕ) × WorkState). q.1.db.transactions)
            (bind_ok (on_db (upsert_transaction w p)) after_upsert
              (on_db_run (upsert_transaction w p) s e))
          ∙ (ap (λ (q : WorkState). q.db.transactions)
                (state-return some (evaluate_alerts sha256 w t) s1)
              ∙ (evaluate-SameTxs sha256 (s.db.transactions ++ t ∷ []) w t).at s1 refl))
    | was_broken t u rest q e ↦ failing t u rest q (
        bind_err (on_db (upsert_transaction w p)) after_upsert
          (on_db_run (upsert_transaction w p) s e))
  ]

  pub process_tx-Known_keep :
      (wid : ℕ) (hash : Str) → Known wid hash s → Known wid hash (process_tx sha256 w p s).1
  process_tx-Known_keep wid hash (t, found) = elim process_tx-cases [
    | unchanged k e ↦ (
      t,
      ap (λ (q : Result _ × WorkState). select (is_known wid hash) q.1.db.transactions) e ∙ found,
    )
    | grown none_yet e ↦ (
      t,
      ap (select (is_known wid hash)) e
          ∙ select-other wid hash (new_transaction w.id p) s.db.next_id s.db.transactions t found
              none_yet,
    )
    | failing t' u rest q e ↦ (
      t,
      ap (λ (q : Result _ × WorkState). select (is_known wid hash) q.1.db.transactions) e ∙ found,
    )
  ]

  pub process_tx-Known_self :
      is_ok (process_tx sha256 w p s).0 ≡ true → Known w.id p.tx_hash (process_tx sha256 w p s).1
  process_tx-Known_self h = elim process_tx-cases [
    | unchanged (t, found) e ↦ (
      t,
      ap (λ (q : Result _ × WorkState). select (is_known w.id p.tx_hash) q.1.db.transactions) e
          ∙ found,
    )
    | grown none_yet e ↦ (
      new_transaction w.id p s.db.next_id,
      ap (select (is_known w.id p.tx_hash)) e
          ∙ rw (select-append, none_yet, ==_refl w.id, str_eq_refl p.tx_hash),
    )
    | failing t' u rest q e ↦ cc (ap (λ (q : Result _ × WorkState). is_ok q.0) e, h)
  ]

  pub process_tx-Known : Known w.id p.tx_hash s → process_tx sha256 w p s ≡ (ok none, s)
  process_tx-Known (t, found) = elim process_tx-cases [
    | unchanged k e ↦ e
    | grown none_yet e ↦ cc (found, none_yet)
    | failing t' u rest q e ↦ cc (found, q)
  ]
