-- ===== src/Alerts/Once.antt =====
-- An alert is delivered once for a transaction.
use crypto_intelligence_plat.Alerts.{
  deliver_once, delivery_row, evaluate_alert_for_tx, event_signature, is_delivered,
}
use crypto_intelligence_plat.Base.{
  ==_refl, Bool, List, Str, [], any, ap, arith, false, if◌then◌else◌, none, refl, select, some,
  str_eq_comm, str_eq_refl, true, ℕ, ◌++◌, ◌+◌, ◌∷◌, ◌≡◌,
}
use crypto_intelligence_plat.Errors.{multiple_results}
use crypto_intelligence_plat.Exec.{Result, bind_ok, err, is_ok, ok, pure}
use crypto_intelligence_plat.Models.{Alert, AlertDelivery, Db, Transaction}
use crypto_intelligence_plat.Models.Tables.{add_delivery, same_delivery}

pub select-append :
    {A : Type 0} (p : A → Bool) (xs : List A) (y : A)
    → select p (xs ++ y ∷ []) ≡ select p xs ++ (if p y then y ∷ [] else [])
unfolding select
select-append p [] y = ground arith
select-append p (x ∷ xs) y = ground (arith, select-append p xs y)

-- The rows that the query finds are those that the unique constraint forbids.
select-delivered :
    (aid : ℕ) (sig : Str) (id : ℕ) (ds : List AlertDelivery)
    → select (is_delivered aid sig) ds ≡ []
    → any (same_delivery (delivery_row aid sig id)) ds ≡ false
unfolding select
select-delivered aid sig id [] h = refl
select-delivered aid sig id (d ∷ ds) h =
    ground (arith, select-delivered aid sig id ds, str_eq_comm sig d.event_signature)

added_delivery :
    (aid : ℕ) (sig : Str) (s : Db)
    → select (is_delivered aid sig) s.deliveries ≡ []
    → add_delivery (delivery_row aid sig) s ≡ (
      ok (delivery_row aid sig s.next_id),
      record s {
        deliveries = s.deliveries ++ delivery_row aid sig s.next_id ∷ [];
        next_id = s.next_id + 1;
      },
    )
unfolding add_delivery
added_delivery aid sig s none_yet = rw (select-delivered aid sig s.next_id s.deliveries none_yet)

pub deliver_new :
    (aid : ℕ) (sig : Str) (s : Db)
    → select (is_delivered aid sig) s.deliveries ≡ []
    → deliver_once aid sig s ≡ (
      ok (some (delivery_row aid sig s.next_id)),
      record s {
        deliveries = s.deliveries ++ delivery_row aid sig s.next_id ∷ [];
        next_id = s.next_id + 1;
      },
    )
unfolding deliver_once
deliver_new aid sig s none_yet = rw none_yet (
    bind_ok (add_delivery (delivery_row aid sig)) (λ d. pure (some d))
      (added_delivery aid sig s none_yet))

pub deliver_old :
    (aid : ℕ) (sig : Str) (d : AlertDelivery) (s : Db)
    → select (is_delivered aid sig) s.deliveries ≡ d ∷ []
    → deliver_once aid sig s ≡ (ok none, s)
unfolding deliver_once
deliver_old aid sig d s found = rw found

pub deliver_broken :
    (aid : ℕ) (sig : Str) (d e : AlertDelivery) (rest : List AlertDelivery) (s : Db)
    → select (is_delivered aid sig) s.deliveries ≡ d ∷ e ∷ rest
    → deliver_once aid sig s ≡ (err multiple_results, s)
unfolding deliver_once
deliver_broken aid sig d e rest s found = rw found

-- Signature of the state after a delivery: the one row of that signature.
delivered_after :
    (aid : ℕ) (sig : Str) (s : Db)
    → select (is_delivered aid sig) s.deliveries ≡ []
    → select (is_delivered aid sig) (s.deliveries ++ delivery_row aid sig s.next_id ∷ [])
      ≡ delivery_row aid sig s.next_id ∷ []
delivered_after aid sig s none_yet = rw (select-append, none_yet, ==_refl aid, str_eq_refl sig)

deliver_once-twice :
    (aid : ℕ) (sig : Str) (s : Db)
    → is_ok (deliver_once aid sig s).0 ≡ true
    → deliver_once aid sig (deliver_once aid sig s).1 ≡ (ok none, (deliver_once aid sig s).1)
deliver_once-twice aid sig s h = by_rows (select (is_delivered aid sig) s.deliveries) refl
  where
    by_rows :
        (rows : List AlertDelivery)
        → select (is_delivered aid sig) s.deliveries ≡ rows
        → deliver_once aid sig (deliver_once aid sig s).1 ≡ (ok none, (deliver_once aid sig s).1)
    by_rows [] e =
        rw (deliver_new aid sig s e)
          (deliver_old aid sig (delivery_row aid sig s.next_id) _ (delivered_after aid sig s e))
    by_rows (d ∷ []) e = rw (deliver_old aid sig d s e) (deliver_old aid sig d s e)
    by_rows (d ∷ d' ∷ rest) e =
        absurd (cc (ap (λ (p : Result _ × Db). is_ok p.0) (deliver_broken aid sig d d' rest s e)))

-- After an evaluation that has not failed, evaluating the same alert for the same transaction again
-- fires nothing and changes nothing.
pub evaluate-once :
    (sha256 : Str → Str) (a : Alert) (t : Transaction) (s : Db)
    → is_ok (evaluate_alert_for_tx sha256 a t s).0 ≡ true
    → evaluate_alert_for_tx sha256 a t (evaluate_alert_for_tx sha256 a t s).1
      ≡ (ok none, (evaluate_alert_for_tx sha256 a t s).1)
unfolding evaluate_alert_for_tx
evaluate-once sha256 a t s h =
    ground (arith, deliver_once-twice a.id (event_signature sha256 a.id (some t.id) a.kind) s)
