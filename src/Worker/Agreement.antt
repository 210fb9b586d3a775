-- ===== src/Worker/Agreement.antt =====
-- The worker's copy of the alert rules against the service's.
use crypto_intelligence_plat.Alerts.{evaluate_alert_for_tx, event_signature, fires}
use crypto_intelligence_plat.Base.{Str, arith, refl, some, ℕ, ◌≡◌}
use crypto_intelligence_plat.Models.{Alert, Db, Transaction}
use crypto_intelligence_plat.Worker.Defs.{hits, try_fire_alert, worker_signature}

-- The service signs with an optional transaction id, the worker with a plain one: the same text.
signature-agrees :
    (sha256 : Str → Str) (aid tid : ℕ) (kind : Str)
    → worker_signature sha256 aid tid kind ≡ event_signature sha256 aid (some tid) kind
unfolding worker_signature event_signature
signature-agrees sha256 aid tid kind = refl

hits-eq-fires : (a : Alert) (t : Transaction) → hits a t ≡ fires a t
unfolding hits fires
hits-eq-fires a t = ground arith

-- `_try_fire_alert` of the worker and `evaluate_alert_for_tx` of the service do the same, on every
-- alert, transaction and database.
pub try_fire_alert-eq-evaluate :
    (sha256 : Str → Str) (a : Alert) (t : Transaction) (s : Db)
    → try_fire_alert sha256 a t s ≡ evaluate_alert_for_tx sha256 a t s
unfolding try_fire_alert evaluate_alert_for_tx
try_fire_alert-eq-evaluate sha256 a t s =
    rw (hits-eq-fires a t, signature-agrees sha256 a.id t.id a.kind) (ground arith)
