-- ===== src/Tests/Alerts.antt =====
-- Alerts.
use crypto_intelligence_plat.Alerts.{deliver_once, evaluate_alert_for_tx, event_signature, fires}
use crypto_intelligence_plat.Alerts.Firing.{Applies, fires-iff_Applies}
use crypto_intelligence_plat.Alerts.Once.{evaluate-once}
use crypto_intelligence_plat.Base.{none, refl, select, str_eq, str_uuid, true, ◌↔◌, ◌≡◌}
use crypto_intelligence_plat.Exec.{is_ok, ok}
use crypto_intelligence_plat.Models.{Transaction}
use crypto_intelligence_plat.Models.Tables.{add_delivery}
use crypto_intelligence_plat.Tests.Data.{toy_alert, toy_db, toy_sha256, toy_tx}
use crypto_intelligence_plat.Worker.Agreement.{try_fire_alert-eq-evaluate}
use crypto_intelligence_plat.Worker.Defs.{new_transaction, try_fire_alert}

abbrev big_tx : Transaction
big_tx = new_transaction 10 toy_tx 30

fires-iff_Applies_example : (fires toy_alert big_tx ≡ true) ↔ Applies toy_alert big_tx
fires-iff_Applies_example = fires-iff_Applies toy_alert big_tx

first_delivery : is_ok (evaluate_alert_for_tx toy_sha256 toy_alert big_tx toy_db).0 ≡ true
unfolding evaluate_alert_for_tx deliver_once add_delivery event_signature str_uuid str_eq select
first_delivery = refl

evaluate-once_example :
    evaluate_alert_for_tx toy_sha256 toy_alert big_tx
      (evaluate_alert_for_tx toy_sha256 toy_alert big_tx toy_db).1
    ≡ (ok none, (evaluate_alert_for_tx toy_sha256 toy_alert big_tx toy_db).1)
evaluate-once_example = evaluate-once toy_sha256 toy_alert big_tx toy_db first_delivery

try_fire_alert-eq-evaluate_example :
    try_fire_alert toy_sha256 toy_alert big_tx toy_db
    ≡ evaluate_alert_for_tx toy_sha256 toy_alert big_tx toy_db
try_fire_alert-eq-evaluate_example = try_fire_alert-eq-evaluate toy_sha256 toy_alert big_tx toy_db
