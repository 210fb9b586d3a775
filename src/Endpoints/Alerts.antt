-- ===== src/Endpoints/Alerts.antt =====
-- apps/api/app/api/v1/alerts.py.
use crypto_intelligence_plat.Alerts.{allowed_kinds, needs_threshold, new_alert, save_alert}
use crypto_intelligence_plat.Base.{
  Bool, List, Option, Str, count_where, is_some, leb_ℤ, none, not, one_of, pos, select, some, ℕ, ℤ,
  ◌&&◌, ◌==◌,
}
use crypto_intelligence_plat.Config.{Settings}
use crypto_intelligence_plat.Deps.{Pagination}
use crypto_intelligence_plat.Endpoints.{page_of, request_session}
use crypto_intelligence_plat.Endpoints.Wallets.{owned_wallet}
use crypto_intelligence_plat.Errors.{conflict_error, not_found_error, validation_error}
use crypto_intelligence_plat.Exec.{
  Exec, Result, gets, lift, one_or_none, pure, raise_if, required, ◌>>=◌, ◌>>◌,
}
use crypto_intelligence_plat.Models.{Alert, Db}
use crypto_intelligence_plat.Models.Tables.{add_alert, remove_alert}
use crypto_intelligence_plat.Schemas.{AlertCreate, AlertOut, AlertUpdate, Page, alert_out}

module _ (settings : Settings) where
  unfoldable pub post_alert : Result (Unit {0}) → ℕ → AlertCreate → Exec Db AlertOut
  post_alert limiter user_id payload = request_session (do
    raise_if (not (one_of payload.kind allowed_kinds)) (validation_error "invalid alert kind")
    raise_if (needs_threshold payload.kind && not (is_some payload.threshold_amount))
        (validation_error "requires threshold_amount")
    lift limiter
    owned_wallet user_id payload.wallet_id
    count ← gets (λ s. count_where (λ (a : Alert). a.user_id == user_id) s.alerts)
    raise_if (leb_ℤ settings.max_alerts_per_user (pos count))
        (conflict_error "alert quota exceeded")
    now ← gets (λ s. s.clock)
    alert ←
        add_alert (
          new_alert user_id payload.wallet_id payload.kind payload.threshold_amount payload.note
            now)
    pure (alert_out alert))

unfoldable pub get_alerts : (List Alert → List Alert) → ℕ → Pagination → Exec Db (Page AlertOut)
get_alerts order user_id pg =
    gets (λ s. page_of (λ a. a.user_id == user_id) order alert_out pg s.alerts)

-- The query of `patch_alert`.
unfoldable pub alert_to_patch : ℕ → ℕ → Exec Db Alert
alert_to_patch user_id alert_id = do
  rows ← gets (λ s. select (λ (a : Alert). (a.id == alert_id) && (a.user_id == user_id)) s.alerts)
  found ← one_or_none rows
  required found (not_found_error "alert")

-- The assignments of `patch_alert`, one after the other.
unfoldable pub assign_is_active : Option Bool → Alert → Alert
assign_is_active none a = a
assign_is_active (some b) a = record a { is_active = b }

unfoldable pub assign_threshold : Option ℤ → Alert → Alert
assign_threshold none a = a
assign_threshold (some t) a = record a { threshold_amount = some t }

unfoldable pub assign_note : Option Str → Alert → Alert
assign_note none a = a
assign_note (some n) a = record a { note = some n }

unfoldable pub assign_alert : AlertUpdate → Alert → Alert
assign_alert payload a =
    assign_note payload.note
      (assign_threshold payload.threshold_amount (assign_is_active payload.is_active a))

unfoldable pub patch_alert : ℕ → ℕ → AlertUpdate → Exec Db AlertOut
unfolding alert_to_patch
patch_alert user_id alert_id payload = request_session (do
  alert ← alert_to_patch user_id alert_id
  save_alert (assign_alert payload alert)
  pure (alert_out (assign_alert payload alert)))

-- The query of `delete_alert_route`.
unfoldable pub alert_to_delete : ℕ → ℕ → Exec Db Alert
alert_to_delete user_id alert_id = do
  rows ← gets (λ s. select (λ (a : Alert). (a.id == alert_id) && (a.user_id == user_id)) s.alerts)
  found ← one_or_none rows
  required found (not_found_error "alert")

unfoldable pub delete_alert_route : ℕ → ℕ → Exec Db (Unit {0})
unfolding alert_to_delete
delete_alert_route user_id alert_id =
    request_session (do alert ← alert_to_delete user_id alert_id; remove_alert alert.id)
