-- ===== src/Alerts.antt =====
-- apps/api/app/services/alerts.py. SHA-256 is an argument: `sha256 s` is the hex digest.
pub mod Firing
pub mod Once
use crypto_intelligence_plat.Base.{
  Bool, List, Option, Str, [], codes, count_where, drop, false, if◌then◌else◌, is_some, leb_ℤ, none,
  not, one_of, or_default, order_by_desc, select, some, str_eq, str_uuid, take, true, update_where,
  ℕ, ℤ, ◌&&◌, ◌*◌, ◌++◌, ◌-◌, ◌==◌, ◌||◌, ◌∷◌,
}
use crypto_intelligence_plat.Errors.{integrity_error, not_found_error, validation_error}
use crypto_intelligence_plat.Exec.{
  Exec, err, gets, ok, one_or_none, pure, raise_if, required, ◌>>=◌, ◌>>◌,
}
use crypto_intelligence_plat.Models.{Alert, AlertDelivery, Db, Transaction}
use crypto_intelligence_plat.Models.Tables.{add_alert, add_delivery, remove_alert, threshold_fits}
use crypto_intelligence_plat.Wallets.{get_owned_wallet}

abbrev pub incoming_above : Str
incoming_above = codes "incoming_above"

abbrev pub outgoing_above : Str
outgoing_above = codes "outgoing_above"

abbrev pub activity : Str
activity = codes "activity"

abbrev pub balance_above : Str
balance_above = codes "balance_above"

abbrev pub token_transfer : Str
token_transfer = codes "token_transfer"

-- `ALLOWED_KINDS`
abbrev pub allowed_kinds : List Str
allowed_kinds = incoming_above ∷ outgoing_above ∷ activity ∷ balance_above ∷ token_transfer ∷ []

abbrev pub needs_threshold : Str → Bool
needs_threshold kind = one_of kind (incoming_above ∷ outgoing_above ∷ balance_above ∷ [])

abbrev pub new_alert : ℕ → ℕ → Str → Option ℤ → Option Str → ℕ → ℕ → Alert
new_alert uid wid kind threshold note now id = record {
  id = id;
  user_id = uid;
  wallet_id = wid;
  kind = kind;
  threshold_amount = threshold;
  is_active = true;
  note = note;
  created_at = now;
}

unfoldable pub create_alert : ℕ → ℕ → Str → Option ℤ → Option Str → Exec Db Alert
create_alert user_id wallet_id kind threshold note = do
  raise_if (not (one_of kind allowed_kinds)) (validation_error "invalid alert kind")
  raise_if (needs_threshold kind && not (is_some threshold))
      (validation_error "requires threshold_amount")
  get_owned_wallet user_id wallet_id
  now ← gets (λ s. s.clock)
  add_alert (new_alert user_id wallet_id kind threshold note now)

unfoldable pub list_alerts : ℕ → ℕ → ℕ → Exec Db (List Alert × ℕ)
list_alerts user_id page page_size s =
    let mine = λ (a : Alert). a.user_id == user_id in
    (
      ok (
        take page_size (
            drop ((page - 1) * page_size)
              (order_by_desc (λ a. a.created_at) (select mine s.alerts))),
        count_where mine s.alerts,
      ),
      s,
    )

-- `select(Alert).where(Alert.id == alert_id, Alert.user_id == user_id)`
unfoldable pub get_owned_alert : ℕ → ℕ → Exec Db Alert
get_owned_alert user_id alert_id = do
  rows ← gets (λ s. select (λ (a : Alert). (a.id == alert_id) && (a.user_id == user_id)) s.alerts)
  found ← one_or_none rows
  required found (not_found_error "alert")

-- The check on the threshold holds on UPDATE too.
unfoldable pub save_alert : Alert → Exec Db (Unit {0})
save_alert a s =
    if threshold_fits a.threshold_amount
    then (ok tt, record s { alerts = update_where (λ (b : Alert). b.id == a.id) (λ _. a) s.alerts })
    else (err integrity_error, s)

-- `x if x is not None else y`, on fields that may be None
abbrev pub given_or : {A : Type 0} → Option A → Option A → Option A
given_or none old = old
given_or (some a) _ = some a

abbrev pub patched_alert : Alert → Option Bool → Option ℤ → Option Str → Alert
patched_alert a is_active threshold note = record a {
  is_active = or_default is_active a.is_active;
  threshold_amount = given_or threshold a.threshold_amount;
  note = given_or note a.note;
}

unfoldable pub update_alert : ℕ → ℕ → Option Bool → Option ℤ → Option Str → Exec Db Alert
update_alert user_id alert_id is_active threshold note = do
  alert ← get_owned_alert user_id alert_id
  save_alert (patched_alert alert is_active threshold note)
  pure (patched_alert alert is_active threshold note)

unfoldable pub delete_alert : ℕ → ℕ → Exec Db (Unit {0})
delete_alert user_id alert_id = do alert ← get_owned_alert user_id alert_id; remove_alert alert.id

-- `tx.native_amount >= threshold`, where there is a threshold
abbrev pub reaches : Option ℤ → ℤ → Bool
reaches none amount = false
reaches (some t) amount = leb_ℤ t amount

-- The chain of tests of `evaluate_alert_for_tx`; `balance_above` returns None, which is no firing.
unfoldable pub fires : Alert → Transaction → Bool
fires alert tx =
    if (str_eq alert.kind incoming_above && str_eq tx.direction (codes "in"))
      || (str_eq alert.kind outgoing_above && str_eq tx.direction (codes "out"))
    then reaches alert.threshold_amount tx.native_amount
    else if str_eq alert.kind activity
    then true
    else if str_eq alert.kind token_transfer
    then is_some tx.token_contract
    else false

abbrev pub delivery_row : ℕ → Str → ℕ → AlertDelivery
delivery_row alert_id sig id = record {
  id = id;
  alert_id = alert_id;
  event_signature = sig;
  channel = codes "telegram";
  status = codes "sent";
}

abbrev pub is_delivered : ℕ → Str → AlertDelivery → Bool
is_delivered alert_id sig d = (d.alert_id == alert_id) && str_eq d.event_signature sig

-- The insert that follows when the alert applies and fires.
unfoldable pub deliver_once : ℕ → Str → Exec Db (Option AlertDelivery)
deliver_once alert_id sig = do
  rows ← gets (λ s. select (is_delivered alert_id sig) s.deliveries)
  existing ← one_or_none rows
  if is_some existing
      then pure none
      else do d ← add_delivery (delivery_row alert_id sig); pure (some d)

module _ (sha256 : Str → Str) where
  -- sha256(f"{alert_id}:{kind}" + f":{tx_id}")[:32]; a transaction of the table has an id.
  unfoldable pub event_signature : ℕ → Option ℕ → Str → Str
  event_signature alert_id tx_id kind = take 32 (
      sha256
        (str_uuid alert_id ++ (58 ∷ kind ++ elim tx_id [ none ↦ [] | some t ↦ 58 ∷ str_uuid t ])))

  unfoldable pub evaluate_alert_for_tx : Alert → Transaction → Exec Db (Option AlertDelivery)
  unfolding fires
  evaluate_alert_for_tx alert tx =
      if not alert.is_active
      then pure none
      else if not (alert.wallet_id == tx.wallet_id)
      then pure none
      else if not (fires alert tx)
      then pure none
      else deliver_once alert.id (event_signature alert.id (some tx.id) alert.kind)

-- `select(Alert).where(wallet_id, is_active)`
unfoldable pub list_alerts_for_wallet : ℕ → Exec Db (List Alert)
list_alerts_for_wallet wallet_id s =
    (ok (select (λ (a : Alert). (a.wallet_id == wallet_id) && a.is_active) s.alerts), s)
