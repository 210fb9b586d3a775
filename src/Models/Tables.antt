-- ===== src/Models/Tables.antt =====
-- INSERT, with the unique and check constraints of apps/api/app/models, and DELETE with its cascades.
-- A violated constraint raises `IntegrityError`, and the statement does nothing.
use crypto_intelligence_plat.Base.{
  Bool, List, Option, Str, [], any, codes, delete_where, false, if◌then◌else◌, leb, leb_ℤ, length,
  none, not, one_of, pos, select, some, str_eq, true, update_where, ℕ, ℤ, ◌&&◌, ◌++◌, ◌+◌, ◌==◌,
  ◌||◌, ◌∷◌,
}
use crypto_intelligence_plat.Errors.{integrity_error}
use crypto_intelligence_plat.Exec.{Exec, err, ok}
use crypto_intelligence_plat.Models.{
  AiAnalysis, Alert, AlertDelivery, Db, Transaction, User, Wallet, WalletSession, WalletSnapshot,
}

abbrev same_telegram : User → User → Bool
same_telegram u v = u.telegram_id == v.telegram_id

-- telegram_id is unique
unfoldable pub add_user : (ℕ → User) → Exec Db User
add_user make s =
    let u = make s.next_id in
    if any (same_telegram u) s.users
    then (err integrity_error, s)
    else (ok u, record s { users = s.users ++ u ∷ []; next_id = s.next_id + 1 })

abbrev pub same_token : WalletSession → WalletSession → Bool
same_token a b = str_eq a.token_hash b.token_hash

-- token_hash is unique
unfoldable pub add_session : (ℕ → WalletSession) → Exec Db WalletSession
add_session make s =
    let w = make s.next_id in
    if any (same_token w) s.sessions
    then (err integrity_error, s)
    else (ok w, record s { sessions = s.sessions ++ w ∷ []; next_id = s.next_id + 1 })

abbrev pub same_wallet : Wallet → Wallet → Bool
same_wallet v w = (v.user_id == w.user_id) && (str_eq v.chain w.chain && str_eq v.address w.address)

abbrev pub label_fits : Option Str → Bool
label_fits none = true
label_fits (some l) = leb (length l) 64

-- uq_wallet_user_chain_address, ck_wallet_label_len
unfoldable pub add_wallet : (ℕ → Wallet) → Exec Db Wallet
add_wallet make s =
    let w = make s.next_id in
    if any (same_wallet w) s.wallets || not (label_fits w.label)
    then (err integrity_error, s)
    else (ok w, record s { wallets = s.wallets ++ w ∷ []; next_id = s.next_id + 1 })

-- UPDATE of a loaded row: `chain`, `address` and `user_id` are never assigned.
unfoldable pub save_wallet : Wallet → Exec Db (Unit {0})
save_wallet w s =
    if label_fits w.label
    then (
      ok tt,
      record s { wallets = update_where (λ (v : Wallet). v.id == w.id) (λ _. w) s.wallets },
    )
    else (err integrity_error, s)

unfoldable pub add_snapshot : (ℕ → WalletSnapshot) → Exec Db WalletSnapshot
add_snapshot make s =
    let w = make s.next_id in
    (ok w, record s { snapshots = s.snapshots ++ w ∷ []; next_id = s.next_id + 1 })

abbrev pub same_tx : Transaction → Transaction → Bool
same_tx a b = (a.wallet_id == b.wallet_id) && str_eq a.tx_hash b.tx_hash

-- uq_tx_wallet_hash
unfoldable pub add_transaction : (ℕ → Transaction) → Exec Db Transaction
add_transaction make s =
    let t = make s.next_id in
    if any (same_tx t) s.transactions
    then (err integrity_error, s)
    else (ok t, record s { transactions = s.transactions ++ t ∷ []; next_id = s.next_id + 1 })

abbrev pub alert_kinds : List Str
alert_kinds =
    codes "incoming_above"
    ∷ codes "outgoing_above"
    ∷ codes "activity"
    ∷ codes "balance_above"
    ∷ codes "token_transfer"
    ∷ []

abbrev pub threshold_fits : Option ℤ → Bool
threshold_fits none = true
threshold_fits (some t) = leb_ℤ (pos 0) t

-- ck_alert_kind, ck_alert_threshold
unfoldable pub add_alert : (ℕ → Alert) → Exec Db Alert
add_alert make s =
    let a = make s.next_id in
    if one_of a.kind alert_kinds && threshold_fits a.threshold_amount
    then (ok a, record s { alerts = s.alerts ++ a ∷ []; next_id = s.next_id + 1 })
    else (err integrity_error, s)

abbrev pub same_delivery : AlertDelivery → AlertDelivery → Bool
same_delivery a b = (a.alert_id == b.alert_id) && str_eq a.event_signature b.event_signature

-- uq_alert_event_delivery
unfoldable pub add_delivery : (ℕ → AlertDelivery) → Exec Db AlertDelivery
add_delivery make s =
    let d = make s.next_id in
    if any (same_delivery d) s.deliveries
    then (err integrity_error, s)
    else (ok d, record s { deliveries = s.deliveries ++ d ∷ []; next_id = s.next_id + 1 })

unfoldable pub add_analysis : (ℕ → AiAnalysis) → Exec Db AiAnalysis
add_analysis make s =
    let a = make s.next_id in
    (ok a, record s { analyses = s.analyses ++ a ∷ []; next_id = s.next_id + 1 })

abbrev pub is_alert_of : List Alert → AlertDelivery → Bool
is_alert_of alerts d = any (λ (a : Alert). a.id == d.alert_id) alerts

abbrev owns_analysis : ℕ → List Transaction → AiAnalysis → Bool
owns_analysis wid txs a =
    elim a.wallet_id [ none ↦ false | some w ↦ w == wid ]
    || elim a.tx_id [ none ↦ false | some t ↦ any (λ (x : Transaction). x.id == t) txs ]

-- Deleting a wallet deletes what refers to it, and the deliveries of its alerts.
unfoldable pub remove_wallet : ℕ → Exec Db (Unit {0})
remove_wallet wid s =
    let gone = select (λ (a : Alert). a.wallet_id == wid) s.alerts in
    let txs = select (λ (t : Transaction). t.wallet_id == wid) s.transactions in
    (
      ok tt,
      record s {
        wallets = delete_where (λ w. w.id == wid) s.wallets;
        snapshots = delete_where (λ x. x.wallet_id == wid) s.snapshots;
        transactions = delete_where (λ x. x.wallet_id == wid) s.transactions;
        holdings = delete_where (λ x. x.wallet_id == wid) s.holdings;
        alerts = delete_where (λ x. x.wallet_id == wid) s.alerts;
        deliveries = delete_where (is_alert_of gone) s.deliveries;
        analyses = delete_where (owns_analysis wid txs) s.analyses;
      },
    )

unfoldable pub remove_alert : ℕ → Exec Db (Unit {0})
remove_alert aid s = (
  ok tt,
  record s {
    alerts = delete_where (λ x. x.id == aid) s.alerts;
    deliveries = delete_where (λ x. x.alert_id == aid) s.deliveries;
  },
)
