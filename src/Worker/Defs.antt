-- ===== src/Worker/Defs.antt =====
-- The parts of apps/worker/worker/tasks.py: transactions, alerts, messages, locks, sessions.
use crypto_intelligence_plat.Alerts.{
  activity, deliver_once, incoming_above, list_alerts_for_wallet, outgoing_above, reaches,
  token_transfer,
}
use crypto_intelligence_plat.Base.{
  Bool, List, Option, Str, [], any, codes, delete_where, false, find, if◌then◌else◌, is_some, ltb,
  none, not, select, some, str_eq, str_uuid, take, true, ℕ, ℤ, ◌&&◌, ◌++◌, ◌+◌, ◌==◌, ◌||◌, ◌∷◌,
}
use crypto_intelligence_plat.Exec.{
  Exec, Result, err, gets, modify, ok, one_or_none, pure, ◌>>=◌, ◌>>◌,
}
use crypto_intelligence_plat.Models.{Alert, AlertDelivery, Db, Transaction, User, Wallet}
use crypto_intelligence_plat.Models.Tables.{add_transaction}
use crypto_intelligence_plat.Shared.{ParsedTx, direction_value, risk_value}

-- The text of a message, field by field.
pub record Notice : Type 0 where
  pub to_user : ℕ
  pub telegram_id : ℕ
  pub kind : Str
  pub wallet_id : ℕ
  pub tx_hash : Str
  pub direction : Str
  pub amount : ℤ
  pub symbol : Str
  pub risk : Str

-- `locks` holds the wallets that are locked in Redis with the time at which each lock expires;
-- `outbox` the messages given to the broker, which logs and drops the failures of sending.
pub record WorkState : Type 0 where
  pub db : Db
  pub locks : List (ℕ × ℕ)
  pub outbox : List Notice

abbrev pub on_db : {A : Type 0} → Exec Db A → Exec WorkState A
on_db m s = let (r, d) = m s.db in (r, record s { db = d })

-- `session_scope`: a raise rolls the database back, and nothing else.
abbrev pub rolled_back : {A : Type 0} → Db → Result A → WorkState → WorkState
rolled_back d (ok _) s = s
rolled_back d (err _) s = record s { db = d }

unfoldable pub session_scope : {A : Type 0} → Exec WorkState A → Exec WorkState A
session_scope m s = let (r, s') = m s in (r, rolled_back s.db r s')

-- `try: m finally: after`, where `after` does not raise.
abbrev pub finally : {A : Type 0} → Exec WorkState A → (WorkState → WorkState) → Exec WorkState A
finally m after s = let (r, s') = m s in (r, after s')

abbrev pub is_held : ℕ → ℕ → ℕ × ℕ → Bool
is_held now wid l = (l.0 == wid) && ltb now l.1

-- SET NX EX 120; when Redis fails the lock counts as acquired.
unfoldable pub acquire_wallet_lock : Bool → ℕ → ℕ → Exec WorkState Bool
acquire_wallet_lock up now wid s =
    if not up
    then (ok true, s)
    else if any (is_held now wid) s.locks
    then (ok false, s)
    else (ok true, record s { locks = (wid, now + 120) ∷ delete_where (λ l. l.0 == wid) s.locks })

-- DELETE, whoever set the lock.
unfoldable pub release_wallet_lock : Bool → ℕ → WorkState → WorkState
release_wallet_lock up wid s =
    if up then record s { locks = delete_where (λ l. l.0 == wid) s.locks } else s

abbrev pub is_known : ℕ → Str → Transaction → Bool
is_known wid hash t = (t.wallet_id == wid) && str_eq t.tx_hash hash

-- `",".join(parsed_tx.risk_reasons)`
unfoldable pub join_commas : List Str → Str
join_commas [] = []
join_commas (r ∷ []) = r
join_commas (r ∷ rs) = r ++ 44 ∷ join_commas rs

abbrev pub joined_reasons : List Str → Option Str
joined_reasons [] = none
joined_reasons rs = some (join_commas rs)

abbrev pub new_transaction : ℕ → ParsedTx → ℕ → Transaction
new_transaction wid p id = record {
  id = id;
  wallet_id = wid;
  tx_hash = p.tx_hash;
  block = p.block;
  timestamp = p.timestamp;
  direction = direction_value p.direction;
  counterparty = p.counterparty;
  native_amount = p.native_amount;
  native_symbol = p.native_symbol;
  token_symbol = p.token_symbol;
  token_contract = p.token_contract;
  token_amount = p.token_amount;
  status = p.status;
  risk_level = risk_value p.risk;
  risk_reasons = joined_reasons p.risk_reasons;
}

unfoldable pub upsert_transaction : Wallet → ParsedTx → Exec Db (Option Transaction)
upsert_transaction wallet p = do
  rows ← gets (λ s. select (is_known wallet.id p.tx_hash) s.transactions)
  existing ← one_or_none rows
  if is_some existing
      then pure none
      else do t ← add_transaction (new_transaction wallet.id p); pure (some t)

-- `_enqueue_telegram_alert`; the message goes to nobody if the user is gone.
abbrev pub notice_for : Alert → Transaction → User → Notice
notice_for a t u = record {
  to_user = u.id;
  telegram_id = u.telegram_id;
  kind = a.kind;
  wallet_id = a.wallet_id;
  tx_hash = t.tx_hash;
  direction = t.direction;
  amount = t.native_amount;
  symbol = t.native_symbol;
  risk = t.risk_level;
}

unfoldable pub enqueue_telegram_alert : Alert → Transaction → WorkState → WorkState
enqueue_telegram_alert a t s = elim (find (λ (u : User). u.id == a.user_id) s.db.users) [
  | none ↦ s
  | some u ↦ record s { outbox = s.outbox ++ notice_for a t u ∷ [] }
]

-- The tests of `_try_fire_alert`, which is a copy of the service's.
unfoldable pub hits : Alert → Transaction → Bool
hits alert tx =
    if (str_eq alert.kind incoming_above && str_eq tx.direction (codes "in"))
      || (str_eq alert.kind outgoing_above && str_eq tx.direction (codes "out"))
    then reaches alert.threshold_amount tx.native_amount
    else if str_eq alert.kind activity
    then true
    else (str_eq alert.kind token_transfer && is_some tx.token_contract)

module _ (sha256 : Str → Str) where
  -- sha256(f"{alert_id}:{kind}:{tx_id}")[:32]
  unfoldable pub worker_signature : ℕ → ℕ → Str → Str
  worker_signature alert_id tx_id kind =
      take 32 (sha256 (str_uuid alert_id ++ (58 ∷ kind ++ 58 ∷ str_uuid tx_id)))

  unfoldable pub try_fire_alert : Alert → Transaction → Exec Db (Option AlertDelivery)
  unfolding hits
  try_fire_alert alert tx =
      if not alert.is_active
      then pure none
      else if not (alert.wallet_id == tx.wallet_id)
      then pure none
      else if hits alert tx
      then deliver_once alert.id (worker_signature alert.id tx.id alert.kind)
      else pure none

  -- The loop over the wallet's alerts; the result is the number that fired.
  unfoldable pub fire_all : List Alert → Transaction → Exec WorkState ℕ
  fire_all [] tx = pure 0
  fire_all (a ∷ as') tx = do
    delivery ← on_db (try_fire_alert a tx)
    modify (if is_some delivery then enqueue_telegram_alert a tx else λ s. s)
    n ← fire_all as' tx
    pure ((if is_some delivery then 1 else 0) + n)

  -- `_evaluate_alerts_for_tx`
  unfoldable pub evaluate_alerts : Wallet → Transaction → Exec WorkState ℕ
  evaluate_alerts wallet tx = do
    alerts ← on_db (list_alerts_for_wallet wallet.id)
    fire_all alerts tx

  -- One round of the loop of `sync_wallet_task`: nothing for a known transaction, or the number of
  -- alerts that fired for the new one.
  unfoldable pub process_tx : Wallet → ParsedTx → Exec WorkState (Option ℕ)
  process_tx wallet p = do
    inserted ← on_db (upsert_transaction wallet p)
    elim inserted [ none ↦ pure none | some t ↦ (do n ← evaluate_alerts wallet t; pure (some n)) ]
