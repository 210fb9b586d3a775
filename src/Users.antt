-- ===== src/Users.antt =====
-- apps/api/app/services/users.py: users by their Telegram account, and their sessions. The codec of
-- the tokens, the settings and the identifier of a new token are arguments.
pub mod Lookup
pub mod Quota
pub mod Revocation
use crypto_intelligence_plat.Base.{
  Bool, Option, Str, count_where, false, if◌then◌else◌, is_some, leb, leb_ℤ, ltb, none, not, pos,
  pos_part, select, some, str_eq, true, update_where, ℕ, ℤ, ◌&&◌, ◌==◌,
}
use crypto_intelligence_plat.Config.{Settings}
use crypto_intelligence_plat.Errors.{runtime_error}
use crypto_intelligence_plat.Exec.{
  Exec, Result, err, gets, lift, ok, one_or_none, pure, ◌>>=◌, ◌>>◌,
}
use crypto_intelligence_plat.Models.{Db, User, WalletSession}
use crypto_intelligence_plat.Models.Tables.{add_session, add_user}
use crypto_intelligence_plat.Telegram.{TelegramUser}
use crypto_intelligence_plat.Tokens.{Json, TokenCodec, issue_token, min_ℤ, null, text, verify_token}

abbrev pub max_active_sessions_hard_cap : ℤ
max_active_sessions_hard_cap = pos 10

-- The four names as the driver of the database takes them: a text or nothing.
pub record Names : Type 0 where
  pub username : Option Str
  pub first_name : Option Str
  pub last_name : Option Str
  pub language_code : Option Str

abbrev pub text_column : Option Json → Result (Option Str)
text_column none = ok none
text_column (some null) = ok none
text_column (some (text s)) = ok (some s)
text_column (some _) = err runtime_error

abbrev pub names_of : TelegramUser → Exec Db Names
names_of t = do
  username ← lift (text_column t.username)
  first ← lift (text_column t.first_name)
  last ← lift (text_column t.last_name)
  language ← lift (text_column t.language_code)
  pure (record {
    username = username;
    first_name = first;
    last_name = last;
    language_code = language;
  })

abbrev pub new_user : ℕ → Names → ℕ → User
new_user telegram_id t id = record {
  id = id;
  telegram_id = telegram_id;
  telegram_username = t.username;
  telegram_first_name = t.first_name;
  telegram_last_name = t.last_name;
  telegram_language_code = t.language_code;
  is_active = true;
}

abbrev pub with_telegram : Names → User → User
with_telegram t u = record u {
  telegram_username = t.username;
  telegram_first_name = t.first_name;
  telegram_last_name = t.last_name;
  telegram_language_code = t.language_code;
}

-- A row whose four fields are the same already is not written, which leaves it as writing it would.
abbrev pub save_user : User → Exec Db User
save_user u s =
    (ok u, record s { users = update_where (λ (v : User). v.id == u.id) (λ _. u) s.users })

abbrev pub insert_or_save : ℕ → Names → Option User → Exec Db User
insert_or_save telegram_id t none = add_user (new_user telegram_id t)
insert_or_save telegram_id t (some u) = save_user (with_telegram t u)

unfoldable pub upsert_user_by_telegram : TelegramUser → Exec Db User
upsert_user_by_telegram t = do
  rows ← gets (λ s. select (λ (u : User). u.telegram_id == t.id) s.users)
  found ← one_or_none rows
  names ← names_of t
  insert_or_save t.id names found

abbrev pub is_unrevoked : WalletSession → Bool
is_unrevoked w = not (is_some w.revoked_at)

-- The sessions that count against the quota.
abbrev pub is_live : ℕ → ℕ → WalletSession → Bool
is_live now user_id w = (w.user_id == user_id) && (is_unrevoked w && ltb now w.expires_at)

abbrev pub revoked : ℕ → WalletSession → WalletSession
revoked now w = record w { revoked_at = some now }

unfoldable pub revoke_all_sessions : ℕ → Exec Db ℕ
revoke_all_sessions user_id s =
    let mine = λ (w : WalletSession). (w.user_id == user_id) && is_unrevoked w in
    (
      ok (count_where mine s.sessions),
      record s { sessions = update_where mine (revoked s.clock) s.sessions },
    )

-- `min(settings.max_sessions_per_user, MAX_ACTIVE_SESSIONS_HARD_CAP)`
abbrev pub quota : Settings → ℤ
quota s = min_ℤ s.max_sessions_per_user max_active_sessions_hard_cap

-- `if active_count >= quota: await revoke_all_sessions(...)`
abbrev pub make_room : Bool → ℕ → Exec Db (Unit {0})
make_room true user_id = do revoke_all_sessions user_id; pure tt
make_room false user_id = pure tt

-- `fromtimestamp(exp)`, of a time before 1970 too late for a session to live
abbrev pub session_row : ℕ → Str → ℤ → ℕ → WalletSession
session_row user_id hash exp id = record {
  id = id;
  user_id = user_id;
  token_hash = hash;
  expires_at = pos_part exp;
  revoked_at = none;
}

module _ (c : TokenCodec) (settings : Settings) where
  unfoldable pub create_session : Str → User → Exec Db (Str × ℤ)
  unfolding revoke_all_sessions
  create_session jti user = do
    now ← gets (λ s. s.clock)
    active ← gets (λ s. count_where (is_live now user.id) s.sessions)
    make_room (leb_ℤ (quota settings) (pos active)) user.id
    issued ← lift (issue_token c settings now jti user.id (pos 0))
    add_session (session_row user.id issued.2 issued.1)
    pure (issued.0, issued.1)

  -- The user with that id, if active.
  unfoldable pub active_user : ℕ → Exec Db (Option User)
  active_user uid = do
    rows ← gets (λ s. select (λ (u : User). (u.id == uid) && u.is_active) s.users)
    one_or_none rows

  -- The rows of `select(WalletSession)` for a token: unrevoked ones with its hash.
  abbrev pub has_hash : Str → WalletSession → Bool
  has_hash hash w = str_eq w.token_hash hash && is_unrevoked w

  -- `uuid.UUID(payload.sub)`: a text that is no UUID is a `ValueError`, any other value an error that
  -- nothing catches.
  abbrev pub subject_id : (Str → Option ℕ) → Json → Result (Option ℕ)
  subject_id parse_uuid (text s) = ok (parse_uuid s)
  subject_id parse_uuid _ = err runtime_error

  -- `None` where the session is gone or has expired.
  abbrev pub user_of_session : ℕ → Option WalletSession → Exec Db (Option User)
  user_of_session uid none = pure none
  user_of_session uid (some session) = do
    now ← gets (λ s. s.clock)
    if leb session.expires_at now then pure none else active_user uid

  unfoldable pub user_by_hash : Str → Option ℕ → Exec Db (Option User)
  unfolding active_user
  user_by_hash hash none = pure none
  user_by_hash hash (some uid) = do
    rows ← gets (λ s. select (has_hash hash) s.sessions)
    session ← one_or_none rows
    user_of_session uid session

  unfoldable pub get_user_from_token : (Str → Option ℕ) → Str → Exec Db (Option User)
  get_user_from_token parse_uuid t = do
    now ← gets (λ s. s.clock)
    payload ← lift (verify_token c settings now t)
    uid ← lift (subject_id parse_uuid payload.sub)
    user_by_hash (c.sha256 t) uid

  unfoldable pub revoke_session : Str → Exec Db (Unit {0})
  revoke_session t s = (
    ok tt,
    record s { sessions = update_where (has_hash (c.sha256 t)) (revoked s.clock) s.sessions },
  )

  abbrev pub session_for : Str → Option User → Exec Db (Option (Str × ℤ))
  session_for jti none = pure none
  session_for jti (some user) = do made ← create_session jti user; pure (some made)

  abbrev pub rotate_for : Str → Str → Option ℕ → Exec Db (Option (Str × ℤ))
  rotate_for jti t none = pure none
  rotate_for jti t (some uid) = do revoke_session t; user ← active_user uid; session_for jti user

  unfoldable pub rotate_session : (Str → Option ℕ) → Str → Str → Exec Db (Option (Str × ℤ))
  rotate_session parse_uuid jti t = do
    now ← gets (λ s. s.clock)
    payload ← lift (verify_token c settings now t)
    uid ← lift (subject_id parse_uuid payload.sub)
    rotate_for jti t uid
