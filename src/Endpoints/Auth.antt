-- ===== src/Endpoints/Auth.antt =====
-- apps/api/app/api/v1/auth.py: login, logout and the caller's own record. Redis is the list of replay
-- keys with the second in which each expires, and a flag that says whether it answers.
pub mod Once
use crypto_intelligence_plat.Base.{
  Bool, List, Option, Str, codes, if◌then◌else◌, not, pos, some, ℕ, ℤ, ◌++◌, ◌-ℤ◌,
}
use crypto_intelligence_plat.Config.{Settings}
use crypto_intelligence_plat.Deps.{extract_token, get_current_user}
use crypto_intelligence_plat.Endpoints.{request_session}
use crypto_intelligence_plat.Errors.{Exn, auth_error, init_data_error, rate_limit_error}
use crypto_intelligence_plat.Exec.{Exec, Result, err, gets, lift, ok, pure, raise_if, ◌>>=◌, ◌>>◌}
use crypto_intelligence_plat.Models.{Db}
use crypto_intelligence_plat.Schemas.{CurrentUser, InitDataLogin, SessionOut, current_user_out}
use crypto_intelligence_plat.Telegram.{
  InitCodec, TelegramUser, VerifiedInitData, claim_key, init_data_replay_key, verify_init_data,
}
use crypto_intelligence_plat.Tokens.{TokenCodec}
use crypto_intelligence_plat.Users.{
  create_session, revoke_all_sessions, revoke_session, upsert_user_by_telegram,
}

pub record AuthState : Type 0 where
  pub db : Db
  pub replay_keys : List (Str × ℕ)

abbrev pub with_db : {A : Type 0} → Exec Db A → Exec AuthState A
with_db m s = let (r, d) = m s.db in (r, record s { db = d })

-- `except InitDataError`; another exception goes on.
abbrev pub authentication_failed : Exn
authentication_failed = auth_error "authentication failed"

abbrev pub refused_data : {A : Type 0} → Result A → Result A
refused_data (err init_data_error) = err authentication_failed
refused_data r = r

-- The key against replays: an error of Redis is answered as a rate limit.
unfoldable pub claim_replay : Bool → Str → Exec AuthState Bool
claim_replay up key s =
    let (claimed, keys) = claim_key s.db.clock key s.replay_keys in
    if not up
    then (err (rate_limit_error "replay check unavailable" (some 5)), s)
    else (ok claimed, record s { replay_keys = keys })

-- An exception rolls the database back, and leaves the keys.
abbrev pub db_restored : {A : Type 0} → Db → Result A → AuthState → AuthState
db_restored d (ok _) s = s
db_restored d (err _) s = record s { db = d }

abbrev pub auth_session : {A : Type 0} → Exec AuthState A → Exec AuthState A
auth_session m s = let (r, t) = m s in (r, db_restored s.db r t)

-- `SessionOut(access_token=token, expires_in=exp - int(time.time()))`
abbrev pub session_out : Str × ℤ → Exec AuthState SessionOut
session_out issued = gets (λ s. record {
  access_token = issued.0;
  token_type = codes "Bearer";
  expires_in = issued.1 -ℤ pos s.db.clock;
})

module _ (c : TokenCodec) (ic : InitCodec) (settings : Settings) where
  abbrev pub replay_key : VerifiedInitData → Str
  replay_key v =
      codes "initdata:used:" ++ init_data_replay_key ic settings.initdata_max_age_seconds v

  -- Behind the claim of the key.
  unfoldable pub open_session :
      Result (Unit {0}) → Str → TelegramUser → Bool → Exec AuthState SessionOut
  open_session user_limiter jti tg_user claimed = do
    raise_if (not claimed) authentication_failed
    lift user_limiter
    user ← with_db (upsert_user_by_telegram tg_user)
    issued ← with_db (create_session c settings jti user)
    session_out issued

  -- The limiters are two results: what the one for the address and the one for the account say.
  unfoldable pub login :
      Bool → Result (Unit {0}) → Result (Unit {0}) → Str → InitDataLogin → Exec AuthState SessionOut
  unfolding open_session
  login up ip_limiter user_limiter jti payload = auth_session (do
    lift ip_limiter
    now ← gets (λ s. s.db.clock)
    verified ← lift (
        refused_data (
          verify_init_data ic settings.initdata_max_age_seconds now settings.telegram_bot_token
            payload.init_data))
    claimed ← claim_replay up (replay_key verified)
    open_session user_limiter jti verified.user claimed)

  unfoldable pub logout : (Str → Option ℕ) → Option Str → Exec Db (Unit {0})
  logout parse_uuid header = request_session (do
    user ← get_current_user c settings parse_uuid header
    t ← lift (extract_token header)
    revoke_session c settings t)

  unfoldable pub revoke_all : (Str → Option ℕ) → Option Str → Exec Db (Unit {0})
  revoke_all parse_uuid header = request_session (do
    user ← get_current_user c settings parse_uuid header
    revoke_all_sessions user.id
    pure tt)

  unfoldable pub me : (Str → Option ℕ) → Option Str → Exec Db CurrentUser
  me parse_uuid header = do
    user ← get_current_user c settings parse_uuid header
    pure (current_user_out user)
