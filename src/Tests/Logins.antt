-- ===== src/Tests/Logins.antt =====
-- The endpoint that logs a user in.
use crypto_intelligence_plat.Base.{
  [], arith, codes, count_where, delete_where, refl, select, str_eq, true, ◌+ℤ◌, ◌-ℤ◌, ◌≡◌,
}
use crypto_intelligence_plat.Endpoints.Auth.{
  AuthState, authentication_failed, claim_replay, login, open_session,
}
use crypto_intelligence_plat.Endpoints.Auth.Once.{login_once}
use crypto_intelligence_plat.Exec.{Result, err, is_ok, ok}
use crypto_intelligence_plat.Models.Tables.{add_session}
use crypto_intelligence_plat.Schemas.{InitDataLogin, SessionOut}
use crypto_intelligence_plat.Telegram.{
  check_fields, claim_key, extract_user, unique_fields, verify_init_data,
}
use crypto_intelligence_plat.Tests.Data.{toy_db}
use crypto_intelligence_plat.Tests.InitData.{toy_init_codec}
use crypto_intelligence_plat.Tests.Sessions.{live_settings, toy_codec}
use crypto_intelligence_plat.Tokens.{issue_token}
use crypto_intelligence_plat.Users.{create_session, revoke_all_sessions, upsert_user_by_telegram}

abbrev posted : InitDataLogin
posted = record { init_data = codes "user=u&auth_date=1030" }

abbrev before_login : AuthState
before_login = record { db = toy_db; replay_keys = [] }

abbrev logged_in : Result SessionOut × AuthState
logged_in =
    login toy_codec toy_init_codec live_settings true (ok tt) (ok tt) (codes "abcdefgh") posted
      before_login

login_accepts : is_ok logged_in.0 ≡ true
unfolding login open_session claim_replay verify_init_data unique_fields check_fields extract_user
    delete_where str_eq ◌-ℤ◌ claim_key upsert_user_by_telegram create_session revoke_all_sessions
    issue_token add_session count_where select ◌+ℤ◌
login_accepts = refl

-- Another second of the clock, the rows of the database as they were.
abbrev later : AuthState
later = record { db = record toy_db { clock = 1001 }; replay_keys = logged_in.1.replay_keys }

login_once_example :
    (login toy_codec toy_init_codec live_settings true
      (ok tt)
      (ok tt)
      (codes "hgfedcba")
      posted
      later).0
    ≡ err authentication_failed
login_once_example =
    login_once toy_codec toy_init_codec live_settings true (ok tt) (ok tt) (ok tt)
      (codes "abcdefgh") (codes "hgfedcba") posted before_login later login_accepts refl
      (omega arith) (omega arith)
