-- ===== src/Tests/Sessions.antt =====
-- The settings, the session tokens and the sessions of users.
use crypto_intelligence_plat.Base.{
  Str, [], arith, codes, count_where, false, is_empty, none, pos, refl, select, some, split_on,
  starts_with, str_eq, str_uuid, strip, true, ℕ, ◌+ℤ◌, ◌-ℤ◌, ◌↔◌, ◌∷◌, ◌≡◌, ◌≢◌,
}
use crypto_intelligence_plat.Config.{
  Settings, default_settings, enforce_constraints, etherscan, openai, production,
  refuses_production, stripped_parts,
}
use crypto_intelligence_plat.Config.Production.{
  IsProductionReady, enforce_constraints-iff_IsProductionReady,
}
use crypto_intelligence_plat.Exec.{is_ok, ok}
use crypto_intelligence_plat.Models.{Db}
use crypto_intelligence_plat.Models.Tables.{add_session}
use crypto_intelligence_plat.Tests.Data.{toy_db, toy_sha256, toy_user}
use crypto_intelligence_plat.Tokens.{
  Claims, TokenCodec, TokenPayload, check_times, claims_object, issue_token, signed, text,
  verify_parts, verify_token,
}
use crypto_intelligence_plat.Tokens.RoundTrip.{ReadsBack, verify-issue}
use crypto_intelligence_plat.Tokens.Verification.{
  IsCurrent, issued_claims, issued_payload, verify_token_sound,
}
use crypto_intelligence_plat.Users.{
  active_user, create_session, get_user_from_token, is_live, revoke_all_sessions, session_row,
  user_by_hash,
}
use crypto_intelligence_plat.Users.Quota.{IsWithinQuota, create_session-IsWithinQuota}
use crypto_intelligence_plat.Users.Revocation.{after_revoking, revoke_session-is_final}

abbrev pub live_settings : Settings
live_settings = record (default_settings (codes "db") (codes "redis")) {
  environment = production;
  app_secret = codes "0123456789abcdef0123456789abcdef";
  telegram_bot_token = codes "bot";
  cors_origins_raw = codes "https://a.org , https://b.org";
  trusted_hosts_raw = codes "a.org";
  blockchain_provider = etherscan;
  blockchain_api_key = codes "key";
  ai_provider_source = openai;
  ai_api_key = codes "key";
}

live_accepted : enforce_constraints live_settings ≡ ok live_settings
unfolding enforce_constraints refuses_production stripped_parts split_on strip starts_with str_eq
live_accepted = refl

enforce_constraints-iff_IsProductionReady_example :
    (enforce_constraints live_settings ≡ ok live_settings) ↔ IsProductionReady live_settings
enforce_constraints-iff_IsProductionReady_example =
    enforce_constraints-iff_IsProductionReady live_settings refl

abbrev toy_jti : Str
toy_jti = codes "abcdefgh"

abbrev toy_claims : Claims
toy_claims = record { sub = str_uuid 1; iat = pos 1000; exp = pos 4600; jti = toy_jti; rot = pos 0 }

-- A codec for one token.
abbrev pub toy_codec : TokenCodec
toy_codec = record {
  hmac = λ key payload. codes "5e";
  b64 = λ bytes. codes "e30";
  unb64 = λ encoded. some (codes "{}");
  dumps = λ claims. codes "{}";
  loads = λ bytes. some (claims_object toy_claims);
  int_of_text = λ digits. none;
  sha256 = toy_sha256;
}

abbrev toy_payload : TokenPayload
toy_payload = record {
  sub = text (str_uuid 1);
  iat = pos 1000;
  exp = pos 4600;
  jti = toy_jti;
  rot = pos 0;
}

issued :
    issue_token toy_codec live_settings 1000 toy_jti 1 (pos 0)
    ≡ ok (codes "e30.5e", pos 4600, codes "e30.5e")
unfolding issue_token ◌+ℤ◌
issued = refl

accepted : verify_token toy_codec live_settings 2000 (codes "e30.5e") ≡ ok toy_payload
unfolding verify_token verify_parts check_times split_on str_eq ◌+ℤ◌ ◌-ℤ◌
accepted = refl

verify_token_sound_example :
    (payload : Str) × (codes "e30.5e" ≡ signed toy_codec live_settings.app_secret payload)
    × (is_empty live_settings.app_secret ≡ false)
    × IsCurrent toy_codec live_settings 2000 toy_payload
verify_token_sound_example =
    verify_token_sound toy_codec live_settings 2000 (codes "e30.5e") toy_payload accepted

toy_claims_eq : issued_claims toy_codec live_settings 1000 toy_jti 1 (pos 0) ≡ toy_claims
unfolding ◌+ℤ◌
toy_claims_eq = refl

reads_back :
    ReadsBack toy_codec live_settings.app_secret
      (issued_claims toy_codec live_settings 1000 toy_jti 1 (pos 0))
unfolding ◌+ℤ◌
reads_back = record {
  payload-plain = refl;
  digest-plain = refl;
  payload-ascii = refl;
  digest-ascii = refl;
  unb64-b64 = refl;
  loads-dumps = refl;
}

verify-issue_example :
    verify_token toy_codec live_settings 2000 (codes "e30.5e")
    ≡ ok (
        issued_payload toy_codec live_settings
          (issued_claims toy_codec live_settings 1000 toy_jti 1 (pos 0)))
verify-issue_example =
    verify-issue toy_codec live_settings 1000 2000 toy_jti 1 (pos 0) (codes "e30.5e")
      (codes "e30.5e") (pos 4600) reads_back refl issued (omega arith) (omega arith)

logged_in : is_ok (create_session toy_codec live_settings toy_jti toy_user toy_db).0 ≡ true
unfolding create_session revoke_all_sessions issue_token add_session count_where ◌+ℤ◌
logged_in = refl

create_session-IsWithinQuota_example :
    IsWithinQuota toy_codec live_settings (
      count_where
        (is_live 1000 1)
        (create_session toy_codec live_settings toy_jti toy_user toy_db).1.sessions)
    × ((v : ℕ)
        → v ≢ 1
        → count_where
            (is_live 1000 v)
            (create_session toy_codec live_settings toy_jti toy_user toy_db).1.sessions
          ≡ count_where (is_live 1000 v) [])
create_session-IsWithinQuota_example =
    create_session-IsWithinQuota toy_codec live_settings toy_jti toy_user toy_db logged_in

-- The user of the toy database, with a session for the toy token.
abbrev pub session_db : Db
session_db = record toy_db { sessions = session_row 1 (codes "e30.5e") (pos 4600) 50 ∷ [] }

-- The session is open.
opened :
    (get_user_from_token toy_codec live_settings (λ s. some 1) (codes "e30.5e") session_db).0
    ≡ ok (some toy_user)
unfolding get_user_from_token user_by_hash active_user select verify_token verify_parts check_times
    split_on str_eq ◌+ℤ◌ ◌-ℤ◌
opened = refl

revoke_session-is_final_example :
    (get_user_from_token toy_codec live_settings
      (λ s. some 1)
      (codes "e30.5e")
      (after_revoking toy_codec live_settings (codes "e30.5e") 2000 session_db)).0
    ≢ ok (some toy_user)
revoke_session-is_final_example =
    revoke_session-is_final toy_codec live_settings (λ s. some 1) (codes "e30.5e") 2000 session_db
      toy_user
