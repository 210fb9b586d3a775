-- ===== src/Tests/Callers.antt =====
-- Callers of the API.
use crypto_intelligence_plat.Base.{
  Option, Str, codes, lower, refl, select, some, split_on, str_eq, strip, ℕ, ◌+ℤ◌, ◌-ℤ◌, ◌≡◌,
}
use crypto_intelligence_plat.Deps.{extract_token, get_current_user, split_once, token_user}
use crypto_intelligence_plat.Deps.Authentication.{
  get_current_user_sound, invalid_token-is_internal_error,
}
use crypto_intelligence_plat.Errors.{respond, token_error}
use crypto_intelligence_plat.Exec.{err, ok}
use crypto_intelligence_plat.Models.{Db}
use crypto_intelligence_plat.Tests.Data.{toy_user}
use crypto_intelligence_plat.Tests.Sessions.{live_settings, session_db, toy_codec}
use crypto_intelligence_plat.Tokens.{TokenPayload, check_times, verify_parts, verify_token}
use crypto_intelligence_plat.Users.{active_user, get_user_from_token, subject_id, user_by_hash}
use crypto_intelligence_plat.Users.Lookup.{Opens}

-- With spaces around the token, and the scheme in another case.
abbrev toy_header : Option Str
toy_header = some (codes "BEARER  e30.5e ")

sent : extract_token toy_header ≡ ok (codes "e30.5e")
unfolding extract_token split_once strip str_eq lower
sent = refl

current :
    (get_current_user toy_codec live_settings (λ s. some 1) toy_header session_db).0 ≡ ok toy_user
unfolding get_current_user token_user get_user_from_token user_by_hash active_user select
    verify_token verify_parts check_times split_on split_once extract_token strip lower str_eq ◌+ℤ◌
    ◌-ℤ◌
current = refl

get_current_user_sound_example :
    (t : Str) × (extract_token toy_header ≡ ok t)
    × (p : TokenPayload) × (verify_token toy_codec live_settings 1000 t ≡ ok p)
    × (uid : ℕ) × (subject_id toy_codec live_settings (λ s. some 1) p.sub ≡ ok (some uid))
    × Opens toy_codec live_settings t session_db uid toy_user
get_current_user_sound_example =
    get_current_user_sound toy_codec live_settings (λ s. some 1) toy_header session_db toy_user refl
      current

abbrev later_db : Db
later_db = record session_db { clock = 5000 }

expired_then :
    verify_token toy_codec live_settings 5000 (codes "e30.5e") ≡ err (token_error "expired")
unfolding verify_token verify_parts check_times split_on str_eq
expired_then = refl

invalid_token-is_internal_error_example :
    ((get_current_user toy_codec live_settings (λ s. some 1) toy_header later_db).0
      ≡ err (token_error "expired"))
    × ((respond (token_error "expired")).status ≡ 500)
invalid_token-is_internal_error_example =
    invalid_token-is_internal_error toy_codec live_settings (λ s. some 1) toy_header
      (codes "e30.5e") "expired" later_db refl sent expired_then
