-- ===== src/Config/Production.antt =====
-- What the settings of apps/api/app/core/config.py satisfy once they are accepted.
use crypto_intelligence_plat.Base.{
  List, Str, [], all, arith, codes, false, is_empty, length, one_of, pos, refl, starts_with, str_eq,
  true, ◌↔◌, ◌∷◌, ◌≡◌, ◌≢◌, ◌≤ℤ◌, ◌≤◌,
}
use crypto_intelligence_plat.Config.{
  Settings, cors_origins, dev_fallback_secret, enforce_constraints, etherscan, openai, production,
  refuses_production, staging, trusted_hosts,
}
use crypto_intelligence_plat.Exec.{ok}

-- An origin with `https://` in front is not the wildcard.
no_wildcard :
    (os : List Str) → all (starts_with (codes "https://")) os ≡ true → one_of (codes "*") os ≡ false
unfolding starts_with str_eq
no_wildcard [] h = refl
no_wildcard ([] ∷ os) h = cc
no_wildcard ((c ∷ o) ∷ os) h = ground (arith, no_wildcard os)

-- What running in production asks for, one demand per line.
abbrev pub IsProductionReady : Settings → Type 0
IsProductionReady s =
    (32 ≤ length s.app_secret)
    × (str_eq s.app_secret dev_fallback_secret ≡ false)
    × (is_empty s.telegram_bot_token ≡ false)
    × (is_empty (cors_origins s) ≡ false)
    × (all (starts_with (codes "https://")) (cors_origins s) ≡ true)
    × (is_empty (trusted_hosts s) ≡ false)
    × (s.blockchain_provider ≡ etherscan)
    × (is_empty s.blockchain_api_key ≡ false)
    × (s.ai_provider_source ≡ openai)
    × (is_empty s.ai_api_key ≡ false)
    × (s.dev_bypass_auth ≡ false)
    × (s.session_ttl_seconds ≤ℤ s.session_max_lifetime_seconds)
    × (s.initdata_max_age_seconds ≤ℤ pos 3600)

long_secret : (s : Str) → 32 ≤ length s → is_empty s ≡ false
long_secret [] h = ground arith
long_secret (c ∷ s) h = refl

-- Settings for production are accepted, and then unchanged, exactly where they are ready for it:
-- a long secret that is not the known one, a bot token, origins that are all HTTPS, hosts, real
-- providers with keys, no bypass of the login, and lifetimes in their bounds.
pub enforce_constraints-iff_IsProductionReady :
    (s : Settings)
    → s.environment ≡ production
    → (enforce_constraints s ≡ ok s) ↔ IsProductionReady s
unfolding enforce_constraints refuses_production
enforce_constraints-iff_IsProductionReady s e =
    ground (arith, no_wildcard (cors_origins s), long_secret s.app_secret)

-- Accepted settings of development and production have a secret.
pub accepted-has_secret :
    (s t : Settings)
    → s.environment ≢ staging
    → enforce_constraints s ≡ ok t
    → is_empty t.app_secret ≡ false
unfolding enforce_constraints refuses_production
accepted-has_secret s t h e = ground arith
