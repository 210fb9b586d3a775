-- ===== src/Config.antt =====
-- apps/api/app/core/config.py: the settings, and the checks when they are loaded. A setting that is
-- an `int` is an integer; a timeout is a number of milliseconds. A field holds what pydantic has
-- parsed and `_strip` has stripped.
pub mod Production
use crypto_intelligence_plat.Base.{
  Bool, List, Str, [], all, codes, false, if◌then◌else◌, is_empty, length, ltb, ltb_ℤ, not, one_of,
  pos, split_on, starts_with, str_eq, strip, true, ℕ, ℤ, ◌&&◌, ◌||◌, ◌∷◌,
}
use crypto_intelligence_plat.Errors.{value_error}
use crypto_intelligence_plat.Exec.{Result, err, ok}

pub data Environment : Type 0 where
  development staging production : Environment

pub data ChainSource : Type 0 where
  etherscan mock_chain : ChainSource

pub data AiSource : Type 0 where
  openai mock_ai : AiSource

abbrev pub dev_fallback_secret : Str
dev_fallback_secret = codes "dev-only-ephemeral-secret-NOT-FOR-PRODUCTION-001"

pub record Settings : Type 0 where
  pub environment : Environment
  pub log_level : Str
  pub telegram_bot_token : Str
  pub telegram_webapp_url : Str
  pub app_secret : Str
  pub session_ttl_seconds : ℤ
  pub session_max_lifetime_seconds : ℤ
  pub initdata_max_age_seconds : ℤ
  pub initdata_replay_window_seconds : ℤ
  pub cors_origins_raw : Str
  pub trusted_hosts_raw : Str
  pub database_url : Str
  pub redis_url : Str
  pub blockchain_provider : ChainSource
  pub blockchain_api_key : Str
  pub blockchain_base_url : Str
  pub provider_http_timeout : ℕ
  pub provider_max_retries : ℤ
  pub provider_max_response_bytes : ℤ
  pub ai_provider_source : AiSource
  pub ai_api_key : Str
  pub ai_base_url : Str
  pub ai_model : Str
  pub ai_http_timeout : ℕ
  pub ai_max_response_bytes : ℤ
  pub max_wallets_per_user : ℤ
  pub max_alerts_per_user : ℤ
  pub max_sessions_per_user : ℤ
  pub rate_limit_trusted_proxies_raw : Str
  pub dev_bypass_auth : Bool

-- The defaults, with the two URLs that have none.
abbrev pub default_settings : Str → Str → Settings
default_settings db redis = record {
  environment = development;
  log_level = codes "INFO";
  telegram_bot_token = [];
  telegram_webapp_url = codes "https://localhost";
  app_secret = [];
  session_ttl_seconds = pos 3600;
  session_max_lifetime_seconds = pos 86400;
  initdata_max_age_seconds = pos 300;
  initdata_replay_window_seconds = pos 300;
  cors_origins_raw = [];
  trusted_hosts_raw = [];
  database_url = db;
  redis_url = redis;
  blockchain_provider = mock_chain;
  blockchain_api_key = [];
  blockchain_base_url = [];
  provider_http_timeout = 10000;
  provider_max_retries = pos 4;
  provider_max_response_bytes = pos 1048576;
  ai_provider_source = mock_ai;
  ai_api_key = [];
  ai_base_url = codes "https://api.openai.com/v1";
  ai_model = codes "gpt-4o-mini";
  ai_http_timeout = 20000;
  ai_max_response_bytes = pos 262144;
  max_wallets_per_user = pos 20;
  max_alerts_per_user = pos 100;
  max_sessions_per_user = pos 5;
  rate_limit_trusted_proxies_raw = [];
  dev_bypass_auth = false;
}

-- `[p.strip() for p in parts if p.strip()]`
unfoldable pub stripped_parts : List Str → List Str
stripped_parts [] = []
stripped_parts (p ∷ ps) =
    let rest = stripped_parts ps in if is_empty (strip p) then rest else strip p ∷ rest

abbrev pub cors_origins : Settings → List Str
cors_origins s = stripped_parts (split_on 44 s.cors_origins_raw)

abbrev pub trusted_hosts : Settings → List Str
trusted_hosts s = stripped_parts (split_on 44 s.trusted_hosts_raw)

abbrev pub trusted_proxies : Settings → List Str
trusted_proxies s = stripped_parts (split_on 44 s.rate_limit_trusted_proxies_raw)

abbrev pub is_production : Settings → Bool
is_production s = elim s.environment [ production ↦ true | _ ↦ false ]

abbrev pub is_dev : Settings → Bool
is_dev s = elim s.environment [ development ↦ true | _ ↦ false ]

abbrev pub is_mock_chain : ChainSource → Bool
is_mock_chain etherscan = false
is_mock_chain mock_chain = true

abbrev pub is_mock_ai : AiSource → Bool
is_mock_ai openai = false
is_mock_ai mock_ai = true

-- The tests of `_enforce_production` in order: true where one of them raises.
unfoldable pub refuses_production : Settings → Bool
refuses_production s =
    (is_empty s.app_secret || ltb (length s.app_secret) 32)
    || str_eq s.app_secret dev_fallback_secret
    || is_empty s.telegram_bot_token
    || is_empty (cors_origins s)
    || one_of (codes "*") (cors_origins s)
    || not (all (starts_with (codes "https://")) (cors_origins s))
    || is_empty (trusted_hosts s)
    || is_mock_chain s.blockchain_provider
    || is_mock_ai s.ai_provider_source

-- `_enforce_constraints`; in development a missing secret is replaced by the fallback.
abbrev pub with_secret : Settings → Settings
with_secret s =
    if is_dev s && is_empty s.app_secret then record s { app_secret = dev_fallback_secret } else s

abbrev pub lacks_key : Settings → Bool
lacks_key s =
    (not (is_mock_chain s.blockchain_provider) && is_empty s.blockchain_api_key)
    || (not (is_mock_ai s.ai_provider_source) && is_empty s.ai_api_key)

unfoldable pub enforce_constraints : Settings → Result Settings
unfolding refuses_production
enforce_constraints s =
    if ltb_ℤ s.session_max_lifetime_seconds s.session_ttl_seconds
    then err value_error
    else if ltb_ℤ (pos 3600) s.initdata_max_age_seconds
    then err value_error
    else if s.dev_bypass_auth && is_production s
    then err value_error
    else if is_production s && refuses_production s
    then err value_error
    else if lacks_key s
    then err value_error
    else ok (with_secret s)
