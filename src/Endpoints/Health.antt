-- ===== src/Endpoints/Health.antt =====
-- apps/api/app/api/v1/health.py. The connection to the database fails with a text, or does not.
use crypto_intelligence_plat.Base.{
  Bool, Option, Str, codes, false, if◌then◌else◌, none, not, some, take, true, ℕ,
}
use crypto_intelligence_plat.Config.{Environment, Settings, is_production}

pub record Readiness : Type 0 where
  pub status_code : ℕ
  pub status : Str
  pub db : Bool
  pub db_error : Option Str
  pub environment : Environment
  pub elapsed_ms : ℕ

-- Behind what the connection raised.
abbrev pub db_error_of : Settings → Str → Str
db_error_of s message = if not (is_production s) then take 200 message else codes "unavailable"

unfoldable pub readiness : Settings → Option Str → ℕ → Readiness
readiness s none elapsed = record {
  status_code = 200;
  status = codes "ok";
  db = true;
  db_error = none;
  environment = s.environment;
  elapsed_ms = elapsed;
}
readiness s (some message) elapsed = record {
  status_code = 503;
  status = codes "degraded";
  db = false;
  db_error = some (db_error_of s message);
  environment = s.environment;
  elapsed_ms = elapsed;
}
