-- ===== src/RateLimit.antt =====
-- apps/api/app/utils/rate_limit.py: the limit specifications and the outcome of one check. Times are
-- milliseconds; the in-memory limiter reads a float of seconds, kept here to the millisecond.
pub mod Window
pub mod InMemory
pub mod Lua
pub mod Retry
pub mod Bounds
pub mod Choice
use crypto_intelligence_plat.Base.{Bool, false, ltb, true, ℕ, ◌*◌, ◌+◌}

pub record LimitSpec : Type 0 where
  pub capacity : ℕ
  pub window_seconds : ℕ

abbrev pub login_ip : LimitSpec
login_ip = record { capacity = 5; window_seconds = 60 }

abbrev pub login_user : LimitSpec
login_user = record { capacity = 10; window_seconds = 60 }

abbrev pub ai_user : LimitSpec
ai_user = record { capacity = 10; window_seconds = 60 }

abbrev pub ai_global : LimitSpec
ai_global = record { capacity = 100; window_seconds = 60 }

abbrev pub snapshot_user : LimitSpec
snapshot_user = record { capacity = 10; window_seconds = 60 }

abbrev pub wallet_create_user : LimitSpec
wallet_create_user = record { capacity = 10; window_seconds = 60 }

abbrev pub alert_create_user : LimitSpec
alert_create_user = record { capacity = 20; window_seconds = 60 }

abbrev pub global_request : LimitSpec
global_request = record { capacity = 200; window_seconds = 60 }

abbrev pub window_ms : LimitSpec → ℕ
window_ms spec = spec.window_seconds * 1000

-- What `check` does: it returns, or raises `RateLimitError` with a `Retry-After` in seconds.
pub data Verdict : Type 0 where
  allowed : Verdict
  limited : ℕ → Verdict
  index_error : Verdict

abbrev pub is_allowed : Verdict → Bool
is_allowed allowed = true
is_allowed (limited _) = false
is_allowed index_error = false

-- The entry made at `t` still counts at `now`: `t > now - window`.
abbrev pub recent : LimitSpec → ℕ → ℕ → Bool
recent spec now t = ltb now (t + window_ms spec)
