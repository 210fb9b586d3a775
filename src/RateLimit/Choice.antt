-- ===== src/RateLimit/Choice.antt =====
-- `make_limiter` of apps/api/app/utils/rate_limit.py, which every endpoint calls anew for a request.
use crypto_intelligence_plat.RateLimit.InMemory
use crypto_intelligence_plat.Base.{
  Bool, List, Str, [], arith, if◌then◌else◌, not, select, ℕ, ◌≡◌, ◌≢◌, ◌≤◌,
}
use crypto_intelligence_plat.Config.{Settings, is_production, production}
use crypto_intelligence_plat.RateLimit.{LimitSpec, allowed}
use crypto_intelligence_plat.RateLimit.InMemory.Dict.{Timestamps, get}
use crypto_intelligence_plat.RateLimit.Lua.{Attempt, CheckResult, Store, decided, redis_check}

pub data Limiter : Type 0 where
  in_process : LimitSpec → Timestamps → Limiter
  in_redis : LimitSpec → Limiter

unfoldable pub make_limiter : Settings → LimitSpec → Limiter
make_limiter settings spec =
    if not (is_production settings) then in_process spec [] else in_redis spec

-- `await make_limiter(spec).check(key)`, with the clock of the process, what Redis answers and the state of the
-- script.
unfoldable pub limit_request :
    Settings → LimitSpec → Str → ℕ → List Attempt → Bool × Store → CheckResult × Bool × Store
unfolding make_limiter
limit_request settings spec key now attempts st = elim (make_limiter settings spec) [
  | in_process kind d ↦ (decided (InMemory.check kind key now d).0, st.0, st.1)
  | in_redis kind ↦ redis_check kind key attempts st
]

-- Outside production, staging included, nothing is ever refused: the limiter of a request is a new
-- one, which has seen no other request.
pub limit_request-never_refuses :
    (settings : Settings) (spec : LimitSpec) (key : Str) (now : ℕ) (attempts : List Attempt)
    (st : Bool × Store)
    → settings.environment ≢ production
    → 1 ≤ spec.capacity
    → limit_request settings spec key now attempts st ≡ (decided allowed, st.0, st.1)
unfolding limit_request make_limiter InMemory.check get select
limit_request-never_refuses settings spec key now attempts st h c = ground arith

-- In production it is the limiter on Redis.
pub limit_request-in_production :
    (settings : Settings) (spec : LimitSpec) (key : Str) (now : ℕ) (attempts : List Attempt)
    (st : Bool × Store)
    → settings.environment ≡ production
    → limit_request settings spec key now attempts st ≡ redis_check spec key attempts st
unfolding limit_request make_limiter
limit_request-in_production settings spec key now attempts st h = ground arith
