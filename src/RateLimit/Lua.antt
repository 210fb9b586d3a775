-- ===== src/RateLimit/Lua.antt =====
-- `_RATE_LIMIT_LUA` and `RedisRateLimiter.check` of apps/api/app/utils/rate_limit.py. A sorted set is
-- the list of its members with their scores, lowest score first, and Redis keeps the clock of the
-- caller. The random part of a member is an argument.
pub mod Sets
pub mod Refines
use crypto_intelligence_plat.Base.{
  Bool, List, Str, [], codes, delete_where, false, if◌then◌else◌, leb, length, ltb, max, not,
  str_eq, str_nat, true, ℕ, ◌&&◌, ◌*◌, ◌++◌, ◌+◌, ◌-◌, ◌/◌, ◌==◌, ◌∷◌,
}
use crypto_intelligence_plat.RateLimit.{LimitSpec, Verdict, allowed, limited, window_ms}

pub record ZKey : Type 0 where
  pub members : List (ℕ × Str)
  pub deadline : ℕ

abbrev pub empty_key : ZKey
empty_key = record { members = []; deadline = 0 }

-- A key is gone when its expiry has passed.
unfoldable pub live : ℕ → ZKey → List (ℕ × Str)
live now z = if leb z.deadline now then [] else z.members

-- The score is at most `now - window_ms`.
abbrev pub outdated : ℕ → ℕ → ℕ × Str → Bool
outdated now window e = leb (e.0 + window) now

unfoldable pub insert_asc : ℕ × Str → List (ℕ × Str) → List (ℕ × Str)
insert_asc e [] = e ∷ []
insert_asc e (x ∷ xs) = let rest = insert_asc e xs in if ltb e.0 x.0 then e ∷ x ∷ xs else x ∷ rest

-- ZADD moves a member that is present.
unfoldable pub zadd : ℕ → Str → List (ℕ × Str) → List (ℕ × Str)
unfolding insert_asc
zadd score member ms = insert_asc (score, member) (delete_where (λ e. str_eq e.1 member) ms)

abbrev pub ceil_seconds : ℕ → ℕ
ceil_seconds ms = (ms + 999) / 1000

unfoldable pub lua_retry : ℕ → ℕ → List (ℕ × Str) → ℕ
lua_retry now window [] = ceil_seconds window
lua_retry now window (oldest ∷ _) = max 1 (ceil_seconds (oldest.0 + window - now))

-- The script's reply is `{1, 0}` or `{0, retry_after}`.
unfoldable pub script : ℕ → ℕ → ℕ → Str → ℕ → ZKey → (ℕ × ℕ) × ZKey
unfolding lua_retry
script now window capacity member ttl z =
    let kept = delete_where (outdated now window) (live now z) in
    if leb capacity (length kept)
    then ((0, lua_retry now window kept), record z { members = kept })
    else ((1, 0), record { members = zadd now member kept; deadline = now + ttl })

abbrev pub ttl_ms : LimitSpec → ℕ
ttl_ms spec = (spec.window_seconds + 1) * 1000

-- f"rl:{key}:{capacity}:{window_seconds}"
pub full_key : LimitSpec → Str → Str
full_key spec key =
    codes "rl:"
    ++ (key ++ (codes ":" ++ (str_nat spec.capacity ++ (codes ":" ++ str_nat spec.window_seconds))))

abbrev pub Store : Type 0
Store = Str → ZKey

abbrev pub store_at : Store → Str → ZKey → Store
store_at s k z j = if str_eq k j then z else s j

abbrev pub verdict_of : ℕ × ℕ → Verdict
verdict_of (flag, retry) = if flag == 0 then limited retry else allowed

-- The script run on one key of the store.
unfoldable pub eval_script : LimitSpec → Str → ℕ → Str → Store → Verdict × Store
eval_script spec k now member s =
    let (reply, z) = script now (window_ms spec) spec.capacity member (ttl_ms spec) (s k) in
    (verdict_of reply, store_at s k z)

-- One attempt: the time and the name of the member that it computes, and how the connection answers,
-- when the script is loaded and when it is run.
pub data Reply : Type 0 where
  answered no_script failed : Reply

pub record Attempt : Type 0 where
  pub now : ℕ
  pub member : Str
  pub loads : Bool
  pub reply : Reply

-- What `check` does: it decides, or raises "rate limit unavailable"; `waiting` if the attempts that
-- are given all end in NOSCRIPT, on which the code calls itself again.
pub data CheckResult : Type 0 where
  decided : Verdict → CheckResult
  unavailable waiting : CheckResult

abbrev pub attempt_fails : Bool → Attempt → Bool
attempt_fails loaded a = not loaded && not a.loads

-- `loaded` is `_LUA_SHA is not None`. The store is only touched by a run of the script.
unfoldable pub redis_check :
    LimitSpec → Str → List Attempt → Bool × Store → CheckResult × Bool × Store
redis_check spec key [] (loaded, s) = (waiting, loaded, s)
redis_check spec key (a ∷ more) (loaded, s) =
    let again = redis_check spec key more (false, s) in
    if attempt_fails loaded a then (unavailable, loaded, s) else elim a.reply [
      | answered ↦
          let (v, s') = eval_script spec (full_key spec key) a.now a.member s in
          (decided v, true, s')
      | no_script ↦ again
      | failed ↦ (unavailable, true, s)
    ]
