-- ===== src/Tests/RateLimits.antt =====
-- The limiters on short runs of requests.
use crypto_intelligence_plat.RateLimit.InMemory
use crypto_intelligence_plat.Base.{
  List, Str, [], any, arith, codes, delete_where, false, refl, select, str_eq, true, ◌∷◌, ◌≡◌, ◌≢◌,
}
use crypto_intelligence_plat.Config.{default_settings, production, staging}
use crypto_intelligence_plat.RateLimit.{LimitSpec, allowed, login_ip}
use crypto_intelligence_plat.RateLimit.Bounds.{admitted_of, limiters-IsBounded}
use crypto_intelligence_plat.RateLimit.Choice.{limit_request, limit_request-never_refuses}
use crypto_intelligence_plat.RateLimit.InMemory.Dict.{evict, get, set_item}
use crypto_intelligence_plat.RateLimit.InMemory.Refines.{empty-Agrees, run-eq-decisions}
use crypto_intelligence_plat.RateLimit.Lua.{
  Attempt, Reply, ZKey, decided, empty_key, eval_script, insert_asc, live, lua_retry, redis_check,
  script, zadd,
}
use crypto_intelligence_plat.RateLimit.Lua.Refines.{
  FreshRun, empty-StoreAgrees, events, lua_run, lua_run-eq-decisions,
}
use crypto_intelligence_plat.RateLimit.Retry.{
  admits_by, lua_retry-suffices, redis_check-fails_closed,
}
use crypto_intelligence_plat.RateLimit.Window.{Event, IsBounded, decisions}

abbrev two_a_second : LimitSpec
two_a_second = record { capacity = 2; window_seconds = 1 }

abbrev key : Str
key = codes "login:ip:10.0.0.1"

abbrev four_requests : List Event
four_requests = (key, 5000) ∷ (key, 5100) ∷ (key, 5200) ∷ (key, 6100) ∷ []

-- The third is refused, and the fourth comes when the first two have left the window.
run_decisions : InMemory.run two_a_second [] four_requests ≡ true ∷ true ∷ false ∷ true ∷ []
unfolding InMemory.run InMemory.check InMemory.sweep InMemory.refuse InMemory.retry_after get
    set_item evict select str_eq
run_decisions = refl

run-eq-decisions_example :
    InMemory.run two_a_second [] four_requests ≡ decisions two_a_second [] four_requests
run-eq-decisions_example =
    run-eq-decisions two_a_second 5000 four_requests [] [] (omega arith)
      (empty-Agrees two_a_second 5000)

abbrev named_requests : List (Event × Str)
named_requests = ((key, 5000), codes "a") ∷ ((key, 5100), codes "b") ∷ ((key, 5200), codes "c") ∷ []

named_requests-fresh : FreshRun two_a_second (λ k. empty_key) named_requests
unfolding eval_script script zadd insert_asc lua_retry live delete_where str_eq
named_requests-fresh = (tt, ((refl, tt), ((refl, (refl, tt)), tt)))

lua_run-eq-decisions_example :
    lua_run two_a_second (λ k. empty_key) named_requests
    ≡ decisions two_a_second [] (events named_requests)
lua_run-eq-decisions_example =
    lua_run-eq-decisions two_a_second 5000 named_requests (λ k. empty_key) [] (omega arith)
      named_requests-fresh (empty-StoreAgrees two_a_second 5000)

limiters-IsBounded_example :
    IsBounded two_a_second (
      admitted_of [] (events named_requests) (InMemory.run two_a_second [] (events named_requests)))
    × IsBounded two_a_second (
        admitted_of []
          (events named_requests)
          (lua_run two_a_second (λ k. empty_key) named_requests))
limiters-IsBounded_example =
    limiters-IsBounded two_a_second 5000 named_requests (omega arith) named_requests-fresh

abbrev full_key_of : ZKey
full_key_of = record { members = (5000, codes "a") ∷ []; deadline = 7000 }

refused_now : (script 5300 1000 1 (codes "b") 2000 full_key_of).0 ≡ (0, 1)
unfolding script lua_retry live delete_where
refused_now = refl

lua_retry-suffices_example :
    (script 6300 1000 1 (codes "c") 2000 (script 5300 1000 1 (codes "b") 2000 full_key_of).1).0
    ≡ (1, 0)
lua_retry-suffices_example =
    lua_retry-suffices 5300 6300 1000 1 2000 1 (codes "b") (codes "c") full_key_of (omega arith)
      (omega arith) refused_now (omega arith)

-- Redis has lost the script, and it is loaded again.
abbrev two_attempts : List Attempt
two_attempts =
    record { now = 5000; member = codes "a"; loads = true; reply = Reply.no_script }
    ∷ record { now = 5001; member = codes "b"; loads = true; reply = Reply.answered }
    ∷ []

attempt_admits :
    (redis_check two_a_second key two_attempts (false, λ k. empty_key)).0 ≡ decided allowed
unfolding redis_check eval_script script zadd insert_asc lua_retry live delete_where
attempt_admits = refl

redis_check-fails_closed_example :
    any (admits_by two_a_second key (λ k. empty_key)) two_attempts ≡ true
redis_check-fails_closed_example =
    redis_check-fails_closed two_a_second key two_attempts false (λ k. empty_key) attempt_admits

-- Staging does not limit logins.
limit_request-never_refuses_example :
    limit_request
      (record (default_settings [] []) { environment = staging })
      login_ip
      key
      5000
      []
      (true, λ k. empty_key)
    ≡ (decided allowed, true, λ k. empty_key)
limit_request-never_refuses_example =
    limit_request-never_refuses (record (default_settings [] []) { environment = staging }) login_ip
      key 5000 [] (true, λ k. empty_key) not_production (omega arith)
  where
    not_production : staging ≢ production
    not_production e = ground arith
