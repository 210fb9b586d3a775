-- ===== src/RateLimit/Bounds.antt =====
-- The bound that the two limiters of apps/api/app/utils/rate_limit.py are for.
use crypto_intelligence_plat.RateLimit.InMemory
use crypto_intelligence_plat.Base.{Bool, List, Str, [], arith, count_where, refl, ℕ, ◌∷◌, ◌≡◌}
use crypto_intelligence_plat.RateLimit.{LimitSpec}
use crypto_intelligence_plat.RateLimit.InMemory.Refines.{empty-Agrees, run-eq-decisions}
use crypto_intelligence_plat.RateLimit.Lua.{empty_key}
use crypto_intelligence_plat.RateLimit.Lua.Refines.{
  FreshRun, empty-StoreAgrees, events, lua_run, lua_run-eq-decisions,
}
use crypto_intelligence_plat.RateLimit.Window.{
  Event, IsBounded, Ordered, admits, decisions, history, history-IsBounded, record_event, served,
}

-- The requests that a list of decisions let through, newest first.
unfoldable pub admitted_of : List Event → List Event → List Bool → List Event
admitted_of h [] ds = h
admitted_of h (e ∷ es) [] = h
admitted_of h (e ∷ es) (d ∷ ds) = admitted_of (record_event d e h) es ds

history-eq-admitted :
    (spec : LimitSpec) (h es : List Event)
    → history spec h es ≡ admitted_of h es (decisions spec h es)
unfolding history decisions admitted_of
history-eq-admitted spec h [] = refl
history-eq-admitted spec h (e ∷ es) =
    history-eq-admitted spec (record_event (admits spec h e) e h) es

nothing-IsBounded : (spec : LimitSpec) → IsBounded spec []
unfolding served count_where
nothing-IsBounded spec k t = omega arith

decisions-IsBounded :
    (spec : LimitSpec) (t0 : ℕ) (es : List Event)
    → Ordered t0 es
    → IsBounded spec (admitted_of [] es (decisions spec [] es))
decisions-IsBounded spec t0 es o =
    rw (← history-eq-admitted spec [] es)
      (history-IsBounded spec t0 [] es tt o (nothing-IsBounded spec))

-- Of requests in order of time, of any keys, the in-memory limiter and the script in Redis, each
-- starting empty, let at most `capacity` of a key through in any window, wherever it ends; for the
-- script the member names do not repeat.
pub limiters-IsBounded :
    (spec : LimitSpec) (t0 : ℕ) (es : List (Event × Str))
    → Ordered t0 (events es)
    → FreshRun spec (λ k. empty_key) es
    → IsBounded spec (admitted_of [] (events es) (InMemory.run spec [] (events es)))
      × IsBounded spec (admitted_of [] (events es) (lua_run spec (λ k. empty_key) es))
limiters-IsBounded spec t0 es o fresh = (
  rw (run-eq-decisions spec t0 (events es) [] [] o (empty-Agrees spec t0))
      (decisions-IsBounded spec t0 (events es) o),
  rw (lua_run-eq-decisions spec t0 es (λ k. empty_key) [] o fresh (empty-StoreAgrees spec t0))
      (decisions-IsBounded spec t0 (events es) o),
)
