-- ===== src/RateLimit/InMemory.antt =====
-- `InMemoryRateLimiter` of apps/api/app/utils/rate_limit.py: one list of times for each key, in a
-- dict that is swept when it has more than 10000 keys.
pub mod Dict
pub mod Refines
use crypto_intelligence_plat.Base.{
  Bool, List, Str, [], if◌then◌else◌, leb, length, ltb, max, select, ℕ, ◌++◌, ◌+◌, ◌-◌, ◌/◌, ◌∷◌,
}
use crypto_intelligence_plat.RateLimit.{
  LimitSpec, Verdict, allowed, index_error, is_allowed, limited, recent, window_ms,
}
use crypto_intelligence_plat.RateLimit.InMemory.Dict.{Timestamps, evict, get, set_item}
use crypto_intelligence_plat.RateLimit.Window.{Event}

abbrev pub max_keys : ℕ
max_keys = 10_000

-- `max(1, int(oldest + window - now))`, on times in milliseconds
unfoldable pub retry_after : LimitSpec → ℕ → ℕ → ℕ
retry_after spec oldest now = max 1 ((oldest + window_ms spec - now) / 1000)

-- The refusal reads `entries[0]`, which is an `IndexError` on an empty list (capacity 0).
unfoldable pub refuse : LimitSpec → ℕ → List ℕ → Verdict
unfolding retry_after
refuse spec now [] = index_error
refuse spec now (oldest ∷ _) = limited (retry_after spec oldest now)

unfoldable pub sweep : LimitSpec → ℕ → Timestamps → Timestamps
sweep spec now d = if ltb max_keys (length d) then evict (recent spec now) d else d

unfoldable pub check : LimitSpec → Str → ℕ → Timestamps → Verdict × Timestamps
unfolding sweep refuse
check spec key now d =
    let entries = select (recent spec now) (get d key) in
    if leb spec.capacity (length entries)
    then (refuse spec now entries, d)
    else (allowed, sweep spec now (set_item d key (entries ++ now ∷ [])))

-- The decisions on a sequence of requests.
unfoldable pub run : LimitSpec → Timestamps → List Event → List Bool
run spec d [] = []
run spec d (e ∷ es) = let (v, d') = check spec e.0 e.1 d in is_allowed v ∷ run spec d' es
