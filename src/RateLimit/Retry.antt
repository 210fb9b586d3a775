-- ===== src/RateLimit/Retry.antt =====
-- The `Retry-After` of the two limiters, and what `RedisRateLimiter.check` does when Redis fails.
use crypto_intelligence_plat.RateLimit.InMemory
use crypto_intelligence_plat.Base.{
  All, Bool, Bool-cases, List, Str, [], any, ap, arith, delete_where, false, if◌then◌else◌, inl,
  inr, leb, length, refl, select, str_eq, suc, sym, true, ℕ, ◌%◌, ◌*◌, ◌+◌, ◌-◌, ◌<◌, ◌∙◌, ◌∷◌, ◌≡◌,
  ◌≢◌, ◌≤◌,
}
use crypto_intelligence_plat.RateLimit.{LimitSpec, allowed, is_allowed, recent, window_ms}
use crypto_intelligence_plat.RateLimit.InMemory.Dict.{Timestamps, get}
use crypto_intelligence_plat.RateLimit.Lua.{
  Attempt, Store, ZKey, answered, decided, eval_script, failed, full_key, insert_asc, live,
  lua_retry, no_script, outdated, redis_check, script, zadd,
}

length-delete_where {ℓ} :
    {A : Type ℓ} (p : A → Bool) (xs : List A) → length (delete_where p xs) ≤ length xs
unfolding delete_where
length-delete_where p [] = omega arith
length-delete_where p (x ∷ xs) = ground (arith, length-delete_where p xs)

length-live : (now : ℕ) (z : ZKey) → length (live now z) ≤ length z.members
unfolding live
length-live now z = ground arith

length-insert_asc : (e : ℕ × Str) (es : List (ℕ × Str)) → length (insert_asc e es) ≡ suc (length es)
unfolding insert_asc
length-insert_asc e [] = refl
length-insert_asc e (x ∷ xs) = ground (arith, length-insert_asc e xs)

-- Whatever the request, a key never holds more members than the capacity.
pub script-length :
    (now window capacity ttl : ℕ) (m : Str) (z : ZKey)
    → length z.members ≤ capacity
    → length (script now window capacity m ttl z).1.members ≤ capacity
unfolding script zadd
script-length now window capacity ttl m z h =
    let ks : List (ℕ × Str) = delete_where (outdated now window) (live now z) in
    ground (
      arith,
      length-delete_where (outdated now window) (live now z),
      length-live now z,
      length-insert_asc (now, m) (delete_where (λ e. str_eq e.1 m) ks),
      length-delete_where (λ e. str_eq e.1 m) ks,
    )

-- Once the oldest entry has left the window, one place is free.
free_place :
    (later window capacity : ℕ) (oldest : ℕ × Str) (rest : List (ℕ × Str)) (deadline : ℕ)
    → suc (length rest) ≤ capacity
    → oldest.0 + window ≤ later
    → leb capacity (
        length (
          delete_where
            (outdated later window)
            (live later (record { members = oldest ∷ rest; deadline = deadline }))))
      ≡ false
unfolding live delete_where
free_place later window capacity oldest rest deadline fits out =
    ground (arith, length-delete_where (outdated later window) rest)

-- After a refusal by the script, a caller that waits the seconds it is told, while nobody else asks,
-- is admitted.
pub lua_retry-suffices :
    (now later window capacity ttl r : ℕ) (m m' : Str) (z : ZKey)
    → length z.members ≤ capacity
    → 0 < capacity
    → (script now window capacity m ttl z).0 ≡ (0, r)
    → now + r * 1000 ≤ later
    → (script later window capacity m' ttl (script now window capacity m ttl z).1).0 ≡ (1, 0)
unfolding script
lua_retry-suffices now later window capacity ttl r m m' z small pos_cap refused waited =
    go (delete_where (outdated now window) (live now z)) refused (
      omega
        (arith, length-delete_where (outdated now window) (live now z), length-live now z, small))
  where
    reply_on : List (ℕ × Str) → (ℕ × ℕ) × ZKey
    reply_on ks =
        if leb capacity (length ks)
        then ((0, lua_retry now window ks), record z { members = ks })
        else ((1, 0), record { members = zadd now m ks; deadline = now + ttl })

    go :
        (ks : List (ℕ × Str))
        → (reply_on ks).0 ≡ (0, r)
        → length ks ≤ capacity
        → (script later window capacity m' ttl (reply_on ks).1).0 ≡ (1, 0)
    go [] e fits = absurd (ground arith)
    go (x ∷ rest) e fits = elim (Bool-cases (leb capacity (suc (length rest)))) [
      | inl full ↦ rw (
        full,
        free_place later window capacity x rest z.deadline (ground arith)
            (retry_from x rest (rw full at e)),
      )
      | inr free ↦ absurd (ground arith)
    ]
      where
        retry_from :
            (x : ℕ × Str) (rest : List (ℕ × Str))
            → ◌≡◌ {A = ℕ × ℕ} (0, lua_retry now window (x ∷ rest)) (0, r)
            → x.0 + window ≤ later
        retry_from x rest q = unfold lua_retry in ground arith

-- The attempt is a run of the script, at its time and with its member, that admits the request.
abbrev pub admits_by : LimitSpec → Str → Store → Attempt → Bool
admits_by spec key s a =
    let run = is_allowed (eval_script spec (full_key spec key) a.now a.member s).0 in
    elim a.reply [ answered ↦ run | no_script ↦ false | failed ↦ false ]

-- `check` admits a request only if, of its attempts, one is a run of the script that admits it: an
-- error of Redis, or a script that it does not know, never lets a request through.
pub redis_check-fails_closed :
    (spec : LimitSpec) (key : Str) (attempts : List Attempt) (loaded : Bool) (s : Store)
    → (redis_check spec key attempts (loaded, s)).0 ≡ decided allowed
    → any (admits_by spec key s) attempts ≡ true
unfolding redis_check
redis_check-fails_closed spec key [] loaded s h = absurd (ground arith)
redis_check-fails_closed spec key (a ∷ more) loaded s h =
    ground (arith, redis_check-fails_closed spec key more false s)

still_recent :
    (spec : LimitSpec) (oldest now : ℕ) (ts : List ℕ)
    → now + 1000 ≤ oldest + window_ms spec
    → (oldest + window_ms spec - now) % 1000 ≢ 0
    → All (λ t. oldest ≤ t) ts
    → select (recent spec (now + InMemory.retry_after spec oldest now * 1000)) ts ≡ ts
unfolding select InMemory.retry_after
still_recent spec oldest now [] long part h = refl
still_recent spec oldest now (t ∷ ts) long part h =
    ground (arith, still_recent spec oldest now ts long part h.1)

select-select :
    (spec : LimitSpec) (now t : ℕ) (ts : List ℕ)
    → now ≤ t
    → select (recent spec t) (select (recent spec now) ts) ≡ select (recent spec t) ts
unfolding select
select-select spec now t [] le = refl
select-select spec now t (x ∷ ts) le = ground (arith, select-select spec now t ts le)

-- The `Retry-After` of the in-memory limiter is rounded down: where the wait is over a second and no
-- whole number of seconds, a caller that was refused and waits as told is refused again.
pub retry_after-too_early :
    (spec : LimitSpec) (key : Str) (oldest now : ℕ) (ts : List ℕ) (d : Timestamps)
    → select (recent spec now) (get d key) ≡ oldest ∷ ts
    → All (λ t. oldest ≤ t) ts
    → spec.capacity ≤ length (oldest ∷ ts)
    → now + 1000 ≤ oldest + window_ms spec
    → (oldest + window_ms spec - now) % 1000 ≢ 0
    → is_allowed (InMemory.check spec key (now + InMemory.retry_after spec oldest now * 1000) d).0
      ≡ false
unfolding InMemory.check
retry_after-too_early spec key oldest now ts d e sorted full long part =
    refused (InMemory.retry_after spec oldest now) (
      sym (
        select-select spec now (now + InMemory.retry_after spec oldest now * 1000) (get d key)
          (omega arith))
      ∙ (ap (select (recent spec (now + InMemory.retry_after spec oldest now * 1000))) e
          ∙ still_recent spec oldest now (oldest ∷ ts) long part (omega arith, sorted)))
  where
    refused :
        (r : ℕ)
        → select (recent spec (now + r * 1000)) (get d key) ≡ oldest ∷ ts
        → is_allowed (InMemory.check spec key (now + r * 1000) d).0 ≡ false
    refused r q = unfold InMemory.refuse in ground arith
