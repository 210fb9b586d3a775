-- ===== src/RateLimit/InMemory/Refines.antt =====
-- The in-memory limiter takes the decisions of the sliding window.
use mathlib.Core.Path.{ap₂}
use crypto_intelligence_plat.Base.{
  Bool, Bool-cases, List, Str, [], arith, count_where, count_where-append,
  count_where-eq-length-select, false, if◌then◌else◌, inl, inr, leb, length, ltb, not, refl, select,
  str_eq_refl, str_eq_sound, true, ℕ, ◌++◌, ◌+◌, ◌∙◌, ◌∷◌, ◌≡◌, ◌≤◌,
}
use crypto_intelligence_plat.RateLimit.{LimitSpec, Verdict, allowed, is_allowed, recent}
use crypto_intelligence_plat.RateLimit.InMemory.{check, max_keys, refuse, run, sweep}
use crypto_intelligence_plat.RateLimit.InMemory.Dict.{
  Distinct, Timestamps, evict-Distinct, get, get-evict, get-set_item, set_item, set_item-Distinct,
}
use crypto_intelligence_plat.RateLimit.Window.{
  Event, Ordered, admits, decisions, load, record_event,
}

-- What the dict still holds of the history `h`, seen from time `t0` on.
pub record Agrees (spec : LimitSpec) (t0 : ℕ) (d : Timestamps) (h : List Event) : Type 0 where
  pub distinct : Distinct d
  pub counts : (k : Str) (t : ℕ) → t0 ≤ t → count_where (recent spec t) (get d k) ≡ load spec k t h

-- Dropping what is old at `now` does not show at `now` or later.
pub count_where-select :
    (spec : LimitSpec) (now t : ℕ) (ts : List ℕ)
    → now ≤ t
    → count_where (recent spec t) (select (recent spec now) ts) ≡ count_where (recent spec t) ts
unfolding count_where select
count_where-select spec now t [] le = refl
count_where-select spec now t (x ∷ ts) le = ground (arith, count_where-select spec now t ts le)

sweep-Agrees :
    (spec : LimitSpec) (t0 now : ℕ) (d : Timestamps) (h : List Event)
    → Agrees spec now d h
    → Agrees spec now (sweep spec now d) h
unfolding sweep
sweep-Agrees spec t0 now d h a = elim (Bool-cases (ltb max_keys (length d))) [
  | inl e ↦ rw e (record {
    distinct = evict-Distinct (recent spec now) d a.distinct;
    counts = λ k t le.
        rw (get-evict (recent spec now) d k a.distinct)
          (count_where-select spec now t (get d k) le ∙ a.counts k t le);
  })
  | inr e ↦ rw e a
]

later :
    (spec : LimitSpec) (t0 now : ℕ) (d : Timestamps) (h : List Event)
    → t0 ≤ now
    → Agrees spec t0 d h
    → Agrees spec now d h
later spec t0 now d h le a = record {
  distinct = a.distinct;
  counts = λ k t q. a.counts k t (omega arith);
}

-- The entry list that an admitted request writes, counted at a later time.
count_where-written :
    (spec : LimitSpec) (key : Str) (now t : ℕ) (d : Timestamps)
    → now ≤ t
    → count_where (recent spec t) (select (recent spec now) (get d key) ++ now ∷ [])
      ≡ count_where (recent spec t) (get d key) + count_where (recent spec t) (now ∷ [])
count_where-written spec key now t d le =
    rw count_where-append (rw (count_where-select spec now t (get d key) le))

written-Agrees :
    (spec : LimitSpec) (key : Str) (now : ℕ) (d : Timestamps) (h : List Event)
    → Agrees spec now d h
    → Agrees spec now
        (set_item d key (select (recent spec now) (get d key) ++ now ∷ []))
        ((key, now) ∷ h)
written-Agrees spec key now d h a = record {
  distinct = set_item-Distinct d key (select (recent spec now) (get d key) ++ now ∷ []) a.distinct;
  counts = λ k t le. rw get-set_item (
      unfold load count_where in
      ground (
        arith,
        count_where-written spec key now t d le,
        a.counts key t le,
        a.counts k t le,
        str_eq_sound key k,
        str_eq_sound k key,
        str_eq_refl k,
        str_eq_refl key,
      ));
}

-- The limiter's own test, on the times it holds, is the specified one.
test-eq-admits :
    (spec : LimitSpec) (key : Str) (now : ℕ) (d : Timestamps) (h : List Event)
    → Agrees spec now d h
    → leb spec.capacity (length (select (recent spec now) (get d key)))
      ≡ not (admits spec h (key, now))
unfolding admits
test-eq-admits spec key now d h a = ground (
  arith,
  a.counts key now (omega arith),
  count_where-eq-length-select (recent spec now) (get d key),
)

-- One request: the decision is the specified one, and the dict still agrees with the history.
check-Agrees :
    (spec : LimitSpec) (t0 : ℕ) (e : Event) (d : Timestamps) (h : List Event)
    → t0 ≤ e.1
    → Agrees spec t0 d h
    → (is_allowed (check spec e.0 e.1 d).0 ≡ admits spec h e)
      × Agrees spec e.1 (check spec e.0 e.1 d).1 (record_event (admits spec h e) e h)
unfolding check
check-Agrees spec t0 (key, now) d h le a =
    let a' = later spec t0 now d h le a in
    rw (test-eq-admits spec key now d h a') (by_decision (admits spec h (key, now)) a')
  where
    entries : List ℕ
    entries = select (recent spec now) (get d key)

    refused-is_allowed : (ts : List ℕ) → is_allowed (refuse spec now ts) ≡ false
    refused-is_allowed [] = unfold refuse in refl
    refused-is_allowed (x ∷ ts) = unfold refuse in refl

    after : Bool → Verdict × Timestamps
    after b =
        if not b
        then (refuse spec now entries, d)
        else (allowed, sweep spec now (set_item d key (entries ++ now ∷ [])))

    by_decision :
        (b : Bool)
        → Agrees spec now d h
        → (is_allowed (after b).0 ≡ b) × Agrees spec now (after b).1 (record_event b (key, now) h)
    by_decision true a' = (refl, sweep-Agrees spec t0 now _ _ (written-Agrees spec key now d h a'))
    by_decision false a' = (refused-is_allowed entries, a')

-- From a dict that agrees with the history, the limiter takes on any sequence of requests, in order
-- of time and of any keys, the decisions that the sliding window specifies.
pub run-eq-decisions :
    (spec : LimitSpec) (t0 : ℕ) (es : List Event) (d : Timestamps) (h : List Event)
    → Ordered t0 es
    → Agrees spec t0 d h
    → run spec d es ≡ decisions spec h es
unfolding run decisions
run-eq-decisions spec t0 [] d h o a = refl
run-eq-decisions spec t0 (e ∷ es) d h o a =
    let (same, a') = check-Agrees spec t0 e d h o.0 a in
    ap₂ ◌∷◌ same (
      run-eq-decisions spec e.1 es (check spec e.0 e.1 d).1 (record_event (admits spec h e) e h) o.1
        a')

pub empty-Agrees : (spec : LimitSpec) (t0 : ℕ) → Agrees spec t0 [] []
unfolding get load count_where
empty-Agrees spec t0 = record { distinct = tt; counts = λ k t le. refl }
