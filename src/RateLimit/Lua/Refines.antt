-- ===== src/RateLimit/Lua/Refines.antt =====
-- The Lua script takes the decisions of the sliding window.
use mathlib.Core.Path.{subst, ap₂}
use crypto_intelligence_plat.Base.{
  All, All-delete_where, Bool, Bool-cases, List, Str, [], ap, arith, count_where, delete_where,
  false, if◌then◌else◌, inl, inr, leb, length, not, refl, str_eq, str_eq_comm, str_eq_refl,
  str_eq_sound, true, ℕ, ◌+◌, ◌∙◌, ◌∷◌, ◌≡◌, ◌≤◌, ◌⊎◌,
}
use crypto_intelligence_plat.RateLimit.{LimitSpec, is_allowed, window_ms}
use crypto_intelligence_plat.RateLimit.Lua.{
  Store, ZKey, empty_key, eval_script, insert_asc, live, lua_retry, outdated, script, store_at,
  ttl_ms, verdict_of, zadd,
}
use crypto_intelligence_plat.RateLimit.Lua.Sets.{
  All-insert_asc, All-kept, All-later, All-live, All-past_insert, Fresh, Fresh-delete, Fresh-live,
  count_where-insert_asc, count_where-kept, count_where-live, delete_where-Fresh, length-kept,
  scored,
}
use crypto_intelligence_plat.RateLimit.Window.{
  Event, Ordered, admits, decisions, load, record_event,
}

-- What a key holds of the history, seen from time `t0` on.
pub record KeyAgrees (spec : LimitSpec) (t0 : ℕ) (k : Str) (z : ZKey) (h : List Event)
    : Type 0 where
  pub counts : (t : ℕ) → t0 ≤ t → count_where (scored spec t) z.members ≡ load spec k t h
  pub past : All (λ e. e.0 ≤ t0) z.members
  pub lives : All (λ e. e.0 + window_ms spec ≤ z.deadline) z.members

abbrev pub StoreAgrees : LimitSpec → ℕ → Store → List Event → Type 0
StoreAgrees spec t0 s h = (k : Str) → KeyAgrees spec t0 k (s k) h

-- What the script keeps of a key at `now`.
abbrev kept_of : LimitSpec → ℕ → ZKey → List (ℕ × Str)
kept_of spec now z = delete_where (outdated now (window_ms spec)) (live now z)

-- One run of the script on a key that agrees with the history.
module _ (spec : LimitSpec) (t0 now : ℕ) (m : Str) (z : ZKey) (le : t0 ≤ now) where
  count_where-kept_live :
      (t : ℕ)
      → now ≤ t
      → All (λ e. e.0 + window_ms spec ≤ z.deadline) z.members
      → count_where (scored spec t) (kept_of spec now z) ≡ count_where (scored spec t) z.members
  count_where-kept_live t q h =
      count_where-kept spec now t (live now z) q ∙ count_where-live spec now t z q h

  All-past_kept : All (λ e. e.0 ≤ t0) z.members → All (λ e. e.0 ≤ now) (kept_of spec now z)
  All-past_kept h =
      All-delete_where _ (outdated now (window_ms spec)) (live now z)
        (All-live _ now z (All-later t0 now z.members le h))

  zadd-kept :
      Fresh m z.members → zadd now m (kept_of spec now z) ≡ insert_asc (now, m) (kept_of spec now z)
  unfolding zadd
  zadd-kept fr = ap (insert_asc (now, m)) (
      delete_where-Fresh m (kept_of spec now z)
        (Fresh-delete m (outdated now (window_ms spec)) (live now z) (Fresh-live m now z fr)))

  script-admits :
      (k : Str) (h : List Event)
      → KeyAgrees spec t0 k z h
      → leb spec.capacity (length (kept_of spec now z)) ≡ not (admits spec h (k, now))
  unfolding admits
  script-admits k h a = ground (
    arith,
    length-kept spec now (live now z),
    count_where-live spec now now z (omega arith) a.lives,
    a.counts now le,
  )

  script-KeyAgrees_self :
      (k : Str) (h : List Event)
      → KeyAgrees spec t0 k z h
      → Fresh m z.members
      → KeyAgrees spec now k
          (record { members = zadd now m (kept_of spec now z); deadline = now + ttl_ms spec })
          ((k, now) ∷ h)
  script-KeyAgrees_self k h a fr = rw (zadd-kept fr) (record {
    counts = λ t q.
        unfold load count_where in
        ground (
          arith,
          count_where-insert_asc (scored spec t) (now, m) (kept_of spec now z),
          count_where-kept_live t q a.lives,
          a.counts t (omega arith),
          str_eq_refl k,
        );
    past = All-past_insert now (now, m) (kept_of spec now z) (omega arith) (All-past_kept a.past);
    lives =
        All-insert_asc (now + ttl_ms spec) spec (now, m) (kept_of spec now z) (omega arith)
          (All-kept spec now (kept_of spec now z) (All-past_kept a.past));
  })

  script-KeyAgrees_refused :
      (k : Str) (h : List Event)
      → KeyAgrees spec t0 k z h
      → KeyAgrees spec now k (record z { members = kept_of spec now z }) h
  script-KeyAgrees_refused k h a = record {
    counts = λ t q. count_where-kept_live t q a.lives ∙ a.counts t (omega arith);
    past = All-past_kept a.past;
    lives =
        All-delete_where _ (outdated now (window_ms spec)) (live now z) (All-live _ now z a.lives);
  }

-- A key of which nothing was asked agrees with the longer history too.
other-KeyAgrees :
    (spec : LimitSpec) (t0 now : ℕ) (j k : Str) (z : ZKey) (h : List Event) (d : Bool)
    → t0 ≤ now
    → str_eq k j ≡ false
    → str_eq j k ≡ false
    → KeyAgrees spec t0 j z h
    → KeyAgrees spec now j z (record_event d (k, now) h)
other-KeyAgrees spec t0 now j k z h d le ne ne' a = record {
  counts = λ t q. unfold load count_where in ground (arith, a.counts t (omega arith));
  past = All-later t0 now z.members le a.past;
  lives = a.lives;
}

-- One request on the store: the decision is the specified one, and every key still agrees.
eval_script-StoreAgrees :
    (spec : LimitSpec) (t0 : ℕ) (e : Event) (m : Str) (s : Store) (h : List Event)
    → t0 ≤ e.1
    → Fresh m (s e.0).members
    → StoreAgrees spec t0 s h
    → (is_allowed (eval_script spec e.0 e.1 m s).0 ≡ admits spec h e)
      × StoreAgrees spec e.1 (eval_script spec e.0 e.1 m s).1 (record_event (admits spec h e) e h)
unfolding eval_script script
eval_script-StoreAgrees spec t0 (k, now) m s h le fr a =
    rw (script-admits spec t0 now m (s k) le k h (a k)) (by_decision (admits spec h (k, now)))
  where
    kept_now : List (ℕ × Str)
    kept_now = kept_of spec now (s k)

    reply : Bool → (ℕ × ℕ) × ZKey
    reply b =
        if not b
        then ((0, lua_retry now (window_ms spec) kept_now), record (s k) { members = kept_now })
        else ((1, 0), record { members = zadd now m kept_now; deadline = now + ttl_ms spec })

    by_key :
        (b : Bool) (j : Str)
        → (str_eq k j ≡ true) ⊎ (str_eq k j ≡ false)
        → KeyAgrees spec now j (store_at s k (reply b).1 j) (record_event b (k, now) h)
    by_key true j (inl e) = rw e (
        subst (λ x. KeyAgrees spec now x (reply true).1 ((k, now) ∷ h)) (str_eq_sound k j e)
          (script-KeyAgrees_self spec t0 now m (s k) le k h (a k) fr))
    by_key false j (inl e) = rw e (
        subst (λ x. KeyAgrees spec now x (reply false).1 h) (str_eq_sound k j e)
          (script-KeyAgrees_refused spec t0 now m (s k) le k h (a k)))
    by_key b j (inr ne) =
        rw ne (other-KeyAgrees spec t0 now j k (s j) h b le ne (str_eq_comm j k ∙ ne) (a j))

    by_decision :
        (b : Bool)
        → (is_allowed (verdict_of (reply b).0) ≡ b)
          × StoreAgrees spec now (store_at s k (reply b).1) (record_event b (k, now) h)
    by_decision true = (refl, λ j. by_key true j (Bool-cases (str_eq k j)))
    by_decision false = (refl, λ j. by_key false j (Bool-cases (str_eq k j)))

-- No member name is used twice on a key: what `secrets.token_hex` is for.
abbrev pub FreshRun : LimitSpec → Store → List (Event × Str) → Type 0
FreshRun spec s [] = Unit
FreshRun spec s ((e, m) ∷ es) =
    Fresh m (s e.0).members × FreshRun spec (eval_script spec e.0 e.1 m s).1 es

pub lua_run : LimitSpec → Store → List (Event × Str) → List Bool
lua_run spec s [] = []
lua_run spec s ((e, m) ∷ es) =
    let (v, s') = eval_script spec e.0 e.1 m s in is_allowed v ∷ lua_run spec s' es

abbrev pub events : List (Event × Str) → List Event
events [] = []
events ((e, m) ∷ es) = e ∷ events es

-- From a store that agrees with the history, the script takes on any sequence of requests, in order
-- of time, of any keys and with member names that do not repeat, the decisions of the window.
pub lua_run-eq-decisions :
    (spec : LimitSpec) (t0 : ℕ) (es : List (Event × Str)) (s : Store) (h : List Event)
    → Ordered t0 (events es)
    → FreshRun spec s es
    → StoreAgrees spec t0 s h
    → lua_run spec s es ≡ decisions spec h (events es)
unfolding lua_run decisions
lua_run-eq-decisions spec t0 [] s h o fr a = refl
lua_run-eq-decisions spec t0 ((e, m) ∷ es) s h o fr a =
    let (same, a') = eval_script-StoreAgrees spec t0 e m s h o.0 fr.0 a in
    ap₂ ◌∷◌ same (
      lua_run-eq-decisions spec e.1 es (eval_script spec e.0 e.1 m s).1
        (record_event (admits spec h e) e h) o.1 fr.1 a')

pub empty-StoreAgrees : (spec : LimitSpec) (t0 : ℕ) → StoreAgrees spec t0 (λ k. empty_key) []
unfolding load count_where
empty-StoreAgrees spec t0 k = record { counts = λ t q. refl; past = tt; lives = tt }
