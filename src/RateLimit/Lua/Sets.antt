-- ===== src/RateLimit/Lua/Sets.antt =====
-- Lemmas on the sorted sets of the script: what counts, what is fresh, what lies in the past.
use crypto_intelligence_plat.Base.{
  All, Bool, Bool-cases, List, Str, [], arith, count_where, delete_where, false, inl, inr, leb,
  length, refl, str_eq, sym, ℕ, ◌+◌, ◌∷◌, ◌≡◌, ◌≤◌,
}
use crypto_intelligence_plat.RateLimit.{LimitSpec, recent, window_ms}
use crypto_intelligence_plat.RateLimit.Lua.{ZKey, insert_asc, live, outdated, ttl_ms}

abbrev pub scored : LimitSpec → ℕ → ℕ × Str → Bool
scored spec t e = recent spec t e.0

-- Member names are not repeated within a key: what the code's random suffix is for.
abbrev pub Fresh : Str → List (ℕ × Str) → Type 0
Fresh m [] = Unit
Fresh m (e ∷ es) = (str_eq e.1 m ≡ false) × Fresh m es

pub none_left :
    (spec : LimitSpec) (t deadline : ℕ) (ms : List (ℕ × Str))
    → All (λ e. e.0 + window_ms spec ≤ deadline) ms
    → deadline ≤ t
    → count_where (scored spec t) ms ≡ count_where (scored spec t) []
unfolding count_where
none_left spec t deadline [] h d = refl
none_left spec t deadline (e ∷ es) h d = ground (arith, none_left spec t deadline es h.1 d)

-- The expiry removes only what has left the window.
pub count_where-live :
    (spec : LimitSpec) (now t : ℕ) (z : ZKey)
    → now ≤ t
    → All (λ e. e.0 + window_ms spec ≤ z.deadline) z.members
    → count_where (scored spec t) (live now z) ≡ count_where (scored spec t) z.members
unfolding live
count_where-live spec now t z le h = elim (Bool-cases (leb z.deadline now)) [
  | inl gone ↦ rw gone (sym (none_left spec t z.deadline z.members h (ground arith)))
  | inr there ↦ rw there
]

pub count_where-kept :
    (spec : LimitSpec) (now t : ℕ) (ms : List (ℕ × Str))
    → now ≤ t
    → count_where (scored spec t) (delete_where (outdated now (window_ms spec)) ms)
      ≡ count_where (scored spec t) ms
unfolding count_where delete_where
count_where-kept spec now t [] le = refl
count_where-kept spec now t (e ∷ es) le = ground (arith, count_where-kept spec now t es le)

-- At the moment of the request every entry that is kept counts.
pub length-kept :
    (spec : LimitSpec) (now : ℕ) (ms : List (ℕ × Str))
    → length (delete_where (outdated now (window_ms spec)) ms) ≡ count_where (scored spec now) ms
unfolding count_where delete_where
length-kept spec now [] = refl
length-kept spec now (e ∷ es) = ground (arith, length-kept spec now es)

pub Fresh-delete :
    (m : Str) (p : ℕ × Str → Bool) (es : List (ℕ × Str)) → Fresh m es → Fresh m (delete_where p es)
unfolding delete_where
Fresh-delete m p [] h = tt
Fresh-delete m p (e ∷ es) h = ground (arith, Fresh-delete m p es h.1)

pub delete_where-Fresh :
    (m : Str) (es : List (ℕ × Str)) → Fresh m es → delete_where (λ e. str_eq e.1 m) es ≡ es
unfolding delete_where
delete_where-Fresh m [] h = refl
delete_where-Fresh m (e ∷ es) h = rw (h.0, delete_where-Fresh m es h.1)

pub count_where-insert_asc :
    (p : ℕ × Str → Bool) (e : ℕ × Str) (es : List (ℕ × Str))
    → count_where p (insert_asc e es) ≡ count_where p (e ∷ es)
unfolding count_where insert_asc
count_where-insert_asc p e [] = refl
count_where-insert_asc p e (x ∷ xs) = ground (arith, count_where-insert_asc p e xs)

pub All-insert_asc :
    (n : ℕ) (spec : LimitSpec) (e : ℕ × Str) (es : List (ℕ × Str))
    → e.0 + window_ms spec ≤ n
    → All (λ x. x.0 + window_ms spec ≤ n) es
    → All (λ x. x.0 + window_ms spec ≤ n) (insert_asc e es)
unfolding insert_asc
All-insert_asc n spec e [] h hs = (h, tt)
All-insert_asc n spec e (x ∷ xs) h hs = ground (arith, All-insert_asc n spec e xs h hs.1)

-- What is kept at `now` leaves the window before the new expiry.
pub All-kept :
    (spec : LimitSpec) (now : ℕ) (es : List (ℕ × Str))
    → All (λ e. e.0 ≤ now) es
    → All (λ e. e.0 + window_ms spec ≤ now + ttl_ms spec) es
All-kept spec now [] h = tt
All-kept spec now (e ∷ es) h = (omega arith, All-kept spec now es h.1)

pub All-live : (P : ℕ × Str → Type 0) (now : ℕ) (z : ZKey) → All P z.members → All P (live now z)
unfolding live
All-live P now z h = elim (Bool-cases (leb z.deadline now)) [
  | inl gone ↦ rw gone tt
  | inr there ↦ rw there h
]

pub Fresh-live : (m : Str) (now : ℕ) (z : ZKey) → Fresh m z.members → Fresh m (live now z)
unfolding live
Fresh-live m now z h = elim (Bool-cases (leb z.deadline now)) [
  | inl gone ↦ rw gone tt
  | inr there ↦ rw there h
]

pub All-later :
    (s t : ℕ) (es : List (ℕ × Str)) → s ≤ t → All (λ e. e.0 ≤ s) es → All (λ e. e.0 ≤ t) es
All-later s t [] le h = tt
All-later s t (e ∷ es) le h = (omega arith, All-later s t es le h.1)

pub All-past_insert :
    (n : ℕ) (e : ℕ × Str) (es : List (ℕ × Str))
    → e.0 ≤ n
    → All (λ x. x.0 ≤ n) es
    → All (λ x. x.0 ≤ n) (insert_asc e es)
unfolding insert_asc
All-past_insert n e [] h hs = (h, tt)
All-past_insert n e (x ∷ xs) h hs = ground (arith, All-past_insert n e xs h hs.1)
