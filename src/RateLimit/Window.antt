-- ===== src/RateLimit/Window.antt =====
-- What a sliding-window limiter promises, stated on the whole history of admitted requests: a
-- request is admitted exactly if fewer than `capacity` admitted ones of its key lie in the window.
use crypto_intelligence_plat.Base.{
  Bool, List, Str, [], arith, count_where, false, leb, ltb, str_eq, str_eq_sound, true, ℕ, ◌&&◌,
  ◌∷◌, ◌≤◌,
}
use crypto_intelligence_plat.RateLimit.{LimitSpec, recent}

-- An admitted request: its key and its time.
abbrev pub Event : Type 0
Event = Str × ℕ

abbrev pub counts_for : LimitSpec → Str → ℕ → Event → Bool
counts_for spec k now e = str_eq k e.0 && recent spec now e.1

unfoldable pub load : LimitSpec → Str → ℕ → List Event → ℕ
load spec k now h = count_where (counts_for spec k now) h

-- The specified decision.
unfoldable pub admits : LimitSpec → List Event → Event → Bool
admits spec h e = ltb (load spec e.0 e.1 h) spec.capacity

-- The history after one request, newest first.
abbrev pub record_event : Bool → Event → List Event → List Event
record_event true e h = e ∷ h
record_event false e h = h

-- The decisions on a sequence of requests.
unfoldable pub decisions : LimitSpec → List Event → List Event → List Bool
unfolding admits load
decisions spec h [] = []
decisions spec h (e ∷ es) = let d = admits spec h e in d ∷ decisions spec (record_event d e h) es

-- The history after a sequence of requests.
unfoldable pub history : LimitSpec → List Event → List Event → List Event
unfolding admits load
history spec h [] = h
history spec h (e ∷ es) = history spec (record_event (admits spec h e) e h) es

-- The times of the requests do not fall below `t`, nor from one request to the next.
abbrev pub Ordered : ℕ → List Event → Type 0
Ordered t [] = Unit
Ordered t (e ∷ es) = (t ≤ e.1) × Ordered e.1 es

abbrev pub Before : ℕ → List Event → Type 0
Before t [] = Unit
Before t (e ∷ es) = (e.1 ≤ t) × Before t es

-- The event lies in the window that ends at `t`.
abbrev pub in_window : LimitSpec → Str → ℕ → Event → Bool
in_window spec k t e = str_eq k e.0 && (leb e.1 t && recent spec t e.1)

unfoldable pub served : LimitSpec → Str → ℕ → List Event → ℕ
served spec k t h = count_where (in_window spec k t) h

abbrev pub IsBounded : LimitSpec → List Event → Type 0
IsBounded spec h = (k : Str) (t : ℕ) → served spec k t h ≤ spec.capacity

Before-mono : (s t : ℕ) (h : List Event) → s ≤ t → Before s h → Before t h
Before-mono s t [] le b = tt
Before-mono s t (e ∷ h) le b = (omega arith, Before-mono s t h le b.1)

-- Seen from a later time, a window holds no more than the window of the newest request.
served-le-load :
    (spec : LimitSpec) (k : Str) (now t : ℕ) (h : List Event)
    → now ≤ t
    → served spec k t h ≤ load spec k now h
unfolding served load count_where
served-le-load spec k now t [] le = omega arith
served-le-load spec k now t (e ∷ h) le = ground (arith, served-le-load spec k now t h le)

step-IsBounded :
    (spec : LimitSpec) (h : List Event) (e : Event)
    → Before e.1 h
    → IsBounded spec h
    → IsBounded spec (record_event (admits spec h e) e h)
unfolding served admits count_where
step-IsBounded spec h (j, now) b fits k t =
    ground (arith, fits k t, served-le-load spec k now t h, str_eq_sound k j)

step-Before :
    (d : Bool) (h : List Event) (e : Event) → Before e.1 h → Before e.1 (record_event d e h)
step-Before true h e b = (omega arith, b)
step-Before false h e b = b

pub history-IsBounded :
    (spec : LimitSpec) (t : ℕ) (h : List Event) (es : List Event)
    → Before t h
    → Ordered t es
    → IsBounded spec h
    → IsBounded spec (history spec h es)
unfolding history
history-IsBounded spec t h [] b o fits = fits
history-IsBounded spec t h (e ∷ es) b o fits =
    let b' = Before-mono t e.1 h o.0 b in
    history-IsBounded spec e.1 (record_event (admits spec h e) e h) es
      (step-Before (admits spec h e) h e b') o.1 (step-IsBounded spec h e b' fits)
