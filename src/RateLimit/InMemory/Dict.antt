-- ===== src/RateLimit/InMemory/Dict.antt =====
-- The dict `_timestamps`, in insertion order.
use crypto_intelligence_plat.Base.{
  Bool, List, Str, [], arith, false, if◌then◌else◌, refl, select, str_eq, str_eq_refl, str_eq_sound,
  true, ℕ, ◌||◌, ◌∙◌, ◌∷◌, ◌≡◌,
}

abbrev pub Timestamps : Type 0
Timestamps = List (Str × List ℕ)

-- `d.get(key, [])`
unfoldable pub get : Timestamps → Str → List ℕ
get [] k = []
get ((j, ts) ∷ d) k = let rest = get d k in if str_eq j k then ts else rest

-- `d[key] = entries`
unfoldable pub set_item : Timestamps → Str → List ℕ → Timestamps
set_item [] k ts = (k, ts) ∷ []
set_item ((j, us) ∷ d) k ts =
    let rest = set_item d k ts in if str_eq j k then (j, ts) ∷ d else (j, us) ∷ rest

-- `_evict`: every list loses its old times, and a key with none left is deleted.
unfoldable pub keep_if_any : Str × List ℕ → Timestamps → Timestamps
keep_if_any (j, []) d = d
keep_if_any (j, t ∷ ts) d = (j, t ∷ ts) ∷ d

unfoldable pub evict : (ℕ → Bool) → Timestamps → Timestamps
unfolding keep_if_any
evict p [] = []
evict p ((j, ts) ∷ d) = keep_if_any (j, select p ts) (evict p d)

-- Whether a key is present.
unfoldable pub contains : Timestamps → Str → Bool
contains [] k = false
contains ((j, ts) ∷ d) k = let rest = contains d k in if str_eq j k then true else rest

abbrev pub Distinct : Timestamps → Type 0
Distinct [] = Unit
Distinct ((j, ts) ∷ d) = (contains d j ≡ false) × Distinct d

pub get-set_item :
    (d : Timestamps) (k j : Str) (ts : List ℕ)
    → get (set_item d k ts) j ≡ (if str_eq k j then ts else get d j)
unfolding get set_item
get-set_item [] k j ts = refl
get-set_item ((i, us) ∷ d) k j ts = ground (
  arith,
  get-set_item d k j ts,
  str_eq_sound i k,
  str_eq_sound i j,
  str_eq_sound k j,
  str_eq_refl k,
  str_eq_refl j,
)

contains-set_item :
    (d : Timestamps) (k j : Str) (ts : List ℕ)
    → contains (set_item d k ts) j ≡ (str_eq k j || contains d j)
unfolding contains set_item
contains-set_item [] k j ts = ground arith
contains-set_item ((i, us) ∷ d) k j ts =
    ground (arith, contains-set_item d k j ts, str_eq_sound i k, str_eq_refl k)

pub set_item-Distinct :
    (d : Timestamps) (k : Str) (ts : List ℕ) → Distinct d → Distinct (set_item d k ts)
unfolding set_item contains
set_item-Distinct [] k ts h = (refl, tt)
set_item-Distinct ((i, us) ∷ d) k ts h = ground (
  arith,
  set_item-Distinct d k ts h.1,
  contains-set_item d k i ts,
  str_eq_sound k i,
  str_eq_refl i,
)

contains-evict :
    (p : ℕ → Bool) (d : Timestamps) (k : Str)
    → contains d k ≡ false
    → contains (evict p d) k ≡ false
unfolding contains evict keep_if_any
contains-evict p [] k h = refl
contains-evict p ((i, us) ∷ d) k h =
    elim (select p us) as (λ v. contains (keep_if_any (i, v) (evict p d)) k ≡ false) [
      | [] ↦ ground (arith, contains-evict p d k)
      | t ∷ ts ↦ ground (arith, contains-evict p d k)
    ]

get-of_absent : (d : Timestamps) (k : Str) → contains d k ≡ false → get d k ≡ []
unfolding contains get
get-of_absent [] k h = refl
get-of_absent ((i, us) ∷ d) k h = ground (arith, get-of_absent d k)

keep_if_any-Distinct :
    (e : Str × List ℕ) (d : Timestamps)
    → contains d e.0 ≡ false
    → Distinct d
    → Distinct (keep_if_any e d)
unfolding keep_if_any
keep_if_any-Distinct (i, []) d a h = h
keep_if_any-Distinct (i, t ∷ ts) d a h = (a, h)

pub evict-Distinct : (p : ℕ → Bool) (d : Timestamps) → Distinct d → Distinct (evict p d)
unfolding evict
evict-Distinct p [] h = tt
evict-Distinct p ((i, us) ∷ d) h =
    keep_if_any-Distinct (i, select p us) (evict p d) (contains-evict p d i h.0)
      (evict-Distinct p d h.1)

get-keep_if_any :
    (i k : Str) (ts : List ℕ) (d : Timestamps)
    → contains d i ≡ false
    → get (keep_if_any (i, ts) d) k ≡ (if str_eq i k then ts else get d k)
unfolding keep_if_any get
get-keep_if_any i k [] d a = ground (arith, str_eq_sound i k, get-of_absent d k)
get-keep_if_any i k (t ∷ ts) d a = refl

-- A sweep leaves to every key exactly the times that pass the test.
pub get-evict :
    (p : ℕ → Bool) (d : Timestamps) (k : Str) → Distinct d → get (evict p d) k ≡ select p (get d k)
unfolding evict get
get-evict p [] k h = unfold select in refl
get-evict p ((i, us) ∷ d) k h =
    get-keep_if_any i k (select p us) (evict p d) (contains-evict p d i h.0)
    ∙ ground (arith, get-evict p d k h.1)
