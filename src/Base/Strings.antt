-- ===== src/Base/Strings.antt =====
-- Python's string methods that the program uses: strip, split on a character, startswith, join.
use Prim.Native.Nat.{ℕ}
use mathlib.Core.Path.{◌≡◌, refl}
use mathlib.Core.Logic.{◌≢◌}
use mathlib.Core.Bool.{Bool, true, false, ◌&&◌, ◌||◌}
use mathlib.Core.List.{List, [], ◌∷◌, ◌++◌}
use native.Mathlib.Omega.{arith}
use crypto_intelligence_plat.Base.Tests.{leb, ◌==◌, if◌then◌else◌}
use crypto_intelligence_plat.Base.Lists.{any}
use crypto_intelligence_plat.Base.Text.{Str}

abbrev pub is_empty {ℓ} : {A : Type ℓ} → List A → Bool
is_empty [] = true
is_empty (_ ∷ _) = false

-- `str.isspace` of one code point
abbrev pub is_space : ℕ → Bool
is_space c =
    (leb 9 c && leb c 13)
    || (leb 28 c && leb c 32)
    || (c == 133)
    || (c == 160)
    || (c == 5760)
    || (leb 8192 c && leb c 8202)
    || (c == 8232)
    || (c == 8233)
    || (c == 8239)
    || (c == 8287)
    || (c == 12288)

abbrev pub lstrip : Str → Str
lstrip [] = []
lstrip (c ∷ s) = let rest = lstrip s in if is_space c then rest else c ∷ s

abbrev pub rstrip : Str → Str
rstrip [] = []
rstrip (c ∷ s) = let rest = rstrip s in if is_space c && is_empty rest then [] else c ∷ rest

unfoldable pub strip : Str → Str
strip s = rstrip (lstrip s)

-- Puts a character in front of the first part.
abbrev pub put_first : ℕ → List Str → List Str
put_first c [] = (c ∷ []) ∷ []
put_first c (p ∷ ps) = (c ∷ p) ∷ ps

-- `s.split(d)` for a separator of one character
unfoldable pub split_on : ℕ → Str → List Str
split_on d [] = [] ∷ []
split_on d (c ∷ s) = let rest = split_on d s in if c == d then [] ∷ rest else put_first c rest

unfoldable pub starts_with : Str → Str → Bool
starts_with [] s = true
starts_with (p ∷ ps) [] = false
starts_with (p ∷ ps) (c ∷ s) = (p == c) && starts_with ps s

-- `d in s`
abbrev pub has_char : ℕ → Str → Bool
has_char d s = any (λ c. c == d) s

-- A text without the separator is one part.
pub split_on-plain : (d : ℕ) (s : Str) → has_char d s ≡ false → split_on d s ≡ s ∷ []
unfolding split_on
split_on-plain d [] h = refl
split_on-plain d (c ∷ s) h = ground (arith, split_on-plain d s)

-- Two parts around one separator.
pub split_on-pair :
    (d : ℕ) (a b : Str)
    → has_char d a ≡ false
    → has_char d b ≡ false
    → split_on d (a ++ d ∷ b) ≡ a ∷ b ∷ []
unfolding split_on
split_on-pair d [] b ha hb = ground (arith, split_on-plain d b hb)
split_on-pair d (c ∷ a) b ha hb = ground (arith, split_on-pair d a b)

-- One step of the two lemmas below, on the parts of the rest.
module _ (d c : ℕ) (s : Str) where
  one_step :
      (a : Str) (rest : List Str)
      → ((p : Str) → rest ≡ p ∷ [] → s ≡ p)
      → rest ≢ []
      → (if c == d then [] ∷ rest else put_first c rest) ≡ a ∷ []
      → c ∷ s ≡ a
  one_step a [] one h e = absurd (h refl)
  one_step a (p ∷ []) one h e = ground (arith, one p refl)
  one_step a (p ∷ q ∷ qs) one h e = ground arith

  two_step :
      (a b : Str) (rest : List Str)
      → ((p : Str) → rest ≡ p ∷ [] → s ≡ p)
      → ((p q : Str) → rest ≡ p ∷ q ∷ [] → s ≡ p ++ d ∷ q)
      → (if c == d then [] ∷ rest else put_first c rest) ≡ a ∷ b ∷ []
      → c ∷ s ≡ a ++ d ∷ b
  two_step a b [] one two e = ground arith
  two_step a b (p ∷ []) one two e = ground (arith, one p refl)
  two_step a b (p ∷ q ∷ []) one two e = ground (arith, two p q refl)
  two_step a b (p ∷ q ∷ r ∷ rs) one two e = ground arith

put_first-nonempty : (c : ℕ) (ps : List Str) → put_first c ps ≢ []
put_first-nonempty c [] h = cc
put_first-nonempty c (p ∷ ps) h = cc

pub split_on-nonempty : (d : ℕ) (s : Str) → split_on d s ≢ []
unfolding split_on
split_on-nonempty d [] h = cc
split_on-nonempty d (c ∷ s) h = ground (arith, put_first-nonempty c (split_on d s))

-- What splits into one part is that part, and into two, the two around the separator.
pub split_on-one : (d : ℕ) (s a : Str) → split_on d s ≡ a ∷ [] → s ≡ a
unfolding split_on
split_on-one d [] a h = cc
split_on-one d (c ∷ s) a h =
    one_step d c s a (split_on d s) (split_on-one d s) (split_on-nonempty d s) h

pub split_on-two : (d : ℕ) (s a b : Str) → split_on d s ≡ a ∷ b ∷ [] → s ≡ a ++ d ∷ b
unfolding split_on
split_on-two d [] a b h = cc
split_on-two d (c ∷ s) a b h =
    two_step d c s a b (split_on d s) (split_on-one d s) (split_on-two d s) h
