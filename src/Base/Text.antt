-- ===== src/Base/Text.antt =====
-- Python's `str` as the list of its code points, with the operations that the program uses.
use Prim.Native.Nat.{ℕ, zero, suc, ◌+◌, ◌-◌, ◌/◌, ◌%◌, ◌^◌}
use Prim.Native.Char.{code}
use Prim.Native.String.{String}
use mathlib.Core.Path.{◌≡◌, refl}
use mathlib.Core.Bool.{Bool, true, false, ◌&&◌}
use mathlib.Core.List.{List, [], ◌∷◌, ◌++◌}
use native.Mathlib.Omega.{arith}
use crypto_intelligence_plat.Base.Tests.{leb, ◌==◌, if◌then◌else◌}

abbrev pub Str : Type 0
Str = List ℕ

-- The code points of a literal.
abbrev pub codes : String → Str
codes String.[] = []
codes (String.◌∷◌ c s) = code c ∷ codes s

unfoldable pub str_eq : Str → Str → Bool
str_eq [] [] = true
str_eq (a ∷ s) (b ∷ t) = (a == b) && str_eq s t
str_eq _ _ = false

pub str_eq_sound : (s t : Str) → str_eq s t ≡ true → s ≡ t
unfolding str_eq
str_eq_sound [] [] h = refl
str_eq_sound (a ∷ s) (b ∷ t) h = ground (arith, str_eq_sound s t)
str_eq_sound [] (b ∷ t) h = cc
str_eq_sound (a ∷ s) [] h = cc

pub str_eq_refl : (s : Str) → str_eq s s ≡ true
unfolding str_eq
str_eq_refl [] = refl
str_eq_refl (a ∷ s) = ground (arith, str_eq_refl s)

-- `x in (s, t, ...)`
abbrev pub one_of : Str → List Str → Bool
one_of s [] = false
one_of s (t ∷ ts) = if str_eq s t then true else one_of s ts

-- `str.lower` on ASCII; the program lowers only ASCII text that it has checked or compares.
unfoldable pub lower : ℕ → ℕ
lower c = if leb 65 c && leb c 90 then c + 32 else c

unfoldable pub upper : ℕ → ℕ
upper c = if leb 97 c && leb c 122 then c - 32 else c

-- `str(n)` of a natural number, on fuel: a number has no more decimal digits than its successor.
str_nat_from : ℕ → ℕ → Str → Str
str_nat_from zero n acc = acc
str_nat_from (suc f) n acc =
    let rest = str_nat_from f (n / 10) ((48 + n % 10) ∷ acc) in if n == 0 then acc else rest

unfoldable pub str_nat : ℕ → Str
unfolding str_nat_from
str_nat n = if n == 0 then 48 ∷ [] else str_nat_from (n + 1) n []

pub str_eq_comm : (s t : Str) → str_eq s t ≡ str_eq t s
unfolding str_eq
str_eq_comm [] [] = refl
str_eq_comm (a ∷ s) (b ∷ t) = ground (arith, str_eq_comm s t)
str_eq_comm [] (b ∷ t) = refl
str_eq_comm (a ∷ s) [] = refl

-- `hex(n)` on a fixed number of digits, the lowest ones.
unfoldable pub hex_pad : ℕ → ℕ → Str
hex_pad zero n = []
hex_pad (suc w) n =
    let d = n % 16 in hex_pad w (n / 16) ++ (if leb d 9 then 48 + d else 87 + d) ∷ []

-- `str(uuid)`, of the UUID with that number: 8-4-4-4-12 hex digits.
unfoldable pub str_uuid : ℕ → Str
unfolding hex_pad
str_uuid n =
    hex_pad 8 (n / 2 ^ 96)
    ++ (45 ∷ hex_pad 4 (n / 2 ^ 80)
        ++ (45 ∷ hex_pad 4 (n / 2 ^ 64) ++ (45 ∷ hex_pad 4 (n / 2 ^ 48) ++ 45 ∷ hex_pad 12 n)))
