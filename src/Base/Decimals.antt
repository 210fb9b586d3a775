-- ===== src/Base/Decimals.antt =====
-- Python's `Decimal` under its default context: results are rounded to 28 digits, half to even. Of a
-- value only what it is worth matters here, not how many zeros it is written with.
use Prim.Native.Nat.{ℕ, zero, suc, ◌+◌, ◌-◌, ◌*◌, ◌/◌, ◌%◌, ◌^◌, ◌<◌, max}
use mathlib.Core.Path.{◌≡◌, ap}
use mathlib.Core.Bool.{true, false}
use native.Mathlib.Omega.{arith}
use native.Mathlib.Nat.{pow-suc}
use crypto_intelligence_plat.Base.Tests.{ltb, if◌then◌else◌}
use crypto_intelligence_plat.Base.Int.{ℤ, pos, negsuc, sub_ℕ, ◌+ℤ◌, ◌-ℤ◌}

-- `coef` times 10^-`places`
pub record Decimal : Type 0 where
  pub coef : ℤ
  pub places : ℕ

abbrev pub no_amount : Decimal
no_amount = record { coef = pos 0; places = 0 }

-- How many of the last digits of `n` are beyond 28, from `k` on.
unfoldable pub digits_over : ℕ → ℕ → ℕ → ℕ
digits_over zero k n = k
digits_over (suc fuel) k n = elim (ltb n (10 ^ (28 + k))) [
  | true ↦ k
  | false ↦ digits_over fuel (suc k) n
]

-- `n` in units of `unit`, to the nearest, half to even.
unfoldable pub rounded_to : ℕ → ℕ → ℕ
rounded_to unit n =
    let q = n / unit in
    let r = n % unit in
    if ltb (2 * r) unit then q else if ltb unit (2 * r) then q + 1 else q + q % 2

unfoldable pub round_ℕ : ℕ → ℕ
unfolding digits_over rounded_to
round_ℕ n = let unit = 10 ^ digits_over n 0 n in rounded_to unit n * unit

unfoldable pub round_ℤ : ℤ → ℤ
unfolding round_ℕ
round_ℤ (pos n) = pos (round_ℕ n)
round_ℤ (negsuc n) = sub_ℕ 0 (round_ℕ (suc n))

abbrev pub times_ℕ : ℤ → ℕ → ℤ
times_ℕ (pos n) k = pos (n * k)
times_ℕ (negsuc n) k = sub_ℕ 0 (suc n * k)

-- The coefficient with that many places, which are no fewer than the value has.
abbrev pub coef_at : ℕ → Decimal → ℤ
coef_at places a = times_ℕ a.coef (10 ^ (places - a.places))

unfoldable pub decimal_add : Decimal → Decimal → Decimal
unfolding round_ℤ
decimal_add a b =
    let p = max a.places b.places in
    record { coef = round_ℤ (coef_at p a +ℤ coef_at p b); places = p }

unfoldable pub decimal_sub : Decimal → Decimal → Decimal
unfolding round_ℤ
decimal_sub a b =
    let p = max a.places b.places in
    record { coef = round_ℤ (coef_at p a -ℤ coef_at p b); places = p }

below_power : (n : ℕ) → n < 10 ^ (28 + n)
below_power zero = omega arith
below_power (suc n) =
    let outside : 28 + suc n ≡ suc (28 + n) = omega arith in
    omega (arith, below_power n, ap (λ k. 10 ^ k) outside, pow-suc 10 (28 + n))

digits_over-fits_from : (fuel k n : ℕ) → fuel + k ≡ n → n < 10 ^ (28 + digits_over fuel k n)
unfolding digits_over
digits_over-fits_from zero k n e = ground (arith, below_power n)
digits_over-fits_from (suc fuel) k n e = ground (arith, digits_over-fits_from fuel (suc k) n)

-- The fuel is enough: what is left has at most 28 digits.
digits_over-fits : (n : ℕ) → n < 10 ^ (28 + digits_over n 0 n)
digits_over-fits n = digits_over-fits_from n 0 n (omega arith)
