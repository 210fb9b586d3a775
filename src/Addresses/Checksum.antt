-- ===== src/Addresses/Checksum.antt =====
-- What normalising an address does: the result is an address again, spells the same account, and
-- does not depend on how the input was capitalised.
use mathlib.Core.Path.{ap₂}
use crypto_intelligence_plat.Addresses.{
  at_end, checksum, hex_then_end, is_evm_address, is_hex, raised, remove_prefix, to_eip55,
}
use crypto_intelligence_plat.Base.{
  ==_iff, Str, [], and_true, ap, arith, lower, map, refl, suc, true, upper, zero, ℕ, ◌&&◌, ◌+◌,
  ◌==◌, ◌∙◌, ◌∷◌, ◌≡◌,
}
use crypto_intelligence_plat.Exec.{ok}

hex_lower : (c : ℕ) → is_hex c ≡ true → is_hex (lower c) ≡ true
unfolding lower
hex_lower c h = ground arith

hex_raised :
    (nibble : Str → ℕ → ℕ) (s : Str) (i c : ℕ)
    → is_hex c ≡ true
    → is_hex (raised nibble s i c) ≡ true
unfolding upper
hex_raised nibble s i c h = ground arith

at_end-lower : (s : Str) → at_end s ≡ true → at_end (map lower s) ≡ true
unfolding at_end lower
at_end-lower [] h = refl
at_end-lower (c ∷ []) h = ground arith
at_end-lower (c ∷ d ∷ s) h = cc

hex_then_end-lower :
    (n : ℕ) (s : Str) → hex_then_end n s ≡ true → hex_then_end n (map lower s) ≡ true
unfolding hex_then_end
hex_then_end-lower zero s h = at_end-lower s h
hex_then_end-lower (suc n) [] h = cc
hex_then_end-lower (suc n) (c ∷ s) h = ground (arith, hex_lower c, hex_then_end-lower n s)

at_end-checksum :
    (nibble : Str → ℕ → ℕ) (s : Str) (i : ℕ) (t : Str)
    → at_end t ≡ true
    → at_end (checksum nibble s i t) ≡ true
unfolding at_end checksum upper
at_end-checksum nibble s i [] h = refl
at_end-checksum nibble s i (c ∷ []) h = ground arith
at_end-checksum nibble s i (c ∷ d ∷ t) h = cc

hex_then_end-checksum :
    (nibble : Str → ℕ → ℕ) (s : Str) (n i : ℕ) (t : Str)
    → hex_then_end n t ≡ true
    → hex_then_end n (checksum nibble s i t) ≡ true
unfolding hex_then_end checksum
hex_then_end-checksum nibble s zero i t h = at_end-checksum nibble s i t h
hex_then_end-checksum nibble s (suc n) i [] h = cc
hex_then_end-checksum nibble s (suc n) i (c ∷ t) h =
    ground (arith, hex_raised nibble s i c, hex_then_end-checksum nibble s n (i + 1) t)

lower-raised :
    (nibble : Str → ℕ → ℕ) (s : Str) (i c : ℕ) → lower (raised nibble s i (lower c)) ≡ lower c
unfolding lower upper
lower-raised nibble s i c = ground arith

lower-checksum :
    (nibble : Str → ℕ → ℕ) (s : Str) (i : ℕ) (t : Str)
    → map lower (checksum nibble s i (map lower t)) ≡ map lower t
unfolding checksum
lower-checksum nibble s i [] = refl
lower-checksum nibble s i (c ∷ t) =
    ap₂ ◌∷◌ (lower-raised nibble s i c) (lower-checksum nibble s (i + 1) t)

module _ (nibble : Str → ℕ → ℕ) where
  -- The shape of an address: `0x` and the rest.
  pub shape :
      (address : Str)
      → is_evm_address address ≡ true
      → (s : Str) × (address ≡ b'0' ∷ b'x' ∷ s) × (hex_then_end 40 s ≡ true)
  unfolding is_evm_address
  shape [] h = cc
  shape (z ∷ []) h = cc
  shape (z ∷ x ∷ s) h =
      let (hz, r) = and_true (z == b'0') ((x == b'x') && hex_then_end 40 s) h in
      let (hx, hs) = and_true (x == b'x') (hex_then_end 40 s) r in
      (s, rw ((==_iff z b'0').0 hz, (==_iff x b'x').0 hx), hs)

  -- What `to_eip55` gives on `0x` and forty hex digits.
  pub to_eip55_on :
      (s : Str)
      → hex_then_end 40 s ≡ true
      → to_eip55 nibble (b'0' ∷ b'x' ∷ s)
        ≡ ok (b'0' ∷ b'x' ∷ checksum nibble (map lower s) 0 (map lower s))
  unfolding to_eip55 is_evm_address remove_prefix lower
  to_eip55_on s h = rw h

  -- A valid address has a checksum form, which is a valid address of the same account, and which is
  -- its own checksum form.
  pub to_eip55-normal :
      (address : Str)
      → is_evm_address address ≡ true
      → (a : Str) × (to_eip55 nibble address ≡ ok a)
        × (is_evm_address a ≡ true)
        × (map lower a ≡ map lower address)
        × (to_eip55 nibble a ≡ ok a)
  to_eip55-normal address h =
      let (s, e, hex) = shape address h in
      let low = map lower s in
      let sum = checksum nibble low 0 low in
      let hex' = hex_then_end-checksum nibble low 40 0 low (hex_then_end-lower 40 s hex) in
      let same = lower-checksum nibble low 0 s in
      (
        b'0' ∷ b'x' ∷ sum,
        rw e (to_eip55_on s hex),
        unfold is_evm_address in hex',
        rw e (ap (λ (t : Str). lower b'0' ∷ lower b'x' ∷ t) same),
        to_eip55_on sum hex' ∙ rw same,
      )

  -- Two spellings that differ only in case have the same checksum form.
  pub to_eip55_case :
      (a b : Str)
      → is_evm_address a ≡ true
      → is_evm_address b ≡ true
      → map lower a ≡ map lower b
      → to_eip55 nibble a ≡ to_eip55 nibble b
  unfolding to_eip55
  to_eip55_case a b ha hb e = rw (ha, hb, e)
