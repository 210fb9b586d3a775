-- ===== src/Addresses/Newline.antt =====
-- The `$` of `_EVM_RE` lets a newline through at the end of an address.
use crypto_intelligence_plat.Addresses.{at_end, checksum, hex_then_end, is_evm_address, to_eip55}
use crypto_intelligence_plat.Addresses.Checksum.{shape, to_eip55_on}
use crypto_intelligence_plat.Base.{
  Str, [], ap, arith, length, length-append, lower, map, refl, suc, true, zero, ℕ, ◌++◌, ◌+◌, ◌∷◌,
  ◌≡◌, ◌≢◌,
}
use crypto_intelligence_plat.Exec.{Result, err, ok}

hex_then_end-newline :
    (n : ℕ) (s : Str)
    → hex_then_end n s ≡ true
    → length s ≡ n
    → hex_then_end n (s ++ 10 ∷ []) ≡ true
unfolding hex_then_end at_end
hex_then_end-newline zero [] h e = refl
hex_then_end-newline zero (c ∷ s) h e = absurd (omega arith)
hex_then_end-newline (suc n) [] h e = cc
hex_then_end-newline (suc n) (c ∷ s) h e = ground (arith, hex_then_end-newline n s)

length-checksum :
    (nibble : Str → ℕ → ℕ) (s : Str) (i : ℕ) (t : Str) → length (checksum nibble s i t) ≡ length t
unfolding checksum
length-checksum nibble s i [] = refl
length-checksum nibble s i (c ∷ t) = ap suc (length-checksum nibble s (i + 1) t)

length-map : (f : ℕ → ℕ) (s : Str) → length (map f s) ≡ length s
length-map f [] = refl
length-map f (c ∷ s) = ap suc (length-map f s)

abbrev result_length : Result Str → ℕ
result_length (ok s) = length s
result_length (err _) = 0

length-to_eip55 :
    (nibble : Str → ℕ → ℕ) (s : Str)
    → hex_then_end 40 s ≡ true
    → result_length (to_eip55 nibble (b'0' ∷ b'x' ∷ s)) ≡ length s + 2
length-to_eip55 nibble s h =
    rw (to_eip55_on nibble s h)
      (omega (arith, length-checksum nibble (map lower s) 0 (map lower s), length-map lower s))

-- An address with a newline behind it is accepted too, and its normalised form is another one, so
-- that the two are two wallets of one account.
pub newline-is_distinct :
    (nibble : Str → ℕ → ℕ) (address : Str)
    → is_evm_address address ≡ true
    → length address ≡ 42
    → (is_evm_address (address ++ 10 ∷ []) ≡ true)
      × (to_eip55 nibble (address ++ 10 ∷ []) ≢ to_eip55 nibble address)
newline-is_distinct nibble address h len =
    let (s, e, hex) = shape nibble address h in
    let at40 : length s ≡ 40 = omega (arith, ap length e) in
    let hex' = hex_then_end-newline 40 s hex at40 in
    (
      rw e (unfold is_evm_address in hex'),
      rw e (λ same. absurd (
          omega (
            arith,
            ap result_length same,
            length-to_eip55 nibble s hex,
            length-to_eip55 nibble (s ++ 10 ∷ []) hex',
            length-append s (10 ∷ []),
          ))),
    )
