-- ===== src/Addresses.antt =====
-- apps/api/app/utils/addresses.py. Keccak is a package: `nibble s i` stands for
-- `int(keccak(s).hex()[i], 16)`, which exists for i < 64.
pub mod Checksum
pub mod Newline
use crypto_intelligence_plat.Base.{
  Bool, Str, [], false, if◌then◌else◌, leb, lower, map, not, one_of, str_eq, suc, true, upper, zero,
  ℕ, ◌&&◌, ◌+◌, ◌==◌, ◌||◌, ◌∷◌,
}
use crypto_intelligence_plat.Errors.{validation_error}
use crypto_intelligence_plat.Exec.{Result, err, ok}
use crypto_intelligence_plat.Shared.{AddressType, NormalizedAddress, chain_values}

abbrev pub is_hex : ℕ → Bool
is_hex c = leb 48 c && leb c 57 || (leb 97 c && leb c 102 || leb 65 c && leb c 70)

abbrev pub is_digit : ℕ → Bool
is_digit c = leb 48 c && leb c 57

-- `$` matches at the end, and before a newline that ends the text.
unfoldable pub at_end : Str → Bool
at_end [] = true
at_end (c ∷ []) = c == 10
at_end _ = false

-- `[0-9a-fA-F]{n}$`
unfoldable pub hex_then_end : ℕ → Str → Bool
unfolding at_end
hex_then_end zero s = at_end s
hex_then_end (suc n) [] = false
hex_then_end (suc n) (c ∷ s) = is_hex c && hex_then_end n s

-- `bool(address and re.match(r"^0x[0-9a-fA-F]{40}$", address))`
unfoldable pub is_evm_address : Str → Bool
unfolding hex_then_end
is_evm_address (z ∷ x ∷ s) = (z == b'0') && ((x == b'x') && hex_then_end 40 s)
is_evm_address _ = false

-- `removeprefix("0x")`
unfoldable pub remove_prefix : Str → Str
remove_prefix (z ∷ x ∷ s) = if (z == b'0') && (x == b'x') then s else z ∷ x ∷ s
remove_prefix s = s

module _ (nibble : Str → ℕ → ℕ) where
  -- One character of the result: a digit stays, a letter is raised if the hash says so.
  abbrev pub raised : Str → ℕ → ℕ → ℕ
  raised s i c = if is_digit c then c else if leb 8 (nibble s i) then upper c else c

  unfoldable pub checksum : Str → ℕ → Str → Str
  checksum s i [] = []
  checksum s i (c ∷ cs) = raised s i c ∷ checksum s (i + 1) cs

  unfoldable pub to_eip55 : Str → Result Str
  to_eip55 address =
      let addr_lower = remove_prefix (map lower address) in
      if is_evm_address address
      then ok (b'0' ∷ b'x' ∷ checksum addr_lower 0 addr_lower)
      else err (validation_error "invalid evm address")

  abbrev pub normalized_address : Str → Result Str → Result NormalizedAddress
  normalized_address chain (ok a) =
      ok (record { chain = chain; address = a; address_type = AddressType.evm; display = a })
  normalized_address chain (err e) = err e

  unfoldable pub validate_address : Str → Str → Result NormalizedAddress
  validate_address chain address =
      if str_eq address []
      then err (validation_error "empty address")
      else if not (one_of chain chain_values)
      then err (validation_error "unsupported chain")
      else if not (is_evm_address address)
      then err (validation_error "address must be a 0x-prefixed 40-hex EVM address")
      else normalized_address chain (to_eip55 address)
