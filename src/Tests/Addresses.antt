-- ===== src/Tests/Addresses.antt =====
-- Addresses.
use crypto_intelligence_plat.Addresses.{at_end, is_evm_address, to_eip55}
use crypto_intelligence_plat.Addresses.Checksum.{to_eip55-normal}
use crypto_intelligence_plat.Addresses.Newline.{newline-is_distinct}
use crypto_intelligence_plat.Base.{Str, [], codes, lower, map, refl, true, ◌++◌, ◌∷◌, ◌≡◌, ◌≢◌}
use crypto_intelligence_plat.Exec.{ok}
use crypto_intelligence_plat.Tests.Data.{toy_address, toy_nibble}

toy_address-valid : is_evm_address toy_address ≡ true
unfolding is_evm_address at_end
toy_address-valid = refl

abbrev capital_address : Str
capital_address = codes "0x52908400098527886E0F7030069857D2E4169EE7"

capital_address-valid : is_evm_address capital_address ≡ true
unfolding is_evm_address at_end
capital_address-valid = refl

to_eip55-normal_example :
    (a : Str) × (to_eip55 toy_nibble toy_address ≡ ok a)
    × (is_evm_address a ≡ true)
    × (map lower a ≡ map lower toy_address)
    × (to_eip55 toy_nibble a ≡ ok a)
to_eip55-normal_example = to_eip55-normal toy_nibble toy_address toy_address-valid

newline-is_distinct_example :
    (is_evm_address (toy_address ++ 10 ∷ []) ≡ true)
    × (to_eip55 toy_nibble (toy_address ++ 10 ∷ []) ≢ to_eip55 toy_nibble toy_address)
newline-is_distinct_example = newline-is_distinct toy_nibble toy_address toy_address-valid refl
