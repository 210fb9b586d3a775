-- ===== src/Tests/Wallets.antt =====
-- The wallet service.
use crypto_intelligence_plat.Addresses.{
  at_end, checksum, is_evm_address, remove_prefix, to_eip55, validate_address,
}
use crypto_intelligence_plat.Base.{
  [], any, arith, codes, delete_where, drop, if◌then◌else◌, lower, none, refl, select, some, str_eq,
  ◌++◌, ◌+◌, ◌==◌, ◌∷◌, ◌≡◌,
}
use crypto_intelligence_plat.Errors.{conflict_error}
use crypto_intelligence_plat.Exec.{err, ok}
use crypto_intelligence_plat.Models.{Wallet}
use crypto_intelligence_plat.Shared.{AddressType, NormalizedAddress}
use crypto_intelligence_plat.Tests.Data.{
  toy_address, toy_balance, toy_db, toy_nibble, toy_provider, wallet_of,
}
use crypto_intelligence_plat.Wallets.{create_wallet, get_owned_wallet, is_duplicate, new_wallet}
use crypto_intelligence_plat.Wallets.Creation.{UniqueWallets, create_wallet-outcome}
use crypto_intelligence_plat.Wallets.Isolation.{
  foreign_wallets, perform, perform-keeps_foreign, snapshot,
}
use crypto_intelligence_plat.Wallets.Ownership.{foreign-looks_missing}

abbrev norm : NormalizedAddress
norm = record {
  chain = codes "base";
  address = b'0' ∷ b'x' ∷ checksum toy_nibble (drop 2 toy_address) 0 (drop 2 toy_address);
  address_type = AddressType.evm;
  display = b'0' ∷ b'x' ∷ checksum toy_nibble (drop 2 toy_address) 0 (drop 2 toy_address);
}

norm-valid : validate_address toy_nibble (codes "base") toy_address ≡ ok norm
unfolding validate_address to_eip55 is_evm_address at_end str_eq remove_prefix lower
norm-valid = refl

toy_wallets_unique : UniqueWallets toy_db.wallets
unfolding str_eq
toy_wallets_unique = (refl, (refl, tt))

create_wallet-outcome_example :
    create_wallet toy_nibble toy_provider 1 (codes "base") toy_address none toy_db ≡ (
      if any (is_duplicate 1 (codes "base") norm.address) toy_db.wallets
      then (err (conflict_error "wallet already exists for this user and chain"), toy_db)
      else (let w = new_wallet 1 (codes "base") norm.address none (some toy_balance) 1000 100 in
          (
            ok w,
            record toy_db { wallets = toy_db.wallets ++ w ∷ []; next_id = toy_db.next_id + 1 },
          )))
create_wallet-outcome_example =
    create_wallet-outcome toy_nibble toy_provider 1 (codes "base") toy_address none norm
      (some toy_balance) toy_db norm-valid refl refl toy_wallets_unique

only_eleven : select (λ (v : Wallet). v.id == 11) toy_db.wallets ≡ wallet_of 11 2 ∷ []
unfolding select
only_eleven = refl

foreign-looks_missing_example :
    (get_owned_wallet 1 11 toy_db).0
    ≡ (get_owned_wallet 1 11
        (record toy_db { wallets = delete_where (λ (v : Wallet). v.id == 11) toy_db.wallets })).0
foreign-looks_missing_example =
    foreign-looks_missing 1 11 (wallet_of 11 2) toy_db only_eleven (omega arith)

perform-keeps_foreign_example :
    foreign_wallets 1 (perform toy_provider 1 10 snapshot toy_db).1 ≡ foreign_wallets 1 toy_db
perform-keeps_foreign_example = perform-keeps_foreign toy_provider 1 10 snapshot toy_db
