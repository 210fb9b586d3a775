-- ===== src/Wallets/Creation.antt =====
-- Creating a wallet: one wallet for each user, chain and account.
use crypto_intelligence_plat.Addresses.{validate_address}
use crypto_intelligence_plat.Base.{
  Bool, Bool-cases, List, Option, Str, [], any, arith, false, if◌then◌else◌, inl, inr, refl, select,
  str_eq_comm, str_eq_refl, str_eq_sound, true, ℕ, ◌++◌, ◌+◌, ◌||◌, ◌∷◌, ◌≡◌, ◌⊎◌,
}
use crypto_intelligence_plat.Errors.{conflict_error}
use crypto_intelligence_plat.Exec.{err, ok}
use crypto_intelligence_plat.Models.{Db, Wallet}
use crypto_intelligence_plat.Models.Tables.{add_wallet, label_fits, same_wallet}
use crypto_intelligence_plat.Provider.{Provider}
use crypto_intelligence_plat.Shared.{NormalizedAddress, WalletBalance}
use crypto_intelligence_plat.Wallets.{create_wallet, is_duplicate, new_wallet, tolerate}

abbrev pub key_is : Wallet → Wallet → Bool
key_is v w = same_wallet v w

-- No two rows have the same user, chain and address.
abbrev pub UniqueWallets : List Wallet → Type 0
UniqueWallets [] = Unit
UniqueWallets (w ∷ ws) = (any (same_wallet w) ws ≡ false) × UniqueWallets ws

any-append :
    {A : Type 0} (p : A → Bool) (xs : List A) (y : A) → any p (xs ++ y ∷ []) ≡ (any p xs || p y)
any-append p [] y = ground arith
any-append p (x ∷ xs) y = ground (arith, any-append p xs y)

same_wallet_comm : (v w : Wallet) → same_wallet v w ≡ same_wallet w v
same_wallet_comm v w = ground (arith, str_eq_comm v.chain w.chain, str_eq_comm v.address w.address)

UniqueWallets-append :
    (ws : List Wallet) (w : Wallet)
    → any (same_wallet w) ws ≡ false
    → UniqueWallets ws
    → UniqueWallets (ws ++ w ∷ [])
UniqueWallets-append [] w h u = (refl, tt)
UniqueWallets-append (v ∷ ws) w h u =
    ground (arith, UniqueWallets-append ws w, any-append (same_wallet v) ws w, same_wallet_comm v w)

-- The query for a duplicate is the test of the unique constraint.
select-duplicate :
    (uid : ℕ) (chain address : Str) (w : Wallet) (ws : List Wallet)
    → w.user_id ≡ uid
    → w.chain ≡ chain
    → w.address ≡ address
    → select (is_duplicate uid chain address) ws ≡ []
    → any (same_wallet w) ws ≡ false
unfolding select
select-duplicate uid chain address w [] eu ec ea h = refl
select-duplicate uid chain address w (v ∷ ws) eu ec ea h = ground (
  arith,
  select-duplicate uid chain address w ws eu ec ea,
  str_eq_comm v.chain w.chain,
  str_eq_comm v.address w.address,
)

-- The table keeps its unique keys.
pub add_wallet-UniqueWallets :
    (make : ℕ → Wallet) (s : Db)
    → UniqueWallets s.wallets
    → UniqueWallets (add_wallet make s).1.wallets
unfolding add_wallet
add_wallet-UniqueWallets make s u = ground (arith, UniqueWallets-append s.wallets (make s.next_id))

module _ (uid : ℕ) (chain address : Str) where
  no_other :
      (v : Wallet) (ws : List Wallet)
      → is_duplicate uid chain address v ≡ true
      → any (same_wallet v) ws ≡ false
      → select (is_duplicate uid chain address) ws ≡ []
  unfolding select
  no_other v [] d h = refl
  no_other v (x ∷ ws) d h = ground (
    arith,
    no_other v ws d,
    str_eq_sound v.chain chain,
    str_eq_sound v.address address,
    str_eq_sound x.chain chain,
    str_eq_sound x.address address,
    str_eq_refl chain,
    str_eq_refl address,
  )

  -- With unique keys the query finds no row or one.
  duplicates :
      (ws : List Wallet)
      → UniqueWallets ws
      → (select (is_duplicate uid chain address) ws ≡ [])
          × (any (is_duplicate uid chain address) ws ≡ false)
        ⊎ ((w : Wallet) × (select (is_duplicate uid chain address) ws ≡ w ∷ [])
            × (any (is_duplicate uid chain address) ws ≡ true))
  unfolding select
  duplicates [] u = inl (refl, refl)
  duplicates (v ∷ ws) u = elim (Bool-cases (is_duplicate uid chain address v)) [
    | inl d ↦ inr (v, rw (d, no_other v ws d u.0), rw d)
    | inr n ↦ rw n (duplicates ws u.1)
  ]

-- Creating a wallet with a valid address, a label that fits and a provider that answers or fails as
-- providers do, in a table with unique keys: a duplicate is refused as a conflict and changes
-- nothing; otherwise the one new row stands behind the others, with the normalised address.
pub create_wallet-outcome :
    (nibble : Str → ℕ → ℕ) (p : Provider) (uid : ℕ) (chain address : Str) (label : Option Str)
    (n : NormalizedAddress) (balance : Option WalletBalance) (s : Db)
    → validate_address nibble chain address ≡ ok n
    → tolerate (p.fetch_balance chain n.address) ≡ ok balance
    → label_fits label ≡ true
    → UniqueWallets s.wallets
    → create_wallet nibble p uid chain address label s ≡ (
        if any (is_duplicate uid chain n.address) s.wallets
        then (err (conflict_error "wallet already exists for this user and chain"), s)
        else (let w = new_wallet uid chain n.address label balance s.clock s.next_id in
            (ok w, record s { wallets = s.wallets ++ w ∷ []; next_id = s.next_id + 1 })))
unfolding create_wallet add_wallet
create_wallet-outcome nibble p uid chain address label n balance s valid answered fits u =
    elim (duplicates uid chain n.address s.wallets u) [
      | inl (none_found, free) ↦
          rw (valid, none_found, answered, free)
            (let w = new_wallet uid chain n.address label balance s.clock s.next_id in
              rw (select-duplicate uid chain n.address w s.wallets refl refl refl none_found, fits))
      | inr (w, found, taken) ↦ rw (valid, found, taken)
    ]
