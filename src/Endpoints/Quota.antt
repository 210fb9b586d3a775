-- ===== src/Endpoints/Quota.antt =====
-- How many wallets the endpoint of apps/api/app/api/v1/wallets.py lets a user have.
use crypto_intelligence_plat.Addresses.{validate_address}
use crypto_intelligence_plat.Base.{
  Bool, List, Option, Str, [], any, arith, count_where, count_where-append, false, if◌then◌else◌,
  inl, inr, leb_ℤ, not, pos, refl, select, suc, true, ℕ, ◌++◌, ◌+◌, ◌==◌, ◌||◌, ◌∷◌, ◌≡◌, ◌≢◌, ◌≤ℤ◌,
  ◌≤◌, ◌⊎◌,
}
use crypto_intelligence_plat.Config.{Settings}
use crypto_intelligence_plat.Endpoints.Wallets.{
  any_balance, insert_unless_found, insert_wallet, post_wallet,
}
use crypto_intelligence_plat.Errors.{conflict_error, integrity_error}
use crypto_intelligence_plat.Exec.{Exec, Result, err, lift, ok, raise_if, ◌>>=◌, ◌>>◌}
use crypto_intelligence_plat.Models.{Db, Wallet}
use crypto_intelligence_plat.Models.Tables.{add_wallet, label_fits, same_wallet}
use crypto_intelligence_plat.Provider.{Provider}
use crypto_intelligence_plat.Shared.{NormalizedAddress}
use crypto_intelligence_plat.Wallets.{is_duplicate, new_wallet}

-- What a request leaves: the database, or one more wallet of the user in it.
abbrev pub IsAddition : ℕ → Db → Db → Type 0
IsAddition uid s t =
    (t ≡ s) ⊎ ((w : Wallet) × (w.user_id ≡ uid) × (t.wallets ≡ s.wallets ++ w ∷ []))

added :
    (make : ℕ → Wallet) (uid : ℕ) (s : Db)
    → (make s.next_id).user_id ≡ uid
    → IsAddition uid s (add_wallet make s).1
unfolding add_wallet
added make uid s h =
    of_test
      (any (same_wallet (make s.next_id)) s.wallets || not (label_fits (make s.next_id).label))
  where
    of_test :
        (b : Bool)
        → IsAddition uid s (
            let p : Result Wallet × Db = if b then (err integrity_error, s) else (
              ok (make s.next_id),
              record s { wallets = s.wallets ++ make s.next_id ∷ []; next_id = s.next_id + 1 },
            ) in
            p.1)
    of_test true = inl refl
    of_test false = inr (make s.next_id, h, refl)

module _ (settings : Settings) (nibble : Str → ℕ → ℕ) (provider : Provider) where
  of_rows :
      (uid : ℕ) (chain address : Str) (label : Option Str) (rows : List Wallet) (s : Db)
      → IsAddition uid s
          (insert_unless_found settings nibble provider uid chain address label rows s).1
  unfolding insert_unless_found
  of_rows uid chain address label [] s =
      added
        (new_wallet uid chain address label (any_balance (provider.fetch_balance chain address))
          s.clock)
        uid s refl
  of_rows uid chain address label (x ∷ []) s = inl refl
  of_rows uid chain address label (x ∷ y ∷ ys) s = inl refl

  of_address :
      (uid : ℕ) (chain : Str) (label : Option Str) (r : Result NormalizedAddress) (s : Db)
      → IsAddition uid s ((lift r >>= insert_wallet settings nibble provider uid chain label) s).1
  unfolding insert_wallet
  of_address uid chain label (ok n) s =
      of_rows uid chain n.address label (select (is_duplicate uid chain n.address) s.wallets) s
  of_address uid chain label (err e) s = inl refl

  -- The count is below the quota where a wallet is added.
  abbrev pub wallets_of : ℕ → Db → ℕ
  wallets_of uid s = count_where (λ (w : Wallet). w.user_id == uid) s.wallets

  abbrev pub behind : Bool → Result NormalizedAddress → ℕ → Str → Option Str → Exec Db Wallet
  behind full r uid chain label = do
    raise_if full (conflict_error "wallet quota exceeded")
    normalized ← lift r
    insert_wallet settings nibble provider uid chain label normalized

  of_quota :
      (full : Bool) (r : Result NormalizedAddress) (uid : ℕ) (chain : Str) (label : Option Str)
      (s : Db)
      → ((behind full r uid chain label s).1 ≡ s)
        ⊎ ((full ≡ false) × IsAddition uid s (behind full r uid chain label s).1)
  of_quota true r uid chain label s = inl refl
  of_quota false r uid chain label s = inr (refl, of_address uid chain label r s)

  of_limiter :
      (limiter : Result (Unit {0})) (uid : ℕ) (chain address : Str) (label : Option Str) (s : Db)
      → ((post_wallet settings nibble provider limiter uid chain address label s).1 ≡ s)
        ⊎ ((leb_ℤ settings.max_wallets_per_user (pos (wallets_of uid s)) ≡ false)
            × IsAddition uid s
                (post_wallet settings nibble provider limiter uid chain address label s).1)
  unfolding post_wallet
  of_limiter (err e) uid chain address label s = inl refl
  of_limiter (ok u) uid chain address label s =
      of_quota (leb_ℤ settings.max_wallets_per_user (pos (wallets_of uid s)))
        (validate_address nibble chain address) uid chain label s

  count_own : (uid : ℕ) (s t : Db) → IsAddition uid s t → wallets_of uid t ≤ suc (wallets_of uid s)
  unfolding count_where
  count_own uid s t (inl e) = rw e (omega arith)
  count_own uid s t (inr (w, own, e)) =
      rw (e, count_where-append (λ (v : Wallet). v.user_id == uid) s.wallets (w ∷ []))
        (ground arith)

  count_other :
      (uid v : ℕ) (s t : Db) → v ≢ uid → IsAddition uid s t → wallets_of v t ≡ wallets_of v s
  unfolding count_where
  count_other uid v s t other (inl e) = rw e refl
  count_other uid v s t other (inr (w, own, e)) =
      rw (e, count_where-append (λ (x : Wallet). x.user_id == v) s.wallets (w ∷ [])) (ground arith)

  one_more :
      (n m : ℕ)
      → leb_ℤ settings.max_wallets_per_user (pos n) ≡ false
      → m ≤ suc n
      → pos m ≤ℤ settings.max_wallets_per_user
  one_more n m below le = ground arith

  -- Whatever the request and however it ends, a user within the quota stays within it, and nobody
  -- else has more or fewer wallets than before.
  pub post_wallet-keeps_quota :
      (limiter : Result (Unit {0})) (uid : ℕ) (chain address : Str) (label : Option Str) (s : Db)
      → pos (wallets_of uid s) ≤ℤ settings.max_wallets_per_user
      → (pos (
            wallets_of uid
              (post_wallet settings nibble provider limiter uid chain address label s).1)
          ≤ℤ settings.max_wallets_per_user)
        × ((v : ℕ)
            → v ≢ uid
            → wallets_of v
                (post_wallet settings nibble provider limiter uid chain address label s).1
              ≡ wallets_of v s)
  post_wallet-keeps_quota limiter uid chain address label s within =
      of_case (of_limiter limiter uid chain address label s)
    where
      of_case :
          {t : Db}
          → (t ≡ s)
            ⊎ ((leb_ℤ settings.max_wallets_per_user (pos (wallets_of uid s)) ≡ false)
                × IsAddition uid s t)
          → (pos (wallets_of uid t) ≤ℤ settings.max_wallets_per_user)
            × ((v : ℕ) → v ≢ uid → wallets_of v t ≡ wallets_of v s)
      of_case {t} (inl e) = rw e (within, λ v other. refl)
      of_case {t} (inr (below, more)) = (
        one_more (wallets_of uid s) (wallets_of uid t) below (count_own uid s t more),
        λ v other. count_other uid v s t other more,
      )
