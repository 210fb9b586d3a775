-- ===== src/Wallets/Ownership.antt =====
-- Ownership: a request sees and changes the wallets of its own user only.
use crypto_intelligence_plat.Base.{
  ==_iff, Bool, Bool-cases, List, [], arith, delete_where, inl, inr, not, refl, select,
  select-deleted, update_where, ℕ, ◌==◌, ◌∷◌, ◌≡◌, ◌≢◌, ◌⊎◌,
}
use crypto_intelligence_plat.Errors.{Exn, multiple_results, not_found_error}
use crypto_intelligence_plat.Exec.{err, ok}
use crypto_intelligence_plat.Models.{Db, Wallet}
use crypto_intelligence_plat.Wallets.{get_owned_wallet, owned_of}

abbrev pub has_id : ℕ → Wallet → Bool
has_id wid w = w.id == wid

abbrev pub is_foreign : ℕ → Wallet → Bool
is_foreign uid w = not (w.user_id == uid)

-- What is known when the wallet was found.
pub record IsOwned (uid wid : ℕ) (s : Db) (w : Wallet) : Type 0 where
  pub owner : w.user_id ≡ uid
  pub identity : w.id ≡ wid
  pub only : select (has_id wid) s.wallets ≡ w ∷ []

head_has_id :
    (wid : ℕ) (ws : List Wallet) (w : Wallet) (rest : List Wallet)
    → select (has_id wid) ws ≡ w ∷ rest
    → w.id ≡ wid
unfolding select
head_has_id wid [] w rest h = absurd (ground arith)
head_has_id wid (v ∷ ws) w rest h = ground (arith, head_has_id wid ws w rest)

owned_of-outcome :
    (uid wid : ℕ) (s : Db) (rows : List Wallet)
    → select (has_id wid) s.wallets ≡ rows
    → ((w : Wallet) × (owned_of uid rows s ≡ (ok w, s)) × IsOwned uid wid s w)
      ⊎ ((e : Exn) × (owned_of uid rows s ≡ (err e, s)))
unfolding owned_of
owned_of-outcome uid wid s [] q = inr (not_found_error "wallet", refl)
owned_of-outcome uid wid s (x ∷ []) q = elim (Bool-cases (x.user_id == uid)) [
  | inl mine ↦ inl (
    x,
    rw mine,
    record {
      owner = (==_iff x.user_id uid).0 mine;
      identity = head_has_id wid s.wallets x [] q;
      only = q;
    },
  )
  | inr other ↦ inr (not_found_error "wallet", rw other)
]
owned_of-outcome uid wid s (x ∷ y ∷ rest) q = inr (multiple_results, refl)

-- The wallet is found and is the user's own, the only one of its id, or an error is raised; the
-- database is only read.
pub get_owned_wallet-outcome :
    (uid wid : ℕ) (s : Db)
    → ((w : Wallet) × (get_owned_wallet uid wid s ≡ (ok w, s)) × IsOwned uid wid s w)
      ⊎ ((e : Exn) × (get_owned_wallet uid wid s ≡ (err e, s)))
unfolding get_owned_wallet
get_owned_wallet-outcome uid wid s = owned_of-outcome uid wid s (select (has_id wid) s.wallets) refl

-- A wallet of somebody else cannot be told from one that does not exist: the answer is the one that
-- a database without it gives.
pub foreign-looks_missing :
    (uid wid : ℕ) (w : Wallet) (s : Db)
    → select (λ (v : Wallet). v.id == wid) s.wallets ≡ w ∷ []
    → w.user_id ≢ uid
    → (get_owned_wallet uid wid s).0
      ≡ (get_owned_wallet uid wid
          (record s { wallets = delete_where (λ (v : Wallet). v.id == wid) s.wallets })).0
unfolding get_owned_wallet owned_of
foreign-looks_missing uid wid w s only ne =
    rw (only, select-deleted (λ (v : Wallet). v.id == wid) s.wallets) (ground arith)

update_absent :
    (wid : ℕ) (w' : Wallet) (ws : List Wallet)
    → select (has_id wid) ws ≡ []
    → update_where (has_id wid) (λ _. w') ws ≡ ws
unfolding select update_where
update_absent wid w' [] h = refl
update_absent wid w' (v ∷ ws) h = ground (arith, update_absent wid w' ws)

delete_absent :
    (wid : ℕ) (ws : List Wallet) → select (has_id wid) ws ≡ [] → delete_where (has_id wid) ws ≡ ws
unfolding select delete_where
delete_absent wid [] h = refl
delete_absent wid (v ∷ ws) h = ground (arith, delete_absent wid ws)

module _ (uid wid : ℕ) (w : Wallet) (own : w.user_id ≡ uid) where
  pub update_keeps_foreign :
      (w' : Wallet) (ws : List Wallet)
      → w'.user_id ≡ uid
      → select (has_id wid) ws ≡ w ∷ []
      → select (is_foreign uid) (update_where (has_id wid) (λ _. w') ws)
        ≡ select (is_foreign uid) ws
  unfolding select update_where
  update_keeps_foreign w' [] own' h = refl
  update_keeps_foreign w' (v ∷ ws) own' h =
      ground (arith, update_keeps_foreign w' ws own', update_absent wid w' ws)

  pub delete_keeps_foreign :
      (ws : List Wallet)
      → select (has_id wid) ws ≡ w ∷ []
      → select (is_foreign uid) (delete_where (has_id wid) ws) ≡ select (is_foreign uid) ws
  unfolding select delete_where
  delete_keeps_foreign [] h = refl
  delete_keeps_foreign (v ∷ ws) h = ground (arith, delete_keeps_foreign ws, delete_absent wid ws)
