-- ===== src/Wallets/Isolation.antt =====
-- No operation on a wallet touches the wallets of another user.
use mathlib.Core.Path.{subst}
use crypto_intelligence_plat.Base.{
  Bool, Bool-cases, List, Option, Str, ap, delete_where, inl, inr, refl, select, sym, update_where,
  ℕ, ◌∙◌, ◌≡◌,
}
use crypto_intelligence_plat.Exec.{
  Exec, Result, bind_err, bind_ok, err, ok, pure, state-return, ◌>>=◌, ◌>>◌,
}
use crypto_intelligence_plat.Models.{Db, Wallet}
use crypto_intelligence_plat.Models.Tables.{add_snapshot, label_fits, remove_wallet, save_wallet}
use crypto_intelligence_plat.Provider.{Provider}
use crypto_intelligence_plat.Shared.{Holding, WalletBalance}
use crypto_intelligence_plat.Wallets.{
  delete_wallet, get_owned_wallet, patched, record_snapshot, snapshot_failure, take_snapshot,
  update_wallet,
}
use crypto_intelligence_plat.Wallets.Ownership.{
  IsOwned, delete_keeps_foreign, get_owned_wallet-outcome, has_id, is_foreign, update_keeps_foreign,
}

-- The requests on one wallet.
pub data WalletOp : Type 0 where
  update : Option Str → Option Bool → WalletOp
  delete : WalletOp
  snapshot : WalletOp

abbrev pub ignore : {A : Type 0} → Exec Db A → Exec Db (Unit {0})
ignore m = m >>= λ _. pure tt

unfoldable pub perform : Provider → ℕ → ℕ → WalletOp → Exec Db (Unit {0})
perform p uid wid (update label is_active) = ignore (update_wallet uid wid label is_active)
perform p uid wid delete = delete_wallet uid wid
perform p uid wid snapshot = ignore (take_snapshot p uid wid)

abbrev pub foreign_wallets : ℕ → Db → List Wallet
foreign_wallets uid s = select (is_foreign uid) s.wallets

save_keeps_foreign :
    (uid wid : ℕ) (w w' : Wallet) (s : Db)
    → IsOwned uid wid s w
    → w'.user_id ≡ uid
    → w'.id ≡ wid
    → foreign_wallets uid (save_wallet w' s).1 ≡ foreign_wallets uid s
unfolding save_wallet
save_keeps_foreign uid wid w w' s o own' id' = elim (Bool-cases (label_fits w'.label)) [
  | inl fits ↦ rw fits (
      subst
        (λ (k : ℕ).
          select (is_foreign uid) (update_where (has_id k) (λ _. w') s.wallets)
          ≡ foreign_wallets uid s)
        (sym id') (update_keeps_foreign uid wid w o.owner w' s.wallets own' o.only))
  | inr long ↦ rw long
]

remove_keeps_foreign :
    (uid wid : ℕ) (w : Wallet) (s : Db)
    → IsOwned uid wid s w
    → foreign_wallets uid (remove_wallet w.id s).1 ≡ foreign_wallets uid s
unfolding remove_wallet
remove_keeps_foreign uid wid w s o =
    subst
      (λ (k : ℕ).
        select (is_foreign uid) (delete_where (has_id k) s.wallets) ≡ foreign_wallets uid s)
      (sym o.identity) (delete_keeps_foreign uid wid w o.owner s.wallets o.only)

record_keeps_foreign :
    (uid wid : ℕ) (w : Wallet) (rb : Result WalletBalance) (rh : Result (List Holding)) (s : Db)
    → IsOwned uid wid s w
    → foreign_wallets uid (record_snapshot w rb rh s).1 ≡ foreign_wallets uid s
unfolding record_snapshot add_snapshot
record_keeps_foreign uid wid w (err e) rh s o = refl
record_keeps_foreign uid wid w (ok b) (err e) s o = refl
record_keeps_foreign uid wid w (ok b) (ok hs) s o =
    ap (foreign_wallets uid) (state-return _ (save_wallet _) _)
    ∙ save_keeps_foreign uid wid w _ _
        (record { owner = o.owner; identity = o.identity; only = o.only }) o.owner o.identity

module _ (uid wid : ℕ) (s : Db) where
  abbrev Untouched : {A : Type 0} → Result A × Db → Type 0
  Untouched p = foreign_wallets uid p.1 ≡ foreign_wallets uid s

  -- An action on an owned wallet, reached through the ownership check.
  behind_check :
      {A : Type 0} (f : Wallet → Exec Db A)
      → ((w : Wallet) → IsOwned uid wid s w → Untouched (f w s))
      → Untouched ((get_owned_wallet uid wid >>= f) s)
  behind_check f keep = elim (get_owned_wallet-outcome uid wid s) [
    | inl (w, found, o) ↦
        ap (λ (p : Result _ × Db). foreign_wallets uid p.1)
          (bind_ok (get_owned_wallet uid wid) f found)
        ∙ keep w o
    | inr (e, missing) ↦
        ap (λ (p : Result _ × Db). foreign_wallets uid p.1)
          (bind_err (get_owned_wallet uid wid) f missing)
  ]

-- Whatever the operation and however it ends, the other users' wallets are what they were.
pub perform-keeps_foreign :
    (p : Provider) (uid wid : ℕ) (op : WalletOp) (s : Db)
    → foreign_wallets uid (perform p uid wid op s).1 ≡ foreign_wallets uid s
unfolding perform update_wallet delete_wallet take_snapshot
perform-keeps_foreign p uid wid (update label is_active) s =
    ap (foreign_wallets uid) (state-return (λ _. tt) (update_wallet uid wid label is_active) s)
    ∙ behind_check uid wid s
        (λ w. save_wallet (patched w label is_active) >> pure (patched w label is_active))
        (λ w o.
          ap (foreign_wallets uid) (
            state-return (λ _. patched w label is_active) (save_wallet (patched w label is_active))
              s)
          ∙ save_keeps_foreign uid wid w (patched w label is_active) s o o.owner o.identity)
perform-keeps_foreign p uid wid delete s =
    behind_check uid wid s (λ w. remove_wallet w.id) (λ w o. remove_keeps_foreign uid wid w s o)
perform-keeps_foreign p uid wid snapshot s =
    ap (foreign_wallets uid) (state-return (λ _. tt) (take_snapshot p uid wid) s)
    ∙ behind_check uid wid s
        (λ w.
          record_snapshot w (snapshot_failure (p.fetch_balance w.chain w.address))
            (snapshot_failure (p.fetch_token_holdings w.chain w.address)))
        (λ w o. record_keeps_foreign uid wid w _ _ s o)
