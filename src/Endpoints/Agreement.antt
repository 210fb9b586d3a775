-- ===== src/Endpoints/Agreement.antt =====
-- The endpoints of apps/api/app/api/v1 beside the services of apps/api/app/services, which say the
-- same things again.
use crypto_intelligence_plat.Alerts.{
  delete_alert, get_owned_alert, patched_alert, save_alert, update_alert,
}
use crypto_intelligence_plat.Base.{
  Bool, List, Option, Str, [], ap, false, if◌then◌else◌, none, not, refl, select, some, sym, true,
  ℕ, ℤ, ◌&&◌, ◌==◌, ◌∙◌, ◌∷◌, ◌≡◌,
}
use crypto_intelligence_plat.Endpoints.{after_request, request_session}
use crypto_intelligence_plat.Endpoints.Alerts.{
  alert_to_delete, alert_to_patch, assign_alert, assign_is_active, assign_note, assign_threshold,
  delete_alert_route, patch_alert,
}
use crypto_intelligence_plat.Endpoints.Wallets.{
  assign_active, assign_label, assign_wallet, delete_wallet_route, owned_wallet, patch_wallet,
}
use crypto_intelligence_plat.Errors.{Exn, integrity_error, not_found_error}
use crypto_intelligence_plat.Exec.{
  Exec, Result, err, ok, one_or_none, pure, raise, raise_if, required, ◌>>=◌,
}
use crypto_intelligence_plat.Models.{Alert, Db, Wallet}
use crypto_intelligence_plat.Models.Tables.{
  label_fits, remove_alert, remove_wallet, save_wallet, threshold_fits,
}
use crypto_intelligence_plat.Schemas.{AlertUpdate, WalletUpdate, alert_out, wallet_out}
use crypto_intelligence_plat.Wallets.{
  delete_wallet, get_owned_wallet, owned_of, patched, update_wallet,
}

-- A step of a service, as the answer of an endpoint.
abbrev pub shown : {A B : Type 0} → (A → B) → Result A × Db → Result B × Db
shown f (ok a, s) = (ok (f a), s)
shown f (err e, s) = (err e, s)

module _ {A B : Type 0} where
  bind_congr :
      (m : Exec Db A) (f g : A → Exec Db B)
      → ((a : A) (t : Db) → f a t ≡ g a t)
      → (s : Db) → (m >>= f) s ≡ (m >>= g) s
  bind_congr m f g h s = of_run (m s).0 (m s).1
    where
      of_run :
          (r : Result A) (t : Db)
          → ◌≡◌ {A = Result B × Db}
              (elim r [ ok a ↦ f a t | err e ↦ raise e t ])
              (elim r [ ok a ↦ g a t | err e ↦ raise e t ])
      of_run (ok a) t = h a t
      of_run (err e) t = refl

  -- What only reads can stand outside the session.
  session_read :
      (m : Exec Db A) (f : A → Exec Db B)
      → ((s : Db) → (m s).1 ≡ s)
      → (s : Db) → request_session (m >>= f) s ≡ (m >>= (λ a. request_session (f a))) s
  session_read m f reads s = of_run (m s).0 (m s).1 (reads s)
    where
      of_run :
          (r : Result A) (t : Db)
          → t ≡ s
          → ◌≡◌ {A = Result B × Db}
              (let (q, u) : Result B × Db = elim r [ ok a ↦ f a t | err e ↦ raise e t ] in
                (q, after_request s q u))
              (elim r [ ok a ↦ request_session (f a) t | err e ↦ raise e t ])
      of_run (ok a) t e = ap (λ x. ((f a t).0, after_request x (f a t).0 (f a t).1)) (sym e)
      of_run (err x) t e = ap (λ y. (err x, y)) (sym e)

module _ {A B C : Type 0} (g : B → C) where
  shown_bind :
      (m : Exec Db A) (f : A → Exec Db B) (s : Db)
      → shown g ((m >>= f) s) ≡ (m >>= (λ a t. shown g (f a t))) s
  shown_bind m f s = of_run (m s).0 (m s).1
    where
      of_run :
          (r : Result A) (t : Db)
          → shown g (let p : Result B × Db = elim r [ ok a ↦ f a t | err e ↦ raise e t ] in p)
            ≡ (let p : Result C × Db = elim r [ ok a ↦ shown g (f a t) | err e ↦ raise e t ] in p)
      of_run (ok a) t = refl
      of_run (err e) t = refl

  -- A handler that reads, and then agrees with the service.
  same_behind :
      (m : Exec Db A) (f : A → Exec Db C) (h : A → Exec Db B)
      → ((s : Db) → (m s).1 ≡ s)
      → ((a : A) (t : Db) → request_session (f a) t ≡ shown g (h a t))
      → (s : Db) → request_session (m >>= f) s ≡ shown g ((m >>= h) s)
  same_behind m f h reads agree s =
      session_read m f reads s
      ∙ bind_congr m (λ a. request_session (f a)) (λ a t. shown g (h a t)) agree s
      ∙ sym (shown_bind m h s)

rows_read : (user_id : ℕ) (rows : List Wallet) (s : Db) → (owned_of user_id rows s).1 ≡ s
unfolding owned_of
rows_read user_id [] s = refl
rows_read user_id (w ∷ []) s = of_test (w.user_id == user_id)
  where
    of_test : (b : Bool) → ((raise_if (not b) (not_found_error "wallet") >>= (λ _. pure w)) s).1 ≡ s
    of_test true = refl
    of_test false = refl
rows_read user_id (w ∷ v ∷ ws) s = refl

wallet_read : (user_id wallet_id : ℕ) (s : Db) → (get_owned_wallet user_id wallet_id s).1 ≡ s
unfolding get_owned_wallet
wallet_read user_id wallet_id s =
    rows_read user_id (select (λ (w : Wallet). w.id == wallet_id) s.wallets) s

alert_read : (user_id alert_id : ℕ) (s : Db) → (get_owned_alert user_id alert_id s).1 ≡ s
unfolding get_owned_alert
alert_read user_id alert_id s =
    of_rows (select (λ (a : Alert). (a.id == alert_id) && (a.user_id == user_id)) s.alerts)
  where
    of_rows :
        (rows : List Alert)
        → ((one_or_none rows >>= (λ o. required o (not_found_error "alert"))) s).1 ≡ s
    of_rows [] = refl
    of_rows (a ∷ []) = refl
    of_rows (a ∷ b ∷ more) = refl

-- An update that the database refuses changes nothing.
module _ {A B : Type 0} (g : A → B) (a : A) where
  saved :
      (b : Bool) (e : Exn) (s t : Db)
      → request_session ((λ (_ : Db). if b then (ok tt, t) else (err e, s)) >>= (λ _. pure (g a))) s
        ≡ shown g (((λ (_ : Db). if b then (ok tt, t) else (err e, s)) >>= (λ _. pure a)) s)
  saved true e s t = refl
  saved false e s t = refl

-- The assignments of an endpoint make the row that the service makes.
assign_wallet-eq-patched :
    (p : WalletUpdate) (w : Wallet) → assign_wallet p w ≡ patched w p.label p.is_active
unfolding assign_wallet assign_active assign_label
assign_wallet-eq-patched p w = by_fields p.label p.is_active
  where
    by_fields :
        (l : Option Str) (b : Option Bool) → assign_active b (assign_label l w) ≡ patched w l b
    by_fields none none = refl
    by_fields none (some b) = refl
    by_fields (some l) none = refl
    by_fields (some l) (some b) = refl

assign_alert-eq-patched :
    (p : AlertUpdate) (a : Alert)
    → assign_alert p a ≡ patched_alert a p.is_active p.threshold_amount p.note
unfolding assign_alert assign_is_active assign_threshold assign_note
assign_alert-eq-patched p a = by_fields p.is_active p.threshold_amount p.note
  where
    by_fields :
        (b : Option Bool) (t : Option ℤ) (n : Option Str)
        → assign_note n (assign_threshold t (assign_is_active b a)) ≡ patched_alert a b t n
    by_fields none none none = refl
    by_fields none none (some n) = refl
    by_fields none (some t) none = refl
    by_fields none (some t) (some n) = refl
    by_fields (some b) none none = refl
    by_fields (some b) none (some n) = refl
    by_fields (some b) (some t) none = refl
    by_fields (some b) (some t) (some n) = refl

save_wallet_same :
    (w : Wallet) (s : Db)
    → request_session (save_wallet w >>= (λ _. pure (wallet_out w))) s
      ≡ shown wallet_out ((save_wallet w >>= (λ _. pure w)) s)
unfolding save_wallet
save_wallet_same w s = saved wallet_out w (label_fits w.label) integrity_error s _

save_alert_same :
    (a : Alert) (s : Db)
    → request_session (save_alert a >>= (λ _. pure (alert_out a))) s
      ≡ shown alert_out ((save_alert a >>= (λ _. pure a)) s)
unfolding save_alert
save_alert_same a s = saved alert_out a (threshold_fits a.threshold_amount) integrity_error s _

patch_wallet_same :
    (user_id wallet_id : ℕ) (p : WalletUpdate) (s : Db)
    → patch_wallet user_id wallet_id p s
      ≡ shown wallet_out (update_wallet user_id wallet_id p.label p.is_active s)
unfolding patch_wallet update_wallet owned_wallet get_owned_wallet owned_of
patch_wallet_same user_id wallet_id p =
    same_behind wallet_out (get_owned_wallet user_id wallet_id) _ _ (wallet_read user_id wallet_id)
      (λ w t.
        ap (λ x. request_session (save_wallet x >>= (λ _. pure (wallet_out x))) t)
          (assign_wallet-eq-patched p w)
        ∙ save_wallet_same (patched w p.label p.is_active) t)

patch_alert_same :
    (user_id alert_id : ℕ) (p : AlertUpdate) (s : Db)
    → patch_alert user_id alert_id p s
      ≡ shown alert_out (update_alert user_id alert_id p.is_active p.threshold_amount p.note s)
unfolding patch_alert update_alert alert_to_patch get_owned_alert
patch_alert_same user_id alert_id p =
    same_behind alert_out (get_owned_alert user_id alert_id) _ _ (alert_read user_id alert_id)
      (λ a t.
        ap (λ x. request_session (save_alert x >>= (λ _. pure (alert_out x))) t)
          (assign_alert-eq-patched p a)
        ∙ save_alert_same (patched_alert a p.is_active p.threshold_amount p.note) t)

delete_wallet_same :
    (user_id wallet_id : ℕ) (s : Db)
    → delete_wallet_route user_id wallet_id s ≡ shown (λ x. x) (delete_wallet user_id wallet_id s)
unfolding delete_wallet_route delete_wallet get_owned_wallet owned_of remove_wallet
delete_wallet_same user_id wallet_id =
    same_behind (λ x. x) (get_owned_wallet user_id wallet_id) (λ w. remove_wallet w.id)
      (λ w. remove_wallet w.id) (wallet_read user_id wallet_id) (λ w t. refl)

delete_alert_same :
    (user_id alert_id : ℕ) (s : Db)
    → delete_alert_route user_id alert_id s ≡ shown (λ x. x) (delete_alert user_id alert_id s)
unfolding delete_alert_route delete_alert alert_to_delete get_owned_alert remove_alert
delete_alert_same user_id alert_id =
    same_behind (λ x. x) (get_owned_alert user_id alert_id) (λ a. remove_alert a.id)
      (λ a. remove_alert a.id) (alert_read user_id alert_id) (λ a t. refl)

-- Changing and deleting a wallet or an alert through the API is what the service of the same purpose
-- does, on every database and with the same errors, and the answer shows the row it returns.
pub endpoints-eq-services :
    (user_id id : ℕ) (w : WalletUpdate) (a : AlertUpdate) (s : Db)
    → (patch_wallet user_id id w s
        ≡ shown wallet_out (update_wallet user_id id w.label w.is_active s))
      × (delete_wallet_route user_id id s ≡ shown (λ x. x) (delete_wallet user_id id s))
      × (patch_alert user_id id a s
          ≡ shown alert_out (update_alert user_id id a.is_active a.threshold_amount a.note s))
      × (delete_alert_route user_id id s ≡ shown (λ x. x) (delete_alert user_id id s))
endpoints-eq-services user_id id w a s = (
  patch_wallet_same user_id id w s,
  delete_wallet_same user_id id s,
  patch_alert_same user_id id a s,
  delete_alert_same user_id id s,
)
