-- ===== src/Ai/Repeats.antt =====
-- Steps of apps/api/app/services/ai_explain.py that only read, and steps that can be repeated.
use crypto_intelligence_plat.Ai.Service.{owned_tx}
use crypto_intelligence_plat.Base.{
  Bool, List, Option, [], ap, if◌then◌else◌, none, not, refl, select, some, sym, ℕ, ◌==◌, ◌∙◌, ◌∷◌,
  ◌≡◌,
}
use crypto_intelligence_plat.Errors.{Exn, multiple_results, not_found_error}
use crypto_intelligence_plat.Exec.{
  Exec, Result, err, err_not_ok, gets, ok, one_or_none, pure, raise, raise_if, required, ◌>>=◌,
}
use crypto_intelligence_plat.Models.{Db, Transaction, Wallet}
use crypto_intelligence_plat.Wallets.{get_owned_wallet, owned_of}

-- A step that only reads wallets and transactions.
pub record Reads {A : Type 0} (m : Exec Db A) : Type 0 where
  pub result : List Wallet → List Transaction → Result A
  pub runs : (s : Db) → m s ≡ (result s.wallets s.transactions, s)

-- Where the first step succeeds, the second one gives the same answer behind it and changes nothing.
pub record Repeats {A : Type 0} (m n : Exec Db A) : Type 0 where
  pub wallets_same : (s t : Db) (r : A) → m s ≡ (ok r, t) → t.wallets ≡ s.wallets
  pub transactions_same : (s t : Db) (r : A) → m s ≡ (ok r, t) → t.transactions ≡ s.transactions
  pub again : (s t : Db) (r : A) → m s ≡ (ok r, t) → n t ≡ (ok r, t)

module _ {A B : Type 0} where
  abbrev next_of : Result A → (A → Exec Db B) → Exec Db B
  next_of r f s = elim r [ ok a ↦ f a s | err e ↦ raise e s ]

  bind-Reads :
      (m : Exec Db A) (f : A → Exec Db B) (h : Reads m) (s : Db)
      → (m >>= f) s ≡ next_of (h.result s.wallets s.transactions) f s
  bind-Reads m f h s = ap (λ (p : Result A × Db). next_of p.0 f p.1) (h.runs s)

  abbrev then_result : Result A → (A → Result B) → Result B
  then_result (ok a) f = f a
  then_result (err e) f = err e

  Reads-bind :
      (m : Exec Db A) (f : A → Exec Db B) → Reads m → ((a : A) → Reads (f a)) → Reads (m >>= f)
  Reads-bind m f h k = record {
    result = λ ws ts. then_result (h.result ws ts) (λ a. (k a).result ws ts);
    runs = λ s. bind-Reads m f h s ∙ of_result (h.result s.wallets s.transactions) s;
  }
    where
      of_result :
          (r : Result A) (s : Db)
          → next_of r f s ≡ (then_result r (λ a. (k a).result s.wallets s.transactions), s)
      of_result (ok a) s = (k a).runs s
      of_result (err e) s = refl

  Repeats-next :
      (f g : A → Exec Db B)
      → ((a : A) → Repeats (f a) (g a))
      → (x : Result A) → Repeats (next_of x f) (next_of x g)
  Repeats-next f g k (ok a) = k a
  Repeats-next f g k (err e) = record {
    wallets_same = λ s t r h. absurd (err_not_ok (ap (λ (p : Result B × Db). p.0) h));
    transactions_same = λ s t r h. absurd (err_not_ok (ap (λ (p : Result B × Db). p.0) h));
    again = λ s t r h. absurd (err_not_ok (ap (λ (p : Result B × Db). p.0) h));
  }

  pub Repeats-bind :
      (m : Exec Db A) (f g : A → Exec Db B)
      → Reads m
      → ((a : A) → Repeats (f a) (g a))
      → Repeats (m >>= f) (m >>= g)
  Repeats-bind m f g h k =
      let at : (s : Db)
          → Repeats (next_of (h.result s.wallets s.transactions) f)
              (next_of (h.result s.wallets s.transactions) g) =
        λ s. Repeats-next f g k (h.result s.wallets s.transactions) in
      record {
        wallets_same = λ s t r e. (at s).wallets_same s t r (sym (bind-Reads m f h s) ∙ e);
        transactions_same =
            λ s t r e. (at s).transactions_same s t r (sym (bind-Reads m f h s) ∙ e);
        again = λ s t r e.
            let e' = sym (bind-Reads m f h s) ∙ e in
            bind-Reads m g h t
            ∙ ap (λ ws. next_of (h.result ws t.transactions) g t) ((at s).wallets_same s t r e')
            ∙ ap (λ ts. next_of (h.result s.wallets ts) g t) ((at s).transactions_same s t r e')
            ∙ (at s).again s t r e';
      }

Reads-gets :
    {A : Type 0} (F : List Wallet → List Transaction → A)
    → Reads (gets (λ (s : Db). F s.wallets s.transactions))
Reads-gets F = record { result = λ ws ts. ok (F ws ts); runs = λ s. refl }

pub Reads-one : {A : Type 0} (rows : List A) → Reads (one_or_none rows)
Reads-one [] = record { result = λ ws ts. ok none; runs = λ s. refl }
Reads-one (a ∷ []) = record { result = λ ws ts. ok (some a); runs = λ s. refl }
Reads-one (a ∷ b ∷ rows) = record { result = λ ws ts. err multiple_results; runs = λ s. refl }

Reads-required : {A : Type 0} (o : Option A) (e : Exn) → Reads (required o e)
Reads-required none e = record { result = λ ws ts. err e; runs = λ s. refl }
Reads-required (some a) e = record { result = λ ws ts. ok a; runs = λ s. refl }

Reads-raise_if : (b : Bool) (e : Exn) → Reads (raise_if b e)
Reads-raise_if b e = record { result = λ ws ts. if b then err e else ok tt; runs = λ s. refl }

Reads-pure : {A : Type 0} (a : A) → Reads (pure a)
Reads-pure a = record { result = λ ws ts. ok a; runs = λ s. refl }

Reads-owned_of : (user_id : ℕ) (rows : List Wallet) → Reads (owned_of user_id rows)
unfolding owned_of
Reads-owned_of user_id [] = Reads-required none (not_found_error "wallet")
Reads-owned_of user_id (w ∷ []) =
    Reads-bind (raise_if (not (w.user_id == user_id)) (not_found_error "wallet")) (λ _. pure w)
      (Reads-raise_if _ _) (λ _. Reads-pure w)
Reads-owned_of user_id (w ∷ v ∷ ws) = record {
  result = λ ws ts. err multiple_results;
  runs = λ s. refl;
}

pub wallet_Reads : (user_id wallet_id : ℕ) → Reads (get_owned_wallet user_id wallet_id)
unfolding get_owned_wallet
wallet_Reads user_id wallet_id =
    Reads-bind _ _ (Reads-gets (λ ws ts. select (λ (w : Wallet). w.id == wallet_id) ws))
      (Reads-owned_of user_id)

pub tx_Reads : (user_id tx_id : ℕ) → Reads (owned_tx user_id tx_id)
unfolding owned_tx
tx_Reads user_id tx_id =
    Reads-bind _ _ (Reads-gets (λ ws ts. select (λ (t : Transaction). t.id == tx_id) ts)) (λ rows.
      Reads-bind _ _ (Reads-one rows) (λ found.
        Reads-bind _ _ (Reads-required found (not_found_error "transaction")) (λ tx.
          Reads-bind _ _ (Reads-gets (λ ws ts. select (λ (w : Wallet). w.id == tx.wallet_id) ws))
            (λ wallets. Reads-bind _ _ (Reads-one wallets) (λ o.
              Reads-bind _ _ (Reads-required o (not_found_error "transaction")) (λ w.
                Reads-bind _ _
                  (Reads-raise_if (not (w.user_id == user_id)) (not_found_error "transaction"))
                  (λ _. Reads-pure (w, tx))))))))
