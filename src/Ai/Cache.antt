-- ===== src/Ai/Cache.antt =====
-- The cache of explanations in apps/api/app/services/ai_explain.py.
use crypto_intelligence_plat.Ai.Repeats.{Repeats, Repeats-bind, tx_Reads, wallet_Reads}
use crypto_intelligence_plat.Ai.Service.{
  ask_about_tx, ask_about_wallet, call_with_retries, explain_either, explain_transaction,
  explain_wallet, find_or_ask, owned_tx, recent_from, recent_of, tx_signature, wallet_signature,
}
use crypto_intelligence_plat.Alerts.Once.{select-append}
use crypto_intelligence_plat.Base.{
  ==_refl, Bool, List, Option, Str, [], ap, codes, if◌then◌else◌, none, refl, select, some, str_eq,
  str_eq_refl, sym, true, ℕ, ℤ, ◌&&◌, ◌++◌, ◌==◌, ◌∙◌, ◌∷◌, ◌≡◌,
}
use crypto_intelligence_plat.Config.{Settings}
use crypto_intelligence_plat.Exec.{
  Exec, Result, err, err_not_ok, gets, lift, ok, ok_injective, one_or_none, pure, ◌>>=◌,
}
use crypto_intelligence_plat.Models.{AiAnalysis, Db, Transaction, Wallet}
use crypto_intelligence_plat.Models.Tables.{add_analysis}
use crypto_intelligence_plat.Wallets.{get_owned_wallet}

module _ (wanted : AiAnalysis → Bool) (make : Str → ℕ → AiAnalysis) where
  abbrev of_found : Result Str → Option AiAnalysis → Exec Db AiAnalysis
  of_found ans o = elim o [
    | some row ↦ pure row
    | none ↦ (do explanation ← lift ans; add_analysis (make explanation))
  ]

  abbrev of_rows : Result Str → List AiAnalysis → Exec Db AiAnalysis
  of_rows ans rows = one_or_none rows >>= of_found ans

  asked_new :
      (x : Result Str) (s t : Db) (r : AiAnalysis)
      → of_found x none s ≡ (ok r, t)
      → (e : Str) × (add_analysis (make e) s ≡ (ok r, t))
  asked_new (ok e) s t r h = (e, h)
  asked_new (err x) s t r h = absurd (err_not_ok (ap (λ (p : Result AiAnalysis × Db). p.0) h))

  row_added :
      (e : Str) (s t : Db) (r : AiAnalysis)
      → add_analysis (make e) s ≡ (ok r, t)
      → select wanted s.analyses ≡ []
      → wanted (make e s.next_id) ≡ true
      → select wanted t.analyses ≡ r ∷ []
  unfolding add_analysis
  row_added e s t r h none_yet fits =
      ap (λ (d : Db). select wanted d.analyses) (sym (ap (λ (p : Result AiAnalysis × Db). p.1) h))
      ∙ select-append wanted s.analyses (make e s.next_id)
      ∙ ap (λ rows. rows ++ (if wanted (make e s.next_id) then make e s.next_id ∷ [] else []))
          none_yet
      ∙ ap (λ b. if b then make e s.next_id ∷ [] else []) fits
      ∙ ap (λ x. x ∷ []) (ok_injective (ap (λ (p : Result AiAnalysis × Db). p.0) h))

  -- The database behind an answer: as before, with one row more at most, which is found again.
  record Kept (s t : Db) (r : AiAnalysis) : Type 0 where
    wallets : t.wallets ≡ s.wallets
    transactions : t.transactions ≡ s.transactions
    found : select wanted t.analyses ≡ r ∷ []

  found_Kept :
      ((e : Str) (id : ℕ) → wanted (make e id) ≡ true)
      → (x : Result Str) (rows : List AiAnalysis) (s t : Db) (r : AiAnalysis)
      → select wanted s.analyses ≡ rows
      → of_rows x rows s ≡ (ok r, t)
      → Kept s t r
  unfolding add_analysis
  found_Kept fits x [] s t r q h =
      let (e, added) = asked_new x s t r h in
      let new_db = sym (ap (λ (p : Result AiAnalysis × Db). p.1) added) in
      record {
        wallets = ap (λ (d : Db). d.wallets) new_db;
        transactions = ap (λ (d : Db). d.transactions) new_db;
        found = row_added e s t r added q (fits e s.next_id);
      }
  found_Kept fits x (a ∷ []) s t r q h =
      let same = sym (ap (λ (p : Result AiAnalysis × Db). p.1) h) in
      record {
        wallets = ap (λ (d : Db). d.wallets) same;
        transactions = ap (λ (d : Db). d.transactions) same;
        found =
            ap (λ (d : Db). select wanted d.analyses) same
            ∙ q
            ∙ ap (λ y. y ∷ []) (ok_injective (ap (λ (p : Result AiAnalysis × Db). p.0) h));
      }
  found_Kept fits x (a ∷ b ∷ rows) s t r q h =
      absurd (err_not_ok (ap (λ (p : Result AiAnalysis × Db). p.0) h))

Repeats-find :
    (wanted : AiAnalysis → Bool) (make : Str → ℕ → AiAnalysis) (x y : Result Str)
    → ((e : Str) (id : ℕ) → wanted (make e id) ≡ true)
    → Repeats (find_or_ask wanted x make) (find_or_ask wanted y make)
unfolding find_or_ask
Repeats-find wanted make x y fits =
    let kept : (s t : Db) (r : AiAnalysis)
        → of_rows wanted make x (select wanted s.analyses) s ≡ (ok r, t)
        → Kept wanted make s t r =
      λ s t r h. found_Kept wanted make fits x (select wanted s.analyses) s t r refl h in
    record {
      wallets_same = λ s t r h. (kept s t r h).wallets;
      transactions_same = λ s t r h. (kept s t r h).transactions;
      again = λ s t r h. ap (λ rows. of_rows wanted make y rows t) (kept s t r h).found;
    }

same_question :
    (id : ℕ) (kind sig : Str) → ((id == id) && str_eq kind kind && str_eq sig sig) ≡ true
same_question id kind sig = rw (==_refl id, str_eq_refl kind, str_eq_refl sig) refl

module _ (settings : Settings) (sha256 : Str → Str) (str_decimal : ℤ → Str) where
  wallet_question :
      (p q : Result (ℕ → Result Str)) (w : Wallet) (txs : List Transaction)
      → Repeats
          (ask_about_wallet settings sha256 str_decimal p w txs)
          (ask_about_wallet settings sha256 str_decimal q w txs)
  unfolding ask_about_wallet
  wallet_question p q w txs = Repeats-find _ _ (call_with_retries p) (call_with_retries q) (λ e id.
      same_question w.id (codes "wallet_summary")
        (wallet_signature settings sha256 str_decimal w txs))

  tx_question :
      (p q : Result (ℕ → Result Str)) (owned : Wallet × Transaction)
      → Repeats
          (ask_about_tx settings sha256 str_decimal p owned.0 owned.1)
          (ask_about_tx settings sha256 str_decimal q owned.0 owned.1)
  unfolding ask_about_tx
  tx_question p q (w, tx) = Repeats-find _ _ (call_with_retries p) (call_with_retries q) (λ e id.
      same_question tx.id (codes "tx_explain") (tx_signature settings sha256 str_decimal w tx))

  explain_Repeats :
      (p q : Result (ℕ → Result Str)) (user_id : ℕ) (tx_id wallet_id : Option ℕ)
      → Repeats
          (explain_either settings sha256 str_decimal p user_id tx_id wallet_id)
          (explain_either settings sha256 str_decimal q user_id tx_id wallet_id)
  unfolding explain_either explain_wallet explain_transaction
  explain_Repeats p q user_id (some tx_id) wallet_id =
      Repeats-bind (owned_tx user_id tx_id) _ _ (tx_Reads user_id tx_id) (tx_question p q)
  explain_Repeats p q user_id none (some wallet_id) =
      Repeats-bind (get_owned_wallet user_id wallet_id) _ _ (wallet_Reads user_id wallet_id) (λ w.
        Repeats-bind (gets (recent_of w.id)) _ _
          (record { result = λ ws ts. ok (recent_from w.id ts); runs = λ s. refl })
          (wallet_question p q w))
  explain_Repeats p q user_id none none = record {
    wallets_same = λ s t r h. absurd (err_not_ok (ap (λ (x : Result AiAnalysis × Db). x.0) h));
    transactions_same = λ s t r h. absurd (err_not_ok (ap (λ (x : Result AiAnalysis × Db). x.0) h));
    again = λ s t r h. absurd (err_not_ok (ap (λ (x : Result AiAnalysis × Db). x.0) h));
  }

  -- Once a wallet or a transaction has been explained, the same question is answered with the same row
  -- and without any change of the database, whatever the model would answer then, if it answers at all.
  pub explain-cached :
      (p q : Result (ℕ → Result Str)) (user_id : ℕ) (tx_id wallet_id : Option ℕ) (s t : Db)
      (r : AiAnalysis)
      → explain_either settings sha256 str_decimal p user_id tx_id wallet_id s ≡ (ok r, t)
      → explain_either settings sha256 str_decimal q user_id tx_id wallet_id t ≡ (ok r, t)
  explain-cached p q user_id tx_id wallet_id s t r h =
      (explain_Repeats p q user_id tx_id wallet_id).again s t r h
