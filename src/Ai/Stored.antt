-- ===== src/Ai/Stored.antt =====
-- The explanations that apps/api/app/services/ai_explain.py stores.
use crypto_intelligence_plat.Ai.Clean.{IsClean, validate_explanation-IsClean}
use crypto_intelligence_plat.Ai.Repeats.{Reads, Reads-one, tx_Reads, wallet_Reads}
use crypto_intelligence_plat.Ai.Service.{
  ask_about_tx, ask_about_wallet, call_from, call_with_retries, explain_either, explain_transaction,
  explain_wallet, find_or_ask, is_ai_error, max_ai_retries, owned_tx, recent_of, unless_last,
  validated,
}
use crypto_intelligence_plat.Base.{
  All, All-append, Bool, List, Option, Str, [], ap, if_by, leb, none, not, refl, select, some, suc,
  zero, ℕ, ℤ, ◌&&◌, ◌+◌, ◌∷◌, ◌≡◌,
}
use crypto_intelligence_plat.Config.{Settings}
use crypto_intelligence_plat.Exec.{
  Exec, Result, err, err_not_ok, gets, lift, ok, one_or_none, pure, ◌>>=◌,
}
use crypto_intelligence_plat.Exec.Keeps.{Keeps, Keeps-bind}
use crypto_intelligence_plat.Models.{AiAnalysis, Db, Transaction, Wallet}
use crypto_intelligence_plat.Models.Tables.{add_analysis}
use crypto_intelligence_plat.Wallets.{get_owned_wallet}

abbrev pub Stored : Db → Type 0
Stored s = All (λ (a : AiAnalysis). IsClean a.explanation) s.analyses

validated-IsClean : (x : Result Str) (r : Str) → validated x ≡ ok r → IsClean r
validated-IsClean (ok raw) r e = validate_explanation-IsClean raw r e
validated-IsClean (err x) r e = absurd (err_not_ok e)

next_attempt :
    (attempt : ℕ) (x later : Result Str) (r : Str)
    → ((y : Str) → x ≡ ok y → IsClean y)
    → ((y : Str) → later ≡ ok y → IsClean y)
    → unless_last attempt x later ≡ ok r
    → IsClean r
next_attempt attempt (ok y) later r first rest e = first r e
next_attempt attempt (err x) later r first rest e =
    if_by (λ z. z ≡ ok r → IsClean r) (is_ai_error x && not (leb max_ai_retries attempt)) later
      (err x) (λ _. rest r) (λ _ k. absurd (err_not_ok k)) e

call_from-IsClean :
    (replies : ℕ → Result Str) (attempt left : ℕ) (r : Str)
    → call_from replies attempt left ≡ ok r
    → IsClean r
unfolding call_from
call_from-IsClean replies attempt zero r e = absurd (err_not_ok e)
call_from-IsClean replies attempt (suc left) r e =
    next_attempt attempt (validated (replies attempt)) (call_from replies (suc attempt) left) r
      (validated-IsClean (replies attempt)) (call_from-IsClean replies (suc attempt) left) e

call-IsClean : (p : Result (ℕ → Result Str)) (r : Str) → call_with_retries p ≡ ok r → IsClean r
unfolding call_with_retries
call-IsClean (ok replies) r e = call_from-IsClean replies 0 (max_ai_retries + 1) r e
call-IsClean (err x) r e = absurd (err_not_ok e)

Reads-Keeps : {A : Type 0} (P : Db → Type 0) (m : Exec Db A) → Reads m → Keeps P m
Reads-Keeps P m h = record { at = λ s k. rw (ap (λ (p : Result _ × Db). p.1) (h.runs s)) k }

module _ (wanted : AiAnalysis → Bool) (make : Str → ℕ → AiAnalysis) where
  asked_Stored :
      (x : Result Str)
      → ((e : Str) (id : ℕ) → (make e id).explanation ≡ e)
      → ((e : Str) → x ≡ ok e → IsClean e)
      → Keeps Stored (lift x >>= (λ e. add_analysis (make e)))
  unfolding add_analysis
  asked_Stored (err y) same clean = record { at = λ s h. h }
  asked_Stored (ok e) same clean = record {
    at = λ s h.
        All-append (λ (a : AiAnalysis). IsClean a.explanation) s.analyses (make e s.next_id ∷ []) h
          (rw (same e s.next_id) (clean e refl), tt);
  }

  found_Stored :
      (x : Result Str)
      → ((e : Str) (id : ℕ) → (make e id).explanation ≡ e)
      → ((e : Str) → x ≡ ok e → IsClean e)
      → Keeps Stored (find_or_ask wanted x make)
  unfolding find_or_ask
  found_Stored x same clean =
      Keeps-bind (gets (λ (s : Db). select wanted s.analyses)) _ (record { at = λ s h. h })
        (λ rows.
          Keeps-bind (one_or_none rows) _ (Reads-Keeps Stored _ (Reads-one rows))
            (λ o. of_cached o))
    where
      of_cached :
          (o : Option AiAnalysis)
          → Keeps Stored
              (elim o [ some row ↦ pure row | none ↦ (do e ← lift x; add_analysis (make e)) ])
      of_cached (some row) = record { at = λ s h. h }
      of_cached none = asked_Stored x same clean

module _ (settings : Settings) (sha256 : Str → Str) (str_decimal : ℤ → Str) where
  wallet_Stored :
      (p : Result (ℕ → Result Str)) (w : Wallet) (txs : List Transaction)
      → Keeps Stored (ask_about_wallet settings sha256 str_decimal p w txs)
  unfolding ask_about_wallet
  wallet_Stored p w txs = found_Stored _ _ (call_with_retries p) (λ e id. refl) (call-IsClean p)

  tx_Stored :
      (p : Result (ℕ → Result Str)) (w : Wallet) (tx : Transaction)
      → Keeps Stored (ask_about_tx settings sha256 str_decimal p w tx)
  unfolding ask_about_tx
  tx_Stored p w tx = found_Stored _ _ (call_with_retries p) (λ e id. refl) (call-IsClean p)

  pub explain_Keeps :
      (p : Result (ℕ → Result Str)) (user_id : ℕ) (tx_id wallet_id : Option ℕ)
      → Keeps Stored (explain_either settings sha256 str_decimal p user_id tx_id wallet_id)
  unfolding explain_either explain_wallet explain_transaction
  explain_Keeps p user_id (some tx_id) wallet_id =
      Keeps-bind (owned_tx user_id tx_id) _ (Reads-Keeps Stored _ (tx_Reads user_id tx_id))
        (λ owned. tx_Stored p owned.0 owned.1)
  explain_Keeps p user_id none (some wallet_id) =
      Keeps-bind (get_owned_wallet user_id wallet_id) _
        (Reads-Keeps Stored _ (wallet_Reads user_id wallet_id))
        (λ w. Keeps-bind (gets (recent_of w.id)) _ (record { at = λ s h. h }) (wallet_Stored p w))
  explain_Keeps p user_id none none = record { at = λ s h. h }
