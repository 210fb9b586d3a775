-- ===== src/Worker/Idempotence.antt =====
-- Processing what the provider returned a second time inserts nothing and fires nothing.
use mathlib.Core.Path.{subst}
use crypto_intelligence_plat.Base.{
  All, List, Option, Str, [], ap, none, refl, sym, true, ℕ, ◌∙◌, ◌∷◌, ◌≡◌,
}
use crypto_intelligence_plat.Exec.{
  Exec, Result, bind_inv, bind_ok, is_ok, ok, pure, state-return, ◌>>=◌,
}
use crypto_intelligence_plat.Exec.Keeps.{Keeps-bind}
use crypto_intelligence_plat.Models.{Wallet}
use crypto_intelligence_plat.Shared.{ParsedTx}
use crypto_intelligence_plat.Worker.{counted, process_txs}
use crypto_intelligence_plat.Worker.Defs.{WorkState, process_tx}
use crypto_intelligence_plat.Worker.Process.{
  process_tx-Known, process_tx-Known_keep, process_tx-Known_self,
}
use crypto_intelligence_plat.Worker.Upsert.{Known}

module _ (sha256 : Str → Str) (w : Wallet) where
  abbrev AllKnown : List ParsedTx → WorkState → Type 0
  AllKnown ps s = All (λ (p : ParsedTx). Known w.id p.tx_hash s) ps

  -- One round of the loop, given how the rest goes on.
  abbrev rest_of : List ParsedTx → Option ℕ → Exec WorkState (ℕ × ℕ)
  rest_of ps fired = do counts ← process_txs sha256 w ps; pure (counted fired counts)

  rest_state :
      (ps : List ParsedTx) (fired : Option ℕ) (t : WorkState)
      → (rest_of ps fired t).1 ≡ (process_txs sha256 w ps t).1
  rest_state ps fired t = state-return (counted fired) (process_txs sha256 w ps) t

  process_txs-Known_keep :
      (ps : List ParsedTx) (wid : ℕ) (hash : Str) (s : WorkState)
      → Known wid hash s
      → Known wid hash (process_txs sha256 w ps s).1
  unfolding process_txs
  process_txs-Known_keep [] wid hash s k = k
  process_txs-Known_keep (p ∷ ps) wid hash s k =
      (Keeps-bind (process_tx sha256 w p) (rest_of ps)
          (record { at = λ t q. process_tx-Known_keep sha256 w p t wid hash q })
          (λ fired. record {
            at = λ t q.
                subst (Known wid hash) (sym (rest_state ps fired t))
                  (process_txs-Known_keep ps wid hash t q);
          })).at
        s k

  process_txs-AllKnown :
      (ps : List ParsedTx) (s : WorkState)
      → is_ok (process_txs sha256 w ps s).0 ≡ true
      → AllKnown ps (process_txs sha256 w ps s).1
  unfolding process_txs
  process_txs-AllKnown [] s h = tt
  process_txs-AllKnown (p ∷ ps) s h =
      let (fired, t, e, h') = bind_inv (process_tx sha256 w p) (rest_of ps) s h in
      let (nk, u, e', h'') =
        bind_inv (process_txs sha256 w ps) (λ q. pure (counted fired q)) t h' in
      let final =
        ap (λ (q : Result (ℕ × ℕ) × WorkState). q.1)
          (bind_ok (process_tx sha256 w p) (rest_of ps) e)
        ∙ rest_state ps fired t in
      let here = subst (Known w.id p.tx_hash) (ap (λ (q : Result (Option ℕ) × WorkState). q.1) e) (
        process_tx-Known_self sha256 w p s
          (ap (λ (q : Result (Option ℕ) × WorkState). is_ok q.0) e)) in
      subst (AllKnown (p ∷ ps)) (sym final) (
        process_txs-Known_keep ps w.id p.tx_hash t here,
        process_txs-AllKnown ps t (ap (λ (q : Result (ℕ × ℕ) × WorkState). is_ok q.0) e'),
      )

  process_txs-known :
      (ps : List ParsedTx) (s : WorkState)
      → AllKnown ps s
      → process_txs sha256 w ps s ≡ (ok (0, 0), s)
  unfolding process_txs
  process_txs-known [] s h = refl
  process_txs-known (p ∷ ps) s h =
      bind_ok (process_tx sha256 w p) (rest_of ps) (process_tx-Known sha256 w p s h.0)
      ∙ bind_ok (process_txs sha256 w ps) (λ q. pure (counted none q)) (process_txs-known ps s h.1)

  -- After a run of the loop that has not failed, the same transactions again insert nothing, fire no
  -- alert, and leave the database, the locks and the messages as they are.
  pub process_txs-idempotent :
      (ps : List ParsedTx) (s : WorkState)
      → is_ok (process_txs sha256 w ps s).0 ≡ true
      → process_txs sha256 w ps (process_txs sha256 w ps s).1
        ≡ (ok (0, 0), (process_txs sha256 w ps s).1)
  process_txs-idempotent ps s h =
      process_txs-known ps (process_txs sha256 w ps s).1 (process_txs-AllKnown ps s h)
