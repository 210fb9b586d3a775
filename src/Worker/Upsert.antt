-- ===== src/Worker/Upsert.antt =====
-- How the upsert of a transaction ends, and what later inserts do to its query.
use crypto_intelligence_plat.Alerts.Once.{select-append}
use crypto_intelligence_plat.Base.{
  ==_iff, Bool-cases, List, Str, [], and_true, any, arith, false, inl, inr, none, refl, select,
  some, str_eq, str_eq_comm, str_eq_sound, true, ℕ, ◌++◌, ◌+◌, ◌==◌, ◌∷◌, ◌≡◌,
}
use crypto_intelligence_plat.Errors.{multiple_results}
use crypto_intelligence_plat.Exec.{bind_ok, err, ok, pure}
use crypto_intelligence_plat.Models.{Db, Transaction, Wallet}
use crypto_intelligence_plat.Models.Tables.{add_transaction, same_tx}
use crypto_intelligence_plat.Shared.{ParsedTx}
use crypto_intelligence_plat.Worker.Defs.{WorkState, is_known, new_transaction, upsert_transaction}

-- The transaction is in the table, once.
abbrev pub Known : ℕ → Str → WorkState → Type 0
Known wid hash s = (t : Transaction) × (select (is_known wid hash) s.db.transactions ≡ t ∷ [])

-- The rows of another transaction do not change the query.
pub select-other :
    (wid : ℕ) (hash : Str) (make : ℕ → Transaction) (id : ℕ) (ts : List Transaction)
    (t : Transaction)
    → select (is_known wid hash) ts ≡ t ∷ []
    → select (is_known (make id).wallet_id (make id).tx_hash) ts ≡ []
    → select (is_known wid hash) (ts ++ make id ∷ []) ≡ t ∷ []
select-other wid hash make id ts t found none_yet =
    elim (Bool-cases (is_known wid hash (make id))) [
      | inl same ↦ absurd (clash same)
      | inr other ↦ rw (select-append, found, other)
    ]
  where
    clash : is_known wid hash (make id) ≡ true → ⊥
    clash same =
        let (w, h) = and_true ((make id).wallet_id == wid) (str_eq (make id).tx_hash hash) same in
        cc (
          found,
          none_yet,
          (==_iff (make id).wallet_id wid).0 w,
          str_eq_sound (make id).tx_hash hash h,
        )

select-unknown :
    (wid : ℕ) (p : ParsedTx) (id : ℕ) (ts : List Transaction)
    → select (is_known wid p.tx_hash) ts ≡ []
    → any (same_tx (new_transaction wid p id)) ts ≡ false
unfolding select
select-unknown wid p id [] h = refl
select-unknown wid p id (t ∷ ts) h =
    ground (arith, select-unknown wid p id ts, str_eq_comm t.tx_hash p.tx_hash)

added_transaction :
    (wid : ℕ) (p : ParsedTx) (s : Db)
    → select (is_known wid p.tx_hash) s.transactions ≡ []
    → add_transaction (new_transaction wid p) s ≡ (
      ok (new_transaction wid p s.next_id),
      record s {
        transactions = s.transactions ++ new_transaction wid p s.next_id ∷ [];
        next_id = s.next_id + 1;
      },
    )
unfolding add_transaction
added_transaction wid p s none_yet = rw (select-unknown wid p s.next_id s.transactions none_yet)

-- The three ways in which the upsert ends.
pub data Upserted (w : Wallet) (p : ParsedTx) (s : Db) : Type 0 where
  was_known :
      (t : Transaction)
      → select (is_known w.id p.tx_hash) s.transactions ≡ t ∷ []
      → upsert_transaction w p s ≡ (ok none, s)
      → Upserted w p s
  was_new :
      select (is_known w.id p.tx_hash) s.transactions ≡ []
      → upsert_transaction w p s ≡ (
        ok (some (new_transaction w.id p s.next_id)),
        record s {
          transactions = s.transactions ++ new_transaction w.id p s.next_id ∷ [];
          next_id = s.next_id + 1;
        },
      )
      → Upserted w p s
  was_broken :
      (t u : Transaction) (rest : List Transaction)
      → select (is_known w.id p.tx_hash) s.transactions ≡ t ∷ u ∷ rest
      → upsert_transaction w p s ≡ (err multiple_results, s)
      → Upserted w p s

pub upsert-cases : (w : Wallet) (p : ParsedTx) (s : Db) → Upserted w p s
upsert-cases w p s = by_rows (select (is_known w.id p.tx_hash) s.transactions) refl
  where
    by_rows :
        (rows : List Transaction)
        → select (is_known w.id p.tx_hash) s.transactions ≡ rows
        → Upserted w p s
    by_rows [] e = was_new e (
        unfold upsert_transaction in
        rw e (
          bind_ok (add_transaction (new_transaction w.id p)) (λ t. pure (some t))
            (added_transaction w.id p s e)))
    by_rows (t ∷ []) e = was_known t e (unfold upsert_transaction in rw e)
    by_rows (t ∷ u ∷ rest) e = was_broken t u rest e (unfold upsert_transaction in rw e)
