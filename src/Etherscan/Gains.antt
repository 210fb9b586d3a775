-- ===== src/Etherscan/Gains.antt =====
-- What the transfers of tokens add to the amounts in apps/api/app/providers/etherscan.py.
use crypto_intelligence_plat.Base.{
  Bool, Decimal, List, Option, Str, [], ap, decimal_add, decimal_sub, false, if_by, if◌then◌else◌,
  is_empty, lower, map, none, or_default, refl, some, str_eq, sym, true, ℕ, ℤ, ◌∙◌, ◌∷◌, ◌≡◌,
}
use crypto_intelligence_plat.Etherscan.{EtherscanCodec, TokenTx}
use crypto_intelligence_plat.Etherscan.Entries.{Unique, Unique-added, amount-changed, amount_in}
use crypto_intelligence_plat.Etherscan.Holdings.{
  TokenEntry, add_transfer, add_transfers, change_of, contract_of, decimals_of, fresh_entry, scaled,
  value_of, with_decimals, with_value,
}
use crypto_intelligence_plat.Exec.{Result, err, err_not_ok, ok, ok_injective}
use crypto_intelligence_plat.Models.Tables.{same_token}

empty_name : (s t : Str) → is_empty s ≡ true → is_empty t ≡ false → str_eq s t ≡ false
unfolding str_eq
empty_name [] [] h k = absurd (cc (sym h ∙ k))
empty_name [] (x ∷ t) h k = refl
empty_name (x ∷ s) t h k = cc h

module _ (c : EtherscanCodec) (address : Str) where
  abbrev pub is_received : TokenTx → Bool
  is_received it = str_eq (map lower (or_default it.to [])) (map lower address)

  -- What a transfer moves, where its value is a number.
  abbrev pub moved : TokenTx → Option Decimal
  moved it = elim (decimals_of c address it) [
    | none ↦ none
    | some d ↦ elim (value_of c address it) [ none ↦ none | some n ↦ some (scaled n d) ]
  ]

  abbrev pub settle_by : Bool → Bool → Option Decimal → Decimal → Decimal
  settle_by same_token receives none a = a
  settle_by same_token receives (some v) a =
      if same_token then (if receives then decimal_add a v else decimal_sub a v) else a

  -- An account of one token, over the transfers in their order: it gains what the address receives of
  -- that token, and loses what the other transfers of it move.
  unfoldable pub settled : Str → List TokenTx → Decimal → Decimal
  settled key [] a = a
  settled key (it ∷ items) a =
      settled key items
        (settle_by (str_eq (contract_of c address it) key) (is_received it) (moved it) a)

  -- One turn of the loop, for one token.
  module _ (key : Str) (it : TokenTx) where
    abbrev named : Bool
    named = str_eq (contract_of c address it) key

    abbrev settle : Option Decimal → Decimal → Decimal
    settle o a = settle_by named (is_received it) o a

    with_value_gain :
        (d : ℕ) (o : Option ℤ) (es : List TokenEntry)
        → amount_in key (with_value c address d it o es)
          ≡ settle (elim o [ none ↦ none | some n ↦ some (scaled n d) ]) (amount_in key es)
    unfolding change_of
    with_value_gain d none es = refl
    with_value_gain d (some n) es =
        amount-changed key (fresh_entry (contract_of c address it) d it)
          (change_of c address it n d) refl es

    with_decimals_gain :
        (o : Option ℕ) (es es' : List TokenEntry)
        → with_decimals c address it o es ≡ ok es'
        → amount_in key es'
          ≡ settle
              (elim o [
                | none ↦ none
                | some d ↦ elim (value_of c address it) [ none ↦ none | some n ↦ some (scaled n d) ]
              ])
              (amount_in key es)
    with_decimals_gain none es es' h = absurd (err_not_ok h)
    with_decimals_gain (some d) es es' h =
        ap (amount_in key) (sym (ok_injective h)) ∙ with_value_gain d (value_of c address it) es

    unnamed : is_empty key ≡ false → is_empty (contract_of c address it) ≡ true → named ≡ false
    unnamed hk h = empty_name (contract_of c address it) key h hk

    not_named : (o : Option Decimal) (a : Decimal) → named ≡ false → a ≡ settle o a
    not_named none a h = refl
    not_named (some v) a h = rw h refl

    transfer_gain :
        (es es' : List TokenEntry)
        → is_empty key ≡ false
        → add_transfer c address it es ≡ ok es'
        → amount_in key es' ≡ settle (moved it) (amount_in key es)
    unfolding add_transfer
    transfer_gain es es' hk =
        if_by (λ x. x ≡ ok es' → amount_in key es' ≡ settle (moved it) (amount_in key es))
          (is_empty (contract_of c address it)) (ok es)
          (with_decimals c address it (decimals_of c address it) es)
          (λ e h.
            ap (amount_in key) (sym (ok_injective h))
            ∙ not_named (moved it) (amount_in key es) (unnamed hk e))
          (λ _ h. with_decimals_gain (decimals_of c address it) es es' h)

    transfer_Unique :
        (es es' : List TokenEntry) → Unique es → add_transfer c address it es ≡ ok es' → Unique es'
    unfolding add_transfer
    transfer_Unique es es' u =
        if_by (λ x. x ≡ ok es' → Unique es') (is_empty (contract_of c address it)) (ok es)
          (with_decimals c address it (decimals_of c address it) es)
          (λ _ h. rw (sym (ok_injective h)) u) (λ _ h. of_decimals (decimals_of c address it) h)
      where
        of_value : (d : ℕ) (o : Option ℤ) → Unique (with_value c address d it o es)
        of_value d none = u
        of_value d (some n) =
            Unique-added (fresh_entry (contract_of c address it) d it) (change_of c address it n d)
              es u

        of_decimals : (o : Option ℕ) → with_decimals c address it o es ≡ ok es' → Unique es'
        of_decimals none h = absurd (err_not_ok h)
        of_decimals (some d) h = rw (sym (ok_injective h)) (of_value d (value_of c address it))

  -- The whole loop.
  pub transfers_gain :
      (key : Str) (items : List TokenTx) (es final : List TokenEntry)
      → is_empty key ≡ false
      → add_transfers c address items es ≡ ok final
      → amount_in key final ≡ settled key items (amount_in key es)
  unfolding add_transfers settled
  transfers_gain key [] es final hk h = ap (amount_in key) (sym (ok_injective h))
  transfers_gain key (it ∷ items) es final hk h =
      of_step (add_transfer c address it es) refl h (λ next. transfers_gain key items next final hk)
    where
      of_step :
          (r : Result (List TokenEntry))
          → add_transfer c address it es ≡ r
          → elim r [ ok next ↦ add_transfers c address items next | err e ↦ err e ] ≡ ok final
          → ((next : List TokenEntry)
              → add_transfers c address items next ≡ ok final
              → amount_in key final ≡ settled key items (amount_in key next))
          → amount_in key final ≡ settled key (it ∷ items) (amount_in key es)
      of_step (err e) q k ih = absurd (err_not_ok k)
      of_step (ok next) q k ih =
          ih next k ∙ ap (settled key items) (transfer_gain key it es next hk q)

  pub transfers_Unique :
      (items : List TokenTx) (es final : List TokenEntry)
      → Unique es
      → add_transfers c address items es ≡ ok final
      → Unique final
  unfolding add_transfers
  transfers_Unique [] es final u h = rw (sym (ok_injective h)) u
  transfers_Unique (it ∷ items) es final u h =
      of_step (add_transfer c address it es) refl h (λ next. transfers_Unique items next final)
    where
      of_step :
          (r : Result (List TokenEntry))
          → add_transfer c address it es ≡ r
          → elim r [ ok next ↦ add_transfers c address items next | err e ↦ err e ] ≡ ok final
          → ((next : List TokenEntry)
              → Unique next
              → add_transfers c address items next ≡ ok final
              → Unique final)
          → Unique final
      of_step (err e) q k ih = absurd (err_not_ok k)
      of_step (ok next) q k ih = ih next (transfer_Unique [] it es next u q) k
