-- ===== src/Etherscan/Net.antt =====
-- The amounts of tokens that apps/api/app/providers/etherscan.py finds, against the sums of the transfers.
use crypto_intelligence_plat.Addresses.{is_evm_address, to_eip55}
use crypto_intelligence_plat.Base.{
  All, All-map_of, List, Str, [], ap, codes, false, if_by, is_empty, leb_ℤ, no_amount, or_default,
  pos, refl, some, sym, ℕ, ◌∙◌, ◌∷◌, ◌≡◌,
}
use crypto_intelligence_plat.Etherscan.{EtherscanCodec, TokenTx}
use crypto_intelligence_plat.Etherscan.Entries.{All-IsFound, IsFound}
use crypto_intelligence_plat.Etherscan.Gains.{settled, transfers_Unique, transfers_gain}
use crypto_intelligence_plat.Etherscan.Holdings.{
  TokenEntry, add_transfers, fetch_token_holdings, holdings_of, of_entries, of_items, with_holding,
}
use crypto_intelligence_plat.Exec.{Result, err, err_not_ok, ok, ok_injective}
use crypto_intelligence_plat.Shared.{Holding}
use crypto_intelligence_plat.Tokens.{JsonFields, lookup, null}

has_name : (nibble : Str → ℕ → ℕ) (s t : Str) → to_eip55 nibble s ≡ ok t → is_empty s ≡ false
unfolding to_eip55 is_evm_address
has_name nibble [] t h = absurd (err_not_ok h)
has_name nibble (x ∷ s) t h = refl

module _ (c : EtherscanCodec) (address : Str) where
  module _ (nibble : Str → ℕ → ℕ) (items : List TokenTx) where
    -- A holding is of a token, and has what the account of that token comes to.
    pub record IsNet (h : Holding) : Type 0 where
      pub key : Str
      pub token : to_eip55 nibble key ≡ ok h.contract
      pub balanced : h.amount ≡ settled c address key items no_amount
      pub positive : leb_ℤ h.amount.coef (pos 0) ≡ false

    with_holding-IsNet :
        (e : TokenEntry) (r : Result Str) (q : Result (List Holding)) (hs : List Holding)
        → to_eip55 nibble e.contract ≡ r
        → (is_empty e.contract ≡ false → e.amount ≡ settled c address e.contract items no_amount)
        → leb_ℤ e.amount.coef (pos 0) ≡ false
        → ((rest : List Holding) → q ≡ ok rest → All IsNet rest)
        → with_holding c address e r q ≡ ok hs
        → All IsNet hs
    with_holding-IsNet e (err x) q hs t b p ih h = absurd (err_not_ok h)
    with_holding-IsNet e (ok contract) (err x) hs t b p ih h = absurd (err_not_ok h)
    with_holding-IsNet e (ok contract) (ok rest) hs t b p ih h = rw (sym (ok_injective h)) (
      record {
        key = e.contract;
        token = t;
        balanced = b (has_name nibble e.contract contract t);
        positive = p;
      },
      ih rest refl,
    )

    entries_IsNet :
        (es : List TokenEntry) (hs : List Holding)
        → All
            (λ e.
              is_empty e.contract ≡ false → e.amount ≡ settled c address e.contract items no_amount)
            es
        → holdings_of c address nibble es ≡ ok hs
        → All IsNet hs
    unfolding holdings_of
    entries_IsNet [] hs k h = rw (sym (ok_injective h)) tt
    entries_IsNet (e ∷ es) hs k h =
        if_by (λ x. x ≡ ok hs → All IsNet hs) (leb_ℤ e.amount.coef (pos 0))
          (holdings_of c address nibble es)
          (with_holding c address e (to_eip55 nibble e.contract) (holdings_of c address nibble es))
          (λ _ h'. entries_IsNet es hs k.1 h')
          (λ p h'.
            with_holding-IsNet e (to_eip55 nibble e.contract) (holdings_of c address nibble es) hs
              refl k.0 p (λ rest q. entries_IsNet es rest k.1 q) h')
          h

    final_net :
        (final : List TokenEntry)
        → add_transfers c address items [] ≡ ok final
        → All
            (λ e.
              is_empty e.contract ≡ false → e.amount ≡ settled c address e.contract items no_amount)
            final
    final_net final h =
        All-map_of (IsFound final)
          (λ e.
            is_empty e.contract ≡ false → e.amount ≡ settled c address e.contract items no_amount)
          (λ e f k. sym f ∙ transfers_gain c address e.contract items [] final k h) final
          (All-IsFound final (transfers_Unique c address items [] final tt h))

    of_entries-IsNet :
        (r : Result (List TokenEntry)) (hs : List Holding)
        → add_transfers c address items [] ≡ r
        → of_entries c address nibble r ≡ ok hs
        → All IsNet hs
    of_entries-IsNet (err x) hs q h = absurd (err_not_ok h)
    of_entries-IsNet (ok final) hs q h = entries_IsNet final hs (final_net final q) h

  -- Where the answer has a list of transfers, each token that is returned has, under the checksum form
  -- of its contract, the amount that an account of that token alone comes to over the transfers in
  -- their order, from 0, where what the address receives is added and what the other transfers of the
  -- token move is subtracted, in Decimal arithmetic of 28 digits; and that amount is positive.
  pub fetch_token_holdings-IsNet :
      (nibble : Str → ℕ → ℕ) (fs : JsonFields) (items : List TokenTx) (hs : List Holding)
      → c.token_items (or_default (lookup (codes "result") fs) null) ≡ some items
      → fetch_token_holdings c address nibble (ok fs) ≡ ok hs
      → All (IsNet nibble items) hs
  unfolding fetch_token_holdings
  fetch_token_holdings-IsNet nibble fs items hs q h =
      of_entries-IsNet nibble items (add_transfers c address items []) hs refl
        (sym (ap (of_items c address nibble) q) ∙ h)
