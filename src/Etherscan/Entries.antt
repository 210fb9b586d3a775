-- ===== src/Etherscan/Entries.antt =====
-- The entries that apps/api/app/providers/etherscan.py adds the transfers of tokens up in.
use crypto_intelligence_plat.Base.{
  All, Bool, Decimal, List, Str, [], all, and_true, ap, false, if_by, if◌then◌else◌, no_amount, not,
  not-true, refl, str_eq, str_eq_comm, str_eq_refl, str_eq_sound, sym, true, ◌&&◌, ◌∙◌, ◌∷◌, ◌≡◌,
}
use crypto_intelligence_plat.Etherscan.Holdings.{TokenEntry, add_to_entry}

-- The amount that stands for a token, 0 where there is no entry.
abbrev pub amount_in : Str → List TokenEntry → Decimal
amount_in key [] = no_amount
amount_in key (e ∷ es) = if str_eq e.contract key then e.amount else amount_in key es

module _ (key : Str) (fresh : TokenEntry) (change : Decimal → Decimal)
    (starts : fresh.amount ≡ no_amount) where
  no_entry :
      (b : Bool)
      → (if b then change fresh.amount else no_amount) ≡ (if b then change no_amount else no_amount)
  no_entry true = ap change starts
  no_entry false = refl

  this_entry :
      (b c : Bool) (a old : Decimal)
      → b ≡ c
      → (if b then change a else old)
        ≡ (if c then change (if b then a else old) else (if b then a else old))
  this_entry true true a old h = refl
  this_entry false false a old h = refl
  this_entry true false a old h = cc h
  this_entry false true a old h = cc h

  other_entry :
      (b c : Bool) (a old new : Decimal)
      → (b ≡ true → c ≡ false)
      → new ≡ (if c then change old else old)
      → (if b then a else new)
        ≡ (if c then change (if b then a else old) else (if b then a else old))
  other_entry true true a old new h k = cc (h refl)
  other_entry true false a old new h k = refl
  other_entry false c a old new h k = k

  distinct_keys : (s t : Str) → str_eq s t ≡ false → str_eq s key ≡ true → str_eq t key ≡ false
  distinct_keys s t h k = of_test (str_eq t key) refl
    where
      of_test : (b : Bool) → str_eq t key ≡ b → b ≡ false
      of_test false e = refl
      of_test true e = cc (sym h ∙ ap (str_eq s) (str_eq_sound t key e) ∙ k)

  pub amount-changed :
      (es : List TokenEntry)
      → amount_in key (add_to_entry fresh change es)
        ≡ (if str_eq fresh.contract key then change (amount_in key es) else amount_in key es)
  unfolding add_to_entry
  amount-changed [] = no_entry (str_eq fresh.contract key)
  amount-changed (e ∷ es) = of_test (str_eq e.contract fresh.contract) refl (amount-changed es)
    where
      of_test :
          (b : Bool)
          → str_eq e.contract fresh.contract ≡ b
          → amount_in key (add_to_entry fresh change es)
            ≡ (if str_eq fresh.contract key then change (amount_in key es) else amount_in key es)
          → amount_in key (
              if b
              then record e { amount = change e.amount } ∷ es
              else e ∷ add_to_entry fresh change es)
            ≡ (if str_eq fresh.contract key
                then change (amount_in key (e ∷ es))
                else amount_in key (e ∷ es))
      of_test true h ih =
          this_entry (str_eq e.contract key) (str_eq fresh.contract key) e.amount (amount_in key es)
            (ap (λ s. str_eq s key) (str_eq_sound e.contract fresh.contract h))
      of_test false h ih =
          other_entry (str_eq e.contract key) (str_eq fresh.contract key) e.amount
            (amount_in key es) (amount_in key (add_to_entry fresh change es))
            (distinct_keys e.contract fresh.contract h) ih

-- No two entries for one token.
abbrev absent : Str → List TokenEntry → Bool
absent key es = all (λ (e : TokenEntry). not (str_eq e.contract key)) es

abbrev pub Unique : List TokenEntry → Type 0
Unique [] = Unit
Unique (e ∷ es) = (absent e.contract es ≡ true) × Unique es

and_not : (a b : Bool) → a ≡ true → b ≡ false → (not b && a) ≡ true
and_not a b ha hb = rw (ha, hb) refl

other_name : (s t : Str) → str_eq s t ≡ false → str_eq t s ≡ false
other_name s t h = str_eq_comm t s ∙ h

module _ (fresh : TokenEntry) (change : Decimal → Decimal) where
  absent-added :
      (key : Str) (es : List TokenEntry)
      → absent key es ≡ true
      → str_eq fresh.contract key ≡ false
      → absent key (add_to_entry fresh change es) ≡ true
  unfolding add_to_entry
  absent-added key [] h k = and_not true (str_eq fresh.contract key) refl k
  absent-added key (e ∷ es) h k =
      let (he, hes) = and_true (not (str_eq e.contract key)) (absent key es) h in
      if_by (λ xs. absent key xs ≡ true) (str_eq e.contract fresh.contract) _ _ (λ _. h)
        (λ _. rw (he, absent-added key es hes k) refl)

  pub Unique-added : (es : List TokenEntry) → Unique es → Unique (add_to_entry fresh change es)
  unfolding add_to_entry
  Unique-added [] u = (refl, tt)
  Unique-added (e ∷ es) u =
      if_by Unique (str_eq e.contract fresh.contract) _ _ (λ _. u)
        (λ h. (
          absent-added e.contract es u.0 (other_name e.contract fresh.contract h),
          Unique-added es u.1,
        ))

-- Every entry is the one that is found for its token.
abbrev pub IsFound : List TokenEntry → TokenEntry → Type 0
IsFound es x = amount_in x.contract es ≡ x.amount

IsFound-behind :
    (e : TokenEntry) (es ys : List TokenEntry)
    → absent e.contract ys ≡ true
    → All (IsFound es) ys
    → All (IsFound (e ∷ es)) ys
IsFound-behind e es [] h k = tt
IsFound-behind e es (y ∷ ys) h k =
    let (hy, hys) = and_true (not (str_eq y.contract e.contract)) (absent e.contract ys) h in
    (
      ap (λ b. if b then e.amount else amount_in y.contract es)
            (other_name y.contract e.contract (not-true (str_eq y.contract e.contract) hy))
          ∙ k.0,
      IsFound-behind e es ys hys k.1,
    )

pub All-IsFound : (es : List TokenEntry) → Unique es → All (IsFound es) es
All-IsFound [] u = tt
All-IsFound (e ∷ es) u = (
  ap (λ b. if b then e.amount else amount_in e.contract es) (str_eq_refl e.contract),
  IsFound-behind e es es u.0 (All-IsFound es u.1),
)
