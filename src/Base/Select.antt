-- ===== src/Base/Select.antt =====
-- The queries of the program on a table kept as a list of rows: SELECT ... WHERE, COUNT, UPDATE,
-- DELETE, ORDER BY ... DESC and OFFSET/LIMIT.
use Prim.Native.Nat.{ℕ, suc, ◌+◌}
use mathlib.Core.Path.{◌≡◌, refl}
use mathlib.Core.Bool.{Bool, true}
use mathlib.Core.Option.{Option, none, some}
use mathlib.Core.List.{List, [], ◌∷◌, ◌++◌}
use native.Mathlib.Omega.{arith}
use crypto_intelligence_plat.Base.Tests.{if◌then◌else◌, ltb}
use crypto_intelligence_plat.Base.Lists.{length, take, drop, All}

module _ {ℓ} {A : Type ℓ} where
  unfoldable pub select : (A → Bool) → List A → List A
  select p [] = []
  select p (x ∷ xs) = let rest = select p xs in if p x then x ∷ rest else rest

  unfoldable pub count_where : (A → Bool) → List A → ℕ
  count_where p [] = 0
  count_where p (x ∷ xs) = let n = count_where p xs in if p x then suc n else n

  -- The first row, as `db.get` by primary key.
  unfoldable pub find : (A → Bool) → List A → Option A
  find p [] = none
  find p (x ∷ xs) = let rest = find p xs in if p x then some x else rest

  unfoldable pub update_where : (A → Bool) → (A → A) → List A → List A
  update_where p f [] = []
  update_where p f (x ∷ xs) = (if p x then f x else x) ∷ update_where p f xs

  unfoldable pub delete_where : (A → Bool) → List A → List A
  delete_where p [] = []
  delete_where p (x ∷ xs) = let rest = delete_where p xs in if p x then rest else x ∷ rest

  -- ORDER BY key DESC: insertion sort, where a later row with the same key stays behind.
  unfoldable pub insert_desc : (A → ℕ) → A → List A → List A
  insert_desc key x [] = x ∷ []
  insert_desc key x (y ∷ ys) =
      let rest = insert_desc key x ys in if ltb (key x) (key y) then y ∷ rest else x ∷ y ∷ ys

  unfoldable pub order_by_desc : (A → ℕ) → List A → List A
  unfolding insert_desc
  order_by_desc key [] = []
  order_by_desc key (x ∷ xs) = insert_desc key x (order_by_desc key xs)

  -- OFFSET ... LIMIT ...
  abbrev pub window : ℕ → ℕ → List A → List A
  window offset limit xs = take limit (drop offset xs)

  pub count_where-eq-length-select :
      (p : A → Bool) (xs : List A) → count_where p xs ≡ length (select p xs)
  unfolding count_where select
  count_where-eq-length-select p [] = refl
  count_where-eq-length-select p (x ∷ xs) = ground (arith, count_where-eq-length-select p xs)

  pub length-insert_desc :
      (key : A → ℕ) (x : A) (xs : List A) → length (insert_desc key x xs) ≡ suc (length xs)
  unfolding insert_desc
  length-insert_desc key x [] = refl
  length-insert_desc key x (y ∷ ys) = ground (arith, length-insert_desc key x ys)

  pub length-order_by_desc : (key : A → ℕ) (xs : List A) → length (order_by_desc key xs) ≡ length xs
  unfolding order_by_desc
  length-order_by_desc key [] = refl
  length-order_by_desc key (x ∷ xs) =
      omega (arith, length-insert_desc key x (order_by_desc key xs), length-order_by_desc key xs)

  -- What was deleted is not found.
  pub select-deleted : (p : A → Bool) (xs : List A) → select p (delete_where p xs) ≡ []
  unfolding select delete_where
  select-deleted p [] = refl
  select-deleted p (x ∷ xs) = ground (arith, select-deleted p xs)

  pub All-select : (p : A → Bool) (xs : List A) → All (λ x. p x ≡ true) (select p xs)
  unfolding select
  All-select p [] = tt
  All-select p (x ∷ xs) = ground (arith, All-select p xs)

  pub count_where-append :
      (p : A → Bool) (xs ys : List A)
      → count_where p (xs ++ ys) ≡ count_where p xs + count_where p ys
  unfolding count_where
  count_where-append p [] ys = omega arith
  count_where-append p (x ∷ xs) ys = ground (arith, count_where-append p xs ys)

module _ {ℓ κ} {A : Type ℓ} (P : A → Type κ) where
  pub All-insert_desc :
      (key : A → ℕ) (x : A) (xs : List A) → P x → All P xs → All P (insert_desc key x xs)
  unfolding insert_desc
  All-insert_desc key x [] h hs = (h, tt)
  All-insert_desc key x (y ∷ ys) h hs = ground (arith, All-insert_desc key x ys h hs.1)

  pub All-order_by_desc : (key : A → ℕ) (xs : List A) → All P xs → All P (order_by_desc key xs)
  unfolding order_by_desc
  All-order_by_desc key [] h = tt
  All-order_by_desc key (x ∷ xs) h =
      All-insert_desc key x (order_by_desc key xs) h.0 (All-order_by_desc key xs h.1)

  pub All-update_where :
      (p : A → Bool) (f : A → A)
      → ((x : A) → p x ≡ true → P x → P (f x))
      → (xs : List A) → All P xs
      → All P (update_where p f xs)
  unfolding update_where
  All-update_where p f keep [] h = tt
  All-update_where p f keep (x ∷ xs) h = ground (arith, keep x, All-update_where p f keep xs h.1)

  pub All-delete_where : (p : A → Bool) (xs : List A) → All P xs → All P (delete_where p xs)
  unfolding delete_where
  All-delete_where p [] h = tt
  All-delete_where p (x ∷ xs) h = ground (arith, All-delete_where p xs h.1)
