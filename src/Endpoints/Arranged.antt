-- ===== src/Endpoints/Arranged.antt =====
-- How a database may arrange the rows of a query by a key, the highest first.
use mathlib.Core.List.{Permᴰ}
use mathlib.Core.List.Permᴰ
use mathlib.Core.Path.{subst, ap₂}
use crypto_intelligence_plat.Base.{
  All, List, [], ap, arith, inl, inr, length, refl, suc, sym, ℕ, ◌<◌, ◌∙◌, ◌∷◌, ◌≡◌, ◌≢◌, ◌≤◌, ◌⊎◌,
}

module _ {A : Type 0} (key : A → ℕ) where
  abbrev pub Descending : List A → Type 0
  Descending [] = Unit
  Descending (x ∷ xs) = All (λ y. key y ≤ key x) xs × Descending xs

  -- All the rows, in descending order; what stands between equal keys is open.
  abbrev pub IsArranged : List A → List A → Type 0
  IsArranged rows ys = Permᴰ rows ys × Descending ys

  -- No two rows have the same key.
  abbrev pub DistinctOn : List A → Type 0
  DistinctOn [] = Unit
  DistinctOn (x ∷ xs) = All (λ y. key y ≢ key x) xs × DistinctOn xs

  abbrev Falling : List A → Type 0
  Falling [] = Unit
  Falling (x ∷ xs) = All (λ y. key y < key x) xs × Falling xs

  All-perm : (P : A → Type 0) {xs ys : List A} → Permᴰ xs ys → All P xs → All P ys
  All-perm P Permᴰ.nil h = tt
  All-perm P (Permᴰ.cons e p) h = (rw (← e) h.0, All-perm P p h.1)
  All-perm P (Permᴰ.swap e f) h = (rw (← f) h.1.0, (rw (← e) h.0, h.1.1))
  All-perm P (Permᴰ.trans p q) h = All-perm P q (All-perm P p h)

  pub length-perm : {xs ys : List A} → Permᴰ xs ys → length xs ≡ length ys
  length-perm Permᴰ.nil = refl
  length-perm (Permᴰ.cons e p) = ap suc (length-perm p)
  length-perm (Permᴰ.swap e f) = refl
  length-perm (Permᴰ.trans p q) = length-perm p ∙ length-perm q

  apart_from :
      {a b : A} (e : a ≡ b) (ys : List A)
      → All (λ y. key y ≢ key a) ys
      → All (λ y. key y ≢ key b) ys
  apart_from e ys h = subst (λ x. All (λ y. key y ≢ key x) ys) e h

  DistinctOn-perm : {xs ys : List A} → Permᴰ xs ys → DistinctOn xs → DistinctOn ys
  DistinctOn-perm Permᴰ.nil h = tt
  DistinctOn-perm (Permᴰ.cons {a = a} {b = b} e p) h =
      (apart_from e _ (All-perm (λ y. key y ≢ key a) p h.0), DistinctOn-perm p h.1)
  DistinctOn-perm (Permᴰ.swap {l = l} e f) h = (
    ((λ q. h.0.0 (ap key f ∙ sym q ∙ ap key (sym e))), apart_from f l h.1.0),
    (apart_from e l h.0.1, h.1.1),
  )
  DistinctOn-perm (Permᴰ.trans p q) h = DistinctOn-perm q (DistinctOn-perm p h)

  falls :
      (x : A) (ys : List A)
      → All (λ y. key y ≤ key x) ys
      → All (λ y. key y ≢ key x) ys
      → All (λ y. key y < key x) ys
  falls x [] h d = tt
  falls x (y ∷ ys) h d = (below h.0 d.0, falls x ys h.1 d.1)
    where
      below : key y ≤ key x → key y ≢ key x → key y < key x
      below le ne = ground arith

  Falling-lem : (ys : List A) → Descending ys → DistinctOn ys → Falling ys
  Falling-lem [] h d = tt
  Falling-lem (y ∷ ys) h d = (falls y ys h.0 d.0, Falling-lem ys h.1 d.1)

  All-imp : {P Q : A → Type 0} (xs : List A) → ((x : A) → P x → Q x) → All P xs → All Q xs
  All-imp [] f h = tt
  All-imp (x ∷ xs) f h = (f x h.0, All-imp xs f h.1)

  modus : (P Q : A → Type 0) (xs : List A) → All (λ x. Q x → P x) xs → All Q xs → All P xs
  modus P Q [] f h = tt
  modus P Q (x ∷ xs) f h = (f.0 h.0, modus P Q xs f.1 h.1)

  -- Every property of all members of the one list is one of all members of the other.
  abbrev Within : List A → List A → Type 1
  Within xs ys = (P : A → Type 0) → All P xs → All P ys

  tails :
      (x y : A) (xs ys : List A)
      → y ≡ x
      → All (λ z. key z < key y) ys
      → Within (x ∷ xs) (y ∷ ys)
      → Within xs ys
  tails x y xs ys e low w P h =
      modus P (λ z. key z < key y) ys
        (w (λ z. key z < key y → P z)
          ((λ q. absurd (omega (arith, q, ap key e))), All-imp xs (λ z p q. p) h)).1
        low

  heads :
      (x y : A) (xs ys : List A)
      → All (λ z. key z < key x) xs
      → All (λ z. key z < key y) ys
      → Within (x ∷ xs) (y ∷ ys)
      → Within (y ∷ ys) (x ∷ xs)
      → y ≡ x
  heads x y xs ys lx ly w v =
      same_head (w (λ z. (z ≡ x) ⊎ (key z < key x)) (inl refl, All-imp xs (λ z q. inr q) lx)).0
        (v (λ z. key z ≤ key y) (omega arith, All-imp ys (λ z q. omega arith) ly)).0
    where
      same_head : (y ≡ x) ⊎ (key y < key x) → key x ≤ key y → y ≡ x
      same_head (inl e) le = e
      same_head (inr lt) le = absurd (omega arith)

  one_order : (xs ys : List A) → Falling xs → Falling ys → Within xs ys → Within ys xs → xs ≡ ys
  one_order [] [] fx fy w v = refl
  one_order [] (y ∷ ys) fx fy w v = let h : 1 ≤ 0 = (w (λ _. 1 ≤ 0) tt).0 in absurd (omega arith)
  one_order (x ∷ xs) [] fx fy w v = let h : 1 ≤ 0 = (v (λ _. 1 ≤ 0) tt).0 in absurd (omega arith)
  one_order (x ∷ xs) (y ∷ ys) fx fy w v =
      let e = heads x y xs ys fx.0 fy.0 w v in
      ap₂ ◌∷◌ (sym e)
        (one_order xs ys fx.1 fy.1 (tails x y xs ys e fy.0 w) (tails y x ys xs (sym e) fx.0 v))

  -- Rows with different keys have one arrangement.
  pub arranged_once :
      (rows xs ys : List A) → DistinctOn rows → IsArranged rows xs → IsArranged rows ys → xs ≡ ys
  arranged_once rows xs ys d (p, hx) (q, hy) =
      one_order xs ys (Falling-lem xs hx (DistinctOn-perm p d))
        (Falling-lem ys hy (DistinctOn-perm q d))
        (λ P h. All-perm P (Permᴰ.trans (Permᴰ.symm p) q) h)
        (λ P h. All-perm P (Permᴰ.trans (Permᴰ.symm q) p) h)
