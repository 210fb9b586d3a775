-- ===== src/Exec.antt =====
-- Methods that work on a state and may raise. The state comes back beside the error too: what was
-- written before a raise stays written until the session is rolled back.
pub mod Keeps
use crypto_intelligence_plat.Base.{
  Bool, List, Option, [], ap, false, if◌then◌else◌, none, refl, some, true, ◌∷◌, ◌≡◌,
}
use crypto_intelligence_plat.Errors.{Exn, multiple_results}

pub data Result (A : Type 0) : Type 0 where
  ok : A → Result A
  err : Exn → Result A

abbrev pub is_ok : {A : Type 0} → Result A → Bool
is_ok (ok _) = true
is_ok (err _) = false

abbrev pub Exec : Type 0 → Type 0 → Type 0
Exec S A = S → Result A × S

module _ {S A : Type 0} where
  abbrev pub pure : A → Exec S A
  pure a s = (ok a, s)

  abbrev pub raise : Exn → Exec S A
  raise e s = (err e, s)

  abbrev pub lift : Result A → Exec S A
  lift r s = (r, s)

  abbrev pub gets : (S → A) → Exec S A
  gets f s = (ok (f s), s)

infixl 5 ◌>>=◌ ◌>>◌
abbrev pub ◌>>=◌ : {S A B : Type 0} → Exec S A → (A → Exec S B) → Exec S B
◌>>=◌ m f s = let (r, s') = m s in elim r [ ok a ↦ f a s' | err e ↦ raise e s' ]

abbrev pub ◌>>◌ : {S A B : Type 0} → Exec S A → Exec S B → Exec S B
m >> k = m >>= λ _. k

abbrev pub modify : {S : Type 0} → (S → S) → Exec S (Unit {0})
modify f s = (ok tt, f s)

-- `if test: raise e`
abbrev pub raise_if : {S : Type 0} → Bool → Exn → Exec S (Unit {0})
raise_if c e s = (if c then err e else ok tt, s)

-- `scalar_one_or_none()` on the rows of a query
abbrev pub one_or_none : {S A : Type 0} → List A → Exec S (Option A)
one_or_none [] = pure none
one_or_none (x ∷ []) = pure (some x)
one_or_none _ = raise multiple_results

-- `if x is None: raise e`
abbrev pub required : {S A : Type 0} → Option A → Exn → Exec S A
required none e = raise e
required (some a) _ = pure a

module _ {S A B : Type 0} (m : Exec S A) (f : A → Exec S B) {s : S} where
  pub bind_ok : {a : A} {t : S} → m s ≡ (ok a, t) → (m >>= f) s ≡ f a t
  bind_ok e = ap (λ (p : Result A × S). elim p.0 [ ok a ↦ f a p.1 | err x ↦ raise x p.1 ]) e

  pub bind_err : {e : Exn} {t : S} → m s ≡ (err e, t) → (m >>= f) s ≡ (err e, t)
  bind_err e = ap (λ (p : Result A × S). elim p.0 [ ok a ↦ f a p.1 | err x ↦ raise x p.1 ]) e

-- What only returns a value leaves the state as it found it.
module _ {S A B : Type 0} (f : A → B) where
  result_state :
      (r : Result A) (t : S)
      → (let p : Result B × S = elim r [ ok a ↦ (ok (f a), t) | err e ↦ (err e, t) ] in p.1) ≡ t
  result_state (ok a) t = refl
  result_state (err e) t = refl

  pub state-return : (m : Exec S A) (s : S) → ((m >>= λ a. pure (f a)) s).1 ≡ (m s).1
  state-return m s = result_state (m s).0 (m s).1

-- What succeeded has succeeded at each step.
module _ {S A B : Type 0} (m : Exec S A) (f : A → Exec S B) (s : S) where
  pub bind_inv :
      is_ok ((m >>= f) s).0 ≡ true
      → (a : A) × (t : S) × (m s ≡ (ok a, t)) × (is_ok (f a t).0 ≡ true)
  bind_inv = of_run (m s).0 (m s).1
    where
      of_run :
          (r : Result A) (t : S)
          → is_ok (let p : Result B × S = elim r [ ok a ↦ f a t | err e ↦ raise e t ] in p.0) ≡ true
          → (a : A) × (u : S) × (◌≡◌ {A = Result A × S} (r, t) (ok a, u)) × (is_ok (f a u).0 ≡ true)
      of_run (ok a) t h = (a, t, refl, h)
      of_run (err e) t h = cc

-- The two outcomes are different, and say what they carry.
pub err_not_ok : {A : Type 0} {x : Exn} {a : A} → err x ≡ ok a → ⊥
err_not_ok h = cc h

pub ok_injective : {A : Type 0} {a b : A} → ok a ≡ ok b → a ≡ b
ok_injective h = cc h
