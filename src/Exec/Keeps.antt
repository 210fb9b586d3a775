-- ===== src/Exec/Keeps.antt =====
-- Actions that leave a part of the state alone, or keep an invariant, however they end.
use crypto_intelligence_plat.Exec.{Exec, Result, err, ok, raise, ◌>>=◌}

pub record Keeps {S A : Type 0} (P : S → Type 0) (m : Exec S A) : Type 0 where
  pub at : (s : S) → P s → P (m s).1

module _ {S A B : Type 0} {P : S → Type 0} where
  pub Keeps-bind :
      (m : Exec S A) (f : A → Exec S B) → Keeps P m → ((a : A) → Keeps P (f a)) → Keeps P (m >>= f)
  Keeps-bind m f km kf = record { at = λ s h. go (m s).0 (m s).1 (km.at s h) }
    where
      go :
          (r : Result A) (s : S)
          → P s
          → P (let b : Result B × S = elim r [ ok a ↦ f a s | err e ↦ raise e s ] in b.1)
      go (ok a) s h = (kf a).at s h
      go (err e) s h = h
