-- ===== src/Alerts/Firing.antt =====
-- When an alert fires, and that it fires once for a transaction.
use crypto_intelligence_plat.Alerts.{
  activity, fires, incoming_above, outgoing_above, reaches, token_transfer,
}
use crypto_intelligence_plat.Base.{
  Bool, Option, Str, arith, codes, false, if◌then◌else◌, inl, inr, is_some, none, refl, some,
  str_eq, str_eq_sound, true, ℤ, ◌&&◌, ◌||◌, ◌↔◌, ◌≡◌, ◌≤ℤ◌, ◌⊎◌,
}
use crypto_intelligence_plat.Models.{Alert, Transaction}

-- What the kinds of alert promise, each by itself.
pub data Applies (a : Alert) (t : Transaction) : Type 0 where
  incoming :
      {x : ℤ}
      → a.kind ≡ incoming_above
      → t.direction ≡ codes "in"
      → a.threshold_amount ≡ some x
      → x ≤ℤ t.native_amount
      → Applies a t
  outgoing :
      {x : ℤ}
      → a.kind ≡ outgoing_above
      → t.direction ≡ codes "out"
      → a.threshold_amount ≡ some x
      → x ≤ℤ t.native_amount
      → Applies a t
  any_activity : a.kind ≡ activity → Applies a t
  token : {c : Str} → a.kind ≡ token_transfer → t.token_contract ≡ some c → Applies a t

-- The chain on Booleans: which tests have passed when it says yes.
chain : (kin din kout dout act tok reach contract : Bool) → Bool
chain kin din kout dout act tok reach contract =
    if kin && din || (kout && dout)
    then reach
    else if act
    then true
    else if tok
    then contract
    else false

abbrev Passed : (kin din kout dout act tok reach contract : Bool) → Type 0
Passed kin din kout dout act tok reach contract =
    (kin ≡ true) × (din ≡ true) × (reach ≡ true)
    ⊎ ((kout ≡ true) × (dout ≡ true) × (reach ≡ true))
    ⊎ (act ≡ true)
    ⊎ ((tok ≡ true) × (contract ≡ true))

chain-Passed :
    (kin din kout dout act tok reach contract : Bool)
    → chain kin din kout dout act tok reach contract ≡ true
    → Passed kin din kout dout act tok reach contract
unfolding chain
chain-Passed true true kout dout act tok true contract h = inl (refl, refl, refl)
chain-Passed kin din kout dout act tok reach contract h = ground arith

reaches-some :
    (threshold : Option ℤ) (amount : ℤ)
    → reaches threshold amount ≡ true
    → (x : ℤ) × (threshold ≡ some x) × (x ≤ℤ amount)
reaches-some none amount h = cc
reaches-some (some x) amount h = (x, refl, ground arith)

reaches_le : (x amount : ℤ) → x ≤ℤ amount → reaches (some x) amount ≡ true
reaches_le x amount h = ground arith

present : (c : Option Str) → is_some c ≡ true → (s : Str) × (c ≡ some s)
present none h = cc
present (some s) h = (s, refl)

fires-Applies : (a : Alert) (t : Transaction) → fires a t ≡ true → Applies a t
unfolding fires
fires-Applies a t h =
    elim (chain-Passed (str_eq a.kind incoming_above) (str_eq t.direction (codes "in"))
      (str_eq a.kind outgoing_above) (str_eq t.direction (codes "out")) (str_eq a.kind activity)
      (str_eq a.kind token_transfer) (reaches a.threshold_amount t.native_amount)
      (is_some t.token_contract) (unfold chain in h)) [
        | inl (k, d, r) ↦
            let (x, e, le) = reaches-some a.threshold_amount t.native_amount r in
            incoming (str_eq_sound a.kind _ k) (str_eq_sound t.direction _ d) e le
        | inr (inl (k, d, r)) ↦
            let (x, e, le) = reaches-some a.threshold_amount t.native_amount r in
            outgoing (str_eq_sound a.kind _ k) (str_eq_sound t.direction _ d) e le
        | inr (inr (inl k)) ↦ any_activity (str_eq_sound a.kind _ k)
        | inr (inr (inr (k, c))) ↦
            let (s, e) = present t.token_contract c in token (str_eq_sound a.kind _ k) e
      ]

Applies-fires : (a : Alert) (t : Transaction) → Applies a t → fires a t ≡ true
unfolding fires str_eq
Applies-fires a t (incoming {x} k d e le) = rw (k, d, e) (reaches_le x t.native_amount le)
Applies-fires a t (outgoing {x} k d e le) = rw (k, d, e) (reaches_le x t.native_amount le)
Applies-fires a t (any_activity k) = rw k
Applies-fires a t (token k e) = rw (k, e)

-- The chain of tests of `evaluate_alert_for_tx` says yes exactly where one of the kinds of alert
-- applies to the transaction.
pub fires-iff_Applies : (a : Alert) (t : Transaction) → (fires a t ≡ true) ↔ Applies a t
fires-iff_Applies a t = (fires-Applies a t, Applies-fires a t)
