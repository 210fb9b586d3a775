-- ===== src/Endpoints/Pages.antt =====
-- Walking through the pages of the lists of apps/api/app/api/v1.
use mathlib.Core.Path.{ap₂}
use crypto_intelligence_plat.Base.{
  Bool, List, [], ap, arith, count_where, count_where-eq-length-select, drop, length, map, refl,
  select, suc, sym, take, zero, ℕ, ◌*◌, ◌++◌, ◌+◌, ◌-◌, ◌==◌, ◌∙◌, ◌∷◌, ◌≡◌, ◌≤◌,
}
use crypto_intelligence_plat.Deps.{offset}
use crypto_intelligence_plat.Endpoints.{page_of}
use crypto_intelligence_plat.Endpoints.Alerts.{get_alerts}
use crypto_intelligence_plat.Endpoints.Arranged.{DistinctOn, IsArranged, arranged_once, length-perm}
use crypto_intelligence_plat.Endpoints.Reads.{get_wallets, listed}
use crypto_intelligence_plat.Exec.{Result, err, ok}
use crypto_intelligence_plat.Models.{Alert, Db, Wallet}
use crypto_intelligence_plat.Schemas.{Page, alert_out, wallet_out}

-- The pages from the first to the `k`-th, one behind the other.
abbrev pub first_pages : {B : Type 0} → (ℕ → List B) → ℕ → List B
first_pages page zero = []
first_pages page (suc k) = first_pages page k ++ page (suc k)

suc_front : (m n : ℕ) → suc (m + n) ≡ suc m + n
suc_front m n = omega arith

module _ {A : Type 0} where
  take-nil : (n : ℕ) → take n (let e : List A = [] in e) ≡ []
  take-nil zero = refl
  take-nil (suc n) = refl

  take_add : (m n : ℕ) (xs : List A) → take m xs ++ take n (drop m xs) ≡ take (m + n) xs
  take_add zero n xs = ap (λ k. take k xs) (omega arith)
  take_add (suc m) n [] = take-nil n ∙ sym (take-nil (suc m + n))
  take_add (suc m) n (x ∷ xs) =
      ap (λ t. x ∷ t) (take_add m n xs) ∙ ap (λ k. take k (x ∷ xs)) (suc_front m n)

  take_all : (n : ℕ) (xs : List A) → length xs ≤ n → take n xs ≡ xs
  take_all zero [] h = refl
  take_all zero (x ∷ xs) h = absurd (omega arith)
  take_all (suc n) [] h = refl
  take_all (suc n) (x ∷ xs) h = ap (λ t. x ∷ t) (take_all n xs (omega arith))

no_pages : (n : ℕ) → 0 ≡ 0 * n
no_pages n = grind arith

earlier : (k n : ℕ) → (suc k - 1) * n ≡ k * n
earlier k n = ap (λ j. j * n) (omega arith)

one_more_page : (k n : ℕ) → k * n + n ≡ suc k * n
one_more_page k n = grind arith

module _ {A B : Type 0} (show : A → B) where
  map-take : (n : ℕ) (xs : List A) → map show (take n xs) ≡ take n (map show xs)
  map-take zero xs = refl
  map-take (suc n) [] = refl
  map-take (suc n) (x ∷ xs) = ap (λ t. show x ∷ t) (map-take n xs)

  map-drop : (n : ℕ) (xs : List A) → map show (drop n xs) ≡ drop n (map show xs)
  map-drop zero xs = refl
  map-drop (suc n) [] = refl
  map-drop (suc n) (x ∷ xs) = map-drop n xs

  pages_take :
      (n k : ℕ) (xs : List A)
      → first_pages
          (λ p. map show (take n (drop (offset (record { page = p; page_size = n })) xs)))
          k
        ≡ take (k * n) (map show xs)
  pages_take n zero xs = ap (λ k. take k (map show xs)) (no_pages n)
  pages_take n (suc k) xs =
      ap (λ t. t ++ map show (take n (drop ((suc k - 1) * n) xs))) (pages_take n k xs)
      ∙ ap (λ t. take (k * n) (map show xs) ++ t)
          (map-take n (drop ((suc k - 1) * n) xs)
            ∙ ap (take n) (map-drop ((suc k - 1) * n) xs)
            ∙ ap (λ j. take n (drop j (map show xs))) (earlier k n))
      ∙ take_add (k * n) n (map show xs)
      ∙ ap (λ j. take j (map show xs)) (one_more_page k n)

  length-map : (xs : List A) → length (map show xs) ≡ length xs
  length-map [] = refl
  length-map (x ∷ xs) = omega (arith, length-map xs)

first_pages_same :
    {B : Type 0} (f g : ℕ → List B) (k : ℕ)
    → ((p : ℕ) → f p ≡ g p)
    → first_pages f k ≡ first_pages g k
first_pages_same f g zero same = refl
first_pages_same f g (suc k) same = ap₂ ◌++◌ (first_pages_same f g k same) (same (suc k))

-- The pages of a query, whatever each request makes of the order of its rows, are the one arrangement
-- of them.
module _ {A B : Type 0} (show : A → B) (wanted : A → Bool) (key : A → ℕ) (rows : List A) where
  pages_cover :
      (orders : ℕ → List A → List A) (ys : List A) (n k : ℕ)
      → DistinctOn key (select wanted rows)
      → ((p : ℕ) → IsArranged key (select wanted rows) (orders p (select wanted rows)))
      → IsArranged key (select wanted rows) ys
      → count_where wanted rows ≤ k * n
      → first_pages
          (λ p. (page_of wanted (orders p) show (record { page = p; page_size = n }) rows).items)
          k
        ≡ map show ys
  pages_cover orders ys n k distinct arranged whole enough =
      first_pages_same
        (λ p. (page_of wanted (orders p) show (record { page = p; page_size = n }) rows).items)
        (λ p. map show (take n (drop (offset (record { page = p; page_size = n })) ys))) k
        (λ p.
          ap (λ zs. map show (take n (drop (offset (record { page = p; page_size = n })) zs)))
            (arranged_once key (select wanted rows) (orders p (select wanted rows)) ys distinct
              (arranged p) whole))
      ∙ pages_take show n k ys
      ∙ take_all (k * n) (map show ys) (
          omega (
            arith,
            length-map show ys,
            length-perm key whole.0,
            count_where-eq-length-select wanted rows,
            enough,
          ))

abbrev pub items_of : {A : Type 0} → Result (Page A) → List A
items_of (ok p) = p.items
items_of (err _) = []

-- The wallets of `GET /wallets`, and the alerts of `GET /alerts`.
abbrev pub wallets_asked : ℕ → Bool → Db → List Wallet
wallets_asked user_id active_only s = select (listed user_id active_only) s.wallets

abbrev pub alerts_asked : ℕ → Db → List Alert
alerts_asked user_id s = select (λ (a : Alert). a.user_id == user_id) s.alerts

abbrev pub NewestFirst : (List Wallet → List Wallet) → ℕ → Bool → Db → Type 0
NewestFirst order user_id active_only s =
    IsArranged (λ (w : Wallet). w.created_at) (wallets_asked user_id active_only s)
      (order (wallets_asked user_id active_only s))

abbrev pub AlertsNewestFirst : (List Alert → List Alert) → ℕ → Db → Type 0
AlertsNewestFirst order user_id s =
    IsArranged (λ (a : Alert). a.created_at) (alerts_asked user_id s)
      (order (alerts_asked user_id s))

-- If no two of the wallets and no two of the alerts asked for were created at the same time, and the
-- database gives the rows of each request newest first, then with pages of any one size, so many that
-- the size times their number reaches the number of these rows, the pages of `GET /wallets` and of
-- `GET /alerts` are, one behind the other, each of these rows once, newest first: any arrangement of
-- them in that order, `ws` and `as_found`.
pub lists-pages_cover :
    (user_id n k : ℕ) (active_only : Bool) (s : Db) (orders : ℕ → List Wallet → List Wallet)
    (alert_orders : ℕ → List Alert → List Alert) (ws : List Wallet) (as_found : List Alert)
    → DistinctOn (λ (w : Wallet). w.created_at) (wallets_asked user_id active_only s)
    → DistinctOn (λ (a : Alert). a.created_at) (alerts_asked user_id s)
    → ((p : ℕ) → NewestFirst (orders p) user_id active_only s)
    → ((p : ℕ) → AlertsNewestFirst (alert_orders p) user_id s)
    → count_where (listed user_id active_only) s.wallets ≤ k * n
    → count_where (λ (a : Alert). a.user_id == user_id) s.alerts ≤ k * n
    → IsArranged (λ (w : Wallet). w.created_at) (wallets_asked user_id active_only s) ws
    → IsArranged (λ (a : Alert). a.created_at) (alerts_asked user_id s) as_found
    → (first_pages
          (λ p.
            items_of
              (get_wallets (orders p) user_id (record { page = p; page_size = n }) active_only s).0)
          k
        ≡ map wallet_out ws)
      × (first_pages
            (λ p.
              items_of
                (get_alerts (alert_orders p) user_id (record { page = p; page_size = n }) s).0)
            k
          ≡ map alert_out as_found)
unfolding get_wallets get_alerts
lists-pages_cover user_id n k active_only s orders alert_orders ws as_found dw da newest
      newest_alerts fit fit_alerts whole whole_alerts =
    (
      pages_cover wallet_out (listed user_id active_only) (λ w. w.created_at) s.wallets orders ws n
          k dw newest whole fit,
      pages_cover alert_out (λ a. a.user_id == user_id) (λ a. a.created_at) s.alerts alert_orders
          as_found n k da newest_alerts whole_alerts fit_alerts,
    )
