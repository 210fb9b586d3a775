-- ===== src/Tests/Endpoints.antt =====
-- The endpoints on wallets and alerts.
use mathlib.Core.List.{Permᴰ}
use crypto_intelligence_plat.Addresses.{
  checksum, hex_then_end, is_evm_address, remove_prefix, to_eip55, validate_address,
}
use crypto_intelligence_plat.Alerts.{delete_alert, update_alert}
use crypto_intelligence_plat.Base.{
  List, Str, [], arith, codes, count_where, length, lower, map, none, pos, refl, select, some,
  str_eq, true, upper, ℕ, ◌*◌, ◌==◌, ◌∷◌, ◌≡◌, ◌≢◌, ◌≤ℤ◌, ◌≤◌,
}
use crypto_intelligence_plat.Config.{default_settings}
use crypto_intelligence_plat.Endpoints.Agreement.{endpoints-eq-services, shown}
use crypto_intelligence_plat.Endpoints.Alerts.{delete_alert_route, get_alerts, patch_alert}
use crypto_intelligence_plat.Endpoints.Arranged.{DistinctOn, IsArranged}
use crypto_intelligence_plat.Endpoints.Pages.{
  AlertsNewestFirst, NewestFirst, alerts_asked, first_pages, items_of, lists-pages_cover,
  wallets_asked,
}
use crypto_intelligence_plat.Endpoints.Quota.{post_wallet-keeps_quota, wallets_of}
use crypto_intelligence_plat.Endpoints.Reads.{get_wallets, listed}
use crypto_intelligence_plat.Endpoints.Wallets.{
  delete_wallet_route, insert_unless_found, insert_wallet, patch_wallet, post_wallet,
}
use crypto_intelligence_plat.Exec.{ok}
use crypto_intelligence_plat.Models.{Alert, Db, Wallet}
use crypto_intelligence_plat.Models.Tables.{add_wallet}
use crypto_intelligence_plat.Schemas.{AlertUpdate, WalletUpdate, alert_out, wallet_out}
use crypto_intelligence_plat.Tests.Data.{toy_alert, toy_db, toy_nibble, toy_provider, wallet_of}
use crypto_intelligence_plat.Wallets.{delete_wallet, update_wallet}

abbrev other_address : Str
other_address = codes "0xde709f2102306220921060314715629080e2fb77"

-- User 1, who has one wallet, adds a second one.
second_wallet :
    length
      (post_wallet
        (default_settings [] [])
        toy_nibble
        toy_provider
        (ok tt)
        1
        (codes "ethereum")
        other_address
        none
        toy_db).1.wallets
    ≡ 3
unfolding post_wallet insert_wallet insert_unless_found validate_address is_evm_address hex_then_end
    to_eip55 checksum remove_prefix count_where select add_wallet str_eq lower upper
second_wallet = refl

post_wallet-keeps_quota_example :
    (pos (
        wallets_of
          (default_settings [] [])
          toy_nibble
          toy_provider
          1
          (post_wallet
            (default_settings [] [])
            toy_nibble
            toy_provider
            (ok tt)
            1
            (codes "ethereum")
            other_address
            none
            toy_db).1)
      ≤ℤ pos 20)
    × ((v : ℕ)
        → v ≢ 1
        → wallets_of
            (default_settings [] [])
            toy_nibble
            toy_provider
            v
            (post_wallet
              (default_settings [] [])
              toy_nibble
              toy_provider
              (ok tt)
              1
              (codes "ethereum")
              other_address
              none
              toy_db).1
          ≡ wallets_of (default_settings [] []) toy_nibble toy_provider v toy_db)
unfolding count_where
post_wallet-keeps_quota_example =
    post_wallet-keeps_quota (default_settings [] []) toy_nibble toy_provider (ok tt) 1
      (codes "ethereum") other_address none toy_db (omega arith)

abbrev rename : WalletUpdate
rename = record { label = some (codes "savings"); is_active = none }

abbrev raise_threshold : AlertUpdate
raise_threshold = record { is_active = none; threshold_amount = some (pos 200); note = none }

-- The wallet and the alert with the number 10 and 20 are those of user 1.
endpoints-eq-services_example :
    (patch_wallet 1 10 rename toy_db
      ≡ shown wallet_out (update_wallet 1 10 (some (codes "savings")) none toy_db))
    × (delete_wallet_route 1 10 toy_db ≡ shown (λ x. x) (delete_wallet 1 10 toy_db))
    × (patch_alert 1 10 raise_threshold toy_db
        ≡ shown alert_out (update_alert 1 10 none (some (pos 200)) none toy_db))
    × (delete_alert_route 1 10 toy_db ≡ shown (λ x. x) (delete_alert 1 10 toy_db))
endpoints-eq-services_example = endpoints-eq-services 1 10 rename raise_threshold toy_db

-- User 1 with two wallets, the newer one behind.
abbrev old_wallet : Wallet
old_wallet = record (wallet_of 10 1) { created_at = 5 }

abbrev new_wallet_row : Wallet
new_wallet_row = record (wallet_of 12 1) { created_at = 8 }

abbrev two_wallets : Db
two_wallets = record toy_db { wallets = old_wallet ∷ wallet_of 11 2 ∷ new_wallet_row ∷ [] }

abbrev newest_wallets : List Wallet
newest_wallets = new_wallet_row ∷ old_wallet ∷ []

wallets-IsArranged :
    IsArranged (λ (w : Wallet). w.created_at) (wallets_asked 1 true two_wallets) newest_wallets
unfolding select
wallets-IsArranged = (Permᴰ.swap refl refl, ((omega arith, tt), (tt, tt)))

wallets_sorted : (p : ℕ) → NewestFirst (λ rows. newest_wallets) 1 true two_wallets
wallets_sorted p = wallets-IsArranged

alerts-IsArranged :
    IsArranged (λ (a : Alert). a.created_at) (alerts_asked 1 two_wallets) (toy_alert ∷ [])
unfolding select
alerts-IsArranged = (Permᴰ.cons refl Permᴰ.nil, (tt, tt))

alerts_sorted : (p : ℕ) → AlertsNewestFirst (λ rows. toy_alert ∷ []) 1 two_wallets
alerts_sorted p = alerts-IsArranged

wallets_distinct : DistinctOn (λ (w : Wallet). w.created_at) (wallets_asked 1 true two_wallets)
unfolding select
wallets_distinct = (((λ e. ground arith), tt), (tt, tt))

alerts_distinct : DistinctOn (λ (a : Alert). a.created_at) (alerts_asked 1 two_wallets)
unfolding select
alerts_distinct = (tt, tt)

wallets_fit : count_where (listed 1 true) two_wallets.wallets ≤ 2 * 1
unfolding count_where
wallets_fit = omega arith

alerts_fit : count_where (λ (a : Alert). a.user_id == 1) two_wallets.alerts ≤ 2 * 1
unfolding count_where
alerts_fit = omega arith

lists-pages_cover_example :
    (first_pages
        (λ p.
          items_of
            (get_wallets
              (λ rows. newest_wallets)
              1
              (record { page = p; page_size = 1 })
              true
              two_wallets).0)
        2
      ≡ map wallet_out newest_wallets)
    × (first_pages
          (λ p.
            items_of
              (get_alerts
                (λ rows. toy_alert ∷ [])
                1
                (record { page = p; page_size = 1 })
                two_wallets).0)
          2
        ≡ map alert_out (toy_alert ∷ []))
lists-pages_cover_example =
    lists-pages_cover 1 1 2 true two_wallets (λ p rows. newest_wallets) (λ p rows. toy_alert ∷ [])
      newest_wallets (toy_alert ∷ []) wallets_distinct alerts_distinct wallets_sorted alerts_sorted
      wallets_fit alerts_fit wallets-IsArranged alerts-IsArranged
