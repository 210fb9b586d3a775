-- ===== src/Endpoints/Wallets.antt =====
-- apps/api/app/api/v1/wallets.py: the endpoints that write.
use crypto_intelligence_plat.Addresses.{validate_address}
use crypto_intelligence_plat.Base.{
  Bool, List, Option, Str, count_where, is_some, leb_ℤ, none, not, pos, select, some, ℕ, ◌==◌,
}
use crypto_intelligence_plat.Config.{Settings}
use crypto_intelligence_plat.Endpoints.{request_session}
use crypto_intelligence_plat.Errors.{conflict_error, not_found_error}
use crypto_intelligence_plat.Exec.{
  Exec, Result, err, gets, lift, ok, one_or_none, pure, raise_if, required, ◌>>=◌, ◌>>◌,
}
use crypto_intelligence_plat.Models.{Db, Wallet}
use crypto_intelligence_plat.Models.Tables.{add_snapshot, add_wallet, remove_wallet, save_wallet}
use crypto_intelligence_plat.Provider.{Provider}
use crypto_intelligence_plat.Schemas.{
  WalletOut, WalletSnapshotOut, WalletUpdate, snapshot_out, wallet_out,
}
use crypto_intelligence_plat.Shared.{NormalizedAddress, WalletBalance}
use crypto_intelligence_plat.Wallets.{is_duplicate, new_snapshot, new_wallet}

-- `except Exception: balance = None`
abbrev pub any_balance : Result WalletBalance → Option WalletBalance
any_balance (ok b) = some b
any_balance (err e) = none

module _ (settings : Settings) (nibble : Str → ℕ → ℕ) (provider : Provider) where
  -- Behind the query for a duplicate.
  unfoldable pub insert_unless_found : ℕ → Str → Str → Option Str → List Wallet → Exec Db Wallet
  insert_unless_found user_id chain address label rows = do
    dup ← one_or_none rows
    raise_if (is_some dup) (conflict_error "wallet already exists for this user and chain")
    now ← gets (λ s. s.clock)
    add_wallet (
        new_wallet user_id chain address label (any_balance (provider.fetch_balance chain address))
          now)

  unfoldable pub insert_wallet : ℕ → Str → Option Str → NormalizedAddress → Exec Db Wallet
  unfolding insert_unless_found
  insert_wallet user_id chain label normalized = do
    rows ← gets (λ s. select (is_duplicate user_id chain normalized.address) s.wallets)
    insert_unless_found user_id chain normalized.address label rows

  unfoldable pub post_wallet : Result (Unit {0}) → ℕ → Str → Str → Option Str → Exec Db Wallet
  unfolding insert_wallet
  post_wallet limiter user_id chain address label = do
    lift limiter
    count ← gets (λ s. count_where (λ (w : Wallet). w.user_id == user_id) s.wallets)
    raise_if (leb_ℤ settings.max_wallets_per_user (pos count))
        (conflict_error "wallet quota exceeded")
    normalized ← lift (validate_address nibble chain address)
    insert_wallet user_id chain label normalized

-- `_get_owned_wallet` of the module: one error for a missing wallet and for another user's.
unfoldable pub owned_wallet : ℕ → ℕ → Exec Db Wallet
owned_wallet user_id wallet_id = do
  rows ← gets (λ s. select (λ (w : Wallet). w.id == wallet_id) s.wallets)
  found ← one_or_none rows
  wallet ← required found (not_found_error "wallet")
  raise_if (not (wallet.user_id == user_id)) (not_found_error "wallet")
  pure wallet

-- The assignments of `patch_wallet`, one after the other.
unfoldable pub assign_label : Option Str → Wallet → Wallet
assign_label none w = w
assign_label (some l) w = record w { label = some l }

unfoldable pub assign_active : Option Bool → Wallet → Wallet
assign_active none w = w
assign_active (some b) w = record w { is_active = b }

unfoldable pub assign_wallet : WalletUpdate → Wallet → Wallet
assign_wallet payload w = assign_active payload.is_active (assign_label payload.label w)

unfoldable pub patch_wallet : ℕ → ℕ → WalletUpdate → Exec Db WalletOut
unfolding owned_wallet
patch_wallet user_id wallet_id payload = request_session (do
  wallet ← owned_wallet user_id wallet_id
  save_wallet (assign_wallet payload wallet)
  pure (wallet_out (assign_wallet payload wallet)))

unfoldable pub delete_wallet_route : ℕ → ℕ → Exec Db (Unit {0})
unfolding owned_wallet
delete_wallet_route user_id wallet_id =
    request_session (do wallet ← owned_wallet user_id wallet_id; remove_wallet wallet.id)

-- The two calls of the provider; `except Exception` turns the first failure into a conflict.
abbrev pub conflict_of : {A : Type 0} → Result A → Result A
conflict_of (ok a) = ok a
conflict_of (err e) = err (conflict_error "snapshot failed")

unfoldable pub post_snapshot : Provider → Result (Unit {0}) → ℕ → ℕ → Exec Db WalletSnapshotOut
unfolding owned_wallet
post_snapshot provider limiter user_id wallet_id = request_session (do
  lift limiter
  wallet ← owned_wallet user_id wallet_id
  balance ← lift (conflict_of (provider.fetch_balance wallet.chain wallet.address))
  holdings ← lift (conflict_of (provider.fetch_token_holdings wallet.chain wallet.address))
  now ← gets (λ s. s.clock)
  snap ← add_snapshot (new_snapshot wallet.id now balance holdings)
  save_wallet (record wallet {
    last_native_amount = some balance.native_amount;
    last_total_usd = snap.total_usd;
    last_synced_at = some snap.taken_at;
  })
  pure (snapshot_out snap))
