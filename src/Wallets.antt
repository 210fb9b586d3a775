-- ===== src/Wallets.antt =====
-- apps/api/app/services/wallets.py. The provider and Keccak are arguments.
pub mod Creation
pub mod Ownership
pub mod Isolation
use crypto_intelligence_plat.Addresses.{validate_address}
use crypto_intelligence_plat.Base.{
  Bool, List, Option, Str, [], codes, count_where, drop, if◌then◌else◌, is_some, length, min, none,
  not, or_default, order_by_desc, pos, pos_part, select, some, str_eq, suc, take, true, ℕ, ℤ, ◌&&◌,
  ◌*◌, ◌+ℤ◌, ◌-◌, ◌==◌, ◌∷◌,
}
use crypto_intelligence_plat.Errors.{
  ErrorClass, catches_provider, conflict_error, not_found_error, provider_error,
}
use crypto_intelligence_plat.Exec.{
  Exec, Result, err, gets, lift, ok, one_or_none, pure, raise, raise_if, required, ◌>>=◌, ◌>>◌,
}
use crypto_intelligence_plat.Models.{Db, TokenHolding, Transaction, Wallet, WalletSnapshot}
use crypto_intelligence_plat.Models.Tables.{add_snapshot, add_wallet, remove_wallet, save_wallet}
use crypto_intelligence_plat.Provider.{Provider}
use crypto_intelligence_plat.Shared.{Holding, WalletBalance}

-- `select(Wallet).where(...)` for a duplicate
abbrev pub is_duplicate : ℕ → Str → Str → Wallet → Bool
is_duplicate uid chain address w =
    (w.user_id == uid) && (str_eq w.chain chain && str_eq w.address address)

-- What `except ProviderError: balance = None` leaves; any other exception goes on.
abbrev pub tolerate : Result WalletBalance → Result (Option WalletBalance)
tolerate (ok b) = ok (some b)
tolerate (err e) = if catches_provider e then ok none else err e

abbrev pub symbol_of : Option WalletBalance → Str
symbol_of none = codes "ETH"
symbol_of (some b) = b.native_symbol

abbrev pub amount_of : Option WalletBalance → Option ℤ
amount_of none = none
amount_of (some b) = some b.native_amount

abbrev pub new_wallet : ℕ → Str → Str → Option Str → Option WalletBalance → ℕ → ℕ → Wallet
new_wallet uid chain address label balance now id = record {
  id = id;
  user_id = uid;
  chain = chain;
  address = address;
  address_type = codes "evm";
  label = label;
  native_symbol = symbol_of balance;
  is_active = true;
  last_synced_at = none;
  last_native_amount = amount_of balance;
  last_total_usd = none;
  last_risk_level = codes "low";
  created_at = now;
}

unfoldable pub create_wallet :
    (Str → ℕ → ℕ) → Provider → ℕ → Str → Str → Option Str → Exec Db Wallet
create_wallet nibble provider user_id chain address label = do
  normalized ← lift (validate_address nibble chain address)
  rows ← gets (λ s. select (is_duplicate user_id chain normalized.address) s.wallets)
  dup ← one_or_none rows
  raise_if (is_some dup) (conflict_error "wallet already exists for this user and chain")
  balance ← lift (tolerate (provider.fetch_balance chain normalized.address))
  now ← gets (λ s. s.clock)
  add_wallet (new_wallet user_id chain normalized.address label balance now)

-- A page of the rows of a user, newest first, and the number of all of them.
unfoldable pub list_wallets : ℕ → ℕ → ℕ → Exec Db (List Wallet × ℕ)
list_wallets user_id page page_size s =
    let mine = λ (w : Wallet). w.user_id == user_id in
    (
      ok (
        take page_size (
            drop ((page - 1) * page_size)
              (order_by_desc (λ w. w.created_at) (select mine s.wallets))),
        count_where mine s.wallets,
      ),
      s,
    )

-- The rows that the query found: `wallet.user_id != user_id` raises what a missing wallet raises.
unfoldable pub owned_of : ℕ → List Wallet → Exec Db Wallet
owned_of user_id rows = do
  found ← one_or_none rows
  wallet ← required found (not_found_error "wallet")
  raise_if (not (wallet.user_id == user_id)) (not_found_error "wallet")
  pure wallet

unfoldable pub get_owned_wallet : ℕ → ℕ → Exec Db Wallet
unfolding owned_of
get_owned_wallet user_id wallet_id = do
  rows ← gets (λ s. select (λ (w : Wallet). w.id == wallet_id) s.wallets)
  owned_of user_id rows

abbrev pub patched : Wallet → Option Str → Option Bool → Wallet
patched wallet label is_active = record wallet {
  label = elim label [ none ↦ wallet.label | some l ↦ some l ];
  is_active = or_default is_active wallet.is_active;
}

unfoldable pub update_wallet : ℕ → ℕ → Option Str → Option Bool → Exec Db Wallet
update_wallet user_id wallet_id label is_active = do
  wallet ← get_owned_wallet user_id wallet_id
  save_wallet (patched wallet label is_active)
  pure (patched wallet label is_active)

unfoldable pub delete_wallet : ℕ → ℕ → Exec Db (Unit {0})
delete_wallet user_id wallet_id = do
  wallet ← get_owned_wallet user_id wallet_id
  remove_wallet wallet.id

abbrev pub matches_direction : Option Str → Transaction → Bool
matches_direction none t = true
matches_direction (some d) t = if str_eq d [] then true else str_eq t.direction d

unfoldable pub list_transactions : ℕ → ℕ → ℕ → ℕ → Option Str → Exec Db (List Transaction × ℕ)
list_transactions user_id wallet_id page page_size direction = do
  wallet ← get_owned_wallet user_id wallet_id
  let wanted = λ (t : Transaction). (t.wallet_id == wallet.id) && matches_direction direction t
  rows ← gets (λ s. select wanted s.transactions)
  pure (
    take page_size (drop ((page - 1) * page_size) (order_by_desc (λ t. t.timestamp) rows)),
    length rows,
  )

-- `nullslast()` of a value that is never negative.
abbrev pub usd_key : Option ℤ → ℕ
usd_key none = 0
usd_key (some v) = suc (pos_part v)

abbrev pub holdings_in : ℕ → Db → List TokenHolding
holdings_in wallet_id s =
    order_by_desc (λ t. usd_key t.estimated_usd_value)
      (select (λ (t : TokenHolding). t.wallet_id == wallet_id) s.holdings)

unfoldable pub list_holdings : ℕ → ℕ → Exec Db (List TokenHolding)
list_holdings user_id wallet_id = do
  wallet ← get_owned_wallet user_id wallet_id
  gets (holdings_in wallet.id)

unfoldable pub list_snapshots : ℕ → ℕ → ℕ → Exec Db (List WalletSnapshot)
list_snapshots user_id wallet_id limit = do
  wallet ← get_owned_wallet user_id wallet_id
  rows ← gets (λ s. select (λ (x : WalletSnapshot). x.wallet_id == wallet.id) s.snapshots)
  pure (take (min limit 200) (order_by_desc (λ x. x.taken_at) rows))

-- `sum(h.estimated_usd_value or Decimal(0) for h in holdings)`
unfoldable pub tokens_total : List Holding → ℤ
tokens_total [] = pos 0
tokens_total (h ∷ hs) = or_default h.estimated_usd_value (pos 0) +ℤ tokens_total hs

abbrev pub new_snapshot : ℕ → ℕ → WalletBalance → List Holding → ℕ → WalletSnapshot
new_snapshot wid now balance holdings id = record {
  id = id;
  wallet_id = wid;
  taken_at = now;
  native_amount = balance.native_amount;
  native_usd_price = balance.native_usd_price;
  native_usd = balance.estimated_usd_value;
  tokens_usd = some (tokens_total holdings);
  total_usd = some (or_default balance.estimated_usd_value (pos 0) +ℤ tokens_total holdings);
  tokens_count = length holdings;
}

-- `except ProviderError as exc: raise ProviderError(...)`
abbrev pub snapshot_failure : {A : Type 0} → Result A → Result A
snapshot_failure (ok a) = ok a
snapshot_failure (err e) =
    err (if catches_provider e then provider_error ErrorClass.provider "snapshot failed" else e)

-- The part behind the two calls of the provider; the first failure is the one that is raised.
unfoldable pub record_snapshot :
    Wallet → Result WalletBalance → Result (List Holding) → Exec Db WalletSnapshot
unfolding tokens_total
record_snapshot wallet (err e) _ = raise e
record_snapshot wallet (ok balance) (err e) = raise e
record_snapshot wallet (ok balance) (ok holdings) = do
  now ← gets (λ s. s.clock)
  snap ← add_snapshot (new_snapshot wallet.id now balance holdings)
  save_wallet (record wallet {
    last_native_amount = some balance.native_amount;
    last_total_usd = snap.total_usd;
    last_synced_at = some snap.taken_at;
  })
  pure snap

unfoldable pub take_snapshot : Provider → ℕ → ℕ → Exec Db WalletSnapshot
take_snapshot p user_id wallet_id = do
  wallet ← get_owned_wallet user_id wallet_id
  record_snapshot wallet (snapshot_failure (p.fetch_balance wallet.chain wallet.address))
      (snapshot_failure (p.fetch_token_holdings wallet.chain wallet.address))
