-- ===== src/Tests/Data.antt =====
-- A small database and the concrete parameters of the tests.
use crypto_intelligence_plat.Alerts.{incoming_above, new_alert}
use crypto_intelligence_plat.Base.{Str, [], codes, none, pos, some, true, ℕ, ◌%◌, ◌∷◌}
use crypto_intelligence_plat.Exec.{ok}
use crypto_intelligence_plat.Models.{Alert, Db, User, Wallet, empty_db}
use crypto_intelligence_plat.Provider.{Provider}
use crypto_intelligence_plat.Shared.{ParsedTx, TxDirection, WalletBalance, WalletRiskLevel}
use crypto_intelligence_plat.Wallets.{new_wallet}
use crypto_intelligence_plat.Worker.Defs.{WorkState}

-- Stands for Keccak: any function does.
abbrev pub toy_nibble : Str → ℕ → ℕ
toy_nibble s i = i % 16

-- Stands for SHA-256.
abbrev pub toy_sha256 : Str → Str
toy_sha256 s = s

abbrev pub toy_balance : WalletBalance
toy_balance = record {
  native_symbol = codes "ETH";
  native_decimals = 18;
  native_amount = pos 1234;
  native_usd_price = none;
  estimated_usd_value = some (pos 3085);
}

abbrev pub toy_tx : ParsedTx
toy_tx = record {
  tx_hash = codes "0xaa";
  block = none;
  timestamp = 1700000000;
  direction = TxDirection.incoming;
  counterparty = codes "0xff";
  native_amount = pos 500;
  native_symbol = codes "ETH";
  status = codes "ok";
  token_symbol = none;
  token_amount = none;
  token_contract = none;
  risk = WalletRiskLevel.low;
  risk_reasons = [];
}

abbrev pub toy_provider : Provider
toy_provider = record {
  fetch_balance = λ chain address. ok toy_balance;
  fetch_token_holdings = λ chain address. ok [];
  fetch_recent_transactions = λ chain address limit. ok (toy_tx ∷ []);
}

abbrev pub toy_address : Str
toy_address = codes "0x52908400098527886e0f7030069857d2e4169ee7"

abbrev pub wallet_of : ℕ → ℕ → Wallet
wallet_of id user = new_wallet user (codes "ethereum") toy_address none none 7 id

abbrev pub toy_user : User
toy_user = record {
  id = 1;
  telegram_id = 42;
  telegram_username = none;
  telegram_first_name = none;
  telegram_last_name = none;
  telegram_language_code = none;
  is_active = true;
}

abbrev pub toy_alert : Alert
toy_alert = new_alert 1 10 incoming_above (some (pos 100)) none 7 20

-- User 1 has wallet 10 with one alert, user 2 has wallet 11.
abbrev pub toy_db : Db
toy_db = record empty_db {
  users = toy_user ∷ [];
  wallets = wallet_of 10 1 ∷ wallet_of 11 2 ∷ [];
  alerts = toy_alert ∷ [];
  next_id = 100;
  clock = 1000;
}

abbrev pub toy_state : WorkState
toy_state = record { db = toy_db; locks = []; outbox = [] }
