-- ===== src/Models.antt =====
-- apps/api/app/models: the tables as lists of rows, oldest first, and the database as a record of
-- tables. A UUID is a number handed out in order by `next_id`; a datetime is a number of seconds; a
-- Decimal or Numeric(36, 18) is an integer in units of 10^-18.
pub mod Tables
use crypto_intelligence_plat.Base.{Bool, List, Option, Str, [], ℕ, ℤ}

pub record User : Type 0 where
  pub id : ℕ
  pub telegram_id : ℕ
  pub telegram_username : Option Str
  pub telegram_first_name : Option Str
  pub telegram_last_name : Option Str
  pub telegram_language_code : Option Str
  pub is_active : Bool

pub record WalletSession : Type 0 where
  pub id : ℕ
  pub user_id : ℕ
  pub token_hash : Str
  pub expires_at : ℕ
  pub revoked_at : Option ℕ

pub record Wallet : Type 0 where
  pub id : ℕ
  pub user_id : ℕ
  pub chain : Str
  pub address : Str
  pub address_type : Str
  pub label : Option Str
  pub native_symbol : Str
  pub is_active : Bool
  pub last_synced_at : Option ℕ
  pub last_native_amount : Option ℤ
  pub last_total_usd : Option ℤ
  pub last_risk_level : Str
  pub created_at : ℕ

pub record WalletSnapshot : Type 0 where
  pub id : ℕ
  pub wallet_id : ℕ
  pub taken_at : ℕ
  pub native_amount : ℤ
  pub native_usd_price : Option ℤ
  pub native_usd : Option ℤ
  pub tokens_usd : Option ℤ
  pub total_usd : Option ℤ
  pub tokens_count : ℕ

pub record Transaction : Type 0 where
  pub id : ℕ
  pub wallet_id : ℕ
  pub tx_hash : Str
  pub block : Option ℕ
  pub timestamp : ℕ
  pub direction : Str
  pub counterparty : Str
  pub native_amount : ℤ
  pub native_symbol : Str
  pub token_symbol : Option Str
  pub token_contract : Option Str
  pub token_amount : Option ℤ
  pub status : Str
  pub risk_level : Str
  pub risk_reasons : Option Str

pub record TokenHolding : Type 0 where
  pub id : ℕ
  pub wallet_id : ℕ
  pub contract : Str
  pub symbol : Str
  pub name : Str
  pub decimals : ℕ
  pub amount : ℤ
  pub usd_price : Option ℤ
  pub estimated_usd_value : Option ℤ

pub record Alert : Type 0 where
  pub id : ℕ
  pub user_id : ℕ
  pub wallet_id : ℕ
  pub kind : Str
  pub threshold_amount : Option ℤ
  pub is_active : Bool
  pub note : Option Str
  pub created_at : ℕ

pub record AlertDelivery : Type 0 where
  pub id : ℕ
  pub alert_id : ℕ
  pub event_signature : Str
  pub channel : Str
  pub status : Str

pub record AiAnalysis : Type 0 where
  pub id : ℕ
  pub wallet_id : Option ℕ
  pub tx_id : Option ℕ
  pub kind : Str
  pub input_signature : Str
  pub input_summary : Str
  pub explanation : Str
  pub model : Str
  pub is_cached : Bool

pub record Db : Type 0 where
  pub users : List User
  pub sessions : List WalletSession
  pub wallets : List Wallet
  pub snapshots : List WalletSnapshot
  pub transactions : List Transaction
  pub holdings : List TokenHolding
  pub alerts : List Alert
  pub deliveries : List AlertDelivery
  pub analyses : List AiAnalysis
  pub next_id : ℕ
  pub clock : ℕ

abbrev pub empty_db : Db
empty_db = record {
  users = [];
  sessions = [];
  wallets = [];
  snapshots = [];
  transactions = [];
  holdings = [];
  alerts = [];
  deliveries = [];
  analyses = [];
  next_id = 1;
  clock = 0;
}
