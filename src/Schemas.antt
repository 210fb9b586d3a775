-- ===== src/Schemas.antt =====
-- apps/api/app/schemas/models.py: the requests with their bounds, and the answers. A request outside
-- its bounds is none: FastAPI answers it before the handler runs. `updated_at`, which the database
-- sets, is left out as in the tables; a float is a Decimal.
use crypto_intelligence_plat.Base.{
  Bool, List, Option, Str, codes, if◌then◌else◌, leb, leb_ℤ, length, none, pos, some, true, ℕ, ℤ,
  ◌&&◌,
}
use crypto_intelligence_plat.Models.{Alert, TokenHolding, User, Wallet, WalletSnapshot}

abbrev between : ℕ → ℕ → Str → Bool
between lo hi s = leb lo (length s) && leb (length s) hi

-- Of a field that may be missing.
abbrev at_most : ℕ → Option Str → Bool
at_most hi none = true
at_most hi (some s) = leb (length s) hi

abbrev pub not_negative : Option ℤ → Bool
not_negative none = true
not_negative (some t) = leb_ℤ (pos 0) t

pub record WalletCreate : Type 0 where
  pub chain : Str
  pub address : Str
  pub label : Option Str

unfoldable pub wallet_create : Str → Str → Option Str → Option WalletCreate
wallet_create chain address label =
    if between 1 32 chain && between 4 128 address && at_most 64 label
    then some (record { chain = chain; address = address; label = label })
    else none

pub record WalletUpdate : Type 0 where
  pub label : Option Str
  pub is_active : Option Bool

unfoldable pub wallet_update : Option Str → Option Bool → Option WalletUpdate
wallet_update label is_active =
    if at_most 64 label then some (record { label = label; is_active = is_active }) else none

pub record AlertCreate : Type 0 where
  pub wallet_id : ℕ
  pub kind : Str
  pub threshold_amount : Option ℤ
  pub note : Option Str

unfoldable pub alert_create : ℕ → Str → Option ℤ → Option Str → Option AlertCreate
alert_create wallet_id kind threshold note =
    if between 1 32 kind && not_negative threshold && at_most 512 note
    then some
        (record { wallet_id = wallet_id; kind = kind; threshold_amount = threshold; note = note })
    else none

pub record AlertUpdate : Type 0 where
  pub is_active : Option Bool
  pub threshold_amount : Option ℤ
  pub note : Option Str

unfoldable pub alert_update : Option Bool → Option ℤ → Option Str → Option AlertUpdate
alert_update is_active threshold note =
    if not_negative threshold && at_most 512 note
    then some (record { is_active = is_active; threshold_amount = threshold; note = note })
    else none

pub record InitDataLogin : Type 0 where
  pub init_data : Str

unfoldable pub init_data_login : Str → Option InitDataLogin
init_data_login s = if between 10 8192 s then some (record { init_data = s }) else none

pub record AiExplainRequest : Type 0 where
  pub wallet_id : Option ℕ
  pub tx_id : Option ℕ
  pub kind : Str

unfoldable pub ai_explain_request : Option ℕ → Option ℕ → Str → Option AiExplainRequest
ai_explain_request wallet_id tx_id kind =
    if between 1 32 kind
    then some (record { wallet_id = wallet_id; tx_id = tx_id; kind = kind })
    else none

pub record SessionOut : Type 0 where
  pub access_token : Str
  pub token_type : Str
  pub expires_in : ℤ

pub record CurrentUser : Type 0 where
  pub id : ℕ
  pub telegram_id : ℕ
  pub telegram_username : Option Str
  pub telegram_first_name : Option Str
  pub telegram_last_name : Option Str
  pub is_active : Bool

abbrev pub current_user_out : User → CurrentUser
current_user_out u = record {
  id = u.id;
  telegram_id = u.telegram_id;
  telegram_username = u.telegram_username;
  telegram_first_name = u.telegram_first_name;
  telegram_last_name = u.telegram_last_name;
  is_active = u.is_active;
}

pub record WalletOut : Type 0 where
  pub id : ℕ
  pub chain : Str
  pub address : Str
  pub label : Option Str
  pub native_symbol : Str
  pub is_active : Bool
  pub last_synced_at : Option ℕ
  pub last_native_amount : Option ℤ
  pub last_total_usd : Option ℤ
  pub last_risk_level : Str
  pub created_at : ℕ

-- `model_validate` reads the attributes of the row that have the names of the fields.
abbrev pub wallet_out : Wallet → WalletOut
wallet_out w = record {
  id = w.id;
  chain = w.chain;
  address = w.address;
  label = w.label;
  native_symbol = w.native_symbol;
  is_active = w.is_active;
  last_synced_at = w.last_synced_at;
  last_native_amount = w.last_native_amount;
  last_total_usd = w.last_total_usd;
  last_risk_level = w.last_risk_level;
  created_at = w.created_at;
}

-- The fields of `WalletWithSummary` beside those of `WalletOut`.
pub record WalletWithSummary : Type 0 where
  pub wallet : WalletOut
  pub native_amount : Option ℤ
  pub native_usd : Option ℤ
  pub total_usd : Option ℤ
  pub tokens_count : ℕ
  pub risk_level : Str

-- A row of `wallets` has none of these five attributes, so each field takes its default.
abbrev pub wallet_with_summary : Wallet → WalletWithSummary
wallet_with_summary w = record {
  wallet = wallet_out w;
  native_amount = none;
  native_usd = none;
  total_usd = none;
  tokens_count = 0;
  risk_level = codes "low";
}

pub record TokenHoldingOut : Type 0 where
  pub contract : Str
  pub symbol : Str
  pub name : Str
  pub decimals : ℕ
  pub amount : ℤ
  pub usd_price : Option ℤ
  pub estimated_usd_value : Option ℤ

abbrev pub holding_out : TokenHolding → TokenHoldingOut
holding_out t = record {
  contract = t.contract;
  symbol = t.symbol;
  name = t.name;
  decimals = t.decimals;
  amount = t.amount;
  usd_price = t.usd_price;
  estimated_usd_value = t.estimated_usd_value;
}

pub record TransactionOut : Type 0 where
  pub id : ℕ
  pub tx_hash : Str
  pub block : Option ℕ
  pub timestamp : ℕ
  pub direction : Str
  pub counterparty : Str
  pub native_amount : ℤ
  pub native_symbol : Str
  pub token_symbol : Option Str
  pub token_contract : Option Str
  pub token_amount : Option ℤ
  pub status : Str
  pub risk_level : Str
  pub risk_reasons : List Str

pub record AlertOut : Type 0 where
  pub id : ℕ
  pub wallet_id : ℕ
  pub kind : Str
  pub threshold_amount : Option ℤ
  pub is_active : Bool
  pub note : Option Str
  pub created_at : ℕ

abbrev pub alert_out : Alert → AlertOut
alert_out a = record {
  id = a.id;
  wallet_id = a.wallet_id;
  kind = a.kind;
  threshold_amount = a.threshold_amount;
  is_active = a.is_active;
  note = a.note;
  created_at = a.created_at;
}

pub record WalletSnapshotOut : Type 0 where
  pub id : ℕ
  pub taken_at : ℕ
  pub native_amount : ℤ
  pub native_usd : Option ℤ
  pub tokens_usd : Option ℤ
  pub total_usd : Option ℤ
  pub tokens_count : ℕ

abbrev pub snapshot_out : WalletSnapshot → WalletSnapshotOut
snapshot_out x = record {
  id = x.id;
  taken_at = x.taken_at;
  native_amount = x.native_amount;
  native_usd = x.native_usd;
  tokens_usd = x.tokens_usd;
  total_usd = x.total_usd;
  tokens_count = x.tokens_count;
}

pub record AiExplanationOut : Type 0 where
  pub explanation : Str
  pub model : Str
  pub is_cached : Bool
  pub input_summary : Str

pub record PageMeta : Type 0 where
  pub page : ℕ
  pub page_size : ℕ
  pub total : ℕ

pub record Page (A : Type 0) : Type 0 where
  pub items : List A
  pub meta : PageMeta
