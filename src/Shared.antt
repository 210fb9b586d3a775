-- ===== src/Shared.antt =====
-- packages/shared/shared: chains.py and domain.py, the types that the services share.
use crypto_intelligence_plat.Base.{Decimal, List, Option, Str, [], codes, ℕ, ℤ, ◌∷◌}

pub data Chain : Type 0 where
  ethereum base : Chain

abbrev pub chain_value : Chain → Str
chain_value ethereum = codes "ethereum"
chain_value base = codes "base"

-- `Chain.values()`
abbrev pub chain_values : List Str
chain_values = chain_value ethereum ∷ chain_value base ∷ []

pub data AddressType : Type 0 where
  evm : AddressType

pub record NormalizedAddress : Type 0 where
  pub chain : Str
  pub address : Str
  pub address_type : AddressType
  pub display : Str

pub data TxDirection : Type 0 where
  incoming outgoing self : TxDirection

abbrev pub direction_value : TxDirection → Str
direction_value incoming = codes "in"
direction_value outgoing = codes "out"
direction_value self = codes "self"

pub data WalletRiskLevel : Type 0 where
  low medium high : WalletRiskLevel

abbrev pub risk_value : WalletRiskLevel → Str
risk_value low = codes "low"
risk_value medium = codes "medium"
risk_value high = codes "high"

pub record WalletBalance : Type 0 where
  pub native_symbol : Str
  pub native_decimals : ℕ
  pub native_amount : ℤ
  pub native_usd_price : Option ℤ
  pub estimated_usd_value : Option ℤ

-- `TokenHolding` of domain.py; the table's rows are `Models.TokenHolding`.
pub record Holding : Type 0 where
  pub contract : Str
  pub symbol : Str
  pub name : Str
  pub decimals : ℕ
  pub amount : Decimal
  pub usd_price : Option ℤ
  pub estimated_usd_value : Option ℤ

pub record ParsedTx : Type 0 where
  pub tx_hash : Str
  pub block : Option ℕ
  pub timestamp : ℕ
  pub direction : TxDirection
  pub counterparty : Str
  pub native_amount : ℤ
  pub native_symbol : Str
  pub status : Str
  pub token_symbol : Option Str
  pub token_amount : Option ℤ
  pub token_contract : Option Str
  pub risk : WalletRiskLevel
  pub risk_reasons : List Str

pub record PortfolioSummary : Type 0 where
  pub native_usd : Option ℤ
  pub tokens_usd : Option ℤ
  pub total_usd : Option ℤ
  pub tokens_count : ℕ
  pub as_of : ℕ
