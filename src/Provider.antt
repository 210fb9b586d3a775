-- ===== src/Provider.antt =====
-- `BlockchainProvider` of apps/api/app/providers/base.py, as the services use it: each call answers
-- or raises. A provider's answer does not depend on the database.
use crypto_intelligence_plat.Base.{List, Str, ℕ}
use crypto_intelligence_plat.Exec.{Result}
use crypto_intelligence_plat.Shared.{Holding, ParsedTx, WalletBalance}

pub record Provider : Type 0 where
  pub fetch_balance : Str → Str → Result WalletBalance
  pub fetch_token_holdings : Str → Str → Result (List Holding)
  pub fetch_recent_transactions : Str → Str → ℕ → Result (List ParsedTx)
