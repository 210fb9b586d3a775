-- ===== src/MockProvider.antt =====
-- apps/api/app/providers/mock.py: the provider of development and tests.
use crypto_intelligence_plat.Addresses.{is_evm_address, normalized_address, to_eip55}
use crypto_intelligence_plat.Base.{
  Decimal, List, Str, [], codes, if◌then◌else◌, length, lower, map, none, not, one_of, or_default,
  pos, some, suc, zero, ℕ, ℤ, ◌*◌, ◌++◌, ◌+ℤ◌, ◌^◌, ◌∷◌,
}
use crypto_intelligence_plat.Errors.{provider_error, provider_permanent}
use crypto_intelligence_plat.Exec.{Result, err, ok}
use crypto_intelligence_plat.Provider.{Provider}
use crypto_intelligence_plat.Shared.{
  Holding, NormalizedAddress, ParsedTx, PortfolioSummary, WalletBalance, chain_values, high,
  incoming, low, medium, outgoing,
}

-- `"11" * 20`
abbrev pub repeated : ℕ → Str → Str
repeated zero s = []
repeated (suc n) s = s ++ repeated n s

abbrev pub hex_of : ℕ → Str → Str
hex_of n s = codes "0x" ++ repeated n s

abbrev pub three_places : ℕ → Decimal
three_places n = record { coef = pos n; places = 3 }

-- A Decimal with three places, in units of 10^-18.
abbrev pub thousandths : ℕ → ℤ
thousandths n = pos (n * 10 ^ 15)

abbrev pub mock_balance : WalletBalance
mock_balance = record {
  native_symbol = codes "ETH";
  native_decimals = 18;
  native_amount = thousandths 1234;
  native_usd_price = some (thousandths 2500000);
  estimated_usd_value = some (thousandths 3085000);
}

abbrev pub mock_holdings : List Holding
mock_holdings =
    record {
      contract = hex_of 20 (codes "11");
      symbol = codes "USDC";
      name = codes "USD Coin";
      decimals = 6;
      amount = three_places 100000;
      usd_price = some (thousandths 1000);
      estimated_usd_value = some (thousandths 100000);
    }
    ∷ record {
      contract = hex_of 20 (codes "22");
      symbol = codes "WETH";
      name = codes "Wrapped Ether";
      decimals = 18;
      amount = three_places 500;
      usd_price = some (thousandths 2500000);
      estimated_usd_value = some (thousandths 1250000);
    }
    ∷ []

abbrev pub mock_txs : Str → List ParsedTx
mock_txs address =
    record {
      tx_hash = hex_of 64 (codes "a");
      block = some 18000000;
      timestamp = 1700000000;
      direction = incoming;
      counterparty = hex_of 20 (codes "ff");
      native_amount = thousandths 500;
      native_symbol = codes "ETH";
      status = codes "ok";
      token_symbol = none;
      token_amount = none;
      token_contract = none;
      risk = low;
      risk_reasons = [];
    }
    ∷ record {
      tx_hash = hex_of 64 (codes "b");
      block = some 18000010;
      timestamp = 1700000100;
      direction = outgoing;
      counterparty = map lower address;
      native_amount = thousandths 100;
      native_symbol = codes "ETH";
      status = codes "ok";
      token_symbol = none;
      token_amount = none;
      token_contract = none;
      risk = medium;
      risk_reasons = codes "large_value" ∷ [];
    }
    ∷ record {
      tx_hash = hex_of 64 (codes "c");
      block = some 18000020;
      timestamp = 1700000200;
      direction = outgoing;
      counterparty = hex_of 20 (codes "ee");
      native_amount = pos 0;
      native_symbol = codes "ETH";
      status = codes "failed";
      token_symbol = some (codes "USDC");
      token_amount = some (thousandths 10000);
      token_contract = some (hex_of 20 (codes "11"));
      risk = high;
      risk_reasons = codes "failed_transaction" ∷ codes "large_value" ∷ [];
    }
    ∷ []

-- The limit is not looked at.
abbrev pub mock_provider : Provider
mock_provider = record {
  fetch_balance = λ chain address. ok mock_balance;
  fetch_token_holdings = λ chain address. ok mock_holdings;
  fetch_recent_transactions = λ chain address limit. ok (mock_txs address);
}

unfoldable pub mock_address : (Str → ℕ → ℕ) → Str → Str → Result NormalizedAddress
mock_address nibble chain address =
    if not (one_of chain chain_values)
    then err (provider_error provider_permanent "unsupported chain")
    else if not (is_evm_address address)
    then err (provider_error provider_permanent "invalid evm address")
    else normalized_address nibble chain (to_eip55 nibble address)

-- `sum((t.estimated_usd_value or Decimal(0) for t in tokens), Decimal(0))`
abbrev pub usd_total : List Holding → ℤ
usd_total [] = pos 0
usd_total (h ∷ hs) = or_default h.estimated_usd_value (pos 0) +ℤ usd_total hs

unfoldable pub mock_portfolio : PortfolioSummary
mock_portfolio = record {
  native_usd = mock_balance.estimated_usd_value;
  tokens_usd = some (usd_total mock_holdings);
  total_usd = some (or_default mock_balance.estimated_usd_value (pos 0) +ℤ usd_total mock_holdings);
  tokens_count = length mock_holdings;
  as_of = 1700000200;
}
