-- ===== src/Tests/Chain.antt =====
-- Answers of Etherscan.
use crypto_intelligence_plat.Addresses.{
  checksum, hex_then_end, is_evm_address, remove_prefix, to_eip55,
}
use crypto_intelligence_plat.Base.{
  All, List, Option, Str, [], codes, decimal_add, decimal_sub, digits_over, if◌then◌else◌, leb,
  lower, none, pos, refl, round_ℕ, round_ℤ, rounded_to, some, str_eq, upper, ℤ, ◌&&◌, ◌+ℤ◌, ◌-ℤ◌,
  ◌-◌, ◌∷◌, ◌≡◌,
}
use crypto_intelligence_plat.Etherscan.{EtherscanCodec, TokenTx}
use crypto_intelligence_plat.Etherscan.Holdings.{
  add_to_entry, add_transfer, add_transfers, change_of, fetch_token_holdings, holdings_of,
}
use crypto_intelligence_plat.Etherscan.Net.{IsNet, fetch_token_holdings-IsNet}
use crypto_intelligence_plat.Exec.{ok}
use crypto_intelligence_plat.Shared.{Holding}
use crypto_intelligence_plat.Tests.Data.{toy_address, toy_nibble}
use crypto_intelligence_plat.Tokens.{no_fields, null}

abbrev toy_int : Str → Option ℤ
toy_int (n ∷ []) = if leb 48 n && leb n 57 then some (pos (n - 48)) else none
toy_int s = if str_eq s (codes "18") then some (pos 18) else none

abbrev transfer : Str → Str → TokenTx
transfer to amount = record {
  contract_address = some toy_address;
  token_decimal = none;
  value = some amount;
  token_symbol = some (codes "TOK");
  token_name = none;
  to = some to;
}

abbrev other : Str
other = codes "0xde709f2102306220921060314715629080e2fb77"

-- Five come in, two go out, one has a value that is no number.
abbrev transfers : List TokenTx
transfers =
    transfer toy_address (codes "5")
    ∷ transfer other (codes "2")
    ∷ transfer toy_address (codes "x")
    ∷ []

abbrev toy_etherscan : EtherscanCodec
toy_etherscan = record {
  loads = λ body. some null;
  str_json = λ v. [];
  int_of_text = toy_int;
  token_items = λ v. some transfers;
  tx_items = λ v. none;
}

abbrev three_left : Holding
three_left = record {
  contract = codes "0x52908400098527886e0f7030069857D2e4169ee7";
  symbol = codes "TOK";
  name = [];
  decimals = 18;
  amount = record { coef = pos 3; places = 18 };
  usd_price = none;
  estimated_usd_value = none;
}

found :
    fetch_token_holdings toy_etherscan toy_address toy_nibble (ok no_fields) ≡ ok (three_left ∷ [])
unfolding fetch_token_holdings holdings_of add_transfers add_transfer add_to_entry change_of
    decimal_add decimal_sub round_ℤ round_ℕ digits_over rounded_to str_eq lower ◌+ℤ◌ ◌-ℤ◌ to_eip55
    checksum remove_prefix is_evm_address hex_then_end upper
found = refl

fetch_token_holdings-IsNet_example :
    All (IsNet toy_etherscan toy_address toy_nibble transfers) (three_left ∷ [])
fetch_token_holdings-IsNet_example =
    fetch_token_holdings-IsNet toy_etherscan toy_address toy_nibble no_fields transfers
      (three_left ∷ []) refl found
