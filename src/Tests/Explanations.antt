-- ===== src/Tests/Explanations.antt =====
-- Explanations of the language model.
use crypto_intelligence_plat.Ai.Cache.{explain-cached}
use crypto_intelligence_plat.Ai.Prompt.{
  TxData, WalletFacts, bounded_tx, build_wallet_prompt, comma_joined, payload_json, quoted_rest,
}
use crypto_intelligence_plat.Ai.Sanitize.{
  cleaned, collapse_newlines, drop_runs, redact_urls, sanitize_text, strip_tags,
  validate_explanation, words_of,
}
use crypto_intelligence_plat.Ai.Service.{
  ask_about_wallet, call_from, call_with_retries, explain_either, explain_wallet, find_or_ask,
  summary,
}
use crypto_intelligence_plat.Ai.Stored.{Stored}
use crypto_intelligence_plat.Base.{
  Str, [], codes, false, lower, none, order_by_desc, pos, refl, select, some, str_nat, strip, ℕ,
  ◌∷◌, ◌≡◌,
}
use crypto_intelligence_plat.Endpoints.Explain.{explain, explain-keeps_clean}
use crypto_intelligence_plat.Errors.{ai_provider, provider_error}
use crypto_intelligence_plat.Exec.{Exec, Result, err, ok}
use crypto_intelligence_plat.Models.{AiAnalysis, Db}
use crypto_intelligence_plat.Models.Tables.{add_analysis}
use crypto_intelligence_plat.Schemas.{AiExplainRequest}
use crypto_intelligence_plat.Tests.Data.{toy_address, toy_db, toy_sha256}
use crypto_intelligence_plat.Tests.Sessions.{live_settings}
use crypto_intelligence_plat.Wallets.{get_owned_wallet, owned_of}

-- The address is taken out, and so are the markdown and the tag.
url_redacted :
    validate_explanation (codes "**See** <b>https://evil.org/a now`")
    ≡ ok (codes "See [redacted] now")
unfolding validate_explanation cleaned redact_urls strip_tags drop_runs collapse_newlines words_of
    select strip lower
url_redacted = refl

-- The tag inside of the scheme hides the address from the scan for addresses.
reassembled :
    validate_explanation (codes "See htt<b>ps://evil.org") ≡ ok (codes "See https://evil.org")
unfolding validate_explanation cleaned redact_urls strip_tags drop_runs collapse_newlines words_of
    select strip lower
reassembled = refl

abbrev always : Result (ℕ → Result Str)
always = ok (λ attempt. ok (codes "An ordinary wallet."))

abbrev asked : Exec Db AiAnalysis
asked = explain_either live_settings toy_sha256 (λ d. codes "1") always 1 none (some 10)

abbrev answered : Result AiAnalysis × Db
answered = asked toy_db

abbrev first_row : AiAnalysis
first_row = record {
  id = 100;
  wallet_id = some 10;
  tx_id = none;
  kind = codes "wallet_summary";
  input_signature = codes "You are an analyst for a read-on";
  input_summary = codes "ethereum:0x52908400098527886e0f7030069857d2e4169ee7 txs=0";
  explanation = codes "An ordinary wallet.";
  model = codes "gpt-4o-mini";
  is_cached = false;
}

answered_ok : answered ≡ (ok first_row, answered.1)
unfolding explain_either explain_wallet ask_about_wallet find_or_ask get_owned_wallet owned_of
    select call_with_retries call_from validate_explanation cleaned redact_urls strip_tags drop_runs
    collapse_newlines words_of strip lower add_analysis summary sanitize_text str_nat
    build_wallet_prompt payload_json quoted_rest comma_joined bounded_tx order_by_desc
answered_ok = refl

abbrev silent : Result (ℕ → Result Str)
silent = err (provider_error ai_provider "down")

explain-cached_example :
    explain_either live_settings toy_sha256 (λ d. codes "1") silent 1 none (some 10) answered.1
    ≡ (ok first_row, answered.1)
explain-cached_example =
    explain-cached live_settings toy_sha256 (λ d. codes "1") always silent 1 none (some 10) toy_db
      answered.1 first_row answered_ok

abbrev question : AiExplainRequest
question = record { wallet_id = some 10; tx_id = none; kind = codes "wallet_summary" }

explain-keeps_clean_example :
    Stored
      (explain live_settings toy_sha256 (λ d. codes "1") always (ok tt) (ok tt) 1 question toy_db).1
explain-keeps_clean_example =
    explain-keeps_clean live_settings toy_sha256 (λ d. codes "1") always (ok tt) (ok tt) 1 question
      toy_db tt

abbrev one_transaction : TxData
one_transaction = record {
  hash = codes "0xaa";
  direction = codes "in";
  counterparty = codes "0xff";
  amount = codes "1";
  symbol = codes "ETH";
  status = codes "ok";
  risk_level = codes "low";
  risk_reasons = [];
  token_symbol = none;
  token_amount = none;
}

abbrev toy_facts : WalletFacts
toy_facts = record {
  chain = codes "ethereum";
  address = toy_address;
  label = some (codes "\"quoted\"");
  native_amount = some (pos 5);
  native_symbol = none;
  total_usd = none;
  tokens_count = 0;
}

payload :
    (build_wallet_prompt (λ d. codes "5") toy_facts (one_transaction ∷ [])).1
    ≡ codes
        "{\"chain\":\"ethereum\",\"address\":\"0x52908400098527886e0f7030069857d2e4169ee7\",\"label\":\"\\\"quoted\\\"\",\"native_amount\":\"5\",\"native_symbol\":null,\"total_usd\":null,\"tokens_count\":0,\"recent_transactions\":[{\"hash\":\"0xaa\",\"direction\":\"in\",\"counterparty\":\"0xff\",\"amount\":\"1\",\"symbol\":\"ETH\",\"status\":\"ok\",\"risk_level\":\"low\",\"token_symbol\":null,\"token_amount\":null}]}"
unfolding build_wallet_prompt payload_json quoted_rest comma_joined bounded_tx sanitize_text select
    str_nat
payload = refl
