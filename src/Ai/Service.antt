-- ===== src/Ai/Service.antt =====
-- apps/api/app/services/ai_explain.py. What the model answers to each attempt, SHA-256 and `str` of a
-- Decimal are arguments.
use crypto_intelligence_plat.Ai.Prompt.{TxData, WalletFacts, build_wallet_prompt, printed}
use crypto_intelligence_plat.Ai.Sanitize.{ai_error, sanitize_text, validate_explanation}
use crypto_intelligence_plat.Base.{
  Bool, List, Option, Str, [], codes, false, if◌then◌else◌, is_empty, leb, length, map, none, not,
  order_by_desc, select, some, split_on, str_eq, str_nat, str_uuid, suc, take, zero, ℕ, ℤ, ◌&&◌,
  ◌++◌, ◌+◌, ◌==◌, ◌∷◌,
}
use crypto_intelligence_plat.Config.{Settings, mock_ai, openai}
use crypto_intelligence_plat.Errors.{Exn, app_error, is_ai_provider, not_found_error, runtime_error}
use crypto_intelligence_plat.Exec.{
  Exec, Result, err, gets, lift, ok, one_or_none, pure, raise, raise_if, required, ◌>>=◌, ◌>>◌,
}
use crypto_intelligence_plat.Models.{AiAnalysis, Db, Transaction, Wallet}
use crypto_intelligence_plat.Models.Tables.{add_analysis}
use crypto_intelligence_plat.Wallets.{get_owned_wallet}

-- `_MAX_AI_RETRIES`
abbrev pub max_ai_retries : ℕ
max_ai_retries = 2

abbrev pub is_ai_error : Exn → Bool
is_ai_error (app_error a) = is_ai_provider a.class_of
is_ai_error _ = false

abbrev pub validated : Result Str → Result Str
validated (ok raw) = validate_explanation raw
validated (err e) = err e

-- An error of the model, before the last attempt, is followed by the next attempt.
abbrev pub unless_last : ℕ → Result Str → Result Str → Result Str
unless_last attempt (ok r) later = ok r
unless_last attempt (err e) later =
    if is_ai_error e && not (leb max_ai_retries attempt) then later else err e

-- The loop over the attempts that are left.
unfoldable pub call_from : (ℕ → Result Str) → ℕ → ℕ → Result Str
call_from replies attempt zero = err (ai_error "unreachable ai state")
call_from replies attempt (suc left) =
    let later = call_from replies (suc attempt) left in
    unless_last attempt (validated (replies attempt)) later

-- `_call_with_retries`, behind what `get_ai_provider` gives.
unfoldable pub call_with_retries : Result (ℕ → Result Str) → Result Str
unfolding call_from
call_with_retries (ok replies) = call_from replies 0 (max_ai_retries + 1)
call_with_retries (err e) = err e

-- `_model_name`
abbrev pub model_name : Settings → Str
model_name s = elim s.ai_provider_source [ openai ↦ s.ai_model | mock_ai ↦ codes "mock" ]

-- `(tx.risk_reasons or "").split(",") if tx.risk_reasons else []`
abbrev pub risk_list : Option Str → List Str
risk_list none = []
risk_list (some s) = if is_empty s then [] else split_on 44 s

-- `_summary`
unfoldable pub summary : Wallet → ℕ → Str
unfolding sanitize_text
summary w count =
    sanitize_text 128 (some (w.chain ++ 58 ∷ w.address ++ codes " txs=" ++ str_nat count))

-- A row of `ai_analyses` that answers the same question.
abbrev pub answers_question : (AiAnalysis → Bool) → Str → Str → AiAnalysis → Bool
answers_question about kind sig a = about a && str_eq a.kind kind && str_eq a.input_signature sig

abbrev pub id_is : ℕ → Option ℕ → Bool
id_is id none = false
id_is id (some i) = i == id

-- The last twenty transactions of the wallet.
abbrev pub recent_from : ℕ → List Transaction → List Transaction
recent_from wallet_id txs =
    take 20 (
      order_by_desc (λ t. t.timestamp) (select (λ (t : Transaction). t.wallet_id == wallet_id) txs))

abbrev pub recent_of : ℕ → Db → List Transaction
recent_of wallet_id s = recent_from wallet_id s.transactions

-- One error for a missing transaction and for one in another user's wallet.
unfoldable pub owned_tx : ℕ → ℕ → Exec Db (Wallet × Transaction)
owned_tx user_id tx_id = do
  tx_rows ← gets (λ s. select (λ (t : Transaction). t.id == tx_id) s.transactions)
  found ← one_or_none tx_rows
  tx ← required found (not_found_error "transaction")
  wallet_rows ← gets (λ s. select (λ (w : Wallet). w.id == tx.wallet_id) s.wallets)
  found_wallet ← one_or_none wallet_rows
  wallet ← required found_wallet (not_found_error "transaction")
  raise_if (not (wallet.user_id == user_id)) (not_found_error "transaction")
  pure (wallet, tx)

-- The row that is found, or the answer of the model as a new row.
unfoldable pub find_or_ask :
    (AiAnalysis → Bool) → Result Str → (Str → ℕ → AiAnalysis) → Exec Db AiAnalysis
find_or_ask wanted answer make = do
  rows ← gets (λ s. select wanted s.analyses)
  cached ← one_or_none rows
  elim cached [
    | some row ↦ pure row
    | none ↦ (do explanation ← lift answer; add_analysis (make explanation))
  ]

module _ (settings : Settings) (sha256 : Str → Str) (str_decimal : ℤ → Str) where
  -- `_signature`
  abbrev pub signature : Str → Str
  signature s = take 32 (sha256 s)

  -- `_tx_to_dict`
  abbrev pub tx_data : Transaction → TxData
  tx_data t = record {
    hash = t.tx_hash;
    direction = t.direction;
    counterparty = t.counterparty;
    amount = str_decimal t.native_amount;
    symbol = t.native_symbol;
    status = t.status;
    risk_level = t.risk_level;
    risk_reasons = risk_list t.risk_reasons;
    token_symbol = t.token_symbol;
    token_amount = printed str_decimal t.token_amount;
  }

  abbrev pub facts : Wallet → WalletFacts
  facts w = record {
    chain = w.chain;
    address = w.address;
    label = w.label;
    native_amount = w.last_native_amount;
    native_symbol = some w.native_symbol;
    total_usd = w.last_total_usd;
    tokens_count = 0;
  }

  abbrev pub prompt_of : Wallet → List Transaction → Str × Str
  prompt_of w txs = build_wallet_prompt str_decimal (facts w) (map tx_data txs)

  abbrev pub analysis_row : Wallet → Option ℕ → Str → Str → Str → Str → ℕ → AiAnalysis
  analysis_row w tx_id kind sig input_summary explanation id = record {
    id = id;
    wallet_id = some w.id;
    tx_id = tx_id;
    kind = kind;
    input_signature = sig;
    input_summary = input_summary;
    explanation = explanation;
    model = model_name settings;
    is_cached = false;
  }

  abbrev pub wallet_signature : Wallet → List Transaction → Str
  wallet_signature w txs = let (system, user) = prompt_of w txs in signature (system ++ user)

  abbrev pub tx_signature : Wallet → Transaction → Str
  tx_signature w tx =
      let (system, user) = prompt_of w (tx ∷ []) in signature (system ++ user ++ str_uuid tx.id)

  -- The question about a wallet, and the one about a transaction.
  unfoldable pub ask_about_wallet :
      Result (ℕ → Result Str) → Wallet → List Transaction → Exec Db AiAnalysis
  unfolding find_or_ask
  ask_about_wallet provider wallet txs =
      let sig = wallet_signature wallet txs in
      find_or_ask (answers_question (λ a. id_is wallet.id a.wallet_id) (codes "wallet_summary") sig)
        (call_with_retries provider)
        (analysis_row wallet none (codes "wallet_summary") sig (summary wallet (length txs)))

  -- `_get_owned_wallet` is the function of that name in the wallet service again.
  unfoldable pub explain_wallet : Result (ℕ → Result Str) → ℕ → ℕ → Exec Db AiAnalysis
  unfolding ask_about_wallet
  explain_wallet provider user_id wallet_id = do
    wallet ← get_owned_wallet user_id wallet_id
    txs ← gets (recent_of wallet.id)
    ask_about_wallet provider wallet txs

  unfoldable pub ask_about_tx : Result (ℕ → Result Str) → Wallet → Transaction → Exec Db AiAnalysis
  unfolding find_or_ask
  ask_about_tx provider wallet tx =
      let sig = tx_signature wallet tx in
      find_or_ask (answers_question (λ a. id_is tx.id a.tx_id) (codes "tx_explain") sig)
        (call_with_retries provider)
        (analysis_row wallet (some tx.id) (codes "tx_explain") sig (summary wallet 1))

  unfoldable pub explain_transaction : Result (ℕ → Result Str) → ℕ → ℕ → Exec Db AiAnalysis
  unfolding ask_about_tx owned_tx
  explain_transaction provider user_id tx_id = do
    owned ← owned_tx user_id tx_id
    ask_about_tx provider owned.0 owned.1

  -- The branch of the endpoint: a transaction goes first, and one of the two is given.
  unfoldable pub explain_either :
      Result (ℕ → Result Str) → ℕ → Option ℕ → Option ℕ → Exec Db AiAnalysis
  unfolding explain_wallet explain_transaction
  explain_either provider user_id (some tx_id) wallet_id =
      explain_transaction provider user_id tx_id
  explain_either provider user_id none (some wallet_id) = explain_wallet provider user_id wallet_id
  explain_either provider user_id none none = raise runtime_error
