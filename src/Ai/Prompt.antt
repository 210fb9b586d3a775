-- ===== src/Ai/Prompt.antt =====
-- apps/api/app/ai/prompt.py: the prompt for a wallet. `str_decimal` is `str` of a Decimal, and the JSON is
-- that of `json.dumps` with the short separators, written without escapes for what is not ASCII.
use crypto_intelligence_plat.Ai.Sanitize.{max_field_len, max_label_len, sanitize_text}
use crypto_intelligence_plat.Base.{
  List, Option, Str, [], ap, arith, codes, if_by, if◌then◌else◌, is_empty, length, length-take, ltb,
  map, none, or_default, refl, some, str_nat, suc, take, zero, ℕ, ℤ, ◌%◌, ◌++◌, ◌+◌, ◌/◌, ◌==◌, ◌∷◌,
  ◌≡◌, ◌≤◌,
}
use crypto_intelligence_plat.RateLimit.{recent}

abbrev hex_digit : ℕ → ℕ
hex_digit n = if ltb n 10 then 48 + n else 87 + n

abbrev pub escaped : ℕ → Str
escaped c =
    if c == 34
    then codes "\\\""
    else if c == 92
    then codes "\\\\"
    else if c == 10
    then codes "\\n"
    else if c == 13
    then codes "\\r"
    else if c == 9
    then codes "\\t"
    else if c == 12
    then codes "\\f"
    else if c == 8
    then codes "\\b"
    else if ltb c 32
    then codes "\\u00" ++ hex_digit (c / 16) ∷ hex_digit (c % 16) ∷ []
    else c ∷ []

-- The inside of a JSON text and its closing quote.
unfoldable pub quoted_rest : Str → Str
quoted_rest [] = 34 ∷ []
quoted_rest (c ∷ s) = escaped c ++ quoted_rest s

abbrev pub quoted : Str → Str
quoted s = 34 ∷ quoted_rest s

abbrev pub or_null : Option Str → Str
or_null none = codes "null"
or_null (some s) = quoted s

unfoldable pub comma_joined : List Str → Str
comma_joined [] = []
comma_joined (v ∷ []) = v
comma_joined (v ∷ w ∷ vs) = v ++ 44 ∷ comma_joined (w ∷ vs)

abbrev pub json_array : List Str → Str
json_array vs = 91 ∷ comma_joined vs ++ 93 ∷ []

abbrev pub json_object : List (Str × Str) → Str
json_object fs = 123 ∷ comma_joined (map (λ f. quoted f.0 ++ 58 ∷ f.1) fs) ++ 125 ∷ []

-- The dict that `_tx_to_dict` of services/ai_explain.py makes of a transaction.
pub record TxData : Type 0 where
  pub hash : Str
  pub direction : Str
  pub counterparty : Str
  pub amount : Str
  pub symbol : Str
  pub status : Str
  pub risk_level : Str
  pub risk_reasons : List Str
  pub token_symbol : Option Str
  pub token_amount : Option Str

pub record BoundedTx : Type 0 where
  pub hash : Str
  pub direction : Str
  pub counterparty : Str
  pub amount : Str
  pub symbol : Str
  pub status : Str
  pub risk_level : Str
  pub token_symbol : Option Str
  pub token_amount : Option Str

-- `s or None`
abbrev pub unless_empty : Str → Option Str
unless_empty [] = none
unless_empty (c ∷ s) = some (c ∷ s)

-- `_bounded_tx`
unfoldable pub bounded_tx : TxData → BoundedTx
unfolding sanitize_text
bounded_tx tx = record {
  hash = sanitize_text 80 (some tx.hash);
  direction = sanitize_text 8 (some tx.direction);
  counterparty = sanitize_text 80 (some tx.counterparty);
  amount = sanitize_text 40 (some tx.amount);
  symbol = sanitize_text 16 (some tx.symbol);
  status = sanitize_text 16 (some tx.status);
  risk_level = sanitize_text 8 (some tx.risk_level);
  token_symbol = unless_empty (sanitize_text 16 (some (or_default tx.token_symbol [])));
  token_amount = unless_empty (sanitize_text 40 (some (or_default tx.token_amount [])));
}

abbrev pub tx_json : BoundedTx → Str
tx_json t = json_object (
    (codes "hash", quoted t.hash)
    ∷ (codes "direction", quoted t.direction)
    ∷ (codes "counterparty", quoted t.counterparty)
    ∷ (codes "amount", quoted t.amount)
    ∷ (codes "symbol", quoted t.symbol)
    ∷ (codes "status", quoted t.status)
    ∷ (codes "risk_level", quoted t.risk_level)
    ∷ (codes "token_symbol", or_null t.token_symbol)
    ∷ (codes "token_amount", or_null t.token_amount)
    ∷ [])

abbrev pub system_prompt : Str
system_prompt =
    codes "You are an analyst for a read-only crypto wallet intelligence platform. "
    ++ codes "Your task is to summarize on-chain wallet activity for the user in plain language. "
    ++ codes "Rules you MUST follow:\n"
    ++ codes "- Distinguish clearly between factual on-chain data and your interpretation.\n"
    ++ codes "- Never output URLs, never output executable code, never output commands.\n"
    ++ codes
        "- Never claim a wallet is malicious unless you can cite an on-chain fact from the data.\n"
    ++ codes "- Do not provide financial advice.\n"
    ++ codes "- Keep the response under 200 words.\n"
    ++ codes "- Output a single plain-text explanation, no markdown, no JSON, no HTML.\n"

-- What the prompt says about the wallet itself.
pub record WalletFacts : Type 0 where
  pub chain : Str
  pub address : Str
  pub label : Option Str
  pub native_amount : Option ℤ
  pub native_symbol : Option Str
  pub total_usd : Option ℤ
  pub tokens_count : ℕ

-- `x if native_symbol else None`
abbrev pub symbol_of : Option Str → Option Str
symbol_of none = none
symbol_of (some s) = if is_empty s then none else some (sanitize_text 16 (some s))

take-take : {A : Type 0} (n : ℕ) (xs : List A) → take n (take n xs) ≡ take n xs
take-take zero xs = refl
take-take (suc n) [] = refl
take-take (suc n) (x ∷ xs) = ap (λ t. x ∷ t) (take-take n xs)

module _ (str_decimal : ℤ → Str) where
  -- `str(x) if x is not None else None`
  abbrev pub printed : Option ℤ → Option Str
  printed none = none
  printed (some d) = some (str_decimal d)

  unfoldable pub payload_json : WalletFacts → List BoundedTx → Str
  unfolding sanitize_text
  payload_json w txs = json_object (
      (codes "chain", quoted (sanitize_text max_field_len (some w.chain)))
      ∷ (codes "address", quoted (sanitize_text 80 (some w.address)))
      ∷ (codes "label", quoted (sanitize_text max_label_len w.label))
      ∷ (codes "native_amount", or_null (printed w.native_amount))
      ∷ (codes "native_symbol", or_null (symbol_of w.native_symbol))
      ∷ (codes "total_usd", or_null (printed w.total_usd))
      ∷ (codes "tokens_count", str_nat w.tokens_count)
      ∷ (codes "recent_transactions", json_array (map tx_json txs))
      ∷ [])

  -- The payload, where it is too long the one with five transactions, and where that is, its beginning.
  abbrev pub fitting : Str → Str → Str
  fitting full short =
      if ltb 8000 (length full)
      then (if ltb 8000 (length short) then take 8000 short else short)
      else full

  fitting_bound : (full short : Str) → length (fitting full short) ≤ 8000
  fitting_bound full short =
      if_by (λ t. length t ≤ 8000) (ltb 8000 (length full)) _ _
        (λ e.
          if_by (λ t. length t ≤ 8000) (ltb 8000 (length short)) _ _
            (λ e. omega (arith, length-take 8000 short)) (λ e. ground arith))
        (λ e. ground arith)

  unfoldable pub build_wallet_prompt : WalletFacts → List TxData → Str × Str
  unfolding payload_json bounded_tx
  build_wallet_prompt w recent =
      let bounded = map bounded_tx (take 20 recent) in
      (system_prompt, fitting (payload_json w bounded) (payload_json w (take 5 bounded)))

  -- The part for the user has at most 8000 characters, and a transaction behind the twentieth is
  -- neither in it nor changes it.
  pub build_wallet_prompt-IsBounded :
      (w : WalletFacts) (recent : List TxData)
      → (length (build_wallet_prompt w recent).1 ≤ 8000)
        × (build_wallet_prompt w (take 20 recent) ≡ build_wallet_prompt w recent)
  unfolding build_wallet_prompt
  build_wallet_prompt-IsBounded w recent = (
    fitting_bound (payload_json w (map bounded_tx (take 20 recent)))
        (payload_json w (take 5 (map bounded_tx (take 20 recent)))),
    ap
        (λ txs. (
          system_prompt,
          fitting (payload_json w (map bounded_tx txs))
              (payload_json w (take 5 (map bounded_tx txs))),
        ))
        (take-take 20 recent),
  )
