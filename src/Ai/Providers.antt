-- ===== src/Ai/Providers.antt =====
-- apps/api/app/ai/providers.py. The answer to the request is what the model of http_retry.py gives, with its
-- content type; JSON is a codec.
use crypto_intelligence_plat.Ai.Sanitize.{ai_error}
use crypto_intelligence_plat.Base.{
  Bool, List, Option, Str, [], codes, false, if◌then◌else◌, is_empty, length, none, not, one_of,
  or_default, pos, some, str_nat, suc, take, true, zero, ℕ, ◌&&◌, ◌++◌, ◌==◌, ◌∷◌,
}
use crypto_intelligence_plat.Config.{Settings, is_dev, is_production, mock_ai, openai}
use crypto_intelligence_plat.Errors.{runtime_error}
use crypto_intelligence_plat.Exec.{Result, err, ok}
use crypto_intelligence_plat.Http.{HttpResponse, assert_json_content_type}
use crypto_intelligence_plat.Tokens.{
  Json, JsonFields, JsonList, array, boolean, field, integer, item, lookup, no_fields, no_items,
  null, object, text,
}
use crypto_intelligence_plat.UrlSafety.{Url, UrlCodec, assert_safe_outbound_url}

-- `json.loads`, and `str` of a value that is no text.
pub record AiCodec : Type 0 where
  pub loads : Str → Option Json
  pub str_json : Json → Str

abbrev pub ai_host_allowlist : List Str
ai_host_allowlist = codes "api.openai.com" ∷ codes "api.anthropic.com" ∷ []

-- `urlparse(s.ai_base_url).hostname or ""`
abbrev pub host_of : Option Url → Str
host_of none = []
host_of (some u) = or_default u.hostname []

-- `rstrip("/")`
abbrev pub without_slashes : Str → Str
without_slashes [] = []
without_slashes (c ∷ s) =
    let rest = without_slashes s in if (c == 47) && is_empty rest then [] else c ∷ rest

abbrev pub checked_base : UrlCodec → Settings → Result (Unit {0}) → Result Str
checked_base c s (err e) = err e
checked_base c s (ok _) =
    if is_production s && not (one_of (host_of (c.urlparse s.ai_base_url)) ai_host_allowlist)
    then err (ai_error "AI_BASE_URL host not in production allowlist")
    else ok (without_slashes s.ai_base_url)

-- `OpenAiProvider.__init__`: the URL that requests start with.
unfoldable pub openai_base : UrlCodec → Settings → Result Str
openai_base c s =
    if is_empty s.ai_api_key
    then err (ai_error "AI_API_KEY required for openai provider")
    else checked_base c s (assert_safe_outbound_url c (is_dev s) false s.ai_base_url)

-- Subscripts; a `KeyError`, an `IndexError` and a `TypeError` are none.
abbrev pub at_key : Str → Option Json → Option Json
at_key name (some (object fs)) = lookup name fs
at_key name _ = none

abbrev pub at_zero : Option Json → Option Json
at_zero (some (array (item v vs))) = some v
at_zero _ = none

abbrev pub of_content : Option Json → Result Str
of_content none = err (ai_error "openai malformed response")
of_content (some (text s)) = ok s
of_content (some _) = err (ai_error "openai returned non-string content")

abbrev pub of_body : Option Json → Result Str
of_body none = err (ai_error "openai non-json response")
of_body (some data_json) = of_content (
    at_key (codes "content")
      (at_key (codes "message") (at_zero (at_key (codes "choices") (some data_json)))))

abbrev pub of_checked : AiCodec → Str → Result (Unit {0}) → Result Str
of_checked c body (err e) = err e
of_checked c body (ok _) = of_body (c.loads body)

-- `OpenAiProvider.complete`: any exception of the request is an error of the model.
unfoldable pub openai_complete : AiCodec → Result (Str × HttpResponse) → Result Str
openai_complete c (err e) = err (ai_error "openai request failed")
openai_complete c (ok (content_type, r)) =
    of_checked c r.content (assert_json_content_type content_type)

-- What `or` takes as false.
abbrev pub is_falsy : Json → Bool
is_falsy null = true
is_falsy (boolean b) = not b
is_falsy (integer (pos zero)) = true
is_falsy (text []) = true
is_falsy (array no_items) = true
is_falsy (object no_fields) = true
is_falsy _ = false

abbrev pub count_items : JsonList → ℕ
count_items no_items = 0
count_items (item v vs) = suc (count_items vs)

abbrev pub count_fields : JsonFields → ℕ
count_fields no_fields = 0
count_fields (field k v fs) = suc (count_fields fs)

-- `len`, of what has one.
abbrev pub len_of : Json → Option ℕ
len_of (text s) = some (length s)
len_of (array vs) = some (count_items vs)
len_of (object fs) = some (count_fields fs)
len_of _ = none

abbrev pub shown_json : AiCodec → Json → Str
shown_json c (text s) = s
shown_json c v = c.str_json v

abbrev pub unless_falsy : Option Json → Json → Json
unless_falsy none d = d
unless_falsy (some v) d = if is_falsy v then d else v

abbrev pub first_ten : Json → Option Str
first_ten (text s) = some (take 10 s)
first_ten _ = none

abbrev pub mock_text : Str → Str → ℕ → Str → Str
mock_text chain address count label =
    codes "Factual data: wallet on "
    ++ chain
    ++ codes " at "
    ++ address
    ++ codes " shows "
    ++ str_nat count
    ++ codes " recent transactions, label is "
    ++ label
    ++ codes ". Interpretation: based on the on-chain activity alone, "
    ++ codes "this wallet appears to be a normal user wallet. "
    ++ codes "This is an automated interpretation, not financial advice."

abbrev pub mock_of : Str → Str → Option ℕ → Option Str → Result Str
mock_of chain label none _ = err runtime_error
mock_of chain label (some n) none = err runtime_error
mock_of chain label (some n) (some address) = ok (mock_text chain address n label)

abbrev pub mock_answer : AiCodec → JsonFields → Result Str
mock_answer c fs =
    mock_of (shown_json c (or_default (lookup (codes "chain") fs) (text (codes "unknown"))))
      (shown_json c (unless_falsy (lookup (codes "label") fs) (text (codes "(no label)"))))
      (len_of (unless_falsy (lookup (codes "recent_transactions") fs) (array no_items)))
      (first_ten (or_default (lookup (codes "address") fs) (text [])))

abbrev pub mock_of_data : AiCodec → Option Json → Result Str
mock_of_data c none = mock_answer c no_fields
mock_of_data c (some (object fs)) = mock_answer c fs
mock_of_data c (some _) = err runtime_error

-- `MockAiProvider.complete`. What is neither a text nor counted raises a `TypeError`, and what is no
-- object an `AttributeError`.
unfoldable pub mock_complete : AiCodec → Str → Result Str
mock_complete c user = mock_of_data c (c.loads user)

abbrev pub with_base :
    AiCodec
    → (Str → Str → Str → ℕ → Result (Str × HttpResponse))
    → Result Str
    → Result (Str → Str → ℕ → Result Str)
with_base c network (err e) = err e
with_base c network (ok base) = ok (λ system user attempt.
    openai_complete c (network (base ++ codes "/chat/completions") system user attempt))

-- `get_ai_provider`: what answers a prompt at an attempt.
unfoldable pub get_ai_provider :
    UrlCodec
    → AiCodec
    → Settings
    → (Str → Str → Str → ℕ → Result (Str × HttpResponse))
    → Result (Str → Str → ℕ → Result Str)
unfolding openai_base openai_complete mock_complete
get_ai_provider uc c s network = elim s.ai_provider_source [
  | openai ↦ with_base c network (openai_base uc s)
  | mock_ai ↦ ok (λ system user attempt. mock_complete c user)
]
