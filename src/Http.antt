-- ===== src/Http.antt =====
-- apps/api/app/utils/http_retry.py: requests to a provider that are tried again. The network is the
-- sequence of its answers, one per attempt; a delay is a number of milliseconds, and the random
-- fraction of a backoff comes from a list as the answers do.
pub mod Attempts
pub mod Transient
use crypto_intelligence_plat.Base.{
  Bool, List, Option, Str, [], codes, false, if◌then◌else◌, leb_ℤ, length, lower, ltb_ℤ, map, min,
  negsuc, none, not, or_default, pos, pos_part, some, starts_with, suc, true, zero, ℕ, ℤ, ◌*◌, ◌++◌,
  ◌+ℤ◌, ◌/◌, ◌==◌, ◌^◌, ◌||◌, ◌∷◌,
}
use crypto_intelligence_plat.Config.{Settings}
use crypto_intelligence_plat.Errors.{
  ErrorClass, Exn, app_error, decoding_error, provider_error, provider_permanent,
  provider_retryable, provider_timeout,
}
use crypto_intelligence_plat.Exec.{Result, err, ok}

-- A response as it streams in: the status, Content-Length if it is there and not empty (none inside
-- where it is no number), Retry-After in milliseconds likewise, and the body by the chunks that httpx
-- decodes, behind which the connection may stall until the timeout or break, or the decoding fail.
-- `rebuilt` is what `httpx.Response(headers=resp.headers, content=...)` has as its content: httpx
-- decodes what it is given by the Content-Encoding among the headers, none where that fails.
pub data Ending : Type 0 where
  complete stalls breaks undecodable : Ending

pub record Streamed : Type 0 where
  pub status : ℕ
  pub content_length : Option (Option ℤ)
  pub retry_after_ms : Option (Option ℤ)
  pub chunks : List Str
  pub ending : Ending
  pub rebuilt : Str → Option Str

-- What `client.send` does: it times out, fails otherwise on the way, or answers.
pub data Answer : Type 0 where
  times_out fails : Answer
  answers : Streamed → Answer

pub record HttpResponse : Type 0 where
  pub status : ℕ
  pub retry_after_ms : Option (Option ℤ)
  pub content : Str

pub record HttpRetry : Type 0 where
  pub max_retries : ℤ
  pub base_backoff : ℕ
  pub max_backoff : ℕ
  pub max_response_bytes : ℤ

-- `HttpRetry(max_retries=...)`: what is not given comes from the settings.
abbrev pub make_http_retry : Settings → Option ℤ → Option ℤ → HttpRetry
make_http_retry s retries max_bytes = record {
  max_retries = or_default retries s.provider_max_retries;
  base_backoff = 500;
  max_backoff = 30000;
  max_response_bytes = or_default max_bytes s.provider_max_response_bytes;
}

-- How one attempt ends: a timeout, a transport error, a response, or an exception that goes on.
pub data Outcome : Type 0 where
  timeout transport : Outcome
  response : HttpResponse → Outcome
  raises : Exn → Outcome

abbrev pub too_large : Outcome
too_large = raises (provider_error provider_permanent "response too large")

abbrev pub body_too_large : Outcome
body_too_large = raises (provider_error provider_permanent "response body exceeded")

-- The declared size, -1 where it is no number; without the header nothing is tested.
abbrev pub declares_too_much : HttpRetry → Option (Option ℤ) → Bool
declares_too_much h none = false
declares_too_much h (some none) = ltb_ℤ h.max_response_bytes (negsuc 0)
declares_too_much h (some (some size)) = ltb_ℤ h.max_response_bytes size

-- The loop over the chunks: the whole body, or none where it grows past the limit.
unfoldable pub read_body : ℤ → List Str → Str → Option Str
read_body max_bytes [] body = some body
read_body max_bytes (x ∷ xs) body =
    let rest = read_body max_bytes xs (body ++ x) in
    if ltb_ℤ max_bytes (pos (length (body ++ x))) then none else rest

-- The response that is built again. A `DecodingError` is neither a timeout nor a transport error.
abbrev pub rebuild : Streamed → Option Str → Outcome
rebuild r none = raises decoding_error
rebuild r (some content) =
    response (record { status = r.status; retry_after_ms = r.retry_after_ms; content = content })

abbrev pub finish : Streamed → Option Str → Outcome
finish r none = body_too_large
finish r (some body) = elim r.ending [
  | complete ↦ rebuild r (r.rebuilt body)
  | stalls ↦ timeout
  | breaks ↦ transport
  | undecodable ↦ raises decoding_error
]

unfoldable pub streaming_request : HttpRetry → Answer → Outcome
unfolding read_body
streaming_request h times_out = timeout
streaming_request h fails = transport
streaming_request h (answers r) =
    if declares_too_much h r.content_length
    then too_large
    else finish r (read_body h.max_response_bytes r.chunks [])

-- `max(0.0, min(parsed, 60.0))`
unfoldable pub parse_retry_after : Option (Option ℤ) → Option ℕ
parse_retry_after none = none
parse_retry_after (some none) = none
parse_retry_after (some (some v)) = some (min (pos_part v) 60000)

-- The random part is `permille` thousandths of the upper bound.
unfoldable pub backoff : HttpRetry → ℕ → Option ℕ → ℕ → ℕ
backoff h attempt (some d) permille = d
backoff h attempt none permille = min h.max_backoff (h.base_backoff * 2 ^ attempt) * permille / 1000

abbrev pub is_permanent_status : ℕ → Bool
is_permanent_status c = (c == 400) || (c == 401) || (c == 403) || (c == 404) || (c == 422)

abbrev pub is_retryable_status : ℕ → Bool
is_retryable_status c = (c == 429) || (c == 500) || (c == 502) || (c == 503) || (c == 504)

-- What the body of the loop does after an attempt: stop with a result, or go on after a delay
-- that the response asks for.
pub data Step : Type 0 where
  stop : Result HttpResponse → Step
  go_on : Option ℕ → Step

unfoldable pub after_attempt : HttpRetry → ℕ → Outcome → Step
unfolding parse_retry_after
after_attempt h attempt timeout =
    if leb_ℤ h.max_retries (pos attempt)
    then stop (err (provider_error provider_timeout "provider timeout"))
    else go_on none
after_attempt h attempt transport =
    if leb_ℤ h.max_retries (pos attempt)
    then stop (err (provider_error provider_retryable "provider transport error"))
    else go_on none
after_attempt h attempt (raises e) = stop (err e)
after_attempt h attempt (response r) =
    if is_permanent_status r.status
    then stop (err (provider_error provider_permanent "provider permanent error"))
    else if not (is_retryable_status r.status)
    then stop (ok r)
    else if leb_ℤ h.max_retries (pos attempt)
    then stop (err (provider_error provider_retryable "provider retryable error"))
    else go_on (parse_retry_after r.retry_after_ms)

abbrev pub unreachable : {A : Type 0} → Result A
unreachable = err (provider_error ErrorClass.provider "unreachable retry state")

-- The loop, with the attempts that are left and the number of the next: the result and the delays.
module _ (h : HttpRetry) (net : ℕ → Answer) (random : ℕ → ℕ) where
  unfoldable pub request_from : ℕ → ℕ → Result HttpResponse × List ℕ
  unfolding after_attempt streaming_request backoff
  request_from zero attempt = (unreachable, [])
  request_from (suc n) attempt =
      let rest = request_from n (suc attempt) in
      elim (after_attempt h attempt (streaming_request h (net attempt))) [
        | stop r ↦ (r, [])
        | go_on d ↦ (rest.0, backoff h attempt d (random attempt) ∷ rest.1)
      ]

  -- `range(self.max_retries + 1)`
  unfoldable pub request : Result HttpResponse × List ℕ
  unfolding request_from
  request = request_from (pos_part (h.max_retries +ℤ pos 1)) 0

-- `except (ProviderRetryableError, ProviderTimeoutError)`
abbrev pub is_transient : Exn → Bool
is_transient (app_error e) = elim e.class_of [
  | provider_retryable ↦ true
  | provider_timeout ↦ true
  | _ ↦ false
]
is_transient _ = false

module _ {A : Type 0} (fn : ℕ → Result A) (max_retries : ℤ) (base_backoff : ℕ)
    (random : ℕ → ℕ) where
  unfoldable pub with_retry_from : ℕ → ℕ → Result A × List ℕ
  with_retry_from zero attempt = (unreachable, [])
  with_retry_from (suc n) attempt =
      let rest = with_retry_from n (suc attempt) in
      elim (fn attempt) [
        | ok a ↦ (ok a, [])
        | err e ↦
            if not (is_transient e) || leb_ℤ max_retries (pos attempt)
            then (err e, [])
            else (rest.0, min 30000 (base_backoff * 2 ^ attempt) * random attempt / 1000 ∷ rest.1)
      ]

  unfoldable pub with_retry : Result A × List ℕ
  unfolding with_retry_from
  with_retry = with_retry_from (pos_part (max_retries +ℤ pos 1)) 0

-- `p in s`
abbrev pub has_text : Str → Str → Bool
has_text p [] = starts_with p []
has_text p (c ∷ s) = starts_with p (c ∷ s) || has_text p s

-- On the Content-Type header, empty where it is missing.
unfoldable pub assert_json_content_type : Str → Result (Unit {0})
assert_json_content_type ct =
    if has_text (codes "application/json") (map lower ct)
    then ok tt
    else err (provider_error provider_permanent "unexpected content-type")
