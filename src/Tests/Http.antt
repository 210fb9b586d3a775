-- ===== src/Tests/Http.antt =====
-- Requests to a provider that are repeated.
use crypto_intelligence_plat.Base.{
  [], ap, arith, codes, length, none, pos, refl, some, suc, zero, ℕ, ◌+ℤ◌, ◌∷◌, ◌≡◌, ◌≤◌,
}
use crypto_intelligence_plat.Errors.{ErrorClass, provider_error}
use crypto_intelligence_plat.Exec.{Result, err, ok}
use crypto_intelligence_plat.Http.{
  Answer, HttpResponse, HttpRetry, Streamed, after_attempt, answers, backoff, complete,
  parse_retry_after, read_body, request, request_from, streaming_request, times_out, with_retry,
}
use crypto_intelligence_plat.Http.Attempts.{
  IsSound, StopsAfter, request-first_decisive, request-ok_IsSound,
}
use crypto_intelligence_plat.Http.Transient.{with_retry-succeeds}

abbrev toy_retry : HttpRetry
toy_retry = record {
  max_retries = pos 2;
  base_backoff = 500;
  max_backoff = 30000;
  max_response_bytes = pos 10;
}

abbrev page : ℕ → Streamed
page code = record {
  status = code;
  content_length = none;
  retry_after_ms = some (some (pos 90000));
  chunks = codes "ab" ∷ codes "cd" ∷ [];
  ending = complete;
  rebuilt = λ body. some body;
}

-- Too many requests, then a timeout, then a page.
abbrev toy_net : ℕ → Answer
toy_net zero = answers (page 429)
toy_net (suc zero) = times_out
toy_net (suc (suc _)) = answers (page 200)

abbrev toy_random : ℕ → ℕ
toy_random i = 500

abbrev toy_response : HttpResponse
toy_response = record {
  status = 200;
  retry_after_ms = some (some (pos 90000));
  content = codes "abcd";
}

-- Retry-After is cut to a minute, and the second backoff is half of a second.
third_time : request toy_retry toy_net toy_random ≡ (ok toy_response, 60000 ∷ 500 ∷ [])
unfolding request request_from after_attempt streaming_request read_body parse_retry_after backoff
    ◌+ℤ◌
third_time = refl

request-first_decisive_example :
    (k : ℕ) × (k ≤ 2)
    × StopsAfter toy_retry toy_net toy_random k 0 (request toy_retry toy_net toy_random).0
    × (length (request toy_retry toy_net toy_random).1 ≡ k)
request-first_decisive_example = request-first_decisive toy_retry toy_net toy_random 2 refl

request-ok_IsSound_example : IsSound toy_retry toy_net toy_random 2 toy_response
request-ok_IsSound_example =
    request-ok_IsSound toy_retry toy_net toy_random 2 toy_response refl (omega arith)
      (ap (λ x. x.0) third_time)

-- A call that times out once.
abbrev flaky : ℕ → Result ℕ
flaky zero = err (provider_error ErrorClass.provider_timeout "provider timeout")
flaky (suc _) = ok 7

with_retry-succeeds_example :
    ((with_retry flaky (pos 4) 500 toy_random).0 ≡ ok 7)
    × (length (with_retry flaky (pos 4) 500 toy_random).1 ≡ 1)
with_retry-succeeds_example =
    with_retry-succeeds flaky (pos 4) 500 toy_random 1 4 7 refl (omega arith)
      ((provider_error ErrorClass.provider_timeout "provider timeout", refl, refl), refl)
