-- ===== src/Http/Attempts.antt =====
-- How the loops of apps/api/app/utils/http_retry.py end.
use mathlib.Core.List.{append_assoc, append-nil}
use crypto_intelligence_plat.Base.{
  Bool-cases, List, Option, Str, [], ap, arith, false, inl, inr, length, none, pos, pos_part, refl,
  some, suc, sym, zero, ℕ, ℤ, ◌++◌, ◌+ℤ◌, ◌+◌, ◌∙◌, ◌∷◌, ◌≡◌, ◌≢◌, ◌≤ℤ◌, ◌≤◌,
}
use crypto_intelligence_plat.Exec.{Result, ok}
use crypto_intelligence_plat.Http.{
  Answer, HttpResponse, HttpRetry, Outcome, Step, Streamed, after_attempt, answers, backoff,
  complete, declares_too_much, fails, finish, go_on, is_permanent_status, is_retryable_status,
  raises, read_body, rebuild, request, request_from, response, stop, streaming_request, timeout,
  times_out, transport,
}

-- The chunks of a body, one after the other.
unfoldable pub concat : List Str → Str
concat [] = []
concat (x ∷ xs) = x ++ concat xs

module _ (h : HttpRetry) (net : ℕ → Answer) (random : ℕ → ℕ) where
  abbrev pub step : ℕ → Step
  step i = after_attempt h i (streaming_request h (net i))

  -- From an attempt on, the first one that stops is `n` attempts later, with that result.
  abbrev pub StopsAfter : ℕ → ℕ → Result HttpResponse → Type 0
  StopsAfter zero i r = step i ≡ stop r
  StopsAfter (suc n) i r = ((d : Option ℕ) × (step i ≡ go_on d)) × StopsAfter n (suc i) r

  last_stops :
      (i : ℕ) (o : Outcome) (d : Option ℕ) → h.max_retries ≤ℤ pos i → after_attempt h i o ≢ go_on d
  unfolding after_attempt
  last_stops i timeout d le = ground arith
  last_stops i transport d le = ground arith
  last_stops i (raises e) d le = ground arith
  last_stops i (response r) d le = ground arith

  -- What the loop does with one step.
  abbrev of_step : ℕ → ℕ → Step → Result HttpResponse × List ℕ
  of_step n i x = elim x [
    | stop r ↦ (r, [])
    | go_on d ↦ (
      (request_from h net random n (suc i)).0,
      backoff h i d (random i) ∷ (request_from h net random n (suc i)).1,
    )
  ]

  abbrev IsFirstStop : ℕ → ℕ → Result HttpResponse × List ℕ → Type 0
  IsFirstStop n i p = (k : ℕ) × (k ≤ n) × StopsAfter k i p.0 × (length p.1 ≡ k)

  last_case :
      (i : ℕ) (x : Step)
      → step i ≡ x
      → h.max_retries ≤ℤ pos i
      → IsFirstStop zero i (of_step zero i x)
  last_case i (stop r) e le = (0, omega arith, e, refl)
  last_case i (go_on d) e le = absurd (last_stops i (streaming_request h (net i)) d le e)

  more_case :
      (n i : ℕ) (x : Step)
      → step i ≡ x
      → IsFirstStop n (suc i) (request_from h net random (suc n) (suc i))
      → IsFirstStop (suc n) i (of_step (suc n) i x)
  more_case n i (stop r) e ih = (0, omega arith, e, refl)
  more_case n i (go_on d) e (k, bound, stops, len) =
      (suc k, omega arith, ((d, e), stops), ap suc len)

  first_stop :
      (n i : ℕ)
      → h.max_retries ≤ℤ pos (i + n)
      → IsFirstStop n i (request_from h net random (suc n) i)
  unfolding request_from
  first_stop zero i le = last_case i (step i) refl (omega arith)
  first_stop (suc n) i le = more_case n i (step i) refl (first_stop n (suc i) (omega arith))

  rounds : (m : ℤ) (n : ℕ) → m ≡ pos n → pos_part (m +ℤ pos 1) ≡ suc n
  unfolding ◌+ℤ◌
  rounds m n e = ground arith

  in_range : (m : ℤ) (n : ℕ) → m ≡ pos n → m ≤ℤ pos (0 + n)
  in_range m n e = ground arith

  -- With retries that are not negative, a request ends with the first attempt that is decisive: it is
  -- at most `max_retries` attempts behind the first one, all before it were to be repeated, and the
  -- client has slept once for each of these.
  pub request-first_decisive :
      (n : ℕ)
      → h.max_retries ≡ pos n
      → (k : ℕ) × (k ≤ n)
        × StopsAfter k 0 (request h net random).0
        × (length (request h net random).1 ≡ k)
  unfolding request
  request-first_decisive n e =
      rw (rounds h.max_retries n e) (first_stop n 0 (in_range h.max_retries n e))

  -- The answer of an attempt that leads to the response `r`: the whole body was read within the
  -- limit, and `r` is what httpx makes of it, with the status of the answer.
  abbrev pub IsMadeOf : Answer → HttpResponse → Type 0
  IsMadeOf a r =
      (x : Streamed) × (body : Str) × (a ≡ answers x)
      × (declares_too_much h x.content_length ≡ false)
      × (concat x.chunks ≡ body)
      × (pos (length body) ≤ℤ h.max_response_bytes)
      × (x.ending ≡ complete)
      × (x.rebuilt body ≡ some r.content)
      × (r.status ≡ x.status)

  -- What a decisive attempt with a response may be.
  abbrev pub IsSound : ℕ → HttpResponse → Type 0
  IsSound n r =
      (is_permanent_status r.status ≡ false)
      × (is_retryable_status r.status ≡ false)
      × (i : ℕ) × (i ≤ n)
      × IsMadeOf (net i) r

  read_lem :
      (xs : List Str) (body out : Str)
      → read_body h.max_response_bytes xs body ≡ some out
      → pos (length body) ≤ℤ h.max_response_bytes
      → (body ++ concat xs ≡ out) × (pos (length out) ≤ℤ h.max_response_bytes)
  unfolding read_body concat
  read_lem [] body out e le =
      let same : body ≡ out = ground (arith, e) in (append-nil body ∙ same, rw (← same) le)
  read_lem (x ∷ xs) body out e le =
      let (joined, bound) = read_lem xs (body ++ x) out (ground arith) (ground arith) in
      (sym (append_assoc body x (concat xs)) ∙ joined, bound)

  ok_lem :
      (i : ℕ) (o : Outcome) (r : HttpResponse)
      → after_attempt h i o ≡ stop (ok r)
      → (o ≡ response r)
        × (is_permanent_status r.status ≡ false)
        × (is_retryable_status r.status ≡ false)
  unfolding after_attempt
  ok_lem i timeout r e = ground arith
  ok_lem i transport r e = ground arith
  ok_lem i (raises x) r e = ground arith
  ok_lem i (response q) r e = ground arith

  rebuild_lem :
      (x : Streamed) (o : Option Str) (r : HttpResponse)
      → rebuild x o ≡ response r
      → (o ≡ some r.content) × (r.status ≡ x.status)
  rebuild_lem x none r e = ground arith
  rebuild_lem x (some b) r e = ground arith

  ending_lem :
      (x : Streamed) (body : Str) (r : HttpResponse)
      → finish x (some body) ≡ response r
      → (x.ending ≡ complete) × (rebuild x (x.rebuilt body) ≡ response r)
  ending_lem x body r e = ground arith

  finish_lem :
      (x : Streamed) (o : Option Str) (r : HttpResponse)
      → finish x o ≡ response r
      → (body : Str) × (o ≡ some body)
        × (x.ending ≡ complete)
        × (x.rebuilt body ≡ some r.content)
        × (r.status ≡ x.status)
  finish_lem x none r e = absurd (ground arith)
  finish_lem x (some b) r e =
      let (whole, built) = ending_lem x b r e in
      let (content, status) = rebuild_lem x (x.rebuilt b) r built in
      (b, refl, whole, content, status)

  declared_lem :
      (x : Streamed) (r : HttpResponse)
      → streaming_request h (answers x) ≡ response r
      → (declares_too_much h x.content_length ≡ false)
        × (finish x (read_body h.max_response_bytes x.chunks []) ≡ response r)
  unfolding streaming_request
  declared_lem x r e = elim (Bool-cases (declares_too_much h x.content_length)) [
    | inl big ↦ absurd (ground arith)
    | inr small ↦ (small, ground arith)
  ]

  stream_lem :
      (a : Answer) (r : HttpResponse)
      → pos 0 ≤ℤ h.max_response_bytes
      → streaming_request h a ≡ response r
      → IsMadeOf a r
  stream_lem times_out r le e = absurd (unfold streaming_request in ground arith)
  stream_lem fails r le e = absurd (unfold streaming_request in ground arith)
  stream_lem (answers x) r le e =
      let (declared, finished) = declared_lem x r e in
      let (body, read, whole, content, status) =
        finish_lem x (read_body h.max_response_bytes x.chunks []) r finished in
      let (joined, bound) = read_lem x.chunks [] body read le in
      (x, body, refl, declared, joined, bound, whole, content, status)

  stops_IsSound :
      (k i n : ℕ) (r : HttpResponse)
      → pos 0 ≤ℤ h.max_response_bytes
      → i + k ≤ n
      → StopsAfter k i (ok r)
      → IsSound n r
  stops_IsSound zero i n r le bound e =
      let (o, permanent, retryable) = ok_lem i (streaming_request h (net i)) r e in
      (permanent, retryable, i, omega arith, stream_lem (net i) r le o)
  stops_IsSound (suc k) i n r le bound e = stops_IsSound k (suc i) n r le (omega arith) e.1

  -- A response that is returned has a status that is neither permanent nor to be retried, and one of
  -- the attempts allowed was answered with that status and read to its end: neither its Content-Length
  -- nor its chunks together exceed the limit, and the content is what httpx makes of the chunks by the
  -- headers.
  pub request-ok_IsSound :
      (n : ℕ) (r : HttpResponse)
      → h.max_retries ≡ pos n
      → pos 0 ≤ℤ h.max_response_bytes
      → (request h net random).0 ≡ ok r
      → IsSound n r
  request-ok_IsSound n r e le returned =
      let (k, bound, stops, len) = request-first_decisive n e in
      stops_IsSound k 0 n r le (omega arith) (rw⁻¹ returned stops)
