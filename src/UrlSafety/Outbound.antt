-- ===== src/UrlSafety/Outbound.antt =====
-- Where the requests that apps/api/app/utils/url_safety.py lets out end up.
use crypto_intelligence_plat.Base.{
  All, Bool, List, Option, Str, [], all, ap, arith, false, if◌then◌else◌, none, or_default, refl,
  some, sym, true, ◌∙◌, ◌∷◌, ◌≡◌,
}
use crypto_intelligence_plat.Config.{is_dev}
use crypto_intelligence_plat.Errors.{validation_error}
use crypto_intelligence_plat.Exec.{Result, err, err_not_ok, ok, ok_injective}
use crypto_intelligence_plat.UrlSafety.{
  Ip, Target, Url, UrlCodec, assert_safe_outbound_url, blocked_literal, check_host, check_url,
  first_address, handle_async_request, is_blocked_ip, next_address, of_answer,
  resolve_and_validate_host, some_address, target_of, valid_addresses,
}

module _ (c : UrlCodec) where
  -- An address that is one, and is not blocked.
  abbrev pub IsPublic : Str → Type 0
  IsPublic a = (ip : Ip) × (c.ip_address a ≡ some ip) × (is_blocked_ip c ip ≡ false)

  abbrev pub Prints : Type 0
  Prints = (ip : Ip) → c.ip_address (c.str_ip ip) ≡ some ip

  next-IsPublic :
      (o : Option Ip) (r : Result (List Str)) (ips : List Str)
      → Prints
      → ((is : List Str) → r ≡ ok is → All IsPublic is)
      → next_address c o r ≡ ok ips
      → All IsPublic ips
  next-IsPublic none r ips prints ih e = ih ips e
  next-IsPublic (some ip) (ok is) ips prints ih e = of_test (is_blocked_ip c ip) refl e
    where
      of_test :
          (b : Bool)
          → is_blocked_ip c ip ≡ b
          → (if b
              then err (validation_error "blocked ip in dns response")
              else ok (c.str_ip ip ∷ is))
            ≡ ok ips
          → All IsPublic ips
      of_test true hb h = absurd (err_not_ok h)
      of_test false hb h = rw (sym (ok_injective h)) ((ip, prints ip, hb), ih is refl)
  next-IsPublic (some ip) (err x) ips prints ih e = of_test (is_blocked_ip c ip) e
    where
      of_test :
          (b : Bool)
          → (if b then err (validation_error "blocked ip in dns response") else err x) ≡ ok ips
          → All IsPublic ips
      of_test true h = absurd (err_not_ok h)
      of_test false h = absurd (err_not_ok h)

  addresses-IsPublic :
      (found ips : List Str) → Prints → valid_addresses c found ≡ ok ips → All IsPublic ips
  unfolding valid_addresses
  addresses-IsPublic [] ips prints e = rw (sym (ok_injective e)) tt
  addresses-IsPublic (a ∷ rest) ips prints e =
      next-IsPublic (c.ip_address a) (valid_addresses c rest) ips prints
        (λ is h. addresses-IsPublic rest is prints h) e

  first-IsPublic :
      (host : Str) (r : Result (List Str)) (t : Target)
      → ((ips : List Str) → r ≡ ok ips → All IsPublic ips)
      → first_address c host r ≡ ok t
      → IsPublic t.url_host × (t.host_name ≡ some host)
  first-IsPublic host (ok []) t all e = absurd (err_not_ok e)
  first-IsPublic host (ok (ip ∷ ips)) t all e =
      rw (sym (ok_injective e)) ((all (ip ∷ ips) refl).0, refl)
  first-IsPublic host (err x) t all e = absurd (err_not_ok e)

  answer-IsPublic :
      (o : Option (List Str)) (ips : List Str) → Prints → of_answer c o ≡ ok ips → All IsPublic ips
  answer-IsPublic none ips prints e = absurd (err_not_ok e)
  answer-IsPublic (some found) ips prints e = of_found (valid_addresses c found) refl e
    where
      of_found :
          (r : Result (List Str))
          → valid_addresses c found ≡ r
          → some_address c r ≡ ok ips
          → All IsPublic ips
      of_found (ok []) q h = absurd (err_not_ok h)
      of_found (ok (x ∷ xs)) q h = addresses-IsPublic found ips prints (q ∙ h)
      of_found (err x) q h = absurd (err_not_ok h)

  checked_host :
      (host : Str) → check_host c host ≡ ok tt → blocked_literal c (c.ip_address host) ≡ false
  checked_host host e = ground arith

  checked_url :
      (is_dev allow_http : Bool) (u : Url)
      → check_url c is_dev allow_http (some u) ≡ ok tt
      → check_host c (or_default u.hostname []) ≡ ok tt
  checked_url is_dev allow_http u e = ground arith

  literal-IsPublic :
      (host : Str) (o : Option Ip) (t : Target)
      → c.ip_address host ≡ o
      → blocked_literal c o ≡ false
      → Prints
      → target_of c host o ≡ ok t
      → IsPublic t.url_host
  unfolding resolve_and_validate_host
  literal-IsPublic host (some ip) t q open_ip prints e = rw (sym (ok_injective e)) (ip, q, open_ip)
  literal-IsPublic host none t q open_ip prints e =
      (first-IsPublic host (of_answer c (c.getaddrinfo host)) t
        (λ ips h. answer-IsPublic (c.getaddrinfo host) ips prints h) e).0

  safe_checked :
      (is_dev allow_http : Bool) (url : Str)
      → assert_safe_outbound_url c is_dev allow_http url ≡ ok tt
      → check_url c is_dev allow_http (c.urlparse url) ≡ ok tt
  unfolding assert_safe_outbound_url
  safe_checked is_dev allow_http url safe = ground arith

  url_checked :
      (is_dev allow_http : Bool) (url host : Str) (u : Url)
      → c.urlparse url ≡ some u
      → u.hostname ≡ some host
      → assert_safe_outbound_url c is_dev allow_http url ≡ ok tt
      → blocked_literal c (c.ip_address host) ≡ false
  url_checked is_dev allow_http url host u parsed named safe = checked_host host (
      sym (ap (λ o. check_host c (or_default o [])) named)
      ∙ checked_url is_dev allow_http u (
          sym (ap (check_url c is_dev allow_http) parsed)
          ∙ safe_checked is_dev allow_http url safe))

  -- Where `str` prints an address so that it reads back and httpx reads the host in the URL that
  -- `urlparse` reads, the request for a URL which `assert_safe_outbound_url` accepts, when it is sent at
  -- all, is sent to an address that is one and is not blocked: the literal in the URL itself, or one
  -- the resolver gave and that was checked.
  pub handle_async_request-IsPublic :
      (is_dev allow_http : Bool) (url host : Str) (u : Url) (t : Target)
      → Prints
      → c.urlparse url ≡ some u
      → u.hostname ≡ some host
      → c.request_host url ≡ some host
      → assert_safe_outbound_url c is_dev allow_http url ≡ ok tt
      → handle_async_request c (c.request_host url) ≡ ok t
      → IsPublic t.url_host
  unfolding handle_async_request
  handle_async_request-IsPublic is_dev allow_http url host u t prints parsed named read safe sent =
      literal-IsPublic host (c.ip_address host) t refl
        (url_checked is_dev allow_http url host u parsed named safe) prints
        (sym (ap (handle_async_request c) read) ∙ sent)
