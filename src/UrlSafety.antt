-- ===== src/UrlSafety.antt =====
-- apps/api/app/utils/url_safety.py: which URLs the program may call, and the address that it connects
-- to. `urlparse`, the host that httpx reads in a URL, `ipaddress` and the resolver are a codec; a
-- `ValueError` or `gaierror` is none.
pub mod Outbound
use crypto_intelligence_plat.Base.{
  Bool, List, Option, Str, [], codes, false, if◌then◌else◌, is_empty, leb, lower, map, none, not,
  one_of, or_default, some, str_eq, ℕ, ◌%◌, ◌&&◌, ◌/◌, ◌==◌, ◌^◌, ◌||◌, ◌∷◌,
}
use crypto_intelligence_plat.Config.{is_dev}
use crypto_intelligence_plat.Errors.{runtime_error, validation_error}
use crypto_intelligence_plat.Exec.{Result, err, ok}

-- An address by its number.
pub data Ip : Type 0 where
  v4 v6 : ℕ → Ip

pub record Url : Type 0 where
  pub scheme : Str
  pub username : Option Str
  pub password : Option Str
  pub hostname : Option Str

pub record UrlCodec : Type 0 where
  pub urlparse : Str → Option Url
  pub request_host : Str → Option Str
  pub ip_address : Str → Option Ip
  pub str_ip : Ip → Str
  pub is_loopback : Ip → Bool
  pub is_private : Ip → Bool
  pub is_link_local : Ip → Bool
  pub is_multicast : Ip → Bool
  pub is_reserved : Ip → Bool
  pub is_unspecified : Ip → Bool
  pub getaddrinfo : Str → Option (List Str)

abbrev pub blocked_hosts : List Str
blocked_hosts = codes "localhost" ∷ codes "ip6-localhost" ∷ codes "ip6-loopback" ∷ []

-- `ipv4_mapped`: ::ffff:0:0/96
abbrev pub mapped_v4 : ℕ → Option ℕ
mapped_v4 n = if n / 2 ^ 32 == 65535 then some (n % 2 ^ 32) else none

-- `if x`, of a text that may be None
abbrev pub present : Option Str → Bool
present none = false
present (some s) = not (is_empty s)

-- What `handle_async_request` sends to: the host of the URL, and the name kept for the Host header and
-- for SNI where the host was a name.
pub record Target : Type 0 where
  pub url_host : Str
  pub host_name : Option Str

module _ (c : UrlCodec) where
  abbrev pub has_blocked_kind : Ip → Bool
  has_blocked_kind ip =
      c.is_loopback ip
      || c.is_private ip
      || c.is_link_local ip
      || c.is_multicast ip
      || c.is_reserved ip
      || c.is_unspecified ip

  -- 0.0.0.0 to 0.255.255.255
  unfoldable pub is_blocked_v4 : ℕ → Bool
  is_blocked_v4 n = has_blocked_kind (v4 n) || leb n 16777215

  abbrev pub is_blocked_mapped : Option ℕ → Bool
  is_blocked_mapped none = false
  is_blocked_mapped (some n) = is_blocked_v4 n

  unfoldable pub is_blocked_ip : Ip → Bool
  unfolding is_blocked_v4
  is_blocked_ip (v4 n) = is_blocked_v4 n
  is_blocked_ip (v6 n) = has_blocked_kind (v6 n) || is_blocked_mapped (mapped_v4 n)

  -- An address that is none, since the host is a name, is not blocked.
  abbrev pub blocked_literal : Option Ip → Bool
  blocked_literal none = false
  blocked_literal (some ip) = is_blocked_ip ip

  abbrev pub check_host : Str → Result (Unit {0})
  check_host host =
      if is_empty host
      then err (validation_error "missing host")
      else if one_of (map lower host) blocked_hosts
      then err (validation_error "blocked host")
      else if blocked_literal (c.ip_address host)
      then err (validation_error "blocked ip range")
      else ok tt

  abbrev pub check_url : Bool → Bool → Option Url → Result (Unit {0})
  check_url is_dev allow_http none = err (validation_error "invalid url")
  check_url is_dev allow_http (some u) =
      if not (one_of (map lower u.scheme) (codes "https" ∷ codes "http" ∷ []))
      then err (validation_error "forbidden scheme")
      else if str_eq (map lower u.scheme) (codes "http") && not allow_http && not is_dev
      then err (validation_error "http forbidden in production")
      else if present u.username || present u.password
      then err (validation_error "credentials in url forbidden")
      else check_host (or_default u.hostname [])

  unfoldable pub assert_safe_outbound_url : Bool → Bool → Str → Result (Unit {0})
  unfolding is_blocked_ip
  assert_safe_outbound_url is_dev allow_http url =
      if is_empty url
      then err (validation_error "invalid url")
      else check_url is_dev allow_http (c.urlparse url)

  abbrev pub with_address : Ip → Result (List Str) → Result (List Str)
  with_address ip (ok ips) = ok (c.str_ip ip ∷ ips)
  with_address ip (err e) = err e

  abbrev pub next_address : Option Ip → Result (List Str) → Result (List Str)
  next_address none rest = rest
  next_address (some ip) rest =
      if is_blocked_ip ip
      then err (validation_error "blocked ip in dns response")
      else with_address ip rest

  -- The loop over the answer of the resolver.
  unfoldable pub valid_addresses : List Str → Result (List Str)
  unfolding is_blocked_ip
  valid_addresses [] = ok []
  valid_addresses (a ∷ as_found) = next_address (c.ip_address a) (valid_addresses as_found)

  abbrev pub some_address : Result (List Str) → Result (List Str)
  some_address (ok []) = err (validation_error "no valid dns addresses")
  some_address r = r

  abbrev pub of_answer : Option (List Str) → Result (List Str)
  of_answer none = err (validation_error "dns resolution failed")
  of_answer (some found) = some_address (valid_addresses found)

  unfoldable pub resolve_and_validate_host : Str → Result (List Str)
  unfolding valid_addresses
  resolve_and_validate_host host = of_answer (c.getaddrinfo host)

  abbrev pub first_address : Str → Result (List Str) → Result Target
  first_address host (ok (ip ∷ ips)) = ok (record { url_host = ip; host_name = some host })
  first_address host (ok []) = err runtime_error
  first_address host (err e) = err e

  abbrev pub target_of : Str → Option Ip → Result Target
  target_of host (some ip) = ok (record { url_host = host; host_name = none })
  target_of host none = first_address host (resolve_and_validate_host host)

  -- On `request.url.host`.
  unfoldable pub handle_async_request : Option Str → Result Target
  unfolding resolve_and_validate_host
  handle_async_request none = err (validation_error "missing host")
  handle_async_request (some host) = target_of host (c.ip_address host)
