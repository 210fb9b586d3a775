-- ===== src/Tests/Network.antt =====
-- Addresses of clients and of the hosts that the program calls.
use crypto_intelligence_plat.Base.{
  Bool, Option, Str, [], codes, false, lower, none, refl, some, split_on, str_eq, strip, ◌++◌, ◌/◌,
  ◌==◌, ◌^◌, ◌∷◌, ◌≡◌,
}
use crypto_intelligence_plat.ClientIp.{
  IpCodec, from_parts, hops_of, ip_in_networks, parse_trusted_networks, trusted_client_ip, walk,
}
use crypto_intelligence_plat.ClientIp.Spoofing.{Stops, trusted_client_ip-ignores_prefix}
use crypto_intelligence_plat.Config.{Settings, stripped_parts, trusted_proxies}
use crypto_intelligence_plat.Errors.{validation_error}
use crypto_intelligence_plat.Exec.{err, ok}
use crypto_intelligence_plat.Tests.Sessions.{live_settings}
use crypto_intelligence_plat.UrlSafety.{
  Ip, Target, Url, UrlCodec, assert_safe_outbound_url, handle_async_request, is_blocked_ip,
  is_blocked_v4, resolve_and_validate_host, v4, v6, valid_addresses,
}
use crypto_intelligence_plat.UrlSafety.Outbound.{IsPublic, Prints, handle_async_request-IsPublic}

-- An address is its text, and a network is one address.
abbrev toy_ips : IpCodec
toy_ips = record {
  Ip = Str;
  Net = Str;
  ip_address = λ s. some s;
  ip_network = λ s. some s;
  host_network = λ ip. ip;
  contains = λ net ip. str_eq net ip;
}

abbrev behind_proxy : Settings
behind_proxy = record live_settings { rate_limit_trusted_proxies_raw = codes "10.0.0.1" }

Stops-at_client :
    Stops toy_ips
      (parse_trusted_networks toy_ips (trusted_proxies behind_proxy))
      (codes "10.0.0.1")
      (hops_of toy_ips (codes " 7.7.7.7"))
unfolding parse_trusted_networks stripped_parts split_on strip ip_in_networks str_eq
Stops-at_client = refl

-- The address 1.1.1.1 is made up by the client at 7.7.7.7.
made_up :
    trusted_client_ip toy_ips behind_proxy (codes "10.0.0.1") (codes "1.1.1.1, 7.7.7.7")
    ≡ codes "7.7.7.7"
unfolding trusted_client_ip from_parts walk parse_trusted_networks stripped_parts split_on strip
    ip_in_networks str_eq
made_up = refl

trusted_client_ip-ignores_prefix_example :
    trusted_client_ip toy_ips behind_proxy
      (codes "10.0.0.1")
      (codes "1.1.1.1" ++ 44 ∷ codes " 7.7.7.7")
    ≡ trusted_client_ip toy_ips behind_proxy (codes "10.0.0.1") (codes " 7.7.7.7")
trusted_client_ip-ignores_prefix_example =
    trusted_client_ip-ignores_prefix toy_ips behind_proxy (codes "10.0.0.1") (codes "1.1.1.1")
      (codes " 7.7.7.7") Stops-at_client

-- A text of one character is an address of IPv4, one of two an address of IPv6.
abbrev short_ip : Str → Option Ip
short_ip (n ∷ []) = some (v4 n)
short_ip (n ∷ _ ∷ []) = some (v6 n)
short_ip _ = none

abbrev print_ip : Ip → Str
print_ip (v4 n) = n ∷ []
print_ip (v6 n) = n ∷ n ∷ []

-- 10.0.0.0/8
abbrev toy_private : Ip → Bool
toy_private (v4 n) = n / 2 ^ 24 == 10
toy_private (v6 n) = false

abbrev parsed_url : Url
parsed_url = record {
  scheme = codes "https";
  username = none;
  password = none;
  hostname = some (codes "a.org");
}

-- The resolver answers 8.8.8.8.
abbrev toy_urls : UrlCodec
toy_urls = record {
  urlparse = λ url. some parsed_url;
  request_host = λ url. some (codes "a.org");
  ip_address = short_ip;
  str_ip = print_ip;
  is_loopback = λ ip. false;
  is_private = toy_private;
  is_link_local = λ ip. false;
  is_multicast = λ ip. false;
  is_reserved = λ ip. false;
  is_unspecified = λ ip. false;
  getaddrinfo = λ host. some ((134744072 ∷ []) ∷ []);
}

toy_prints : Prints toy_urls
toy_prints (v4 n) = refl
toy_prints (v6 n) = refl

abbrev service_url : Str
service_url = codes "https://a.org/v1"

url_accepted : assert_safe_outbound_url toy_urls false false service_url ≡ ok tt
unfolding assert_safe_outbound_url str_eq lower
url_accepted = refl

abbrev sent_to : Target
sent_to = record { url_host = 134744072 ∷ []; host_name = some (codes "a.org") }

url_sent : handle_async_request toy_urls (some (codes "a.org")) ≡ ok sent_to
unfolding handle_async_request resolve_and_validate_host valid_addresses is_blocked_ip is_blocked_v4
url_sent = refl

-- A name that resolves to 10.0.0.1 is refused.
rebound :
    handle_async_request
      (record toy_urls { getaddrinfo = λ host. some ((167772161 ∷ []) ∷ []) })
      (some (codes "a.org"))
    ≡ err (validation_error "blocked ip in dns response")
unfolding handle_async_request resolve_and_validate_host valid_addresses is_blocked_ip is_blocked_v4
rebound = refl

handle_async_request-IsPublic_example : IsPublic toy_urls (134744072 ∷ [])
handle_async_request-IsPublic_example =
    handle_async_request-IsPublic toy_urls false false service_url (codes "a.org") parsed_url
      sent_to toy_prints refl refl refl url_accepted url_sent
