-- ===== src/ClientIp.antt =====
-- apps/api/app/utils/rate_limit.py: the address of a client behind proxies. Addresses and networks
-- come with the module `ipaddress`, whose `ValueError` is none.
pub mod Spoofing
use mathlib.Core.List.{reverse}
use crypto_intelligence_plat.Base.{
  Bool, List, Option, Str, [], any, codes, false, if◌then◌else◌, is_empty, is_some, none, not, some,
  split_on, ◌&&◌, ◌||◌, ◌∷◌,
}
use crypto_intelligence_plat.Config.{Settings, stripped_parts, trusted_proxies}

pub record IpCodec : Type 1 where
  pub Ip : Type 0
  pub Net : Type 0
  pub ip_address : Str → Option Ip
  pub ip_network : Str → Option Net
  pub host_network : Ip → Net
  pub contains : Net → Ip → Bool

module _ (c : IpCodec) where
  -- One entry: a network, or an address as the network of itself, or none with a warning.
  abbrev pub network_of : Option c.Net → Option c.Ip → Option c.Net
  network_of (some net) _ = some net
  network_of none (some ip) = some (c.host_network ip)
  network_of none none = none

  abbrev pub with_network : Option c.Net → List c.Net → List c.Net
  with_network none nets = nets
  with_network (some net) nets = net ∷ nets

  unfoldable pub parse_trusted_networks : List Str → List c.Net
  parse_trusted_networks [] = []
  parse_trusted_networks (e ∷ es) =
      with_network (network_of (c.ip_network e) (c.ip_address e)) (parse_trusted_networks es)

  abbrev pub in_any : List c.Net → Option c.Ip → Bool
  in_any nets none = false
  in_any nets (some ip) = any (λ net. c.contains net ip) nets

  unfoldable pub ip_in_networks : Str → List c.Net → Bool
  ip_in_networks s nets = in_any nets (c.ip_address s)

  -- `direct_ip or "unknown"`
  abbrev pub or_unknown : Str → Str
  or_unknown direct = if is_empty direct then codes "unknown" else direct

  -- The loop over the hops, nearest first: it goes on behind an address that is trusted or empty.
  unfoldable pub walk : List c.Net → Str → List Str → Str
  walk nets current [] = current
  walk nets current (hop ∷ hops) =
      let further = walk nets hop hops in
      if is_empty current || ip_in_networks current nets then further else current

  abbrev pub hops_of : Str → List Str
  hops_of xff = stripped_parts (split_on 44 xff)

  abbrev pub checked_ip : Str → Str → Str
  checked_ip direct current =
      if not (is_empty current) && is_some (c.ip_address current)
      then current
      else or_unknown direct

  unfoldable pub from_parts : List c.Net → Str → List Str → Str
  unfolding walk
  from_parts nets direct parts =
      if is_empty parts
      then or_unknown direct
      else checked_ip direct (walk nets direct (reverse parts))

  -- `direct` is `request.client.host`, empty where it is missing, and `xff` the header likewise.
  unfoldable pub trusted_client_ip : Settings → Str → Str → Str
  unfolding from_parts
  trusted_client_ip settings direct xff =
      let nets = parse_trusted_networks (trusted_proxies settings) in
      if is_empty nets
      then or_unknown direct
      else if is_empty xff
      then or_unknown direct
      else from_parts nets direct (hops_of xff)
