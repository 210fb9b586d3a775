-- ===== src/ClientIp/Spoofing.antt =====
-- What a client writes into X-Forwarded-For itself, and what apps/api/app/utils/rate_limit.py makes of
-- it.
use mathlib.Core.List.{reverse, reverse-append}
use crypto_intelligence_plat.Base.{
  Bool, List, Str, [], any, ap, arith, if◌then◌else◌, is_empty, not, put_first, refl, split_on,
  split_on-nonempty, strip, sym, true, ℕ, ◌&&◌, ◌++◌, ◌∙◌, ◌∷◌, ◌≡◌, ◌≢◌,
}
use crypto_intelligence_plat.ClientIp.{
  IpCodec, checked_ip, from_parts, hops_of, ip_in_networks, or_unknown, parse_trusted_networks,
  trusted_client_ip, walk,
}
use crypto_intelligence_plat.Config.{Settings, stripped_parts, trusted_proxies}

-- Splitting around a separator.
put_first-append :
    (c : ℕ) (ps qs : List Str) → ps ≢ [] → put_first c (ps ++ qs) ≡ put_first c ps ++ qs
put_first-append c [] qs h = absurd (h refl)
put_first-append c (p ∷ ps) qs h = refl

split_on-around : (d : ℕ) (a b : Str) → split_on d (a ++ d ∷ b) ≡ split_on d a ++ split_on d b
unfolding split_on
split_on-around d [] b = ground arith
split_on-around d (c ∷ a) b = ground (
  arith,
  split_on-around d a b,
  put_first-append c (split_on d a) (split_on d b) (split_on-nonempty d a),
)

stripped-append :
    (ps qs : List Str) → stripped_parts (ps ++ qs) ≡ stripped_parts ps ++ stripped_parts qs
unfolding stripped_parts
stripped-append [] qs = refl
stripped-append (p ∷ ps) qs = ground (arith, stripped-append ps qs)

module _ (c : IpCodec) (nets : List c.Net) where
  -- An address at which the loop stops.
  abbrev pub stops_at : Str → Bool
  stops_at hop = not (is_empty hop) && not (ip_in_networks c hop nets)

  -- Behind such an address nothing counts.
  walk-prefix :
      (current : Str) (hops more : List Str)
      → any stops_at (current ∷ hops) ≡ true
      → walk c nets current (hops ++ more) ≡ walk c nets current hops
  unfolding walk
  walk-prefix current [] [] h = refl
  walk-prefix current [] (m ∷ more) h = ground arith
  walk-prefix current (hop ∷ hops) more h = ground (arith, walk-prefix hop hops more)

  abbrev pub Stops : Str → List Str → Type 0
  Stops direct hops = any stops_at (direct ∷ reverse hops) ≡ true

  walk_spoofed :
      (direct : Str) (spoofed hops : List Str)
      → Stops direct hops
      → walk c nets direct (reverse (spoofed ++ hops)) ≡ walk c nets direct (reverse hops)
  walk_spoofed direct spoofed hops h =
      ap (walk c nets direct) (reverse-append spoofed hops)
      ∙ walk-prefix direct (reverse hops) (reverse spoofed) h

  stops_itself : (direct : Str) → checked_ip c direct direct ≡ or_unknown c direct
  stops_itself [] = refl
  stops_itself (x ∷ xs) = ground arith

  -- The stop is the direct address itself.
  walk_direct :
      (direct : Str) (more : List Str) → Stops direct [] → walk c nets direct more ≡ direct
  unfolding walk
  walk_direct direct [] h = refl
  walk_direct direct (m ∷ more) h = ground arith

  parts_spoofed :
      (direct : Str) (spoofed hops : List Str)
      → Stops direct hops
      → from_parts c nets direct (spoofed ++ hops) ≡ from_parts c nets direct hops
  unfolding from_parts
  parts_spoofed direct [] hops h = refl
  parts_spoofed direct (s ∷ ss) [] h =
      ap (checked_ip c direct) (walk_direct direct (reverse ((s ∷ ss) ++ [])) h)
      ∙ stops_itself direct
  parts_spoofed direct (s ∷ ss) (x ∷ xs) h =
      ap (checked_ip c direct) (walk_spoofed direct (s ∷ ss) (x ∷ xs) h)

module _ (c : IpCodec) where
  hops-append :
      (spoofed rest : Str) → hops_of c (spoofed ++ 44 ∷ rest) ≡ hops_of c spoofed ++ hops_of c rest
  hops-append spoofed rest =
      ap stripped_parts (split_on-around 44 spoofed rest)
      ∙ stripped-append (split_on 44 spoofed) (split_on 44 rest)

  no_hops : hops_of c [] ≡ []
  unfolding stripped_parts split_on strip
  no_hops = refl

  -- The header once the networks are known to be there.
  abbrev of_header : List c.Net → Str → Str → Str
  of_header nets direct xff =
      if is_empty nets
      then or_unknown c direct
      else if is_empty xff
      then or_unknown c direct
      else from_parts c nets direct (hops_of c xff)

  header_parts :
      (net : c.Net) (nets : List c.Net) (direct xff : Str)
      → of_header (net ∷ nets) direct xff ≡ from_parts c (net ∷ nets) direct (hops_of c xff)
  unfolding from_parts
  header_parts net nets direct [] = ap (from_parts c (net ∷ nets) direct) (sym no_hops)
  header_parts net nets direct (x ∷ xs) = refl

  of_networks :
      (nets : List c.Net) (direct spoofed rest : Str)
      → Stops c nets direct (hops_of c rest)
      → of_header nets direct (spoofed ++ 44 ∷ rest) ≡ of_header nets direct rest
  of_networks [] direct spoofed rest h = refl
  of_networks (net ∷ nets) direct spoofed rest h =
      header_parts net nets direct (spoofed ++ 44 ∷ rest)
      ∙ ap (from_parts c (net ∷ nets) direct) (hops-append spoofed rest)
      ∙ parts_spoofed c (net ∷ nets) direct (hops_of c spoofed) (hops_of c rest) h
      ∙ sym (header_parts net nets direct rest)

  -- Where the address of the peer, or one of those that the proxies have put into the header, is not
  -- that of a trusted proxy, whatever stands in the header before these has no influence on the
  -- address that the limits count by.
  pub trusted_client_ip-ignores_prefix :
      (settings : Settings) (direct spoofed rest : Str)
      → Stops c (parse_trusted_networks c (trusted_proxies settings)) direct (hops_of c rest)
      → trusted_client_ip c settings direct (spoofed ++ 44 ∷ rest)
        ≡ trusted_client_ip c settings direct rest
  unfolding trusted_client_ip
  trusted_client_ip-ignores_prefix settings direct spoofed rest h =
      of_networks (parse_trusted_networks c (trusted_proxies settings)) direct spoofed rest h
