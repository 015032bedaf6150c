-- ===== src/Router/Stream.antt =====
-- The router of connections, crates/kong-router/src/stream.rs.
--
-- An address is its version and its bits. The parser of addresses in the standard library is an
-- argument, `parse_ip`.
use Prim.Native.Nat.{Ordering, compare, bit_and, bit_or}
use mathlib.Core.Option
use kong_rust.Common.{
  ℕ, ◌+◌, ◌-◌, ◌*◌, ◌%◌, ◌^◌, Bool, true, false, not, ◌&&◌, ◌||◌, Option, none, some, List, [], ◌∷◌,
  ◌++◌, map, is_empty, any, find, keep_if, if◌then◌else◌, nat_beq, ltb, leb,
}
use kong_rust.Common.Compare.{then_by}
use kong_rust.Common.Sort.{sort_by}
use kong_rust.Common.Text.{Text, codes, same_text, strip_prefix}
use kong_rust.Router.Types.{
  Protocol, http, https, tcp, tls, udp, grpc, grpcs, tls_passthrough, ws, wss, CidrPort, Route,
}
use kong_rust.Router.Process.{given, weigh}
use kong_rust.Router.Matching.{has_bit}
use kong_rust.Router.Order.{signed64}
pub mod Cidr
pub mod Cuts
pub mod Attributes
pub mod Best
pub mod Accepts
pub mod Networks
pub mod Connections
pub mod Taken
mod Tests

pub data IpAddr : Type 0 where
  ipv4 ipv6 : (bits : ℕ) → IpAddr

pub record StreamRequestContext : Type 0 where
  pub source_ip : Option IpAddr
  pub source_port : Option ℕ
  pub dest_ip : Option IpAddr
  pub dest_port : Option ℕ
  pub sni : Option Text

pub record StreamRouteMatch : Type 0 where
  pub route_id : ℕ
  pub service_id : Option ℕ
  pub route_name : Option Text
  pub protocols : List Protocol

pub record CidrPortMatcher : Type 0 where
  pub network : Option (IpAddr × ℕ)
  pub port : Option ℕ

pub record ProcessedStreamRoute : Type 0 where
  pub route_id : ℕ
  pub service_id : Option ℕ
  pub name : Option Text
  pub protocols : List Protocol
  pub match_rules : ℕ
  pub match_weight : ℕ
  pub snis : List Text
  pub sources : List CidrPortMatcher
  pub destinations : List CidrPortMatcher
  pub created_at : ℕ

abbrev pub match_sni_rule : ℕ
match_sni_rule = 0x08

abbrev pub match_source_rule : ℕ
match_source_rule = 0x04

abbrev pub match_dest_rule : ℕ
match_dest_rule = 0x02

-- `!0 << (width - prefix_len)` in `width` bits.
abbrev pub mask_of : ℕ → ℕ → ℕ
mask_of width prefix_len = ((2 ^ width - 1) * 2 ^ (width - prefix_len)) % 2 ^ width

abbrev pub in_network : ℕ → ℕ → ℕ → ℕ → Bool
in_network width ip net prefix_len =
    if nat_beq prefix_len 0
    then true
    else if ltb width prefix_len
    then false
    else nat_beq (bit_and ip (mask_of width prefix_len)) (bit_and net (mask_of width prefix_len))

unfoldable pub ip_in_cidr : IpAddr → IpAddr → ℕ → Bool
ip_in_cidr (ipv4 ip) (ipv4 net) prefix_len = in_network 32 ip net prefix_len
ip_in_cidr (ipv6 ip) (ipv6 net) prefix_len = in_network 128 ip net prefix_len
ip_in_cidr (ipv4 ip) (ipv6 net) prefix_len = false
ip_in_cidr (ipv6 ip) (ipv4 net) prefix_len = false

abbrev pub network_matches : Option (IpAddr × ℕ) → Option IpAddr → Bool
network_matches none ip = true
network_matches (some (net, prefix_len)) none = false
network_matches (some (net, prefix_len)) (some ip) = ip_in_cidr ip net prefix_len

abbrev pub port_matches : Option ℕ → Option ℕ → Bool
port_matches none port = true
port_matches (some expected) none = false
port_matches (some expected) (some port) = nat_beq port expected

abbrev pub matches : CidrPortMatcher → Option IpAddr → Option ℕ → Bool
matches m ip port = network_matches m.network ip && port_matches m.port port

-- The text after the first `.`, if there is one.
abbrev pub after_dot : Text → Option Text
after_dot [] = none
after_dot (c ∷ s) = let further = after_dot s in if nat_beq c b'.' then some s else further

abbrev pub same_text? : Option Text → Text → Bool
same_text? none t = false
same_text? (some s) t = same_text s t

-- `*.example.com` stands for one label before `.example.com`.
abbrev pub sni_pattern_matches : Text → Text → Bool
sni_pattern_matches sni pattern =
    same_text pattern sni || elim (strip_prefix (codes "*.") pattern) [
      | none ↦ false
      | some suffix ↦ same_text? (after_dot sni) suffix
    ]

abbrev pub is_stream_protocol : Protocol → Bool
is_stream_protocol tcp = true
is_stream_protocol tls = true
is_stream_protocol tls_passthrough = true
is_stream_protocol http = false
is_stream_protocol https = false
is_stream_protocol udp = false
is_stream_protocol grpc = false
is_stream_protocol grpcs = false
is_stream_protocol ws = false
is_stream_protocol wss = false

abbrev pub is_stream_route : Route → Bool
is_stream_route r = any is_stream_protocol r.protocols

-- `split_once`: what stands before and after the first `c`.
abbrev pub split_once : ℕ → Text → Option (Text × Text)
split_once c [] = none
split_once c (d ∷ s) =
    let further = split_once c s in
    if nat_beq d c
    then some ([], s)
    else Option.map {B = Text × Text} (λ (p : Text × Text). (d ∷ p.0, p.1)) further

-- The value of a text of digits, after those of value `acc`.
abbrev pub digits_value : ℕ → Text → Option ℕ
digits_value acc [] = some acc
digits_value acc (c ∷ s) =
    let further = digits_value (acc * 10 + (c - 48)) s in
    if leb 48 c && leb c 57 then further else none

abbrev pub without_plus : Text → Text
without_plus t = elim (strip_prefix (codes "+") t) [ none ↦ t | some s ↦ s ]

-- `parse` into an unsigned type with greatest value `most`: digits, with a `+` at most before them.
abbrev pub parse_unsigned : ℕ → Text → Option ℕ
parse_unsigned most t =
    if is_empty (without_plus t) then none else elim (digits_value 0 (without_plus t)) [
      | none ↦ none
      | some n ↦ if leb n most then some n else none
    ]

abbrev pub full_prefix : IpAddr → ℕ
full_prefix (ipv4 bits) = 32
full_prefix (ipv6 bits) = 128

module _ (to_lowercase : Text → Text) (parse_ip : Text → Option IpAddr) where
  abbrev pub parse_cidr : Text → Option (IpAddr × ℕ)
  parse_cidr cidr = elim (split_once b'/' cidr) [
    | some (ip_str, prefix_str) ↦ elim (parse_ip ip_str) [
      | none ↦ none
      | some ip ↦ elim (parse_unsigned 255 prefix_str) [
        | none ↦ none
        | some prefix_len ↦ some (ip, prefix_len)
      ]
    ]
    | none ↦ elim (parse_ip cidr) [ none ↦ none | some ip ↦ some (ip, full_prefix ip) ]
  ]

  abbrev pub from_cidr_port : CidrPort → CidrPortMatcher
  from_cidr_port cp = record {
    network = elim cp.ip [ none ↦ none | some text ↦ parse_cidr text ];
    port = cp.port;
  }

  unfoldable pub process_stream_route : Route → ProcessedStreamRoute
  process_stream_route r =
      let snis = map to_lowercase (given r.snis) in
      let sources = map from_cidr_port (given r.sources) in
      let destinations = map from_cidr_port (given r.destinations) in
      record {
        route_id = r.id;
        service_id = r.service;
        name = r.name;
        protocols = r.protocols;
        match_rules = bit_or (if is_empty snis then 0 else match_sni_rule) (
            bit_or (if is_empty sources then 0 else match_source_rule)
              (if is_empty destinations then 0 else match_dest_rule));
        match_weight = weigh snis + weigh sources + weigh destinations;
        snis = snis;
        sources = sources;
        destinations = destinations;
        created_at = r.created_at;
      }

  abbrev pub stream_order : ProcessedStreamRoute → ProcessedStreamRoute → Ordering
  stream_order a b =
      then_by (compare b.match_weight a.match_weight)
        (compare (signed64 a.created_at) (signed64 b.created_at))

  -- The routes of a `StreamRouter`, in their order. `rebuild` is the same.
  unfoldable pub new : List Route → List ProcessedStreamRoute
  new routes = sort_by stream_order (map process_stream_route (keep_if is_stream_route routes))

  abbrev pub match_sni : List Text → Option Text → Bool
  match_sni patterns none = false
  match_sni patterns (some sni) = any (sni_pattern_matches (to_lowercase sni)) patterns

  unfoldable pub match_route : ProcessedStreamRoute → StreamRequestContext → Bool
  match_route r ctx =
      if has_bit r.match_rules match_sni_rule && not (match_sni r.snis ctx.sni)
      then false
      else if has_bit r.match_rules match_source_rule
          && not (any (λ m. matches m ctx.source_ip ctx.source_port) r.sources)
      then false
      else if has_bit r.match_rules match_dest_rule
          && not (any (λ m. matches m ctx.dest_ip ctx.dest_port) r.destinations)
      then false
      else true

  abbrev pub to_match : ProcessedStreamRoute → StreamRouteMatch
  to_match r = record {
    route_id = r.route_id;
    service_id = r.service_id;
    route_name = r.name;
    protocols = r.protocols;
  }

  unfoldable pub find_route :
      List ProcessedStreamRoute → StreamRequestContext → Option StreamRouteMatch
  find_route [] ctx = none
  find_route (r ∷ rs) ctx =
      let further = find_route rs ctx in if match_route r ctx then some (to_match r) else further
