-- ===== src/Router/Process.antt =====
-- `process_route` of crates/kong-router/src/traditional.rs.
use Prim.Native.Nat.{bit_or, compare}
use kong_rust.Common.{
  ℕ, ◌+◌, max, Bool, true, false, not, ◌&&◌, Option, none, some, List, [], ◌∷◌, ◌++◌, map,
  if◌then◌else◌, is_empty, length, any, nat_beq, ltb,
}
use kong_rust.Common.Assoc.{insert}
use kong_rust.Common.Sort.{sort_by}
use kong_rust.Common.Text.{
  Text, codes, text_keyed, byte_len, has_char, replace_char, strip_prefix, trim_end,
}
use kong_rust.Router.Types.{
  Protocol, http, https, tcp, tls, udp, grpc, grpcs, tls_passthrough, ws, wss, Route, Engine,
  HeaderMatcher, ProcessedRoute,
}

-- `MATCH_HOST` and its fellows.
abbrev pub match_host_bit : ℕ
match_host_bit = 0x40

abbrev pub match_header_bit : ℕ
match_header_bit = 0x20

abbrev pub match_uri_bit : ℕ
match_uri_bit = 0x10

abbrev pub match_method_bit : ℕ
match_method_bit = 0x08

abbrev pub match_sni_bit : ℕ
match_sni_bit = 0x04

abbrev pub sub_has_regex_uri : ℕ
sub_has_regex_uri = 0x01

abbrev pub sub_plain_hosts_only : ℕ
sub_plain_hosts_only = 0x02

abbrev pub protocol_text : Protocol → Text
protocol_text http = codes "http"
protocol_text https = codes "https"
protocol_text tcp = codes "tcp"
protocol_text tls = codes "tls"
protocol_text udp = codes "udp"
protocol_text grpc = codes "grpc"
protocol_text grpcs = codes "grpcs"
protocol_text tls_passthrough = codes "tls_passthrough"
protocol_text ws = codes "ws"
protocol_text wss = codes "wss"

-- `as i64` of an `i32`: the sign is carried into the high bits.
abbrev pub widen_i32 : ℕ → ℕ
widen_i32 x = if ltb x 0x80000000 then x else x + 0xffffffff00000000

-- `if let Some(ref xs) = … { if !xs.is_empty()`: an attribute that is there and not empty.
abbrev pub given {ℓ} : {A : Type ℓ} → Option (List A) → List A
given none = []
given (some xs) = xs

abbrev pub weigh {ℓ} : {A : Type ℓ} → List A → ℕ
weigh xs = if is_empty xs then 0 else 1

-- The text of a regex path after its `~`.
abbrev pub regex_text : Text → Option Text
regex_text = strip_prefix (codes "~")

abbrev pub is_some_text : Option Text → Bool
is_some_text none = false
is_some_text (some t) = true

-- The paths without `~`.
abbrev pub prefixes : List Text → List Text
prefixes [] = []
prefixes (p ∷ ps) =
    let rest = prefixes ps in elim (regex_text p) [ none ↦ p ∷ rest | some t ↦ rest ]

abbrev pub longest : List Text → ℕ
longest [] = 0
longest (p ∷ ps) = max (byte_len p) (longest ps)

-- `^…$` around a host, with `.` quoted and `*` for one character or more.
abbrev pub wildcard_text : Text → Text
wildcard_text host =
    (b'^' ∷ [])
    ++ (replace_char b'*' (codes ".+") (replace_char b'.' (codes "\\.") host) ++ (b'$' ∷ []))

abbrev pub rules_of : Bool → Bool → Bool → Bool → Bool → ℕ
rules_of hosts paths methods headers snis = bit_or (if hosts then match_host_bit else 0) (
    bit_or (if paths then match_uri_bit else 0) (
      bit_or (if methods then match_method_bit else 0)
        (bit_or (if headers then match_header_bit else 0) (if snis then match_sni_bit else 0))))

module _ (engine : Engine) where
  abbrev pub lowered_hosts : List Text → List Text
  lowered_hosts = map engine.to_lowercase

  abbrev pub plain_hosts_of : List Text → List Text
  plain_hosts_of [] = []
  plain_hosts_of (h ∷ hs) =
      let rest = plain_hosts_of hs in if has_char b'*' h then rest else h ∷ rest

  abbrev pub wildcard_hosts_of : List Text → List (Text × engine.Regex)
  wildcard_hosts_of [] = []
  wildcard_hosts_of (h ∷ hs) =
      let rest = wildcard_hosts_of hs in
      if has_char b'*' h
      then elim (engine.compile (wildcard_text h)) [ none ↦ rest | some r ↦ (h, r) ∷ rest ]
      else rest

  -- The paths with `~` whose rest compiles.
  abbrev pub regex_paths_of : List Text → List (Text × engine.Regex)
  regex_paths_of [] = []
  regex_paths_of (p ∷ ps) =
      let rest = regex_paths_of ps in
      elim (regex_text p) [
        | none ↦ rest
        | some t ↦ elim (engine.compile t) [ none ↦ rest | some r ↦ (t, r) ∷ rest ]
      ]

  abbrev pub methods_of : List (Text × Bool) → List Text → List (Text × Bool)
  methods_of found [] = found
  methods_of found (m ∷ ms) = methods_of (insert (engine.to_uppercase m) true found) ms

  abbrev pub matcher_of :
      Text → List (Text × Bool) → Option engine.Regex → List Text → HeaderMatcher engine.Regex
  matcher_of name values pattern [] = record {
    name = name;
    values = values;
    regex_pattern = pattern;
  }
  matcher_of name values pattern (s ∷ ss) =
      let exact = matcher_of name (insert (engine.to_lowercase s) true values) pattern ss in
      elim (strip_prefix (codes "~*") s) [
        | some t ↦ matcher_of name values (engine.compile t) ss
        | none ↦ exact
      ]

  abbrev pub matchers_of : List (Text × List Text) → List (HeaderMatcher engine.Regex)
  matchers_of [] = []
  matchers_of ((name, values) ∷ hs) =
      matcher_of (engine.to_lowercase name) [] none values ∷ matchers_of hs

  abbrev pub snis_of : List (Text × Bool) → List Text → List (Text × Bool)
  snis_of found [] = found
  snis_of found (s ∷ ss) = snis_of (insert (trim_end (nat_beq b'.') s) true found) ss

  unfoldable pub process_route : Route → ProcessedRoute engine.Regex
  unfolding sort_by
  process_route r =
      let hosts = lowered_hosts (given r.hosts) in
      let paths = given r.paths in
      let methods = given r.methods in
      let headers = given r.headers in
      let snis = given r.snis in
      let plain = plain_hosts_of hosts in
      let plain_only = not (any (has_char b'*') hosts) in
      let matchers = matchers_of headers in
      record {
        route_id = r.id;
        service_id = r.service;
        name = r.name;
        match_weight = weigh hosts + weigh paths + weigh methods + weigh headers + weigh snis;
        submatch_weight =
            bit_or (if plain_only && not (is_empty plain) then sub_plain_hosts_only else 0)
              (if any (λ p. is_some_text (regex_text p)) paths then sub_has_regex_uri else 0);
        match_rules =
            rules_of (not (is_empty hosts)) (not (is_empty paths)) (not (is_empty methods))
              (not (is_empty headers)) (not (is_empty snis));
        plain_hosts = plain;
        wildcard_hosts = wildcard_hosts_of hosts;
        plain_hosts_only = plain_only;
        prefix_paths = sort_by (λ a b. compare (byte_len b) (byte_len a)) (prefixes paths);
        regex_paths = regex_paths_of paths;
        max_uri_length = longest (prefixes paths);
        methods = methods_of [] methods;
        headers = matchers;
        header_count = length matchers;
        snis = snis_of [] snis;
        regex_priority = widen_i32 r.regex_priority;
        created_at = r.created_at;
        strip_path = r.strip_path;
        preserve_host = r.preserve_host;
        path_handling = r.path_handling;
        protocols = map protocol_text r.protocols;
        request_buffering = r.request_buffering;
        response_buffering = r.response_buffering;
      }
