-- ===== src/Router/Stream/Tests.antt =====
-- Runs of the router of connections.
use mathlib.Core.Path.{subst}
use mathlib.Core.Option
use kong_rust.Common.{
  ℕ, ◌≡◌, ◌↔◌, refl, List, inl, inr, Bool-cases, some_inj, true, false, Option, none, some, [], ◌∷◌,
  ◌⊎◌, if◌then◌else◌, arith,
}
use kong_rust.Common.Sort.{sort_by}
use kong_rust.Common.Text.{Text, codes, same_text}
use kong_rust.Router.Types.{tls, v0, Route}
use kong_rust.Router.Stream.{
  IpAddr, ipv4, StreamRequestContext, StreamRouteMatch, ip_in_cidr, new, match_route, find_route,
  process_stream_route,
}
use kong_rust.Router.Stream.Cidr.{SharesPrefix, ip_in_cidr-SharesPrefix}
use kong_rust.Router.Stream.Cidr.{IsAddress}
use kong_rust.Router.Stream.Connections.{AcceptsConnection, match_route-AcceptsConnection}
use kong_rust.Router.Stream.Taken.{Fits, IsTaken, find_route-IsTaken}

-- A parser that knows two addresses.
abbrev two_addresses : Text → Option IpAddr
two_addresses t =
    if same_text t (codes "10.0.0.0")
    then some (ipv4 0x0a000000)
    else if same_text t (codes "10.0.0.7")
    then some (ipv4 0x0a000007)
    else none

abbrev keep_case : Text → Text
keep_case t = t

abbrev from_network : ℕ → Text → Route
from_network id ip = record {
  id = id;
  created_at = id;
  name = none;
  protocols = tls ∷ [];
  strip_path = true;
  preserve_host = false;
  request_buffering = true;
  response_buffering = true;
  service = none;
  snis = none;
  methods = none;
  hosts = none;
  paths = none;
  headers = none;
  regex_priority = 0;
  path_handling = v0;
  sources = some (record { ip = some ip; port = none } ∷ []);
  destinations = none;
  expression = none;
  priority = none;
}

abbrev connection : StreamRequestContext
connection = record {
  source_ip = some (ipv4 0x0a000007);
  source_port = some 5000;
  dest_ip = none;
  dest_port = some 443;
  sni = some (codes "db.example.com");
}

ip_in_cidr-SharesPrefix_example :
    (ip_in_cidr (ipv4 0x0a000007) (ipv4 0x0a000000) 24 ≡ true)
    ↔ SharesPrefix (ipv4 0x0a000007) (ipv4 0x0a000000) 24
ip_in_cidr-SharesPrefix_example =
    ip_in_cidr-SharesPrefix (ipv4 0x0a000007) (ipv4 0x0a000000) 24 (omega arith) (omega arith)

two_addresses-IsAddress : (t : Text) (x : IpAddr) → two_addresses t ≡ some x → IsAddress x
two_addresses-IsAddress t x h = elim (Bool-cases (same_text t (codes "10.0.0.0"))) [
  | inl e ↦ subst IsAddress (some_inj (rw (two_addresses, e) at h)) (omega arith)
  | inr e ↦ elim (Bool-cases (same_text t (codes "10.0.0.7"))) [
    | inl f ↦ subst IsAddress (some_inj (rw (two_addresses, e, f) at h)) (omega arith)
    | inr f ↦ cc (rw (two_addresses, e, f) at h)
  ]
]

source-IsAddress : (x : IpAddr) → connection.source_ip ≡ some x → IsAddress x
source-IsAddress x h = subst IsAddress (some_inj h) (omega arith)

dest-IsAddress : (x : IpAddr) → connection.dest_ip ≡ some x → IsAddress x
dest-IsAddress x h = cc h

match_route-AcceptsConnection_example :
    (match_route keep_case two_addresses
        (process_stream_route keep_case two_addresses (from_network 1 (codes "10.0.0.0/24")))
        connection
      ≡ true)
    ↔ AcceptsConnection keep_case two_addresses (from_network 1 (codes "10.0.0.0/24")) connection
match_route-AcceptsConnection_example =
    match_route-AcceptsConnection keep_case two_addresses two_addresses-IsAddress
      (from_network 1 (codes "10.0.0.0/24")) connection source-IsAddress dest-IsAddress

abbrev one_network : List Route
one_network = from_network 1 (codes "10.0.0.0/24") ∷ []

find_route-IsTaken_example :
    ((r : Route) × IsTaken keep_case two_addresses two_addresses-IsAddress one_network connection
        source-IsAddress dest-IsAddress r)
    ⊎ ((find_route keep_case two_addresses (new keep_case two_addresses one_network) connection
          ≡ none)
        × ((q : Route)
            → ¬ Fits keep_case two_addresses two_addresses-IsAddress one_network connection
                source-IsAddress dest-IsAddress q))
find_route-IsTaken_example =
    find_route-IsTaken keep_case two_addresses two_addresses-IsAddress one_network connection
      source-IsAddress dest-IsAddress

-- A network that does not parse is no network at all: the route accepts every address.
malformed_accepts :
    Option.map
      (λ (m : StreamRouteMatch). m.route_id)
      (find_route keep_case two_addresses
        (new keep_case two_addresses (from_network 1 (codes "10.0.0.256/24") ∷ []))
        connection)
    ≡ some 1
unfolding find_route new match_route process_stream_route sort_by
malformed_accepts = refl

-- A network that does not hold the address.
other_network : ip_in_cidr (ipv4 0x0a000107) (ipv4 0x0a000000) 24 ≡ false
unfolding ip_in_cidr
other_network = refl
