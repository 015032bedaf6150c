-- ===== src/Router/Tests.antt =====
-- A small table of routes, and runs of the router on it.
use mathlib.Core.List.{Memᴰ}
use mathlib.Core.Option
use kong_rust.Common.{
  ℕ, ◌≡◌, refl, true, false, Option, none, some, List, [], ◌∷◌, ◌⊎◌, inl, inr, if◌then◌else◌, map,
  ltb, ◌+◌, ◌&&◌, any, ◌↔◌, Bool-cases,
}
use kong_rust.Common.Assoc.{lookup, insert}
use kong_rust.Common.Sort.{sort_by}
use kong_rust.Common.Text.{Text, codes, same_text}
use kong_rust.Router.Types.{
  http, v0, Route, RequestContext, RouteMatch, Captures, Engine, ProcessedRoute,
}
use kong_rust.Router.Process.{process_route}
use kong_rust.Router.Matching.{
  match_route, match_host, match_headers, match_uri, find_matched_path_and_captures,
}
use kong_rust.Router.Order.{sort_routes}
use kong_rust.Router.Accepts.{accepts}
use kong_rust.Router.Accepts.Match.{match_route-accepts}
use kong_rust.Router.Prefix.{IsLongest, find_matched_path_and_captures-IsLongest}
use kong_rust.Router.Table.{
  is_http_protocol, cache_key, find_route, new, find_route_uncached, processed_routes,
}
use kong_rust.Router.Table.Best.{Taken, find_route_uncached-IsBest}
use kong_rust.Router.Table.Answers.{IsAnsweredBy, find_route_uncached-accepts}
use kong_rust.Router.Table.Cached.{AreAnswers, serve, find_route-AreAnswers}

abbrev lower_char : ℕ → ℕ
lower_char c = if ltb 64 c && ltb c 91 then c + 32 else c

abbrev literal_captures : Text → Text → Option Captures
literal_captures r t = if same_text r t then some (record { whole = t; groups = [] }) else none

-- Regexes that match their own text, and the case of ASCII letters.
abbrev literal_engine : Engine
literal_engine = record {
  Regex = Text;
  compile = some;
  is_match = same_text;
  captures = literal_captures;
  to_lowercase = map lower_char;
  to_uppercase = λ t. t;
}

abbrev route_for : ℕ → Option (List Text) → Option (List Text) → Route
route_for id hosts paths = record {
  id = id;
  created_at = id;
  name = none;
  protocols = http ∷ [];
  strip_path = true;
  preserve_host = false;
  request_buffering = true;
  response_buffering = true;
  service = some id;
  snis = none;
  methods = none;
  hosts = hosts;
  paths = paths;
  headers = none;
  regex_priority = 0;
  path_handling = v0;
  sources = none;
  destinations = none;
  expression = none;
  priority = none;
}

abbrev by_path : Route
by_path = route_for 1 none (some (codes "/api" ∷ codes "/api/v2" ∷ []))

abbrev by_host_and_path : Route
by_host_and_path = route_for 2 (some (codes "Example.com" ∷ [])) (some (codes "/api" ∷ []))

abbrev sample_routes : List Route
sample_routes = by_path ∷ by_host_and_path ∷ []

abbrev request_to : Text → Text → Text → RequestContext
request_to scheme host uri = record {
  method = codes "GET";
  uri = uri;
  host = host;
  scheme = scheme;
  headers = [];
  sni = none;
}

abbrev api_request : RequestContext
api_request = request_to (codes "http") (codes "example.com") (codes "/api/v2/users")

find_route_uncached-IsBest_example :
    ((r : ProcessedRoute Text) × Taken literal_engine sample_routes api_request
        (codes "example.com")
        (codes "example.com")
        r)
    ⊎ ((find_route_uncached literal_engine
            (new literal_engine sample_routes)
            api_request
            (codes "example.com")
            (codes "example.com")
          ≡ none)
        × ((q : ProcessedRoute Text)
            → Memᴰ q (processed_routes literal_engine sample_routes)
            → match_route literal_engine q api_request (codes "example.com") (codes "example.com")
              ≡ false))
find_route_uncached-IsBest_example =
    find_route_uncached-IsBest literal_engine sample_routes api_request (codes "example.com")
      (codes "example.com")

find_route_uncached-accepts_example :
    ((r : Route) × IsAnsweredBy literal_engine sample_routes api_request
        (codes "example.com")
        (codes "example.com")
        r)
    ⊎ ((find_route_uncached literal_engine
            (new literal_engine sample_routes)
            api_request
            (codes "example.com")
            (codes "example.com")
          ≡ none)
        × ((r : Route)
            → Memᴰ r sample_routes
            → any is_http_protocol r.protocols ≡ true
            → accepts literal_engine r api_request (codes "example.com") (codes "example.com")
              ≡ false))
find_route_uncached-accepts_example =
    find_route_uncached-accepts literal_engine sample_routes api_request (codes "example.com")
      (codes "example.com")

match_route-accepts_example :
    match_route literal_engine
      (process_route literal_engine by_host_and_path)
      api_request
      (codes "example.com")
      (codes "example.com")
    ≡ accepts literal_engine by_host_and_path api_request
        (codes "example.com")
        (codes "example.com")
match_route-accepts_example =
    match_route-accepts literal_engine by_host_and_path api_request (codes "example.com")
      (codes "example.com")

literal_consistent : (r t : Text) → (same_text r t ≡ false) ↔ (literal_captures r t ≡ none)
literal_consistent r t = elim (Bool-cases (same_text r t)) [
  | inl h ↦ (λ g. cc (g, h), λ g. cc (rw h at g))
  | inr h ↦ (λ g. rw h refl, λ g. h)
]

find_matched_path_and_captures-IsLongest_example :
    (p : Text) × (((find_matched_path_and_captures literal_engine
          (process_route literal_engine by_path)
          (codes "/api/v2/users")).0
        ≡ some p)
      × ((any
              (λ w. same_text w.1 (codes "/api/v2/users"))
              (process_route literal_engine by_path).regex_paths
            ≡ false)
          → IsLongest
              (codes "/api/v2/users")
              (process_route literal_engine by_path).prefix_paths
              p))
unfolding match_uri process_route sort_by
find_matched_path_and_captures-IsLongest_example =
    find_matched_path_and_captures-IsLongest literal_engine literal_consistent
      (process_route literal_engine by_path) (codes "/api/v2/users") refl

find_route-AreAnswers_example :
    AreAnswers literal_engine (new literal_engine sample_routes) (api_request ∷ api_request ∷ []) (
      serve literal_engine
        (λ entries. entries)
        (new literal_engine sample_routes)
        (api_request ∷ api_request ∷ []))
find_route-AreAnswers_example =
    find_route-AreAnswers literal_engine (λ entries. entries) (λ entries key result h. h)
      sample_routes (api_request ∷ api_request ∷ [])

-- Of the two routes the one that also asks for the host is taken.
host_wins :
    Option.map
      (λ (m : RouteMatch). m.route_id)
      (find_route_uncached literal_engine
        (new literal_engine sample_routes)
        api_request
        (codes "example.com")
        (codes "example.com"))
    ≡ some 2
unfolding new find_route_uncached process_route match_route match_host match_headers match_uri
    lookup insert sort_by sort_routes find_matched_path_and_captures
host_wins = refl

-- The second of two requests that differ in their scheme gets the answer of the first: the key of the
-- cache leaves the scheme out, although `match_route` reads it.
scheme_ignored :
    map
      (λ (o : Option RouteMatch). Option.map (λ (m : RouteMatch). m.route_id) o)
      (serve literal_engine
        (λ entries. entries)
        (new literal_engine sample_routes)
        (api_request
          ∷ request_to (codes "https") (codes "example.com") (codes "/api/v2/users")
          ∷ []))
    ≡ (some 2 ∷ some 2 ∷ [])
unfolding serve find_route cache_key new find_route_uncached process_route match_route match_host
    match_headers match_uri lookup insert sort_by sort_routes find_matched_path_and_captures
scheme_ignored = refl
