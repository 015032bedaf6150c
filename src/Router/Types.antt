-- ===== src/Router/Types.antt =====
-- The routes, requests and results of crates/kong-router/src/lib.rs and traditional.rs, with the fields
-- of crates/kong-core/src/models/route.rs that the router reads.
--
-- A UUID is a number. `i64` and `i32` values are bit patterns. A `HashMap` is an association list, in
-- the order of its iteration.
use kong_rust.Common.{ℕ, Bool, Option, List}
use kong_rust.Common.Text.{Text}

pub data Protocol : Type 0 where
  http https tcp tls udp grpc grpcs tls_passthrough ws wss : Protocol

pub data PathHandling : Type 0 where
  v0 v1 : PathHandling

pub record CidrPort : Type 0 where
  pub ip : Option Text
  pub port : Option ℕ

pub record Route : Type 0 where
  pub id : ℕ
  pub created_at : ℕ
  pub name : Option Text
  pub protocols : List Protocol
  pub strip_path : Bool
  pub preserve_host : Bool
  pub request_buffering : Bool
  pub response_buffering : Bool
  pub service : Option ℕ
  pub snis : Option (List Text)
  pub methods : Option (List Text)
  pub hosts : Option (List Text)
  pub paths : Option (List Text)
  pub headers : Option (List (Text × List Text))
  pub regex_priority : ℕ
  pub path_handling : PathHandling
  pub sources : Option (List CidrPort)
  pub destinations : Option (List CidrPort)
  pub expression : Option Text
  pub priority : Option ℕ

pub record UriCaptures : Type 0 where
  pub named : List (Text × Text)
  pub unnamed : List Text

pub record RequestContext : Type 0 where
  pub method : Text
  pub uri : Text
  pub host : Text
  pub scheme : Text
  pub headers : List (Text × Text)
  pub sni : Option Text

pub record RouteMatch : Type 0 where
  pub route_id : ℕ
  pub service_id : Option ℕ
  pub route_name : Option Text
  pub strip_path : Bool
  pub preserve_host : Bool
  pub path_handling : PathHandling
  pub matched_path : Option Text
  pub protocols : List Text
  pub request_buffering : Bool
  pub response_buffering : Bool
  pub uri_captures : UriCaptures

-- What `captures` finds: the whole match, and for each group its name and its text.
pub record Captures : Type 0 where
  pub whole : Text
  pub groups : List (Option Text × Option Text)

-- The `regex` crate and the case tables of Unicode, which the router calls.
pub record Engine : Type 1 where
  pub Regex : Type 0
  pub compile : Text → Option Regex
  pub is_match : Regex → Text → Bool
  pub captures : Regex → Text → Option Captures
  pub to_lowercase : Text → Text
  pub to_uppercase : Text → Text

pub record HeaderMatcher (Regex : Type 0) : Type 0 where
  pub name : Text
  pub values : List (Text × Bool)
  pub regex_pattern : Option Regex

pub record ProcessedRoute (Regex : Type 0) : Type 0 where
  pub route_id : ℕ
  pub service_id : Option ℕ
  pub name : Option Text
  pub match_weight : ℕ
  pub submatch_weight : ℕ
  pub match_rules : ℕ
  pub plain_hosts : List Text
  pub wildcard_hosts : List (Text × Regex)
  pub plain_hosts_only : Bool
  pub prefix_paths : List Text
  pub regex_paths : List (Text × Regex)
  pub max_uri_length : ℕ
  pub methods : List (Text × Bool)
  pub headers : List (HeaderMatcher Regex)
  pub header_count : ℕ
  pub snis : List (Text × Bool)
  pub regex_priority : ℕ
  pub created_at : ℕ
  pub strip_path : Bool
  pub preserve_host : Bool
  pub path_handling : PathHandling
  pub protocols : List Text
  pub request_buffering : Bool
  pub response_buffering : Bool
