-- ===== src/Router/Matching.antt =====
-- The match of one route in crates/kong-router/src/traditional.rs.
use Prim.Native.Nat.{bit_and}
use kong_rust.Common.{
  ℕ, Bool, true, false, not, ◌&&◌, ◌||◌, Option, none, some, List, [], ◌∷◌, ◌++◌, if◌then◌else◌,
  is_empty, any, all, contains, nat_beq, ltb,
}
use kong_rust.Common.Assoc.{lookup, insert}
use kong_rust.Common.Text.{Text, codes, text_keyed, same_text, byte_len, starts_with, trim_end}
use kong_rust.Router.Types.{UriCaptures, RequestContext, Engine, HeaderMatcher, ProcessedRoute}
use kong_rust.Router.Process.{
  match_host_bit, match_header_bit, match_uri_bit, match_method_bit, match_sni_bit,
}

abbrev pub contains_key : Text → List (Text × Bool) → Bool
contains_key key m = elim (lookup key m) [ none ↦ false | some b ↦ true ]

-- `mask & bit != 0`.
abbrev pub has_bit : ℕ → ℕ → Bool
has_bit mask bit = not (nat_beq (bit_and mask bit) 0)

-- The prefix test of `match_uri`: the path itself, the path up to a `/`, or the root.
abbrev pub prefix_matches : Text → Text → Bool
prefix_matches uri path =
    same_text uri path
    || (starts_with uri (trim_end (nat_beq b'/') path ++ (b'/' ∷ [])) || same_text path (codes "/"))

-- The compatible schemes of a route's protocol.
abbrev pub scheme_matches : Text → Text → Bool
scheme_matches scheme p =
    same_text p scheme
    || ((same_text p (codes "grpc") && same_text scheme (codes "http"))
        || ((same_text p (codes "grpcs") && same_text scheme (codes "https"))
            || ((same_text p (codes "ws") && same_text scheme (codes "http"))
                || (same_text p (codes "wss") && same_text scheme (codes "https")))))

abbrev pub push_named : Option Text → Text → List (Text × Text) → List (Text × Text)
push_named none value named = named
push_named (some name) value named = insert name value named

-- The groups in order; a group that took no part in the match is left out.
abbrev pub captures_of : List (Option Text × Option Text) → UriCaptures → UriCaptures
captures_of [] found = found
captures_of ((name, none) ∷ groups) found = captures_of groups found
captures_of ((name, some value) ∷ groups) found =
    captures_of groups (record {
      named = push_named name value found.named;
      unnamed = found.unnamed ++ (value ∷ []);
    })

abbrev pub no_captures : UriCaptures
no_captures = record { named = []; unnamed = [] }

abbrev pub longer : Option Text → Text → Bool
longer none path = true
longer (some found) path = ltb (byte_len found) (byte_len path)

-- The longest prefix that matches, the first of several.
unfoldable pub best_prefix : List Text → Text → Option Text → Option Text
best_prefix [] uri found = found
best_prefix (p ∷ ps) uri found =
    best_prefix ps uri (if prefix_matches uri p && longer found p then some p else found)

module _ (engine : Engine) where
  unfoldable pub match_host : ProcessedRoute engine.Regex → Text → Text → Bool
  match_host route host host_no_port =
      contains route.plain_hosts host
      || (contains route.plain_hosts host_no_port
          || any (λ w. engine.is_match w.1 host || engine.is_match w.1 host_no_port)
              route.wildcard_hosts)

  abbrev pub pattern_matches : Option engine.Regex → Text → Bool
  pattern_matches none value = false
  pattern_matches (some r) value = engine.is_match r value

  abbrev pub header_matches : List (Text × Text) → HeaderMatcher engine.Regex → Bool
  header_matches headers m = elim (lookup m.name headers) [
    | none ↦ false
    | some value ↦
        contains_key (engine.to_lowercase value) m.values
        || pattern_matches m.regex_pattern (engine.to_lowercase value)
  ]

  unfoldable pub match_headers : ProcessedRoute engine.Regex → List (Text × Text) → Bool
  match_headers route headers = all (header_matches headers) route.headers

  unfoldable pub match_uri : ProcessedRoute engine.Regex → Text → Bool
  match_uri route uri =
      any (λ p. engine.is_match p.1 uri) route.regex_paths
      || any (prefix_matches uri) route.prefix_paths

  abbrev pub sni_matches : ProcessedRoute engine.Regex → Option Text → Bool
  sni_matches route none = false
  sni_matches route (some sni) = contains_key sni route.snis

  -- HTTP requests match any SNI.
  abbrev pub match_sni : ProcessedRoute engine.Regex → RequestContext → Bool
  match_sni route ctx =
      (same_text ctx.scheme (codes "http") || same_text ctx.scheme (codes "https"))
      || sni_matches route ctx.sni

  unfoldable pub match_route : ProcessedRoute engine.Regex → RequestContext → Text → Text → Bool
  unfolding match_host match_headers match_uri
  match_route route ctx host host_no_port =
      if has_bit route.match_rules match_host_bit && not (match_host route host host_no_port)
      then false
      else if has_bit route.match_rules match_header_bit && not (match_headers route ctx.headers)
      then false
      else if has_bit route.match_rules match_uri_bit && not (match_uri route ctx.uri)
      then false
      else if has_bit route.match_rules match_method_bit
          && not (contains_key (engine.to_uppercase ctx.method) route.methods)
      then false
      else if has_bit route.match_rules match_sni_bit && not (match_sni route ctx)
      then false
      else is_empty route.protocols || any (scheme_matches ctx.scheme) route.protocols

  unfoldable pub regex_match : List (Text × engine.Regex) → Text → Option (Text × UriCaptures)
  regex_match [] uri = none
  regex_match ((pattern, r) ∷ ps) uri =
      let further = regex_match ps uri in
      elim (engine.captures r uri) [
        | none ↦ further
        | some caps ↦ some (caps.whole, captures_of caps.groups no_captures)
      ]

  unfoldable pub find_matched_path_and_captures :
      ProcessedRoute engine.Regex → Text → Option Text × UriCaptures
  unfolding regex_match best_prefix
  find_matched_path_and_captures route uri = elim (regex_match route.regex_paths uri) [
    | some (whole, found) ↦ (some whole, found)
    | none ↦ (best_prefix route.prefix_paths uri none, no_captures)
  ]
