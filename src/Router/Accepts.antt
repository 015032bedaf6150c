-- ===== src/Router/Accepts.antt =====
-- What it means that a route accepts a request, said of the route as it is configured: the reference
-- for `match_route` of crates/kong-router/src/traditional.rs, which works on processed routes.
use kong_rust.Common.{
  Bool, true, false, ◌&&◌, ◌||◌, Option, none, some, List, [], ◌∷◌, map, is_empty, any, all,
  nat_beq, if◌then◌else◌,
}
use kong_rust.Common.Assoc.{lookup}
use kong_rust.Common.Text.{Text, codes, text_keyed, same_text, strip_prefix, has_char, trim_end}
use kong_rust.Router.Types.{Protocol, Route, RequestContext, Engine}
use kong_rust.Router.Process.{given, regex_text, wildcard_text, protocol_text}
use kong_rust.Router.Matching.{prefix_matches, scheme_matches, pattern_matches}
pub mod Parts
pub mod Match

module _ (engine : Engine) where
  -- A host with `*` is a pattern, another one a name, with the request's port or without.
  abbrev pub host_accepts : Text → Text → Text → Bool
  host_accepts host host_no_port h =
      if has_char b'*' h
      then elim (engine.compile (wildcard_text h)) [
        | none ↦ false
        | some r ↦ engine.is_match r host || engine.is_match r host_no_port
      ]
      else same_text h host || same_text h host_no_port

  -- A path with `~` is a pattern, another one a prefix.
  abbrev pub path_accepts : Text → Text → Bool
  path_accepts uri p = elim (regex_text p) [
    | none ↦ prefix_matches uri p
    | some t ↦ elim (engine.compile t) [ none ↦ false | some r ↦ engine.is_match r uri ]
  ]

  abbrev pub method_accepts : Text → Text → Bool
  method_accepts method m = same_text (engine.to_uppercase m) (engine.to_uppercase method)

  abbrev pub exact_accepts : Text → Text → Bool
  exact_accepts value s = elim (strip_prefix (codes "~*") s) [
    | some t ↦ false
    | none ↦ same_text (engine.to_lowercase s) value
  ]

  -- The pattern of a header is the last of its values with `~*`.
  abbrev pub last_pattern : Option engine.Regex → List Text → Option engine.Regex
  last_pattern pattern [] = pattern
  last_pattern pattern (s ∷ ss) = elim (strip_prefix (codes "~*") s) [
    | some t ↦ last_pattern (engine.compile t) ss
    | none ↦ last_pattern pattern ss
  ]

  abbrev pub value_accepts : List Text → Text → Bool
  value_accepts values value =
      any (exact_accepts value) values || pattern_matches engine (last_pattern none values) value

  abbrev pub header_accepts : List (Text × Text) → Text × List Text → Bool
  header_accepts headers (name, values) = elim (lookup (engine.to_lowercase name) headers) [
    | none ↦ false
    | some value ↦ value_accepts values (engine.to_lowercase value)
  ]

  abbrev pub sni_accepts : List Text → Option Text → Bool
  sni_accepts snis none = false
  sni_accepts snis (some sni) = any (λ s. same_text (trim_end (nat_beq b'.') s) sni) snis

  -- Every attribute that is given accepts; SNIs ask nothing of a request over HTTP.
  abbrev pub accepts : Route → RequestContext → Text → Text → Bool
  accepts r ctx host host_no_port =
      (is_empty (given r.hosts)
        || any (host_accepts host host_no_port) (map engine.to_lowercase (given r.hosts)))
      && (all (header_accepts ctx.headers) (given r.headers)
          && ((is_empty (given r.paths) || any (path_accepts ctx.uri) (given r.paths))
              && ((is_empty (given r.methods) || any (method_accepts ctx.method) (given r.methods))
                  && ((is_empty (given r.snis)
                        || ((same_text ctx.scheme (codes "http")
                              || same_text ctx.scheme (codes "https"))
                            || sni_accepts (given r.snis) ctx.sni))
                      && (is_empty r.protocols
                          || any (λ p. scheme_matches ctx.scheme (protocol_text p)) r.protocols)))))
