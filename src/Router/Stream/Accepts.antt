-- ===== src/Router/Stream/Accepts.antt =====
-- What a route for connections accepts, and `match_route` of crates/kong-router/src/stream.rs, which
-- works on processed routes.
use Prim.Native.Nat.{bit_or}
use kong_rust.Common.{
  ℕ, ◌≡◌, ◌∙◌, refl, ap, ap₂, Bool, true, false, not, ◌&&◌, ◌||◌, Option, List, map, is_empty, any,
  if◌then◌else◌,
}
use kong_rust.Common.Text.{Text}
use kong_rust.Router.Types.{Route, CidrPort}
use kong_rust.Router.Process.{given}
use kong_rust.Router.Matching.{has_bit}
use kong_rust.Router.Accepts.Match.{gated, is_empty-map}
use kong_rust.Router.Stream.{
  IpAddr, StreamRequestContext, matches, from_cidr_port, match_sni_rule, match_source_rule,
  match_dest_rule, process_stream_route, match_sni, match_route,
}

only : (a : Bool) → (a && true) ≡ a
only true = refl
only false = refl

emptied :
    (x y z : Bool) {a b c d e f : Bool}
    → a ≡ d
    → b ≡ e
    → c ≡ f
    → ((a || x) && ((b || y) && ((c || z) && true))) ≡ ((d || x) && ((e || y) && (f || z)))
emptied x y z {c = c} {d = d} {e = e} p q s =
    ap₂ (λ a b. (a || x) && ((b || y) && ((c || z) && true))) p q
    ∙ ap (λ t. (d || x) && ((e || y) && t)) (only (c || z) ∙ ap (λ c. c || z) s)

module _ (to_lowercase : Text → Text) (parse_ip : Text → Option IpAddr) where
  -- Some of the pairs of network and port is that of the address.
  abbrev pub any_accepts : List CidrPort → Option IpAddr → Option ℕ → Bool
  any_accepts pairs ip port =
      any (λ m. matches m ip port) (map (from_cidr_port to_lowercase parse_ip) pairs)

  -- Every attribute that is given accepts the connection.
  abbrev pub stream_accepts : Route → StreamRequestContext → Bool
  stream_accepts r ctx =
      (is_empty (given r.snis)
        || match_sni to_lowercase parse_ip (map to_lowercase (given r.snis)) ctx.sni)
      && ((is_empty (given r.sources)
            || any_accepts (given r.sources) ctx.source_ip ctx.source_port)
          && (is_empty (given r.destinations)
              || any_accepts (given r.destinations) ctx.dest_ip ctx.dest_port))

  abbrev rules : Bool → Bool → Bool → ℕ
  rules no_snis no_sources no_destinations = bit_or (if no_snis then 0 else match_sni_rule) (
      bit_or (if no_sources then 0 else match_source_rule)
        (if no_destinations then 0 else match_dest_rule))

  has_rules :
      (a b c : Bool)
      → (has_bit (rules a b c) match_sni_rule ≡ not a)
        × ((has_bit (rules a b c) match_source_rule ≡ not b)
            × (has_bit (rules a b c) match_dest_rule ≡ not c))
  has_rules true true true = (refl, (refl, refl))
  has_rules true true false = (refl, (refl, refl))
  has_rules true false true = (refl, (refl, refl))
  has_rules true false false = (refl, (refl, refl))
  has_rules false true true = (refl, (refl, refl))
  has_rules false true false = (refl, (refl, refl))
  has_rules false false true = (refl, (refl, refl))
  has_rules false false false = (refl, (refl, refl))

  -- A processed route for connections matches exactly if every attribute of the route that is given
  -- accepts the connection.
  pub match_route-stream_accepts :
      (r : Route) (ctx : StreamRequestContext)
      → match_route to_lowercase parse_ip (process_stream_route to_lowercase parse_ip r) ctx
        ≡ stream_accepts r ctx
  unfolding process_stream_route match_route
  match_route-stream_accepts r ctx =
      gated _ no_snis _ _ _ _ bits.0 refl (
        gated _ no_sources _ _ _ _ bits.1.0 refl
          (gated _ no_destinations _ _ true true bits.1.1 refl refl))
      ∙ emptied _ _ _ (is_empty-map to_lowercase (given r.snis))
          (is_empty-map (from_cidr_port to_lowercase parse_ip) (given r.sources))
          (is_empty-map (from_cidr_port to_lowercase parse_ip) (given r.destinations))
    where
      no_snis : Bool
      no_snis = is_empty (map to_lowercase (given r.snis))

      no_sources : Bool
      no_sources = is_empty (map (from_cidr_port to_lowercase parse_ip) (given r.sources))

      no_destinations : Bool
      no_destinations = is_empty (map (from_cidr_port to_lowercase parse_ip) (given r.destinations))

      bits :
          (has_bit (rules no_snis no_sources no_destinations) match_sni_rule ≡ not no_snis)
          × ((has_bit (rules no_snis no_sources no_destinations) match_source_rule ≡ not no_sources)
              × (has_bit (rules no_snis no_sources no_destinations) match_dest_rule
                  ≡ not no_destinations))
      bits = has_rules no_snis no_sources no_destinations
