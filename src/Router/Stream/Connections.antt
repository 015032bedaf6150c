-- ===== src/Router/Stream/Connections.antt =====
-- What connections a route accepts, and `match_route` of crates/kong-router/src/stream.rs: the match
-- said of the route as it is configured.
use mathlib.Core.Path.{subst}
use mathlib.Core.List.{Memᴰ}
use kong_rust.Common.{
  ℕ, ◌≡◌, ◌∙◌, ◌↔◌, ◌⊎◌, inl, inr, refl, sym, Bool, true, false, ◌&&◌, ◌||◌, Option, none, some,
  List, map, is_empty, some_inj,
}
use kong_rust.Common.Members.{any-true}
use kong_rust.Common.Text.{Text}
use kong_rust.Router.Types.{Route, CidrPort}
use kong_rust.Router.Process.{given}
use kong_rust.Router.Accepts.Match.{any-map}
use kong_rust.Router.Stream.{
  IpAddr, StreamRequestContext, CidrPortMatcher, matches, from_cidr_port, process_stream_route,
  sni_pattern_matches, match_sni, match_route,
}
use kong_rust.Router.Stream.Cidr.{IsAddress}
use kong_rust.Router.Stream.Attributes.{IsServer, sni_pattern_matches-IsServer}
use kong_rust.Router.Stream.Networks.{IsPort, port_matches-IsPort, InNetwork, network-InNetwork}
use kong_rust.Router.Stream.Accepts.{any_accepts, match_route-stream_accepts}

and_true : (a b : Bool) → ((a && b) ≡ true) ↔ ((a ≡ true) × (b ≡ true))
and_true true b = (λ h. (refl, h), λ h. h.1)
and_true false b = (λ h. cc, λ h. h.0)

or_true : (a b : Bool) → ((a || b) ≡ true) ↔ ((a ≡ true) ⊎ (b ≡ true))
or_true true b = (λ h. inl refl, λ h. refl)
or_true false b = (λ h. inr h, λ h. elim h [ inl e ↦ cc e | inr e ↦ e ])

module _ (to_lowercase : Text → Text) (parse_ip : Text → Option IpAddr) where
  -- The attribute is not given, or one of its pairs of network and port is that of the address.
  abbrev pub AddressAccepts : Option (List CidrPort) → Option IpAddr → Option ℕ → Type 0
  AddressAccepts pairs ip port =
      (is_empty (given pairs) ≡ true)
      ⊎ ((cp : CidrPort) × Memᴰ cp (given pairs)
          × InNetwork to_lowercase parse_ip cp.ip ip
          × IsPort cp.port port)

  -- The attribute is not given, or one of its patterns is that of the server name, whatever their case.
  abbrev pub ServerAccepts : Option (List Text) → Option Text → Type 0
  ServerAccepts snis asked =
      (is_empty (given snis) ≡ true)
      ⊎ ((pattern sni : Text) × Memᴰ pattern (given snis)
          × (asked ≡ some sni)
          × IsServer (to_lowercase sni) (to_lowercase pattern))

  -- Every attribute of the route accepts the connection.
  abbrev pub AcceptsConnection : Route → StreamRequestContext → Type 0
  AcceptsConnection r ctx =
      ServerAccepts r.snis ctx.sni
      × AddressAccepts r.sources ctx.source_ip ctx.source_port
      × AddressAccepts r.destinations ctx.dest_ip ctx.dest_port

  server-Accepts :
      (snis : Option (List Text)) (asked : Option Text)
      → ((is_empty (given snis)
            || match_sni to_lowercase parse_ip (map to_lowercase (given snis)) asked)
          ≡ true)
        ↔ ServerAccepts snis asked
  server-Accepts snis none = (
    λ h. elim ((or_true (is_empty (given snis)) false).0 h) [ inl e ↦ inl e | inr e ↦ cc e ],
    λ h. elim h [ inl e ↦ rw e refl | inr (pattern, sni, m, e, i) ↦ cc e ],
  )
  server-Accepts snis (some asked) = (
    λ h. elim ((or_true (is_empty (given snis)) _).0 h) [
      | inl e ↦ inl e
      | inr e ↦
          let (p, (m, i)) =
            (any-true (λ x. test (to_lowercase x)) (given snis)).0
              (sym (any-map to_lowercase test (given snis)) ∙ e) in
          inr (
            p,
            asked,
            m,
            refl,
            (sni_pattern_matches-IsServer (to_lowercase asked) (to_lowercase p)).0 i,
          )
    ],
    λ h. elim h [
      | inl e ↦ (or_true (is_empty (given snis)) _).1 (inl e)
      | inr (p, sni, m, e, i) ↦ (or_true (is_empty (given snis)) _).1 (
          inr (
            any-map to_lowercase test (given snis)
            ∙ (any-true (λ x. test (to_lowercase x)) (given snis)).1 (
              p,
              (
                m,
                (sni_pattern_matches-IsServer (to_lowercase asked) (to_lowercase p)).1
                    (subst (λ x. IsServer (to_lowercase x) (to_lowercase p)) (sym (some_inj e)) i),
              ),
            )))
    ],
  )
    where
      test : Text → Bool
      test = sni_pattern_matches (to_lowercase asked)

  module _ (addresses : (t : Text) (x : IpAddr) → parse_ip t ≡ some x → IsAddress x) where
    address-Accepts :
        (pairs : Option (List CidrPort)) (ip : Option IpAddr) (port : Option ℕ)
        → ((x : IpAddr) → ip ≡ some x → IsAddress x)
        → ((is_empty (given pairs) || any_accepts to_lowercase parse_ip (given pairs) ip port)
            ≡ true)
          ↔ AddressAccepts pairs ip port
    address-Accepts pairs ip port good = (
      λ h. elim ((or_true (is_empty (given pairs)) _).0 h) [
        | inl e ↦ inl e
        | inr e ↦
            let (cp, (m, both)) =
              (any-true test (given pairs)).0
                (sym (any-map (from_cidr_port to_lowercase parse_ip) holds (given pairs)) ∙ e) in
            let (in_net, on_port) = (and_true _ _).0 both in
            inr (
              cp,
              m,
              (network-InNetwork to_lowercase parse_ip addresses cp.ip ip good).0 in_net,
              (port_matches-IsPort cp.port port).0 on_port,
            )
      ],
      λ h. elim h [
        | inl e ↦ (or_true (is_empty (given pairs)) _).1 (inl e)
        | inr (cp, m, in_net, on_port) ↦ (or_true (is_empty (given pairs)) _).1 (
            inr (
              any-map (from_cidr_port to_lowercase parse_ip) holds (given pairs)
              ∙ (any-true test (given pairs)).1 (
                cp,
                (
                  m,
                  (and_true _ _).1 (
                    (network-InNetwork to_lowercase parse_ip addresses cp.ip ip good).1 in_net,
                    (port_matches-IsPort cp.port port).1 on_port,
                  ),
                ),
              )))
      ],
    )
      where
        holds : CidrPortMatcher → Bool
        holds m = matches m ip port

        test : CidrPort → Bool
        test cp = holds (from_cidr_port to_lowercase parse_ip cp)

  -- A processed route for connections matches exactly if every attribute of the route that is given
  -- accepts the connection. The SNI is a pattern's, or one label before the suffix of a pattern with `*.`,
  -- whatever the case; an address is in a network if its leading bits are those of the network that the
  -- text denotes, and in any case if the text denotes none; a port is the one that is given. The
  -- addresses, parsed or of the connection, are below the power of two of their width.
  pub match_route-AcceptsConnection :
      ((t : Text) (x : IpAddr) → parse_ip t ≡ some x → IsAddress x)
      → (r : Route) (ctx : StreamRequestContext)
      → ((x : IpAddr) → ctx.source_ip ≡ some x → IsAddress x)
      → ((x : IpAddr) → ctx.dest_ip ≡ some x → IsAddress x)
      → (match_route to_lowercase parse_ip (process_stream_route to_lowercase parse_ip r) ctx
          ≡ true)
        ↔ AcceptsConnection r ctx
  match_route-AcceptsConnection addresses r ctx source dest =
      let same = match_route-stream_accepts to_lowercase parse_ip r ctx in
      let servers = server-Accepts r.snis ctx.sni in
      let sources = address-Accepts addresses r.sources ctx.source_ip ctx.source_port source in
      let dests = address-Accepts addresses r.destinations ctx.dest_ip ctx.dest_port dest in
      (
        λ h.
            let (a, bc) = (and_true _ _).0 (sym same ∙ h) in
            let (b, c) = (and_true _ _).0 bc in (servers.0 a, sources.0 b, dests.0 c),
        λ (a, b, c).
            same ∙ (and_true _ _).1 (servers.1 a, (and_true _ _).1 (sources.1 b, dests.1 c)),
      )
