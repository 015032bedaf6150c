-- ===== src/Router/Stream/Taken.antt =====
-- Which of the configured routes the router of connections in crates/kong-router/src/stream.rs takes.
use Prim.Native.Nat.{compare, gt}
use mathlib.Core.Path.{subst}
use mathlib.Core.List.{Memᴰ}
use kong_rust.Common.{
  ℕ, ◌+◌, ◌≤◌, ◌<◌, ◌≡◌, ◌≢◌, ◌∙◌, ◌⊎◌, ◌↔◌, inl, inr, refl, sym, ap, ap₂, true, Option, none, some,
  List, [], ◌∷◌, map, keep_if, arith,
}
use kong_rust.Common.Compare.{then_by, then_by-not_gt, compare-not_gt}
use kong_rust.Common.Members.{Memᴰ-keep_if, keep_if-Memᴰ, Memᴰ-map, map-Memᴰ}
use kong_rust.Common.Text.{Text}
use kong_rust.Router.Types.{Route}
use kong_rust.Router.Process.{given, weigh}
use kong_rust.Router.Order.{signed64}
use kong_rust.Router.Stream.{
  IpAddr, StreamRequestContext, StreamRouteMatch, ProcessedStreamRoute, is_stream_route,
  from_cidr_port, process_stream_route, stream_order, new, match_route, to_match, find_route,
}
use kong_rust.Router.Stream.Cidr.{IsAddress}
use kong_rust.Router.Stream.Best.{stream_routes, find_route-IsFirst}
use kong_rust.Router.Stream.Connections.{AcceptsConnection, match_route-AcceptsConnection}

abbrev pub one_if_given {ℓ} : {A : Type ℓ} → Option (List A) → ℕ
one_if_given none = 0
one_if_given (some []) = 0
one_if_given (some (x ∷ xs)) = 1

-- How many of the three attributes a route has.
abbrev pub attributes : Route → ℕ
attributes r = one_if_given r.snis + one_if_given r.sources + one_if_given r.destinations

-- The first route has more attributes, or as many and is not younger.
abbrev pub GoesBefore : Route → Route → Type 0
GoesBefore r q =
    (attributes q < attributes r)
    ⊎ ((attributes q ≡ attributes r) × (signed64 r.created_at ≤ signed64 q.created_at))

abbrev pub answer_of : Route → StreamRouteMatch
answer_of r = record {
  route_id = r.id;
  service_id = r.service;
  route_name = r.name;
  protocols = r.protocols;
}

weigh-given {ℓ κ} :
    {A : Type ℓ} {B : Type κ} (f : A → B) (xs : Option (List A))
    → weigh (map f (given xs)) ≡ one_if_given xs
weigh-given f none = refl
weigh-given f (some []) = refl
weigh-given f (some (x ∷ xs)) = refl

ordered :
    (m n : ℕ) (x y : ℕ) → then_by (compare m n) (compare x y) ≢ gt → (m < n) ⊎ ((m ≡ n) × (x ≤ y))
ordered m n x y h = elim (then_by-not_gt m n (compare x y) h) [
  | inl e ↦ inl e
  | inr (e, k) ↦ inr (e, compare-not_gt x y k)
]

module _ (to_lowercase : Text → Text) (parse_ip : Text → Option IpAddr) where
  abbrev process : Route → ProcessedStreamRoute
  process = process_stream_route to_lowercase parse_ip

  process-attributes : (r : Route) → (process r).match_weight ≡ attributes r
  unfolding process_stream_route
  process-attributes r = omega (
    arith,
    weigh-given to_lowercase r.snis,
    weigh-given (from_cidr_port to_lowercase parse_ip) r.sources,
    weigh-given (from_cidr_port to_lowercase parse_ip) r.destinations,
  )

  process-created_at : (r : Route) → (process r).created_at ≡ r.created_at
  unfolding process_stream_route
  process-created_at r = refl

  answer-process : (r : Route) → to_match to_lowercase parse_ip (process r) ≡ answer_of r
  unfolding process_stream_route
  answer-process r = refl

  goes-before :
      (r q : Route)
      → stream_order to_lowercase parse_ip (process r) (process q) ≢ gt
      → GoesBefore r q
  goes-before r q h =
      ordered (attributes q) (attributes r) (signed64 r.created_at) (signed64 q.created_at) (
        subst (λ o. o ≢ gt)
          (ap₂ then_by (ap₂ compare (process-attributes q) (process-attributes r)) (
            ap₂ (λ x y. compare (signed64 x) (signed64 y)) (process-created_at r)
              (process-created_at q)))
          h)

  module _ (addresses : (t : Text) (x : IpAddr) → parse_ip t ≡ some x → IsAddress x)
      (routes : List Route) (ctx : StreamRequestContext)
      (source : (x : IpAddr) → ctx.source_ip ≡ some x → IsAddress x)
      (dest : (x : IpAddr) → ctx.dest_ip ≡ some x → IsAddress x) where
    -- A configured route for connections that accepts the connection.
    abbrev pub Fits : Route → Type 0
    Fits r =
        Memᴰ r routes × (is_stream_route r ≡ true) × AcceptsConnection to_lowercase parse_ip r ctx

    -- The answer is that of a route that fits, and this goes before every other that fits.
    abbrev pub IsTaken : Route → Type 0
    IsTaken r =
        Fits r
        × (find_route to_lowercase parse_ip (new to_lowercase parse_ip routes) ctx
            ≡ some (answer_of r))
        × ((q : Route) → Fits q → GoesBefore r q)

    listed :
        (q : Route)
        → Memᴰ q routes
        → is_stream_route q ≡ true
        → Memᴰ (process q) (stream_routes to_lowercase parse_ip routes ctx)
    listed q m s =
        Memᴰ-map process (keep_if is_stream_route routes) (keep_if-Memᴰ is_stream_route routes m s)

    accepted :
        (q : Route)
        → (match_route to_lowercase parse_ip (process q) ctx ≡ true)
          ↔ AcceptsConnection to_lowercase parse_ip q ctx
    accepted q = match_route-AcceptsConnection to_lowercase parse_ip addresses q ctx source dest

    -- The router of connections answers with a configured route that speaks a protocol of connections and
    -- accepts this one, such that every other route like that has fewer of the three attributes, or as
    -- many and is not older; it answers `none` only where there is no such route. So SNI, source and
    -- destination count the same, and so do an exact server name and a wildcard. The addresses, parsed or
    -- of the connection, are below the power of two of their width.
    pub find_route-IsTaken :
        ((r : Route) × IsTaken r)
        ⊎ ((find_route to_lowercase parse_ip (new to_lowercase parse_ip routes) ctx ≡ none)
            × ((q : Route) → ¬ Fits q))
    find_route-IsTaken = elim (find_route-IsFirst to_lowercase parse_ip routes ctx) [
      | inr (h, none_of) ↦
          inr (h, λ q (m, s, a). cc (none_of (process q) (listed q m s), (accepted q).1 a))
      | inl (p, (first, h)) ↦
          let found = map-Memᴰ process (keep_if is_stream_route routes) first.listed in
          let r = found.0 in
          let kept = Memᴰ-keep_if is_stream_route routes found.1.0 in
          inl (
            r,
            (
              (
                kept.0,
                kept.1,
                (accepted r).0 (
                    ap (λ x. match_route to_lowercase parse_ip x ctx) (sym found.1.1)
                    ∙ first.matched),
              ),
              h
                  ∙ ap (λ x. some (to_match to_lowercase parse_ip x)) found.1.1
                  ∙ ap some (answer-process r),
              λ q (m, s, a). goes-before r q (
                  subst (λ x. stream_order to_lowercase parse_ip x (process q) ≢ gt) found.1.1
                    (first.best (process q) (listed q m s) ((accepted q).1 a))),
            ),
          )
    ]
