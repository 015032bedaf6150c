-- ===== src/Router/Stream/Best.antt =====
-- Which route the router of connections in crates/kong-router/src/stream.rs takes.
use mathlib.Core.List.{Memᴰ}
use mathlib.Core.Option
use kong_rust.Common.{
  ◌≡◌, ◌∙◌, refl, ap, false, Option, none, some, List, [], ◌∷◌, map, ◌⊎◌, inl, inr, find, keep_if,
  Bool-cases,
}
use kong_rust.Common.Compare.{
  IsTotalOrder, compare-IsTotalOrder, turned-IsTotalOrder, then_by-IsTotalOrder,
}
use kong_rust.Common.Sort.{sort_by}
use kong_rust.Common.First.{IsFirst, find-IsFirst}
use kong_rust.Common.Text.{Text}
use kong_rust.Router.Types.{Route}
use kong_rust.Router.Order.{signed64}
use kong_rust.Router.Stream.{
  IpAddr, StreamRequestContext, ProcessedStreamRoute, is_stream_route, process_stream_route,
  stream_order, new, match_route, to_match, find_route,
}

module _ (to_lowercase : Text → Text) (parse_ip : Text → Option IpAddr) where
  stream_order-IsTotalOrder : IsTotalOrder (stream_order to_lowercase parse_ip)
  stream_order-IsTotalOrder =
      then_by-IsTotalOrder
        (turned-IsTotalOrder (compare-IsTotalOrder (λ (r : ProcessedStreamRoute). r.match_weight)))
        (compare-IsTotalOrder (λ (r : ProcessedStreamRoute). signed64 r.created_at))

  find_route-find :
      (rs : List ProcessedStreamRoute) (ctx : StreamRequestContext)
      → find_route to_lowercase parse_ip rs ctx
        ≡ Option.map
            (to_match to_lowercase parse_ip)
            (find (λ r. match_route to_lowercase parse_ip r ctx) rs)
  unfolding find_route
  find_route-find [] ctx = refl
  find_route-find (r ∷ rs) ctx = elim (Bool-cases (match_route to_lowercase parse_ip r ctx)) [
    | inl h ↦ rw (find_route, h) refl
    | inr h ↦ rw (find_route, h) (find_route-find rs ctx)
  ]

  module _ (routes : List Route) (ctx : StreamRequestContext) where
    abbrev pub stream_routes : List ProcessedStreamRoute
    stream_routes =
        map (process_stream_route to_lowercase parse_ip) (keep_if is_stream_route routes)

    -- A route for connections that matches, that no other that matches comes before, and its answer.
    abbrev pub IsFirstMatch : ProcessedStreamRoute → Type 0
    IsFirstMatch r =
        IsFirst (stream_order to_lowercase parse_ip) (λ q. match_route to_lowercase parse_ip q ctx)
          stream_routes r
        × (find_route to_lowercase parse_ip (new to_lowercase parse_ip routes) ctx
            ≡ some (to_match to_lowercase parse_ip r))

    -- The router of connections answers with the first processed route that matches in the order of the
    -- routes; it answers `none` only where no route for connections matches.
    pub find_route-IsFirst :
        ((r : ProcessedStreamRoute) × IsFirstMatch r)
        ⊎ ((find_route to_lowercase parse_ip (new to_lowercase parse_ip routes) ctx ≡ none)
            × ((q : ProcessedStreamRoute)
                → Memᴰ q stream_routes
                → match_route to_lowercase parse_ip q ctx ≡ false))
    unfolding new
    find_route-IsFirst =
        elim (find-IsFirst stream_order-IsTotalOrder (λ q. match_route to_lowercase parse_ip q ctx)
          stream_routes) [
            | inl (r, (h, first)) ↦
                inl (r, (first, found ∙ ap (Option.map (to_match to_lowercase parse_ip)) h))
            | inr (h, none_of) ↦
                inr (found ∙ ap (Option.map (to_match to_lowercase parse_ip)) h, none_of)
          ]
      where
        found :
            find_route to_lowercase parse_ip
              (sort_by (stream_order to_lowercase parse_ip) stream_routes)
              ctx
            ≡ Option.map (to_match to_lowercase parse_ip) (
                find
                  (λ q. match_route to_lowercase parse_ip q ctx)
                  (sort_by (stream_order to_lowercase parse_ip) stream_routes))
        found = find_route-find (sort_by (stream_order to_lowercase parse_ip) stream_routes) ctx
