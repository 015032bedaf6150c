-- ===== src/Router/Table/Answers.antt =====
-- The lookup of crates/kong-router/src/traditional.rs, said of the routes as they are configured.
use mathlib.Core.List.{Memᴰ}
use kong_rust.Common.{
  ◌≡◌, ◌∙◌, sym, ap, Bool, true, false, none, some, List, ◌⊎◌, inl, inr, any, keep_if,
}
use kong_rust.Common.Members.{Memᴰ-keep_if, keep_if-Memᴰ, Memᴰ-map, map-Memᴰ}
use kong_rust.Common.Text.{Text}
use kong_rust.Router.Types.{Route, RequestContext, Engine, ProcessedRoute}
use kong_rust.Router.Process.{process_route}
use kong_rust.Router.Matching.{match_route}
use kong_rust.Router.Accepts.{accepts}
use kong_rust.Router.Accepts.Match.{match_route-accepts}
use kong_rust.Router.Table.{is_http_protocol, new, to_match, find_route_uncached, processed_routes}
use kong_rust.Router.Table.Best.{IsBest, find_route_uncached-IsBest}

module _ (engine : Engine) (routes : List Route) (ctx : RequestContext)
    (host host_no_port : Text) where
  abbrev speaks_http : Route → Bool
  speaks_http r = any is_http_protocol r.protocols

  -- A route that speaks HTTP and accepts the request, and the answer it gives.
  pub record IsAnsweredBy (r : Route) : Type 0 where
    pub listed : Memᴰ r routes
    pub http_like : speaks_http r ≡ true
    pub accepted : accepts engine r ctx host host_no_port ≡ true
    pub result :
        find_route_uncached engine (new engine routes) ctx host host_no_port
        ≡ some (to_match engine (process_route engine r) ctx.uri)

  -- The lookup answers with a configured route that speaks HTTP and accepts the request; it answers
  -- `none` only where no such route is configured.
  pub find_route_uncached-accepts :
      ((r : Route) × IsAnsweredBy r)
      ⊎ ((find_route_uncached engine (new engine routes) ctx host host_no_port ≡ none)
          × ((r : Route)
              → Memᴰ r routes
              → speaks_http r ≡ true
              → accepts engine r ctx host host_no_port ≡ false))
  find_route_uncached-accepts =
      elim (find_route_uncached-IsBest engine routes ctx host host_no_port) [
        | inl (q, (best, e)) ↦ inl (
            taken q best e
              (map-Memᴰ (process_route engine) (keep_if speaks_http routes) best.listed))
        | inr (e, none_of) ↦ inr (
          e,
          λ r m h.
              sym (match_route-accepts engine r ctx host host_no_port)
              ∙ none_of (process_route engine r) (
                  Memᴰ-map (process_route engine) (keep_if speaks_http routes)
                    (keep_if-Memᴰ speaks_http routes m h)),
        )
      ]
    where
      taken :
          (q : ProcessedRoute engine.Regex)
          → IsBest
              (λ p. match_route engine p ctx host host_no_port)
              (processed_routes engine routes)
              q
          → find_route_uncached engine (new engine routes) ctx host host_no_port
            ≡ some (to_match engine q ctx.uri)
          → (r : Route) × (Memᴰ r (keep_if speaks_http routes) × (q ≡ process_route engine r))
          → (r : Route) × IsAnsweredBy r
      taken q best e (r, (m, h)) =
          let kept = Memᴰ-keep_if speaks_http routes m in
          (
            r,
            record {
              listed = kept.0;
              http_like = kept.1;
              accepted =
                  sym (match_route-accepts engine r ctx host host_no_port)
                  ∙ ap (λ p. match_route engine p ctx host host_no_port) (sym h)
                  ∙ best.matched;
              result = e ∙ ap (λ p. some (to_match engine p ctx.uri)) h;
            },
          )
