-- ===== src/Router/Expressions/Best.antt =====
-- Which route the router of expressions in crates/kong-router/src/expressions.rs takes.
use mathlib.Core.List.{Memᴰ}
use mathlib.Core.Option
use kong_rust.Common.{
  ◌≡◌, ◌∙◌, refl, sym, ap, false, none, some, List, [], ◌∷◌, ◌⊎◌, inl, inr, find, Bool-cases,
}
use kong_rust.Common.Compare.{IsTotalOrder, compare-IsTotalOrder, turned-IsTotalOrder}
use kong_rust.Common.Sort.{sort_by}
use kong_rust.Common.First.{IsFirst, find-IsFirst}
use kong_rust.Router.Types.{Route, RequestContext, Engine}
use kong_rust.Router.Order.{signed64}
use kong_rust.Router.Expressions.{Outcome, ok, err, panicked, out_of_fuel, ◌>>=◌, evaluate}
use kong_rust.Router.Expressions.Routes.{
  Compiled, compile_routes, by_priority, ExpressionsRouter, new, to_match, find_route_uncached,
}

module _ (engine : Engine) where
  by_priority-IsTotalOrder : IsTotalOrder (by_priority engine)
  by_priority-IsTotalOrder =
      turned-IsTotalOrder (compare-IsTotalOrder (λ (r : Compiled engine). signed64 r.priority))

  find_route_uncached-find :
      (rs : List (Compiled engine)) (ctx : RequestContext)
      → find_route_uncached engine rs ctx
        ≡ Option.map (to_match engine) (find (λ r. evaluate engine r.expression ctx) rs)
  unfolding find_route_uncached
  find_route_uncached-find [] ctx = refl
  find_route_uncached-find (r ∷ rs) ctx = elim (Bool-cases (evaluate engine r.expression ctx)) [
    | inl h ↦ rw (find_route_uncached, h) refl
    | inr h ↦ rw (find_route_uncached, h) (find_route_uncached-find rs ctx)
  ]

  abbrev routes_in : Outcome (ExpressionsRouter engine) → List (Compiled engine)
  routes_in (ok router) = router.routes
  routes_in err = []
  routes_in panicked = []
  routes_in out_of_fuel = []

  module _ (router : ExpressionsRouter engine) (routes : List Route)
      (compiled : List (Compiled engine)) (ctx : RequestContext) where
    -- A compiled route that holds of the request, that no other of a higher priority does, and its answer.
    abbrev pub IsChosen : Compiled engine → Type 0
    IsChosen r =
        IsFirst (by_priority engine) (λ q. evaluate engine q.expression ctx) compiled r
        × (find_route_uncached engine router.routes ctx ≡ some (to_match engine r))

    -- A router of expressions that is built from some routes answers with one of the compiled routes
    -- whose expression holds of the request, of the highest priority; it answers `none` only where no
    -- expression holds.
    pub find_route_uncached-IsChosen :
        compile_routes engine routes ≡ ok compiled
        → new engine routes ≡ ok router
        → ((r : Compiled engine) × IsChosen r)
          ⊎ ((find_route_uncached engine router.routes ctx ≡ none)
              × ((q : Compiled engine)
                  → Memᴰ q compiled
                  → evaluate engine q.expression ctx ≡ false))
    unfolding new
    find_route_uncached-IsChosen h k =
        elim (find-IsFirst by_priority-IsTotalOrder (λ q. evaluate engine q.expression ctx)
          compiled) [
            | inl (r, (f, first)) ↦ inl (r, (first, found ∙ ap (Option.map (to_match engine)) f))
            | inr (f, none_of) ↦ inr (found ∙ ap (Option.map (to_match engine)) f, none_of)
          ]
      where
        built :
            ok (record { routes = sort_by (by_priority engine) compiled; cache = [] }) ≡ ok router
        built =
            ap
              (λ o.
                o >>= λ rs. ok (record { routes = sort_by (by_priority engine) rs; cache = [] }))
              (sym h)
            ∙ k

        found :
            find_route_uncached engine router.routes ctx
            ≡ Option.map (to_match engine) (
                find
                  (λ q. evaluate engine q.expression ctx)
                  (sort_by (by_priority engine) compiled))
        found =
            ap (λ o. find_route_uncached engine (routes_in o) ctx) (sym built)
            ∙ find_route_uncached-find (sort_by (by_priority engine) compiled) ctx
