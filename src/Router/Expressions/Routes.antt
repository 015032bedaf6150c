-- ===== src/Router/Expressions/Routes.antt =====
-- The routes of the router of expressions, and the lookup in them, of
-- crates/kong-router/src/expressions.rs.
use Prim.Native.Nat.{Ordering, compare}
use kong_rust.Common.{ℕ, Bool, Option, none, some, List, [], ◌∷◌, ◌++◌, map, any, if◌then◌else◌}
use kong_rust.Common.Assoc.{lookup, insert}
use kong_rust.Common.Sort.{sort_by}
use kong_rust.Common.Text.{Text, text_keyed, before_char}
use kong_rust.Router.Types.{PathHandling, Route, RequestContext, RouteMatch, Engine}
use kong_rust.Router.Process.{protocol_text, widen_i32}
use kong_rust.Router.Matching.{no_captures}
use kong_rust.Router.Order.{signed64}
use kong_rust.Router.Table.{is_http_protocol}
use kong_rust.Router.Expressions.{
  Outcome, ok, err, panicked, out_of_fuel, ◌>>=◌, CompiledExpression, parse_expression, evaluate,
}

pub record ExpressionRoute (Regex : Type 0) : Type 0 where
  pub route_id : ℕ
  pub service_id : Option ℕ
  pub route_name : Option Text
  pub priority : ℕ
  pub expression : CompiledExpression Regex
  pub strip_path : Bool
  pub preserve_host : Bool
  pub path_handling : PathHandling
  pub protocols : List Text
  pub request_buffering : Bool
  pub response_buffering : Bool

abbrev pub or_zero : Option ℕ → ℕ
or_zero none = 0
or_zero (some n) = n

module _ (engine : Engine) where
  abbrev pub Compiled : Type 0
  Compiled = ExpressionRoute engine.Regex

  abbrev pub route_with : Route → CompiledExpression engine.Regex → Compiled
  route_with r expression = record {
    route_id = r.id;
    service_id = r.service;
    route_name = r.name;
    priority = widen_i32 (or_zero r.priority);
    expression = expression;
    strip_path = r.strip_path;
    preserve_host = r.preserve_host;
    path_handling = r.path_handling;
    protocols = map protocol_text r.protocols;
    request_buffering = r.request_buffering;
    response_buffering = r.response_buffering;
  }

  -- A route that has an expression that parses; a panic of the parser is a panic of the whole.
  abbrev pub compile_route : Route → Outcome (Option Compiled)
  compile_route r = elim r.expression [
    | none ↦ ok none
    | some text ↦ elim (parse_expression engine text) [
      | ok e ↦ ok (some (route_with r e))
      | err ↦ ok none
      | panicked ↦ panicked
      | out_of_fuel ↦ out_of_fuel
    ]
  ]

  abbrev pub push_some : Option Compiled → List Compiled → List Compiled
  push_some none rest = rest
  push_some (some r) rest = r ∷ rest

  abbrev pub compile_routes : List Route → Outcome (List Compiled)
  compile_routes [] = ok []
  compile_routes (r ∷ rs) =
      let rest = compile_routes rs in
      if any is_http_protocol r.protocols
      then (compile_route r >>= λ first. rest >>= λ more. ok (push_some first more))
      else rest

  abbrev pub by_priority : Compiled → Compiled → Ordering
  by_priority a b = compare (signed64 b.priority) (signed64 a.priority)

  pub record ExpressionsRouter : Type 0 where
    pub routes : List Compiled
    pub cache : List (Text × Option RouteMatch)

  unfoldable pub new : List Route → Outcome ExpressionsRouter
  new routes =
      compile_routes routes >>= λ rs. ok (record { routes = sort_by by_priority rs; cache = [] })

  abbrev pub to_match : Compiled → RouteMatch
  to_match r = record {
    route_id = r.route_id;
    service_id = r.service_id;
    route_name = r.route_name;
    strip_path = r.strip_path;
    preserve_host = r.preserve_host;
    path_handling = r.path_handling;
    matched_path = none;
    protocols = r.protocols;
    request_buffering = r.request_buffering;
    response_buffering = r.response_buffering;
    uri_captures = no_captures;
  }

  unfoldable pub find_route_uncached : List Compiled → RequestContext → Option RouteMatch
  find_route_uncached [] ctx = none
  find_route_uncached (r ∷ rs) ctx =
      let further = find_route_uncached rs ctx in
      if evaluate engine r.expression ctx then some (to_match r) else further

  unfoldable pub cache_key : RequestContext → Text
  cache_key ctx =
      ctx.method ++ (0 ∷ before_char b':' (engine.to_lowercase ctx.host) ++ (0 ∷ ctx.uri))

  -- The answer and the router after it. What the cache drops to make room is `evict`.
  unfoldable pub find_route :
      (List (Text × Option RouteMatch) → List (Text × Option RouteMatch))
      → ExpressionsRouter
      → RequestContext
      → Option RouteMatch × ExpressionsRouter
  find_route evict router ctx =
      let key = cache_key ctx in
      let result = find_route_uncached router.routes ctx in
      elim (lookup key router.cache) [
        | some cached ↦ (cached, router)
        | none ↦ (
          result,
          record { routes = router.routes; cache = evict (insert key result router.cache) },
        )
      ]
