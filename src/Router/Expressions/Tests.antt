-- ===== src/Router/Expressions/Tests.antt =====
-- Runs of the router of expressions.
use mathlib.Core.List.{Memᴰ}
use mathlib.Core.Option
use kong_rust.Common.{◌≡◌, ◌≢◌, refl, true, false, Option, none, some, [], ◌∷◌, ◌⊎◌, if◌then◌else◌}
use kong_rust.Common.Sort.{sort_by}
use kong_rust.Common.Text.{Text, codes, same_text}
use kong_rust.Router.Types.{http, v0, Route, RequestContext, RouteMatch, Captures, Engine}
use kong_rust.Router.Expressions.{
  ok, err, panicked, out_of_fuel, CompiledExpression, http_method, http_path, and_of, eq_to, or_of,
  parse_expression, evaluate,
}
use kong_rust.Router.Expressions.Parsed.{
  HasNoNotIn, parse_expression-out_of_fuel, parse_expression-HasNoNotIn,
}
use kong_rust.Router.Expressions.Routes.{
  Compiled, ExpressionsRouter, route_with, compile_routes, new, find_route_uncached,
}
use kong_rust.Router.Expressions.Best.{IsChosen, find_route_uncached-IsChosen}

abbrev plain_captures : Text → Text → Option Captures
plain_captures r t = if same_text r t then some (record { whole = t; groups = [] }) else none

-- Regexes that match their own text, and no change of case.
abbrev plain_engine : Engine
plain_engine = record {
  Regex = Text;
  compile = some;
  is_match = same_text;
  captures = plain_captures;
  to_lowercase = λ t. t;
  to_uppercase = λ t. t;
}

abbrev get_api : Text
get_api = codes "http.method == \"GET\" && http.path == \"/api\""

abbrev get_api_expression : CompiledExpression Text
get_api_expression = and_of (eq_to http_method (codes "GET")) (eq_to http_path (codes "/api"))

get_api_parsed : parse_expression plain_engine get_api ≡ ok get_api_expression
unfolding parse_expression
get_api_parsed = refl

parse_expression-out_of_fuel_example : parse_expression plain_engine get_api ≢ out_of_fuel
parse_expression-out_of_fuel_example = parse_expression-out_of_fuel plain_engine get_api

parse_expression-HasNoNotIn_example : HasNoNotIn get_api_expression
parse_expression-HasNoNotIn_example =
    parse_expression-HasNoNotIn plain_engine get_api get_api_expression get_api_parsed

-- `not in` is an error, a quotation mark alone a panic, and so is a letter of two bytes.
not_in_refused : parse_expression plain_engine (codes "http.method not in \"GET\"") ≡ err
unfolding parse_expression
not_in_refused = refl

lone_quote : parse_expression plain_engine (codes "http.path == \"") ≡ panicked
unfolding parse_expression
lone_quote = refl

two_byte_letter : parse_expression plain_engine (codes "http.path == 'é'") ≡ panicked
unfolding parse_expression
two_byte_letter = refl

-- Parentheses group.
nested :
    parse_expression plain_engine
      (codes "(http.method == \"A\" || http.method == \"B\") && http.path == \"/\"")
    ≡ ok (
        and_of
          (or_of (eq_to http_method (codes "A")) (eq_to http_method (codes "B")))
          (eq_to http_path (codes "/")))
unfolding parse_expression
nested = refl

abbrev expression_route : Route
expression_route = record {
  id = 3;
  created_at = 0;
  name = none;
  protocols = http ∷ [];
  strip_path = true;
  preserve_host = false;
  request_buffering = true;
  response_buffering = true;
  service = none;
  snis = none;
  methods = none;
  hosts = none;
  paths = none;
  headers = none;
  regex_priority = 0;
  path_handling = v0;
  sources = none;
  destinations = none;
  expression = some get_api;
  priority = some 1;
}

abbrev get_request : RequestContext
get_request = record {
  method = codes "GET";
  uri = codes "/api";
  host = codes "a";
  scheme = codes "http";
  headers = [];
  sni = none;
}

abbrev compiled_route : Compiled plain_engine
compiled_route = route_with plain_engine expression_route get_api_expression

abbrev sample_router : ExpressionsRouter plain_engine
sample_router = record { routes = compiled_route ∷ []; cache = [] }

routes_compiled : compile_routes plain_engine (expression_route ∷ []) ≡ ok (compiled_route ∷ [])
unfolding parse_expression
routes_compiled = refl

router_built : new plain_engine (expression_route ∷ []) ≡ ok sample_router
unfolding new parse_expression sort_by
router_built = refl

find_route_uncached-IsChosen_example :
    ((r : Compiled plain_engine) × IsChosen plain_engine sample_router
        (expression_route ∷ [])
        (compiled_route ∷ [])
        get_request
        r)
    ⊎ ((find_route_uncached plain_engine (compiled_route ∷ []) get_request ≡ none)
        × ((q : Compiled plain_engine)
            → Memᴰ q (compiled_route ∷ [])
            → evaluate plain_engine q.expression get_request ≡ false))
find_route_uncached-IsChosen_example =
    find_route_uncached-IsChosen plain_engine sample_router (expression_route ∷ [])
      (compiled_route ∷ []) get_request routes_compiled router_built

chosen :
    Option.map
      (λ (m : RouteMatch). m.route_id)
      (find_route_uncached plain_engine (compiled_route ∷ []) get_request)
    ≡ some 3
unfolding find_route_uncached evaluate
chosen = refl
