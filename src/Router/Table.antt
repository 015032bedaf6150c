-- ===== src/Router/Table.antt =====
-- The table of crates/kong-router/src/traditional.rs: how it is built from the routes, how a request is
-- looked up in it, and the cache of the answers.
use Prim.Native.Nat.{Ordering, lt, eq, gt, compare}
use kong_rust.Common.{
  ℕ, zero, suc, Bool, true, false, ◌||◌, Option, none, some, List, [], ◌∷◌, ◌++◌, map,
  if◌then◌else◌, any, keep_if, get_elem?, nat_keyed,
}
use kong_rust.Common.Assoc.{lookup, insert}
use kong_rust.Common.Compare.{then_by}
use kong_rust.Common.Sort.{sort_by}
use kong_rust.Common.Text.{Text, codes, text_keyed, before_char, join}
use kong_rust.Router.Types.{
  Protocol, http, https, tcp, tls, udp, grpc, grpcs, tls_passthrough, ws, wss, Route, UriCaptures,
  RequestContext, RouteMatch, Engine, ProcessedRoute,
}
use kong_rust.Router.Process.{process_route}
use kong_rust.Router.Matching.{match_route, find_matched_path_and_captures}
use kong_rust.Router.Order.{sort_routes}
pub mod Groups
pub mod Search
pub mod Best
pub mod Cached
pub mod Answers

pub record Category : Type 0 where
  pub match_rules : ℕ
  pub match_weight : ℕ
  pub routes : List ℕ

abbrev pub is_http_protocol : Protocol → Bool
is_http_protocol http = true
is_http_protocol https = true
is_http_protocol grpc = true
is_http_protocol grpcs = true
is_http_protocol ws = true
is_http_protocol wss = true
is_http_protocol tcp = false
is_http_protocol tls = false
is_http_protocol udp = false
is_http_protocol tls_passthrough = false

-- Bytes of UTF-8 are ordered as the characters they stand for.
abbrev pub compare_text : Text → Text → Ordering
compare_text [] [] = eq
compare_text [] (d ∷ t) = lt
compare_text (c ∷ s) [] = gt
compare_text (c ∷ s) (d ∷ t) = then_by (compare c d) (compare_text s t)

abbrev pub category_order : Category → Category → Ordering
category_order a b =
    then_by (compare b.match_weight a.match_weight) (compare b.match_rules a.match_rules)

-- `entry(key).or_default().push(i)`.
abbrev pub or_default {ℓ} : {A : Type ℓ} → Option (List A) → List A
or_default none = []
or_default (some xs) = xs

abbrev pub push_at : ℕ → ℕ → List (ℕ × List ℕ) → List (ℕ × List ℕ)
push_at key i groups = insert key (or_default (lookup key groups) ++ (i ∷ [])) groups

module _ (engine : Engine) where
  abbrev Processed : Type 0
  Processed = ProcessedRoute engine.Regex

  -- The routes that speak HTTP, processed.
  abbrev pub processed_routes : List Route → List Processed
  processed_routes routes =
      map (process_route engine) (keep_if (λ r. any is_http_protocol r.protocols) routes)

  -- The indices of the routes by their `match_rules`.
  abbrev pub group_by_rules : ℕ → List Processed → List (ℕ × List ℕ) → List (ℕ × List ℕ)
  group_by_rules i [] groups = groups
  group_by_rules i (r ∷ rs) groups = group_by_rules (suc i) rs (push_at r.match_rules i groups)

  -- `processed[routes[0]].match_weight`. No group is empty and no index out of range: `none` is a panic
  -- that is not reached.
  abbrev pub weight_at : List Processed → List ℕ → ℕ
  weight_at processed [] = 0
  weight_at processed (i ∷ is) = elim (get_elem? processed i) [ none ↦ 0 | some r ↦ r.match_weight ]

  abbrev pub category_of : List Processed → ℕ × List ℕ → Category
  category_of processed (rules, indices) = record {
    match_rules = rules;
    match_weight = weight_at processed indices;
    routes = indices;
  }

  -- Without the four indices that nothing reads.
  pub record TraditionalRouter : Type 0 where
    pub routes : List Processed
    pub categories : List Category
    pub cache : List (Text × Option RouteMatch)

  unfoldable pub new : List Route → TraditionalRouter
  new routes =
      let processed = sort_by sort_routes (processed_routes routes) in
      record {
        routes = processed;
        categories =
            sort_by category_order (map (category_of processed) (group_by_rules 0 processed []));
        cache = [];
      }

  abbrev pub to_match : Processed → Text → RouteMatch
  to_match r uri =
      let found = find_matched_path_and_captures engine r uri in
      record {
        route_id = r.route_id;
        service_id = r.service_id;
        route_name = r.name;
        strip_path = r.strip_path;
        preserve_host = r.preserve_host;
        path_handling = r.path_handling;
        matched_path = found.0;
        protocols = r.protocols;
        request_buffering = r.request_buffering;
        response_buffering = r.response_buffering;
        uri_captures = found.1;
      }

  module _ (routes : List Processed) (ctx : RequestContext) (host host_no_port : Text) where
    -- The loop over the routes of one category; an index out of range is a panic that is not reached.
    abbrev pub find_in_category : List ℕ → Option RouteMatch
    find_in_category [] = none
    find_in_category (i ∷ is) =
        let further = find_in_category is in
        elim (get_elem? routes i) [
          | none ↦ none
          | some r ↦
              if match_route engine r ctx host host_no_port
              then some (to_match r ctx.uri)
              else further
        ]

    abbrev pub find_in_categories : List Category → Option RouteMatch
    find_in_categories [] = none
    find_in_categories (c ∷ cs) =
        let further = find_in_categories cs in
        elim (find_in_category c.routes) [ none ↦ further | some m ↦ some m ]

  unfoldable pub find_route_uncached :
      TraditionalRouter → RequestContext → Text → Text → Option RouteMatch
  find_route_uncached router ctx host host_no_port =
      find_in_categories router.routes ctx host host_no_port router.categories

  abbrev pub header_text : Text × Text → Text
  header_text (name, value) = name ++ (codes "=" ++ value)

  unfoldable pub cache_key : RequestContext → Text
  cache_key ctx =
      ctx.method
      ++ (0 ∷ before_char b':' (engine.to_lowercase ctx.host)
          ++ (0 ∷ ctx.uri
              ++ (0
                  ∷ join (codes "&")
                      (map header_text (sort_by (λ a b. compare_text a.0 b.0) ctx.headers)))))

  -- The answer without the cache.
  abbrev pub answer : TraditionalRouter → RequestContext → Option RouteMatch
  answer router ctx =
      let host_lower = engine.to_lowercase ctx.host in
      find_route_uncached router ctx host_lower (before_char b':' host_lower)

  -- The answer and the router after it. What the cache drops to make room is `evict`.
  unfoldable pub find_route :
      (List (Text × Option RouteMatch) → List (Text × Option RouteMatch))
      → TraditionalRouter
      → RequestContext
      → Option RouteMatch × TraditionalRouter
  find_route evict router ctx =
      let key = cache_key ctx in
      let result = answer router ctx in
      elim (lookup key router.cache) [
        | some cached ↦ (cached, router)
        | none ↦ (
          result,
          record {
            routes = router.routes;
            categories = router.categories;
            cache = evict (insert key result router.cache);
          },
        )
      ]
