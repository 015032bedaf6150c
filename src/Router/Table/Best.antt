-- ===== src/Router/Table/Best.antt =====
-- Which route `find_route_uncached` of crates/kong-router/src/traditional.rs takes.
use Prim.Native.Nat.{Ordering, lt, eq, gt, compare}
use mathlib.Core.List.{Memᴰ}
use mathlib.Core.List.Memᴰ
use kong_rust.Common.{
  ℕ, ◌≡◌, ◌≢◌, ◌∙◌, refl, sym, ap, ap₂, Bool, true, false, none, some, List, [], ◌∷◌, map, ◌⊎◌, inl,
  inr, nat_beq, nat_beq_iff, arith,
}
use kong_rust.Common.Compare.{
  then_by, le_refl, IsTotalOrder, compare-IsTotalOrder, turned-IsTotalOrder, then_by-IsTotalOrder,
}
use kong_rust.Common.Sort.{
  sort_by, sort_by-Memᴰ, Memᴰ-sort_by, sort_by-IsOrdered, IsOrdered-keep_if, IsOrdered,
}
use kong_rust.Common.Members.{keep_if-Memᴰ}
use kong_rust.Common.First.{find_matches, find-Memᴰ, find_first}
use kong_rust.Common.Text.{Text}
use kong_rust.Router.Types.{Route, RequestContext, Engine, ProcessedRoute}
use kong_rust.Router.Process.{process_route}
use kong_rust.Router.Matching.{match_route}
use kong_rust.Router.Order.{sort_routes, sort_routes-IsTotalOrder}
use kong_rust.Router.Rules.{weight_of, process_route-weight_of}
use kong_rust.Router.Table.{
  Category, category_order, category_of, to_match, find_route_uncached, new, processed_routes,
}
use kong_rust.Router.Table.Groups.{of_rules, group_of}
use kong_rust.Router.Table.Search.{
  matches, NoMatch, Found, Missed, categories-cases, table, table-IsEntry, IsEntry-IsGroup,
  table-there, of_rules-member, category-weight,
}

-- One order of all routes: first the weight, then the rules, then `sort_routes`.
abbrev pub precedes : {Regex : Type 0} → ProcessedRoute Regex → ProcessedRoute Regex → Ordering
precedes a b =
    then_by (compare b.match_weight a.match_weight)
      (then_by (compare b.match_rules a.match_rules) (sort_routes a b))

-- A route of the list that matches, and that no other route that matches precedes.
pub record IsBest {Regex : Type 0} (matches : ProcessedRoute Regex → Bool)
    (routes : List (ProcessedRoute Regex)) (r : ProcessedRoute Regex) : Type 0 where
  pub listed : Memᴰ r routes
  pub matched : matches r ≡ true
  pub best : (q : ProcessedRoute Regex) → Memᴰ q routes → matches q ≡ true → precedes r q ≢ gt

category_order-IsTotalOrder : IsTotalOrder category_order
category_order-IsTotalOrder =
    then_by-IsTotalOrder
      (turned-IsTotalOrder (compare-IsTotalOrder (λ (c : Category). c.match_weight)))
      (turned-IsTotalOrder (compare-IsTotalOrder (λ (c : Category). c.match_rules)))

clash : (b : Bool) → b ≡ true → b ≡ false → ⊥
clash b h k = cc

same_order :
    (m : ℕ) {a b c d n k : ℕ}
    → a ≡ b
    → c ≡ d
    → n ≡ k
    → then_by (compare a c) (compare m k) ≡ then_by (compare b d) (compare m n)
same_order m {b = b} {d = d} {k = k} p q r =
    ap₂ (λ x y. then_by (compare x y) (compare m k)) p q
    ∙ ap (λ x. then_by (compare b d) (compare m x)) (sym r)

-- Two comparisons before a third.
module _ (v w m n : ℕ) (o : Ordering) where
  not_after :
      then_by (compare v w) (compare m n) ≢ gt
      → (m ≡ n → o ≢ gt)
      → then_by (compare v w) (then_by (compare m n) o) ≢ gt
  not_after h k = go (compare v w) (compare m n) refl h
    where
      tied : compare m n ≡ eq → m ≡ n
      tied e = ground arith

      go : (x y : Ordering) → compare m n ≡ y → then_by x y ≢ gt → then_by x (then_by y o) ≢ gt
      go lt y e p q = p q
      go gt y e p q = p q
      go eq lt e p q = p q
      go eq gt e p q = p q
      go eq eq e p q = k (tied e) q

module _ (engine : Engine) (processed : List (ProcessedRoute engine.Regex)) (ctx : RequestContext)
    (host host_no_port : Text) where
  abbrev Processed : Type 0
  Processed = ProcessedRoute engine.Regex

  module _ (weighed : (r : Processed) → Memᴰ r processed → r.match_weight ≡ weight_of r.match_rules)
      (ordered : IsOrdered sort_routes processed) where
    found-IsBest :
        (f : Found engine processed ctx host host_no_port
          (table engine processed ctx host host_no_port))
        → IsBest (matches engine processed ctx host host_no_port) processed f.route
    found-IsBest f = record {
      listed =
          (of_rules-member engine processed ctx host host_no_port weighed f.category.match_rules
            f.route member).0;
      matched =
          find_matches (matches engine processed ctx host host_no_port)
            (of_rules engine f.category.match_rules processed) f.route f.picked;
      best = λ q m h.
          after q m h
            (f.first (category_for q) (table-there engine processed ctx host host_no_port q m));
    }
      where
        member : Memᴰ f.route (of_rules engine f.category.match_rules processed)
        member =
            find-Memᴰ (matches engine processed ctx host host_no_port)
              (of_rules engine f.category.match_rules processed) f.route f.picked

        category_for : Processed → Category
        category_for q =
            category_of engine processed (q.match_rules, group_of engine q.match_rules processed)

        after :
            (q : Processed)
            → Memᴰ q processed
            → matches engine processed ctx host host_no_port q ≡ true
            → (category_order f.category (category_for q) ≢ gt)
              ⊎ NoMatch engine processed ctx host host_no_port (category_for q)
            → precedes f.route q ≢ gt
        after q m h (inr none_of) = absurd (
            clash _ h (
              none_of q (
                keep_if-Memᴰ (λ r. nat_beq r.match_rules q.match_rules) processed m
                  ((nat_beq_iff _ _).1 refl))))
        after q m h (inl p) =
            not_after q.match_weight f.route.match_weight q.match_rules f.route.match_rules
              (sort_routes f.route q)
              (λ e. p (same_order q.match_rules (weight_for q m) weight rules ∙ e))
              (λ e.
                find_first (matches engine processed ctx host host_no_port) sort_routes
                  (le_refl sort_routes-IsTotalOrder)
                  (of_rules engine f.category.match_rules processed) f.route
                  (IsOrdered-keep_if sort_routes (λ r. nat_beq r.match_rules f.category.match_rules)
                    processed ordered)
                  f.picked q
                  (keep_if-Memᴰ (λ r. nat_beq r.match_rules f.category.match_rules) processed m
                    ((nat_beq_iff _ _).1 (e ∙ rules)))
                  h)
          where
            rules : f.route.match_rules ≡ f.category.match_rules
            rules =
                (of_rules-member engine processed ctx host host_no_port weighed
                  f.category.match_rules f.route
                  (find-Memᴰ (matches engine processed ctx host host_no_port)
                    (of_rules engine f.category.match_rules processed) f.route f.picked)).1

            weight : f.category.match_weight ≡ f.route.match_weight
            weight =
                category-weight engine processed ctx host host_no_port weighed f.category f.route
                  (table-IsEntry engine processed ctx host host_no_port f.category f.there)
                  (find-Memᴰ (matches engine processed ctx host host_no_port)
                    (of_rules engine f.category.match_rules processed) f.route f.picked)

            weight_for :
                (r : Processed)
                → Memᴰ r processed
                → (category_of engine processed
                    (r.match_rules, group_of engine r.match_rules processed)).match_weight
                  ≡ r.match_weight
            weight_for r k =
                category-weight engine processed ctx host host_no_port weighed
                  (category_of engine processed
                    (r.match_rules, group_of engine r.match_rules processed))
                  r refl
                  (keep_if-Memᴰ (λ r'. nat_beq r'.match_rules r.match_rules) processed k
                    ((nat_beq_iff _ _).1 refl))

module _ (engine : Engine) where
  process_route-weighed :
      (routes : List Route) (r : ProcessedRoute engine.Regex)
      → Memᴰ r (map (process_route engine) routes)
      → r.match_weight ≡ weight_of r.match_rules
  process_route-weighed [] r m = absurd (Memᴰ.not-nil m)
  process_route-weighed (x ∷ xs) r m = elim (Memᴰ.cases_cons m) [
    | inl e ↦ rw e (process_route-weight_of engine x)
    | inr t ↦ process_route-weighed xs r t
  ]

  module _ (routes : List Route) (ctx : RequestContext) (host host_no_port : Text) where
    -- The route that is taken, and what is answered.
    abbrev pub Taken : ProcessedRoute engine.Regex → Type 0
    Taken r =
        IsBest (λ q. match_route engine q ctx host host_no_port) (processed_routes engine routes) r
        × (find_route_uncached engine (new engine routes) ctx host host_no_port
            ≡ some (to_match engine r ctx.uri))

    -- A lookup in the table of some routes answers with a route that matches the request and that no other
    -- matching route precedes, by weight, then rules, then the order of `sort_routes`; it answers `none`
    -- only where no route that speaks HTTP matches.
    pub find_route_uncached-IsBest :
        ((r : ProcessedRoute engine.Regex) × Taken r)
        ⊎ ((find_route_uncached engine (new engine routes) ctx host host_no_port ≡ none)
            × ((q : ProcessedRoute engine.Regex)
                → Memᴰ q (processed_routes engine routes)
                → match_route engine q ctx host host_no_port ≡ false))
    unfolding new find_route_uncached
    find_route_uncached-IsBest = go (
        categories-cases engine processed ctx host host_no_port
          (table engine processed ctx host host_no_port)
          (λ c m.
            IsEntry-IsGroup engine processed ctx host host_no_port c
              (table-IsEntry engine processed ctx host host_no_port c m))
          (le_refl category_order-IsTotalOrder)
          (sort_by-IsOrdered category_order category_order-IsTotalOrder _))
      where
        processed : List (ProcessedRoute engine.Regex)
        processed = sort_by sort_routes (processed_routes engine routes)

        weighed :
            (r : ProcessedRoute engine.Regex)
            → Memᴰ r processed
            → r.match_weight ≡ weight_of r.match_rules
        weighed r m =
            process_route-weighed _ r (sort_by-Memᴰ sort_routes (processed_routes engine routes) m)

        go :
            Missed engine processed ctx host host_no_port
                (table engine processed ctx host host_no_port)
              ⊎ Found engine processed ctx host host_no_port
                  (table engine processed ctx host host_no_port)
            → ((r : ProcessedRoute engine.Regex) × Taken r)
              ⊎ ((find_route_uncached engine (new engine routes) ctx host host_no_port ≡ none)
                  × ((q : ProcessedRoute engine.Regex)
                      → Memᴰ q (processed_routes engine routes)
                      → match_route engine q ctx host host_no_port ≡ false))
        go (inl (e, none_of)) = inr (
          e,
          λ q m.
              none_of _
                (table-there engine processed ctx host host_no_port q
                  (Memᴰ-sort_by sort_routes (processed_routes engine routes) m))
                q
                (keep_if-Memᴰ (λ r. nat_beq r.match_rules q.match_rules) processed
                  (Memᴰ-sort_by sort_routes (processed_routes engine routes) m)
                  ((nat_beq_iff _ _).1 refl)),
        )
        go (inr f) =
            let best =
              found-IsBest engine processed ctx host host_no_port weighed
                (sort_by-IsOrdered sort_routes sort_routes-IsTotalOrder
                  (processed_routes engine routes))
                f in
            inl (
              f.route,
              (
                record {
                  listed = sort_by-Memᴰ sort_routes (processed_routes engine routes) best.listed;
                  matched = best.matched;
                  best = λ q m h.
                      best.best q (Memᴰ-sort_by sort_routes (processed_routes engine routes) m) h;
                },
                f.result,
              ),
            )
