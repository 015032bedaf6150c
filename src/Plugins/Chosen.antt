-- ===== src/Plugins/Chosen.antt =====
-- Which plugins `resolve_plugins` of crates/kong-plugin-system/src/lib.rs chooses.
use Prim.Native.Nat.{gt}
use mathlib.Core.List.{Memᴰ}
use kong_rust.Common.{
  ℕ, ◌+◌, ◌*◌, ◌≤◌, arith, ◌≡◌, ◌≢◌, ◌∙◌, sym, ap, true, Option, none, some, List, [], inl, inr,
  map, keep_if,
}
use kong_rust.Common.Assoc.{lookup}
use kong_rust.Common.Compare.{then_by-not_gt, compare-not_gt}
use kong_rust.Common.Keys.{entry-lookup, lookup-Memᴰ}
use kong_rust.Common.Members.{Memᴰ-keep_if, keep_if-Memᴰ, Memᴰ-map, map-Memᴰ}
use kong_rust.Common.Sort.{IsOrdered, sort_by-IsOrdered, sort_by-Memᴰ, Memᴰ-sort_by}
use kong_rust.Common.Text.{Text, text_keyed}
use kong_rust.Plugins.{
  Plugin, ResolvedPlugin, as_u8, specificity_order, resolve_with, priority_order, handler_for,
  resolve_all, candidates, resolve_plugins,
}
use kong_rust.Plugins.Resolved.{
  specificity_order-IsTotalOrder, priority_order-IsTotalOrder, resolve_all-IsKeyed, all_of-lookup,
  all_of-found,
}

abbrev pub if_given : Option ℕ → ℕ → ℕ
if_given none n = 0
if_given (some id) n = n

-- How specific a plugin is: a consumer counts for more than a route and a service together, and a route
-- for more than a service.
abbrev pub specificity : {Value : Type 0} → Plugin Value → ℕ
specificity p = if_given p.consumer 4 + if_given p.route 2 + if_given p.service 1

-- A bit that is set counts for a weight.
weighed : (o : Option ℕ) (n : ℕ) → if_given o n ≡ as_u8 o * n
weighed none n = omega arith
weighed (some id) n = omega arith

as_u8-le : (o : Option ℕ) → as_u8 o ≤ 1
as_u8-le none = omega arith
as_u8-le (some id) = omega arith

facts :
    {Value : Type 0} (p : Plugin Value)
    → (specificity p ≡ as_u8 p.consumer * 4 + as_u8 p.route * 2 + as_u8 p.service)
      × (as_u8 p.consumer ≤ 1)
      × (as_u8 p.route ≤ 1)
      × (as_u8 p.service ≤ 1)
facts p = (
  omega (arith, weighed p.consumer 4, weighed p.route 2, weighed p.service 1),
  as_u8-le p.consumer,
  as_u8-le p.route,
  as_u8-le p.service,
)

specificity_order-specificity :
    {Value : Type 0} (q p : Plugin Value)
    → specificity_order q p ≢ gt
    → specificity q ≤ specificity p
specificity_order-specificity q p h =
    elim (then_by-not_gt (as_u8 q.consumer) (as_u8 p.consumer) _ h) [
      | inl c ↦ omega (arith, c, facts q, facts p)
      | inr (c, k) ↦ elim (then_by-not_gt (as_u8 q.route) (as_u8 p.route) _ k) [
        | inl r ↦ omega (arith, c, r, facts q, facts p)
        | inr (r, l) ↦
            omega
              (arith, c, r, compare-not_gt (as_u8 q.service) (as_u8 p.service) l, facts q, facts p)
      ]
    ]

module _ {Handler : Type 0} (priority : Handler → ℕ) (Value : Type 0)
    (registry : List (Text × Handler)) (route_id service_id consumer_id : Option ℕ)
    (plugins : List (Plugin Value)) where
  abbrev handler_of : Plugin Value → Option Handler
  handler_of = handler_for priority Value registry route_id service_id consumer_id

  abbrev entries : List (Text × ResolvedPlugin Handler Value)
  entries =
      resolve_all priority Value registry route_id service_id consumer_id
        (candidates priority Value registry route_id service_id consumer_id plugins) []

  abbrev chosen : List (ResolvedPlugin Handler Value)
  chosen = resolve_plugins priority Value registry route_id service_id consumer_id plugins

  -- An enabled plugin that matches the request and whose name has a handler.
  abbrev pub Applies : Plugin Value → Handler → Type 0
  Applies p h = Memᴰ p plugins × (p.enabled ≡ true) × (handler_of p ≡ some h)

  -- The resolution of a plugin that applies, such that no other of its name is more specific.
  abbrev pub IsMostSpecific : ResolvedPlugin Handler Value → Type 0
  IsMostSpecific r =
      (p : Plugin Value) × (h : Handler) × Applies p h
      × (r ≡ resolve_with h p)
      × ((q : Plugin Value) (g : Handler)
          → Applies q g
          → q.name ≡ p.name
          → specificity q ≤ specificity p)

  candidate :
      (p : Plugin Value)
      → Memᴰ p plugins
      → p.enabled ≡ true
      → Memᴰ p (candidates priority Value registry route_id service_id consumer_id plugins)
  candidate p m e =
      Memᴰ-sort_by specificity_order (keep_if (λ (x : Plugin Value). x.enabled) plugins)
        (keep_if-Memᴰ (λ (x : Plugin Value). x.enabled) plugins m e)

  entry-IsMostSpecific :
      (name : Text) (r : ResolvedPlugin Handler Value)
      → lookup name entries ≡ some r
      → IsMostSpecific r × (r.config.name ≡ name)
  unfolding lookup
  entry-IsMostSpecific name r found =
      elim (all_of-lookup priority Value registry route_id service_id consumer_id
        (candidates priority Value registry route_id service_id consumer_id plugins) [] name r
        (sort_by-IsOrdered specificity_order specificity_order-IsTotalOrder
          (keep_if (λ (x : Plugin Value). x.enabled) plugins))
        found) [
          | inl (p, h, m, e, n, same, best) ↦
              let kept =
                Memᴰ-keep_if (λ (x : Plugin Value). x.enabled) plugins
                  (sort_by-Memᴰ specificity_order
                    (keep_if (λ (x : Plugin Value). x.enabled) plugins) m) in
              (
                (
                  p,
                  h,
                  (kept.0, kept.1, e),
                  same,
                  λ q g applies named.
                      specificity_order-specificity q p
                        (best q g (candidate q applies.0 applies.1) applies.2 (named ∙ n)),
                ),
                ap (λ (t : ResolvedPlugin Handler Value). t.config.name) same ∙ n,
              )
          | inr (old, unnamed) ↦ cc old
        ]

  -- The plugins that are chosen are in the order of their handlers' priorities. Each is an enabled
  -- plugin that matches the request and has a handler, such that no other of its name is more
  -- specific, where a consumer counts for more than a route and a service together, and a route for
  -- more than a service; and each name of such a plugin has one that is chosen.
  pub resolve_plugins-AreMostSpecific :
      IsOrdered (priority_order priority Value) chosen
      × ((r : ResolvedPlugin Handler Value) → Memᴰ r chosen → IsMostSpecific r)
      × ((q : Plugin Value) (g : Handler)
          → Applies q g
          → (r : ResolvedPlugin Handler Value) × Memᴰ r chosen × (r.config.name ≡ q.name))
  unfolding resolve_plugins
  resolve_plugins-AreMostSpecific = (
    sort_by-IsOrdered (priority_order priority Value) (priority_order-IsTotalOrder priority Value)
        values,
    λ r m.
        let entry =
          map-Memᴰ (λ (e : Text × ResolvedPlugin Handler Value). e.1) entries
            (sort_by-Memᴰ (priority_order priority Value) values m) in
        (entry-IsMostSpecific entry.0.0 r (found_at entry.0 r entry.1.0 entry.1.1)).0,
    λ q g applies.
        let found =
          all_of-found priority Value registry route_id service_id consumer_id
            (candidates priority Value registry route_id service_id consumer_id plugins) [] q g
            (candidate q applies.0 applies.1) applies.2 in
        (
          found.0,
          Memᴰ-sort_by (priority_order priority Value) values (
              Memᴰ-map (λ (e : Text × ResolvedPlugin Handler Value). e.1) entries
                (lookup-Memᴰ q.name found.0 entries found.1)),
          (entry-IsMostSpecific q.name found.0 found.1).1,
        ),
  )
    where
      values : List (ResolvedPlugin Handler Value)
      values = map (λ (e : Text × ResolvedPlugin Handler Value). e.1) entries

      found_at :
          (e : Text × ResolvedPlugin Handler Value) (r : ResolvedPlugin Handler Value)
          → Memᴰ e entries
          → r ≡ e.1
          → lookup e.0 entries ≡ some r
      found_at e r m same =
          entry-lookup e.0 e.1 entries
            (resolve_all-IsKeyed priority Value registry route_id service_id consumer_id
              (candidates priority Value registry route_id service_id consumer_id plugins) [] tt)
            m
          ∙ ap some (sym same)
