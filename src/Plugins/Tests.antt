-- ===== src/Plugins/Tests.antt =====
-- Runs of the choice of plugins of crates/kong-plugin-system/src/lib.rs.
use mathlib.Core.List.{Memᴰ}
use kong_rust.Common.{ℕ, ◌≡◌, refl, Bool, true, false, Option, none, some, List, [], ◌∷◌, map}
use kong_rust.Common.Sort.{sort_by, IsOrdered}
use kong_rust.Common.Assoc.{lookup, insert}
use kong_rust.Common.Text.{Text, codes}
use kong_rust.Plugins.{Plugin, ResolvedPlugin, register, priority_order, resolve_plugins}
use kong_rust.Plugins.Chosen.{Applies, IsMostSpecific, resolve_plugins-AreMostSpecific}

-- A handler is its priority.
abbrev itself : ℕ → ℕ
itself h = h

abbrev handlers : List (Text × ℕ)
handlers = register (codes "cors") 2000 (register (codes "acl") 950 [])

abbrev plugin_of : ℕ → Text → Option ℕ → Option ℕ → Option ℕ → Bool → Plugin ℕ
plugin_of id name route service consumer enabled = record {
  id = id;
  name = name;
  route = route;
  service = service;
  consumer = consumer;
  config = id;
  enabled = enabled;
}

abbrev configured : List (Plugin ℕ)
configured =
    plugin_of 1 (codes "acl") (some 7) none none true
    ∷ plugin_of 2 (codes "acl") none none none true
    ∷ plugin_of 3 (codes "cors") none none none true
    ∷ plugin_of 4 (codes "acl") (some 7) (some 8) none false
    ∷ plugin_of 5 (codes "acl") (some 6) (some 8) none true
    ∷ plugin_of 6 (codes "jwt") none none none true
    ∷ []

abbrev ids_of : List (ResolvedPlugin ℕ ℕ) → List ℕ
ids_of = map (λ (r : ResolvedPlugin ℕ ℕ). r.plugin_id)

abbrev run : List (Plugin ℕ) → List (ResolvedPlugin ℕ ℕ)
run plugins = resolve_plugins itself ℕ handlers (some 7) (some 8) (some 9) plugins

route_over_global : ids_of (run configured) ≡ 3 ∷ 1 ∷ []
unfolding resolve_plugins sort_by lookup insert
route_over_global = refl

-- A consumer weighs more than a route and a service together.
consumer_over_pair :
    ids_of (
      run (
        plugin_of 1 (codes "acl") none none (some 9) true
        ∷ plugin_of 2 (codes "acl") (some 7) (some 8) none true
        ∷ []))
    ≡ 1 ∷ []
unfolding resolve_plugins sort_by lookup insert
consumer_over_pair = refl

resolve_plugins-AreMostSpecific_example :
    IsOrdered (priority_order itself ℕ) (run configured)
    × ((r : ResolvedPlugin ℕ ℕ)
        → Memᴰ r (run configured)
        → IsMostSpecific itself ℕ handlers (some 7) (some 8) (some 9) configured r)
    × ((q : Plugin ℕ) (g : ℕ)
        → Applies itself ℕ handlers (some 7) (some 8) (some 9) configured q g
        → (r : ResolvedPlugin ℕ ℕ) × Memᴰ r (run configured) × (r.config.name ≡ q.name))
resolve_plugins-AreMostSpecific_example =
    resolve_plugins-AreMostSpecific itself ℕ handlers (some 7) (some 8) (some 9) configured
