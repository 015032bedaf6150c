-- ===== src/Plugins.antt =====
-- The plugins of a request, of crates/kong-plugin-system/src/lib.rs: the registry of handlers and
-- which of the configured plugins run.
--
-- A handler is of a type with its priority; JSON is of a type `Value`. Of a plugin the fields that
-- `resolve_plugins` does not read are left out.
use Prim.Native.Nat.{Ordering, compare}
use mathlib.Core.Option
use kong_rust.Common.{
  ℕ, ◌+◌, ◌%◌, Bool, true, false, Option, none, some, List, [], ◌∷◌, map, keep_if, nat_beq,
  if◌then◌else◌,
}
use kong_rust.Common.Assoc.{lookup, insert}
use kong_rust.Common.Compare.{then_by}
use kong_rust.Common.Sort.{sort_by}
use kong_rust.Common.Text.{Text, text_keyed}
pub mod Resolved
pub mod Chosen
mod Tests

pub record Plugin (Value : Type 0) : Type 0 where
  pub id : ℕ
  pub name : Text
  pub route : Option ℕ
  pub service : Option ℕ
  pub consumer : Option ℕ
  pub config : Value
  pub enabled : Bool

pub record PluginConfig (Value : Type 0) : Type 0 where
  pub name : Text
  pub config : Value

pub record ResolvedPlugin (Handler Value : Type 0) : Type 0 where
  pub handler : Handler
  pub config : PluginConfig Value
  pub plugin_id : ℕ
  pub route_id : Option ℕ
  pub service_id : Option ℕ
  pub consumer_id : Option ℕ

-- The test on one association: without one it passes, with one the request must have the same.
abbrev pub associated : Option ℕ → Option ℕ → Bool
associated none id = true
associated (some fk) none = false
associated (some fk) (some id) = nat_beq id fk

abbrev pub as_u8 : Option ℕ → ℕ
as_u8 none = 0
as_u8 (some id) = 1

module _ {Value : Type 0} where
  abbrev pub plugin_matches : Plugin Value → Option ℕ → Option ℕ → Option ℕ → Bool
  plugin_matches plugin route_id service_id consumer_id =
      if associated plugin.route route_id
      then if associated plugin.service service_id
        then associated plugin.consumer consumer_id
        else false
      else false

  -- The order of the sort keys: consumer, then route, then service.
  abbrev pub specificity_order : Plugin Value → Plugin Value → Ordering
  specificity_order a b = then_by (compare (as_u8 a.consumer) (as_u8 b.consumer)) (
      then_by (compare (as_u8 a.route) (as_u8 b.route))
        (compare (as_u8 a.service) (as_u8 b.service)))

abbrev pub register {ℓ} :
    {Handler : Type ℓ} → Text → Handler → List (Text × Handler) → List (Text × Handler)
register name handler handlers = insert name handler handlers

abbrev pub resolve_with :
    {Handler Value : Type 0} → Handler → Plugin Value → ResolvedPlugin Handler Value
resolve_with handler plugin = record {
  handler = handler;
  config = record { name = plugin.name; config = plugin.config };
  plugin_id = plugin.id;
  route_id = plugin.route;
  service_id = plugin.service;
  consumer_id = plugin.consumer;
}

abbrev pub insert_for :
    {Handler Value : Type 0}
    → Plugin Value
    → List (Text × ResolvedPlugin Handler Value)
    → Option Handler
    → List (Text × ResolvedPlugin Handler Value)
insert_for plugin resolved none = resolved
insert_for plugin resolved (some handler) =
    insert plugin.name (resolve_with handler plugin) resolved

-- An `i32` is its bit pattern; shifted by 2 ^ 31 the patterns are in the order of the numbers.
abbrev pub signed32 : ℕ → ℕ
signed32 x = (x + 2147483648) % 4294967296

module _ {Handler : Type 0} (priority : Handler → ℕ) (Value : Type 0) where
  abbrev pub priority_order : ResolvedPlugin Handler Value → ResolvedPlugin Handler Value → Ordering
  priority_order a b = compare (signed32 (priority b.handler)) (signed32 (priority a.handler))

  module _ (registry : List (Text × Handler)) (route_id service_id consumer_id : Option ℕ) where
    -- The handler of a plugin that matches; the two `continue`s are `none`.
    abbrev pub handler_for : Plugin Value → Option Handler
    handler_for plugin =
        if plugin_matches plugin route_id service_id consumer_id
        then lookup plugin.name registry
        else none

    -- One turn of the loop.
    abbrev pub resolve_one :
        Plugin Value
        → List (Text × ResolvedPlugin Handler Value)
        → List (Text × ResolvedPlugin Handler Value)
    resolve_one plugin resolved = insert_for plugin resolved (handler_for plugin)

    abbrev pub resolve_all :
        List (Plugin Value)
        → List (Text × ResolvedPlugin Handler Value)
        → List (Text × ResolvedPlugin Handler Value)
    resolve_all [] resolved = resolved
    resolve_all (plugin ∷ plugins) resolved = resolve_all plugins (resolve_one plugin resolved)

    abbrev pub candidates : List (Plugin Value) → List (Plugin Value)
    candidates plugins = sort_by specificity_order (keep_if (λ p. p.enabled) plugins)

    unfoldable pub resolve_plugins : List (Plugin Value) → List (ResolvedPlugin Handler Value)
    resolve_plugins plugins =
        sort_by priority_order (map (λ entry. entry.1) (resolve_all (candidates plugins) []))
