-- ===== src/Plugins/Resolved.antt =====
-- The loop of `resolve_plugins` of crates/kong-plugin-system/src/lib.rs.
use Prim.Native.Nat.{gt}
use mathlib.Core.List.{Memᴰ}
use mathlib.Core.List.Memᴰ
use kong_rust.Common.{
  ℕ, ◌≡◌, ◌≢◌, ◌∙◌, refl, sym, ap, Option, none, some, List, [], ◌∷◌, ◌⊎◌, inl, inr, ◌==◌,
  Bool-cases, some_inj,
}
use kong_rust.Common.Assoc.{lookup, lookup-insert, lookup-insert_same}
use kong_rust.Common.Compare.{
  IsTotalOrder, compare-IsTotalOrder, then_by-IsTotalOrder, turned-IsTotalOrder, le_refl,
}
use kong_rust.Common.Keys.{IsKeyed, insert-IsKeyed}
use kong_rust.Common.Sort.{IsOrdered}
use kong_rust.Common.Text.{Text, text_keyed}
use kong_rust.Plugins.{
  Plugin, ResolvedPlugin, as_u8, specificity_order, resolve_with, priority_order, signed32,
  handler_for, insert_for, resolve_one, resolve_all,
}

pub specificity_order-IsTotalOrder :
    {Value : Type 0} → IsTotalOrder (specificity_order {Value = Value})
specificity_order-IsTotalOrder {Value} =
    then_by-IsTotalOrder (compare-IsTotalOrder (λ (p : Plugin Value). as_u8 p.consumer)) (
      then_by-IsTotalOrder (compare-IsTotalOrder (λ (p : Plugin Value). as_u8 p.route))
        (compare-IsTotalOrder (λ (p : Plugin Value). as_u8 p.service)))

module _ {Handler : Type 0} (priority : Handler → ℕ) (Value : Type 0) where
  abbrev Resolution : Type 0
  Resolution = ResolvedPlugin Handler Value

  pub priority_order-IsTotalOrder : IsTotalOrder (priority_order priority Value)
  priority_order-IsTotalOrder =
      turned-IsTotalOrder (compare-IsTotalOrder (λ (r : Resolution). signed32 (priority r.handler)))

  module _ (registry : List (Text × Handler)) (route_id service_id consumer_id : Option ℕ) where
    abbrev handler_of : Plugin Value → Option Handler
    handler_of = handler_for priority Value registry route_id service_id consumer_id

    abbrev one : Plugin Value → List (Text × Resolution) → List (Text × Resolution)
    one = resolve_one priority Value registry route_id service_id consumer_id

    abbrev all_of : List (Plugin Value) → List (Text × Resolution) → List (Text × Resolution)
    all_of = resolve_all priority Value registry route_id service_id consumer_id

    -- No plugin of the list has the name, matches the request and has a handler.
    abbrev Unnamed : Text → List (Plugin Value) → Type 0
    Unnamed name plugins =
        (q : Plugin Value) (h : Handler) → Memᴰ q plugins → handler_of q ≡ some h → q.name ≢ name

    -- The resolution is that of a plugin of the list that has the name, and that matches the request
    -- with a handler; no other such plugin is more specific.
    abbrev pub IsMostSpecific : Text → List (Plugin Value) → Resolution → Type 0
    IsMostSpecific name plugins resolved =
        (p : Plugin Value) × (h : Handler) × Memᴰ p plugins
        × (handler_of p ≡ some h)
        × (p.name ≡ name)
        × (resolved ≡ resolve_with h p)
        × ((q : Plugin Value) (g : Handler)
            → Memᴰ q plugins
            → handler_of q ≡ some g
            → q.name ≡ name
            → specificity_order q p ≢ gt)

    resolve_one-IsKeyed :
        (p : Plugin Value) (entries : List (Text × Resolution))
        → IsKeyed entries
        → IsKeyed (one p entries)
    resolve_one-IsKeyed p entries s = go (handler_of p)
      where
        go : (o : Option Handler) → IsKeyed (insert_for p entries o)
        go none = s
        go (some h) = insert-IsKeyed p.name (resolve_with h p) entries s

    pub resolve_all-IsKeyed :
        (ps : List (Plugin Value)) (entries : List (Text × Resolution))
        → IsKeyed entries
        → IsKeyed (all_of ps entries)
    resolve_all-IsKeyed [] entries s = s
    resolve_all-IsKeyed (p ∷ ps) entries s =
        resolve_all-IsKeyed ps (one p entries) (resolve_one-IsKeyed p entries s)

    -- What a turn finds for a name: the plugin of that turn, or what was there.
    resolve_one-lookup :
        (p : Plugin Value) (entries : List (Text × Resolution)) (name : Text) (r : Resolution)
        → lookup name (one p entries) ≡ some r
        → ((h : Handler) × (handler_of p ≡ some h) × (p.name ≡ name) × (r ≡ resolve_with h p))
          ⊎ ((lookup name entries ≡ some r)
              × ((h : Handler) → handler_of p ≡ some h → p.name ≢ name))
    resolve_one-lookup p entries name r found = go (handler_of p) refl found
      where
        go :
            (o : Option Handler)
            → handler_of p ≡ o
            → lookup name (insert_for p entries o) ≡ some r
            → ((h : Handler) × (handler_of p ≡ some h) × (p.name ≡ name) × (r ≡ resolve_with h p))
              ⊎ ((lookup name entries ≡ some r)
                  × ((h : Handler) → handler_of p ≡ some h → p.name ≢ name))
        go none e f = inr (f, λ h g. cc (e, g))
        go (some h) e f = elim (Bool-cases (p.name == name)) [
          | inl n ↦ inl (
            h,
            e,
            (text_keyed.same_iff p.name name).0 n,
            sym (some_inj (rw (lookup-insert, n) at f)),
          )
          | inr n ↦ inr (
            rw (lookup-insert, n) at f,
            λ g k same. cc (n, (text_keyed.same_iff p.name name).1 same),
          )
        ]

    pub all_of-lookup :
        (ps : List (Plugin Value)) (entries : List (Text × Resolution)) (name : Text)
        (r : Resolution)
        → IsOrdered specificity_order ps
        → lookup name (all_of ps entries) ≡ some r
        → IsMostSpecific name ps r ⊎ ((lookup name entries ≡ some r) × Unnamed name ps)
    all_of-lookup [] entries name r s f = inr (f, λ q h m. absurd (Memᴰ.not-nil m))
    all_of-lookup (p ∷ ps) entries name r s f =
        elim (all_of-lookup ps (one p entries) name r s.1 f) [
          | inl (p', h, m, e, n, same, best) ↦ inl (
            p',
            h,
            Memᴰ.tail m,
            e,
            n,
            same,
            λ q g k d same. elim (Memᴰ.cases_cons k) [
              | inl i ↦ rw i (s.0 p' m)
              | inr t ↦ best q g t d same
            ],
          )
          | inr (found, unnamed) ↦ elim (resolve_one-lookup p entries name r found) [
            | inl (h, e, n, same) ↦ inl (
              p,
              h,
              Memᴰ.head refl,
              e,
              n,
              same,
              λ q g k d named. elim (Memᴰ.cases_cons k) [
                | inl i ↦ rw i (le_refl specificity_order-IsTotalOrder p)
                | inr t ↦ absurd (unnamed q g t d named)
              ],
            )
            | inr (old, other) ↦ inr (
              old,
              λ q g k d named. elim (Memᴰ.cases_cons k) [
                | inl i ↦
                    other g (sym (ap handler_of i) ∙ d)
                      (sym (ap (λ (x : Plugin Value). x.name) i) ∙ named)
                | inr t ↦ unnamed q g t d named
              ],
            )
          ]
        ]

    one-kept :
        (p : Plugin Value) (entries : List (Text × Resolution)) (name : Text)
        → ((r : Resolution) × (lookup name entries ≡ some r))
        → (r : Resolution) × (lookup name (one p entries) ≡ some r)
    one-kept p entries name (r, found) = go (handler_of p)
      where
        go :
            (o : Option Handler)
            → (t : Resolution) × (lookup name (insert_for p entries o) ≡ some t)
        go none = (r, found)
        go (some h) = elim (Bool-cases (p.name == name)) [
          | inl n ↦ (resolve_with h p, rw (lookup-insert, n) refl)
          | inr n ↦ (r, rw (lookup-insert, n) found)
        ]

    all_of-kept :
        (ps : List (Plugin Value)) (entries : List (Text × Resolution)) (name : Text)
        → ((r : Resolution) × (lookup name entries ≡ some r))
        → (r : Resolution) × (lookup name (all_of ps entries) ≡ some r)
    all_of-kept [] entries name f = f
    all_of-kept (p ∷ ps) entries name f =
        all_of-kept ps (one p entries) name (one-kept p entries name f)

    -- The name of a plugin that matches and has a handler is found.
    pub all_of-found :
        (ps : List (Plugin Value)) (entries : List (Text × Resolution)) (q : Plugin Value)
        (h : Handler)
        → Memᴰ q ps
        → handler_of q ≡ some h
        → (r : Resolution) × (lookup q.name (all_of ps entries) ≡ some r)
    all_of-found [] entries q h m e = absurd (Memᴰ.not-nil m)
    all_of-found (p ∷ ps) entries q h m e = elim (Memᴰ.cases_cons m) [
      | inr t ↦ all_of-found ps (one p entries) q h t e
      | inl i ↦ all_of-kept ps (one p entries) q.name (
        resolve_with h q,
        ap (λ x. lookup q.name (one x entries)) (sym i)
            ∙ ap (λ o. lookup q.name (insert_for q entries o)) e
            ∙ lookup-insert_same q.name (resolve_with h q) entries,
      )
    ]
