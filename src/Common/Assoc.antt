-- ===== src/Common/Assoc.antt =====
-- A `HashMap` as an association list: `get`, `insert`, and `get_mut` followed by a write.
use mathlib.Core.Path.{◌≡◌, ◌∙◌, refl}
use mathlib.Core.List.{List, [], ◌∷◌}
use mathlib.Core.Option
use mathlib.Core.Option.{Option, none, some}
use native.Mathlib.Omega.{arith}
use kong_rust.Common.Tests.{if◌then◌else◌, Keyed, ◌==◌, ==-refl}

module _ {ℓ κ} {K : Type ℓ} {V : Type κ} ⦃keyed : Keyed K⦄ where
  -- `map.get(key)`.
  unfoldable pub lookup : K → List (K × V) → Option V
  lookup key [] = none
  lookup key ((found, value) ∷ rest) =
      let further = lookup key rest in if found == key then some value else further

  -- `map.insert(key, value)`, which replaces a value that is there.
  unfoldable pub insert : K → V → List (K × V) → List (K × V)
  insert key value [] = (key, value) ∷ []
  insert key value ((found, old) ∷ rest) =
      let further = insert key value rest in
      if found == key then (key, value) ∷ rest else (found, old) ∷ further

  -- `if let Some(v) = map.get_mut(key) { *v = change(v) }`.
  unfoldable pub adjust : K → (V → V) → List (K × V) → List (K × V)
  adjust key change [] = []
  adjust key change ((found, value) ∷ rest) =
      let further = adjust key change rest in
      if found == key then (found, change value) ∷ rest else (found, value) ∷ further

  pub lookup-insert :
      (asked key : K) (value : V) (entries : List (K × V))
      → lookup asked (insert key value entries)
        ≡ (if key == asked then some value else lookup asked entries)
  unfolding lookup insert
  lookup-insert asked key value [] = refl
  lookup-insert asked key value ((found, old) ∷ rest) = ground (
    arith,
    keyed.same_iff found asked,
    keyed.same_iff found key,
    keyed.same_iff key asked,
    lookup-insert asked key value rest,
  )

  pub lookup-adjust :
      (asked key : K) (change : V → V) (entries : List (K × V))
      → lookup asked (adjust key change entries)
        ≡ (if key == asked then Option.map change (lookup asked entries) else lookup asked entries)
  unfolding lookup adjust
  lookup-adjust asked key change [] = ground arith
  lookup-adjust asked key change ((found, value) ∷ rest) = ground (
    arith,
    keyed.same_iff found asked,
    keyed.same_iff found key,
    keyed.same_iff key asked,
    lookup-adjust asked key change rest,
  )

  pub lookup-insert_same :
      (key : K) (value : V) (entries : List (K × V))
      → lookup key (insert key value entries) ≡ some value
  lookup-insert_same key value entries =
      lookup-insert key key value entries ∙ simp (==-refl key) refl
