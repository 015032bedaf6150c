-- ===== src/Common/Keys.antt =====
-- Association lists in which no key stands twice.
use mathlib.Core.Path.{◌≡◌, ◌∙◌, refl, sym, ap, ap₂}
use mathlib.Core.Logic.{inl, inr}
use mathlib.Core.List.{List, [], ◌∷◌, Memᴰ}
use mathlib.Core.List.Memᴰ
use mathlib.Core.Option.{none, some}
use kong_rust.Common.Tests.{Keyed, ◌==◌, ==-refl, Bool-cases, some_inj}
use kong_rust.Common.Assoc.{lookup, insert, lookup-insert}

module _ {ℓ κ} {K : Type ℓ} {V : Type κ} ⦃keyed : Keyed K⦄ where
  abbrev pub IsKeyed : List (K × V) → Type κ
  IsKeyed [] = Unit
  IsKeyed ((key, value) ∷ rest) = (lookup key rest ≡ none) × IsKeyed rest

  pub insert-IsKeyed :
      (key : K) (value : V) (entries : List (K × V))
      → IsKeyed entries
      → IsKeyed (insert key value entries)
  unfolding lookup insert
  insert-IsKeyed key value [] s = (refl, tt)
  insert-IsKeyed key value ((found, old) ∷ rest) s = elim (Bool-cases (found == key)) [
    | inl h ↦ rw h (ap (λ k. lookup k rest) (sym ((keyed.same_iff found key).0 h)) ∙ s.0, s.1)
    | inr h ↦ rw h (
      lookup-insert found key value rest ∙ elim (Bool-cases (key == found)) [
        | inl g ↦ cc (h, ==-refl found, (keyed.same_iff key found).0 g)
        | inr g ↦ rw g s.0
      ],
      insert-IsKeyed key value rest s.1,
    )
  ]

  -- An entry is what the map returns for its key.
  pub entry-lookup :
      (key : K) (value : V) (entries : List (K × V))
      → IsKeyed entries
      → Memᴰ (key, value) entries
      → lookup key entries ≡ some value
  unfolding lookup
  entry-lookup key value [] s m = absurd (Memᴰ.not-nil m)
  entry-lookup key value ((found, old) ∷ rest) s m = elim (Memᴰ.cases_cons m) [
    | inl e ↦ here (ap (λ p. p.0) e) (ap (λ p. p.1) e)
    | inr t ↦ elim (Bool-cases (found == key)) [
      | inr h ↦ rw h (entry-lookup key value rest s.1 t)
      | inl h ↦ cc (
        s.0,
        entry-lookup key value rest s.1 t,
        ap (λ k. lookup k rest) ((keyed.same_iff found key).0 h),
      )
    ]
  ]
    where
      here : key ≡ found → value ≡ old → lookup key ((found, old) ∷ rest) ≡ some value
      here e f = simp (e, f, ==-refl found) refl

  pub lookup-Memᴰ :
      (key : K) (value : V) (entries : List (K × V))
      → lookup key entries ≡ some value
      → Memᴰ (key, value) entries
  unfolding lookup
  lookup-Memᴰ key value [] h = cc
  lookup-Memᴰ key value ((found, old) ∷ rest) h = elim (Bool-cases (found == key)) [
    | inl g ↦
        Memᴰ.head
          (ap₂ (λ k v. (k, v)) (sym ((keyed.same_iff found key).0 g)) (sym (some_inj (rw g at h))))
    | inr g ↦ Memᴰ.tail (lookup-Memᴰ key value rest (rw g at h))
  ]
