-- ===== src/Common/Sort.antt =====
-- The stable sort of `sort_by`, as an insertion sort: what it promises is its result, not its way.
use Prim.Native.Nat.{Ordering, lt, eq, gt}
use mathlib.Core.Path.{◌≡◌, refl}
use mathlib.Core.Logic.{◌≢◌, ◌⊎◌, inl, inr}
use mathlib.Core.Bool.{Bool, true, false}
use mathlib.Core.List.{List, [], ◌∷◌, Memᴰ, Perm}
use mathlib.Core.List.Memᴰ
use mathlib.Core.List.Perm
use kong_rust.Common.Tests.{if◌then◌else◌, Bool-cases}
use kong_rust.Common.Lists.{keep_if}
use kong_rust.Common.Members.{Memᴰ-keep_if}
use kong_rust.Common.Compare.{IsTotalOrder, le_trans, le_total}

abbrev pub is_gt : Ordering → Bool
is_gt gt = true
is_gt eq = false
is_gt lt = false

is_gt-true : (o : Ordering) → is_gt o ≡ true → o ≡ gt
is_gt-true gt h = refl
is_gt-true eq h = cc
is_gt-true lt h = cc

is_gt-false : (o : Ordering) → is_gt o ≡ false → o ≢ gt
is_gt-false gt h e = cc
is_gt-false eq h e = cc
is_gt-false lt h e = cc

module _ {ℓ} {A : Type ℓ} (cmp : A → A → Ordering) where
  abbrev pub sort_in : A → List A → List A
  sort_in x [] = x ∷ []
  sort_in x (y ∷ ys) = let rest = sort_in x ys in if is_gt (cmp x y) then y ∷ rest else x ∷ y ∷ ys

  unfoldable pub sort_by : List A → List A
  sort_by [] = []
  sort_by (x ∷ xs) = sort_in x (sort_by xs)

  -- No element comes after one that follows it in the list.
  abbrev pub IsOrdered : List A → Type ℓ
  IsOrdered [] = Unit
  IsOrdered (x ∷ xs) = ((y : A) → Memᴰ y xs → cmp x y ≢ gt) × IsOrdered xs

  pub sort_in-perm : (x : A) (xs : List A) → Perm (sort_in x xs) (x ∷ xs)
  sort_in-perm x [] = Perm.refl (x ∷ [])
  sort_in-perm x (y ∷ ys) = elim (Bool-cases (is_gt (cmp x y))) [
    | inl h ↦ rw h (Perm.trans (Perm.cons y (sort_in-perm x ys)) (Perm.swap x y ys))
    | inr h ↦ rw h (Perm.refl (x ∷ y ∷ ys))
  ]

  -- The sort keeps the elements, each as often as it is there.
  pub sort_by-perm : (xs : List A) → Perm (sort_by xs) xs
  unfolding sort_by
  sort_by-perm [] = Perm.refl []
  sort_by-perm (x ∷ xs) = Perm.trans (sort_in-perm x (sort_by xs)) (Perm.cons x (sort_by-perm xs))

  sort_in-Memᴰ : (x : A) (xs : List A) {y : A} → Memᴰ y (sort_in x xs) → (y ≡ x) ⊎ Memᴰ y xs
  sort_in-Memᴰ x [] m = Memᴰ.cases_cons m
  sort_in-Memᴰ x (z ∷ zs) m = elim (Bool-cases (is_gt (cmp x z))) [
    | inr h ↦ Memᴰ.cases_cons (rw h at m)
    | inl h ↦ elim (Memᴰ.cases_cons (rw h at m)) [
      | inl e ↦ inr (Memᴰ.head e)
      | inr k ↦ elim (sort_in-Memᴰ x zs k) [ inl e ↦ inl e | inr t ↦ inr (Memᴰ.tail t) ]
    ]
  ]

  Memᴰ-sort_in : (x : A) (xs : List A) {y : A} → (y ≡ x) ⊎ Memᴰ y xs → Memᴰ y (sort_in x xs)
  Memᴰ-sort_in x [] (inl e) = Memᴰ.head e
  Memᴰ-sort_in x [] (inr m) = absurd (Memᴰ.not-nil m)
  Memᴰ-sort_in x (z ∷ zs) m = elim (Bool-cases (is_gt (cmp x z))) [
    | inr h ↦ rw h (elim m [ inl e ↦ Memᴰ.head e | inr k ↦ Memᴰ.tail k ])
    | inl h ↦ rw h (elim m [
      | inl e ↦ Memᴰ.tail (Memᴰ-sort_in x zs (inl e))
      | inr k ↦ elim (Memᴰ.cases_cons k) [
        | inl e ↦ Memᴰ.head e
        | inr t ↦ Memᴰ.tail (Memᴰ-sort_in x zs (inr t))
      ]
    ])
  ]

  pub sort_by-Memᴰ : (xs : List A) {y : A} → Memᴰ y (sort_by xs) → Memᴰ y xs
  unfolding sort_by
  sort_by-Memᴰ [] m = m
  sort_by-Memᴰ (x ∷ xs) m = elim (sort_in-Memᴰ x (sort_by xs) m) [
    | inl e ↦ Memᴰ.head e
    | inr k ↦ Memᴰ.tail (sort_by-Memᴰ xs k)
  ]

  pub Memᴰ-sort_by : (xs : List A) {y : A} → Memᴰ y xs → Memᴰ y (sort_by xs)
  unfolding sort_by
  Memᴰ-sort_by [] m = m
  Memᴰ-sort_by (x ∷ xs) m = elim (Memᴰ.cases_cons m) [
    | inl e ↦ Memᴰ-sort_in x (sort_by xs) (inl e)
    | inr k ↦ Memᴰ-sort_in x (sort_by xs) (inr (Memᴰ-sort_by xs k))
  ]

  module _ (o : IsTotalOrder cmp) where
    sort_in-IsOrdered : (x : A) (xs : List A) → IsOrdered xs → IsOrdered (sort_in x xs)
    sort_in-IsOrdered x [] s = (λ y m. absurd (Memᴰ.not-nil m), tt)
    sort_in-IsOrdered x (y ∷ ys) s = elim (Bool-cases (is_gt (cmp x y))) [
      | inl h ↦ rw h (
        (λ z m. elim (sort_in-Memᴰ x ys m) [
          | inl e ↦ rw e (le_total o x y (is_gt-true (cmp x y) h))
          | inr k ↦ s.0 z k
        ]),
        sort_in-IsOrdered x ys s.1,
      )
      | inr h ↦ rw h (
        (λ z m. elim (Memᴰ.cases_cons m) [
          | inl e ↦ rw e (is_gt-false (cmp x y) h)
          | inr k ↦ le_trans o x y z (is_gt-false (cmp x y) h) (s.0 z k)
        ]),
        s,
      )
    ]

    -- The sort orders its list, if the comparison is a total order.
    pub sort_by-IsOrdered : (xs : List A) → IsOrdered (sort_by xs)
    unfolding sort_by
    sort_by-IsOrdered [] = tt
    sort_by-IsOrdered (x ∷ xs) = sort_in-IsOrdered x (sort_by xs) (sort_by-IsOrdered xs)

  pub IsOrdered-keep_if : (p : A → Bool) (xs : List A) → IsOrdered xs → IsOrdered (keep_if p xs)
  IsOrdered-keep_if p [] s = tt
  IsOrdered-keep_if p (x ∷ xs) s = elim (Bool-cases (p x)) [
    | inl h ↦ rw h ((λ y m. s.0 y (Memᴰ-keep_if p xs m).0), IsOrdered-keep_if p xs s.1)
    | inr h ↦ rw h (IsOrdered-keep_if p xs s.1)
  ]
