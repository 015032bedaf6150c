-- ===== src/Common/First.antt =====
-- What `find` finds, in any list and in an ordered one.
use Prim.Native.Nat.{Ordering, gt}
use mathlib.Core.Path.{◌≡◌, ◌∙◌, sym, ap}
use mathlib.Core.Logic.{◌≢◌, ◌⊎◌, inl, inr}
use mathlib.Core.Bool.{Bool, true, false}
use mathlib.Core.List.{List, [], ◌∷◌, Memᴰ}
use mathlib.Core.List.Memᴰ
use mathlib.Core.Option.{none, some}
use kong_rust.Common.Tests.{Bool-cases, Option-cases, some_inj}
use kong_rust.Common.Lists.{find}
use kong_rust.Common.Sort.{IsOrdered, sort_by, sort_by-Memᴰ, Memᴰ-sort_by, sort_by-IsOrdered}
use kong_rust.Common.Compare.{IsTotalOrder, le_refl}

module _ {ℓ} {A : Type ℓ} (p : A → Bool) where
  pub find-none : (xs : List A) → find p xs ≡ none → (y : A) → Memᴰ y xs → p y ≡ false
  find-none [] h y m = absurd (Memᴰ.not-nil m)
  find-none (x ∷ xs) h y m = elim (Bool-cases (p x)) [
    | inl g ↦ absurd (not_none (rw g at h))
    | inr g ↦ elim (Memᴰ.cases_cons m) [ inl e ↦ ap p e ∙ g | inr t ↦ find-none xs (rw g at h) y t ]
  ]
    where
      not_none : some x ≢ none
      not_none e = cc

  pub find_matches : (xs : List A) (x : A) → find p xs ≡ some x → p x ≡ true
  find_matches [] x h = cc
  find_matches (z ∷ zs) x h = elim (Bool-cases (p z)) [
    | inl g ↦ ap p (sym (some_inj (rw g at h))) ∙ g
    | inr g ↦ find_matches zs x (rw g at h)
  ]

  pub find-Memᴰ : (xs : List A) (x : A) → find p xs ≡ some x → Memᴰ x xs
  find-Memᴰ [] x h = cc
  find-Memᴰ (z ∷ zs) x h = elim (Bool-cases (p z)) [
    | inl g ↦ Memᴰ.head (sym (some_inj (rw g at h)))
    | inr g ↦ Memᴰ.tail (find-Memᴰ zs x (rw g at h))
  ]

  -- In an ordered list the first match comes before every other.
  pub find_first :
      (cmp : A → A → Ordering)
      → ((a : A) → cmp a a ≢ gt)
      → (xs : List A) (x : A) → IsOrdered cmp xs
      → find p xs ≡ some x
      → (y : A) → Memᴰ y xs
      → p y ≡ true
      → cmp x y ≢ gt
  find_first cmp reflexive [] x s h y m q = cc
  find_first cmp reflexive (z ∷ zs) x s h y m q = elim (Bool-cases (p z)) [
    | inl g ↦ elim (Memᴰ.cases_cons m) [
      | inl e ↦ rw (e, sym (some_inj (rw g at h))) (reflexive z)
      | inr t ↦ rw (sym (some_inj (rw g at h))) (s.0 y t)
    ]
    | inr g ↦ elim (Memᴰ.cases_cons m) [
      | inl e ↦ cc (ap p e, q, g)
      | inr t ↦ find_first cmp reflexive zs x s.1 (rw g at h) y t q
    ]
  ]

-- The first match in a sorted list, said of the list before the sort.
pub record IsFirst {ℓ} {A : Type ℓ} (cmp : A → A → Ordering) (p : A → Bool) (xs : List A) (x : A)
    : Type ℓ where
  pub listed : Memᴰ x xs
  pub matched : p x ≡ true
  pub best : (y : A) → Memᴰ y xs → p y ≡ true → cmp x y ≢ gt

pub find-IsFirst {ℓ} :
    {A : Type ℓ} {cmp : A → A → Ordering} (o : IsTotalOrder cmp) (p : A → Bool) (xs : List A)
    → ((x : A) × ((find p (sort_by cmp xs) ≡ some x) × IsFirst cmp p xs x))
      ⊎ ((find p (sort_by cmp xs) ≡ none) × ((y : A) → Memᴰ y xs → p y ≡ false))
find-IsFirst {cmp = cmp} o p xs = elim (Option-cases (find p (sort_by cmp xs))) [
  | inl h ↦ inr (h, λ y m. find-none p (sort_by cmp xs) h y (Memᴰ-sort_by cmp xs m))
  | inr (x, h) ↦ inl (
    x,
    (
      h,
      record {
        listed = sort_by-Memᴰ cmp xs (find-Memᴰ p (sort_by cmp xs) x h);
        matched = find_matches p (sort_by cmp xs) x h;
        best = λ y m q.
            find_first p cmp (le_refl o) (sort_by cmp xs) x (sort_by-IsOrdered cmp o xs) h y
              (Memᴰ-sort_by cmp xs m) q;
      },
    ),
  )
]
