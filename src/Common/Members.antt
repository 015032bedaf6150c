-- ===== src/Common/Members.antt =====
-- Membership in lists, filtered lists and indexed lists.
use Prim.Native.Nat.{ℕ, zero, suc, ◌<◌}
use mathlib.Core.List.{List, [], ◌∷◌, Memᴰ, map}
use mathlib.Core.List.Memᴰ
use mathlib.Core.Path.{◌≡◌, refl, ap}
use mathlib.Core.Logic.{inl, inr, ◌↔◌}
use mathlib.Core.Bool.{Bool, true, false}
use mathlib.Core.Option.{some}
use native.Mathlib.Omega.{arith}
use kong_rust.Common.Tests.{Bool-cases}
use kong_rust.Common.Lists.{length, get_elem?, is_empty, keep_if, any}

pub get_elem?-lt {ℓ} :
    {A : Type ℓ} (xs : List A) (i : ℕ) → i < length xs → (a : A) × (get_elem? xs i ≡ some a)
get_elem?-lt [] i h = elim h [ ]
get_elem?-lt (x ∷ xs) zero h = (x, refl)
get_elem?-lt (x ∷ xs) (suc i) h = get_elem?-lt xs i (omega arith)

pub not_in_empty {ℓ} : {A : Type ℓ} (xs : List A) {a : A} → is_empty xs ≡ true → Memᴰ a xs → ⊥
not_in_empty [] h m = Memᴰ.not-nil m
not_in_empty (x ∷ xs) h m = cc

pub nonempty_of_mem {ℓ} : {A : Type ℓ} (xs : List A) {a : A} → Memᴰ a xs → is_empty xs ≡ false
nonempty_of_mem [] m = absurd (Memᴰ.not-nil m)
nonempty_of_mem (x ∷ xs) m = refl

pub length_pos {ℓ} : {A : Type ℓ} (xs : List A) → is_empty xs ≡ false → 0 < length xs
length_pos [] h = cc
length_pos (x ∷ xs) h = omega arith

pub Memᴰ-map {ℓ κ} :
    {A : Type ℓ} {B : Type κ} (f : A → B) (xs : List A) {x : A} → Memᴰ x xs → Memᴰ (f x) (map f xs)
Memᴰ-map f [] m = absurd (Memᴰ.not-nil m)
Memᴰ-map f (y ∷ ys) m = elim (Memᴰ.cases_cons m) [
  | inl e ↦ Memᴰ.head (ap f e)
  | inr t ↦ Memᴰ.tail (Memᴰ-map f ys t)
]

pub map-Memᴰ {ℓ κ} :
    {A : Type ℓ} {B : Type κ} (f : A → B) (xs : List A) {y : B}
    → Memᴰ y (map f xs)
    → (x : A) × (Memᴰ x xs × (y ≡ f x))
map-Memᴰ f [] m = absurd (Memᴰ.not-nil m)
map-Memᴰ f (x ∷ xs) m = elim (Memᴰ.cases_cons m) [
  | inl e ↦ (x, (Memᴰ.head refl, e))
  | inr t ↦ let found = map-Memᴰ f xs t in (found.0, (Memᴰ.tail found.1.0, found.1.1))
]

pub any-true {ℓ} :
    {A : Type ℓ} (p : A → Bool) (xs : List A)
    → (any p xs ≡ true) ↔ ((x : A) × (Memᴰ x xs × (p x ≡ true)))
any-true p [] = (λ h. cc, λ (x, m). absurd (Memᴰ.not-nil m.0))
any-true p (x ∷ xs) = elim (Bool-cases (p x)) [
  | inl h ↦ (λ g. (x, (Memᴰ.head refl, h)), λ g. rw h refl)
  | inr h ↦ (
    λ g. let (y, found) = (any-true p xs).0 (rw h at g) in (y, (Memᴰ.tail found.0, found.1)),
    λ (y, found). elim (Memᴰ.cases_cons found.0) [
      | inl e ↦ cc (h, ap p e, found.1)
      | inr t ↦ rw h ((any-true p xs).1 (y, (t, found.1)))
    ],
  )
]

pub empty_of_none {ℓ} :
    {A : Type ℓ} (p : A → Bool) (xs : List A)
    → ((a : A) → Memᴰ a xs → p a ≡ false)
    → is_empty (keep_if p xs) ≡ true
empty_of_none p [] h = refl
empty_of_none p (x ∷ xs) h =
    rw (h x (Memᴰ.head refl)) (empty_of_none p xs (λ a m. h a (Memᴰ.tail m)))

module _ {ℓ} {A : Type ℓ} where
  pub Memᴰ-keep_if :
      (p : A → Bool) (xs : List A) {a : A} → Memᴰ a (keep_if p xs) → Memᴰ a xs × (p a ≡ true)
  Memᴰ-keep_if p [] m = absurd (Memᴰ.not-nil m)
  Memᴰ-keep_if p (x ∷ xs) {a} m = elim (Bool-cases (p x)) [
    | inl t ↦ elim (Memᴰ.cases_cons (rw t at m)) [
      | inl e ↦ (Memᴰ.head e, rw e t)
      | inr m' ↦ let ih = Memᴰ-keep_if p xs m' in (Memᴰ.tail ih.0, ih.1)
    ]
    | inr t ↦ let ih = Memᴰ-keep_if p xs (rw t at m) in (Memᴰ.tail ih.0, ih.1)
  ]

  pub keep_if-Memᴰ :
      (p : A → Bool) (xs : List A) {a : A} → Memᴰ a xs → p a ≡ true → Memᴰ a (keep_if p xs)
  keep_if-Memᴰ p [] m h = absurd (Memᴰ.not-nil m)
  keep_if-Memᴰ p (x ∷ xs) (Memᴰ.head e) h = rw (← e, h) (Memᴰ.head refl)
  keep_if-Memᴰ p (x ∷ xs) (Memᴰ.tail m) h = elim (Bool-cases (p x)) [
    | inl t ↦ rw t (Memᴰ.tail (keep_if-Memᴰ p xs m h))
    | inr t ↦ rw t (keep_if-Memᴰ p xs m h)
  ]

  pub Memᴰ-get_elem? : (xs : List A) (i : ℕ) {a : A} → get_elem? xs i ≡ some a → Memᴰ a xs
  Memᴰ-get_elem? [] i e = cc
  Memᴰ-get_elem? (x ∷ xs) zero e = Memᴰ.head (ground arith)
  Memᴰ-get_elem? (x ∷ xs) (suc i) e = Memᴰ.tail (Memᴰ-get_elem? xs i e)
