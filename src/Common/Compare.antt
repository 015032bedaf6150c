-- ===== src/Common/Compare.antt =====
-- `Ordering` and the comparison functions that are given to `sort_by`.
use Prim.Native.Nat.{ℕ, Ordering, lt, eq, gt, compare, ◌≤◌, ◌<◌}
use mathlib.Core.Path.{◌≡◌, ◌∙◌, refl, sym, ap}
use mathlib.Core.Logic.{◌≢◌, ◌⊎◌, inl, inr}
use native.Mathlib.Omega.{arith}

-- `Ordering::reverse` and `Ordering::then`.
abbrev pub reverse : Ordering → Ordering
reverse lt = gt
reverse eq = eq
reverse gt = lt

abbrev pub then_by : Ordering → Ordering → Ordering
then_by lt o = lt
then_by eq o = o
then_by gt o = gt

-- A comparison function that orders its type totally, up to ties: what `sort_by` asks for.
pub record IsTotalOrder {ℓ} {A : Type ℓ} (cmp : A → A → Ordering) : Type ℓ where
  pub mirrored : (a b : A) → cmp b a ≡ reverse (cmp a b)
  pub ties : (a b c : A) → cmp a b ≡ eq → cmp a c ≡ cmp b c
  pub chained : (a b c : A) → cmp a b ≡ lt → cmp b c ≡ lt → cmp a c ≡ lt

reverse-reverse : (o : Ordering) → reverse (reverse o) ≡ o
reverse-reverse lt = refl
reverse-reverse eq = refl
reverse-reverse gt = refl

reverse-then_by : (o p : Ordering) → reverse (then_by o p) ≡ then_by (reverse o) (reverse p)
reverse-then_by lt p = refl
reverse-then_by eq p = refl
reverse-then_by gt p = refl

lt_not_gt : lt ≢ gt
lt_not_gt h = cc

first_tie : (x y : Ordering) → then_by x y ≡ eq → x ≡ eq
first_tie lt y h = h
first_tie eq y h = refl
first_tie gt y h = h

second_tie : (x y : Ordering) → then_by x y ≡ eq → y ≡ eq
second_tie lt y h = cc
second_tie eq y h = h
second_tie gt y h = cc

pub compare-IsTotalOrder {ℓ} :
    {A : Type ℓ} (key : A → ℕ) → IsTotalOrder (λ a b. compare (key a) (key b))
compare-IsTotalOrder key = record {
  mirrored = λ a b. mirrored_at (key a) (key b);
  ties = λ a b c h. ties_at (key a) (key b) (key c) h;
  chained = λ a b c h k. chained_at (key a) (key b) (key c) h k;
}
  where
    mirrored_at : (a b : ℕ) → compare b a ≡ reverse (compare a b)
    mirrored_at a b = ground arith

    ties_at : (a b c : ℕ) → compare a b ≡ eq → compare a c ≡ compare b c
    ties_at a b c h = ground arith

    chained_at : (a b c : ℕ) → compare a b ≡ lt → compare b c ≡ lt → compare a c ≡ lt
    chained_at a b c h k = ground arith

-- What is not greater is less or equal, and in the second case the further comparison decides.
pub then_by-not_gt :
    (m n : ℕ) (o : Ordering) → then_by (compare m n) o ≢ gt → (m < n) ⊎ ((m ≡ n) × (o ≢ gt))
then_by-not_gt m n o h = go (compare m n) refl h
  where
    go : (x : Ordering) → compare m n ≡ x → then_by x o ≢ gt → (m < n) ⊎ ((m ≡ n) × (o ≢ gt))
    go lt e k = inl (ground arith)
    go eq e k = inr (ground arith, k)
    go gt e k = absurd (k refl)

pub compare-not_gt : (m n : ℕ) → compare m n ≢ gt → m ≤ n
compare-not_gt m n h = go (compare m n) refl
  where
    go : (x : Ordering) → compare m n ≡ x → m ≤ n
    go lt e = ground arith
    go eq e = ground arith
    go gt e = absurd (h e)

module _ {ℓ} {A : Type ℓ} {cmp : A → A → Ordering} (o : IsTotalOrder cmp) where
  pub turned-IsTotalOrder : IsTotalOrder (λ a b. cmp b a)
  turned-IsTotalOrder = record {
    mirrored = λ a b. o.mirrored b a;
    ties = λ a b c h.
        o.mirrored a c
        ∙ ap reverse (o.ties a b c (o.mirrored b a ∙ ap reverse h))
        ∙ sym (o.mirrored b c);
    chained = λ a b c h k. o.chained c b a k h;
  }

  below_tie : (a b c : A) → cmp a b ≡ lt → cmp b c ≡ eq → cmp a c ≡ lt
  below_tie a b c h k =
      o.mirrored c a ∙ ap reverse (sym (o.ties b c a k) ∙ o.mirrored a b ∙ ap reverse h)

  -- A chain of "at most".
  pub le_trans : (a b c : A) → cmp a b ≢ gt → cmp b c ≢ gt → cmp a c ≢ gt
  le_trans a b c h k e = go (cmp a b) (cmp b c) refl refl
    where
      go : (x y : Ordering) → cmp a b ≡ x → cmp b c ≡ y → ⊥
      go gt y p q = h p
      go eq y p q = k (sym (o.ties a b c p) ∙ e)
      go lt gt p q = k q
      go lt lt p q = lt_not_gt (sym (o.chained a b c p q) ∙ e)
      go lt eq p q = lt_not_gt (
          sym (ap reverse e)
          ∙ sym (o.mirrored a c)
          ∙ sym (o.ties b c a q)
          ∙ o.mirrored a b
          ∙ ap reverse p)

  pub le_total : (a b : A) → cmp a b ≡ gt → cmp b a ≢ gt
  le_total a b h e = lt_not_gt (sym (sym e ∙ o.mirrored a b ∙ ap reverse h))

  pub le_refl : (a : A) → cmp a a ≢ gt
  le_refl a h = lt_not_gt (sym (sym h ∙ o.mirrored a a ∙ ap reverse h))

module _ {ℓ} {A : Type ℓ} {c₁ c₂ : A → A → Ordering} (o : IsTotalOrder c₁)
    (q : IsTotalOrder c₂) where
  -- One comparison, and where it ties another.
  pub then_by-IsTotalOrder : IsTotalOrder (λ a b. then_by (c₁ a b) (c₂ a b))
  then_by-IsTotalOrder = record {
    mirrored = λ a b.
        ap (λ x. then_by x (c₂ b a)) (o.mirrored a b)
        ∙ ap (then_by (reverse (c₁ a b))) (q.mirrored a b)
        ∙ sym (reverse-then_by (c₁ a b) (c₂ a b));
    ties = λ a b c h.
        ap (λ x. then_by x (c₂ a c)) (o.ties a b c (first_tie (c₁ a b) (c₂ a b) h))
        ∙ ap (then_by (c₁ b c)) (q.ties a b c (second_tie (c₁ a b) (c₂ a b) h));
    chained = λ a b c h k. chained_by a b c (c₁ a b) (c₁ b c) refl refl h k;
  }
    where
      by_second :
          (a b c : A) (y : Ordering)
          → c₁ b c ≡ y
          → c₂ a b ≡ lt
          → then_by y (c₂ b c) ≡ lt
          → then_by (c₁ b c) (c₂ a c) ≡ lt
      by_second a b c lt r h k = ap (λ z. then_by z (c₂ a c)) r
      by_second a b c eq r h k = ap (λ z. then_by z (c₂ a c)) r ∙ q.chained a b c h k
      by_second a b c gt r h k = absurd (lt_not_gt (sym k))

      chained_by :
          (a b c : A) (x y : Ordering)
          → c₁ a b ≡ x
          → c₁ b c ≡ y
          → then_by (c₁ a b) (c₂ a b) ≡ lt
          → then_by (c₁ b c) (c₂ b c) ≡ lt
          → then_by (c₁ a c) (c₂ a c) ≡ lt
      chained_by a b c gt y p r h k = absurd (lt_not_gt (sym h ∙ ap (λ z. then_by z (c₂ a b)) p))
      chained_by a b c eq y p r h k =
          ap (λ z. then_by z (c₂ a c)) (o.ties a b c p)
          ∙ by_second a b c y r (sym (ap (λ z. then_by z (c₂ a b)) p) ∙ h)
              (sym (ap (λ z. then_by z (c₂ b c)) r) ∙ k)
      chained_by a b c lt gt p r h k = absurd (lt_not_gt (sym k ∙ ap (λ z. then_by z (c₂ b c)) r))
      chained_by a b c lt lt p r h k = ap (λ z. then_by z (c₂ a c)) (o.chained a b c p r)
      chained_by a b c lt eq p r h k = ap (λ z. then_by z (c₂ a c)) (below_tie o a b c p r)
