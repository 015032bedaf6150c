-- ===== src/Router/Stream/Cuts.antt =====
-- How texts are cut in crates/kong-router/src/stream.rs: at the first of a character, and after a prefix.
use mathlib.Core.Option
use mathlib.Core.Path.{subst}
use kong_rust.Common.{
  ℕ, ◌≡◌, ◌∙◌, ◌↔◌, inl, inr, refl, ap, ap₂, false, Option, none, some, [], ◌∷◌, ◌++◌, nat_beq,
  nat_beq_iff, Bool-cases, Option-cases, some_inj,
}
use kong_rust.Common.Text.{Text, has_char, strip_prefix}
use kong_rust.Router.Stream.{after_dot, split_once}

-- A text cut at its first `c`.
abbrev pub IsCut : ℕ → Text → Text → Text → Type 0
IsCut c s before after = (s ≡ before ++ (c ∷ after)) × (has_char c before ≡ false)

pub split_once-IsCut :
    (c : ℕ) (s : Text) (p : Text × Text) → split_once c s ≡ some p → IsCut c s p.0 p.1
split_once-IsCut c [] p h = cc
split_once-IsCut c (d ∷ s) p h = elim (Bool-cases (nat_beq d c)) [
  | inl e ↦
      subst (λ q. IsCut c (d ∷ s) q.0 q.1) (some_inj (rw e at h))
        (ap (λ x. x ∷ s) ((nat_beq_iff d c).0 e), refl)
  | inr e ↦ elim (Option-cases (split_once c s)) [
    | inl f ↦ cc (rw (e, f) at h)
    | inr (q, f) ↦
        let rest = split_once-IsCut c s q f in
        subst (λ q. IsCut c (d ∷ s) q.0 q.1) (some_inj (rw (e, f) at h))
          (ap (◌∷◌ d) rest.0, rw e rest.1)
  ]
]

pub IsCut-split_once :
    (c : ℕ) (a b : Text) → has_char c a ≡ false → split_once c (a ++ (c ∷ b)) ≡ some (a, b)
IsCut-split_once c [] b h = rw ((nat_beq_iff c c).1 refl) refl
IsCut-split_once c (d ∷ a) b h = elim (Bool-cases (nat_beq d c)) [
  | inl e ↦ cc (rw e at h)
  | inr e ↦ rw (e, IsCut-split_once c a b (rw e at h)) refl
]

pub split_once-none : (c : ℕ) (s : Text) → (split_once c s ≡ none) ↔ (has_char c s ≡ false)
split_once-none c [] = (λ h. refl, λ h. refl)
split_once-none c (d ∷ s) = elim (Bool-cases (nat_beq d c)) [
  | inl e ↦ rw e (λ h. cc, λ h. cc)
  | inr e ↦ elim (Option-cases (split_once c s)) [
    | inl f ↦ rw (e, f) (λ h. (split_once-none c s).0 f, λ h. refl)
    | inr (q, f) ↦ rw (e, f) (λ h. cc, λ h. cc (f, (split_once-none c s).1 h))
  ]
]

pub after_dot-split_once :
    (s : Text) → after_dot s ≡ Option.map {A = Text × Text} (λ p. p.1) (split_once b'.' s)
after_dot-split_once [] = refl
after_dot-split_once (d ∷ s) = elim (Bool-cases (nat_beq d b'.')) [
  | inl e ↦ rw e refl
  | inr e ↦ rw e (after_dot-split_once s ∙ dropped (split_once b'.' s))
]
  where
    dropped :
        (o : Option (Text × Text))
        → Option.map {A = Text × Text} (λ p. p.1) o
          ≡ Option.map {A = Text × Text}
              (λ p. p.1)
              (Option.map {B = Text × Text} (λ (p : Text × Text). (d ∷ p.0, p.1)) o)
    dropped none = refl
    dropped (some p) = refl

pub strip_prefix-append : (p s : Text) → strip_prefix p (p ++ s) ≡ some s
strip_prefix-append [] s = refl
strip_prefix-append (c ∷ p) s = rw ((nat_beq_iff c c).1 refl) (strip_prefix-append p s)

pub append-strip_prefix : (p s t : Text) → strip_prefix p s ≡ some t → s ≡ p ++ t
append-strip_prefix [] s t h = some_inj h
append-strip_prefix (c ∷ p) [] t h = cc
append-strip_prefix (c ∷ p) (d ∷ s) t h = elim (Bool-cases (nat_beq d c)) [
  | inl e ↦ ap₂ ◌∷◌ ((nat_beq_iff d c).0 e) (append-strip_prefix p s t (rw e at h))
  | inr e ↦ cc (rw e at h)
]
