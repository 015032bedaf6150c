-- ===== src/Router/Expressions/Parsed.antt =====
-- The parser of crates/kong-router/src/expressions.rs comes to an end, and what it never returns.
use mathlib.Core.Path.{subst}
use mathlib.Core.Option
use kong_rust.Common.{
  ℕ, zero, suc, ◌<◌, ◌≡◌, ◌≢◌, refl, ap, ap₂, ◌⊎◌, true, false, ◌&&◌, ◌||◌, Option, none, some,
  List, [], ◌∷◌, ◌++◌, length, inl, inr, if◌then◌else◌, nat_beq, nat_beq_iff, is_empty,
  Option-cases, Bool-cases, some_inj, arith,
}
use kong_rust.Common.Text.{Text, codes, strip_prefix, starts_with, same_text}
use kong_rust.Sse.{trim}
use kong_rust.Router.Types.{Engine}
use kong_rust.Router.Expressions.{
  Outcome, ok, err, out_of_fuel, ◌>>=◌, Field, CompiledExpression, http_header, and_of, or_of,
  eq_to, ne_to, matches_regex, in_list, not_in_list, always, strip_quotes, quoted_by, split_at,
  split_commas, parse_values, parse_field, parse_sides, parse_list, compile_regex,
  is_other_operator, parse_membership, parse_match, parse_comparison, find_operator, ends_with_char,
  without_ends, parse_within, parse_expression,
}
use kong_rust.Router.Expressions.Within.{
  Within, Within-bind, Within-if, IsShorter, find_operator-IsShorter, trim-length,
  without_ends-length,
}

-- An expression without `not in`.
abbrev pub HasNoNotIn : {Regex : Type 0} → CompiledExpression Regex → Type 0
HasNoNotIn (and_of a b) = HasNoNotIn a × HasNoNotIn b
HasNoNotIn (or_of a b) = HasNoNotIn a × HasNoNotIn b
HasNoNotIn (eq_to field value) = Unit
HasNoNotIn (ne_to field value) = Unit
HasNoNotIn (matches_regex field regex) = Unit
HasNoNotIn (in_list field values) = Unit
HasNoNotIn (not_in_list field values) = ⊥
HasNoNotIn always = Unit

abbrev Any {ℓ} : {A : Type ℓ} → A → Type 0
Any a = Unit

strip_prefix-text : (t s rest : Text) → strip_prefix t s ≡ some rest → s ≡ t ++ rest
strip_prefix-text [] s rest h = some_inj h
strip_prefix-text (d ∷ t) [] rest h = cc
strip_prefix-text (d ∷ t) (c ∷ s) rest h = elim (Bool-cases (nat_beq c d)) [
  | inl g ↦ ap₂ (λ x y. x ∷ y) ((nat_beq_iff c d).0 g) (strip_prefix-text t s rest (rw g at h))
  | inr g ↦ cc (rw g at h)
]

-- The cases in which an operator is not found.
split_at-none :
    (op : Text) (c : ℕ) (s : Text)
    → split_at op (c ∷ s) ≡ none
    → (strip_prefix op (c ∷ s) ≡ none) × (split_at op s ≡ none)
split_at-none op c s h = go (strip_prefix op (c ∷ s)) (split_at op s) refl refl h
  where
    go :
        (o : Option Text) (p : Option (Text × Text))
        → strip_prefix op (c ∷ s) ≡ o
        → split_at op s ≡ p
        → (elim o as (λ x. Option (Text × Text)) [
          | some rest ↦ some ([], rest)
          | none ↦ Option.map {B = Text × Text} (λ (p : Text × Text). (c ∷ p.0, p.1)) p
        ])
          ≡ none
        → (strip_prefix op (c ∷ s) ≡ none) × (split_at op s ≡ none)
    go none none e f k = (e, f)
    go none (some p) e f k = cc k
    go (some rest) p e f k = cc k

-- Where there is no ` in `, there is no ` not in `.
no_not_in : (s : Text) → split_at (codes " in ") s ≡ none → split_at (codes " not in ") s ≡ none
no_not_in [] h = refl
no_not_in (c ∷ s) h =
    step (Option-cases (strip_prefix (codes " not in ") (c ∷ s)))
      (no_not_in s (split_at-none (codes " in ") c s h).1)
  where
    found :
        (rest : Text)
        → split_at (codes " in ") (codes " not in " ++ rest) ≡ some (codes " not", rest)
    found rest = refl

    step :
        (strip_prefix (codes " not in ") (c ∷ s) ≡ none)
          ⊎ ((rest : Text) × (strip_prefix (codes " not in ") (c ∷ s) ≡ some rest))
        → split_at (codes " not in ") s ≡ none
        → split_at (codes " not in ") (c ∷ s) ≡ none
    step (inl e) k = rw (split_at, e, k) refl
    step (inr (rest, e)) k = cc (
      h,
      ap (split_at (codes " in ")) (strip_prefix-text (codes " not in ") (c ∷ s) rest e),
      found rest,
    )

strip_quotes-Any : (t : Text) → Within Any (strip_quotes t)
strip_quotes-Any t =
    Within-if Any (quoted_by b'"' (trim t) || quoted_by b'\'' (trim t)) _ _
      (Within-if Any (nat_beq (length (trim t)) 1) _ _ tt tt) tt

parse_values-Any : (ts : List Text) → Within Any (parse_values ts)
parse_values-Any [] = tt
parse_values-Any (t ∷ ts) =
    Within-bind Any Any (strip_quotes (trim t)) _ (strip_quotes-Any (trim t))
      (λ v _. Within-bind Any Any (parse_values ts) _ (parse_values-Any ts) (λ vs _. tt))

module _ (engine : Engine) where
  parse_field-Any : (t : Text) → Within Any (parse_field engine t)
  parse_field-Any t = Within-if Any (same_text (trim t) (codes "http.method")) _ _ tt (
      Within-if Any (same_text (trim t) (codes "http.host")) _ _ tt (
        Within-if Any (same_text (trim t) (codes "http.path")) _ _ tt (
          Within-if Any (same_text (trim t) (codes "net.protocol")) _ _ tt (
            Within-if Any (same_text (trim t) (codes "tls.sni")) _ _ tt
              (header (strip_prefix (codes "http.headers.") (trim t)))))))
    where
      header :
          (o : Option Text)
          → Within Any (elim o as (λ x. Outcome Field) [
            | some name ↦ ok (http_header (engine.to_lowercase name))
            | none ↦ err
          ])
      header none = tt
      header (some name) = tt

  parse_sides-Any : (sides : Text × Text) → Within Any (parse_sides engine sides)
  parse_sides-Any (before, rest) =
      Within-bind Any Any (parse_field engine (trim before)) _ (parse_field-Any (trim before))
        (λ f _.
          Within-bind Any Any (strip_quotes (trim rest)) _ (strip_quotes-Any (trim rest))
            (λ v _. tt))

  parse_list-Any : (sides : Text × Text) → Within Any (parse_list engine sides)
  parse_list-Any (before, rest) =
      Within-bind Any Any (parse_field engine (trim before)) _ (parse_field-Any (trim before))
        (λ f _.
          Within-bind Any Any (parse_values (split_commas (trim rest))) _
            (parse_values-Any (split_commas (trim rest))) (λ v _. tt))

  compile_regex-Any : (t : Text) → Within Any (compile_regex engine t)
  compile_regex-Any t = go (engine.compile t)
    where
      go :
          (o : Option engine.Regex)
          → Within Any (elim o as (λ x. Outcome engine.Regex) [ none ↦ err | some r ↦ ok r ])
      go none = tt
      go (some r) = tt

  parse_membership-HasNoNotIn : (s : Text) → Within HasNoNotIn (parse_membership engine s)
  parse_membership-HasNoNotIn s = go (split_at (codes " in ") s) refl
    where
      go :
          (o : Option (Text × Text))
          → split_at (codes " in ") s ≡ o
          → Within HasNoNotIn (elim o as (λ x. Outcome (CompiledExpression engine.Regex)) [
            | some sides ↦ parse_list engine sides >>= λ p. ok (in_list p.0 p.1)
            | none ↦ elim (split_at (codes " not in ") s) [
              | some sides ↦ parse_list engine sides >>= λ p. ok (not_in_list p.0 p.1)
              | none ↦ err
            ]
          ])
      go (some sides) e =
          Within-bind Any HasNoNotIn (parse_list engine sides) _ (parse_list-Any sides) (λ p _. tt)
      go none e = rw (no_not_in s e) tt

  parse_match-HasNoNotIn : (s : Text) → Within HasNoNotIn (parse_match engine s)
  parse_match-HasNoNotIn s = go (split_at (codes "~") s)
    where
      go :
          (o : Option (Text × Text))
          → Within HasNoNotIn (elim o as (λ x. Outcome (CompiledExpression engine.Regex)) [
            | none ↦ parse_membership engine s
            | some sides ↦
                if is_other_operator sides
                then parse_membership engine s
                else (parse_sides engine sides >>= λ p.
                    compile_regex engine p.1 >>= λ r. ok (matches_regex p.0 r))
          ])
      go none = parse_membership-HasNoNotIn s
      go (some sides) =
          Within-if HasNoNotIn (is_other_operator sides) _ _ (parse_membership-HasNoNotIn s) (
            Within-bind Any HasNoNotIn (parse_sides engine sides) _ (parse_sides-Any sides) (λ p _.
              Within-bind Any HasNoNotIn (compile_regex engine p.1) _ (compile_regex-Any p.1)
                (λ r _. tt)))

  parse_comparison-HasNoNotIn : (text : Text) → Within HasNoNotIn (parse_comparison engine text)
  parse_comparison-HasNoNotIn text = equal (split_at (codes "==") (trim text))
    where
      sided :
          (make : Field → Text → CompiledExpression engine.Regex)
          → ((f : Field) (v : Text) → HasNoNotIn (make f v))
          → (sides : Text × Text)
          → Within HasNoNotIn (parse_sides engine sides >>= λ p. ok (make p.0 p.1))
      sided make h sides =
          Within-bind Any HasNoNotIn (parse_sides engine sides) _ (parse_sides-Any sides)
            (λ p _. h p.0 p.1)

      unequal :
          (o : Option (Text × Text))
          → Within HasNoNotIn (elim o as (λ x. Outcome (CompiledExpression engine.Regex)) [
            | some sides ↦ parse_sides engine sides >>= λ p. ok (ne_to p.0 p.1)
            | none ↦ parse_match engine (trim text)
          ])
      unequal (some sides) = sided ne_to (λ f v. tt) sides
      unequal none = parse_match-HasNoNotIn (trim text)

      equal :
          (o : Option (Text × Text))
          → Within HasNoNotIn (elim o as (λ x. Outcome (CompiledExpression engine.Regex)) [
            | some sides ↦ parse_sides engine sides >>= λ p. ok (eq_to p.0 p.1)
            | none ↦ elim (split_at (codes "!=") (trim text)) [
              | some sides ↦ parse_sides engine sides >>= λ p. ok (ne_to p.0 p.1)
              | none ↦ parse_match engine (trim text)
            ]
          ])
      equal (some sides) = sided eq_to (λ f v. tt) sides
      equal none = unequal (split_at (codes "!=") (trim text))

  -- Two parts that are parsed and put together.
  both :
      (make : CompiledExpression engine.Regex
        → CompiledExpression engine.Regex
        → CompiledExpression engine.Regex)
      → ((a b : CompiledExpression engine.Regex)
          → HasNoNotIn a
          → HasNoNotIn b
          → HasNoNotIn (make a b))
      → (x y : Outcome (CompiledExpression engine.Regex)) → Within HasNoNotIn x
      → Within HasNoNotIn y
      → Within HasNoNotIn (x >>= λ l. y >>= λ r. ok (make l r))
  both make h x y p q =
      Within-bind HasNoNotIn HasNoNotIn x _ p
        (λ l i. Within-bind HasNoNotIn HasNoNotIn y _ q (λ r j. h l r i j))

  parse_within-HasNoNotIn :
      (fuel : ℕ) (text : Text)
      → length text < fuel
      → Within HasNoNotIn (parse_within engine fuel text)
  parse_within-HasNoNotIn zero text h = absurd (omega (arith, h))
  parse_within-HasNoNotIn (suc fuel) text h =
      go (Bool-cases (is_empty (trim text)))
        (λ t l. parse_within-HasNoNotIn fuel t (omega (arith, l, h, trim-length text)))
    where
      Further : Type 0
      Further =
          (t : Text)
          → length t < length (trim text)
          → Within HasNoNotIn (parse_within engine fuel t)

      inner :
          is_empty (trim text) ≡ false
          → Further
          → Within HasNoNotIn (
              if starts_with (trim text) (codes "(") && ends_with_char b')' (trim text)
              then parse_within engine fuel (without_ends (trim text))
              else parse_comparison engine (trim text))
      inner e further =
          Within-if HasNoNotIn
            (starts_with (trim text) (codes "(") && ends_with_char b')' (trim text)) _ _
            (further (without_ends (trim text)) (without_ends-length (trim text) e))
            (parse_comparison-HasNoNotIn (trim text))

      split :
          (make : CompiledExpression engine.Regex
            → CompiledExpression engine.Regex
            → CompiledExpression engine.Regex)
          → ((a b : CompiledExpression engine.Regex)
              → HasNoNotIn a
              → HasNoNotIn b
              → HasNoNotIn (make a b))
          → Further
          → (rest : Outcome (CompiledExpression engine.Regex)) → Within HasNoNotIn rest
          → (o : Option (Text × Text)) → IsShorter (length (trim text)) o
          → Within HasNoNotIn (elim o as (λ x. Outcome (CompiledExpression engine.Regex)) [
            | some (before, after) ↦ parse_within engine fuel before >>= λ l.
                parse_within engine fuel after >>= λ r. ok (make l r)
            | none ↦ rest
          ])
      split make m further rest w none k = w
      split make m further rest w (some (before, after)) k =
          both make m (parse_within engine fuel before) (parse_within engine fuel after)
            (further before (omega (arith, k))) (further after (omega (arith, k)))

      go :
          (is_empty (trim text) ≡ true) ⊎ (is_empty (trim text) ≡ false)
          → Further
          → Within HasNoNotIn (parse_within engine (suc fuel) text)
      go (inl e) further = rw (parse_within, e) tt
      go (inr e) further =
          rw (parse_within, e)
            (Within-bind (IsShorter (length (trim text))) HasNoNotIn
              (find_operator (trim text) (codes "||")) _
              (find_operator-IsShorter (trim text) (codes "||") (omega arith))
              (λ o k.
                split or_of (λ a b i j. (i, j)) further _
                  (Within-bind (IsShorter (length (trim text))) HasNoNotIn
                    (find_operator (trim text) (codes "&&")) _
                    (find_operator-IsShorter (trim text) (codes "&&") (omega arith))
                    (λ o k. split and_of (λ a b i j. (i, j)) further _ (inner e further) o k))
                  o k))

  -- The parser of expressions comes to an end on every text.
  pub parse_expression-out_of_fuel : (text : Text) → parse_expression engine text ≢ out_of_fuel
  unfolding parse_expression
  parse_expression-out_of_fuel text e =
      subst (Within HasNoNotIn) e (parse_within-HasNoNotIn (suc (length text)) text (omega arith))

  -- No text is parsed to an expression with `not in`: the operator ` in `, which is looked for first, is
  -- a part of it.
  pub parse_expression-HasNoNotIn :
      (text : Text) (e : CompiledExpression engine.Regex)
      → parse_expression engine text ≡ ok e
      → HasNoNotIn e
  unfolding parse_expression
  parse_expression-HasNoNotIn text e h =
      subst (Within HasNoNotIn) h (parse_within-HasNoNotIn (suc (length text)) text (omega arith))
