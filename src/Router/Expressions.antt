-- ===== src/Router/Expressions.antt =====
-- The router of expressions, crates/kong-router/src/expressions.rs.
--
-- The depth of `find_operator` is kept as the parentheses opened and closed before; the code counts
-- their difference in an `i32`, which a text of less than 2 ^ 31 characters does not overflow.
use Prim.Native.Nat.{Ordering, compare}
use mathlib.Core.Option
use kong_rust.Common.{
  ℕ, zero, suc, Bool, true, false, not, ◌&&◌, ◌||◌, Option, none, some, List, [], ◌∷◌, ◌++◌, map,
  length, is_empty, any, contains, if◌then◌else◌, nat_beq, leb,
}
use kong_rust.Common.Assoc.{lookup, insert}
use kong_rust.Common.Sort.{sort_by}
use kong_rust.Common.Text.{
  Text, codes, text_keyed, same_text, starts_with, strip_prefix, before_char,
}
use kong_rust.Router.Types.{PathHandling, Route, UriCaptures, RequestContext, RouteMatch, Engine}
use kong_rust.Router.Process.{protocol_text}
use kong_rust.Router.Matching.{no_captures}
use kong_rust.Router.Order.{signed64}
use kong_rust.Router.Table.{is_http_protocol}
use kong_rust.Sse.{trim, push_char}
pub mod Routes
pub mod Within
pub mod Parsed
pub mod Best
mod Tests

-- A result, an error, a panic, or the end of the fuel.
pub data Outcome {ℓ} (A : Type ℓ) : Type ℓ where
  ok : (value : A) → Outcome A
  err panicked out_of_fuel : Outcome A

infixl 5 ◌>>=◌
abbrev pub ◌>>=◌ {ℓ κ} : {A : Type ℓ} {B : Type κ} → Outcome A → (A → Outcome B) → Outcome B
ok a >>= f = f a
err >>= f = err
panicked >>= f = panicked
out_of_fuel >>= f = out_of_fuel

pub data Field : Type 0 where
  http_method http_host http_path : Field
  http_header : (name : Text) → Field
  net_protocol tls_sni : Field

pub data CompiledExpression (Regex : Type 0) : Type 0 where
  and_of or_of : (left right : CompiledExpression Regex) → CompiledExpression Regex
  eq_to ne_to : (field : Field) (value : Text) → CompiledExpression Regex
  matches_regex : (field : Field) (regex : Regex) → CompiledExpression Regex
  in_list not_in_list : (field : Field) (values : List Text) → CompiledExpression Regex
  always : CompiledExpression Regex

abbrev pub get_field_value : Field → RequestContext → Option Text
get_field_value http_method ctx = some ctx.method
get_field_value http_host ctx = some ctx.host
get_field_value http_path ctx = some ctx.uri
get_field_value (http_header name) ctx = lookup name ctx.headers
get_field_value net_protocol ctx = some ctx.scheme
get_field_value tls_sni ctx = ctx.sni

abbrev pub is_value : Text → Option Text → Bool
is_value value none = false
is_value value (some v) = same_text v value

abbrev pub is_among : List Text → Option Text → Bool
is_among values none = false
is_among values (some v) = contains values v

-- The last character of a text.
abbrev pub last_char : Text → Option ℕ
last_char [] = none
last_char (c ∷ []) = some c
last_char (c ∷ d ∷ s) = last_char (d ∷ s)

abbrev pub ends_with_char : ℕ → Text → Bool
ends_with_char c t = elim (last_char t) [ none ↦ false | some d ↦ nat_beq d c ]

-- `&s[1..s.len() - 1]` of a text of two characters or more.
abbrev pub without_last : Text → Text
without_last [] = []
without_last (c ∷ []) = []
without_last (c ∷ d ∷ s) = c ∷ without_last (d ∷ s)

abbrev pub without_ends : Text → Text
without_ends [] = []
without_ends (c ∷ s) = without_last s

abbrev pub quoted_by : ℕ → Text → Bool
quoted_by q s = starts_with s (q ∷ []) && ends_with_char q s

-- A single quotation mark is both ends at once, and the range `1..0` is a panic.
abbrev pub strip_quotes : Text → Outcome Text
strip_quotes s =
    let t = trim s in
    if quoted_by b'"' t || quoted_by b'\'' t
    then if nat_beq (length t) 1 then panicked else ok (without_ends t)
    else ok t

-- `find(op)`: what stands before the first `op`, and what stands after it.
abbrev pub split_at : Text → Text → Option (Text × Text)
split_at op [] = none
split_at op (c ∷ s) =
    let further = split_at op s in
    elim (strip_prefix op (c ∷ s)) [
      | some rest ↦ some ([], rest)
      | none ↦ Option.map {B = Text × Text} (λ (p : Text × Text). (c ∷ p.0, p.1)) further
    ]

abbrev pub split_commas : Text → List Text
split_commas [] = [] ∷ []
split_commas (c ∷ s) =
    let rest = split_commas s in if nat_beq c b',' then [] ∷ rest else push_char c rest

abbrev pub parse_values : List Text → Outcome (List Text)
parse_values [] = ok []
parse_values (s ∷ ss) = do
  value ← strip_quotes (trim s)
  values ← parse_values ss
  ok (value ∷ values)

-- A space before the operator, or nothing.
abbrev pub is_space? : Option ℕ → Bool
is_space? none = true
is_space? (some c) = nat_beq c b' '

-- A space behind the operator, or nothing.
abbrev pub space_first : Text → Bool
space_first [] = true
space_first (c ∷ s) = nat_beq c b' '

abbrev pub found_after : ℕ → Outcome (Option (Text × Text)) → Outcome (Option (Text × Text))
found_after c o = do
  found ← o
  ok (Option.map {B = Text × Text} (λ (p : Text × Text). (c ∷ p.0, p.1)) found)

-- The loop of `find_operator` from one character on, the character before it being `before`. A
-- character of more than one byte outside of quotation marks and parentheses is cut in its middle,
-- which is a panic.
abbrev pub find_from : Text → ℕ → ℕ → Bool → Option ℕ → Text → Outcome (Option (Text × Text))
find_from op opened closed in_quote before [] = ok none
find_from op opened closed in_quote before (c ∷ s) =
    let quote = found_after c (find_from op opened closed (not in_quote) (some c) s) in
    let down = found_after c (find_from op (suc opened) closed in_quote (some c) s) in
    let up = found_after c (find_from op opened (suc closed) in_quote (some c) s) in
    let next = found_after c (find_from op opened closed in_quote (some c) s) in
    if nat_beq c b'"' && nat_beq opened closed
    then quote
    else if nat_beq c b'(' && not in_quote
    then down
    else if nat_beq c b')' && not in_quote
    then up
    else if not in_quote && nat_beq opened closed
    then elim (strip_prefix op (c ∷ s)) [
      | some rest ↦ if is_space? before && space_first rest then ok (some ([], rest)) else next
      | none ↦ if leb 128 c then panicked else next
    ]
    else next

abbrev pub find_operator : Text → Text → Outcome (Option (Text × Text))
find_operator input op = find_from op 0 0 false none input

-- `~` as a part of `!~` or `~=` is passed over.
abbrev pub is_other_operator : Text × Text → Bool
is_other_operator (before, rest) = ends_with_char b'!' before || starts_with rest (codes "=")

module _ (engine : Engine) where
  abbrev pub parse_header : Text → Outcome Field
  parse_header t = elim (strip_prefix (codes "http.headers.") t) [
    | some name ↦ ok (http_header (engine.to_lowercase name))
    | none ↦ err
  ]

  abbrev pub parse_field : Text → Outcome Field
  parse_field name =
      let t = trim name in
      if same_text t (codes "http.method")
      then ok http_method
      else if same_text t (codes "http.host")
      then ok http_host
      else if same_text t (codes "http.path")
      then ok http_path
      else if same_text t (codes "net.protocol")
      then ok net_protocol
      else if same_text t (codes "tls.sni")
      then ok tls_sni
      else parse_header t

  -- The two sides of an operator: a field, and a value without its quotation marks.
  abbrev pub parse_sides : Text × Text → Outcome (Field × Text)
  parse_sides (before, rest) = do
    field ← parse_field (trim before)
    value ← strip_quotes (trim rest)
    ok (field, value)

  abbrev pub compile_regex : Text → Outcome engine.Regex
  compile_regex t = elim (engine.compile t) [ none ↦ err | some r ↦ ok r ]

  abbrev pub parse_list : Text × Text → Outcome (Field × List Text)
  parse_list (before, rest) = do
    field ← parse_field (trim before)
    values ← parse_values (split_commas (trim rest))
    ok (field, values)

  -- The two operators on lists, which are tried last.
  abbrev pub parse_membership : Text → Outcome (CompiledExpression engine.Regex)
  parse_membership input = elim (split_at (codes " in ") input) [
    | some sides ↦ parse_list sides >>= λ p. ok (in_list p.0 p.1)
    | none ↦ elim (split_at (codes " not in ") input) [
      | some sides ↦ parse_list sides >>= λ p. ok (not_in_list p.0 p.1)
      | none ↦ err
    ]
  ]

  abbrev pub parse_match : Text → Outcome (CompiledExpression engine.Regex)
  parse_match input = elim (split_at (codes "~") input) [
    | none ↦ parse_membership input
    | some sides ↦
        if is_other_operator sides
        then parse_membership input
        else parse_sides sides >>= λ p. compile_regex p.1 >>= λ r. ok (matches_regex p.0 r)
  ]

  abbrev pub parse_comparison : Text → Outcome (CompiledExpression engine.Regex)
  parse_comparison text =
      let input = trim text in
      elim (split_at (codes "==") input) [
        | some sides ↦ parse_sides sides >>= λ p. ok (eq_to p.0 p.1)
        | none ↦ elim (split_at (codes "!=") input) [
          | some sides ↦ parse_sides sides >>= λ p. ok (ne_to p.0 p.1)
          | none ↦ parse_match input
        ]
      ]

  -- `parse_expression` on fuel, one for each call inside a call.
  abbrev pub parse_within : ℕ → Text → Outcome (CompiledExpression engine.Regex)
  parse_within zero text = out_of_fuel
  parse_within (suc fuel) text =
      let input = trim text in
      if is_empty input
      then ok always
      else find_operator input (codes "||") >>= λ o. elim o [
        | some (before, rest) ↦
            parse_within fuel before >>= λ l. parse_within fuel rest >>= λ r. ok (or_of l r)
        | none ↦ find_operator input (codes "&&") >>= λ a. elim a [
          | some (before, rest) ↦
              parse_within fuel before >>= λ l. parse_within fuel rest >>= λ r. ok (and_of l r)
          | none ↦
              if starts_with input (codes "(") && ends_with_char b')' input
              then parse_within fuel (without_ends input)
              else parse_comparison input
        ]
      ]

  -- Every call inside gets a shorter text, so the length of the text and one is fuel enough.
  unfoldable pub parse_expression : Text → Outcome (CompiledExpression engine.Regex)
  parse_expression text = parse_within (suc (length text)) text

  unfoldable pub evaluate : CompiledExpression engine.Regex → RequestContext → Bool
  evaluate always ctx = true
  evaluate (and_of a b) ctx = evaluate a ctx && evaluate b ctx
  evaluate (or_of a b) ctx = evaluate a ctx || evaluate b ctx
  evaluate (eq_to field value) ctx = is_value value (get_field_value field ctx)
  evaluate (ne_to field value) ctx = not (is_value value (get_field_value field ctx))
  evaluate (matches_regex field regex) ctx = elim (get_field_value field ctx) [
    | none ↦ false
    | some v ↦ engine.is_match regex v
  ]
  evaluate (in_list field values) ctx = is_among values (get_field_value field ctx)
  evaluate (not_in_list field values) ctx = not (is_among values (get_field_value field ctx))
