-- ===== src/Router/Rules.antt =====
-- The bits of `match_rules` in crates/kong-router/src/traditional.rs, and the weight they stand for.
use kong_rust.Common.{
  ℕ, ◌+◌, ◌≡◌, refl, Bool, true, false, not, ◌&&◌, if◌then◌else◌, nat_beq, nat_beq_iff,
}
use kong_rust.Router.Types.{Route, Engine}
use kong_rust.Router.Process.{
  match_host_bit, match_header_bit, match_uri_bit, match_method_bit, match_sni_bit, rules_of,
  process_route,
}
use kong_rust.Router.Matching.{has_bit}

-- A test that holds of both truth values.
abbrev every : (Bool → Bool) → Bool
every t = t true && t false

every-at : (t : Bool → Bool) → every t ≡ true → (b : Bool) → t b ≡ true
every-at t h true = both_left (t true) (t false) h
  where
    both_left : (x y : Bool) → (x && y) ≡ true → x ≡ true
    both_left true y k = refl
    both_left false y k = k
every-at t h false = both_right (t true) (t false) h
  where
    both_right : (x y : Bool) → (x && y) ≡ true → y ≡ true
    both_right true y k = k
    both_right false y k = cc

every_five :
    (t : Bool → Bool → Bool → Bool → Bool → Bool)
    → every (λ a. every (λ b. every (λ c. every (λ d. every (t a b c d))))) ≡ true
    → (a b c d e : Bool) → t a b c d e ≡ true
every_five t h a b c d e =
    every-at (t a b c d)
      (every-at (λ d. every (t a b c d))
        (every-at (λ c. every (λ d. every (t a b c d)))
          (every-at (λ b. every (λ c. every (λ d. every (t a b c d))))
            (every-at (λ a. every (λ b. every (λ c. every (λ d. every (t a b c d))))) h a) b)
          c)
        d)
      e

abbrev weight_if : Bool → ℕ
weight_if b = if b then 1 else 0

abbrev pub weight_of : ℕ → ℕ
weight_of rules =
    weight_if (has_bit rules match_host_bit)
    + weight_if (has_bit rules match_uri_bit)
    + weight_if (has_bit rules match_method_bit)
    + weight_if (has_bit rules match_header_bit)
    + weight_if (has_bit rules match_sni_bit)

abbrev same_bool : Bool → Bool → Bool
same_bool true b = b
same_bool false b = not b

same_bool_eq : (a b : Bool) → same_bool a b ≡ true → a ≡ b
same_bool_eq true true h = refl
same_bool_eq true false h = cc
same_bool_eq false true h = cc
same_bool_eq false false h = refl

weight_counted :
    (a b c d e : Bool)
    → (if a then 0 else 1)
        + (if b then 0 else 1)
        + (if c then 0 else 1)
        + (if d then 0 else 1)
        + (if e then 0 else 1)
      ≡ weight_of (rules_of (not a) (not b) (not c) (not d) (not e))
weight_counted a b c d e = (nat_beq_iff _ _).0 (
    every_five
      (λ a b c d e.
        nat_beq
          ((if a then 0 else 1)
            + (if b then 0 else 1)
            + (if c then 0 else 1)
            + (if d then 0 else 1)
            + (if e then 0 else 1))
          (weight_of (rules_of (not a) (not b) (not c) (not d) (not e))))
      refl a b c d e)

module _ (a b c d e : Bool) where
  pub has_host : has_bit (rules_of a b c d e) match_host_bit ≡ a
  has_host = same_bool_eq _ _ (
      every_five (λ a b c d e. same_bool (has_bit (rules_of a b c d e) match_host_bit) a) refl a b c
        d e)

  pub has_uri : has_bit (rules_of a b c d e) match_uri_bit ≡ b
  has_uri = same_bool_eq _ _ (
      every_five (λ a b c d e. same_bool (has_bit (rules_of a b c d e) match_uri_bit) b) refl a b c
        d e)

  pub has_method : has_bit (rules_of a b c d e) match_method_bit ≡ c
  has_method = same_bool_eq _ _ (
      every_five (λ a b c d e. same_bool (has_bit (rules_of a b c d e) match_method_bit) c) refl a b
        c d e)

  pub has_header : has_bit (rules_of a b c d e) match_header_bit ≡ d
  has_header = same_bool_eq _ _ (
      every_five (λ a b c d e. same_bool (has_bit (rules_of a b c d e) match_header_bit) d) refl a b
        c d e)

  pub has_sni : has_bit (rules_of a b c d e) match_sni_bit ≡ e
  has_sni = same_bool_eq _ _ (
      every_five (λ a b c d e. same_bool (has_bit (rules_of a b c d e) match_sni_bit) e) refl a b c
        d e)

-- The weight of a processed route is the number of bits in its rules.
pub process_route-weight_of :
    (engine : Engine) (r : Route)
    → (process_route engine r).match_weight ≡ weight_of (process_route engine r).match_rules
unfolding process_route
process_route-weight_of engine r = weight_counted _ _ _ _ _
