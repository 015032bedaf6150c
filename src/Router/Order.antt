-- ===== src/Router/Order.antt =====
-- The order of the routes and of the categories in crates/kong-router/src/traditional.rs.
use mathlib.Core.Path.{subst}
use Prim.Native.Nat.{Ordering, lt, eq, gt, compare}
use kong_rust.Common.{ℕ, suc, ◌+◌, ◌%◌, ◌≡◌, refl, sym, ap, Bool, true, false, arith, if◌then◌else◌}
use kong_rust.Common.Compare.{
  then_by, IsTotalOrder, compare-IsTotalOrder, turned-IsTotalOrder, then_by-IsTotalOrder,
}
use kong_rust.Router.Types.{ProcessedRoute}
use kong_rust.Router.Process.{sub_has_regex_uri}
use kong_rust.Router.Matching.{has_bit}

-- The order of the `i64` values that two patterns stand for.
abbrev pub signed64 : ℕ → ℕ
signed64 x = (x + 9223372036854775808) % 18446744073709551616

then_by-cong : (x : Ordering) {y z : Ordering} → (x ≡ eq → y ≡ z) → then_by x y ≡ then_by x z
then_by-cong lt h = refl
then_by-cong eq h = h refl
then_by-cong gt h = refl

module _ {Regex : Type 0} where
  unfoldable pub sort_routes : ProcessedRoute Regex → ProcessedRoute Regex → Ordering
  sort_routes a b = then_by (compare b.submatch_weight a.submatch_weight) (
      then_by (compare b.header_count a.header_count) (
        then_by
          (if has_bit a.submatch_weight sub_has_regex_uri
            then compare (signed64 b.regex_priority) (signed64 a.regex_priority)
            else eq)
          (then_by (compare b.max_uri_length a.max_uri_length)
            (compare (signed64 a.created_at) (signed64 b.created_at)))))

  -- The priority that counts: that of a route with a regex path.
  abbrev counted_priority : ProcessedRoute Regex → ℕ
  counted_priority r =
      if has_bit r.submatch_weight sub_has_regex_uri then suc (signed64 r.regex_priority) else 0

  by_submatch-IsTotalOrder :
      IsTotalOrder (λ (a b : ProcessedRoute Regex). compare b.submatch_weight a.submatch_weight)
  by_submatch-IsTotalOrder =
      turned-IsTotalOrder (compare-IsTotalOrder (λ (r : ProcessedRoute Regex). r.submatch_weight))

  -- The same comparison with the counted priority.
  abbrev by_keys : ProcessedRoute Regex → ProcessedRoute Regex → Ordering
  by_keys a b = then_by (compare b.submatch_weight a.submatch_weight) (
      then_by (compare b.header_count a.header_count) (
        then_by (compare (counted_priority b) (counted_priority a)) (
          then_by (compare b.max_uri_length a.max_uri_length)
            (compare (signed64 a.created_at) (signed64 b.created_at)))))

  by_keys-IsTotalOrder : IsTotalOrder by_keys
  by_keys-IsTotalOrder = then_by-IsTotalOrder by_submatch-IsTotalOrder (
      then_by-IsTotalOrder
        (turned-IsTotalOrder (compare-IsTotalOrder (λ (r : ProcessedRoute Regex). r.header_count)))
        (then_by-IsTotalOrder (turned-IsTotalOrder (compare-IsTotalOrder counted_priority)) (
          then_by-IsTotalOrder
            (turned-IsTotalOrder
              (compare-IsTotalOrder (λ (r : ProcessedRoute Regex). r.max_uri_length)))
            (compare-IsTotalOrder (λ (r : ProcessedRoute Regex). signed64 r.created_at)))))

  priority-counted :
      (a b : ProcessedRoute Regex) (h : Bool)
      → has_bit a.submatch_weight sub_has_regex_uri ≡ h
      → b.submatch_weight ≡ a.submatch_weight
      → (if has_bit a.submatch_weight sub_has_regex_uri
          then compare (signed64 b.regex_priority) (signed64 a.regex_priority)
          else eq)
        ≡ compare (counted_priority b) (counted_priority a)
  priority-counted a b true h e =
      rw (e, h) (shift (signed64 b.regex_priority) (signed64 a.regex_priority))
    where
      shift : (m n : ℕ) → compare m n ≡ compare (suc m) (suc n)
      shift m n = ground arith
  priority-counted a b false h e = rw (e, h) refl

  sort_routes-by_keys : (a b : ProcessedRoute Regex) → sort_routes a b ≡ by_keys a b
  unfolding sort_routes
  sort_routes-by_keys a b = then_by-cong (compare b.submatch_weight a.submatch_weight) (λ e.
      then_by-cong (compare b.header_count a.header_count) (λ _.
        ap
          (λ x. then_by x (
            then_by (compare b.max_uri_length a.max_uri_length)
              (compare (signed64 a.created_at) (signed64 b.created_at))))
          (priority-counted a b _ refl (tied b.submatch_weight a.submatch_weight e))))
    where
      tied : (m n : ℕ) → compare m n ≡ eq → m ≡ n
      tied m n h = ground arith

  -- The comparison that the router gives to `sort_by` is a total order up to ties, as `sort_by` asks:
  -- that the regex priority counts for some routes only does not break it.
  pub sort_routes-IsTotalOrder : IsTotalOrder sort_routes
  sort_routes-IsTotalOrder =
      subst IsTotalOrder (λ i a b. sym (sort_routes-by_keys a b) i) by_keys-IsTotalOrder
