-- ===== src/Balancer/Connections.antt =====
-- The connection counts of crates/kong-proxy/src/balancer.rs.
use native.Mathlib.Nat.{mod-eq_of_lt}
use kong_rust.Common.{
  ℕ, zero, suc, ◌+◌, ◌-◌, ◌%◌, ◌<◌, ◌≡◌, ◌∙◌, refl, ap, String, Option, none, some, List, [], ◌∷◌,
  arith, string_keyed,
}
use kong_rust.Balancer.{LoadBalancer, elem_or_zero}
use kong_rust.Balancer.Calls.{
  position, change_at, on_counts, increment_connections, decrement_connections,
}

back : (n : ℕ) → n + 1 < 18446744073709551616 → (n + 1) % 18446744073709551616 - 1 ≡ n
back n h = ap (λ k. k - 1) (mod-eq_of_lt h) ∙ omega arith

change_at-change_at :
    (i : ℕ) (counts : List ℕ)
    → elem_or_zero counts i + 1 < 18446744073709551616
    → change_at (λ n. n - 1) i (change_at (λ n. (n + 1) % 18446744073709551616) i counts) ≡ counts
change_at-change_at i [] h = refl
change_at-change_at zero (n ∷ ns) h = ap (λ k. k ∷ ns) (back n h)
change_at-change_at (suc i) (n ∷ ns) h = ap (λ ks. n ∷ ks) (change_at-change_at i ns h)

on_counts-on_counts :
    (o : Option ℕ) (counts : List ℕ)
    → ((i : ℕ) → elem_or_zero counts i + 1 < 18446744073709551616)
    → on_counts (λ n. n - 1) o (on_counts (λ n. (n + 1) % 18446744073709551616) o counts) ≡ counts
on_counts-on_counts none counts h = refl
on_counts-on_counts (some i) counts h = change_at-change_at i counts (h i)

-- A connection that ends takes back what its start added, for the same address, and changes nothing
-- else of the balancer. No count is at its greatest.
pub decrement_connections-increment_connections :
    (addr : String) (b : LoadBalancer)
    → ((i : ℕ) → elem_or_zero b.connection_counts i + 1 < 18446744073709551616)
    → decrement_connections addr (increment_connections addr b) ≡ b
unfolding decrement_connections increment_connections
decrement_connections-increment_connections addr b h =
    ap (λ counts. record b { connection_counts = counts })
      (on_counts-on_counts (position addr 0 b.targets) b.connection_counts h)
