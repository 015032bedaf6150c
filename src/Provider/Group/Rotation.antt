-- ===== src/Provider/Group/Rotation.antt =====
-- Repeated selections of crates/kong-ai/src/provider/balancer.rs from an unchanged group.
use kong_rust.Common.{
  ℕ, zero, suc, ◌+◌, ◌%◌, ◌<◌, ◌≡◌, ◌≢◌, ◌∙◌, refl, ap, ap₂, Bool, true, false, Option, some, List,
  [], ◌∷◌, map, arith, Bool-cases, inl, inr, if◌then◌else◌, length, is_empty,
}
use kong_rust.Provider.Weighted.{divisor, sum, weighted_round_robin_index}
use kong_rust.Provider.Weighted.Schedule.{reduced, schedule}
use kong_rust.Provider.Weighted.Shares.{selections, selections-schedule}
use kong_rust.Provider.Group.{
  ModelEntry, ModelGroupBalancer, Selection, at, tier, pick, dedup, select_tier, select_for,
}
use kong_rust.Provider.Group.Order.{priorities}
use kong_rust.Provider.Group.Tiers.{weights, all_zero_divisor}

-- The first tier that has a candidate.
unfoldable pub first_tier : ℕ → Option ℕ → List ModelEntry → List ℕ → List ModelEntry
first_tier now prompt es [] = []
first_tier now prompt es (p ∷ ps) =
    let rest = first_tier now prompt es ps in
    let here = tier now prompt p es in if is_empty here then rest else here

unfoldable pub active_tier : ℕ → Option ℕ → ModelGroupBalancer → List ModelEntry
active_tier now prompt b = first_tier now prompt b.entries (dedup (priorities b.entries))

-- The balancer with its rotation moved by one.
abbrev pub advance : ModelGroupBalancer → ModelGroupBalancer
advance b = record b { counter = (b.counter + 1) % 18446744073709551616 }

select_tier-first :
    (now : ℕ) (prompt : Option ℕ) (b : ModelGroupBalancer) (ps : List ℕ)
    → is_empty (first_tier now prompt b.entries ps) ≡ false
    → select_tier now prompt b ps ≡ (advance b, pick b.counter (first_tier now prompt b.entries ps))
unfolding first_tier select_tier
select_tier-first now prompt b [] h = cc
select_tier-first now prompt b (p ∷ ps) h =
    elim (Bool-cases (is_empty (tier now prompt p b.entries))) [
      | inl t ↦ rw t (select_tier-first now prompt b ps (rw t at h))
      | inr t ↦ rw t refl
    ]

no_tier :
    (now : ℕ) (prompt : Option ℕ) (es : List ModelEntry)
    → is_empty es ≡ true
    → is_empty (first_tier now prompt es (dedup (priorities es))) ≡ true
unfolding first_tier dedup
no_tier now prompt [] h = refl
no_tier now prompt (e ∷ es) h = cc

both : {b : Bool} → b ≡ true → b ≡ false → ⊥
both p q = cc

select_for-active :
    (now : ℕ) (prompt : Option ℕ) (b : ModelGroupBalancer)
    → is_empty (active_tier now prompt b) ≡ false
    → select_for now prompt b ≡ (advance b, pick b.counter (active_tier now prompt b))
unfolding select_for active_tier
select_for-active now prompt b h = elim (Bool-cases (is_empty b.entries)) [
  | inl t ↦ absurd (both (no_tier now prompt b.entries t) h)
  | inr t ↦ rw t (select_tier-first now prompt b (dedup (priorities b.entries)) h)
]

-- What `n` calls in a row select.
abbrev pub select_times : ℕ → ℕ → Option ℕ → ModelGroupBalancer → List Selection
select_times zero now prompt b = []
select_times (suc n) now prompt b =
    (select_for now prompt b).1 ∷ select_times n now prompt (select_for now prompt b).0

pick-weighted :
    (sequence : ℕ) (cs : List ModelEntry)
    → divisor (weights cs) ≢ 0
    → pick sequence cs ≡ at cs (weighted_round_robin_index (weights cs) sequence)
unfolding pick
pick-weighted sequence cs h = rw (all_zero_divisor (weights cs) h) refl

advanced : (c : ℕ) → c + 1 < 18446744073709551616 → (c + 1) % 18446744073709551616 ≡ suc c
advanced c h = omega arith

map-some :
    (cs : List ModelEntry) (xs : List ℕ) → map (at cs) (map some xs) ≡ map (λ i. at cs (some i)) xs
map-some cs [] = refl
map-some cs (x ∷ xs) = ap (◌∷◌ (at cs (some x))) (map-some cs xs)

module _ (now : ℕ) (prompt : Option ℕ) (cs : List ModelEntry)
    (some_weight : divisor (weights cs) ≢ 0) (nonempty : is_empty cs ≡ false) where
  one_selection :
      (b : ModelGroupBalancer)
      → active_tier now prompt b ≡ cs
      → select_for now prompt b ≡ (advance b, pick b.counter cs)
  one_selection b e =
      select_for-active now prompt b (rw e nonempty) ∙ ap (λ c. (advance b, pick b.counter c)) e

  select_times-selections :
      (n : ℕ) (b : ModelGroupBalancer)
      → active_tier now prompt b ≡ cs
      → b.counter + n < 18446744073709551616
      → select_times n now prompt b ≡ map (at cs) (selections (weights cs) b.counter n)
  unfolding active_tier
  select_times-selections zero b e m = refl
  select_times-selections (suc n) b e m = rw (one_selection b e) (
      ap₂ ◌∷◌ (pick-weighted b.counter cs some_weight) (
        select_times-selections n (advance b) e (omega arith)
        ∙ ap (λ s. map (at cs) (selections (weights cs) s n)) (advanced b.counter (omega arith))))

  -- Where the active tier has a weight other than 0, with a reduced sum below 2 ^ 64, and the rotation
  -- begins a period of the tier and stays below 2 ^ 64 through it, the next selections from the
  -- unchanged group, as many as the period is long, are the candidates in the order of the schedule of
  -- their weights.
  pub select_times-schedule :
      (b : ModelGroupBalancer)
      → active_tier now prompt b ≡ cs
      → sum (reduced (weights cs)) < 18446744073709551616
      → b.counter + length (schedule (weights cs)) < 18446744073709551616
      → b.counter % length (schedule (weights cs)) ≡ 0
      → select_times (length (schedule (weights cs))) now prompt b
        ≡ map (λ i. at cs (some i)) (schedule (weights cs))
  select_times-schedule b e total room begins =
      select_times-selections (length (schedule (weights cs))) b e room
      ∙ rw (selections-schedule (weights cs) b.counter some_weight total begins)
          (map-some cs (schedule (weights cs)))
