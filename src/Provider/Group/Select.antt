-- ===== src/Provider/Group/Select.antt =====
-- `select_for` of crates/kong-ai/src/provider/balancer.rs: the best tier that has an eligible
-- entry is used, and one is found whenever there is one.
use mathlib.Core.List.{Memᴰ}
use mathlib.Core.List.Memᴰ
use kong_rust.Common.{
  ℕ, ◌≤◌, ◌<◌, ◌≡◌, ◌∙◌, refl, sym, ap, nat_beq, ◌&&◌, Bool, true, false, Option, List, [], ◌∷◌,
  arith, Bool-cases, inl, inr, is_empty, keep_if,
}
use kong_rust.Common.Members.{not_in_empty, nonempty_of_mem, length_pos, empty_of_none}
use kong_rust.Common.Word.{bias}
use kong_rust.Provider.Weighted.{sum}
use kong_rust.Provider.Group.{
  ModelEntry, ModelGroupBalancer, selected, empty_group, unavailable, eligible, tier, pick, dedup,
  select_tier, select_for,
}
use kong_rust.Provider.Group.Order.{
  rank, IsSorted, Falling, Bounded, priorities, tiers-Falling, Memᴰ-tiers,
}
use kong_rust.Provider.Group.Tiers.{weights, Memᴰ-tier, tier-Memᴰ, pick-Memᴰ, pick_total}

Memᴰ-Bounded : (k : ℕ) (ps : List ℕ) {q : ℕ} → Memᴰ q ps → Bounded k ps → bias q ≤ k
Memᴰ-Bounded k [] m b = absurd (Memᴰ.not-nil m)
Memᴰ-Bounded k (p ∷ ps) m b = elim (Memᴰ.cases_cons m) [
  | inl e ↦ rw e b.0
  | inr t ↦ Memᴰ-Bounded k ps t b.1
]

rank_of_priority : (f e : ModelEntry) → f.model.priority ≡ e.model.priority → rank f ≤ rank e
rank_of_priority f e q = rw q (omega arith)

rank_of_bound :
    (f e : ModelEntry) {p : ℕ} → p ≡ e.model.priority → rank f ≤ bias p → rank f ≤ rank e
rank_of_bound f e q h = rw q at h

weights-keep_if :
    (p : ModelEntry → Bool) (es : List ModelEntry) → sum (weights (keep_if p es)) ≤ sum (weights es)
weights-keep_if p [] = omega arith
weights-keep_if p (e ∷ es) = ground (arith, weights-keep_if p es)

tier-weights :
    (now : ℕ) (prompt : Option ℕ) (p : ℕ) (es : List ModelEntry)
    → sum (weights es) < 18446744073709551616
    → sum (weights (tier now prompt p es)) < 18446744073709551616
unfolding tier
tier-weights now prompt p es h = omega (
  arith,
  weights-keep_if (λ (x : ModelEntry). nat_beq x.model.priority p && eligible now prompt x) es,
)

and_false : (a b : Bool) → b ≡ false → (a && b) ≡ false
and_false a b h = ground arith

tier_empty :
    (now : ℕ) (prompt : Option ℕ) (p : ℕ) (es : List ModelEntry)
    → ((f : ModelEntry) → Memᴰ f es → eligible now prompt f ≡ false)
    → is_empty (tier now prompt p es) ≡ true
unfolding tier
tier_empty now prompt p es idle =
    empty_of_none (λ (x : ModelEntry). nat_beq x.model.priority p && eligible now prompt x) es
      (λ f m. and_false _ (eligible now prompt f) (idle f m))

empty_selects_none : (b : ModelGroupBalancer) (e : ModelEntry) → ¬ (empty_group ≡ selected e)
empty_selects_none b e h = cc

module _ (now : ℕ) (prompt : Option ℕ) (b : ModelGroupBalancer) where
  -- The turn of the loop at a tier without candidates, and at one with some.
  select_tier-skip :
      (p : ℕ) (ps : List ℕ)
      → is_empty (tier now prompt p b.entries) ≡ true
      → select_tier now prompt b (p ∷ ps) ≡ select_tier now prompt b ps
  unfolding select_tier
  select_tier-skip p ps h = rw h refl

  select_tier-use :
      (p : ℕ) (ps : List ℕ)
      → is_empty (tier now prompt p b.entries) ≡ false
      → (select_tier now prompt b (p ∷ ps)).1 ≡ pick b.counter (tier now prompt p b.entries)
  unfolding select_tier
  select_tier-use p ps h = rw h refl

  -- The selected entry is in the group, eligible, and of the best tier of `ps` that has one.
  abbrev IsBest : List ℕ → ModelEntry → Type 0
  IsBest ps e =
      Memᴰ e b.entries
      × (eligible now prompt e ≡ true)
      × ((f : ModelEntry)
          → Memᴰ f b.entries
          → eligible now prompt f ≡ true
          → Memᴰ f.model.priority ps
          → rank f ≤ rank e)

  used_tier :
      (p : ℕ) (ps : List ℕ) (e : ModelEntry)
      → Bounded (bias p) ps
      → Memᴰ e (tier now prompt p b.entries)
      → IsBest (p ∷ ps) e
  used_tier p ps e bound m =
      let (inside, same, fit) = Memᴰ-tier now prompt p b.entries m in
      (
        inside,
        fit,
        λ f mf gf pf. elim (Memᴰ.cases_cons pf) [
          | inl q ↦ rank_of_priority f e (q ∙ sym same)
          | inr later ↦ rank_of_bound f e (sym same) (Memᴰ-Bounded (bias p) ps later bound)
        ],
      )

  skipped_tier :
      (p : ℕ) (ps : List ℕ) (e : ModelEntry)
      → is_empty (tier now prompt p b.entries) ≡ true
      → IsBest ps e
      → IsBest (p ∷ ps) e
  skipped_tier p ps e none_here best = (
    best.0,
    best.1,
    λ f mf gf pf. elim (Memᴰ.cases_cons pf) [
      | inl q ↦ absurd (not_in_empty _ none_here (tier-Memᴰ now prompt p b.entries mf q gf))
      | inr later ↦ best.2 f mf gf later
    ],
  )

  select_tier-IsBest :
      (ps : List ℕ) (e : ModelEntry)
      → Falling ps
      → (select_tier now prompt b ps).1 ≡ selected e
      → IsBest ps e
  select_tier-IsBest [] e falls h = unfold select_tier in cc
  select_tier-IsBest (p ∷ ps) e falls h =
      elim (Bool-cases (is_empty (tier now prompt p b.entries))) [
        | inl t ↦
            skipped_tier p ps e t
              (select_tier-IsBest ps e falls.1 (ap (λ r. r.1) (sym (select_tier-skip p ps t)) ∙ h))
        | inr t ↦
            used_tier p ps e falls.0
              (pick-Memᴰ b.counter (tier now prompt p b.entries) (sym (select_tier-use p ps t) ∙ h))
      ]

  select_tier-total :
      (ps : List ℕ) (f : ModelEntry)
      → Memᴰ f b.entries
      → eligible now prompt f ≡ true
      → Memᴰ f.model.priority ps
      → sum (weights b.entries) < 18446744073709551616
      → (e : ModelEntry) × ((select_tier now prompt b ps).1 ≡ selected e)
  select_tier-total [] f mf gf pf w = absurd (Memᴰ.not-nil pf)
  select_tier-total (p ∷ ps) f mf gf pf w =
      elim (Bool-cases (is_empty (tier now prompt p b.entries))) [
        | inl t ↦ elim (Memᴰ.cases_cons pf) [
          | inl q ↦ absurd (not_in_empty _ t (tier-Memᴰ now prompt p b.entries mf q gf))
          | inr later ↦
              let (e, found) = select_tier-total ps f mf gf later w in
              (e, ap (λ r. r.1) (select_tier-skip p ps t) ∙ found)
        ]
        | inr t ↦
            let (e, found) =
              pick_total b.counter (tier now prompt p b.entries) (length_pos _ t)
                (tier-weights now prompt p b.entries w) in
            (e, select_tier-use p ps t ∙ found)
      ]

  select_tier-none :
      (ps : List ℕ)
      → ((f : ModelEntry) → Memᴰ f b.entries → eligible now prompt f ≡ false)
      → select_tier now prompt b ps ≡ (b, unavailable)
  select_tier-none [] idle = unfold select_tier in refl
  select_tier-none (p ∷ ps) idle =
      select_tier-skip p ps (tier_empty now prompt p b.entries idle) ∙ select_tier-none ps idle

  -- In a group sorted by priority, a selected entry is one of the group, enabled, out of
  -- cooldown and able to take the prompt, and no such entry of the group has a higher priority.
  pub select_for-best :
      (e : ModelEntry)
      → IsSorted b.entries
      → (select_for now prompt b).1 ≡ selected e
      → Memᴰ e b.entries
        × (eligible now prompt e ≡ true)
        × ((f : ModelEntry) → Memᴰ f b.entries → eligible now prompt f ≡ true → rank f ≤ rank e)
  unfolding select_for
  select_for-best e sorted h = elim (Bool-cases (is_empty b.entries)) [
    | inl t ↦ absurd (empty_selects_none b e (rw t at h))
    | inr t ↦
        let best =
          select_tier-IsBest (dedup (priorities b.entries)) e (tiers-Falling b.entries sorted)
            (rw t at h) in
        (best.0, best.1, λ f mf gf. best.2 f mf gf (Memᴰ-tiers f b.entries mf))
  ]

  -- Where some entry of the group is eligible, and the weights add up to less than 2 ^ 64, an
  -- entry is selected: there is no error and no failed `expect`.
  pub select_for_total :
      (f : ModelEntry)
      → Memᴰ f b.entries
      → eligible now prompt f ≡ true
      → sum (weights b.entries) < 18446744073709551616
      → (e : ModelEntry) × ((select_for now prompt b).1 ≡ selected e)
  unfolding select_for
  select_for_total f mf gf w =
      rw (nonempty_of_mem b.entries mf)
        (select_tier-total (dedup (priorities b.entries)) f mf gf (Memᴰ-tiers f b.entries mf) w)

  -- Where a group has entries and none is eligible, the error says so, and nothing changes: the
  -- rotation does not move.
  pub select_for_none :
      is_empty b.entries ≡ false
      → ((f : ModelEntry) → Memᴰ f b.entries → eligible now prompt f ≡ false)
      → select_for now prompt b ≡ (b, unavailable)
  unfolding select_for
  select_for_none t idle = rw t (select_tier-none (dedup (priorities b.entries)) idle)
