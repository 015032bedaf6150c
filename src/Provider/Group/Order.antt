-- ===== src/Provider/Group/Order.antt =====
-- The order of the entries of crates/kong-ai/src/provider/balancer.rs.
use mathlib.Core.List.{Perm, Memᴰ}
use mathlib.Core.List.Perm
use mathlib.Core.List.Memᴰ
use kong_rust.Common.{
  ℕ, ◌≤◌, ◌≡◌, List, [], ◌∷◌, map, ◌∙◌, nat_beq_iff, arith, Bool-cases, inl, inr, nat_beq, true,
  false,
}
use kong_rust.Common.Word.{bias}
use kong_rust.Provider.Group.{
  AiModel, ModelEntry, before, sort_entry, sort_entries, dedup, new, healthy,
}

abbrev pub rank : ModelEntry → ℕ
rank e = bias e.model.priority

-- No entry of the list outranks `k`.
abbrev pub AllBelow : ℕ → List ModelEntry → Type 0
AllBelow k [] = Unit {0}
AllBelow k (e ∷ es) = (rank e ≤ k) × AllBelow k es

-- Priorities fall along the list.
abbrev pub IsSorted : List ModelEntry → Type 0
IsSorted [] = Unit {0}
IsSorted (e ∷ es) = AllBelow (rank e) es × IsSorted es

AllBelow-mono : (k l : ℕ) (es : List ModelEntry) → k ≤ l → AllBelow k es → AllBelow l es
AllBelow-mono k l [] h b = tt
AllBelow-mono k l (e ∷ es) h b = (omega arith, AllBelow-mono k l es h b.1)

before-rank : (e f : ModelEntry) → before e f ≡ true → rank f ≤ rank e
unfolding before
before-rank e f h = ground arith

before-rank-false : (e f : ModelEntry) → before e f ≡ false → rank e ≤ rank f
unfolding before
before-rank-false e f h = ground arith

sort_entry-AllBelow :
    (k : ℕ) (e : ModelEntry) (es : List ModelEntry)
    → rank e ≤ k
    → AllBelow k es
    → AllBelow k (sort_entry e es)
unfolding sort_entry
sort_entry-AllBelow k e [] h b = (h, tt)
sort_entry-AllBelow k e (f ∷ fs) h b = ground (arith, sort_entry-AllBelow k e fs h b.1)

sort_entry-IsSorted :
    (e : ModelEntry) (es : List ModelEntry) → IsSorted es → IsSorted (sort_entry e es)
unfolding sort_entry
sort_entry-IsSorted e [] s = (tt, tt)
sort_entry-IsSorted e (f ∷ fs) s = elim (Bool-cases (before e f)) [
  | inl h ↦
      rw h (
        (before-rank e f h, AllBelow-mono (rank f) (rank e) fs (before-rank e f h) s.0),
        (s.0, s.1),
      )
  | inr h ↦ rw h (
    sort_entry-AllBelow (rank f) e fs (before-rank-false e f h) s.0,
    sort_entry-IsSorted e fs s.1,
  )
]

sort_entries-IsSorted : (es : List ModelEntry) → IsSorted (sort_entries es)
unfolding sort_entries
sort_entries-IsSorted [] = tt
sort_entries-IsSorted (e ∷ es) = sort_entry-IsSorted e (sort_entries es) (sort_entries-IsSorted es)

sort_entry-perm : (e : ModelEntry) (es : List ModelEntry) → Perm (sort_entry e es) (e ∷ es)
unfolding sort_entry
sort_entry-perm e [] = Perm.refl (e ∷ [])
sort_entry-perm e (f ∷ fs) = elim (Bool-cases (before e f)) [
  | inl h ↦ rw h (Perm.refl (e ∷ f ∷ fs))
  | inr h ↦ rw h (Perm.trans (Perm.cons f (sort_entry-perm e fs)) (Perm.swap e f fs))
]

sort_entries-perm : (es : List ModelEntry) → Perm (sort_entries es) es
unfolding sort_entries
sort_entries-perm [] = Perm.refl []
sort_entries-perm (e ∷ es) =
    Perm.trans (sort_entry-perm e (sort_entries es)) (Perm.cons e (sort_entries-perm es))

-- A new balancer holds the given models, each once with fresh health, in order of falling
-- priority.
pub new-IsSorted :
    (models : List AiModel)
    → IsSorted (new models).entries
      × Perm (new models).entries (map (λ m. record { model = m; health = healthy }) models)
unfolding new
new-IsSorted models =
    let entries : List ModelEntry = map (λ m. record { model = m; health = healthy }) models in
    (sort_entries-IsSorted entries, sort_entries-perm entries)

-- The same for a list of priorities, and what `dedup` keeps of it.
abbrev pub Bounded : ℕ → List ℕ → Type 0
Bounded k [] = Unit {0}
Bounded k (p ∷ ps) = (bias p ≤ k) × Bounded k ps

abbrev pub Falling : List ℕ → Type 0
Falling [] = Unit {0}
Falling (p ∷ ps) = Bounded (bias p) ps × Falling ps

abbrev pub priorities : List ModelEntry → List ℕ
priorities = map λ e. e.model.priority

priorities-Bounded : (k : ℕ) (es : List ModelEntry) → AllBelow k es → Bounded k (priorities es)
priorities-Bounded k [] b = tt
priorities-Bounded k (e ∷ es) b = (b.0, priorities-Bounded k es b.1)

priorities-Falling : (es : List ModelEntry) → IsSorted es → Falling (priorities es)
priorities-Falling [] s = tt
priorities-Falling (e ∷ es) s = (priorities-Bounded (rank e) es s.0, priorities-Falling es s.1)

dedup-Bounded : (k : ℕ) (ps : List ℕ) → Bounded k ps → Bounded k (dedup ps)
unfolding dedup
dedup-Bounded k [] b = tt
dedup-Bounded k (p ∷ []) b = b
dedup-Bounded k (p ∷ q ∷ ps) b = ground (arith, dedup-Bounded k (q ∷ ps) b.1)

dedup-Falling : (ps : List ℕ) → Falling ps → Falling (dedup ps)
unfolding dedup
dedup-Falling [] f = tt
dedup-Falling (p ∷ []) f = f
dedup-Falling (p ∷ q ∷ ps) f =
    ground (arith, dedup-Falling (q ∷ ps) f.1, dedup-Bounded (bias p) (q ∷ ps) f.0)

-- The tiers that `select_for` goes through have falling priorities.
pub tiers-Falling : (es : List ModelEntry) → IsSorted es → Falling (dedup (priorities es))
tiers-Falling es s = dedup-Falling (priorities es) (priorities-Falling es s)

Memᴰ-dedup : (q : ℕ) (ps : List ℕ) → Memᴰ q ps → Memᴰ q (dedup ps)
unfolding dedup
Memᴰ-dedup q [] m = m
Memᴰ-dedup q (p ∷ []) m = m
Memᴰ-dedup q (p ∷ r ∷ ps) m = elim (Bool-cases (nat_beq p r)) [
  | inl h ↦ rw h (
      Memᴰ-dedup q (r ∷ ps)
        (elim (Memᴰ.cases_cons m) [ inl e ↦ Memᴰ.head (e ∙ (nat_beq_iff p r).0 h) | inr t ↦ t ]))
  | inr h ↦ rw h (elim (Memᴰ.cases_cons m) [
    | inl e ↦ Memᴰ.head e
    | inr t ↦ Memᴰ.tail (Memᴰ-dedup q (r ∷ ps) t)
  ])
]

-- Each entry's priority is among the tiers.
pub Memᴰ-tiers :
    (e : ModelEntry) (es : List ModelEntry)
    → Memᴰ e es
    → Memᴰ e.model.priority (dedup (priorities es))
Memᴰ-tiers e es m = Memᴰ-dedup _ (priorities es) (Memᴰ.map (λ (x : ModelEntry). x.model.priority) m)
