-- ===== src/Router/Table/Groups.antt =====
-- The groups that `new` of crates/kong-router/src/traditional.rs builds: the group of some rules holds
-- the indices of the routes with these rules, in their order.
use mathlib.Core.List.{Memᴰ}
use mathlib.Core.List.Memᴰ
use mathlib.Core.List
use kong_rust.Common.{
  ℕ, suc, ◌≡◌, ◌∙◌, refl, sym, ap, true, false, some, List, [], ◌∷◌, ◌++◌, map, inl, inr,
  if◌then◌else◌, keep_if, get_elem?, length, length-append, nat_beq, nat_beq_iff, nat_keyed,
  Bool-cases, Option-cases, ap₂, ◌⊎◌, arith,
}
use kong_rust.Common.Assoc.{lookup, lookup-insert}
use kong_rust.Common.Members.{keep_if-Memᴰ}
use kong_rust.Common.Keys.{IsKeyed, insert-IsKeyed, entry-lookup, lookup-Memᴰ}
use kong_rust.Router.Types.{Engine, ProcessedRoute}
use kong_rust.Router.Table.{or_default, push_at, group_by_rules}

get_elem?-length {ℓ} :
    {A : Type ℓ} (pre : List A) (x : A) (xs : List A)
    → get_elem? (pre ++ x ∷ xs) (length pre) ≡ some x
get_elem?-length [] x xs = refl
get_elem?-length (y ∷ pre) x xs = get_elem?-length pre x xs

length-snoc {ℓ} : {A : Type ℓ} (pre : List A) (x : A) → length (pre ++ (x ∷ [])) ≡ suc (length pre)
length-snoc pre x = length-append pre (x ∷ []) ∙ omega arith

no_member {ℓ} : {A : Type ℓ} (xs : List A) {x : A} → [] ≡ map some xs → Memᴰ x xs → ⊥
no_member [] h m = Memᴰ.not-nil m
no_member (y ∷ ys) h m = cc

module _ (engine : Engine) where
  abbrev Processed : Type 0
  Processed = ProcessedRoute engine.Regex

  abbrev indices_of : ℕ → ℕ → List Processed → List ℕ
  indices_of key i [] = []
  indices_of key i (r ∷ rs) =
      let rest = indices_of key (suc i) rs in if nat_beq r.match_rules key then i ∷ rest else rest

  abbrev pub of_rules : ℕ → List Processed → List Processed
  of_rules key = keep_if (λ (r : Processed). nat_beq r.match_rules key)

  group_by_rules-indices_of :
      (key i : ℕ) (rs : List Processed) (groups : List (ℕ × List ℕ))
      → or_default (lookup key (group_by_rules engine i rs groups))
        ≡ or_default (lookup key groups) ++ indices_of key i rs
  group_by_rules-indices_of key i [] groups = sym (List.append-nil _)
  group_by_rules-indices_of key i (r ∷ rs) groups =
      group_by_rules-indices_of key (suc i) rs (push_at r.match_rules i groups)
      ∙ pushed (Bool-cases (nat_beq r.match_rules key))
    where
      pushed :
          (nat_beq r.match_rules key ≡ true) ⊎ (nat_beq r.match_rules key ≡ false)
          → or_default (lookup key (push_at r.match_rules i groups)) ++ indices_of key (suc i) rs
            ≡ or_default (lookup key groups) ++ indices_of key i (r ∷ rs)
      pushed (inl h) =
          rw
            (
              lookup-insert key r.match_rules (or_default (lookup r.match_rules groups) ++ (i ∷ []))
                  groups,
              h,
              (nat_beq_iff r.match_rules key).0 h,
            )
            (List.append_assoc (or_default (lookup key groups)) (i ∷ [])
              (indices_of key (suc i) rs))
      pushed (inr h) =
          rw
            (
              lookup-insert key r.match_rules (or_default (lookup r.match_rules groups) ++ (i ∷ []))
                  groups,
              h,
            )
            refl

  group_by_rules-IsKeyed :
      (i : ℕ) (rs : List Processed) (groups : List (ℕ × List ℕ))
      → IsKeyed groups
      → IsKeyed (group_by_rules engine i rs groups)
  group_by_rules-IsKeyed i [] groups s = s
  group_by_rules-IsKeyed i (r ∷ rs) groups s =
      group_by_rules-IsKeyed (suc i) rs (push_at r.match_rules i groups) (
        insert-IsKeyed r.match_rules (or_default (lookup r.match_rules groups) ++ (i ∷ [])) groups
          s)

  resolved :
      (key : ℕ) (pre rs : List Processed)
      → map (get_elem? (pre ++ rs)) (indices_of key (length pre) rs) ≡ map some (of_rules key rs)
  resolved key pre [] = refl
  resolved key pre (r ∷ rs) = step (
      rw (← List.append_assoc pre (r ∷ []) rs, ← length-snoc pre r)
        (resolved key (pre ++ (r ∷ [])) rs))
    where
      step :
          map (get_elem? (pre ++ r ∷ rs)) (indices_of key (suc (length pre)) rs)
            ≡ map some (of_rules key rs)
          → map (get_elem? (pre ++ r ∷ rs)) (indices_of key (length pre) (r ∷ rs))
            ≡ map some (of_rules key (r ∷ rs))
      step further = elim (Bool-cases (nat_beq r.match_rules key)) [
        | inl h ↦ rw h (ap₂ (λ o os. o ∷ os) (get_elem?-length pre r rs) further)
        | inr h ↦ rw h further
      ]

  -- The group of some rules.
  abbrev pub group_of : ℕ → List Processed → List ℕ
  group_of key processed = or_default (lookup key (group_by_rules engine 0 processed []))

  pub group_of-resolved :
      (key : ℕ) (processed : List Processed)
      → map (get_elem? processed) (group_of key processed) ≡ map some (of_rules key processed)
  unfolding lookup
  group_of-resolved key processed =
      ap (map (get_elem? processed)) (group_by_rules-indices_of key 0 processed [])
      ∙ resolved key [] processed

  pub entry-group_of :
      (key : ℕ) (indices : List ℕ) (processed : List Processed)
      → Memᴰ (key, indices) (group_by_rules engine 0 processed [])
      → indices ≡ group_of key processed
  entry-group_of key indices processed m = sym (
      ap or_default (
        entry-lookup key indices (group_by_rules engine 0 processed [])
          (group_by_rules-IsKeyed 0 processed [] tt) m))

  -- Every route is in the group of its rules, and this group is there.
  pub group_of-there :
      (r : Processed) (processed : List Processed)
      → Memᴰ r processed
      → Memᴰ
          (r.match_rules, group_of r.match_rules processed)
          (group_by_rules engine 0 processed [])
  group_of-there r processed m =
      elim (Option-cases (lookup r.match_rules (group_by_rules engine 0 processed []))) [
        | inl h ↦ absurd (
            no_member (of_rules r.match_rules processed)
              (sym (ap (λ o. map (get_elem? processed) (or_default o)) h)
                ∙ group_of-resolved r.match_rules processed)
              (keep_if-Memᴰ (λ q. nat_beq q.match_rules r.match_rules) processed m
                ((nat_beq_iff _ _).1 refl)))
        | inr (g, h) ↦ rw h (lookup-Memᴰ r.match_rules g (group_by_rules engine 0 processed []) h)
      ]
