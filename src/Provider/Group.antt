-- ===== src/Provider/Group.antt =====
-- The model group balancer of crates/kong-ai/src/provider/balancer.rs: priority tiers, weighted
-- rotation within a tier, cooldown after failures.
--
-- An `Instant` is a number of nanoseconds, read once for a call. `i32` values are bit patterns,
-- the `u32` and `u64` counters wrap. Of a model and its provider the fields that the balancer
-- reads are kept.
pub mod Order
pub mod Cooldown
pub mod Tiers
pub mod Select
pub mod Rotation
pub mod Tests
use kong_rust.Common.{
  ℕ, suc, ◌+◌, ◌%◌, Bool, true, false, not, ◌&&◌, Option, none, some, List, [], ◌∷◌, map,
  if◌then◌else◌, ltb, leb, nat_beq, length, get_elem?, keep_if, all, is_empty,
}
use kong_rust.Common.Word.{bias}
use kong_rust.Provider.Weighted.{weighted_round_robin_index}

pub record AiModel : Type 0 where
  pub id : ℕ
  pub priority : ℕ
  pub weight : ℕ
  pub max_input_tokens : Option ℕ
  pub enabled : Bool

pub record ModelHealth : Type 0 where
  pub consecutive_failures : ℕ
  pub cooldown_until : Option ℕ

abbrev pub healthy : ModelHealth
healthy = record { consecutive_failures = 0; cooldown_until = none }

pub is_available : ℕ → ModelHealth → Bool
is_available now h = elim h.cooldown_until [ none ↦ true | some t ↦ leb t now ]

pub enter_cooldown : ℕ → ℕ → ModelHealth → ModelHealth
enter_cooldown now duration h = record h { cooldown_until = some (now + duration) }

pub reset : ModelHealth → ModelHealth
reset h = record { consecutive_failures = 0; cooldown_until = none }

pub record ModelEntry : Type 0 where
  pub model : AiModel
  pub health : ModelHealth

pub record ModelGroupBalancer : Type 0 where
  pub entries : List ModelEntry
  pub counter : ℕ

-- Whether `a` sorts before `b`: by priority descending, then by id.
pub before : ModelEntry → ModelEntry → Bool
before a b =
    if nat_beq (bias a.model.priority) (bias b.model.priority)
    then leb a.model.id b.model.id
    else ltb (bias b.model.priority) (bias a.model.priority)

-- The stable sort, by insertion: an entry goes behind those that it is not before.
pub sort_entry : ModelEntry → List ModelEntry → List ModelEntry
sort_entry e [] = e ∷ []
sort_entry e (f ∷ fs) = let rest = sort_entry e fs in if before e f then e ∷ f ∷ fs else f ∷ rest

pub sort_entries : List ModelEntry → List ModelEntry
unfolding sort_entry before
sort_entries [] = []
sort_entries (e ∷ es) = sort_entry e (sort_entries es)

pub new : List AiModel → ModelGroupBalancer
unfolding sort_entries
new models = record {
  entries = sort_entries (map (λ model. record { model = model; health = healthy }) models);
  counter = 0;
}

abbrev pub budget_ok : ℕ → ℕ → Bool
budget_ok tokens cap = if not (ltb 0 cap && ltb cap 2147483648) then true else leb tokens cap

pub fits_token_budget : AiModel → Option ℕ → Bool
fits_token_budget model none = true
fits_token_budget model (some tokens) = elim model.max_input_tokens [
  | none ↦ true
  | some cap ↦ budget_ok tokens cap
]

-- Enabled, not cooling down, and the prompt fits.
pub eligible : ℕ → Option ℕ → ModelEntry → Bool
unfolding is_available fits_token_budget
eligible now prompt e =
    e.model.enabled && is_available now e.health && fits_token_budget e.model prompt

-- `dedup`: of equal neighbours the first stays.
pub dedup : List ℕ → List ℕ
dedup [] = []
dedup (p ∷ []) = p ∷ []
dedup (p ∷ q ∷ ps) = let rest = dedup (q ∷ ps) in if nat_beq p q then rest else p ∷ rest

pub tier : ℕ → Option ℕ → ℕ → List ModelEntry → List ModelEntry
unfolding eligible
tier now prompt priority = keep_if λ e. nat_beq e.model.priority priority && eligible now prompt e

-- `weight.max(0) as u32`.
abbrev pub weight_of : ModelEntry → ℕ
weight_of e = if ltb e.model.weight 2147483648 then e.model.weight else 0

pub data Selection : Type 0 where
  selected : ModelEntry → Selection
  empty_group : Selection
  unavailable : Selection
  panicked : Selection

abbrev pub at : List ModelEntry → Option ℕ → Selection
at candidates none = panicked
at candidates (some i) = elim (get_elem? candidates i) [ none ↦ panicked | some e ↦ selected e ]

-- The choice among the candidates of a tier.
pub pick : ℕ → List ModelEntry → Selection
pick sequence candidates =
    let weights = map weight_of candidates in
    if all (λ w. nat_beq w 0) weights
    then at candidates (some (sequence % length candidates))
    else at candidates (weighted_round_robin_index weights sequence)

-- The loop over the tiers; the counter moves once a tier has a candidate.
pub select_tier : ℕ → Option ℕ → ModelGroupBalancer → List ℕ → ModelGroupBalancer × Selection
unfolding tier pick
select_tier now prompt b [] = (b, unavailable)
select_tier now prompt b (p ∷ ps) =
    let rest = select_tier now prompt b ps in
    let candidates = tier now prompt p b.entries in
    if is_empty candidates
    then rest
    else (record b { counter = (b.counter + 1) % 18446744073709551616 }, pick b.counter candidates)

pub select_for : ℕ → Option ℕ → ModelGroupBalancer → ModelGroupBalancer × Selection
unfolding select_tier dedup
select_for now prompt b =
    if is_empty b.entries
    then (b, empty_group)
    else select_tier now prompt b (dedup (map (λ e. e.model.priority) b.entries))

pub select : ℕ → ModelGroupBalancer → ModelGroupBalancer × Selection
unfolding select_for
select now b = select_for now none b

-- `iter().find(…)` and a write through the found entry: the first one with the id.
pub on_entry : ℕ → (ModelHealth → ModelHealth) → List ModelEntry → List ModelEntry
on_entry id f [] = []
on_entry id f (e ∷ es) =
    let rest = on_entry id f es in
    if nat_beq e.model.id id then record e { health = f e.health } ∷ es else e ∷ rest

pub report_success : ℕ → ModelGroupBalancer → ModelGroupBalancer
unfolding on_entry reset
report_success id b = record b { entries = on_entry id reset b.entries }

-- `status == Some(429)`.
abbrev pub is_status_429 : Option ℕ → Bool
is_status_429 none = false
is_status_429 (some code) = nat_beq code 429

pub fail_health : ℕ → Option ℕ → ModelHealth → ModelHealth
unfolding enter_cooldown
fail_health now status h =
    let failures = (h.consecutive_failures + 1) % 4294967296 in
    let counted = record h { consecutive_failures = failures } in
    if is_status_429 status
    then enter_cooldown now 10_000_000_000 h
    else if leb 3 failures
    then enter_cooldown now 30_000_000_000 counted
    else counted

pub report_failure : ℕ → ℕ → Option ℕ → ModelGroupBalancer → ModelGroupBalancer
unfolding on_entry fail_health
report_failure now id status b = record b {
  entries = on_entry id (fail_health now status) b.entries;
}

pub is_empty_group : ModelGroupBalancer → Bool
is_empty_group b = is_empty b.entries
