-- ===== src/Provider/Group/Cooldown.antt =====
-- Failures, cooldowns and recovery of one model of crates/kong-ai/src/provider/balancer.rs.
use mathlib.Core.Option
use kong_rust.Common.{
  ℕ, ◌+◌, ◌≤◌, ◌<◌, ◌≡◌, ◌∙◌, refl, Bool, true, false, Option, none, some, List, [], ◌∷◌, arith,
  if◌then◌else◌, leb, nat_beq, nat_beq_iff, length,
}
use kong_rust.Provider.Group.{
  ModelHealth, healthy, ModelEntry, ModelGroupBalancer, is_available, is_status_429, fail_health,
  reset, enter_cooldown, on_entry, report_success, report_failure,
}

-- The health that the balancer keeps for a model: that of the first entry with the id.
unfoldable pub health_of : ℕ → List ModelEntry → Option ModelHealth
health_of id [] = none
health_of id (e ∷ es) = if nat_beq e.model.id id then some e.health else health_of id es

health_of-on_entry :
    (id other : ℕ) (f : ModelHealth → ModelHealth) (es : List ModelEntry)
    → health_of other (on_entry id f es)
      ≡ (if nat_beq id other then Option.map f (health_of other es) else health_of other es)
unfolding health_of on_entry
health_of-on_entry id other f [] = ground arith
health_of-on_entry id other f (e ∷ es) = ground (arith, health_of-on_entry id other f es)

-- A failure report changes the health of the model that it names and of no other.
pub health_of-report_failure :
    (now id other : ℕ) (status : Option ℕ) (b : ModelGroupBalancer)
    → health_of other (report_failure now id status b).entries ≡ (
        if nat_beq id other
        then Option.map (fail_health now status) (health_of other b.entries)
        else health_of other b.entries)
unfolding report_failure
health_of-report_failure now id other status b =
    health_of-on_entry id other (fail_health now status) b.entries

pub health_of-report_success :
    (id other : ℕ) (b : ModelGroupBalancer)
    → health_of other (report_success id b).entries ≡ (
        if nat_beq id other
        then Option.map reset (health_of other b.entries)
        else health_of other b.entries)
unfolding report_success
health_of-report_success id other b = health_of-on_entry id other reset b.entries

-- The availability of a model that may be missing.
abbrev pub available_in : ℕ → Option ModelHealth → Bool
available_in now none = false
available_in now (some h) = is_available now h

abbrev pub is_some : Option ModelHealth → Bool
is_some none = false
is_some (some h) = true

-- What the balancer says of a model at a time.
unfoldable pub available_at : ℕ → ℕ → ModelGroupBalancer → Bool
available_at now id b = available_in now (health_of id b.entries)

unfoldable pub present : ℕ → ModelGroupBalancer → Bool
present id b = is_some (health_of id b.entries)

same_id_429 :
    (now later id : ℕ) (o : Option ModelHealth)
    → is_some o ≡ true
    → available_in later (if nat_beq id id then Option.map (fail_health now (some 429)) o else o)
      ≡ leb (now + 10_000_000_000) later
unfolding fail_health enter_cooldown is_available
same_id_429 now later id none h = cc
same_id_429 now later id (some g) h = ground arith

same_id_reset :
    (later id : ℕ) (o : Option ModelHealth)
    → is_some o ≡ true
    → available_in later (if nat_beq id id then Option.map reset o else o) ≡ true
unfolding reset is_available
same_id_reset later id none h = cc
same_id_reset later id (some g) h = ground arith

-- A rate limit answer (429) puts a model in cooldown for exactly ten seconds from the report,
-- whatever its cooldown was before: a longer one that is running is cut short.
pub available_at-rate_limited :
    (now later id : ℕ) (b : ModelGroupBalancer)
    → present id b ≡ true
    → available_at later id (report_failure now id (some 429) b) ≡ leb (now + 10_000_000_000) later
unfolding available_at present
available_at-rate_limited now later id b h =
    rw (health_of-report_failure now id id (some 429) b)
      (same_id_429 now later id (health_of id b.entries) h)

-- A success makes a model available at once.
pub available_at-report_success :
    (later id : ℕ) (b : ModelGroupBalancer)
    → present id b ≡ true
    → available_at later id (report_success id b) ≡ true
unfolding available_at present
available_at-report_success later id b h =
    rw (health_of-report_success id id b) (same_id_reset later id (health_of id b.entries) h)

-- The time of a failure and its status, if it has one.
pub record Failure : Type 0 where
  pub time : ℕ
  pub status : Option ℕ

-- None of the failures is a rate limit.
abbrev pub AreOther : List Failure → Type 0
AreOther [] = Unit {0}
AreOther (f ∷ fs) = (is_status_429 f.status ≡ false) × AreOther fs

-- Failures, one after the other.
abbrev pub fail_times : ℕ → List Failure → ModelGroupBalancer → ModelGroupBalancer
fail_times id [] b = b
fail_times id (f ∷ fs) b = fail_times id fs (report_failure f.time id f.status b)

abbrev fail_all : List Failure → ModelHealth → ModelHealth
fail_all [] h = h
fail_all (f ∷ fs) h = fail_all fs (fail_health f.time f.status h)

abbrev pub last_of : ℕ → List Failure → ℕ
last_of t [] = t
last_of t (f ∷ fs) = last_of f.time fs

-- One failure: the count goes up, and from the third on a cooldown starts.
one_failure :
    (f : Failure) (h : ModelHealth)
    → is_status_429 f.status ≡ false
    → h.consecutive_failures < 4294967295
    → ((fail_health f.time f.status h).consecutive_failures ≡ h.consecutive_failures + 1)
      × ((fail_health f.time f.status h).cooldown_until ≡ (
          if leb 3 (h.consecutive_failures + 1)
          then some (f.time + 30_000_000_000)
          else h.cooldown_until))
unfolding fail_health enter_cooldown
one_failure f h o m = rw o (ground arith)

fail_all-many :
    (t : ℕ) (fs : List Failure) (h : ModelHealth)
    → AreOther fs
    → h.consecutive_failures + length fs < 4294967296
    → 3 ≤ h.consecutive_failures
    → h.cooldown_until ≡ some (t + 30_000_000_000)
    → (fail_all fs h).cooldown_until ≡ some (last_of t fs + 30_000_000_000)
fail_all-many t [] h o m g c = c
fail_all-many t (f ∷ fs) h o m g c =
    let step = one_failure f h o.0 (omega arith) in
    fail_all-many f.time fs (fail_health f.time f.status h) o.1 (omega (arith, step.0))
      (omega (arith, step.0)) (ground (arith, step.1))

fail_all-two :
    (t u : Failure) (h : ModelHealth)
    → AreOther (t ∷ u ∷ [])
    → h.consecutive_failures ≡ 0
    → (fail_all (t ∷ []) h).cooldown_until ≡ h.cooldown_until
      × ((fail_all (t ∷ u ∷ []) h).cooldown_until ≡ h.cooldown_until)
      × ((fail_all (t ∷ u ∷ []) h).consecutive_failures ≡ 2)
fail_all-two t u h o z =
    let first = one_failure t h o.0 (omega arith) in
    let second = one_failure u (fail_health t.time t.status h) o.1.0 (omega (arith, first.0)) in
    (
      ground (arith, first.1),
      ground (arith, first.0, first.1, second.1),
      omega (arith, first.0, second.0),
    )

-- The third failure, and each one after it, starts the cooldown anew.
fail_all-three :
    (t u v : Failure) (fs : List Failure) (h : ModelHealth)
    → AreOther (t ∷ u ∷ v ∷ fs)
    → h.consecutive_failures ≡ 0
    → length fs < 4294967290
    → (fail_all (t ∷ u ∷ v ∷ fs) h).cooldown_until ≡ some (last_of v.time fs + 30_000_000_000)
fail_all-three t u v fs h o z m =
    let two = (fail_all-two t u h (o.0, (o.1.0, tt)) z).2 in
    let step = one_failure v (fail_all (t ∷ u ∷ []) h) o.1.1.0 (omega (arith, two)) in
    fail_all-many v.time fs (fail_all (t ∷ u ∷ v ∷ []) h) o.1.1.1 (omega (arith, two, step.0))
      (omega (arith, two, step.0)) (ground (arith, two, step.1))

map_same : (o : Option ModelHealth) → o ≡ Option.map (fail_all []) o
map_same none = refl
map_same (some h) = refl

map_step :
    (id : ℕ) (f : Failure) (fs : List Failure) (o : Option ModelHealth)
    → Option.map
        (fail_all fs)
        (if nat_beq id id then Option.map (fail_health f.time f.status) o else o)
      ≡ Option.map (fail_all (f ∷ fs)) o
map_step id f fs none = ground arith
map_step id f fs (some h) = rw ((nat_beq_iff id id).1 refl) refl

-- A cooldown read at a time.
abbrev past : Option ℕ → ℕ → Bool
past none later = true
past (some t) later = leb t later

past_of :
    (c until : Option ℕ) (later : ℕ)
    → c ≡ until
    → elim c [ none ↦ true | some t ↦ leb t later ] ≡ past until later
past_of none until later e = rw (← e) refl
past_of (some t) until later e = rw (← e) refl

after_reset :
    (later id : ℕ) (ts : List Failure) (until : Option ℕ) (o : Option ModelHealth)
    → is_some o ≡ true
    → (fail_all ts healthy).cooldown_until ≡ until
    → available_in later
        (Option.map (fail_all ts) (if nat_beq id id then Option.map reset o else o))
      ≡ past until later
unfolding reset is_available
after_reset later id ts until none h e = cc
after_reset later id ts until (some g) h e =
    rw ((nat_beq_iff id id).1 refl) (past_of (fail_all ts healthy).cooldown_until until later e)

health_of-fail_times :
    (id : ℕ) (ts : List Failure) (b : ModelGroupBalancer)
    → health_of id (fail_times id ts b).entries ≡ Option.map (fail_all ts) (health_of id b.entries)
health_of-fail_times id [] b = map_same (health_of id b.entries)
health_of-fail_times id (t ∷ ts) b =
    health_of-fail_times id ts (report_failure t.time id t.status b)
    ∙ rw (health_of-report_failure t.time id id t.status b)
        (map_step id t ts (health_of id b.entries))

-- After a success, one or two failures, of any status but 429 or of none, leave a model that is
-- present available. From the third such failure on, it is available again exactly thirty seconds after
-- the last one, however many there were (fewer than 4,294,967,290 after the third) and whenever they
-- came.
pub available_at-fail_times :
    (later id : ℕ) (t u v : Failure) (ts : List Failure) (b : ModelGroupBalancer)
    → present id b ≡ true
    → AreOther (t ∷ u ∷ v ∷ ts)
    → length ts < 4294967290
    → (available_at later id (fail_times id (t ∷ []) (report_success id b)) ≡ true)
      × (available_at later id (fail_times id (t ∷ u ∷ []) (report_success id b)) ≡ true)
      × (available_at later id (fail_times id (t ∷ u ∷ v ∷ ts) (report_success id b))
          ≡ leb (last_of v.time ts + 30_000_000_000) later)
unfolding available_at present
available_at-fail_times later id t u v ts b h o m = (
  rw (health_of-fail_times id (t ∷ []) (report_success id b), health_of-report_success id id b)
      (after_reset later id (t ∷ []) none (health_of id b.entries) h
        (fail_all-two t u healthy (o.0, (o.1.0, tt)) refl).0),
  rw (health_of-fail_times id (t ∷ u ∷ []) (report_success id b), health_of-report_success id id b)
      (after_reset later id (t ∷ u ∷ []) none (health_of id b.entries) h
        (fail_all-two t u healthy (o.0, (o.1.0, tt)) refl).1),
  rw
      (
        health_of-fail_times id (t ∷ u ∷ v ∷ ts) (report_success id b),
        health_of-report_success id id b,
      )
      (after_reset later id (t ∷ u ∷ v ∷ ts) (some (last_of v.time ts + 30_000_000_000))
        (health_of id b.entries) h (fail_all-three t u v ts healthy o refl m)),
)
