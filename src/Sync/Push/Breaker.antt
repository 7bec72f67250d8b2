-- ===== src/Sync/Push/Breaker.antt =====
-- `MemoryCircuitBreaker` of push/limiter.ts. The clock's milliseconds are an argument of each call.
pub mod Probe
use channex_pms.Prelude.{
  ℕ, suc, ◌+◌, ◌≤◌, ◌<◌, ◌≡◌, ◌≢◌, ◌↔◌, refl, Bool, true, false, ◌||◌, Option, none, some, List, [],
  ◌∷◌, if◌then◌else◌, leb, nat_eq, arith, inl, inr, ◌==◌, Bool-cases, Option-cases,
}
use channex_pms.Prelude.Maps.{lookup, insert, lookup-insert}
use channex_pms.Inventory.{EntityId}

pub record BreakerOptions : Type 0 where
  pub failure_threshold : ℕ
  pub cooldown_ms : ℕ

pub data BreakerState : Type 0 where
  closed opened half_open : BreakerState

pub record BreakerEntry : Type 0 where
  pub failures : ℕ
  pub opened_at_ms : Option ℕ
  pub probing : Bool

abbrev pub fresh_entry : BreakerEntry
fresh_entry = record { failures = 0; opened_at_ms = none; probing = false }

abbrev pub Breakers : Type 0
Breakers = List (EntityId × BreakerEntry)

-- `entry(orgId)`: the organization's entry, created where it is missing.
abbrev pub entry_of : EntityId → Breakers → BreakerEntry
entry_of org orgs = elim (lookup org orgs) [ none ↦ fresh_entry | some e ↦ e ]

abbrev pub ensure_entry : EntityId → Breakers → Breakers
ensure_entry org orgs = elim (lookup org orgs) [
  | none ↦ insert org fresh_entry orgs
  | some e ↦ orgs
]

-- `now - openedAtMs >= cooldownMs`, with the subtraction moved across.
abbrev pub state_since : BreakerOptions → ℕ → Option ℕ → BreakerState
state_since opts now none = closed
state_since opts now (some at) = if leb (at + opts.cooldown_ms) now then half_open else opened

abbrev pub state : BreakerOptions → ℕ → EntityId → Breakers → BreakerState
state opts now org orgs = state_since opts now ((entry_of org orgs).opened_at_ms)

allow_in : BreakerState → EntityId → Breakers → Bool × Breakers
allow_in closed org orgs = (true, orgs)
allow_in opened org orgs = (false, orgs)
allow_in half_open org orgs =
    let e = entry_of org orgs in
    if e.probing then (false, orgs) else (true, insert org (record e { probing = true }) orgs)

unfoldable pub allow : BreakerOptions → ℕ → EntityId → Breakers → Bool × Breakers
unfolding allow_in
allow opts now org orgs = allow_in (state opts now org orgs) org (ensure_entry org orgs)

unfoldable pub on_success : EntityId → Breakers → Breakers
on_success org orgs = insert org fresh_entry orgs

abbrev is_set : Option ℕ → Bool
is_set none = false
is_set (some t) = true

abbrev failed_entry : BreakerOptions → ℕ → BreakerEntry → BreakerEntry
failed_entry opts now e = record {
  failures = suc e.failures;
  probing = false;
  opened_at_ms =
      if leb opts.failure_threshold (suc e.failures) || is_set e.opened_at_ms
      then some now
      else e.opened_at_ms;
}

unfoldable pub on_failure : BreakerOptions → ℕ → EntityId → Breakers → Breakers
on_failure opts now org orgs = insert org (failed_entry opts now (entry_of org orgs)) orgs

-- Failures reported one after the other at the listed times.
unfoldable pub failures_at : BreakerOptions → List ℕ → EntityId → Breakers → Breakers
failures_at opts [] org orgs = orgs
failures_at opts (t ∷ ts) org orgs = failures_at opts ts org (on_failure opts t org orgs)
