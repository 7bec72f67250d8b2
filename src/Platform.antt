-- ===== src/Platform.antt =====
-- packages/core/src/platform/lifecycle.ts: the tenant's state machine and the dunning schedule.
pub mod Dunning
mod Tests
use channex_pms.Prelude.{
  ℕ, zero, suc, ◌+◌, Bool, true, false, Option, none, some, leb, List, [], ◌∷◌, if◌then◌else◌,
  get_elem?, length, ltb, arith,
}
use channex_pms.Shared.Date.{LocalDate}

pub data TenantState : Type 0 where
  trial active past_due suspended expired offboarding : TenantState

pub data TenantEvent : Type 0 where
  plan_chosen trial_ended payment_failed payment_recovered dunning_exhausted : TenantEvent
  reactivated offboarding_requested retention_expired : TenantEvent

-- `nextTenantState`; null is `none`.
unfoldable pub next_tenant_state : TenantState → TenantEvent → Option TenantState
next_tenant_state trial plan_chosen = some active
next_tenant_state trial trial_ended = some expired
next_tenant_state active payment_failed = some past_due
next_tenant_state active offboarding_requested = some offboarding
next_tenant_state past_due payment_recovered = some active
next_tenant_state past_due dunning_exhausted = some suspended
next_tenant_state past_due offboarding_requested = some offboarding
next_tenant_state expired plan_chosen = some active
next_tenant_state expired offboarding_requested = some offboarding
next_tenant_state expired retention_expired = some offboarding
next_tenant_state suspended reactivated = some active
next_tenant_state suspended payment_recovered = some active
next_tenant_state suspended offboarding_requested = some offboarding
next_tenant_state suspended retention_expired = some offboarding
next_tenant_state _ _ = none

unfoldable pub sync_runs_in : TenantState → Bool
sync_runs_in offboarding = false
sync_runs_in _ = true

pub data ConsoleAccess : Type 0 where
  full billing_only : ConsoleAccess

unfoldable pub console_access : TenantState → ConsoleAccess
console_access suspended = billing_only
console_access expired = billing_only
console_access _ = full

-- `DUNNING`.
abbrev pub retry_days : List ℕ
retry_days = 3 ∷ 5 ∷ 7 ∷ []

abbrev pub last_retry : ℕ
last_retry = 7

abbrev pub grace_days : ℕ
grace_days = 14

pub data DunningStep : Type 0 where
  retry : (attempt : ℕ) (due_on : LocalDate) → DunningStep
  grace : (suspend_on : LocalDate) → DunningStep
  suspend : DunningStep
  nothing : DunningStep

-- The step with `retryDays[retriesDone]`, where there is one, or after the last retry.
abbrev step_at : Option ℕ → LocalDate → ℕ → LocalDate → DunningStep
step_at (some days) failed_on retries_done today =
    if leb (failed_on + days) today then retry (suc retries_done) (failed_on + days) else nothing
step_at none failed_on retries_done today =
    if leb (failed_on + (last_retry + grace_days)) today
    then suspend
    else grace (failed_on + (last_retry + grace_days))

unfoldable pub dunning_step : LocalDate → ℕ → LocalDate → DunningStep
dunning_step failed_on retries_done today =
    step_at (get_elem? retry_days retries_done) failed_on retries_done today

unfoldable pub trial_ends_on : LocalDate → ℕ → LocalDate
trial_ends_on created_at trial_days = created_at + trial_days
