-- ===== src/Platform/Tests.antt =====
-- The theorems on dunning at a failed payment and at the life of a tenant.
use channex_pms.Prelude.{ℕ, ◌+◌, ◌≤◌, ◌<◌, ◌≡◌, ◌↔◌, refl, some, List, [], ◌∷◌, ◌++◌}
use channex_pms.Shared.Date.{LocalDate}
use channex_pms.Platform.{
  trial, past_due, suspended, TenantEvent, plan_chosen, payment_failed, dunning_exhausted,
  next_tenant_state, retry, suspend, dunning_step,
}
use channex_pms.Platform.Dunning.{run, dunning_step_iff, run-suspension}

dunning_step_iff_example :
    ((dunning_step 100 1 106 ≡ suspend) ↔ ((3 ≤ 1) × (100 + 21 ≤ 106)))
    × ((attempt : ℕ) (due_on : LocalDate)
        → (dunning_step 100 1 106 ≡ retry attempt due_on)
          ↔ ((attempt ≡ 1 + 1) × (1 < 3) × (due_on ≡ 100 + (3 + (1 + 1))) × (due_on ≤ 106)))
dunning_step_iff_example = dunning_step_iff 100 106 1

abbrev decline : List TenantEvent
decline = plan_chosen ∷ payment_failed ∷ dunning_exhausted ∷ []

decline-suspended : run trial decline ≡ some suspended
unfolding run next_tenant_state
decline-suspended = refl

run-suspension_example :
    (before : List TenantEvent) × (after : List TenantEvent) × (decline
      ≡ before ++ dunning_exhausted ∷ after)
    × (run trial before ≡ some past_due)
run-suspension_example = run-suspension trial decline decline-suspended (λ x. cc)
