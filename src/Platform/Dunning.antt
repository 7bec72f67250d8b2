-- ===== src/Platform/Dunning.antt =====
-- `dunningStep` and `nextTenantState` of packages/core/src/platform/lifecycle.ts.
use channex_pms.Prelude.{
  ℕ, zero, suc, ◌+◌, ◌≤◌, ◌<◌, ◌≡◌, ◌↔◌, refl, Option, none, some, List, [], ◌∷◌, ◌⊎◌, inl, inr,
  arith, ◌++◌, ap, Option-cases, ◌∙◌,
}
use channex_pms.Shared.Date.{LocalDate}
use channex_pms.Platform.{
  TenantState, trial, active, past_due, suspended, expired, offboarding, TenantEvent,
  dunning_exhausted, next_tenant_state, retry, suspend, dunning_step,
}

-- A tenant is suspended exactly when all three retries have run and today is at least 21 days
-- after the failure; a retry is asked for exactly while fewer have run and the next one's day, 3, 5
-- or 7 days after the failure, has come.
pub dunning_step_iff :
    (failed_on today : LocalDate) (retries : ℕ)
    → ((dunning_step failed_on retries today ≡ suspend)
        ↔ ((3 ≤ retries) × (failed_on + 21 ≤ today)))
      × ((attempt : ℕ) (due_on : LocalDate)
          → (dunning_step failed_on retries today ≡ retry attempt due_on) ↔ (
              (attempt ≡ retries + 1)
              × (retries < 3)
              × (due_on ≡ failed_on + (3 + (retries + retries)))
              × (due_on ≤ today)))
unfolding dunning_step
dunning_step_iff failed_on today zero = (ground arith, λ a d. ground arith)
dunning_step_iff failed_on today (suc zero) = (ground arith, λ a d. ground arith)
dunning_step_iff failed_on today (suc (suc zero)) = (ground arith, λ a d. ground arith)
dunning_step_iff failed_on today (suc (suc (suc n))) = (ground arith, λ a d. ground arith)

-- The state after a sequence of events, each of which must be legal.
unfoldable pub run : TenantState → List TenantEvent → Option TenantState
run s [] = some s
run s (e ∷ es) = elim (next_tenant_state s e) [ none ↦ none | some t ↦ run t es ]

next_tenant_state-suspended :
    (s : TenantState) (e : TenantEvent)
    → next_tenant_state s e ≡ some suspended
    → (s ≡ past_due) × (e ≡ dunning_exhausted)
unfolding next_tenant_state
next_tenant_state-suspended s e h = ground arith

-- A run of legal events that ends in suspension from another state has passed the exhaustion of
-- dunning in the state `past_due`.
pub run-suspension :
    (s : TenantState) (es : List TenantEvent)
    → run s es ≡ some suspended
    → (s ≡ suspended → ⊥)
    → (before : List TenantEvent) × (after : List TenantEvent) × (es
        ≡ before ++ dunning_exhausted ∷ after)
      × (run s before ≡ some past_due)
unfolding run
run-suspension s [] h n = let no : ⊥ = n (ground arith) in elim no [ ]
run-suspension s (e ∷ es) h n = elim (Option-cases (next_tenant_state s e)) [
  | inl q ↦ let no : ⊥ = ground (arith, q) in elim no [ ]
  | inr (u, q) ↦
      let rest : run u es ≡ some suspended = ground (arith, q) in
      elim (suspended-cases u) [
        | inl y ↦
            let (m, v) = next_tenant_state-suspended s e (q ∙ ap some y) in
            ([], es, ap (λ x. x ∷ es) v, ap some m)
        | inr z ↦
            let (before, after, split, there) = run-suspension u es rest z in
            (e ∷ before, after, ap (λ xs. e ∷ xs) split, rw (q, run) there)
      ]
]
  where
    suspended-cases : (u : TenantState) → (u ≡ suspended) ⊎ (u ≡ suspended → ⊥)
    suspended-cases suspended = inl refl
    suspended-cases trial = inr (λ x. cc)
    suspended-cases active = inr (λ x. cc)
    suspended-cases past_due = inr (λ x. cc)
    suspended-cases expired = inr (λ x. cc)
    suspended-cases offboarding = inr (λ x. cc)
