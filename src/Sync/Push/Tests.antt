-- ===== src/Sync/Push/Tests.antt =====
-- The theorems on the circuit breaker and the store at small runs.
use channex_pms.Prelude.{
  ℕ, ◌+◌, ◌<◌, ◌≤◌, ◌≡◌, ◌↔◌, refl, false, none, some, List, [], ◌∷◌, length, leb, nat_eq, pair_eq,
  arith,
}
use channex_pms.Prelude.Int.{pos}
use channex_pms.Prelude.Maps.{lookup}
use channex_pms.Inventory.{RestrictionValues, rate, num, no_values, with_field}
use channex_pms.Sync.Apply.{spread}
use channex_pms.Sync.Push.Breaker.{
  BreakerOptions, closed, Breakers, state, allow, on_failure, on_success, failures_at,
}
use channex_pms.Sync.Push.Breaker.Probe.{
  allow-single_probe, failures_at-closed_iff, failures_at-allow,
}
use channex_pms.Sync.Push.Store.{
  Row, AriStore, empty_store, set_rate, mark_in_flight, apply_outcomes, CellOutcome, was_synced,
  edited_row,
}
use channex_pms.Sync.Push.Store.Steps.{
  Steps, stay, step, edit_rate, send, settle, AllRows, IsHonest, reachable-AllHonest,
}
use channex_pms.Sync.Push.Store.Edits.{rate_ref, Steps-version}

abbrev opts : BreakerOptions
opts = record { failure_threshold = 2; cooldown_ms = 60 }

abbrev tripped : Breakers
tripped = (1, record { failures = 2; opened_at_ms = some 100; probing = false }) ∷ []

allow-single_probe_example : (allow opts 190 1 ((allow opts 170 1 tripped).1)).0 ≡ false
allow-single_probe_example = allow-single_probe opts 170 190 1 tripped (omega arith) refl

abbrev times : List ℕ
times = 10 ∷ 20 ∷ []

failures_at-closed_iff_example :
    (state opts 50 1 (failures_at opts times 1 (on_success 1 tripped)) ≡ closed)
    ↔ (length times < opts.failure_threshold)
failures_at-closed_iff_example = failures_at-closed_iff opts 50 times 1 tripped (omega arith)

failures_at-allow_example :
    (allow opts 90 1 (on_failure opts 30 1 (failures_at opts times 1 (on_success 1 tripped)))).0
    ≡ leb (30 + opts.cooldown_ms) 90
failures_at-allow_example = failures_at-allow opts 90 30 times 1 tripped (omega arith)

abbrev price : RestrictionValues
price = with_field rate (some (num (pos 9900))) no_values

abbrev edited : AriStore
edited = set_rate 7 3 price empty_store

abbrev sent : AriStore
sent = mark_in_flight ((rate_ref 7 3, 1) ∷ []) edited

abbrev accepted : List CellOutcome
accepted = record { cell = rate_ref 7 3; outcome_version = 1; status = was_synced } ∷ []

abbrev pushed : AriStore
pushed = apply_outcomes accepted sent

abbrev pushing : Steps edited pushed
pushing =
    step edited sent pushed (send edited ((rate_ref 7 3, 1) ∷ []))
      (step sent pushed pushed (settle sent accepted) (stay pushed))

reachable-AllHonest_example : AllRows IsHonest pushed
reachable-AllHonest_example =
    reachable-AllHonest pushed
      (step empty_store edited pushed (edit_rate empty_store 7 3 price) pushing)

abbrev first_row : Row RestrictionValues
first_row = edited_row none (spread no_values price)

edited-found : lookup (7, 3) edited.rate_rows ≡ some first_row
unfolding set_rate
edited-found = refl

Steps-version_example :
    (r' : Row RestrictionValues) × (lookup (7, 3) pushed.rate_rows ≡ some r')
    × (first_row.version ≤ r'.version)
    × (r'.version ≡ first_row.version → r'.desired ≡ first_row.desired)
Steps-version_example = Steps-version edited pushed (7, 3) first_row pushing edited-found
