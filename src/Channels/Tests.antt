-- ===== src/Channels/Tests.antt =====
-- The theorem on runs at the life of a connection.
use channex_pms.Prelude.{◌≡◌, refl, List, [], ◌∷◌, ◌++◌}
use channex_pms.Shared.Result.{ok}
use channex_pms.Channels.{
  draft, mapped, active, ConnectionEvent, test_ok, mappings_saved, readiness_ok, activated,
  provider_error, recovered, transition, run,
}
use channex_pms.Channels.Runs.{run-activation}

abbrev life : List ConnectionEvent
life = test_ok ∷ mappings_saved ∷ readiness_ok ∷ activated ∷ provider_error ∷ recovered ∷ []

life-ok : run draft life ≡ ok active
unfolding run transition
life-ok = refl

run-activation_example :
    (before : List ConnectionEvent) × (after : List ConnectionEvent) × (life
      ≡ before ++ activated ∷ after)
    × (run draft before ≡ ok mapped)
run-activation_example = run-activation draft active life life-ok refl refl
