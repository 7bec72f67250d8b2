-- ===== src/Channels.antt =====
-- packages/core/src/channels/state.ts: the connection state machine, with the states and events of
-- channels/types.ts.
pub mod Runs
mod Tests
use channex_pms.Prelude.{◌≡◌, Bool, true, false, List, [], ◌∷◌}
use channex_pms.Shared.Result.{Result, ok, err}

pub data ConnectionState : Type 0 where
  draft testing mapped active paused error removed : ConnectionState

pub data ConnectionEvent : Type 0 where
  test_ok test_failed mappings_saved readiness_ok readiness_failed : ConnectionEvent
  activated pausing resumed provider_error recovered removing : ConnectionEvent

-- `cannot <event> a <state> connection`.
pub record TransitionError : Type 0 where
  pub event : ConnectionEvent
  pub state : ConnectionState

-- The table of transitions and its lookup; the events `paused` and `removed` are `pausing` and
-- `removing`.
unfoldable pub transition :
    ConnectionState → ConnectionEvent → Result ConnectionState TransitionError
transition draft test_ok = ok testing
transition draft test_failed = ok draft
transition draft removing = ok removed
transition testing mappings_saved = ok mapped
transition testing test_failed = ok draft
transition testing removing = ok removed
transition mapped readiness_ok = ok mapped
transition mapped readiness_failed = ok mapped
transition mapped activated = ok active
transition mapped mappings_saved = ok mapped
transition mapped removing = ok removed
transition active pausing = ok paused
transition active provider_error = ok error
transition active mappings_saved = ok active
transition active readiness_ok = ok active
transition active readiness_failed = ok error
transition active removing = ok removed
transition paused resumed = ok active
transition paused mappings_saved = ok paused
transition paused removing = ok removed
transition error recovered = ok active
transition error readiness_ok = ok active
transition error pausing = ok paused
transition error mappings_saved = ok error
transition error readiness_failed = ok error
transition error provider_error = ok error
transition error removing = ok removed
transition state event = err (record { event = event; state = state })

abbrev pub can_push : ConnectionState → Bool
can_push active = true
can_push _ = false

-- The state after a sequence of events, the first illegal one ending it.
unfoldable pub run : ConnectionState → List ConnectionEvent → Result ConnectionState TransitionError
run s [] = ok s
run s (e ∷ es) = elim (transition s e) [ ok t ↦ run t es | err x ↦ err x ]
