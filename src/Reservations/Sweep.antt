-- ===== src/Reservations/Sweep.antt =====
-- `ackSweep` of packages/core/src/reservations/ingest.ts.
use channex_pms.Prelude.{
  ℕ, suc, ◌+◌, ◌-◌, Option, none, some, List, [], ◌∷◌, ◌++◌, if◌then◌else◌, leb,
}
use channex_pms.Shared.Result.{ok, err}
use channex_pms.Reservations.Repository.{StoredRevision, mark_acked, list_unacked}
use channex_pms.Reservations.Ingest.{
  IngestDeps, IngestState, Outcome, and_then, port_fault, ack_lagging, ack_asked, log_effect, raise,
}

abbrev pub ack_sweep_after_ms : ℕ
ack_sweep_after_ms = 300000

abbrev pub ack_alert_after_ms : ℕ
ack_alert_after_ms = 600000

pub record SweepSummary : Type 0 where
  pub swept : ℕ
  pub lagging : ℕ
  pub failed : ℕ

module _ (deps : IngestDeps) where
  -- The summary, unless the alert threw.
  abbrev pub unless_fault : SweepSummary → IngestState × Option ℕ → Outcome SweepSummary
  unless_fault s (st, some x) = (st, err (port_fault x))
  unless_fault s (st, none) = (st, ok s)

  -- The alert of a revision that is late.
  abbrev pub alert_lagging : ℕ → StoredRevision → SweepSummary → IngestState → Outcome SweepSummary
  alert_lagging now r s st =
      let age = now - r.received_at in
      if leb ack_alert_after_ms age
      then unless_fault (record s { lagging = s.lagging + 1 })
          (raise deps (ack_lagging r.stored_id r.stored_property age) st)
      else (st, ok s)

  abbrev pub ask_again : StoredRevision → SweepSummary → IngestState → SweepSummary × IngestState
  ask_again r s st = elim (deps.ack_fault st.effects) [
    | some x ↦
        (record s { failed = s.failed + 1 }, log_effect (ack_asked (r.channex_revision_id ∷ [])) st)
    | none ↦ (
      record s { swept = s.swept + 1 },
      record st {
        repo = mark_acked (r.channex_revision_id ∷ []) (deps.time_of st.readings) st.repo;
        readings = suc st.readings;
        effects = st.effects ++ ack_asked (r.channex_revision_id ∷ []) ∷ [];
      },
    )
  ]

  unfoldable pub sweep_all :
      ℕ → List StoredRevision → SweepSummary → IngestState → Outcome SweepSummary
  sweep_all now [] s st = (st, ok s)
  sweep_all now (r ∷ rs) s st =
      and_then (alert_lagging now r s st)
        (λ s' st'. sweep_all now rs (ask_again r s' st').0 (ask_again r s' st').1)

  -- The instants are at least five minutes after the epoch; `list_unacked` compares their texts.
  unfoldable pub ack_sweep : IngestState → Outcome SweepSummary
  ack_sweep st =
      let now = deps.time_of st.readings in
      let stale = list_unacked (now - ack_sweep_after_ms) st.repo in
      sweep_all now stale (record { swept = 0; lagging = 0; failed = 0 })
        (record st { readings = suc st.readings })
