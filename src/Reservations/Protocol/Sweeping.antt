-- ===== src/Reservations/Protocol/Sweeping.antt =====
-- `ackSweep` as a run of the protocol.
use channex_pms.Prelude.{
  ℕ, suc, ◌-◌, true, none, some, List, [], ◌∷◌, nat_eq, contains, ◌≡◌, refl, All, Option-cases, inl,
  inr,
}
use channex_pms.Reservations.Repository.{StoredRevision, list_unacked}
use channex_pms.Reservations.Ingest.{IngestDeps, IngestState}
use channex_pms.Reservations.Sweep.{
  SweepSummary, alert_lagging, ask_again, sweep_all, ack_sweep, ack_sweep_after_ms,
}
use channex_pms.Reservations.Protocol.{
  view, stored_ids, asks_ack, is_acked, alerts, Protocol, rests, Protocol-trans, step_only,
}
use channex_pms.Reservations.Protocol.Ingest.{and_then-Protocol}
use channex_pms.Reservations.Protocol.Acks.{stored_ids-mark_acked}
use channex_pms.Reservations.Protocol.Sweep.{alert_lagging-cases, list_unacked-stored}

module _ (deps : IngestDeps) where
  ask_again-Protocol :
      (r : StoredRevision) (s : SweepSummary) (st : IngestState)
      → contains r.channex_revision_id (stored_ids st.repo) ≡ true
      → Protocol (view st) (view (ask_again deps r s st).1)
        × (stored_ids (ask_again deps r s st).1.repo ≡ stored_ids st.repo)
  ask_again-Protocol r s st c =
      let id = r.channex_revision_id in
      elim (Option-cases (deps.ack_fault st.effects)) [
        | inr (x, h) ↦ rw (h, ask_again) (step_only (asks_ack (view st) id c), refl)
        | inl n ↦
            rw (n, ask_again)
              (
                step_only (is_acked (view st) id (deps.time_of st.readings) c),
                stored_ids-mark_acked (id ∷ []) (deps.time_of st.readings) st.repo,
              )
      ]

  alert_lagging-Protocol :
      (now : ℕ) (r : StoredRevision) (s : SweepSummary) (st : IngestState)
      → Protocol (view st) (view (alert_lagging deps now r s st).0)
        × ((alert_lagging deps now r s st).0.repo ≡ st.repo)
  alert_lagging-Protocol now r s st = elim (alert_lagging-cases deps now r s st) [
    | inl (s', h) ↦ rw h (rests, refl)
    | inr (s', a, none, q, h) ↦ rw h (step_only (alerts (view st) a), refl)
    | inr (s', a, some x, q, h) ↦ rw h (step_only (alerts (view st) a), refl)
  ]

  sweep_all-Protocol :
      (now : ℕ) (rs : List StoredRevision) (s : SweepSummary) (st : IngestState)
      → All (λ r. contains r.channex_revision_id (stored_ids st.repo) ≡ true) rs
      → Protocol (view st) (view (sweep_all deps now rs s st).0)
  unfolding sweep_all
  sweep_all-Protocol now [] s st h = rests
  sweep_all-Protocol now (r ∷ rs) s st (c, h) =
      let o = alert_lagging deps now r s st in
      let (p, same) = alert_lagging-Protocol now r s st in
      and_then-Protocol (view st) o _ p (λ s' e.
        let (q, kept) = ask_again-Protocol r s' o.0 (rw same c) in
        Protocol-trans q (
          sweep_all-Protocol now rs (ask_again deps r s' o.0).0 (ask_again deps r s' o.0).1
            (rw (kept, same) h)))

  -- Every sweep, whether it returns or throws, is a run of the protocol as well: it only asks the
  -- provider to acknowledge stored revisions.
  pub ack_sweep-Protocol : (st : IngestState) → Protocol (view st) (view (ack_sweep deps st).0)
  unfolding ack_sweep
  ack_sweep-Protocol st =
      let before = deps.time_of st.readings - ack_sweep_after_ms in
      sweep_all-Protocol (deps.time_of st.readings) (list_unacked before st.repo)
        (record { swept = 0; lagging = 0; failed = 0 }) (record st { readings = suc st.readings })
        (list_unacked-stored before st.repo)
