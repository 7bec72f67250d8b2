-- ===== src/Reservations/Ingest.antt =====
-- packages/core/src/reservations/ingest.ts. The provider, the alerts and the clock are behind ports:
-- what they answer is a function of what was done before them.
mod State
pub use State.*
use channex_pms.Prelude.{
  ℕ, zero, suc, ◌+◌, Bool, true, false, not, Option, none, some, List, [], ◌∷◌, ◌++◌, if◌then◌else◌,
  ltb, nat_eq, contains, length,
}
use channex_pms.Shared.Result.{Result, ok, err}
use channex_pms.Inventory.{EntityId}
use channex_pms.Reservations.{
  Revision, Projection, MappingState, mapped, RevisionDiff, is_newer_than, project_revision,
  diff_projection,
}
use channex_pms.Reservations.Repository.{
  DomainEvent, revision_applied, booking_unmapped, BookingRepo, RevisionInput,
  find_revision_by_system_id, load_projection, apply_revision, mark_acked,
}

module _ (deps : IngestDeps) where
  -- The transaction.
  abbrev pub commit : RevisionInput → IngestSummary → IngestState → Outcome IngestSummary
  commit input s st = elim (apply_revision input (deps.generated_id st.generated) st.repo) [
    | err n ↦ (st, err (duplicate_system_id n))
    | ok repo ↦ (
      record st {
        repo = repo;
        generated = suc st.generated;
        effects = st.effects ++ committed input.revision ∷ [];
      },
      ok s,
    )
  ]

  -- An alert, where there is a port for it, and its fault.
  abbrev pub raise : Alert → IngestState → IngestState × Option ℕ
  raise alert st = elim deps.alerts [
    | none ↦ (st, none)
    | some faults ↦ (log_effect (alerted alert) st, faults st.effects)
  ]

  -- `prev?.bookingId ?? Id.next()`.
  abbrev pub booking_id_of : Option Projection → IngestState → EntityId × IngestState
  booking_id_of (some p) st = (p.local_booking_id, st)
  booking_id_of none st =
      (deps.generated_id st.generated, record st { generated = suc st.generated })

  abbrev pub applied_event : Revision → EntityId → RevisionDiff → ℕ → DomainEvent
  applied_event rev booking diff now =
      revision_applied deps.org_id booking rev.property_id rev.revision_id rev.status diff now
        rev.system_id

  abbrev pub events_of : Revision → EntityId → RevisionDiff → ℕ → List DomainEvent
  events_of rev booking diff now =
      if is_mapped diff.next_mapping
      then applied_event rev booking diff now ∷ []
      else applied_event rev booking diff now
        ∷ booking_unmapped deps.org_id booking rev.property_id diff.next_mapping now rev.system_id
        ∷ []

  abbrev pub stale_input : Revision → ℕ → RevisionInput
  stale_input rev now = record {
    revision = rev;
    projection = none;
    diff = none;
    new_events = [];
    now = now;
  }

  abbrev pub newer_input : Revision → Option Projection → EntityId → ℕ → RevisionInput
  newer_input rev prev booking now =
      let next = project_revision rev booking in
      let diff = diff_projection prev next in
      record {
        revision = rev;
        projection = some next;
        diff = some diff;
        new_events = events_of rev booking diff now;
        now = now;
      }

  -- The alert of an unmapped booking, before the transaction.
  abbrev pub alert_unmapped :
      Revision → EntityId → MappingState → IngestState → IngestState × Option ℕ
  alert_unmapped rev booking state st =
      if is_mapped state
      then (st, none)
      else raise (unmapped_booking booking rev.property_id state) st

  -- The transaction, unless the alert threw.
  abbrev pub commit_unless :
      RevisionInput → IngestSummary → IngestState × Option ℕ → Outcome IngestSummary
  commit_unless input s (st, some x) = (st, err (port_fault x))
  commit_unless input s (st, none) = commit input s st

  unfoldable pub apply_newer :
      Revision
      → Option Projection
      → EntityId
      → ℕ
      → IngestSummary
      → IngestState
      → Outcome IngestSummary
  apply_newer rev prev booking now s st =
      let state = (diff_projection prev (project_revision rev booking)).next_mapping in
      commit_unless (newer_input rev prev booking now) (record s { applied = s.applied + 1 })
        (alert_unmapped rev booking state st)

  unfoldable pub apply_one : Revision → IngestSummary → IngestState → Outcome IngestSummary
  apply_one rev s st =
      let now = deps.time_of st.readings in
      let prev = load_projection rev.booking_id st.repo in
      let (booking, st') = booking_id_of prev (record st { readings = suc st.readings }) in
      if not (is_newer_than rev prev)
      then commit (stale_input rev now) (record s { stale = s.stale + 1 }) st'
      else apply_newer rev prev booking now s st'

  unfoldable pub ack : List EntityId → IngestSummary → IngestState → IngestState × IngestSummary
  ack ids s st = elim (deps.ack_fault st.effects) [
    | some x ↦
        (log_effect (ack_asked ids) st, record s { ack_failures = s.ack_failures + length ids })
    | none ↦ (
      record st {
        repo = mark_acked ids (deps.time_of st.readings) st.repo;
        readings = suc st.readings;
        effects = st.effects ++ ack_asked ids ∷ [];
      },
      record s { acked_count = s.acked_count + length ids },
    )
  ]

  abbrev pub acked_progress :
      List ℕ → ℕ → List EntityId → IngestSummary → IngestState → Outcome Progress
  acked_progress seen fresh ids s st = let (st', s') = ack ids s st in (st', ok (seen, (fresh, s')))

  -- A revision that this run has not seen yet.
  unfoldable pub take_unseen :
      Revision → List ℕ → ℕ → IngestSummary → IngestState → Outcome Progress
  take_unseen rev seen fresh s st = elim (find_revision_by_system_id rev.system_id st.repo) [
    | some r ↦ elim r.acked_at [
      | some t ↦ (st, ok (seen, (fresh, record s { duplicates = s.duplicates + 1 })))
      | none ↦
          acked_progress seen fresh (r.channex_revision_id ∷ [])
            (record s { reacked = s.reacked + 1 }) st
    ]
    | none ↦ and_then (apply_one rev s st) (acked_progress seen fresh (rev.revision_id ∷ []))
  ]

  abbrev pub take_revision : Revision → Progress → IngestState → Outcome Progress
  take_revision rev (seen, (fresh, s)) st =
      if contains rev.system_id seen
      then (st, ok (seen, (fresh, s)))
      else take_unseen rev (rev.system_id ∷ seen) (fresh + 1)
          (record s { seen_count = s.seen_count + 1 }) st

  unfoldable pub take_page : List Revision → Progress → IngestState → Outcome Progress
  take_page [] progress st = (st, ok progress)
  take_page (rev ∷ revs) progress st = and_then (take_revision rev progress st) (take_page revs)

  -- A page with the progress after it: the summary, or the next round's `seen` and cursor.
  abbrev pub next_cursor_of : FeedPage → ℕ → Option (Option ℕ)
  next_cursor_of page fresh = elim page.next_cursor [
    | none ↦ none
    | some c ↦ some (if ltb 0 fresh then none else some c)
  ]

  -- The rounds that are left, the number of the next one, what was seen, and the cursor.
  unfoldable pub feed_rounds :
      (left round : ℕ) (seen : List ℕ) (cursor : Option ℕ)
      → IngestSummary
      → IngestState
      → Outcome IngestSummary
  feed_rounds zero round seen cursor s st = (st, ok s)
  feed_rounds (suc left) round seen cursor s st =
      elim (deps.list_booking_revisions round cursor st.effects) [
        | err x ↦ (st, err (port_fault x))
        | ok page ↦ and_then (take_page page.page_revisions (seen, (0, s)) st) (λ progress st'.
            elim (next_cursor_of page progress.1.0) [
              | none ↦ (st', ok progress.1.1)
              | some next ↦ feed_rounds left (suc round) progress.0 next progress.1.1 st'
            ])
      ]

  unfoldable pub ingest_property : IngestState → Outcome IngestSummary
  ingest_property st = feed_rounds max_feed_rounds 0 [] none no_ingest st
