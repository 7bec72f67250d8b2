-- ===== src/Sync/Push/Property.antt =====
-- `pushProperty` of push/pipeline.ts: every pending cell of one property, availability first.
pub mod Blocked
pub mod Coverage
pub mod Sent
pub mod Today
pub mod Synced
mod Tests
use channex_pms.Prelude.{
  ℕ, Bool, true, false, not, ◌&&◌, Option, none, some, List, [], ◌∷◌, ◌++◌, if◌then◌else◌, ltb, leb,
  Eq, nat_eq, list_eq, map, filter,
}
use channex_pms.Prelude.Maps.{insert}
use channex_pms.Shared.Date.{LocalDate}
use channex_pms.Shared.Result.{Result, ok, err}
use channex_pms.Inventory.{
  Weekday, FieldValue, RestrictionValues, RateCell, AvailabilityCell, BatchLimits, CellKind,
  rate_cell, availability_cell, CellRef,
}
use channex_pms.Sync.Build.{build_restriction_batch, build_availability_batch}
use channex_pms.Sync.Push.Breaker.{allow}
use channex_pms.Sync.Push.Store.{
  AriStore, PendingCell, load_pending, mark_in_flight, was_failed, CellOutcome,
}
use channex_pms.Sync.Push.Reference.{Text}
use channex_pms.Sync.Push.Pipeline.{
  ref_has_eq, Entry, room_entry, plan_entry, World, PushContext, PushState, PushSummary, no_summary,
  nothing_pending, Versions, Thrown, retry_later, circuit_open, reason_of, settle_all, run_all,
}
use channex_pms.Sync.Push.Verify.{verify}

-- PAST_DATE_REASON.
abbrev pub past_date_reason : Text
past_date_reason =
    112 ∷ 97 ∷ 115 ∷ 116 ∷ 32 ∷ 100 ∷ 97 ∷ 116 ∷ 101 ∷ 58 ∷ 32 ∷ 116 ∷ 104 ∷ 101 ∷ 32 ∷ 99 ∷ 104
    ∷ 97 ∷ 110 ∷ 110 ∷ 101 ∷ 108 ∷ 32 ∷ 109 ∷ 97 ∷ 110 ∷ 97 ∷ 103 ∷ 101 ∷ 114 ∷ 32 ∷ 111 ∷ 110 ∷ 108
    ∷ 121 ∷ 32 ∷ 116 ∷ 97 ∷ 107 ∷ 101 ∷ 115 ∷ 32 ∷ 116 ∷ 111 ∷ 100 ∷ 97 ∷ 121 ∷ 32 ∷ 97 ∷ 110 ∷ 100
    ∷ 32 ∷ 108 ∷ 97 ∷ 116 ∷ 101 ∷ 114 ∷ []

abbrev pub PendingCells : Type 0
PendingCells = List (PendingCell RestrictionValues) × List (PendingCell ℕ)

abbrev pub cell_ref : {V : Type 0} → CellKind → PendingCell V → CellRef
cell_ref kind c = record { kind = kind; id = c.key.0; date = c.key.1 }

abbrev pub is_past : {V : Type 0} → LocalDate → PendingCell V → Bool
is_past today c = ltb c.key.1 today

abbrev pub past_outcome : {V : Type 0} → CellKind → PendingCell V → CellOutcome
past_outcome kind c = record {
  cell = cell_ref kind c;
  outcome_version = c.cell_version;
  status = was_failed (reason_of past_date_reason);
}

abbrev pub past_outcomes : LocalDate → PendingCells → List CellOutcome
past_outcomes today (rates, counts) =
    map (past_outcome rate_cell) (filter (is_past today) rates)
    ++ map (past_outcome availability_cell) (filter (is_past today) counts)

abbrev pub from_today : LocalDate → PendingCells → PendingCells
from_today today (rates, counts) =
    (filter (λ c. leb today c.key.1) rates, filter (λ c. leb today c.key.1) counts)

-- `dropPast`, where the context has a date; applying no outcome leaves the store as it is.
unfoldable pub drop_past : Option LocalDate → PendingCells → PushState → PendingCells × PushState
drop_past none pending st = (pending, st)
drop_past (some today) pending st =
    (from_today today pending, settle_all (past_outcomes today pending) st)

abbrev pub sent_cells : PendingCells → List (CellRef × ℕ)
sent_cells (rates, counts) =
    map (λ c. (cell_ref availability_cell c, c.cell_version)) counts
    ++ map (λ c. (cell_ref rate_cell c, c.cell_version)) rates

-- `versionOf.set(keyOf(ref), c.version)`.
abbrev pub versions_from : Versions → List (CellRef × ℕ) → Versions
versions_from m [] = m
versions_from m ((c, v) ∷ cs) = versions_from (insert c v m) cs

abbrev pub rate_cells : List (PendingCell RestrictionValues) → List RateCell
rate_cells = map (λ c. record { rate_plan_id = c.key.0; date = c.key.1; values = c.value })

abbrev pub availability_cells : List (PendingCell ℕ) → List AvailabilityCell
availability_cells =
    map (λ c. record { room_type_id = c.key.0; date = c.key.1; availability = c.value })

-- The day of 9999-12-31, from 0000-01-01 on.
abbrev pub last_day : LocalDate
last_day = 3652424

abbrev pub first_date : LocalDate → List LocalDate → LocalDate
first_date best [] = best
first_date best (d ∷ ds) = first_date (if ltb d best then d else best) ds

abbrev pub last_date : LocalDate → List LocalDate → LocalDate
last_date best [] = best
last_date best (d ∷ ds) = last_date (if ltb best d then d else best) ds

abbrev pub dates_of : PendingCells → List LocalDate
dates_of (rates, counts) = map (λ c. c.key.1) rates ++ map (λ c. c.key.1) counts

abbrev pub is_empty : PendingCells → Bool
is_empty ([], []) = true
is_empty _ = false

module _ {K : Type 0} ⦃e : Eq K⦄ (canon : Option FieldValue → K) (weekday_of : LocalDate → Weekday)
    (world : World) (ctx : PushContext) where
  -- The verification at the end, for a sampled push.
  abbrev pub verified_end :
      LocalDate
      → LocalDate
      → PushState × Result PushSummary Thrown
      → PushState × Result PushSummary Thrown
  verified_end date_from date_to (st, err x) = (st, err x)
  verified_end date_from date_to (st, ok summary) =
      if not ctx.sampled
      then (st, ok summary)
      else (let (st', r) = verify canon world ctx date_from date_to st in
          elim r [
            | err x ↦ (st', err x)
            | ok n ↦ (st', ok (record summary { verified = true; drift_cells = n }))
          ])

  -- The chunks of both kinds, availability first.
  abbrev pub push_chunks : PendingCells → PushState → PushState × Result PushSummary Thrown
  push_chunks (rates, counts) st =
      let versions = versions_from [] (sent_cells (rates, counts)) in
      let (st', r) =
        run_all weekday_of world ctx availability_cell
          (map (map room_entry)
            (build_availability_batch weekday_of (availability_cells counts) ctx.push_limits))
          versions no_summary st in
      elim r [
        | err x ↦ (st', err x)
        | ok summary ↦
            run_all weekday_of world ctx rate_cell
              (map (map plan_entry)
                (build_restriction_batch weekday_of canon (rate_cells rates) ctx.push_limits))
              versions summary st'
      ]

  abbrev pub push_pending : PendingCells → PushState → PushState × Result PushSummary Thrown
  push_pending pending st =
      if is_empty pending
      then (st, ok (record no_summary { skipped = some nothing_pending }))
      else verified_end (first_date last_day (dates_of pending)) (last_date 0 (dates_of pending))
          (push_chunks pending (record st { store = mark_in_flight (sent_cells pending) st.store }))

  unfoldable pub push_property : PushState → PushState × Result PushSummary Thrown
  push_property st =
      let (may, breakers) = allow ctx.breaker_options ctx.started_at ctx.org_id st.breakers in
      let st' = record st { breakers = breakers } in
      if not may
      then (st', err (retry_later 30000 circuit_open))
      else (let (pending, st2) = drop_past ctx.today (load_pending st'.store) st' in
          push_pending pending st2)
