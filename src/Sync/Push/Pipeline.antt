-- ===== src/Sync/Push/Pipeline.antt =====
-- push/pipeline.ts: `pushProperty` and the push of one chunk. The provider is behind a port: a
-- `World` says what it answers to the n-th call, which edits of the store come in during that call,
-- and what the clock reads then. Logs and the deduplication key are left out.
mod State
pub mod Rows
pub mod Winners
pub mod Latest
pub mod Reaches
pub mod Run
pub mod Accepted
pub use State.*
use channex_pms.Prelude.{
  ℕ, suc, ◌+◌, Bool, true, false, not, ◌&&◌, Option, none, some, List, [], ◌∷◌, ◌++◌, if◌then◌else◌,
  ◌==◌, ltb, leb, Eq, nat_eq, list_eq, map, filter, length, ◌≡◌, ◌↔◌, arith,
}
use channex_pms.Prelude.Maps.{lookup, insert}
use channex_pms.Shared.Date.{LocalDate}
use channex_pms.Shared.Result.{Result, ok, err}
use channex_pms.Inventory.{
  EntityId, Weekday, FieldValue, RestrictionValues, RateCell, AvailabilityCell, RestrictionEntry,
  AvailabilityEntry, BatchLimits, CellKind, rate_cell, availability_cell, CellRef,
}
use channex_pms.Sync.Dates.{expand_dates}
use channex_pms.Sync.Push.Breaker.{BreakerOptions, Breakers, allow, on_success, on_failure}
use channex_pms.Sync.Push.Store.{
  AriStore, Reason, retry, other_reason, PendingCell, load_pending, mark_in_flight, set_rate,
  set_availability, OutcomeStatus, was_synced, was_failed, CellOutcome, apply_outcomes,
}
use channex_pms.Sync.Push.Reference.{Text, is_reference_miss}

unfoldable pub apply_edits : List Edit → AriStore → AriStore
apply_edits [] s = s
apply_edits (rate_edit plan date values ∷ edits) s = apply_edits edits (set_rate plan date values s)
apply_edits (availability_edit room date n ∷ edits) s =
    apply_edits edits (set_availability room date n s)

-- The reason of an outcome, "retry" being told apart.
abbrev pub retry_word : Text
retry_word = 114 ∷ 101 ∷ 116 ∷ 114 ∷ 121 ∷ []

abbrev pub reason_of : Text → Reason
reason_of text = if list_eq.beq text retry_word then retry else other_reason text

abbrev pub log_call : LimiterCall → PushState → PushState
log_call c st = record st { limiter_calls = st.limiter_calls ++ c ∷ [] }

abbrev pub settle_all : List CellOutcome → PushState → PushState
settle_all outcomes st = record st { store = apply_outcomes outcomes st.store }

abbrev pub fail_with : OutcomeStatus → CellRef × ℕ → CellOutcome
fail_with status (c, v) = record { cell = c; outcome_version = v; status = status }

-- `rejectedByIndex`, the last reason of an index winning.
abbrev pub rejections_from : List (ℕ × Text) → List Rejection → List (ℕ × Text)
rejections_from m [] = m
rejections_from m (r ∷ rs) = rejections_from (insert r.index r.reason m) rs

abbrev pub status_for : Option Text → OutcomeStatus
status_for none = was_synced
status_for (some reason) = was_failed (if is_reference_miss reason then retry else reason_of reason)

-- `referenceMiss` after one entry.
abbrev pub missed : Option Text → Option Text → Option Text
missed none miss = miss
missed (some reason) miss = if is_reference_miss reason then some reason else miss

miss_from : List (ℕ × Text) → ℕ → List Entry → Option Text → Option Text
miss_from rejected i [] miss = miss
miss_from rejected i (x ∷ xs) miss = miss_from rejected (suc i) xs (missed (lookup i rejected) miss)

-- `last`, the last outcome of a cell winning at the place of its first.
abbrev pub last_from :
    List (CellRef × CellOutcome) → List CellOutcome → List (CellRef × CellOutcome)
last_from m [] = m
last_from m (o ∷ os) = last_from (insert o.cell o m) os

abbrev pub latest : List CellOutcome → List CellOutcome
latest os = map (λ p. p.1) (last_from [] os)

-- The cells whose version was sent.
abbrev pub versioned : Versions → List CellRef → List (CellRef × ℕ)
versioned versions [] = []
versioned versions (c ∷ cs) = elim (lookup c versions) [
  | none ↦ versioned versions cs
  | some v ↦ (c, v) ∷ versioned versions cs
]

module _ (weekday_of : LocalDate → Weekday) where
  abbrev pub entry_refs : Entry → List CellRef
  entry_refs (room_entry e) =
      map (λ d. record { kind = availability_cell; id = e.room_type_id; date = d })
        (expand_dates weekday_of e.date_from e.date_to e.days)
  entry_refs (plan_entry e) =
      map (λ d. record { kind = rate_cell; id = e.rate_plan_id; date = d })
        (expand_dates weekday_of e.date_from e.date_to e.days)

  abbrev pub cells_of : List Entry → Versions → List (CellRef × ℕ)
  cells_of [] versions = []
  cells_of (x ∷ xs) versions = versioned versions (entry_refs x) ++ cells_of xs versions

  abbrev pub outcomes_as : OutcomeStatus → List Entry → Versions → List CellOutcome
  outcomes_as status entries versions = map (fail_with status) (cells_of entries versions)

  -- `revertToPending`.
  abbrev pub revert_to_pending : List Entry → Versions → PushState → PushState
  revert_to_pending entries versions = settle_all (outcomes_as (was_failed retry) entries versions)

  abbrev pub outcomes_from : List (ℕ × Text) → ℕ → List Entry → Versions → List CellOutcome
  outcomes_from rejected i [] versions = []
  outcomes_from rejected i (x ∷ xs) versions =
      outcomes_as (status_for (lookup i rejected)) (x ∷ []) versions
      ++ outcomes_from rejected (suc i) xs versions

  module _ (world : World) (ctx : PushContext) where
    abbrev pub report_success_to_breaker : PushState → PushState
    report_success_to_breaker st = record st { breakers = on_success ctx.org_id st.breakers }

    answered :
        CellKind
        → List Entry
        → Versions
        → PushSummary
        → PushState
        → Result PushResult Failure
        → PushState × Result PushSummary Thrown
    unfolding miss_from
    answered kind entries versions summary st (err (throttle_error ms)) = (
      revert_to_pending entries versions (log_call (report_throttle (limit_key ctx kind) ms) st),
      err (retry_later (elim ms [ none ↦ 1000 | some n ↦ n ]) throttled),
    )
    answered kind entries versions summary st (err (transient_error message)) = (
      revert_to_pending entries versions (record st {
        breakers =
            on_failure ctx.breaker_options (world.time_of summary.batches) ctx.org_id st.breakers;
      }),
      err (retry_later 5000 (says message)),
    )
    answered kind entries versions summary st (err (validation_error message)) =
        if is_reference_miss message
        then (
          revert_to_pending entries versions (report_success_to_breaker st),
          err (retry_later 15000 (says message)),
        )
        else (
          report_success_to_breaker
              (settle_all (outcomes_as (was_failed (reason_of message)) entries versions) st),
          ok (record summary {
            batches = summary.batches + 1;
            rejected_count = summary.rejected_count + length entries;
          }),
        )
    answered kind entries versions summary st (err (auth_error message)) =
        (revert_to_pending entries versions st, err (provider_failed (auth_error message)))
    answered kind entries versions summary st (err (other_error message)) =
        (st, err (provider_failed (other_error message)))
    answered kind entries versions summary st (ok result) =
        let rejected = rejections_from [] result.rejected in
        let st' =
          settle_all (latest (outcomes_from rejected 0 entries versions))
            (log_call (report_success (limit_key ctx kind)) (report_success_to_breaker st)) in
        let summary' = record summary {
          batches = summary.batches + 1;
          accepted_count = summary.accepted_count + result.accepted;
          rejected_count = summary.rejected_count + length result.rejected;
        } in
        elim (miss_from rejected 0 entries none) [
          | none ↦ (st', ok summary')
          | some reason ↦ (st', err (retry_later 15000 (says reason)))
        ]

    -- The state when the provider has been called, with the edits that came in.
    abbrev pub called : CellKind → PushSummary → PushState → PushState
    called kind summary st =
        let acquired = log_call (acquire (limit_key ctx kind)) st in
        record acquired { store = apply_edits (world.edits_during summary.batches) acquired.store }

    -- `run`: one chunk, with the edits that come in while the provider is called.
    unfoldable pub run :
        CellKind
        → List Entry
        → Versions
        → PushSummary
        → PushState
        → PushState × Result PushSummary Thrown
    unfolding answered
    run kind entries versions summary st =
        answered kind entries versions summary (called kind summary st)
          (world.push_reply summary.batches kind entries)

    -- The chunks one after the other, up to the first that throws.
    unfoldable pub run_all :
        CellKind
        → List (List Entry)
        → Versions
        → PushSummary
        → PushState
        → PushState × Result PushSummary Thrown
    run_all kind [] versions summary st = (st, ok summary)
    run_all kind (chunk ∷ chunks) versions summary st =
        let (st', r) = run kind chunk versions summary st in
        elim r [ ok summary' ↦ run_all kind chunks versions summary' st' | err x ↦ (st', err x) ]
