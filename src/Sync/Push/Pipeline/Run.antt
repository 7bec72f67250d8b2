-- ===== src/Sync/Push/Pipeline/Run.antt =====
-- `run` of push/pipeline.ts: one chunk, whatever the provider answers.
use channex_pms.Prelude.{
  ℕ, ◌≡◌, refl, Bool, true, false, Option, none, some, List, [], if◌then◌else◌, ◌==◌, nat_eq,
  pair_eq, any, ◌∙◌, ap, fun_ext, Bool-cases, Option-cases, inl, inr,
}
use channex_pms.Prelude.Maps.{lookup, change}
use channex_pms.Shared.Date.{LocalDate}
use channex_pms.Shared.Result.{Result, ok, err}
use channex_pms.Inventory.{Weekday, CellKind, CellRef, RestrictionValues, synced, pending, failed}
use channex_pms.Sync.Apply.{CellKey}
use channex_pms.Sync.Push.Store.{
  Row, AriStore, retry, validation, OutcomeStatus, was_synced, was_failed, settle_row, outcome_row,
  apply_outcomes,
}
use channex_pms.Sync.Push.Reference.{is_reference_miss}
use channex_pms.Sync.Push.Pipeline.{
  ref_has_eq, Entry, Failure, throttle_error, transient_error, validation_error, auth_error,
  other_error, PushResult, PushSummary, World, PushContext, PushState, Versions, apply_edits,
  reason_of, rejections_from, latest, outcomes_as, outcomes_from, miss_from, called, answered, run,
}
use channex_pms.Sync.Push.Pipeline.Rows.{
  rate_key_ref, decide_row, covers_ref, if_covered, apply_outcomes-lookup, settle-outcomes_as,
}
use channex_pms.Sync.Push.Pipeline.Latest.{decided, settle-answer}
use channex_pms.Sync.Push.Pipeline.Reaches.{reaches, last_status, any-reaches, decided-last_status}

-- The status that a failed call gives to its cells: a throttle, a transient failure, a missing
-- reference, or an error of the kind "auth", sends them back to pending; a rejection of the chunk
-- fails them; other errors leave them.
abbrev pub failure_status : Failure → Option OutcomeStatus
failure_status (throttle_error ms) = some (was_failed retry)
failure_status (transient_error message) = some (was_failed retry)
failure_status (validation_error message) =
    some (was_failed (if is_reference_miss message then retry else reason_of message))
failure_status (auth_error message) = some (was_failed retry)
failure_status (other_error message) = none

-- What a status makes of a row: synced with the value that it desires, pending, or failed with a
-- validation error.
abbrev pub told_row : OutcomeStatus → Row RestrictionValues → Row RestrictionValues
told_row was_synced r = record r {
  sync_state = synced;
  last_error = none;
  synced_value = some r.desired;
}
told_row (was_failed retry) r = record r { sync_state = pending; last_error = none }
told_row (was_failed _) r = record r { sync_state = failed; last_error = some validation }

-- A row of the version that was sent, if any, after a status, if any.
abbrev pub row_after :
    Option ℕ → Option OutcomeStatus → Row RestrictionValues → Row RestrictionValues
row_after none status r = r
row_after (some v) none r = r
row_after (some v) (some status) r = if r.version == v then told_row status r else r

settle-told_row :
    (status : OutcomeStatus) (r : Row RestrictionValues)
    → settle_row status RestrictionValues r ≡ told_row status r
settle-told_row was_synced r = refl
settle-told_row (was_failed retry) r = refl
settle-told_row (was_failed _) r = refl

decide-row_after :
    (at : Option ℕ) (status : Option OutcomeStatus) (r : Row RestrictionValues)
    → decide_row at status r ≡ row_after at status r
decide-row_after none status r = refl
decide-row_after (some v) none r = refl
decide-row_after (some v) (some status) r = elim (Bool-cases (r.version == v)) [
  | inl y ↦ rw (y, outcome_row) (settle-told_row status r)
  | inr n ↦ rw (n, outcome_row) refl
]

abbrev pub only_covered : Bool → Option OutcomeStatus → Option OutcomeStatus
only_covered b o = if b then o else none

-- The status that the answer to a chunk gives to a rate cell.
abbrev pub reply_status :
    (LocalDate → Weekday) → CellKey → List Entry → Result PushResult Failure → Option OutcomeStatus
reply_status weekday_of k entries (ok result) =
    last_status weekday_of k result.rejected 0 entries none
reply_status weekday_of k entries (err x) =
    only_covered (any (reaches weekday_of k) entries) (failure_status x)

idle :
    {V : Type 0} (at : Option ℕ) (b : Bool) (o : Option (Row V))
    → o ≡ change (decide_row at (only_covered b none)) o
idle at b none = refl
idle none b (some r) = refl
idle (some v) true (some r) = refl
idle (some v) false (some r) = refl

module _ (weekday_of : LocalDate → Weekday) where
  -- The status of a cell after an answer: that of the last entry that covers it.
  abbrev pub answer_status : CellRef → List Entry → Result PushResult Failure → Option OutcomeStatus
  answer_status c entries (ok result) =
      decided weekday_of c (rejections_from [] result.rejected) 0 entries none
  answer_status c entries (err x) =
      only_covered (any (covers_ref weekday_of c) entries) (failure_status x)

  settled_as :
      (k : CellKey) (entries : List Entry) (versions : Versions) (status : OutcomeStatus)
      (s : AriStore)
      → lookup k ((apply_outcomes (outcomes_as weekday_of status entries versions) s).rate_rows)
        ≡ change
            (decide_row
              (lookup (rate_key_ref k) versions)
              (if_covered (any (covers_ref weekday_of (rate_key_ref k)) entries) status))
            (lookup k s.rate_rows)
  settled_as k entries versions status s =
      apply_outcomes-lookup k (outcomes_as weekday_of status entries versions) s
      ∙ ap (λ f. change f (lookup k s.rate_rows))
          (fun_ext (settle-outcomes_as (rate_key_ref k) weekday_of versions status entries))

  module _ (world : World) (ctx : PushContext) where
    answered-rows :
        (kind : CellKind) (entries : List Entry) (versions : Versions) (summary : PushSummary)
        (st : PushState) (reply : Result PushResult Failure) (k : CellKey)
        → lookup k (
            (answered weekday_of world ctx kind entries versions summary st
              reply).0.store.rate_rows)
          ≡ change
              (decide_row
                (lookup (rate_key_ref k) versions)
                (answer_status (rate_key_ref k) entries reply))
              (lookup k st.store.rate_rows)
    unfolding answered
    answered-rows kind entries versions summary st (err (throttle_error ms)) k =
        settled_as k entries versions (was_failed retry) st.store
    answered-rows kind entries versions summary st (err (transient_error message)) k =
        settled_as k entries versions (was_failed retry) st.store
    answered-rows kind entries versions summary st (err (validation_error message)) k =
        elim (Bool-cases (is_reference_miss message)) [
          | inl y ↦ rw (y, answered) (settled_as k entries versions (was_failed retry) st.store)
          | inr n ↦
              rw (n, answered)
                (settled_as k entries versions (was_failed (reason_of message)) st.store)
        ]
    answered-rows kind entries versions summary st (err (auth_error message)) k =
        settled_as k entries versions (was_failed retry) st.store
    answered-rows kind entries versions summary st (err (other_error message)) k =
        idle (lookup (rate_key_ref k) versions)
          (any (covers_ref weekday_of (rate_key_ref k)) entries) (lookup k st.store.rate_rows)
    answered-rows kind entries versions summary st (ok result) k =
        let rejected = rejections_from [] result.rejected in
        let rows =
          apply_outcomes-lookup k (latest (outcomes_from weekday_of rejected 0 entries versions))
            st.store
          ∙ ap (λ f. change f (lookup k st.store.rate_rows))
              (fun_ext (settle-answer (rate_key_ref k) weekday_of rejected versions entries)) in
        elim (Option-cases (miss_from rejected 0 entries none)) [
          | inl n ↦ rw (n, answered) rows
          | inr (reason, h) ↦ rw (h, answered) rows
        ]

    -- The same, by the rows' own settling.
    pub run-decided :
        (kind : CellKind) (entries : List Entry) (versions : Versions) (summary : PushSummary)
        (st : PushState) (k : CellKey)
        → lookup k ((run weekday_of world ctx kind entries versions summary st).0.store.rate_rows)
          ≡ change
              (decide_row (lookup (rate_key_ref k) versions) (
                answer_status
                  (rate_key_ref k)
                  entries
                  (world.push_reply summary.batches kind entries)))
              (lookup k ((apply_edits (world.edits_during summary.batches) st.store).rate_rows))
    unfolding run
    run-decided kind entries versions summary st k =
        answered-rows kind entries versions summary (called weekday_of world ctx kind summary st)
          (world.push_reply summary.batches kind entries) k

    answered_status :
        (k : CellKey) (entries : List Entry) (reply : Result PushResult Failure)
        → answer_status (rate_key_ref k) entries reply ≡ reply_status weekday_of k entries reply
    answered_status k entries (ok result) =
        decided-last_status weekday_of k result.rejected 0 entries none
    answered_status k entries (err x) =
        ap (λ b. only_covered b (failure_status x)) (any-reaches weekday_of k entries)

    -- After one chunk, whatever edits came in during the call: where the version of a rate cell is
    -- still the one that was sent, its row takes the status of the last entry that reaches it, by
    -- its plan, its dates and its weekdays, if the provider took the call. That is synced with the
    -- value that was sent; for an entry rejected for a missing reference, pending; for one rejected
    -- otherwise, failed with a validation error. A throttle, a transient failure, a missing
    -- reference and an error of the kind "auth" return the cells that are reached to pending;
    -- another validation error fails them; every other error changes nothing. A rejection whose
    -- text is "retry" counts as one for a missing reference. In all other cases the row is what the
    -- edits made of it.
    pub run-rows :
        (kind : CellKind) (entries : List Entry) (versions : Versions) (summary : PushSummary)
        (st : PushState) (k : CellKey)
        → lookup k ((run weekday_of world ctx kind entries versions summary st).0.store.rate_rows)
          ≡ change
              (row_after
                (lookup (rate_key_ref k) versions)
                (reply_status weekday_of k entries (world.push_reply summary.batches kind entries)))
              (lookup k ((apply_edits (world.edits_during summary.batches) st.store).rate_rows))
    run-rows kind entries versions summary st k =
        let at = lookup (rate_key_ref k) versions in
        let reply = world.push_reply summary.batches kind entries in
        let edited =
          lookup k ((apply_edits (world.edits_during summary.batches) st.store).rate_rows) in
        run-decided kind entries versions summary st k
        ∙ ap (λ f. change f edited)
            (fun_ext (decide-row_after at (answer_status (rate_key_ref k) entries reply)))
        ∙ ap (λ o. change (row_after at o) edited) (answered_status k entries reply)
