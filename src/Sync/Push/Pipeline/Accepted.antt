-- ===== src/Sync/Push/Pipeline/Accepted.antt =====
-- `run` of push/pipeline.ts, chunk after chunk, with a provider that accepts every entry.
use channex_pms.Prelude.{
  ℕ, suc, ◌≡◌, refl, sym, Bool, true, false, ◌||◌, Option, none, some, List, [], ◌∷◌, if◌then◌else◌,
  nat_eq, pair_eq, any, concat, ◌∙◌, ap, any-append, subst, fun_ext,
}
use channex_pms.Prelude.Maps.{lookup, change}
use channex_pms.Shared.Date.{LocalDate}
use channex_pms.Shared.Result.{Result, ok}
use channex_pms.Inventory.{Weekday, RestrictionValues, CellKind}
use channex_pms.Sync.Apply.{CellKey}
use channex_pms.Sync.Push.Store.{Row, OutcomeStatus, was_synced}
use channex_pms.Sync.Push.Pipeline.{
  ref_has_eq, Entry, PushSummary, World, PushContext, PushState, Thrown, Versions, apply_edits,
  miss_from, called, answered, run, run_all,
}
use channex_pms.Sync.Push.Pipeline.Rows.{
  rate_key_ref, decide_row, covers_ref, if_covered, change_twice, change_same, decide-none,
  outcome_row_twice,
}
use channex_pms.Sync.Push.Pipeline.Latest.{decided}
use channex_pms.Sync.Push.Pipeline.Run.{answer_status, run-decided}

-- A provider that accepts whatever it is sent, while nobody edits.
abbrev pub IsAccepting : World → Type 0
IsAccepting world =
    ((n : ℕ) (kind : CellKind) (es : List Entry)
      → (count : ℕ) × (world.push_reply n kind es
          ≡ ok (record { accepted = count; rejected = [] })))
    × ((n : ℕ) → world.edits_during n ≡ [])

abbrev pub IsDone : PushState × Result PushSummary Thrown → Type 0
IsDone (st, r) = (summary : PushSummary) × (r ≡ ok summary)

no-miss : (i : ℕ) (es : List Entry) → miss_from [] i es none ≡ none
unfolding miss_from
no-miss i [] = refl
no-miss i (x ∷ es) = no-miss (suc i) es

module _ (weekday_of : LocalDate → Weekday) where
  decided-accepted :
      (k : CellKey) (i : ℕ) (es : List Entry) (best : Option OutcomeStatus)
      → decided weekday_of (rate_key_ref k) [] i es best
        ≡ (if any (covers_ref weekday_of (rate_key_ref k)) es then some was_synced else best)
  decided-accepted k i [] best = refl
  decided-accepted k i (x ∷ es) best =
      decided-accepted k (suc i) es
        (if covers_ref weekday_of (rate_key_ref k) x then some was_synced else best)
      ∙ go (covers_ref weekday_of (rate_key_ref k) x)
          (any (covers_ref weekday_of (rate_key_ref k)) es)
    where
      go :
          (b h : Bool)
          → (if h then some was_synced else (if b then some was_synced else best))
            ≡ (if b || h then some was_synced else best)
      go true true = refl
      go true false = refl
      go false h = refl

  module _ (world : World) (ctx : PushContext) (accepting : IsAccepting world) where
    answered-IsDone :
        (kind : CellKind) (es : List Entry) (versions : Versions) (summary : PushSummary)
        (st : PushState) (count : ℕ)
        → IsDone (
            answered weekday_of world ctx kind es versions summary st
              (ok (record { accepted = count; rejected = [] })))
    unfolding answered
    answered-IsDone kind es versions summary st count = rw (no-miss 0 es, answered) (_, refl)

    run-IsDone :
        (kind : CellKind) (es : List Entry) (versions : Versions) (summary : PushSummary)
        (st : PushState)
        → IsDone (run weekday_of world ctx kind es versions summary st)
    unfolding run
    run-IsDone kind es versions summary st =
        let (count, reply) = accepting.0 summary.batches kind es in
        subst
          (λ a. IsDone (
            answered weekday_of world ctx kind es versions summary
              (called weekday_of world ctx kind summary st) a))
          (sym reply)
          (answered-IsDone kind es versions summary (called weekday_of world ctx kind summary st)
            count)

    run-accepted :
        (kind : CellKind) (es : List Entry) (versions : Versions) (summary : PushSummary)
        (st : PushState) (k : CellKey)
        → lookup k ((run weekday_of world ctx kind es versions summary st).0.store.rate_rows)
          ≡ change
              (decide_row
                (lookup (rate_key_ref k) versions)
                (if_covered (any (covers_ref weekday_of (rate_key_ref k)) es) was_synced))
              (lookup k st.store.rate_rows)
    unfolding apply_edits
    run-accepted kind es versions summary st k =
        let (count, reply) = accepting.0 summary.batches kind es in
        run-decided weekday_of world ctx kind es versions summary st k
        ∙ ap
            (λ a.
              change
                (decide_row (lookup (rate_key_ref k) versions)
                  (answer_status weekday_of (rate_key_ref k) es a))
                (lookup k ((apply_edits (world.edits_during summary.batches) st.store).rate_rows)))
            reply
        ∙ ap
            (λ o.
              change (decide_row (lookup (rate_key_ref k) versions) o)
                (lookup k ((apply_edits (world.edits_during summary.batches) st.store).rate_rows)))
            (decided-accepted k 0 es none)
        ∙ ap
            (λ edits.
              change
                (decide_row (lookup (rate_key_ref k) versions)
                  (if_covered (any (covers_ref weekday_of (rate_key_ref k)) es) was_synced))
                (lookup k ((apply_edits edits st.store).rate_rows)))
            (accepting.1 summary.batches)

    -- All chunks of a kind.
    abbrev pub any_chunk : CellKey → List (List Entry) → Bool
    any_chunk k chunks = any (covers_ref weekday_of (rate_key_ref k)) (concat chunks)

    pub decide-again :
        (at : Option ℕ) (b h : Bool) (r : Row RestrictionValues)
        → decide_row at (if_covered h was_synced) (decide_row at (if_covered b was_synced) r)
          ≡ decide_row at (if_covered (b || h) was_synced) r
    decide-again none b h r = refl
    decide-again (some v) false h r = refl
    decide-again (some v) true false r = refl
    decide-again (some v) true true r = outcome_row_twice v was_synced r

    pub run_all-accepted :
        (kind : CellKind) (chunks : List (List Entry)) (versions : Versions) (summary : PushSummary)
        (st : PushState) (k : CellKey)
        → IsDone (run_all weekday_of world ctx kind chunks versions summary st)
          × (lookup k
                ((run_all weekday_of world ctx kind chunks versions summary st).0.store.rate_rows)
              ≡ change
                  (decide_row
                    (lookup (rate_key_ref k) versions)
                    (if_covered (any_chunk k chunks) was_synced))
                  (lookup k st.store.rate_rows))
    unfolding run_all
    run_all-accepted kind [] versions summary st k = (
      (summary, refl),
      sym (change_same (lookup k st.store.rate_rows))
          ∙ ap (λ f. change f (lookup k st.store.rate_rows))
              (fun_ext
                (λ r. sym (decide-none (rate_key_ref k) (lookup (rate_key_ref k) versions) r))),
    )
    run_all-accepted kind (chunk ∷ chunks) versions summary st k =
        let first = run weekday_of world ctx kind chunk versions summary st in
        let (next, done) = run-IsDone kind chunk versions summary st in
        let (finished, rows) = run_all-accepted kind chunks versions next first.0 k in
        let at = lookup (rate_key_ref k) versions in
        rw (done, run_all)
          (
            finished,
            rows
                ∙ ap (change (decide_row at (if_covered (any_chunk k chunks) was_synced)))
                    (run-accepted kind chunk versions summary st k)
                ∙ change_twice
                    (decide_row at
                      (if_covered (any (covers_ref weekday_of (rate_key_ref k)) chunk) was_synced))
                    (decide_row at (if_covered (any_chunk k chunks) was_synced))
                    (lookup k st.store.rate_rows)
                ∙ ap (λ f. change f (lookup k st.store.rate_rows))
                    (fun_ext (
                      decide-again at (any (covers_ref weekday_of (rate_key_ref k)) chunk)
                        (any_chunk k chunks)))
                ∙ ap
                    (λ b.
                      change (decide_row at (if_covered b was_synced))
                        (lookup k st.store.rate_rows))
                    (sym
                      (any-append (covers_ref weekday_of (rate_key_ref k)) chunk (concat chunks))),
          )
