-- ===== src/Sync/Push/Property/Synced.antt =====
-- `pushProperty` as a whole, with a provider that accepts every entry.
use channex_pms.Prelude.{
  ℕ, ◌<◌, ◌≡◌, refl, sym, Bool, true, false, ◌||◌, Option, none, some, List, [], ◌∷◌, ◌++◌, ◌==◌,
  nat_eq, pair_eq, Eq, map, any, concat, ◌∙◌, ap, arith, subst,
}
use channex_pms.Prelude.Maps.{lookup, Distinct, change}
use channex_pms.Shared.Date.{LocalDate}
use channex_pms.Shared.Result.{Result, ok, err}
use channex_pms.Inventory.{
  Weekday, RestrictionField, FieldValue, RestrictionValues, rate_cell, availability_cell, synced,
  CellRef,
}
use channex_pms.Sync.Apply.{CellKey}
use channex_pms.Sync.Build.{build_restriction_batch, build_availability_batch}
use channex_pms.Sync.Push.Breaker.{allow}
use channex_pms.Sync.Push.Store.{
  Row, Rows, PendingCell, was_synced, is_loaded, pending_rows, load_pending, mark_in_flight,
  outcome_row,
}
use channex_pms.Sync.Push.Pipeline.{
  ref_beq, ref_has_eq, room_entry, plan_entry, no_summary, PushSummary, World, PushContext,
  PushState, Thrown, run_all,
}
use channex_pms.Sync.Push.Pipeline.Rows.{
  rate_key_ref, decide_row, covers_ref, if_covered, map-append,
}
use channex_pms.Sync.Push.Pipeline.Accepted.{
  IsAccepting, IsDone, any_chunk, decide-again, run_all-accepted,
}
use channex_pms.Sync.Push.Property.{
  PendingCells, cell_ref, sent_cells, versions_from, rate_cells, availability_cells, is_empty,
  drop_past, push_chunks, push_pending, verified_end, push_property,
}
use channex_pms.Sync.Push.Property.Today.{
  is_sendable, rows_from, pending_rows-from, lookup-rows_from, rows_from-Distinct,
  past_outcomes-lookup,
}
use channex_pms.Sync.Push.Property.Coverage.{cells_of_rows, batch-covers}
use channex_pms.Sync.Push.Property.Sent.{
  IsSameCell, rates-sent, sent-version, mark_in_flight-IsSameCell,
}

map-concat :
    {A B : Type 0} (f : A → B) (xss : List (List A)) → concat (map (map f) xss) ≡ map f (concat xss)
map-concat f [] = refl
map-concat f (xs ∷ xss) =
    ap (λ ys. map f xs ++ ys) (map-concat f xss) ∙ sym (map-append f xs (concat xss))

or_true : (b : Bool) → (b || true) ≡ true
or_true true = refl
or_true false = refl

-- The row of a cell whose desired value was accepted.
abbrev pub synced_row : Row RestrictionValues → Row RestrictionValues
synced_row r = record r { sync_state = synced; last_error = none; synced_value = some r.desired }

settled-synced_row :
    (r q : Row RestrictionValues)
    → IsSameCell r q
    → outcome_row r.version was_synced RestrictionValues q ≡ synced_row r
settled-synced_row r q (d, v) =
    let now : (q.version == r.version) ≡ true = ground (arith, v) in
    rw (now, outcome_row) (rw (d, v) refl)

module _ {K : Type 0} ⦃e : Eq K⦄ (canon : Option FieldValue → K) (weekday_of : LocalDate → Weekday)
    (world : World) (ctx : PushContext) (accepting : IsAccepting world) where
  push_chunks-accepted :
      (pending : PendingCells) (st : PushState) (k : CellKey)
      → let at = lookup (rate_key_ref k) (versions_from [] (sent_cells pending)) in
        let es =
          map
            (map plan_entry)
            (build_restriction_batch weekday_of canon (rate_cells pending.0) ctx.push_limits) in
        IsDone (push_chunks canon weekday_of world ctx pending st)
        × ((b : Bool) × (lookup k
                ((push_chunks canon weekday_of world ctx pending st).0.store.rate_rows)
              ≡ change
                  (decide_row at
                    (if_covered (any_chunk weekday_of world ctx accepting k es) was_synced))
                  (change (decide_row at (if_covered b was_synced)) (lookup k st.store.rate_rows))))
  push_chunks-accepted (rates, counts) st k =
      let versions = versions_from [] (sent_cells (rates, counts)) in
      let rooms =
        map (map room_entry)
          (build_availability_batch weekday_of (availability_cells counts) ctx.push_limits) in
      let plans =
        map (map plan_entry)
          (build_restriction_batch weekday_of canon (rate_cells rates) ctx.push_limits) in
      let first = run_all weekday_of world ctx availability_cell rooms versions no_summary st in
      let (done, rows) =
        run_all-accepted weekday_of world ctx accepting availability_cell rooms versions no_summary
          st k in
      let (summary, said) = done in
      let (finished, last) =
        run_all-accepted weekday_of world ctx accepting rate_cell plans versions summary first.0
          k in
      rw (said, push_chunks)
        (
          finished,
          (
            any_chunk weekday_of world ctx accepting k rooms,
            last
                ∙ ap
                    (change (
                      decide_row (lookup (rate_key_ref k) versions)
                        (if_covered (any_chunk weekday_of world ctx accepting k plans) was_synced)))
                    rows,
          ),
        )

  not_empty :
      (rates : List (PendingCell RestrictionValues)) (counts : List (PendingCell ℕ)) (c : CellRef)
      → any {A = CellRef × ℕ}
          (λ p. ref_beq p.0 c)
          (map (λ x. (cell_ref rate_cell x, x.cell_version)) rates)
        ≡ true
      → is_empty (rates, counts) ≡ false
  not_empty [] counts c h = cc
  not_empty (x ∷ rates) [] c h = refl
  not_empty (x ∷ rates) (y ∷ counts) c h = refl

  verified_end-unsampled :
      (first last : LocalDate) (a : PushState × Result PushSummary Thrown)
      → ctx.sampled ≡ false
      → verified_end canon weekday_of world ctx first last a ≡ a
  verified_end-unsampled first last (st, err x) h = refl
  verified_end-unsampled first last (st, ok summary) h = rw (h, verified_end) refl

  module _ (inj : (v w : Option FieldValue) → canon v ≡ canon w → v ≡ w)
      (positive : 0 < ctx.push_limits.max_entries) where
    push_pending-synced :
        (m : Rows RestrictionValues) (counts : List (PendingCell ℕ)) (st : PushState) (k : CellKey)
        (r : Row RestrictionValues) (f : RestrictionField) (v : FieldValue)
        → ctx.sampled ≡ false
        → Distinct m
        → lookup k m ≡ some r
        → lookup k st.store.rate_rows ≡ some r
        → is_loaded r ≡ true
        → r.desired f ≡ some v
        → let a = push_pending canon weekday_of world ctx (pending_rows m, counts) st in
          IsDone a × (lookup k a.0.store.rate_rows ≡ some (synced_row r))
    push_pending-synced m counts st k r f v unsampled d h held l value =
        let pending : PendingCells = (pending_rows m, counts) in
        let marked : PushState = record st {
          store = mark_in_flight (sent_cells pending) st.store;
        } in
        let (q, found, same) =
          mark_in_flight-IsSameCell (sent_cells pending) st.store k r r held (refl, refl) in
        let (done, (b, rows)) = push_chunks-accepted pending marked k in
        let at : lookup (rate_key_ref k) (versions_from [] (sent_cells pending)) ≡ some r.version =
          sent-version m counts k r d h l in
        let covered =
          ap (any (covers_ref weekday_of (rate_key_ref k))) (
            map-concat plan_entry
              (build_restriction_batch weekday_of canon (cells_of_rows m) ctx.push_limits))
          ∙ batch-covers canon weekday_of inj m ctx.push_limits k r f v d positive h l value in
        let row =
          rows
          ∙ (rw (found, covered, at)
              (ap some (
                decide-again weekday_of world ctx accepting (some r.version) b true q
                ∙ ap (λ x. decide_row (some r.version) (if_covered x was_synced) q) (or_true b)
                ∙ settled-synced_row r q same))) in
        rw (not_empty (pending_rows m) counts (rate_key_ref k) (rates-sent k r m h l), push_pending)
          (subst (λ a. IsDone a × (lookup k a.0.store.rate_rows ≡ some (synced_row r)))
            (sym (
              verified_end-unsampled _ _ (push_chunks canon weekday_of world ctx pending marked)
                unsampled))
            (done, row))

    -- The cells that are past are dropped, and the rest is pushed.
    from_day-synced :
        (today : Option LocalDate) (st : PushState) (k : CellKey) (r : Row RestrictionValues)
        (f : RestrictionField) (v : FieldValue)
        → is_sendable today k.1 ≡ true
        → ctx.sampled ≡ false
        → Distinct st.store.rate_rows
        → lookup k st.store.rate_rows ≡ some r
        → is_loaded r ≡ true
        → r.desired f ≡ some v
        → let p = drop_past today (load_pending st.store) st in
          let a = push_pending canon weekday_of world ctx p.0 p.1 in
          IsDone a × (lookup k a.0.store.rate_rows ≡ some (synced_row r))
    unfolding drop_past load_pending
    from_day-synced none st k r f v s unsampled d h l value =
        push_pending-synced st.store.rate_rows (pending_rows st.store.availability_rows) st k r f v
          unsampled d h h l value
    from_day-synced (some today) st k r f v s unsampled d h l value =
        let m = st.store.rate_rows in
        let p = drop_past (some today) (load_pending st.store) st in
        subst
          (λ rates.
            let a = push_pending canon weekday_of world ctx (rates, p.0.1) p.1 in
            IsDone a × (lookup k a.0.store.rate_rows ≡ some (synced_row r)))
          (sym (pending_rows-from today m))
          (push_pending-synced (rows_from today m) p.0.1 p.1 k r f v unsampled
            (rows_from-Distinct today m d) (lookup-rows_from today m k (some r) s h)
            (past_outcomes-lookup today k r (load_pending st.store) st.store s h) l value)

    -- A push gets through, with the day of the property set or not: where the breaker lets it, no
    -- verification is sampled, and the provider accepts every entry while nobody edits,
    -- `pushProperty` ends without an error, and every pending rate cell that has a value in some
    -- field and whose date is not before that day is synced, with the desired values as the synced
    -- ones. The rows' keys are distinct, the batch limit is positive and the canonical texts of
    -- different values differ.
    pub push_property-synced :
        (st : PushState) (k : CellKey) (r : Row RestrictionValues) (f : RestrictionField)
        (v : FieldValue)
        → (allow ctx.breaker_options ctx.started_at ctx.org_id st.breakers).0 ≡ true
        → is_sendable ctx.today k.1 ≡ true
        → ctx.sampled ≡ false
        → Distinct st.store.rate_rows
        → lookup k st.store.rate_rows ≡ some r
        → is_loaded r ≡ true
        → r.desired f ≡ some v
        → let a = push_property canon weekday_of world ctx st in
          IsDone a × (lookup k a.0.store.rate_rows ≡ some (synced_row r))
    unfolding push_property
    push_property-synced st k r f v may sendable unsampled d h l value =
        let st' : PushState = record st {
          breakers = (allow ctx.breaker_options ctx.started_at ctx.org_id st.breakers).1;
        } in
        rw (may, push_property)
          (from_day-synced ctx.today st' k r f v sendable unsampled d h l value)
