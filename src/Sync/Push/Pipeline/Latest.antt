-- ===== src/Sync/Push/Pipeline/Latest.antt =====
-- `run` of push/pipeline.ts, for a chunk that the provider answers: the last outcome of each cell.
use channex_pms.Prelude.{
  append-nil, ℕ, suc, ◌≡◌, refl, Bool, true, false, ◌||◌, Option, none, some, List, [], ◌∷◌, ◌++◌,
  if◌then◌else◌, nat_eq, map, ◌∙◌, ap, Bool-cases, inl, inr,
}
use channex_pms.Prelude.Maps.{lookup}
use channex_pms.Shared.Date.{LocalDate}
use channex_pms.Inventory.{Weekday, CellRef}
use channex_pms.Sync.Push.Store.{Row, retry, was_synced, was_failed, OutcomeStatus, CellOutcome}
use channex_pms.Sync.Push.Reference.{Text, is_reference_miss}
use channex_pms.Sync.Push.Pipeline.{
  ref_beq, ref_beq_iff, ref_has_eq, Entry, Versions, fail_with, status_for, reason_of, latest,
  entry_refs, versioned, outcomes_as, outcomes_from,
}
use channex_pms.Sync.Push.Pipeline.Rows.{settle_list, decide_row, has_ref, covers_ref}
use channex_pms.Sync.Push.Pipeline.Winners.{last_for, apply_best, settle-latest}

-- The status of an entry by its rejection, if any: a missing reference is retried.
abbrev pub entry_status : Option Text → OutcomeStatus
entry_status none = was_synced
entry_status (some reason) =
    if is_reference_miss reason then was_failed retry else was_failed (reason_of reason)

status_for-entry_status : (o : Option Text) → status_for o ≡ entry_status o
status_for-entry_status none = refl
status_for-entry_status (some reason) = elim (Bool-cases (is_reference_miss reason)) [
  | inl y ↦ rw (y, status_for) refl
  | inr n ↦ rw (n, status_for) refl
]

-- The status of the last entry that covers the cell, from the index `i` on.
abbrev pub decided :
    (LocalDate → Weekday)
    → CellRef
    → List (ℕ × Text)
    → ℕ
    → List Entry
    → Option OutcomeStatus
    → Option OutcomeStatus
decided weekday_of c rejected i [] best = best
decided weekday_of c rejected i (x ∷ xs) best =
    decided weekday_of c rejected (suc i) xs
      (if covers_ref weekday_of c x then some (entry_status (lookup i rejected)) else best)

module _ (c : CellRef) where
  abbrev wrap : Option ℕ → Option OutcomeStatus → Option CellOutcome
  wrap (some v) (some status) = some (record { cell = c; outcome_version = v; status = status })
  wrap _ _ = none

  last_for-append :
      (os ps : List CellOutcome) (best : Option CellOutcome)
      → last_for c (os ++ ps) best ≡ last_for c ps (last_for c os best)
  last_for-append [] ps best = refl
  last_for-append (o ∷ os) ps best =
      last_for-append os ps (if ref_beq o.cell c then some o else best)

  last_for-head :
      (x : CellRef) (found : Option ℕ) (status : OutcomeStatus) (cells : List (CellRef × ℕ))
      (at : Option ℕ) (best : Option OutcomeStatus)
      → (ref_beq x c ≡ true → found ≡ at)
      → last_for c
          (map (fail_with status) (elim found [ none ↦ cells | some v ↦ (x, v) ∷ cells ]))
          (wrap at best)
        ≡ last_for c
            (map (fail_with status) cells)
            (wrap at (if ref_beq x c then some status else best))
  last_for-head x none status cells at best e =
      ap (last_for c (map (fail_with status) cells)) (go (ref_beq x c) at e)
    where
      go :
          (b : Bool) (at : Option ℕ)
          → (b ≡ true → none ≡ at)
          → wrap at best ≡ wrap at (if b then some status else best)
      go false at e = refl
      go true none e = refl
      go true (some v) e = cc (e refl)
  last_for-head x (some v) status cells at best e =
      ap (last_for c (map (fail_with status) cells)) (elim (Bool-cases (ref_beq x c)) [
        | inl y ↦ go (ref_beq x c) at y e ((ref_beq_iff x c).0 y)
        | inr z ↦ other (ref_beq x c) z
      ])
    where
      go :
          (b : Bool) (at : Option ℕ)
          → b ≡ true
          → (b ≡ true → some v ≡ at)
          → x ≡ c
          → (if b
              then some (record { cell = x; outcome_version = v; status = status })
              else wrap at best)
            ≡ wrap at (if b then some status else best)
      go false at h e p = cc
      go true at h e p =
          ap (λ z. some (record { cell = z; outcome_version = v; status = status })) p
          ∙ ap (λ o. wrap o (some status)) (e refl)

      other :
          (b : Bool)
          → b ≡ false
          → (if b
              then some (record { cell = x; outcome_version = v; status = status })
              else wrap at best)
            ≡ wrap at (if b then some status else best)
      other false h = refl
      other true h = cc

  last_for-versioned :
      (versions : Versions) (status : OutcomeStatus) (refs : List CellRef)
      (best : Option OutcomeStatus)
      → last_for c
          (map (fail_with status) (versioned versions refs))
          (wrap (lookup c versions) best)
        ≡ wrap (lookup c versions) (if has_ref c refs then some status else best)
  last_for-versioned versions status [] best = refl
  last_for-versioned versions status (x ∷ refs) best =
      last_for-head x (lookup x versions) status (versioned versions refs) (lookup c versions) best
        (λ b. ap (λ y. lookup y versions) ((ref_beq_iff x c).0 b))
      ∙ last_for-versioned versions status refs (if ref_beq x c then some status else best)
      ∙ ap (wrap (lookup c versions)) (go (ref_beq x c) (has_ref c refs))
    where
      go :
          (b h : Bool)
          → (if h then some status else (if b then some status else best))
            ≡ (if b || h then some status else best)
      go true true = refl
      go true false = refl
      go false h = refl

  module _ (weekday_of : LocalDate → Weekday) (rejected : List (ℕ × Text))
      (versions : Versions) where
    last_for-outcomes_from :
        (i : ℕ) (entries : List Entry) (best : Option OutcomeStatus)
        → last_for c
            (outcomes_from weekday_of rejected i entries versions)
            (wrap (lookup c versions) best)
          ≡ wrap (lookup c versions) (decided weekday_of c rejected i entries best)
    last_for-outcomes_from i [] best = refl
    last_for-outcomes_from i (x ∷ xs) best =
        let status = status_for (lookup i rejected) in
        let refs = entry_refs weekday_of x in
        last_for-append (outcomes_as weekday_of status (x ∷ []) versions)
          (outcomes_from weekday_of rejected (suc i) xs versions) (wrap (lookup c versions) best)
        ∙ ap
            (λ cells.
              last_for c (outcomes_from weekday_of rejected (suc i) xs versions)
                (last_for c (map (fail_with status) cells) (wrap (lookup c versions) best)))
            (append-nil (versioned versions refs))
        ∙ ap (last_for c (outcomes_from weekday_of rejected (suc i) xs versions))
            (last_for-versioned versions status refs best)
        ∙ last_for-outcomes_from (suc i) xs
            (if covers_ref weekday_of c x then some status else best)
        ∙ ap
            (λ t. wrap (lookup c versions) (
              decided weekday_of c rejected (suc i) xs
                (if covers_ref weekday_of c x then some t else best)))
            (status_for-entry_status (lookup i rejected))

    apply-wrap :
        {V : Type 0} (at : Option ℕ) (best : Option OutcomeStatus) (r : Row V)
        → apply_best c (wrap at best) r ≡ decide_row at best r
    apply-wrap none best r = refl
    apply-wrap (some v) none r = refl
    apply-wrap (some v) (some status) r = refl

    -- The latest outcomes of the entries of an answered chunk, on the row of a cell.
    pub settle-answer :
        {V : Type 0} (entries : List Entry) (r : Row V)
        → settle_list (latest (outcomes_from weekday_of rejected 0 entries versions)) c r
          ≡ decide_row (lookup c versions) (decided weekday_of c rejected 0 entries none) r
    settle-answer entries r =
        settle-latest c (outcomes_from weekday_of rejected 0 entries versions) r
        ∙ ap (λ o. apply_best c o r)
            (ap (last_for c (outcomes_from weekday_of rejected 0 entries versions))
                (no_best (lookup c versions))
              ∙ last_for-outcomes_from 0 entries none)
        ∙ apply-wrap (lookup c versions) (decided weekday_of c rejected 0 entries none) r
      where
        no_best : (at : Option ℕ) → none ≡ wrap at none
        no_best none = refl
        no_best (some v) = refl
