-- ===== src/Sync/Push/Pipeline/Rows.antt =====
-- `run` of push/pipeline.ts: what the outcomes of one chunk do to the row of a rate cell.
use channex_pms.Prelude.{
  ℕ, ◌≡◌, refl, sym, Bool, true, false, ◌||◌, Option, none, some, List, [], ◌∷◌, ◌++◌,
  if◌then◌else◌, ◌==◌, nat_eq, pair_eq, map, any, ◌∙◌, ap, Bool-cases, inl, inr,
}
use channex_pms.Prelude.Maps.{lookup, lookup-adjust, change}
use channex_pms.Shared.Date.{LocalDate}
use channex_pms.Inventory.{
  Weekday, RestrictionValues, CellKind, rate_cell, availability_cell, CellRef,
}
use channex_pms.Sync.Apply.{CellKey}
use channex_pms.Sync.Push.Store.{
  Row, AriStore, retry, OutcomeStatus, was_synced, was_failed, CellOutcome, settle_row, outcome_row,
  on_row_of, apply_outcomes,
}
use channex_pms.Sync.Push.Pipeline.{
  ref_beq, ref_beq_iff, ref_has_eq, Entry, Versions, fail_with, entry_refs, versioned, cells_of,
  outcomes_as,
}

abbrev pub rate_key_ref : CellKey → CellRef
rate_key_ref k = record { kind = rate_cell; id = k.0; date = k.1 }

module _ {V : Type 0} where
  -- The outcomes of a cell, one after the other.
  abbrev pub settle_list : List CellOutcome → CellRef → Row V → Row V
  settle_list [] c r = r
  settle_list (o ∷ os) c r =
      settle_list os c (if ref_beq o.cell c then outcome_row o.outcome_version o.status V r else r)

  -- The one outcome that counts: of the version that was sent, if any, and the status, if any.
  abbrev pub decide_row : Option ℕ → Option OutcomeStatus → Row V → Row V
  decide_row (some v) (some status) r = outcome_row v status V r
  decide_row _ _ r = r

  settle_list-append :
      (os ps : List CellOutcome) (c : CellRef) (r : Row V)
      → settle_list (os ++ ps) c r ≡ settle_list ps c (settle_list os c r)
  settle_list-append [] ps c r = refl
  settle_list-append (o ∷ os) ps c r = settle_list-append os ps c _

  settle_row_twice :
      (status : OutcomeStatus) (r : Row V)
      → (settle_row status V (settle_row status V r) ≡ settle_row status V r)
        × ((settle_row status V r).version ≡ r.version)
  settle_row_twice was_synced r = (refl, refl)
  settle_row_twice (was_failed retry) r = (refl, refl)
  settle_row_twice (was_failed _) r = (refl, refl)

  pub outcome_row_twice :
      (v : ℕ) (status : OutcomeStatus) (r : Row V)
      → outcome_row v status V (outcome_row v status V r) ≡ outcome_row v status V r
  outcome_row_twice v status r = elim (Bool-cases (r.version == v)) [
    | inl y ↦
        let (same, kept) = settle_row_twice status r in
        rw (y, outcome_row) (rw (kept, y, outcome_row) same)
    | inr n ↦ rw (n, outcome_row) (rw (n, outcome_row) refl)
  ]

pub change_same : {V : Type 0} (o : Option V) → change (λ r. r) o ≡ o
change_same none = refl
change_same (some r) = refl

change_if :
    {V : Type 0} (b : Bool) (f : V → V) (o : Option V)
    → (if b then change f o else o) ≡ change (λ r. if b then f r else r) o
change_if true f o = refl
change_if false f none = refl
change_if false f (some r) = refl

pub change_twice :
    {V : Type 0} (f g : V → V) (o : Option V) → change g (change f o) ≡ change (λ r. g (f r)) o
change_twice f g none = refl
change_twice f g (some r) = refl

-- The effect on the rate rows of a change of one row.
pub rate-on_row_of :
    (f : (V : Type 0) → Row V → Row V) (kind : CellKind) (j k : CellKey) (s : AriStore)
    → lookup k ((on_row_of kind j f s).rate_rows)
      ≡ change
          (λ r.
            if ref_beq (record { kind = kind; id = j.0; date = j.1 }) (rate_key_ref k)
            then f RestrictionValues r
            else r)
          (lookup k s.rate_rows)
rate-on_row_of f availability_cell j k s = sym (change_same (lookup k s.rate_rows))
rate-on_row_of f rate_cell j k s =
    lookup-adjust j k (f RestrictionValues) s.rate_rows
    ∙ change_if (pair_eq.beq j k) (f RestrictionValues) (lookup k s.rate_rows)

pub map-append :
    {A B : Type 0} (f : A → B) (xs ys : List A) → map f (xs ++ ys) ≡ map f xs ++ map f ys
map-append f [] ys = refl
map-append f (x ∷ xs) ys = ap (λ zs. f x ∷ zs) (map-append f xs ys)

-- The outcomes of a list, applied to the store, are those of each rate cell applied to its row.
pub apply_outcomes-lookup :
    (k : CellKey) (os : List CellOutcome) (s : AriStore)
    → lookup k ((apply_outcomes os s).rate_rows)
      ≡ change (settle_list os (rate_key_ref k)) (lookup k s.rate_rows)
unfolding apply_outcomes
apply_outcomes-lookup k [] s = sym (change_same (lookup k s.rate_rows))
apply_outcomes-lookup k (o ∷ os) s =
    apply_outcomes-lookup k os
      (on_row_of o.cell.kind (o.cell.id, o.cell.date) (outcome_row o.outcome_version o.status) s)
    ∙ ap (change (settle_list os (rate_key_ref k))) (
        rate-on_row_of (outcome_row o.outcome_version o.status) o.cell.kind (o.cell.id, o.cell.date)
          k s)
    ∙ change_twice _ (settle_list os (rate_key_ref k)) (lookup k s.rate_rows)

abbrev pub has_ref : CellRef → List CellRef → Bool
has_ref c refs = any (λ x. ref_beq x c) refs

abbrev pub covers_ref : (LocalDate → Weekday) → CellRef → Entry → Bool
covers_ref weekday_of c x = has_ref c (entry_refs weekday_of x)

-- The status of an entry, for a cell that it covers.
abbrev pub if_covered : Bool → OutcomeStatus → Option OutcomeStatus
if_covered b status = if b then some status else none

module _ {V : Type 0} (c : CellRef) where
  pub decide-none : (o : Option ℕ) (r : Row V) → decide_row o none r ≡ r
  decide-none none r = refl
  decide-none (some v) r = refl

  abbrev touch : Bool → Option ℕ → OutcomeStatus → Row V → Row V
  touch b o status r = if b then decide_row o (some status) r else r

  settle-head :
      (x : CellRef) (o : Option ℕ) (status : OutcomeStatus) (cells : List (CellRef × ℕ)) (r : Row V)
      → settle_list (map (fail_with status) (elim o [ none ↦ cells | some v ↦ (x, v) ∷ cells ])) c r
        ≡ settle_list (map (fail_with status) cells) c (touch (ref_beq x c) o status r)
  settle-head x none status cells r =
      ap (settle_list (map (fail_with status) cells) c) (same (ref_beq x c))
    where
      same : (b : Bool) → r ≡ (if b then r else r)
      same true = refl
      same false = refl
  settle-head x (some v) status cells r = refl

  combine :
      (b h : Bool) (at found : Option ℕ) (status : OutcomeStatus) (r : Row V)
      → (b ≡ true → found ≡ at)
      → decide_row at (if_covered h status) (touch b found status r)
        ≡ decide_row at (if_covered (b || h) status) r
  combine false h at found status r e = refl
  combine true h at found status r e =
      ap (λ o. decide_row at (if_covered h status) (decide_row o (some status) r)) (e refl)
      ∙ go h at
    where
      go :
          (h : Bool) (at : Option ℕ)
          → decide_row at (if_covered h status) (decide_row at (some status) r)
            ≡ decide_row at (some status) r
      go h none = refl
      go false (some v) = refl
      go true (some v) = outcome_row_twice v status r

  -- The outcomes of one entry's cells, all with one status.
  settle-versioned :
      (status : OutcomeStatus) (versions : Versions) (refs : List CellRef) (r : Row V)
      → settle_list (map (fail_with status) (versioned versions refs)) c r
        ≡ decide_row (lookup c versions) (if_covered (has_ref c refs) status) r
  settle-versioned status versions [] r = sym (decide-none (lookup c versions) r)
  settle-versioned status versions (x ∷ refs) r =
      settle-head x (lookup x versions) status (versioned versions refs) r
      ∙ settle-versioned status versions refs (touch (ref_beq x c) (lookup x versions) status r)
      ∙ combine (ref_beq x c) (has_ref c refs) (lookup c versions) (lookup x versions) status r
          (λ b. ap (λ y. lookup y versions) ((ref_beq_iff x c).0 b))

  module _ (weekday_of : LocalDate → Weekday) (versions : Versions) where
    -- All entries with one status.
    pub settle-outcomes_as :
        (status : OutcomeStatus) (entries : List Entry) (r : Row V)
        → settle_list (outcomes_as weekday_of status entries versions) c r
          ≡ decide_row
              (lookup c versions)
              (if_covered (any (covers_ref weekday_of c) entries) status)
              r
    settle-outcomes_as status [] r = sym (decide-none (lookup c versions) r)
    settle-outcomes_as status (x ∷ xs) r =
        let first = map (fail_with status) (versioned versions (entry_refs weekday_of x)) in
        ap (λ os. settle_list os c r)
          (map-append (fail_with status) (versioned versions (entry_refs weekday_of x))
            (cells_of weekday_of xs versions))
        ∙ settle_list-append first (outcomes_as weekday_of status xs versions) c r
        ∙ settle-outcomes_as status xs (settle_list first c r)
        ∙ ap (decide_row (lookup c versions) (if_covered (any (covers_ref weekday_of c) xs) status))
            (settle-versioned status versions (entry_refs weekday_of x) r)
        ∙ again (covers_ref weekday_of c x) (any (covers_ref weekday_of c) xs) (lookup c versions)
      where
        again :
            (b h : Bool) (at : Option ℕ)
            → decide_row at (if_covered h status) (decide_row at (if_covered b status) r)
              ≡ decide_row at (if_covered (b || h) status) r
        again b h none = refl
        again false h (some v) = refl
        again true false (some v) = refl
        again true true (some v) = outcome_row_twice v status r
