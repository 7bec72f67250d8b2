-- ===== src/Sync/Push/Property/Today.antt =====
-- `dropPast` of push/pipeline.ts, for a rate cell that is not past.
use channex_pms.Prelude.{
  ℕ, ◌≡◌, refl, Bool, true, false, Option, none, some, List, [], ◌∷◌, if◌then◌else◌, leb, nat_eq,
  pair_eq, map, filter, ◌∙◌, ap, arith, All, All-append, Bool-cases, inl, inr, subst,
}
use channex_pms.Prelude.Maps.{lookup, Distinct, change}
use channex_pms.Shared.Date.{LocalDate}
use channex_pms.Inventory.{RestrictionValues, rate_cell, availability_cell, CellRef}
use channex_pms.Sync.Apply.{CellKey}
use channex_pms.Sync.Push.Store.{
  Row, Rows, AriStore, PendingCell, is_loaded, pending_cell, pending_rows, CellOutcome,
  apply_outcomes,
}
use channex_pms.Sync.Push.Pipeline.{ref_beq}
use channex_pms.Sync.Push.Pipeline.Rows.{rate_key_ref, settle_list, apply_outcomes-lookup}
use channex_pms.Sync.Push.Property.{PendingCells, past_outcome, past_outcomes, is_past}

-- A date that a push with this day, if any, sends.
abbrev pub is_sendable : Option LocalDate → LocalDate → Bool
is_sendable none date = true
is_sendable (some today) date = leb today date

-- The rows from a day on.
abbrev pub rows_from : LocalDate → Rows RestrictionValues → Rows RestrictionValues
rows_from today m = filter (λ p. leb today p.0.1) m

pub pending_rows-from :
    (today : LocalDate) (m : Rows RestrictionValues)
    → filter (λ c. leb today c.key.1) (pending_rows m) ≡ pending_rows (rows_from today m)
pending_rows-from today [] = refl
pending_rows-from today ((j, q) ∷ m) = elim (Bool-cases (is_loaded q)) [
  | inl y ↦ elim (Bool-cases (leb today j.1)) [
    | inl s ↦
        rw (y, s, filter)
          (rw (y, filter) (ap (λ xs. pending_cell (j, q) ∷ xs) (pending_rows-from today m)))
    | inr n ↦ rw (y, n, filter) (pending_rows-from today m)
  ]
  | inr z ↦ elim (Bool-cases (leb today j.1)) [
    | inl s ↦ rw (z, s, filter) (rw (z, filter) (pending_rows-from today m))
    | inr n ↦ rw (z, n, filter) (pending_rows-from today m)
  ]
]

pub lookup-rows_from :
    (today : LocalDate) (m : Rows RestrictionValues) (k : CellKey)
    (o : Option (Row RestrictionValues))
    → leb today k.1 ≡ true
    → lookup k m ≡ o
    → lookup k (rows_from today m) ≡ o
lookup-rows_from today [] k o s h = h
lookup-rows_from today ((j, q) ∷ m) k o s h = elim (Bool-cases (pair_eq.beq j k)) [
  | inl y ↦
      let here : leb today j.1 ≡ true = rw ((pair_eq.beq_iff j k).0 y) s in
      rw (here, filter) (rw y (subst (λ b. (if b then some q else lookup k m) ≡ o) y h))
  | inr n ↦
      let ih =
        lookup-rows_from today m k o s (subst (λ b. (if b then some q else lookup k m) ≡ o) n h) in
      elim (Bool-cases (leb today j.1)) [
        | inl t ↦ rw (t, filter) (rw n ih)
        | inr u ↦ rw (u, filter) ih
      ]
]

absent-rows_from :
    (today : LocalDate) (m : Rows RestrictionValues) (k : CellKey)
    → lookup k m ≡ none
    → lookup k (rows_from today m) ≡ none
absent-rows_from today [] k h = refl
absent-rows_from today ((j, q) ∷ m) k h = elim (Bool-cases (pair_eq.beq j k)) [
  | inl y ↦
      let bad : some q ≡ none = subst (λ b. (if b then some q else lookup k m) ≡ none) y h in cc
  | inr n ↦
      let ih =
        absent-rows_from today m k (subst (λ b. (if b then some q else lookup k m) ≡ none) n h) in
      elim (Bool-cases (leb today j.1)) [
        | inl t ↦ rw (t, filter) (rw n ih)
        | inr u ↦ rw (u, filter) ih
      ]
]

pub rows_from-Distinct :
    (today : LocalDate) (m : Rows RestrictionValues) → Distinct m → Distinct (rows_from today m)
rows_from-Distinct today [] d = d
rows_from-Distinct today ((j, q) ∷ m) (n, d) = elim (Bool-cases (leb today j.1)) [
  | inl t ↦ rw (t, filter) (absent-rows_from today m j n, rows_from-Distinct today m d)
  | inr u ↦ rw (u, filter) (rows_from-Distinct today m d)
]

-- Outcomes of other cells leave a row as it is.
settle_list-others :
    (os : List CellOutcome) (c : CellRef) (r : Row RestrictionValues)
    → All (λ o. ref_beq o.cell c ≡ false) os
    → settle_list os c r ≡ r
settle_list-others [] c r h = refl
settle_list-others (o ∷ os) c r (n, h) = rw (n, settle_list) (settle_list-others os c r h)

past_rates-others :
    (today : LocalDate) (k : CellKey) (cs : List (PendingCell RestrictionValues))
    → leb today k.1 ≡ true
    → All
        (λ o. ref_beq o.cell (rate_key_ref k) ≡ false)
        (map (past_outcome rate_cell) (filter (is_past today) cs))
past_rates-others today k [] s = tt
past_rates-others today k (c ∷ cs) s = elim (Bool-cases (is_past today c)) [
  | inl y ↦ rw (y, filter) (ground (arith, y, s), past_rates-others today k cs s)
  | inr n ↦ rw (n, filter) (past_rates-others today k cs s)
]

past_counts-others :
    (today : LocalDate) (k : CellKey) (cs : List (PendingCell ℕ))
    → All
        (λ o. ref_beq o.cell (rate_key_ref k) ≡ false)
        (map (past_outcome availability_cell) (filter (is_past today) cs))
past_counts-others today k [] = tt
past_counts-others today k (c ∷ cs) = elim (Bool-cases (is_past today c)) [
  | inl y ↦ rw (y, filter) (refl, past_counts-others today k cs)
  | inr n ↦ rw (n, filter) (past_counts-others today k cs)
]

-- The outcomes of past cells leave the row of a cell that is not past.
pub past_outcomes-lookup :
    (today : LocalDate) (k : CellKey) (r : Row RestrictionValues) (pending : PendingCells)
    (s : AriStore)
    → leb today k.1 ≡ true
    → lookup k s.rate_rows ≡ some r
    → lookup k ((apply_outcomes (past_outcomes today pending) s).rate_rows) ≡ some r
past_outcomes-lookup today k r (rates, counts) s h found =
    let os = past_outcomes today (rates, counts) in
    apply_outcomes-lookup k os s
    ∙ ap (change (settle_list os (rate_key_ref k))) found
    ∙ ap some (
        settle_list-others os (rate_key_ref k) r (
          All-append _ (map (past_outcome rate_cell) (filter (is_past today) rates))
            (map (past_outcome availability_cell) (filter (is_past today) counts))
            (past_rates-others today k rates h) (past_counts-others today k counts)))
