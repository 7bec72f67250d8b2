-- ===== src/Sync/Apply/Cells.antt =====
-- What the state of a list of cells reads.
use channex_pms.Prelude.{
  ◌≡◌, refl, sym, ap, ◌∙◌, Bool, ◌&&◌, Option, none, some, List, [], ◌∷◌, arith, ◌==◌,
  if◌then◌else◌, Bool-cases, inl, inr, nat_eq, pair_eq,
}
use channex_pms.Prelude.Maps.{insert}
use channex_pms.Shared.Date.{LocalDate}
use channex_pms.Inventory.{
  EntityId, RestrictionField, FieldValue, RestrictionValues, RateCell, AvailabilityCell,
}
use channex_pms.Sync.Encode.Coverage.{or_else, or_else_assoc}
use channex_pms.Sync.Apply.{CellKey, values_at, spread, rate_cells_state, state_from_cells}
use channex_pms.Sync.Apply.Reads.{read_cell, read_cell-insert}

abbrev pub is_cell : EntityId → LocalDate → RateCell → Bool
is_cell p d c = c.rate_plan_id == p && c.date == d

-- The last value of the field that a cell of the plan and date defines.
abbrev pub last_defined :
    EntityId → LocalDate → RestrictionField → List RateCell → Option FieldValue
last_defined p d f [] = none
last_defined p d f (c ∷ cs) =
    or_else (last_defined p d f cs) (if is_cell p d c then c.values f else none)

spread-or_else :
    (cur values : RestrictionValues) (f : RestrictionField)
    → spread cur values f ≡ or_else (values f) (cur f)
spread-or_else cur values f = ground arith

spread-read :
    (p : EntityId) (d : LocalDate) (c : RateCell) (m : List (CellKey × RestrictionValues))
    (f : RestrictionField)
    → read_cell p d f
        (insert (c.rate_plan_id, c.date) (spread (values_at (c.rate_plan_id, c.date) m) c.values) m)
      ≡ or_else (if is_cell p d c then c.values f else none) (read_cell p d f m)
spread-read p d c m f =
    read_cell-insert p c.rate_plan_id d c.date f _ m ∙ (elim (Bool-cases (is_cell p d c)) [
      | inl s ↦
          let plan : c.rate_plan_id ≡ p = ground arith in
          let day : c.date ≡ d = ground arith in
          rw (s, spread-or_else (values_at (c.rate_plan_id, c.date) m) c.values f) (rw (plan, day))
      | inr t ↦ rw t
    ])

rate_cells_state-read :
    (cells : List RateCell) (m : List (CellKey × RestrictionValues)) (p : EntityId) (d : LocalDate)
    (f : RestrictionField)
    → read_cell p d f (rate_cells_state m cells)
      ≡ or_else (last_defined p d f cells) (read_cell p d f m)
unfolding rate_cells_state
rate_cells_state-read [] m p d f = refl
rate_cells_state-read (c ∷ cs) m p d f =
    rate_cells_state-read cs
      (insert (c.rate_plan_id, c.date) (spread (values_at (c.rate_plan_id, c.date) m) c.values) m) p
      d f
    ∙ ap (or_else (last_defined p d f cs)) (spread-read p d c m f)
    ∙ sym (or_else_assoc (last_defined p d f cs) _ (read_cell p d f m))

-- The state of cells reads, of each field, the last value that a cell of the plan and date has.
pub state_from_cells-read :
    (rate : List RateCell) (avail : List AvailabilityCell) (p : EntityId) (d : LocalDate)
    (f : RestrictionField)
    → read_cell p d f (state_from_cells rate avail).restrictions ≡ last_defined p d f rate
unfolding state_from_cells
state_from_cells-read rate avail p d f =
    rate_cells_state-read rate [] p d f ∙ bare (last_defined p d f rate)
  where
    bare : (o : Option FieldValue) → or_else o none ≡ o
    bare none = refl
    bare (some v) = refl
