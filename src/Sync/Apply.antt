-- ===== src/Sync/Apply.antt =====
-- packages/sync/src/batch/apply.ts: the ARI state that batches are applied to, and the state that
-- holds the desired cells.
pub mod Reads
pub mod Cells
use channex_pms.Prelude.{
  ℕ, Bool, true, false, not, ◌||◌, Option, none, some, List, [], ◌∷◌, ◌++◌, if◌then◌else◌, Eq,
  nat_eq, pair_eq, map, filter, any,
}
use channex_pms.Prelude.Maps.{lookup, insert}
use channex_pms.Shared.Date.{LocalDate}
use channex_pms.Inventory.{
  EntityId, Weekday, RestrictionField, restriction_fields, FieldValue, RestrictionValues, no_values,
  with_field, RateCell, AvailabilityCell, RestrictionEntry, AvailabilityEntry,
}
use channex_pms.Sync.Dates.{expand_dates}

-- `rateKey` and `availKey`.
abbrev pub CellKey : Type 0
CellKey = EntityId × LocalDate

pub record AriState : Type 0 where
  pub restrictions : List (CellKey × RestrictionValues)
  pub availability : List (CellKey × ℕ)

abbrev pub empty_state : AriState
empty_state = record { restrictions = []; availability = [] }

-- `map.get(k) ?? {}`.
abbrev pub values_at : CellKey → List (CellKey × RestrictionValues) → RestrictionValues
values_at k m = elim (lookup k m) [ none ↦ no_values | some v ↦ v ]

-- `for (const f of FIELDS) if (e[f] !== undefined) cur[f] = e[f]`.
set_fields : List RestrictionField → RestrictionValues → RestrictionValues → RestrictionValues
set_fields [] e cur = cur
set_fields (f ∷ fs) e cur =
    set_fields fs e (elim (e f) [ none ↦ cur | some v ↦ with_field f (some v) cur ])

-- One entry on the dates that it expands to.
write_dates :
    EntityId
    → RestrictionValues
    → List LocalDate
    → List (CellKey × RestrictionValues)
    → List (CellKey × RestrictionValues)
unfolding set_fields restriction_fields
write_dates plan values [] m = m
write_dates plan values (d ∷ ds) m =
    write_dates plan values ds
      (insert (plan, d) (set_fields restriction_fields values (values_at (plan, d) m)) m)

write_counts : EntityId → ℕ → List LocalDate → List (CellKey × ℕ) → List (CellKey × ℕ)
write_counts room count [] m = m
write_counts room count (d ∷ ds) m = write_counts room count ds (insert (room, d) count m)

module _ (weekday_of : LocalDate → Weekday) where
  unfoldable pub apply_restriction_entries : AriState → List RestrictionEntry → AriState
  unfolding write_dates
  apply_restriction_entries state [] = state
  apply_restriction_entries state (x ∷ entries) =
      apply_restriction_entries
        (record state {
          restrictions =
              write_dates x.rate_plan_id x.values
                (expand_dates weekday_of x.date_from x.date_to x.days) state.restrictions;
        })
        entries

  unfoldable pub apply_availability_entries : AriState → List AvailabilityEntry → AriState
  unfolding write_counts
  apply_availability_entries state [] = state
  apply_availability_entries state (x ∷ entries) =
      apply_availability_entries
        (record state {
          availability =
              write_counts x.room_type_id x.availability
                (expand_dates weekday_of x.date_from x.date_to x.days) state.availability;
        })
        entries

-- `{ ...cur, ...definedOnly(values) }`.
abbrev pub spread : RestrictionValues → RestrictionValues → RestrictionValues
spread cur values f = elim (values f) [ none ↦ cur f | some v ↦ some v ]

rate_cells_state :
    List (CellKey × RestrictionValues) → List RateCell → List (CellKey × RestrictionValues)
rate_cells_state m [] = m
rate_cells_state m (c ∷ cs) =
    rate_cells_state
      (insert (c.rate_plan_id, c.date) (spread (values_at (c.rate_plan_id, c.date) m) c.values) m)
      cs

availability_cells_state : List (CellKey × ℕ) → List AvailabilityCell → List (CellKey × ℕ)
availability_cells_state m [] = m
availability_cells_state m (c ∷ cs) =
    availability_cells_state (insert (c.room_type_id, c.date) c.availability m) cs

unfoldable pub state_from_cells : List RateCell → List AvailabilityCell → AriState
unfolding rate_cells_state availability_cells_state
state_from_cells rate avail = record {
  restrictions = rate_cells_state [] rate;
  availability = availability_cells_state [] avail;
}
