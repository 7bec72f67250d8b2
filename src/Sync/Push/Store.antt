-- ===== src/Sync/Push/Store.antt =====
-- `MemoryAriStore` of push/memory-store.ts, with the contract of core/src/inventory/ports.ts. The
-- two maps hold the rows of the rate cells and of the availability cells under their keys.
pub mod Steps
pub mod Edits
use channex_pms.Prelude.{
  length, ℕ, suc, ◌+◌, Bool, true, false, not, ◌&&◌, Option, none, some, List, [], ◌∷◌,
  if◌then◌else◌, ◌==◌, leb, nat_eq, pair_eq, map, filter,
}
use channex_pms.Prelude.Maps.{lookup, insert, adjust}
use channex_pms.Shared.Date.{LocalDate}
use channex_pms.Inventory.{
  EntityId, SyncState, pending, in_flight, synced, failed, conflicted, RestrictionValues, no_values,
  CellKind, rate_cell, availability_cell, CellRef,
}
use channex_pms.Sync.Apply.{CellKey, spread}

-- The reason of a failed outcome, a text of which "retry" and "validation" are told apart.
pub data Reason : Type 0 where
  retry validation : Reason
  other_reason : List ℕ → Reason

-- `RateRow` and `AvailRow`, by the type of the desired value; the key is the map's.
pub record Row (V : Type 0) : Type 0 where
  pub desired : V
  pub synced_value : Option V
  pub sync_state : SyncState
  pub version : ℕ
  pub last_error : Option Reason

abbrev pub Rows : Type 0 → Type 0
Rows V = List (CellKey × Row V)

pub record AriStore : Type 0 where
  pub rate_rows : Rows RestrictionValues
  pub availability_rows : Rows ℕ

abbrev pub empty_store : AriStore
empty_store = record { rate_rows = []; availability_rows = [] }

module _ {V : Type 0} where
  -- The row that an edit leaves, from the previous one.
  abbrev pub edited_row : Option (Row V) → V → Row V
  edited_row none value = record {
    desired = value;
    synced_value = none;
    sync_state = pending;
    version = 1;
    last_error = none;
  }
  edited_row (some prev) value = record {
    desired = value;
    synced_value = prev.synced_value;
    sync_state = pending;
    version = prev.version + 1;
    last_error = none;
  }

  -- `prev?.values ?? {}`.
  abbrev pub desired_or : V → Option (Row V) → V
  desired_or value none = value
  desired_or value (some prev) = prev.desired

unfoldable pub set_rate : EntityId → LocalDate → RestrictionValues → AriStore → AriStore
set_rate plan date values s =
    let prev = lookup (plan, date) s.rate_rows in
    record s {
      rate_rows =
          insert (plan, date) (edited_row prev (spread (desired_or no_values prev) values))
            s.rate_rows;
    }

unfoldable pub set_availability : EntityId → LocalDate → ℕ → AriStore → AriStore
set_availability room date available s =
    let prev = lookup (room, date) s.availability_rows in
    record s {
      availability_rows = insert (room, date) (edited_row prev available) s.availability_rows;
    }

-- What `loadPending` selects: pending, failed or conflicted, without a validation error.
abbrev pub in_pending_states : SyncState → Bool
in_pending_states pending = true
in_pending_states failed = true
in_pending_states conflicted = true
in_pending_states _ = false

abbrev pub is_validation : Option Reason → Bool
is_validation (some validation) = true
is_validation _ = false

pub record PendingCell (V : Type 0) : Type 0 where
  pub key : CellKey
  pub value : V
  pub cell_version : ℕ

module _ {V : Type 0} where
  abbrev pub is_loaded : Row V → Bool
  is_loaded r = in_pending_states r.sync_state && not (is_validation r.last_error)

  abbrev pub pending_cell : CellKey × Row V → PendingCell V
  pending_cell (k, r) = record { key = k; value = r.desired; cell_version = r.version }

  abbrev pub pending_rows : Rows V → List (PendingCell V)
  pending_rows m = map pending_cell (filter (λ p. is_loaded p.1) m)

  -- A desired cell of `loadDesired`.
  abbrev pub in_window : LocalDate → LocalDate → CellKey × Row V → Bool
  in_window date_from date_to (k, r) = leb date_from k.1 && leb k.1 date_to

unfoldable pub load_pending : AriStore → List (PendingCell RestrictionValues) × List (PendingCell ℕ)
load_pending s = (pending_rows s.rate_rows, pending_rows s.availability_rows)

unfoldable pub load_desired :
    LocalDate → LocalDate → AriStore → List (CellKey × RestrictionValues) × List (CellKey × ℕ)
load_desired date_from date_to s = (
  map (λ p. (p.0, p.1.desired)) (filter (in_window date_from date_to) s.rate_rows),
  map (λ p. (p.0, p.1.desired)) (filter (in_window date_from date_to) s.availability_rows),
)

-- `row(c)` and its mutation in place.
abbrev pub on_row_of : CellKind → CellKey → ((V : Type 0) → Row V → Row V) → AriStore → AriStore
on_row_of rate_cell k f s = record s { rate_rows = adjust k (f RestrictionValues) s.rate_rows }
on_row_of availability_cell k f s = record s {
  availability_rows = adjust k (f ℕ) s.availability_rows;
}

abbrev pub on_row : CellRef → ((V : Type 0) → Row V → Row V) → AriStore → AriStore
on_row c f s = on_row_of c.kind (c.id, c.date) f s

abbrev pub mark_row : ℕ → (V : Type 0) → Row V → Row V
mark_row v V r = if r.version == v then record r { sync_state = in_flight } else r

unfoldable pub mark_in_flight : List (CellRef × ℕ) → AriStore → AriStore
mark_in_flight [] s = s
mark_in_flight ((c, v) ∷ cells) s = mark_in_flight cells (on_row c (mark_row v) s)

pub data OutcomeStatus : Type 0 where
  was_synced : OutcomeStatus
  was_failed : Reason → OutcomeStatus

pub record CellOutcome : Type 0 where
  pub cell : CellRef
  pub outcome_version : ℕ
  pub status : OutcomeStatus

abbrev pub settle_row : OutcomeStatus → (V : Type 0) → Row V → Row V
settle_row was_synced V r = record r {
  sync_state = synced;
  last_error = none;
  synced_value = some r.desired;
}
settle_row (was_failed retry) V r = record r { sync_state = pending; last_error = none }
settle_row (was_failed _) V r = record r { sync_state = failed; last_error = some validation }

abbrev pub outcome_row : ℕ → OutcomeStatus → (V : Type 0) → Row V → Row V
outcome_row v status V r = if r.version == v then settle_row status V r else r

unfoldable pub apply_outcomes : List CellOutcome → AriStore → AriStore
apply_outcomes [] s = s
apply_outcomes (o ∷ outcomes) s =
    apply_outcomes outcomes (on_row o.cell (outcome_row o.outcome_version o.status) s)

abbrev pub conflict_row : (V : Type 0) → Row V → Row V
conflict_row V r = record r { sync_state = conflicted; last_error = none }

unfoldable pub mark_conflicted : List CellRef → AriStore → AriStore
mark_conflicted [] s = s
mark_conflicted (c ∷ cells) s = mark_conflicted cells (on_row c conflict_row s)

abbrev state_number : SyncState → ℕ
state_number pending = 0
state_number in_flight = 1
state_number synced = 2
state_number failed = 3
state_number conflicted = 4

abbrev count_rows : {V : Type 0} → SyncState → Rows V → ℕ
count_rows st m = length (filter (λ p. state_number p.1.sync_state == state_number st) m)

-- `states()`: how many rows are in each state.
unfoldable pub states : AriStore → SyncState → ℕ
states s st = count_rows st s.rate_rows + count_rows st s.availability_rows
