-- ===== src/Inventory.antt =====
-- packages/core/src/inventory: the ARI cell model (ari.ts, ports.ts). Ids are opaque: the program
-- compares them for equality and order only, and they stand for their numbers in that order. A key
-- such as `ratePlanId|date` is the pair of its parts.
pub mod Availability
pub mod Derive
mod Tests
use channex_pms.Prelude.{
  ℕ, Bool, Option, some, none, List, [], ◌∷◌, if◌then◌else◌, ◌==◌, Eq, ◌≡◌, ◌↔◌, true, arith,
}
use channex_pms.Prelude.Int.{ℤ}
use channex_pms.Shared.Date.{LocalDate}

abbrev pub EntityId : Type 0
EntityId = ℕ

pub data Weekday : Type 0 where
  mo tu we th fr sa su : Weekday

-- `WEEKDAYS[i]`, read as ORDER in sync/src/batch/encode.ts.
abbrev pub order : Weekday → ℕ
order mo = 0
order tu = 1
order we = 2
order th = 3
order fr = 4
order sa = 5
order su = 6

abbrev pub weekday_eq : Weekday → Weekday → Bool
weekday_eq a b = order a == order b

pub weekday_eq_iff : (a b : Weekday) → (weekday_eq a b ≡ true) ↔ (a ≡ b)
weekday_eq_iff a b = ground arith

instance abbrev pub weekday_has_eq : Eq Weekday
weekday_has_eq = record { beq = weekday_eq; beq_iff = weekday_eq_iff }

pub data RestrictionField : Type 0 where
  rate rates min_stay min_stay_arrival min_stay_through max_stay : RestrictionField
  closed_to_arrival closed_to_departure stop_sell : RestrictionField

-- The place of a field in RESTRICTION_FIELDS.
abbrev pub field_index : RestrictionField → ℕ
field_index rate = 0
field_index rates = 1
field_index min_stay = 2
field_index min_stay_arrival = 3
field_index min_stay_through = 4
field_index max_stay = 5
field_index closed_to_arrival = 6
field_index closed_to_departure = 7
field_index stop_sell = 8

abbrev pub field_eq : RestrictionField → RestrictionField → Bool
field_eq a b = field_index a == field_index b

pub field_eq_iff : (a b : RestrictionField) → (field_eq a b ≡ true) ↔ (a ≡ b)
field_eq_iff a b = ground arith

instance abbrev pub field_has_eq : Eq RestrictionField
field_has_eq = record { beq = field_eq; beq_iff = field_eq_iff }

unfoldable pub restriction_fields : List RestrictionField
restriction_fields =
    rate ∷ rates ∷ min_stay ∷ min_stay_arrival ∷ min_stay_through ∷ max_stay ∷ closed_to_arrival
    ∷ closed_to_departure ∷ stop_sell ∷ []

-- A field's value: minor units or nights, occupancy → minor units, a flag.
pub data FieldValue : Type 0 where
  num : ℤ → FieldValue
  table : List (ℕ × ℤ) → FieldValue
  flag : Bool → FieldValue

-- The optional fields of `RestrictionValues`, read as `values[field]`; undefined is `none`.
abbrev pub RestrictionValues : Type 0
RestrictionValues = RestrictionField → Option FieldValue

abbrev pub no_values : RestrictionValues
no_values f = none

-- `values[field] = value`.
abbrev pub with_field : RestrictionField → Option FieldValue → RestrictionValues → RestrictionValues
with_field f v values g = if field_has_eq.beq f g then v else values g

pub record RateCell : Type 0 where
  pub rate_plan_id : EntityId
  pub date : LocalDate
  pub values : RestrictionValues

pub record AvailabilityCell : Type 0 where
  pub room_type_id : EntityId
  pub date : LocalDate
  pub availability : ℕ

pub record RestrictionEntry : Type 0 where
  pub rate_plan_id : EntityId
  pub date_from : LocalDate
  pub date_to : LocalDate
  pub days : Option (List Weekday)
  pub values : RestrictionValues

pub record AvailabilityEntry : Type 0 where
  pub room_type_id : EntityId
  pub date_from : LocalDate
  pub date_to : LocalDate
  pub days : Option (List Weekday)
  pub availability : ℕ

pub record BatchLimits : Type 0 where
  pub max_entries : ℕ

abbrev pub default_batch_limits : BatchLimits
default_batch_limits = record { max_entries = 500 }

pub data SyncState : Type 0 where
  pending in_flight synced failed conflicted : SyncState

pub data SyncEvent : Type 0 where
  edit push ok fail retry drift : SyncEvent

-- `nextSyncState`; null is `none`.
unfoldable pub next_sync_state : SyncState → SyncEvent → Option SyncState
next_sync_state current edit = some pending
next_sync_state pending push = some in_flight
next_sync_state failed push = some in_flight
next_sync_state conflicted push = some in_flight
next_sync_state in_flight ok = some synced
next_sync_state in_flight fail = some failed
next_sync_state failed retry = some in_flight
next_sync_state current drift = some conflicted
next_sync_state _ _ = none

pub data CellKind : Type 0 where
  rate_cell availability_cell : CellKind

-- `CellRef`, which is also its `cellKey`: the kind, the plan or room type, and the date.
pub record CellRef : Type 0 where
  pub kind : CellKind
  pub id : EntityId
  pub date : LocalDate
