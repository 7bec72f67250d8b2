-- ===== src/Operations/Assignment.antt =====
-- packages/core/src/operations/assignment.ts. An id's number orders ids as localeCompare does.
pub mod Placed
pub mod Overlaps
use channex_pms.Prelude.{
  ℕ, ◌+◌, ◌-◌, Bool, true, false, not, ◌&&◌, Option, none, some, List, [], ◌∷◌, ◌++◌, map, filter,
  any, max, if◌then◌else◌, ◌==◌, ltb, leb, nat_eq, length,
}
use channex_pms.Prelude.Maps.{lookup, insert, adjust}
use channex_pms.Prelude.Sort.{sort_by}
use channex_pms.Shared.Date.{LocalDate}
use channex_pms.Inventory.{EntityId}

-- A half-open range of dates that a booking takes.
pub record BusyStay : Type 0 where
  pub from_date : LocalDate
  pub to_date : LocalDate
  pub of_booking : EntityId

-- `is_out_of_order` is status === "out_of_order".
pub record UnitCandidate : Type 0 where
  pub unit_id : EntityId
  pub of_room_type : EntityId
  pub attributes : List (ℕ × ℕ)
  pub is_out_of_order : Bool
  pub busy : List BusyStay

pub record AssignmentRequest : Type 0 where
  pub for_booking : EntityId
  pub booking_room : EntityId
  pub wanted_room_type : EntityId
  pub check_in : LocalDate
  pub check_out : LocalDate
  pub wants : List (ℕ × ℕ)
  pub current_unit : Option EntityId

pub data AssignmentWarning : Type 0 where
  moved no_free_unit : AssignmentWarning
  unit_lacks : ℕ → ℕ → AssignmentWarning

pub record AssignmentSuggestion : Type 0 where
  pub suggested_room : EntityId
  pub suggested_unit : Option EntityId
  pub warnings : List AssignmentWarning

abbrev pub overlaps : BusyStay → BusyStay → Bool
overlaps a b = ltb a.from_date b.to_date && ltb b.from_date a.to_date

-- `busy`: the stays of each unit by its id.
abbrev pub BusyMap : Type 0
BusyMap = List (EntityId × List BusyStay)

abbrev pub kept_stays : List AssignmentRequest → List BusyStay → List BusyStay
kept_stays requests = filter (λ b. not (any (λ r. r.for_booking == b.of_booking) requests))

unfoldable pub busy_from : List AssignmentRequest → BusyMap → List UnitCandidate → BusyMap
busy_from requests m [] = m
busy_from requests m (u ∷ us) =
    busy_from requests (insert u.unit_id (kept_stays requests u.busy) m) us

-- `busy.get(id) ?? []`.
abbrev pub stays_in : Option (List BusyStay) → List BusyStay
stays_in none = []
stays_in (some stays) = stays

abbrev pub busy_of : EntityId → BusyMap → List BusyStay
busy_of id m = stays_in (lookup id m)

abbrev pub range_of : AssignmentRequest → BusyStay
range_of r = record { from_date = r.check_in; to_date = r.check_out; of_booking = r.for_booking }

abbrev pub is_free : BusyMap → AssignmentRequest → UnitCandidate → Bool
is_free m r u =
    (u.of_room_type == r.wanted_room_type)
    && (not u.is_out_of_order && not (any (λ b. overlaps b (range_of r)) (busy_of u.unit_id m)))

unfoldable pub find_unit : EntityId → List UnitCandidate → Option UnitCandidate
find_unit id [] = none
find_unit id (u ∷ us) = if u.unit_id == id then some u else find_unit id us

-- The latest of the ends that are not after a date.
abbrev pub last_end : LocalDate → List BusyStay → Option LocalDate
last_end date [] = none
last_end date (b ∷ bs) =
    let rest = last_end date bs in
    if leb b.to_date date
    then elim rest [ none ↦ some b.to_date | some d ↦ some (max b.to_date d) ]
    else rest

abbrev pub gap : BusyMap → AssignmentRequest → UnitCandidate → ℕ
gap m r u = elim (last_end r.check_in (busy_of u.unit_id m)) [
  | none ↦ 9999
  | some before ↦ r.check_in - before
]

-- `attributes[k] !== v`.
abbrev pub lacks : UnitCandidate → ℕ × ℕ → Bool
lacks u (k, v) = elim (lookup k u.attributes) [ none ↦ true | some w ↦ not (w == v) ]

abbrev pub mismatch : AssignmentRequest → UnitCandidate → ℕ
mismatch r u = length (filter (lacks u) r.wants)

abbrev pub first_unit : List UnitCandidate → Option UnitCandidate
first_unit [] = none
first_unit (u ∷ us) = some u

abbrev pub kept_unit : AssignmentRequest → List UnitCandidate → Option UnitCandidate
kept_unit r free = elim r.current_unit [ none ↦ none | some id ↦ find_unit id free ]

abbrev pub best_unit : BusyMap → AssignmentRequest → List UnitCandidate → Option UnitCandidate
best_unit m r free =
    first_unit (sort_by (mismatch r) (sort_by (gap m r) (sort_by (λ u. u.unit_id) free)))

abbrev pub moved_warning : AssignmentRequest → List AssignmentWarning
moved_warning r = elim r.current_unit [ none ↦ [] | some id ↦ moved ∷ [] ]

-- The unit, if there is one, and the warning of a move.
unfoldable pub pick_unit :
    BusyMap → AssignmentRequest → List UnitCandidate → Option UnitCandidate × List AssignmentWarning
pick_unit m r free = elim (kept_unit r free) [
  | some u ↦ (some u, [])
  | none ↦ elim (best_unit m r free) [ none ↦ (none, []) | some u ↦ (some u, moved_warning r) ]
]

abbrev pub suggestion :
    AssignmentRequest → Option UnitCandidate × List AssignmentWarning → AssignmentSuggestion
suggestion r (none, w) = record {
  suggested_room = r.booking_room;
  suggested_unit = none;
  warnings = no_free_unit ∷ [];
}
suggestion r (some u, w) = record {
  suggested_room = r.booking_room;
  suggested_unit = some u.unit_id;
  warnings = w ++ map (λ x. unit_lacks x.0 x.1) (filter (lacks u) r.wants);
}

-- `busy.get(pick.id)?.push(...)`.
abbrev pub after_pick : AssignmentRequest → Option UnitCandidate → BusyMap → BusyMap
after_pick r none m = m
after_pick r (some u) m = adjust u.unit_id (λ stays. stays ++ range_of r ∷ []) m

unfoldable pub assign_all :
    List UnitCandidate → BusyMap → List AssignmentRequest → List AssignmentSuggestion
assign_all units m [] = []
assign_all units m (r ∷ rs) =
    let pick = pick_unit m r (filter (is_free m r) units) in
    suggestion r pick ∷ assign_all units (after_pick r pick.0 m) rs

abbrev pub in_check_in_order : List AssignmentRequest → List AssignmentRequest
in_check_in_order requests = sort_by (λ r. r.check_in) (sort_by (λ r. r.booking_room) requests)

unfoldable pub auto_assign : List AssignmentRequest → List UnitCandidate → List AssignmentSuggestion
auto_assign requests units =
    assign_all units (busy_from requests [] units) (in_check_in_order requests)
