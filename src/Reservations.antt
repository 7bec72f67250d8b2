-- ===== src/Reservations.antt =====
-- packages/core/src/reservations/projection.ts: booking revisions and the projection that they are
-- applied to. Ids, texts and instants stand for their numbers; the fields of a room and of the
-- customer that the projection only copies are one value each.
pub mod Repository
pub mod Ingest
pub mod Sweep
pub mod Protocol
pub mod Newest
pub mod Nights
mod Tests
use channex_pms.Prelude.{
  ℕ, ◌+◌, Bool, true, false, not, ◌&&◌, ◌||◌, Option, none, some, List, [], ◌∷◌, ◌++◌,
  if◌then◌else◌, ◌==◌, ltb, any, map, filter, nat_eq, pair_eq, Eq, ◌≡◌, ◌↔◌, arith, refl, ap,
}
use channex_pms.Prelude.Int.{ℤ, pos, negsuc}
use channex_pms.Prelude.Maps.{lookup, insert}
use channex_pms.Shared.Date.{LocalDate}
use channex_pms.Inventory.{EntityId}

pub data BookingStatus : Type 0 where
  new modified cancelled : BookingStatus

abbrev pub status_index : BookingStatus → ℕ
status_index new = 0
status_index modified = 1
status_index cancelled = 2

pub data MappingState : Type 0 where
  mapped unmapped_room unmapped_rate : MappingState

-- `rest` is what is copied: the occupancy and the guests.
pub record BookingRoom : Type 0 where
  pub room_type_id : Option EntityId
  pub rate_plan_id : Option EntityId
  pub checkin_date : LocalDate
  pub checkout_date : LocalDate
  pub days : List (LocalDate × ℤ)
  pub rest : ℕ

-- `payment` is what is copied of payments: the commission, who collects, and the type.
pub record Revision : Type 0 where
  pub revision_id : EntityId
  pub booking_id : EntityId
  pub system_id : ℕ
  pub property_id : EntityId
  pub status : BookingStatus
  pub arrival_date : LocalDate
  pub departure_date : LocalDate
  pub currency : ℕ
  pub amount : ℤ
  pub payment : Option ℤ × ℕ
  pub ota : ℕ × ℕ
  pub inserted_at : ℕ
  pub rooms : List BookingRoom
  pub customer : ℕ

pub record Projection : Type 0 where
  pub local_booking_id : EntityId
  pub channex_booking_id : EntityId
  pub projected_property : EntityId
  pub projected_status : BookingStatus
  pub arrival : LocalDate
  pub departure : LocalDate
  pub projected_currency : ℕ
  pub total_amount_minor : ℤ
  pub projected_payment : Option ℤ × ℕ
  pub projected_ota : ℕ × ℕ
  pub mapping_state : MappingState
  pub projected_rooms : List BookingRoom
  pub projected_customer : ℕ
  pub last_inserted_at : ℕ
  pub last_system_id : ℕ
  pub last_revision_id : EntityId

unfoldable pub is_newer_than : Revision → Option Projection → Bool
is_newer_than rev none = true
is_newer_than rev (some p) =
    if not (rev.inserted_at == p.last_inserted_at)
    then ltb p.last_inserted_at rev.inserted_at
    else ltb p.last_system_id rev.system_id

abbrev pub is_missing : Option EntityId → Bool
is_missing none = true
is_missing (some i) = false

unfoldable pub mapping_state_of : Revision → MappingState
mapping_state_of rev =
    if any (λ r. is_missing r.room_type_id) rev.rooms
    then unmapped_room
    else if any (λ r. is_missing r.rate_plan_id) rev.rooms
    then unmapped_rate
    else mapped

unfoldable pub project_revision : Revision → EntityId → Projection
project_revision rev booking = record {
  local_booking_id = booking;
  channex_booking_id = rev.booking_id;
  projected_property = rev.property_id;
  projected_status = rev.status;
  arrival = rev.arrival_date;
  departure = rev.departure_date;
  projected_currency = rev.currency;
  total_amount_minor = rev.amount;
  projected_payment = rev.payment;
  projected_ota = rev.ota;
  mapping_state = mapping_state_of rev;
  projected_rooms = rev.rooms;
  projected_customer = rev.customer;
  last_inserted_at = rev.inserted_at;
  last_system_id = rev.system_id;
  last_revision_id = rev.revision_id;
}

-- A booked night, which is its own `key`: the room type, if mapped, and the date.
abbrev pub Night : Type 0
Night = ℕ × LocalDate

-- `roomTypeId ?? "?"`.
abbrev pub room_key : Option EntityId → ℕ
room_key none = 0
room_key (some i) = 1 + i

abbrev pub nights_of : BookingRoom → List Night
nights_of r = map (λ d. (room_key r.room_type_id, d.0)) r.days

abbrev pub nights_of_rooms : List BookingRoom → List Night
nights_of_rooms [] = []
nights_of_rooms (r ∷ rs) = nights_of r ++ nights_of_rooms rs

abbrev pub nights_unless : BookingStatus → List BookingRoom → List Night
nights_unless cancelled rooms = []
nights_unless _ rooms = nights_of_rooms rooms

unfoldable pub booked_nights : Option Projection → List Night
booked_nights none = []
booked_nights (some p) = nights_unless p.projected_status p.projected_rooms

pub record RevisionDiff : Type 0 where
  pub first : Bool
  pub status_changed : Option (Option BookingStatus × BookingStatus)
  pub dates_changed : Option (Option (LocalDate × LocalDate) × (LocalDate × LocalDate))
  pub amount_changed : Bool
  pub nights_added : List Night
  pub nights_removed : List Night
  pub next_mapping : MappingState

-- `new Map(nights.map((n) => [key(n), n]))`, as the list of its keys.
abbrev pub put_night : Night → List Night → List Night
put_night n [] = n ∷ []
put_night n (k ∷ ks) = if pair_eq.beq k n then k ∷ ks else k ∷ put_night n ks

abbrev pub night_map : List Night → List Night → List Night
night_map m [] = m
night_map m (n ∷ ns) = night_map (put_night n m) ns

abbrev pub has_night : Night → List Night → Bool
has_night n = any (λ k. pair_eq.beq k n)

abbrev pub int_eq : ℤ → ℤ → Bool
int_eq (pos a) (pos b) = a == b
int_eq (negsuc a) (negsuc b) = a == b
int_eq _ _ = false

abbrev pub status_diff :
    Option Projection → Projection → Option (Option BookingStatus × BookingStatus)
status_diff none next = some (none, next.projected_status)
status_diff (some p) next =
    if status_index p.projected_status == status_index next.projected_status
    then none
    else some (some p.projected_status, next.projected_status)

abbrev pub dates_diff :
    Option Projection
    → Projection
    → Option (Option (LocalDate × LocalDate) × (LocalDate × LocalDate))
dates_diff none next = some (none, (next.arrival, next.departure))
dates_diff (some p) next =
    if (p.arrival == next.arrival) && (p.departure == next.departure)
    then none
    else some (some (p.arrival, p.departure), (next.arrival, next.departure))

abbrev pub amount_diff : Option Projection → Projection → Bool
amount_diff none next = true
amount_diff (some p) next = not (int_eq p.total_amount_minor next.total_amount_minor)

abbrev pub is_first : Option Projection → Bool
is_first none = true
is_first (some p) = false

unfoldable pub diff_projection : Option Projection → Projection → RevisionDiff
diff_projection prev next =
    let before = night_map [] (booked_nights prev) in
    let after = night_map [] (booked_nights (some next)) in
    record {
      first = is_first prev;
      status_changed = status_diff prev next;
      dates_changed = dates_diff prev next;
      amount_changed = amount_diff prev next;
      nights_added = filter (λ n. not (has_night n before)) after;
      nights_removed = filter (λ n. not (has_night n after)) before;
      next_mapping = next.mapping_state;
    }
