-- ===== src/Reservations/Repository.antt =====
-- packages/core/src/reservations/memory-repo.ts and ports.ts: the stored revisions by their system
-- ids, the projections by the channel's booking ids, and the events.
use channex_pms.Prelude.{
  ℕ, Bool, true, false, Option, none, some, List, [], ◌∷◌, ◌++◌, if◌then◌else◌, ltb, ◌==◌, ◌||◌,
  ◌&&◌, ◌+◌, ◌/◌, ◌%◌, nat_eq, map, filter, contains,
}
use channex_pms.Prelude.Maps.{lookup, insert}
use channex_pms.Shared.Result.{Result, ok, err}
use channex_pms.Inventory.{EntityId}
use channex_pms.Reservations.{Revision, BookingStatus, MappingState, Projection, RevisionDiff}

-- `bookingId` is absent where the source has "".
pub record StoredRevision : Type 0 where
  pub stored_id : EntityId
  pub channex_revision_id : EntityId
  pub stored_booking : Option EntityId
  pub stored_property : EntityId
  pub acked_at : Option ℕ
  pub received_at : ℕ
  pub stored : Revision
  pub stored_diff : Option RevisionDiff

-- The events of the ingestion; the key that tells copies of one apart is its kind and system id.
pub data DomainEvent : Type 0 where
  revision_applied :
      (org booking property revision : EntityId)
      → BookingStatus
      → RevisionDiff
      → (occurred_at system_id : ℕ) → DomainEvent
  booking_unmapped :
      (org booking property : EntityId) → MappingState → (occurred_at system_id : ℕ) → DomainEvent

pub record BookingRepo : Type 0 where
  pub revisions : List (ℕ × StoredRevision)
  pub projections : List (EntityId × Projection)
  pub events : List DomainEvent

abbrev pub find_revision_by_system_id : ℕ → BookingRepo → Option StoredRevision
find_revision_by_system_id system_id repo = lookup system_id repo.revisions

abbrev pub load_projection : EntityId → BookingRepo → Option Projection
load_projection booking repo = lookup booking repo.projections

abbrev booking_of : Option Projection → Option Projection → Option EntityId
booking_of (some p) prev = some p.local_booking_id
booking_of none (some p) = some p.local_booking_id
booking_of none none = none

abbrev pub put_projection :
    EntityId → Option Projection → List (EntityId × Projection) → List (EntityId × Projection)
put_projection booking none m = m
put_projection booking (some p) m = insert booking p m

-- The input of `applyRevision`.
pub record RevisionInput : Type 0 where
  pub revision : Revision
  pub projection : Option Projection
  pub diff : Option RevisionDiff
  pub new_events : List DomainEvent
  pub now : ℕ

-- The revision as it is stored under a generated id.
abbrev pub stored_revision : RevisionInput → EntityId → BookingRepo → StoredRevision
stored_revision input id repo = record {
  stored_id = id;
  channex_revision_id = input.revision.revision_id;
  stored_booking = booking_of input.projection (load_projection input.revision.booking_id repo);
  stored_property = input.revision.property_id;
  acked_at = none;
  received_at = input.now;
  stored = input.revision;
  stored_diff = input.diff;
}

abbrev pub put_revision : RevisionInput → EntityId → BookingRepo → BookingRepo
put_revision input id repo = record {
  revisions = insert input.revision.system_id (stored_revision input id repo) repo.revisions;
  projections = put_projection input.revision.booking_id input.projection repo.projections;
  events = repo.events ++ input.new_events;
}

-- The error carries the system id that is already stored.
unfoldable pub apply_revision : RevisionInput → EntityId → BookingRepo → Result BookingRepo ℕ
apply_revision input id repo = elim (find_revision_by_system_id input.revision.system_id repo) [
  | some r ↦ err input.revision.system_id
  | none ↦ ok (put_revision input id repo)
]

abbrev pub acked_revision : List EntityId → ℕ → StoredRevision → StoredRevision
acked_revision ids at r =
    if contains r.channex_revision_id ids then record r { acked_at = some at } else r

abbrev pub acked_entry : List EntityId → ℕ → ℕ × StoredRevision → ℕ × StoredRevision
acked_entry ids at (k, r) = (k, acked_revision ids at r)

unfoldable pub mark_acked : List EntityId → ℕ → BookingRepo → BookingRepo
mark_acked ids at repo = record repo { revisions = map (acked_entry ids at) repo.revisions }

-- A digit's character, and the text of a fraction of a second from its thousandths, which the texts
-- of `Instant.toString` leave out if it is 0, and without its last zeros.
abbrev digit : ℕ → ℕ
digit d = 48 + d

abbrev short_fraction : ℕ → List ℕ
short_fraction ms =
    if ms == 0
    then []
    else if ms % 100 == 0
    then 46 ∷ digit (ms / 100) ∷ []
    else if ms % 10 == 0
    then 46 ∷ digit (ms / 100) ∷ digit (ms / 10 % 10) ∷ []
    else 46 ∷ digit (ms / 100) ∷ digit (ms / 10 % 10) ∷ digit (ms % 10) ∷ []

-- After the whole seconds, in the text of `Instant.toString` and in that of `Date.toISOString`.
abbrev pub instant_tail : ℕ → List ℕ
instant_tail ms = short_fraction ms ++ 90 ∷ []

abbrev pub iso_tail : ℕ → List ℕ
iso_tail ms = 46 ∷ digit (ms / 100) ∷ digit (ms / 10 % 10) ∷ digit (ms % 10) ∷ 90 ∷ []

abbrev pub text_le : List ℕ → List ℕ → Bool
text_le [] text = true
text_le (c ∷ cs) [] = false
text_le (c ∷ cs) (d ∷ ds) = ltb c d || ((c == d) && text_le cs ds)

-- `receivedAt <= before` as it compares the texts of two instants: the whole seconds, whose texts
-- have one length for four-digit years, and then what follows them.
unfoldable pub is_received_by : ℕ → ℕ → Bool
is_received_by received before =
    ltb (received / 1000) (before / 1000)
    || ((received / 1000 == before / 1000)
        && text_le (instant_tail (received % 1000)) (iso_tail (before % 1000)))

abbrev pub is_unacked_at : ℕ → StoredRevision → Bool
is_unacked_at before r = elim r.acked_at [
  | none ↦ is_received_by r.received_at before
  | some t ↦ false
]

unfoldable pub list_unacked : ℕ → BookingRepo → List StoredRevision
list_unacked before repo = filter (is_unacked_at before) (map (λ p. p.1) repo.revisions)
