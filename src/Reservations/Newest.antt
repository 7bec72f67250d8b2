-- ===== src/Reservations/Newest.antt =====
-- `isNewerThan` and `projectRevision` of projection.ts: what is not newer stays so.
use channex_pms.Prelude.{◌<◌, ◌≤◌, ◌≡◌, ◌⊎◌, false, Option, none, some, if◌then◌else◌, arith}
use channex_pms.Inventory.{EntityId}
use channex_pms.Reservations.{Revision, Projection, is_newer_than, project_revision}

-- A projection at least as new as another.
abbrev pub IsNewer : Option Projection → Option Projection → Type 0
IsNewer q none = Unit
IsNewer none (some p) = ⊥
IsNewer (some q) (some p) =
    (p.last_inserted_at < q.last_inserted_at)
    ⊎ ((p.last_inserted_at ≡ q.last_inserted_at) × (p.last_system_id ≤ q.last_system_id))

pub apply-IsNewer :
    (booking : EntityId) (rev : Revision) (p : Option Projection)
    → IsNewer (if is_newer_than rev p then some (project_revision rev booking) else p) p
unfolding is_newer_than project_revision
apply-IsNewer booking rev none = tt
apply-IsNewer booking rev (some p) = ground arith

pub apply-not_newer :
    (booking : EntityId) (rev : Revision) (p : Option Projection)
    → is_newer_than rev (if is_newer_than rev p then some (project_revision rev booking) else p)
      ≡ false
unfolding is_newer_than project_revision
apply-not_newer booking rev none = ground arith
apply-not_newer booking rev (some p) = ground arith

pub not_newer-later :
    (rev : Revision) (p q : Option Projection)
    → IsNewer q p
    → is_newer_than rev p ≡ false
    → is_newer_than rev q ≡ false
unfolding is_newer_than
not_newer-later rev none q h k = cc
not_newer-later rev (some p) none h k = elim h [ ]
not_newer-later rev (some p) (some q) h k = ground (arith, h, k)
