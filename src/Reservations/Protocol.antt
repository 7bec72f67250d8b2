-- ===== src/Reservations/Protocol.antt =====
-- What the ingestion promises of the repository and of the calls that it makes: the steps that a
-- run is made of. A step relates what is stored and what has been done before and after it.
pub mod Ingest
pub mod Waiting
pub mod Sweep
pub mod Sweeping
pub mod Acks
pub mod Current
mod Tests
use channex_pms.Prelude.{
  ℕ, Bool, true, false, Option, none, some, List, [], ◌∷◌, ◌++◌, map, nat_eq, contains, ◌≡◌,
}
use channex_pms.Prelude.Maps.{lookup}
use channex_pms.Inventory.{EntityId}
use channex_pms.Reservations.{Revision, is_newer_than, project_revision}
use channex_pms.Reservations.Repository.{
  StoredRevision, BookingRepo, RevisionInput, load_projection, find_revision_by_system_id,
  put_revision, mark_acked,
}
use channex_pms.Reservations.Ingest.{Effect, committed, ack_asked, alerted, Alert, IngestState}

pub record View : Type 0 where
  pub held : BookingRepo
  pub done : List Effect

abbrev pub view : IngestState → View
view st = record { held = st.repo; done = st.effects }

-- The provider's ids of the stored revisions.
abbrev pub stored_ids : BookingRepo → List EntityId
stored_ids repo = map (λ p. p.1.channex_revision_id) repo.revisions

-- A revision that is not newer than its projection changes none; a newer one is the projection.
pub data Projected (repo : BookingRepo) (input : RevisionInput) : Type 0 where
  is_stale :
      is_newer_than input.revision (load_projection input.revision.booking_id repo) ≡ false
      → input.projection ≡ none
      → Projected repo input
  is_newer :
      (booking : EntityId)
      → is_newer_than input.revision (load_projection input.revision.booking_id repo) ≡ true
      → input.projection ≡ some (project_revision input.revision booking)
      → Projected repo input

pub data ProtocolStep : View → View → Type 0 where
  commits :
      (v : View) (input : RevisionInput) (id : EntityId)
      → find_revision_by_system_id input.revision.system_id v.held ≡ none
      → Projected v.held input
      → ProtocolStep v (record {
        held = put_revision input id v.held;
        done = v.done ++ committed input.revision ∷ [];
      })
  asks_ack :
      (v : View) (id : EntityId)
      → contains id (stored_ids v.held) ≡ true
      → ProtocolStep v (record v { done = v.done ++ ack_asked (id ∷ []) ∷ [] })
  is_acked :
      (v : View) (id : EntityId) (at : ℕ)
      → contains id (stored_ids v.held) ≡ true
      → ProtocolStep v (record {
        held = mark_acked (id ∷ []) at v.held;
        done = v.done ++ ack_asked (id ∷ []) ∷ [];
      })
  alerts :
      (v : View) (alert : Alert) → ProtocolStep v (record v { done = v.done ++ alerted alert ∷ [] })

pub data Protocol : View → View → Type 0 where
  rests : {v : View} → Protocol v v
  goes : {u v w : View} → ProtocolStep u v → Protocol v w → Protocol u w

pub Protocol-trans : {u v w : View} → Protocol u v → Protocol v w → Protocol u w
Protocol-trans rests q = q
Protocol-trans (goes s p) q = goes s (Protocol-trans p q)

pub step_only : {u v : View} → ProtocolStep u v → Protocol u v
step_only s = goes s rests
