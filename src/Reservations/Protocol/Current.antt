-- ===== src/Reservations/Protocol/Current.antt =====
-- The stored revisions and the projections, over a run of the ingestion.
use channex_pms.Prelude.{
  ℕ, true, false, Option, none, some, List, [], ◌∷◌, map, nat_eq, ◌==◌, ◌≡◌, refl, sym, ap, subst,
  arith, if◌then◌else◌, All, All-weaken, Bool-cases, inl, inr,
}
use channex_pms.Prelude.Maps.{lookup, insert, lookup-insert, All-insert}
use channex_pms.Inventory.{EntityId}
use channex_pms.Reservations.{Revision, Projection, is_newer_than, project_revision}
use channex_pms.Reservations.Newest.{IsNewer, apply-IsNewer, apply-not_newer, not_newer-later}
use channex_pms.Reservations.Repository.{
  StoredRevision, BookingRepo, RevisionInput, put_projection, stored_revision, mark_acked,
  acked_revision, acked_entry,
}
use channex_pms.Reservations.Ingest.{IngestDeps, IngestState, ingest_property}
use channex_pms.Reservations.Protocol.{
  View, is_stale, is_newer, ProtocolStep, commits, asks_ack, is_acked, alerts, Protocol, rests,
  goes,
}
use channex_pms.Reservations.Protocol.Ingest.{ingest_property-Protocol}
use channex_pms.Reservations.Protocol.Acks.{channex_revision_id-acked}

-- A revision stored under its own ids that is not newer than its booking's projection.
abbrev pub IsApplied : List (EntityId × Projection) → ℕ × StoredRevision → Type 0
IsApplied projections (k, r) =
    (r.stored.system_id ≡ k)
    × ((r.channex_revision_id ≡ r.stored.revision_id)
        × (is_newer_than r.stored (lookup r.stored.booking_id projections) ≡ false))

-- A projection that is the one of a stored revision of its booking.
abbrev pub IsProjection : List (ℕ × StoredRevision) → EntityId × Projection → Type 0
IsProjection revisions (b, p) =
    (r : StoredRevision) × ((lookup p.last_system_id revisions ≡ some r)
      × ((r.stored.booking_id ≡ b) × (p ≡ project_revision r.stored p.local_booking_id)))

abbrev pub IsCurrent : BookingRepo → Type 0
IsCurrent repo =
    All (IsApplied repo.projections) repo.revisions
    × All (IsProjection repo.revisions) repo.projections

IsProjection-insert :
    (k : ℕ) (r : StoredRevision) (m : List (ℕ × StoredRevision)) (x : EntityId × Projection)
    → lookup k m ≡ none
    → IsProjection m x
    → IsProjection (insert k r m) x
IsProjection-insert k r m (b, p) n (r', (l, h)) = (r', (keep, h))
  where
    keep : lookup p.last_system_id (insert k r m) ≡ some r'
    keep = elim (Bool-cases (k == p.last_system_id)) [
      | inl y ↦
          let gone : lookup p.last_system_id m ≡ none =
            rw (← ((nat_eq.beq_iff k p.last_system_id).0 y)) n in
          cc
      | inr z ↦ rw (lookup-insert k p.last_system_id r m, z) l
    ]

IsApplied-newer :
    (rev : Revision) (booking : EntityId) (m : List (EntityId × Projection))
    (x : ℕ × StoredRevision)
    → is_newer_than rev (lookup rev.booking_id m) ≡ true
    → IsApplied m x
    → IsApplied (insert rev.booking_id (project_revision rev booking) m) x
IsApplied-newer rev booking m (k, r) w (a, (c, h)) = (a, (c, later))
  where
    later :
        is_newer_than r.stored
          (lookup r.stored.booking_id (insert rev.booking_id (project_revision rev booking) m))
        ≡ false
    later = elim (Bool-cases (rev.booking_id == r.stored.booking_id)) [
      | inl y ↦
          let prev = lookup rev.booking_id m in
          let next = project_revision rev booking in
          let before : is_newer_than r.stored prev ≡ false =
            rw ((nat_eq.beq_iff rev.booking_id r.stored.booking_id).0 y) h in
          rw (lookup-insert rev.booking_id r.stored.booking_id next m, y)
            (not_newer-later r.stored prev (some next)
              (subst (λ c. IsNewer (if c then some next else prev) prev) w
                (apply-IsNewer booking rev prev))
              before)
      | inr z ↦
          rw (lookup-insert rev.booking_id r.stored.booking_id (project_revision rev booking) m, z)
            h
    ]

stored-acked :
    (ids : List EntityId) (at : ℕ) (r : StoredRevision)
    → (acked_revision ids at r).stored ≡ r.stored
stored-acked ids at r = ground arith

All-acked :
    (ids : List EntityId) (at : ℕ) (projections : List (EntityId × Projection))
    (m : List (ℕ × StoredRevision))
    → All (IsApplied projections) m
    → All (IsApplied projections) (map (acked_entry ids at) m)
All-acked ids at projections [] h = tt
All-acked ids at projections ((k, r) ∷ m) (p, h) = (
  rw (stored-acked ids at r, channex_revision_id-acked ids at r) p,
  All-acked ids at projections m h,
)

lookup-acked :
    (ids : List EntityId) (at : ℕ) (k : ℕ) (r : StoredRevision) (m : List (ℕ × StoredRevision))
    → lookup k m ≡ some r
    → lookup k (map (acked_entry ids at) m) ≡ some (acked_revision ids at r)
lookup-acked ids at k r [] h = cc
lookup-acked ids at k r ((j, w) ∷ m) h = elim (Bool-cases (j == k)) [
  | inl y ↦ rw y (ap (λ x. some (acked_revision ids at x)) (ground arith))
  | inr z ↦ rw z (lookup-acked ids at k r m (ground arith))
]

mark_acked-IsCurrent :
    (ids : List EntityId) (at : ℕ) (repo : BookingRepo)
    → IsCurrent repo
    → IsCurrent (mark_acked ids at repo)
unfolding mark_acked
mark_acked-IsCurrent ids at repo (h, k) = (
  All-acked ids at repo.projections repo.revisions h,
  All-weaken (IsProjection repo.revisions) (IsProjection (map (acked_entry ids at) repo.revisions))
      repo.projections
      (λ x i. (
        acked_revision ids at i.0,
        (
          lookup-acked ids at x.1.last_system_id i.0 repo.revisions i.1.0,
          rw (stored-acked ids at i.0) i.1.1,
        ),
      ))
      k,
)

newest :
    (rev : Revision) (booking : EntityId) (m : List (EntityId × Projection))
    → is_newer_than rev (lookup rev.booking_id m) ≡ true
    → is_newer_than rev
        (lookup rev.booking_id (insert rev.booking_id (project_revision rev booking) m))
      ≡ false
newest rev booking m w =
    let prev = lookup rev.booking_id m in
    let next = project_revision rev booking in
    rw
      (
        lookup-insert rev.booking_id rev.booking_id next m,
        (nat_eq.beq_iff rev.booking_id rev.booking_id).1 refl,
      )
      (subst (λ c. is_newer_than rev (if c then some next else prev) ≡ false) w
        (apply-not_newer booking rev prev))

found :
    (rev : Revision) (booking : EntityId) (r : StoredRevision) (m : List (ℕ × StoredRevision))
    → lookup (project_revision rev booking).last_system_id (insert rev.system_id r m) ≡ some r
unfolding project_revision
found rev booking r m =
    rw
      (
        lookup-insert rev.system_id rev.system_id r m,
        (nat_eq.beq_iff rev.system_id rev.system_id).1 refl,
      )
      refl

-- The repository after the transaction is current, as far as it depends on the projection.
abbrev Holds : RevisionInput → StoredRevision → BookingRepo → Option Projection → Type 0
Holds input r repo projection =
    let revisions = insert input.revision.system_id r repo.revisions in
    let projections = put_projection input.revision.booking_id projection repo.projections in
    All (IsApplied projections) revisions × All (IsProjection revisions) projections

ProtocolStep-IsCurrent : {v w : View} → ProtocolStep v w → IsCurrent v.held → IsCurrent w.held
unfolding project_revision
ProtocolStep-IsCurrent (commits v input id n (is_stale z e)) (h, k) =
    let r = stored_revision input id v.held in
    subst (Holds input r v.held) (sym e) (
      All-insert (IsApplied v.held.projections) input.revision.system_id r v.held.revisions h
          (refl, (refl, z)),
      All-weaken (IsProjection v.held.revisions) _ v.held.projections
          (λ x. IsProjection-insert input.revision.system_id r v.held.revisions x n) k,
    )
ProtocolStep-IsCurrent (commits v input id n (is_newer booking w e)) (h, k) =
    let r = stored_revision input id v.held in
    let m = v.held.projections in
    let next = project_revision input.revision booking in
    subst (Holds input r v.held) (sym e) (
      All-insert _ input.revision.system_id r v.held.revisions
          (All-weaken (IsApplied m) _ v.held.revisions
            (λ x. IsApplied-newer input.revision booking m x w) h)
          (refl, (refl, newest input.revision booking m w)),
      All-insert _ input.revision.booking_id next m
          (All-weaken (IsProjection v.held.revisions) _ m
            (λ x. IsProjection-insert input.revision.system_id r v.held.revisions x n) k)
          (r, (found input.revision booking r v.held.revisions, (refl, refl))),
    )
ProtocolStep-IsCurrent (asks_ack v id c) h = h
ProtocolStep-IsCurrent (is_acked v id at c) h = mark_acked-IsCurrent (id ∷ []) at v.held h
ProtocolStep-IsCurrent (alerts v a) h = h

Protocol-IsCurrent : {v w : View} → Protocol v w → IsCurrent v.held → IsCurrent w.held
Protocol-IsCurrent rests h = h
Protocol-IsCurrent (goes s p) h = Protocol-IsCurrent p (ProtocolStep-IsCurrent s h)

-- Where every projection of a repository is the projection of one of its revisions of that booking,
-- and no stored revision is newer than the projection of its booking, both hold again after any
-- run of the ingestion, whether it returns or throws and in whatever order the provider delivers
-- the revisions.
pub ingest_property-IsCurrent :
    (deps : IngestDeps) (st : IngestState)
    → IsCurrent st.repo
    → IsCurrent (ingest_property deps st).0.repo
ingest_property-IsCurrent deps st = Protocol-IsCurrent (ingest_property-Protocol deps st)
