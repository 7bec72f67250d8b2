-- ===== src/Reservations/Protocol/Acks.antt =====
-- The order of the commits and the acks in a run of the ingestion.
use channex_pms.Prelude.{
  ℕ, Bool, true, ◌&&◌, ◌||◌, List, [], ◌∷◌, ◌++◌, map, nat_eq, contains, all, ◌==◌, ◌≡◌, refl, ap₂,
  arith,
}
use channex_pms.Prelude.Maps.{insert}
use channex_pms.Inventory.{EntityId}
use channex_pms.Reservations.Repository.{
  StoredRevision, BookingRepo, stored_revision, mark_acked, acked_revision, acked_entry,
}
use channex_pms.Reservations.Ingest.{
  Effect, committed, ack_asked, alerted, IngestDeps, IngestState, ingest_property,
}
use channex_pms.Reservations.Protocol.{
  View, stored_ids, ProtocolStep, commits, asks_ack, is_acked, alerts, Protocol, rests, goes,
}
use channex_pms.Reservations.Protocol.Ingest.{ingest_property-Protocol}

-- The known ids after an effect, and whether an effect asks for an ack of known ids only.
abbrev pub known_with : Effect → List EntityId → List EntityId
known_with (committed rev) known = rev.revision_id ∷ known
known_with (ack_asked ids) known = known
known_with (alerted a) known = known

abbrev pub is_allowed : List EntityId → Effect → Bool
is_allowed known (committed rev) = true
is_allowed known (ack_asked ids) = all (λ i. contains i known) ids
is_allowed known (alerted a) = true

unfoldable pub acks_follow : List EntityId → List Effect → Bool
acks_follow known [] = true
acks_follow known (x ∷ xs) = is_allowed known x && acks_follow (known_with x known) xs

known_after : List EntityId → List Effect → List EntityId
known_after known [] = known
known_after known (x ∷ xs) = known_after (known_with x known) xs

acks_follow-append :
    (known : List EntityId) (xs : List Effect) (x : Effect)
    → acks_follow known (xs ++ x ∷ [])
      ≡ (acks_follow known xs && is_allowed (known_after known xs) x)
unfolding acks_follow known_after
acks_follow-append known [] x = ground arith
acks_follow-append known (y ∷ xs) x = ground (arith, acks_follow-append (known_with y known) xs x)

known_after-append :
    (known : List EntityId) (xs : List Effect) (x : Effect)
    → known_after known (xs ++ x ∷ []) ≡ known_with x (known_after known xs)
unfolding known_after
known_after-append known [] x = refl
known_after-append known (y ∷ xs) x = known_after-append (known_with y known) xs x

contains-insert_only :
    (i k : ℕ) (r : StoredRevision) (m : List (ℕ × StoredRevision))
    → contains i (map (λ p. p.1.channex_revision_id) (insert k r m)) ≡ true
    → ((r.channex_revision_id == i) || contains i (map (λ p. p.1.channex_revision_id) m)) ≡ true
contains-insert_only i k r [] h = ground arith
contains-insert_only i k r ((j, w) ∷ m) h = ground (arith, contains-insert_only i k r m)

pub channex_revision_id-acked :
    (ids : List EntityId) (at : ℕ) (r : StoredRevision)
    → (acked_revision ids at r).channex_revision_id ≡ r.channex_revision_id
channex_revision_id-acked ids at r = ground arith

ids-acked :
    (ids : List EntityId) (at : ℕ) (m : List (ℕ × StoredRevision))
    → map (λ p. p.1.channex_revision_id) (map (acked_entry ids at) m)
      ≡ map (λ p. p.1.channex_revision_id) m
ids-acked ids at [] = refl
ids-acked ids at ((k, r) ∷ m) =
    ap₂ (λ x xs. x ∷ xs) (channex_revision_id-acked ids at r) (ids-acked ids at m)

pub stored_ids-mark_acked :
    (ids : List EntityId) (at : ℕ) (repo : BookingRepo)
    → stored_ids (mark_acked ids at repo) ≡ stored_ids repo
unfolding mark_acked
stored_ids-mark_acked ids at repo = ids-acked ids at repo.revisions

-- The asked acks followed the commits, and every stored id is known.
abbrev Follows : List EntityId → View → Type 0
Follows known v =
    (acks_follow known v.done ≡ true)
    × ((i : EntityId)
        → contains i (stored_ids v.held) ≡ true
        → contains i (known_after known v.done) ≡ true)

asks-Follows :
    (known : List EntityId) (v : View) (id : EntityId)
    → contains id (stored_ids v.held) ≡ true
    → Follows known v
    → Follows known (record v { done = v.done ++ ack_asked (id ∷ []) ∷ [] })
asks-Follows known v id c (h, k) = (
  rw (acks_follow-append known v.done (ack_asked (id ∷ [])), h, k id c) refl,
  λ i e. rw (known_after-append known v.done (ack_asked (id ∷ []))) (k i e),
)

ProtocolStep-Follows :
    (known : List EntityId) {v w : View} → ProtocolStep v w → Follows known v → Follows known w
ProtocolStep-Follows known (commits v input id n p) (h, k) = (
  rw (acks_follow-append known v.done (committed input.revision), h) refl,
  λ i e. rw (known_after-append known v.done (committed input.revision)) (
      ground (
        arith,
        k i,
        contains-insert_only i input.revision.system_id (stored_revision input id v.held)
            v.held.revisions e,
      )),
)
ProtocolStep-Follows known (asks_ack v id c) f = asks-Follows known v id c f
ProtocolStep-Follows known (is_acked v id at c) f =
    let (h, k) = asks-Follows known v id c f in
    (h, λ i e. k i (rw (← (stored_ids-mark_acked (id ∷ []) at v.held)) e))
ProtocolStep-Follows known (alerts v a) (h, k) = (
  rw (acks_follow-append known v.done (alerted a), h) refl,
  λ i e. rw (known_after-append known v.done (alerted a)) (k i e),
)

Protocol-Follows :
    (known : List EntityId) {v w : View} → Protocol v w → Follows known v → Follows known w
Protocol-Follows known rests f = f
Protocol-Follows known (goes s p) f = Protocol-Follows known p (ProtocolStep-Follows known s f)

-- In the effects of a run of the ingestion, every id that the provider is asked to acknowledge is
-- the id of a revision that was stored before the run, or of one that the repository committed
-- earlier in it.
pub ingest_property-acks_follow :
    (deps : IngestDeps) (st : IngestState)
    → st.effects ≡ []
    → acks_follow (stored_ids st.repo) (ingest_property deps st).0.effects ≡ true
unfolding acks_follow known_after
ingest_property-acks_follow deps st h =
    (Protocol-Follows (stored_ids st.repo) (ingest_property-Protocol deps st)
      (rw h (refl, λ i e. e))).0
