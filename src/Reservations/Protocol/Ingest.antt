-- ===== src/Reservations/Protocol/Ingest.antt =====
-- `ingestProperty` and `applyOne` as runs of the protocol.
use channex_pms.Prelude.{
  ℕ, zero, suc, ◌+◌, true, Option, none, some, List, [], ◌∷◌, map, nat_eq, contains, ◌≡◌, ◌⊎◌, refl,
  Bool-cases, Option-cases, inl, inr, arith,
}
use channex_pms.Prelude.Maps.{lookup, insert}
use channex_pms.Shared.Result.{Result, ok, err}
use channex_pms.Inventory.{EntityId}
use channex_pms.Reservations.{
  Revision, Projection, MappingState, is_newer_than, project_revision, diff_projection,
}
use channex_pms.Reservations.Repository.{
  StoredRevision, RevisionInput, load_projection, find_revision_by_system_id, apply_revision,
  stored_revision,
}
use channex_pms.Reservations.Ingest.{
  alerted, Alert, unmapped_booking, IngestDeps, IngestState, IngestSummary, IngestError, Progress,
  commit, raise, booking_id_of, stale_input, newer_input, alert_unmapped, is_mapped, apply_newer,
  apply_one, ack, acked_progress, take_unseen, take_revision, take_page, Outcome, and_then,
  next_cursor_of, feed_rounds, ingest_property, max_feed_rounds, no_ingest, log_effect,
}
use channex_pms.Reservations.Protocol.{
  View, view, stored_ids, Projected, is_stale, is_newer, commits, asks_ack, is_acked, alerts,
  Protocol, rests, goes, Protocol-trans, step_only,
}

pub stored_ids-lookup :
    (k : ℕ) (r : StoredRevision) (m : List (ℕ × StoredRevision))
    → lookup k m ≡ some r
    → contains r.channex_revision_id (map (λ p. p.1.channex_revision_id) m) ≡ true
stored_ids-lookup k r [] f = cc
stored_ids-lookup k r ((j, w) ∷ m) f = ground (arith, stored_ids-lookup k r m)

contains-insert :
    (k : ℕ) (r : StoredRevision) (m : List (ℕ × StoredRevision))
    → contains r.channex_revision_id (map (λ p. p.1.channex_revision_id) (insert k r m)) ≡ true
contains-insert k r [] = ground arith
contains-insert k r ((j, w) ∷ m) = ground (arith, contains-insert k r m)

abbrev pub IsOk : {A E : Type 0} → Result A E → Type 0
IsOk (ok a) = Unit
IsOk (err x) = ⊥

Result-cases : {A E : Type 0} (r : Result A E) → ((a : A) × (r ≡ ok a)) ⊎ ((x : E) × (r ≡ err x))
Result-cases (ok a) = inl (a, refl)
Result-cases (err x) = inr (x, refl)

pub and_then-Protocol :
    {A B : Type 0} (v : View) (o : Outcome A) (rest : A → IngestState → Outcome B)
    → Protocol v (view o.0)
    → ((a : A) → o.1 ≡ ok a → Protocol (view o.0) (view (rest a o.0).0))
    → Protocol v (view (and_then o rest).0)
and_then-Protocol v (st, err x) rest p q = p
and_then-Protocol v (st, ok a) rest p q = Protocol-trans p (q a refl)

module _ (deps : IngestDeps) where
  -- What raising an alert does: nothing, or it is done, whatever its fault.
  pub raise-cases :
      (alert : Alert) (st : IngestState)
      → (raise deps alert st ≡ (st, none))
        ⊎ ((x : Option ℕ) × (raise deps alert st ≡ (log_effect (alerted alert) st, x)))
  raise-cases alert st = elim (Option-cases deps.alerts) [
    | inl n ↦ inl (rw (n, raise) refl)
    | inr (faults, h) ↦ inr (faults st.effects, rw (h, raise) refl)
  ]

  ack-Protocol :
      (id : EntityId) (s : IngestSummary) (st : IngestState)
      → contains id (stored_ids st.repo) ≡ true
      → Protocol (view st) (view (ack deps (id ∷ []) s st).0)
  unfolding ack
  ack-Protocol id s st c = elim (Option-cases (deps.ack_fault st.effects)) [
    | inl n ↦ rw (n, ack) (step_only (is_acked (view st) id (deps.time_of st.readings) c))
    | inr (x, h) ↦ rw (h, ack) (step_only (asks_ack (view st) id c))
  ]

  commit-Protocol :
      (input : RevisionInput) (s : IngestSummary) (st : IngestState)
      → find_revision_by_system_id input.revision.system_id st.repo ≡ none
      → Projected st.repo input
      → Protocol (view st) (view (commit deps input s st).0)
        × (contains input.revision.revision_id (stored_ids (commit deps input s st).0.repo) ≡ true)
  unfolding apply_revision
  commit-Protocol input s st n p =
      rw (n, commit, apply_revision)
        (
          step_only (commits (view st) input (deps.generated_id st.generated) n p),
          contains-insert input.revision.system_id
              (stored_revision input (deps.generated_id st.generated) st.repo) st.repo.revisions,
        )

  -- What a run that applies a revision promises: it is a run of the protocol, and when it returns
  -- the revision is stored.
  abbrev Stores :
      {A : Type 0} → Revision → IngestState → IngestState × Result A IngestError → Type 0
  Stores rev st (st', r) =
      Protocol (view st) (view st')
      × ((IsOk r) → contains rev.revision_id (stored_ids st'.repo) ≡ true)

  alert_unmapped-cases :
      (rev : Revision) (booking : EntityId) (state : MappingState) (st : IngestState)
      → (alert_unmapped deps rev booking state st ≡ (st, none))
        ⊎ ((a : Alert) × (x : Option ℕ) × (alert_unmapped deps rev booking state st
              ≡ (log_effect (alerted a) st, x)))
  alert_unmapped-cases rev booking state st = elim (Bool-cases (is_mapped state)) [
    | inl y ↦ inl (rw (y, alert_unmapped) refl)
    | inr n ↦
        rw (n, alert_unmapped)
          (elim (raise-cases (unmapped_booking booking rev.property_id state) st) [
            | inl h ↦ inl h
            | inr (x, h) ↦ inr (_, x, h)
          ])
  ]

  apply_newer-Stores :
      (rev : Revision) (booking : EntityId) (now : ℕ) (s : IngestSummary) (st : IngestState)
      → find_revision_by_system_id rev.system_id st.repo ≡ none
      → is_newer_than rev (load_projection rev.booking_id st.repo) ≡ true
      → Stores rev st
          (apply_newer deps rev (load_projection rev.booking_id st.repo) booking now s st)
  unfolding apply_newer
  apply_newer-Stores rev booking now s st n w =
      let prev = load_projection rev.booking_id st.repo in
      let next = project_revision rev booking in
      let input = newer_input deps rev prev booking now in
      let s' = record s { applied = s.applied + 1 } in
      elim (alert_unmapped-cases rev booking (diff_projection prev next).next_mapping st) [
        | inl h ↦
            let (p, c) = commit-Protocol input s' st n (is_newer booking w refl) in
            rw (apply_newer, h) (p, (λ k. c))
        | inr (a, none, h) ↦
            let (p, c) =
              commit-Protocol input s' (log_effect (alerted a) st) n (is_newer booking w refl) in
            rw (apply_newer, h) (goes (alerts (view st) a) p, (λ k. c))
        | inr (a, some x, h) ↦
            rw (apply_newer, h) (step_only (alerts (view st) a), (λ k. elim k [ ]))
      ]

  booking_id_of-cases :
      (prev : Option Projection) (st : IngestState)
      → (b : EntityId) × (g : ℕ) × (booking_id_of deps prev st ≡ (b, record st { generated = g }))
  booking_id_of-cases none st = (_, _, refl)
  booking_id_of-cases (some p) st = (_, st.generated, refl)

  apply_one-Stores :
      (rev : Revision) (s : IngestSummary) (st : IngestState)
      → find_revision_by_system_id rev.system_id st.repo ≡ none
      → Stores rev st (apply_one deps rev s st)
  unfolding apply_one
  apply_one-Stores rev s st n =
      let now = deps.time_of st.readings in
      let prev = load_projection rev.booking_id st.repo in
      let (b, g, h) = booking_id_of-cases prev (record st { readings = suc st.readings }) in
      let st' = record st { readings = suc st.readings; generated = g } in
      elim (Bool-cases (is_newer_than rev prev)) [
        | inl y ↦ rw (apply_one, h, y) (apply_newer-Stores rev b now s st' n y)
        | inr z ↦
            let (p, c) =
              commit-Protocol (stale_input deps rev now) (record s { stale = s.stale + 1 }) st' n
                (is_stale z refl) in
            rw (apply_one, h, z) (p, (λ k. c))
      ]

  acked_progress-Protocol :
      (seen : List ℕ) (fresh : ℕ) (id : EntityId) (s : IngestSummary) (st : IngestState)
      → contains id (stored_ids st.repo) ≡ true
      → Protocol (view st) (view (acked_progress deps seen fresh (id ∷ []) s st).0)
  acked_progress-Protocol seen fresh id s st c = ack-Protocol id s st c

  take_unseen-Protocol :
      (rev : Revision) (seen : List ℕ) (fresh : ℕ) (s : IngestSummary) (st : IngestState)
      → Protocol (view st) (view (take_unseen deps rev seen fresh s st).0)
  unfolding take_unseen
  take_unseen-Protocol rev seen fresh s st =
      elim (Option-cases (find_revision_by_system_id rev.system_id st.repo)) [
        | inl n ↦
            let (p, c) = apply_one-Stores rev s st n in
            rw (n, take_unseen)
              (and_then-Protocol (view st) (apply_one deps rev s st)
                (acked_progress deps seen fresh (rev.revision_id ∷ [])) p
                (λ s' e.
                  acked_progress-Protocol seen fresh rev.revision_id s' (apply_one deps rev s st).0
                    (c (rw e tt))))
        | inr (r, h) ↦ elim (Option-cases r.acked_at) [
          | inl n ↦
              rw (h, n, take_unseen)
                (acked_progress-Protocol seen fresh r.channex_revision_id
                  (record s { reacked = s.reacked + 1 }) st
                  (stored_ids-lookup rev.system_id r st.repo.revisions h))
          | inr (t, e) ↦ rw (h, e, take_unseen) rests
        ]
      ]

  take_revision-Protocol :
      (rev : Revision) (progress : Progress) (st : IngestState)
      → Protocol (view st) (view (take_revision deps rev progress st).0)
  take_revision-Protocol rev (seen, (fresh, s)) st =
      elim (Bool-cases (contains rev.system_id seen)) [
        | inl y ↦ rw (y, take_revision) rests
        | inr n ↦
            rw (n, take_revision)
              (take_unseen-Protocol rev (rev.system_id ∷ seen) (fresh + 1)
                (record s { seen_count = s.seen_count + 1 }) st)
      ]

  take_page-Protocol :
      (revs : List Revision) (progress : Progress) (st : IngestState)
      → Protocol (view st) (view (take_page deps revs progress st).0)
  unfolding take_page
  take_page-Protocol [] progress st = rests
  take_page-Protocol (rev ∷ revs) progress st =
      let o = take_revision deps rev progress st in
      and_then-Protocol (view st) o (take_page deps revs) (take_revision-Protocol rev progress st)
        (λ progress' e. take_page-Protocol revs progress' o.0)

  feed_rounds-Protocol :
      (left round : ℕ) (seen : List ℕ) (cursor : Option ℕ) (s : IngestSummary) (st : IngestState)
      → Protocol (view st) (view (feed_rounds deps left round seen cursor s st).0)
  unfolding feed_rounds
  feed_rounds-Protocol zero round seen cursor s st = rests
  feed_rounds-Protocol (suc left) round seen cursor s st =
      elim (Result-cases (deps.list_booking_revisions round cursor st.effects)) [
        | inr (x, h) ↦ rw (h, feed_rounds) rests
        | inl (page, h) ↦
            let o = take_page deps page.page_revisions (seen, (0, s)) st in
            rw (h, feed_rounds)
              (and_then-Protocol (view st) o _
                (take_page-Protocol page.page_revisions (seen, (0, s)) st)
                (λ progress e. elim (Option-cases (next_cursor_of deps page progress.1.0)) [
                  | inl n ↦ rw n rests
                  | inr (next, n) ↦
                      rw n (feed_rounds-Protocol left (suc round) progress.0 next progress.1.1 o.0)
                ]))
      ]

  -- Every run of the ingestion, whether it returns or throws, and whatever the provider and the
  -- alerts answer, is a run of the protocol: it stores revisions whose system ids are not stored,
  -- moves a projection only to a newer revision, and asks the provider to acknowledge stored
  -- revisions only.
  pub ingest_property-Protocol :
      (st : IngestState) → Protocol (view st) (view (ingest_property deps st).0)
  unfolding ingest_property
  ingest_property-Protocol st = feed_rounds-Protocol max_feed_rounds 0 [] none no_ingest st
