-- ===== src/Reservations/Protocol/Sweep.antt =====
-- What `ackSweep` leaves unacked.
use channex_pms.Prelude.{
  ℕ, suc, ◌+◌, ◌-◌, Bool, true, false, Option, none, List, [], ◌∷◌, ◌++◌, map, filter, nat_eq,
  contains, any, leb, ◌≤◌, ◌≡◌, refl, ap, ◌∙◌, subst, ◌⊎◌, arith, if◌then◌else◌, All, Bool-cases,
  inl, inr, All-filter, All-weaken,
}
use channex_pms.Shared.Result.{ok}
use channex_pms.Inventory.{EntityId}
use channex_pms.Reservations.Repository.{
  StoredRevision, BookingRepo, mark_acked, acked_revision, acked_entry, is_unacked_at, list_unacked,
}
use channex_pms.Reservations.Ingest.{
  Effect, Alert, ack_asked, alerted, ack_lagging, log_effect, raise, and_then, IngestDeps,
  IngestState,
}
use channex_pms.Reservations.Sweep.{
  SweepSummary, unless_fault, alert_lagging, ask_again, sweep_all, ack_sweep, ack_sweep_after_ms,
  ack_alert_after_ms,
}
use channex_pms.Reservations.Protocol.{stored_ids}
use channex_pms.Reservations.Protocol.Ingest.{raise-cases, IsOk}
use channex_pms.Reservations.Protocol.Waiting.{is_waiting, none-waiting}

module _ {A : Type 0} (P : A → Type 0) (p : A → Bool) (x : A) (xs : List A) where
  filter-head : p x ≡ true → All P (filter p (x ∷ xs)) → P x
  filter-head y h = (subst (λ c. All P (if c then x ∷ filter p xs else filter p xs)) y h).0

  filter-tail : All P (filter p (x ∷ xs)) → All P (filter p xs)
  filter-tail h = elim (Bool-cases (p x)) [
    | inl y ↦ (subst (λ c. All P (if c then x ∷ filter p xs else filter p xs)) y h).1
    | inr n ↦ subst (λ c. All P (if c then x ∷ filter p xs else filter p xs)) n h
  ]

-- Of the stored revisions, those that were unacked and are not among the newly acked ones stay.
unacked-acked :
    (P Q : StoredRevision → Type 0) (ids : List EntityId) (at before : ℕ)
    (m : List (ℕ × StoredRevision))
    → ((r : StoredRevision) → P r → contains r.channex_revision_id ids ≡ false → Q r)
    → All P (filter (is_unacked_at before) (map (λ p. p.1) m))
    → All Q (filter (is_unacked_at before) (map (λ p. p.1) (map (acked_entry ids at) m)))
unacked-acked P Q ids at before [] f h = tt
unacked-acked P Q ids at before ((k, r) ∷ m) f h =
    elim (Bool-cases (contains r.channex_revision_id ids)) [
      | inl y ↦
          rw (y, acked_revision)
            (unacked-acked P Q ids at before m f
              (filter-tail P (is_unacked_at before) r (map (λ p. p.1) m) h))
      | inr z ↦
          rw (z, acked_revision)
            (elim (Bool-cases (is_unacked_at before r)) [
              | inl u ↦
                  rw (u, is_unacked_at)
                    (
                      f r (filter-head P (is_unacked_at before) r (map (λ p. p.1) m) u h) z,
                      unacked-acked P Q ids at before m f
                          (filter-tail P (is_unacked_at before) r (map (λ p. p.1) m) h),
                    )
              | inr u ↦
                  rw (u, is_unacked_at)
                    (unacked-acked P Q ids at before m f
                      (filter-tail P (is_unacked_at before) r (map (λ p. p.1) m) h))
            ])
    ]

abbrev ids_of : List StoredRevision → List EntityId
ids_of = map (λ r. r.channex_revision_id)

none-left :
    (xs : List StoredRevision) → All (λ r. contains r.channex_revision_id [] ≡ true) xs → xs ≡ []
none-left [] h = refl
none-left (x ∷ xs) (h, k) = cc

module _ (deps : IngestDeps) where
  -- What a late revision's alert does: nothing, or it is done.
  pub alert_lagging-cases :
      (now : ℕ) (r : StoredRevision) (s : SweepSummary) (st : IngestState)
      → ((s' : SweepSummary) × (alert_lagging deps now r s st ≡ (st, ok s')))
        ⊎ ((s' : SweepSummary) × (a : Alert) × (x : Option ℕ) × ((raise deps a st).1 ≡ x)
            × (alert_lagging deps now r s st ≡ unless_fault deps s' (log_effect (alerted a) st, x)))
  alert_lagging-cases now r s st =
      elim (Bool-cases (leb ack_alert_after_ms (now - r.received_at))) [
        | inr n ↦ inl (s, rw (n, alert_lagging) refl)
        | inl y ↦
            elim (raise-cases deps (ack_lagging r.stored_id r.stored_property (now - r.received_at))
              st) [
                | inl h ↦ inl (record s { lagging = s.lagging + 1 }, rw (y, alert_lagging, h) refl)
                | inr (x, h) ↦ inr (
                  record s { lagging = s.lagging + 1 },
                  ack_lagging r.stored_id r.stored_property (now - r.received_at),
                  x,
                  rw h refl,
                  rw (y, alert_lagging, h) refl,
                )
              ]
      ]

  module _ (accepts : (t : List Effect) → deps.ack_fault t ≡ none)
      (is_quiet : (a : Alert) (st : IngestState) → (raise deps a st).1 ≡ none) where
    abbrev acked_state : StoredRevision → IngestState → IngestState
    acked_state r st = record st {
      repo = mark_acked (r.channex_revision_id ∷ []) (deps.time_of st.readings) st.repo;
      readings = suc st.readings;
      effects = st.effects ++ ack_asked (r.channex_revision_id ∷ []) ∷ [];
    }

    ask_again-accepts :
        (r : StoredRevision) (s : SweepSummary) (st : IngestState)
        → ask_again deps r s st ≡ (record s { swept = s.swept + 1 }, acked_state r st)
    ask_again-accepts r s st = rw (accepts st.effects, ask_again) refl

    alert_lagging-returns :
        (now : ℕ) (r : StoredRevision) (s : SweepSummary) (st : IngestState)
        → (s' : SweepSummary) × (t : List Effect) × (alert_lagging deps now r s st
            ≡ (record st { effects = t }, ok s'))
    alert_lagging-returns now r s st = elim (alert_lagging-cases now r s st) [
      | inl (s', h) ↦ (s', st.effects, h)
      | inr (s', a, x, q, h) ↦ (s', st.effects ++ alerted a ∷ [], rw (h, ← q, is_quiet a st) refl)
    ]

    sweep_all-step :
        (now : ℕ) (r : StoredRevision) (rs : List StoredRevision) (s : SweepSummary)
        (st : IngestState) (s' : SweepSummary) (st' : IngestState)
        → alert_lagging deps now r s st ≡ (st', ok s')
        → sweep_all deps now (r ∷ rs) s st
          ≡ sweep_all deps now rs (record s' { swept = s'.swept + 1 }) (acked_state r st')
    unfolding sweep_all
    sweep_all-step now r rs s st s' st' e =
        ap
          (λ o. and_then o (λ s2 st2.
            sweep_all deps now rs (ask_again deps r s2 st2).0 (ask_again deps r s2 st2).1))
          e
        ∙ ap (λ q. sweep_all deps now rs q.0 q.1) (ask_again-accepts r s' st')

    sweep_all-clears :
        (now before : ℕ) (rs : List StoredRevision) (s : SweepSummary) (st : IngestState)
        → All (λ r. contains r.channex_revision_id (ids_of rs) ≡ true) (list_unacked before st.repo)
        → (list_unacked before (sweep_all deps now rs s st).0.repo ≡ [])
          × IsOk (sweep_all deps now rs s st).1
    unfolding sweep_all list_unacked mark_acked
    sweep_all-clears now before [] s st h = (none-left (list_unacked before st.repo) h, tt)
    sweep_all-clears now before (r ∷ rs) s st h =
        let (s', t, e) = alert_lagging-returns now r s st in
        let st' = record st { effects = t } in
        rw (sweep_all-step now r rs s st s' st' e) (
          sweep_all-clears now before rs (record s' { swept = s'.swept + 1 }) (acked_state r st')
            (unacked-acked (λ w. contains w.channex_revision_id (ids_of (r ∷ rs)) ≡ true)
              (λ w. contains w.channex_revision_id (ids_of rs) ≡ true) (r.channex_revision_id ∷ [])
              (deps.time_of st.readings) before st.repo.revisions (λ w c n. ground (arith, c, n))
              h))

contains-own :
    (xs : List StoredRevision) → All (λ r. contains r.channex_revision_id (ids_of xs) ≡ true) xs
contains-own [] = tt
contains-own (x ∷ xs) = (
  ground arith,
  All-weaken (λ r. contains r.channex_revision_id (ids_of xs) ≡ true) _ xs
      (λ r h. ground (arith, h)) (contains-own xs),
)

ids_of-stored :
    (m : List (ℕ × StoredRevision))
    → ids_of (map (λ p. p.1) m) ≡ map (λ p. p.1.channex_revision_id) m
ids_of-stored [] = refl
ids_of-stored ((k, r) ∷ m) = ap (λ xs. r.channex_revision_id ∷ xs) (ids_of-stored m)

pub list_unacked-stored :
    (before : ℕ) (repo : BookingRepo)
    → All (λ r. contains r.channex_revision_id (stored_ids repo) ≡ true) (list_unacked before repo)
unfolding list_unacked
list_unacked-stored before repo =
    All-filter _ (is_unacked_at before) (map (λ p. p.1) repo.revisions)
      (rw (← (ids_of-stored repo.revisions)) (contains-own (map (λ p. p.1) repo.revisions)))

ack_sweep-lists_none :
    (deps : IngestDeps) (st : IngestState)
    → ((t : List Effect) → deps.ack_fault t ≡ none)
    → ((a : Alert) (s : IngestState) → (raise deps a s).1 ≡ none)
    → let before = deps.time_of st.readings - ack_sweep_after_ms in
      (list_unacked before (ack_sweep deps st).0.repo ≡ []) × IsOk (ack_sweep deps st).1
unfolding ack_sweep
ack_sweep-lists_none deps st accepts is_quiet =
    let before = deps.time_of st.readings - ack_sweep_after_ms in
    sweep_all-clears deps accepts is_quiet (deps.time_of st.readings) before
      (list_unacked before st.repo) (record { swept = 0; lagging = 0; failed = 0 })
      (record st { readings = suc st.readings }) (contains-own (list_unacked before st.repo))

-- Where the provider takes every ack and no alert throws, a sweep returns, and no revision that was
-- received five minutes and one second before it or earlier is left unacked. The time is at least
-- that long after the epoch.
pub ack_sweep-clears :
    (deps : IngestDeps) (st : IngestState)
    → ((t : List Effect) → deps.ack_fault t ≡ none)
    → ((a : Alert) (s : IngestState) → (raise deps a s).1 ≡ none)
    → 301000 ≤ deps.time_of st.readings
    → let (st', r) = ack_sweep deps st in
      (any (λ p. is_waiting (deps.time_of st.readings - 301000) p.1) st'.repo.revisions ≡ false)
      × IsOk r
unfolding list_unacked
ack_sweep-clears deps st accepts is_quiet late =
    let (none_listed, done) = ack_sweep-lists_none deps st accepts is_quiet in
    (
      none-waiting (deps.time_of st.readings) (ack_sweep deps st).0.repo.revisions late none_listed,
      done,
    )
