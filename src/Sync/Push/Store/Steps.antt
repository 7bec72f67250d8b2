-- ===== src/Sync/Push/Store/Steps.antt =====
-- The operations of the store as steps, and what holds along every sequence of them.
use channex_pms.Prelude.{
  ℕ, ◌≡◌, refl, Option, none, some, List, [], ◌∷◌, All, nat_eq, pair_eq, inl, inr, Bool-cases, ◌==◌,
}
use channex_pms.Prelude.Maps.{lookup, All-adjust, All-insert}
use channex_pms.Shared.Date.{LocalDate}
use channex_pms.Inventory.{
  EntityId, synced, RestrictionValues, CellKind, rate_cell, availability_cell, CellRef,
}
use channex_pms.Sync.Apply.{CellKey}
use channex_pms.Sync.Push.Store.{
  Row, AriStore, empty_store, edited_row, set_rate, set_availability, on_row, on_row_of, mark_row,
  mark_in_flight, OutcomeStatus, was_synced, was_failed, retry, CellOutcome, settle_row,
  outcome_row, apply_outcomes, conflict_row, mark_conflicted,
}

-- One call of an operation that changes the store.
pub data Step : AriStore → AriStore → Type 0 where
  edit_rate :
      (s : AriStore) (plan : EntityId) (date : LocalDate) (values : RestrictionValues)
      → Step s (set_rate plan date values s)
  edit_availability :
      (s : AriStore) (room : EntityId) (date : LocalDate) (available : ℕ)
      → Step s (set_availability room date available s)
  send : (s : AriStore) (cells : List (CellRef × ℕ)) → Step s (mark_in_flight cells s)
  settle : (s : AriStore) (outcomes : List CellOutcome) → Step s (apply_outcomes outcomes s)
  find_drift : (s : AriStore) (cells : List CellRef) → Step s (mark_conflicted cells s)

pub data Steps : AriStore → AriStore → Type 0 where
  stay : (s : AriStore) → Steps s s
  step : (s t u : AriStore) → Step s t → Steps t u → Steps s u

module _ (P : AriStore → Type 0) where
  module _ (marks : (c : CellRef) (v : ℕ) (s : AriStore) → P s → P (on_row c (mark_row v) s))
      (settles : (c : CellRef) (v : ℕ) (o : OutcomeStatus) (s : AriStore)
        → P s
        → P (on_row c (outcome_row v o) s))
      (conflicts : (c : CellRef) (s : AriStore) → P s → P (on_row c conflict_row s)) where
    mark_in_flight-keeps :
        (cells : List (CellRef × ℕ)) (s : AriStore) → P s → P (mark_in_flight cells s)
    unfolding mark_in_flight
    mark_in_flight-keeps [] s h = h
    mark_in_flight-keeps ((c, v) ∷ cells) s h =
        mark_in_flight-keeps cells (on_row c (mark_row v) s) (marks c v s h)

    apply_outcomes-keeps : (os : List CellOutcome) (s : AriStore) → P s → P (apply_outcomes os s)
    unfolding apply_outcomes
    apply_outcomes-keeps [] s h = h
    apply_outcomes-keeps (o ∷ os) s h =
        apply_outcomes-keeps os (on_row o.cell (outcome_row o.outcome_version o.status) s)
          (settles o.cell o.outcome_version o.status s h)

    mark_conflicted-keeps :
        (cells : List CellRef) (s : AriStore) → P s → P (mark_conflicted cells s)
    unfolding mark_conflicted
    mark_conflicted-keeps [] s h = h
    mark_conflicted-keeps (c ∷ cells) s h =
        mark_conflicted-keeps cells (on_row c conflict_row s) (conflicts c s h)

    -- What the edits and the three changes of a row keep, every step keeps.
    pub Step-keeps :
        ((plan : EntityId) (date : LocalDate) (values : RestrictionValues) (s : AriStore)
          → P s
          → P (set_rate plan date values s))
        → ((room : EntityId) (date : LocalDate) (n : ℕ) (s : AriStore)
            → P s
            → P (set_availability room date n s))
        → (s t : AriStore) → Step s t
        → P s
        → P t
    Step-keeps er ea s _ (edit_rate _ plan date values) h = er plan date values s h
    Step-keeps er ea s _ (edit_availability _ room date n) h = ea room date n s h
    Step-keeps er ea s _ (send _ cells) h = mark_in_flight-keeps cells s h
    Step-keeps er ea s _ (settle _ os) h = apply_outcomes-keeps os s h
    Step-keeps er ea s _ (find_drift _ cells) h = mark_conflicted-keeps cells s h

-- A property of every row of a store.
abbrev pub AllRows : ((V : Type 0) → Row V → Type 0) → AriStore → Type 0
AllRows P s =
    All (λ p. P RestrictionValues p.1) s.rate_rows × All (λ p. P ℕ p.1) s.availability_rows

on_row-AllRows :
    (P : (V : Type 0) → Row V → Type 0) (f : (V : Type 0) → Row V → Row V)
    → ((V : Type 0) (r : Row V) → P V r → P V (f V r))
    → (kind : CellKind) (k : CellKey) (s : AriStore) → AllRows P s
    → AllRows P (on_row_of kind k f s)
on_row-AllRows P f g rate_cell k s (h, h') = (
  All-adjust (P RestrictionValues) k (f RestrictionValues) s.rate_rows (g RestrictionValues) h,
  h',
)
on_row-AllRows P f g availability_cell k s (h, h') =
    (h, All-adjust (P ℕ) k (f ℕ) s.availability_rows (g ℕ) h')

-- A synced row's mirror holds the desired value.
abbrev pub IsHonest : (V : Type 0) → Row V → Type 0
IsHonest V r = r.sync_state ≡ synced → r.synced_value ≡ some r.desired

mark_row-IsHonest : (v : ℕ) (V : Type 0) (r : Row V) → IsHonest V r → IsHonest V (mark_row v V r)
mark_row-IsHonest v V r h = elim (Bool-cases (r.version == v)) [
  | inl y ↦ rw (y, mark_row) (λ e. cc)
  | inr n ↦ rw (n, mark_row) h
]

settle_row-IsHonest : (o : OutcomeStatus) (V : Type 0) (r : Row V) → IsHonest V (settle_row o V r)
settle_row-IsHonest was_synced V r e = refl
settle_row-IsHonest (was_failed retry) V r e = cc
settle_row-IsHonest (was_failed _) V r e = cc

outcome_row-IsHonest :
    (v : ℕ) (o : OutcomeStatus) (V : Type 0) (r : Row V)
    → IsHonest V r
    → IsHonest V (outcome_row v o V r)
outcome_row-IsHonest v o V r h = elim (Bool-cases (r.version == v)) [
  | inl y ↦ rw (y, outcome_row) (settle_row-IsHonest o V r)
  | inr n ↦ rw (n, outcome_row) h
]

edited_row-IsHonest : (V : Type 0) (prev : Option (Row V)) (x : V) → IsHonest V (edited_row prev x)
edited_row-IsHonest V none x e = cc
edited_row-IsHonest V (some r) x e = cc

Step-AllHonest : (s t : AriStore) → Step s t → AllRows IsHonest s → AllRows IsHonest t
unfolding set_rate set_availability
Step-AllHonest =
    Step-keeps (AllRows IsHonest)
      (λ c v. on_row-AllRows IsHonest (mark_row v) (mark_row-IsHonest v) c.kind (c.id, c.date))
      (λ c v o.
        on_row-AllRows IsHonest (outcome_row v o) (outcome_row-IsHonest v o) c.kind (c.id, c.date))
      (λ c. on_row-AllRows IsHonest conflict_row (λ V r h e. cc) c.kind (c.id, c.date))
      (λ plan date values s h. (
        All-insert (λ p. IsHonest RestrictionValues p.1) (plan, date) _ s.rate_rows h.0
            (edited_row-IsHonest RestrictionValues (lookup (plan, date) s.rate_rows) _),
        h.1,
      ))
      (λ room date n s h. (
        h.0,
        All-insert (λ p. IsHonest ℕ p.1) (room, date) _ s.availability_rows h.1
            (edited_row-IsHonest ℕ (lookup (room, date) s.availability_rows) n),
      ))

Steps-AllHonest : (s t : AriStore) → Steps s t → AllRows IsHonest s → AllRows IsHonest t
Steps-AllHonest s _ (stay _) h = h
Steps-AllHonest s u (step _ t _ x xs) h = Steps-AllHonest t u xs (Step-AllHonest s t x h)

-- Whatever calls an empty store has received, a row that is marked synced has the value that it
-- desires as the value last accepted by the provider.
pub reachable-AllHonest : (s : AriStore) → Steps empty_store s → AllRows IsHonest s
reachable-AllHonest s x = Steps-AllHonest empty_store s x (tt, tt)
