-- ===== src/Sync/Push/Store/Edits.antt =====
-- `MemoryAriStore` (push/memory-store.ts): versions, and edits made while a cell is being pushed.
use channex_pms.Prelude.{
  ℕ, ◌<◌, ◌≤◌, ◌≡◌, refl, Option, none, some, List, nat_eq, pair_eq, arith, ◌⊎◌, inl, inr,
  Bool-cases, ◌==◌, ◌∙◌,
}
use channex_pms.Prelude.Maps.{lookup, insert, lookup-insert, adjust, lookup-adjust, change}
use channex_pms.Shared.Date.{LocalDate}
use channex_pms.Inventory.{
  EntityId, RestrictionValues, CellKind, rate_cell, availability_cell, CellRef,
}
use channex_pms.Sync.Apply.{CellKey}
use channex_pms.Sync.Push.Store.{
  Row, AriStore, edited_row, set_rate, set_availability, on_row_of, mark_row, OutcomeStatus,
  was_synced, was_failed, retry, settle_row, outcome_row, conflict_row,
}
use channex_pms.Sync.Push.Store.Steps.{Step, Steps, stay, step, Step-keeps}

module _ {V : Type 0} where
  -- A row later in time: edited since, or with the same version and the same desired value.
  abbrev pub IsLater : Row V → Row V → Type 0
  IsLater r r' = (r.version < r'.version) ⊎ ((r.version ≡ r'.version) × (r'.desired ≡ r.desired))

  abbrev pub IsLaterOption : Row V → Option (Row V) → Type 0
  IsLaterOption r none = ⊥
  IsLaterOption r (some r') = IsLater r r'

  IsLater-trans : (a b c : Row V) → IsLater a b → IsLater b c → IsLater a c
  IsLater-trans a b c (inl x) (inl y) = inl (omega arith)
  IsLater-trans a b c (inl x) (inr (y, z)) = inl (omega arith)
  IsLater-trans a b c (inr (x, z)) (inl y) = inl (omega arith)
  IsLater-trans a b c (inr (x, z)) (inr (y, w)) = inr (x ∙ y, w ∙ z)

  IsLaterOption-edit :
      (r : Row V) (o : Option (Row V)) (x : V)
      → IsLaterOption r o
      → IsLaterOption r (some (edited_row o x))
  IsLaterOption-edit r none x h = elim h [ ]
  IsLaterOption-edit r (some q) x (inl h) = inl (omega arith)
  IsLaterOption-edit r (some q) x (inr (h, e)) = inl (omega arith)

  insert-IsLater :
      (r : Row V) (k j : CellKey) (x : V) (m : List (CellKey × Row V))
      → IsLaterOption r (lookup k m)
      → IsLaterOption r (lookup k (insert j (edited_row (lookup j m) x) m))
  insert-IsLater r k j x m h =
      rw (lookup-insert j k (edited_row (lookup j m) x) m) (elim (Bool-cases (pair_eq.beq j k)) [
        | inl s ↦
            let same : j ≡ k = (pair_eq.beq_iff j k).0 s in
            rw (s, same) (IsLaterOption-edit r (lookup k m) x h)
        | inr t ↦ rw t h
      ])

  change-IsLater :
      (r : Row V) (f : Row V → Row V) (o : Option (Row V))
      → ((q : Row V) → IsLater q (f q))
      → IsLaterOption r o
      → IsLaterOption r (change f o)
  change-IsLater r f none g h = elim h [ ]
  change-IsLater r f (some q) g h = IsLater-trans r q (f q) h (g q)

  adjust-IsLater :
      (r : Row V) (k j : CellKey) (f : Row V → Row V) (m : List (CellKey × Row V))
      → ((q : Row V) → IsLater q (f q))
      → IsLaterOption r (lookup k m)
      → IsLaterOption r (lookup k (adjust j f m))
  adjust-IsLater r k j f m g h = rw (lookup-adjust j k f m) (elim (Bool-cases (pair_eq.beq j k)) [
    | inl s ↦ rw s (change-IsLater r f (lookup k m) g h)
    | inr t ↦ rw t h
  ])

mark_row-IsLater : (v : ℕ) (V : Type 0) (r : Row V) → IsLater r (mark_row v V r)
mark_row-IsLater v V r = elim (Bool-cases (r.version == v)) [
  | inl y ↦ rw (y, mark_row) (inr (refl, refl))
  | inr n ↦ rw (n, mark_row) (inr (refl, refl))
]

settle_row-IsLater : (o : OutcomeStatus) (V : Type 0) (r : Row V) → IsLater r (settle_row o V r)
settle_row-IsLater was_synced V r = inr (refl, refl)
settle_row-IsLater (was_failed retry) V r = inr (refl, refl)
settle_row-IsLater (was_failed _) V r = inr (refl, refl)

outcome_row-IsLater :
    (v : ℕ) (o : OutcomeStatus) (V : Type 0) (r : Row V) → IsLater r (outcome_row v o V r)
outcome_row-IsLater v o V r = elim (Bool-cases (r.version == v)) [
  | inl y ↦ rw (y, outcome_row) (settle_row-IsLater o V r)
  | inr n ↦ rw (n, outcome_row) (inr (refl, refl))
]

-- A rate cell and an availability cell, each later than a row that it once was.
abbrev IsAfter : CellKey → Row RestrictionValues → AriStore → Type 0
IsAfter k r s = IsLaterOption r (lookup k s.rate_rows)

on_row-IsAfter :
    (k : CellKey) (r : Row RestrictionValues) (f : (V : Type 0) → Row V → Row V)
    → ((V : Type 0) (q : Row V) → IsLater q (f V q))
    → (kind : CellKind) (j : CellKey) (s : AriStore) → IsAfter k r s
    → IsAfter k r (on_row_of kind j f s)
on_row-IsAfter k r f g rate_cell j s h =
    adjust-IsLater r k j (f RestrictionValues) s.rate_rows (g RestrictionValues) h
on_row-IsAfter k r f g availability_cell j s h = h

Step-IsAfter :
    (k : CellKey) (r : Row RestrictionValues) (s t : AriStore)
    → Step s t
    → IsAfter k r s
    → IsAfter k r t
unfolding set_rate set_availability
Step-IsAfter k r =
    Step-keeps (IsAfter k r)
      (λ c v. on_row-IsAfter k r (mark_row v) (mark_row-IsLater v) c.kind (c.id, c.date))
      (λ c v o.
        on_row-IsAfter k r (outcome_row v o) (outcome_row-IsLater v o) c.kind (c.id, c.date))
      (λ c. on_row-IsAfter k r conflict_row (λ V q. inr (refl, refl)) c.kind (c.id, c.date))
      (λ plan date values s h. insert-IsLater r k (plan, date) _ s.rate_rows h)
      (λ room date n s h. h)

Steps-IsAfter :
    (k : CellKey) (r : Row RestrictionValues) (s t : AriStore)
    → Steps s t
    → IsAfter k r s
    → IsAfter k r t
Steps-IsAfter k r s _ (stay _) h = h
Steps-IsAfter k r s u (step _ t _ x xs) h = Steps-IsAfter k r t u xs (Step-IsAfter k r s t x h)

-- Through every sequence of calls a rate cell stays in the store, its version never falls, and
-- while the version is the same so is the desired value: comparing versions tells an edit.
pub Steps-version :
    (s t : AriStore) (k : CellKey) (r : Row RestrictionValues)
    → Steps s t
    → lookup k s.rate_rows ≡ some r
    → (r' : Row RestrictionValues) × (lookup k t.rate_rows ≡ some r')
      × (r.version ≤ r'.version)
      × (r'.version ≡ r.version → r'.desired ≡ r.desired)
Steps-version s t k r x e =
    found (lookup k t.rate_rows) refl (Steps-IsAfter k r s t x (rw e (inr (refl, refl))))
  where
    found :
        (o : Option (Row RestrictionValues))
        → lookup k t.rate_rows ≡ o
        → IsLaterOption r o
        → (r' : Row RestrictionValues) × (lookup k t.rate_rows ≡ some r')
          × (r.version ≤ r'.version)
          × (r'.version ≡ r.version → r'.desired ≡ r.desired)
    found none p h = elim h [ ]
    found (some r') p (inl h) = (r', p, omega arith, λ q. let no : ⊥ = omega arith in elim no [ ])
    found (some r') p (inr (h, w)) = (r', p, omega arith, λ q. w)

-- The version of a cell, 0 where it has no row.
abbrev pub version_of : {V : Type 0} → Option (Row V) → ℕ
version_of none = 0
version_of (some r) = r.version

abbrev pub rate_ref : EntityId → LocalDate → CellRef
rate_ref plan date = record { kind = rate_cell; id = plan; date = date }
