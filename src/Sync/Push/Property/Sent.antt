-- ===== src/Sync/Push/Property/Sent.antt =====
-- `pushProperty`: the versions that are sent, and the rows that are marked in flight.
use channex_pms.Prelude.{
  ℕ, ◌≡◌, refl, sym, Bool, true, false, ◌||◌, some, List, [], ◌∷◌, ◌++◌, if◌then◌else◌, ◌==◌,
  nat_eq, pair_eq, map, filter, any, All, All-append, ◌∙◌, ap, arith, Bool-cases, inl, inr,
  any-append,
}
use channex_pms.Prelude.Maps.{lookup, insert, lookup-insert, Distinct, All-of_lookup, change}
use channex_pms.Inventory.{RestrictionValues, rate_cell, availability_cell, CellRef}
use channex_pms.Sync.Apply.{CellKey}
use channex_pms.Sync.Push.Store.{
  Row, Rows, AriStore, PendingCell, is_loaded, pending_cell, pending_rows, mark_row, mark_in_flight,
  on_row_of,
}
use channex_pms.Sync.Push.Pipeline.{ref_beq, ref_has_eq, Versions}
use channex_pms.Sync.Push.Pipeline.Rows.{rate_key_ref, rate-on_row_of}
use channex_pms.Sync.Push.Property.{cell_ref, sent_cells, versions_from}

module _ (c : CellRef) (v : ℕ) where
  -- What is sent for the cell is the version `v`.
  abbrev AllVersion : List (CellRef × ℕ) → Type 0
  AllVersion = All (λ p. ref_beq p.0 c ≡ true → p.1 ≡ v)

  abbrev pub is_sent : List (CellRef × ℕ) → Bool
  is_sent = any (λ p. ref_beq p.0 c)

  versions_from-kept :
      (cells : List (CellRef × ℕ)) (m : Versions)
      → AllVersion cells
      → lookup c m ≡ some v
      → lookup c (versions_from m cells) ≡ some v
  versions_from-kept [] m a h = h
  versions_from-kept ((x, n) ∷ cells) m (e, a) h =
      versions_from-kept cells (insert x n m) a (lookup-insert x c n m ∙ go (ref_beq x c) e)
    where
      go : (b : Bool) → (b ≡ true → n ≡ v) → (if b then some n else lookup c m) ≡ some v
      go true e = ap some (e refl)
      go false e = h

  versions_from-sent :
      (cells : List (CellRef × ℕ)) (m : Versions)
      → AllVersion cells
      → is_sent cells ≡ true
      → lookup c (versions_from m cells) ≡ some v
  versions_from-sent [] m a h = cc
  versions_from-sent ((x, n) ∷ cells) m (e, a) h = elim (Bool-cases (ref_beq x c)) [
    | inl y ↦
        versions_from-kept cells (insert x n m) a
          (lookup-insert x c n m ∙ ap (λ b. if b then some n else lookup c m) y ∙ ap some (e y))
    | inr z ↦ versions_from-sent cells (insert x n m) a (ap (λ b. b || is_sent cells) (sym z) ∙ h)
  ]

some_inj : {A : Type 0} {a b : A} → some a ≡ some b → a ≡ b
some_inj e = ground (arith, e)

module _ (k : CellKey) (r : Row RestrictionValues) where
  counts-AllVersion :
      (counts : List (PendingCell ℕ))
      → AllVersion
          (rate_key_ref k)
          r.version
          (map (λ c. (cell_ref availability_cell c, c.cell_version)) counts)
  counts-AllVersion [] = tt
  counts-AllVersion (c ∷ counts) = (λ h. cc, counts-AllVersion counts)

  rates-AllVersion :
      (m : Rows RestrictionValues)
      → All (λ p. pair_eq.beq p.0 k ≡ true → p.1 ≡ r) m
      → AllVersion
          (rate_key_ref k)
          r.version
          (map (λ c. (cell_ref rate_cell c, c.cell_version)) (pending_rows m))
  rates-AllVersion [] a = tt
  rates-AllVersion ((j, q) ∷ m) (e, a) = elim (Bool-cases (is_loaded q)) [
    | inl y ↦
        rw (y, filter)
          (λ h. ap (λ (x : Row RestrictionValues). x.version) (e h), rates-AllVersion m a)
    | inr n ↦ rw (n, filter) (rates-AllVersion m a)
  ]

  pub rates-sent :
      (m : Rows RestrictionValues)
      → lookup k m ≡ some r
      → is_loaded r ≡ true
      → is_sent
          (rate_key_ref k)
          r.version
          (map (λ c. (cell_ref rate_cell c, c.cell_version)) (pending_rows m))
        ≡ true
  rates-sent [] h l = cc
  rates-sent ((j, q) ∷ m) h l = elim (Bool-cases (pair_eq.beq j k)) [
    | inl y ↦
        let same : q ≡ r = ground (arith, h, y) in
        let loaded : is_loaded q ≡ true = ap is_loaded same ∙ l in
        head_kept (is_loaded q) loaded
          (ap (λ b. b || is_sent (rate_key_ref k) r.version (sent_rates m)) y)
    | inr n ↦
        let found : lookup k m ≡ some r = ap (λ b. if b then some q else lookup k m) (sym n) ∙ h in
        rest_kept (is_loaded q) (rates-sent m found l)
  ]
    where
      sent_rates : Rows RestrictionValues → List (CellRef × ℕ)
      sent_rates rows = map (λ c. (cell_ref rate_cell c, c.cell_version)) (pending_rows rows)

      sent_if : Bool → List (CellRef × ℕ)
      sent_if b =
          map (λ c. (cell_ref rate_cell c, c.cell_version))
            (map pending_cell
              (if b then (j, q) ∷ filter (λ p. is_loaded p.1) m else filter (λ p. is_loaded p.1) m))

      head_kept :
          (b : Bool)
          → b ≡ true
          → (pair_eq.beq j k || is_sent (rate_key_ref k) r.version (sent_rates m)) ≡ true
          → is_sent (rate_key_ref k) r.version (sent_if b) ≡ true
      head_kept true e g = g
      head_kept false e g = cc

      any_later : (b : Bool) {c : Bool} → c ≡ true → (b || c) ≡ true
      any_later true g = refl
      any_later false g = g

      rest_kept :
          (b : Bool)
          → is_sent (rate_key_ref k) r.version (sent_rates m) ≡ true
          → is_sent (rate_key_ref k) r.version (sent_if b) ≡ true
      rest_kept false g = g
      rest_kept true g = any_later (pair_eq.beq j k) g

  Distinct-same :
      (m : Rows RestrictionValues)
      → Distinct m
      → lookup k m ≡ some r
      → All (λ p. pair_eq.beq p.0 k ≡ true → p.1 ≡ r) m
  Distinct-same m d h =
      All-of_lookup (λ p. pair_eq.beq p.0 k ≡ true → p.1 ≡ r) m d
        (λ j q f b. some_inj (sym f ∙ ap (λ i. lookup i m) ((pair_eq.beq_iff j k).0 b) ∙ h))

-- The version that a push sends for a cell with a pending row is the row's.
pub sent-version :
    (m : Rows RestrictionValues) (counts : List (PendingCell ℕ)) (k : CellKey)
    (r : Row RestrictionValues)
    → Distinct m
    → lookup k m ≡ some r
    → is_loaded r ≡ true
    → lookup (rate_key_ref k) (versions_from [] (sent_cells (pending_rows m, counts)))
      ≡ some r.version
sent-version m counts k r d h l =
    let first = map (λ c. (cell_ref availability_cell c, c.cell_version)) counts in
    let second = map (λ c. (cell_ref rate_cell c, c.cell_version)) (pending_rows m) in
    versions_from-sent (rate_key_ref k) r.version (first ++ second) []
      (All-append (λ p. ref_beq p.0 (rate_key_ref k) ≡ true → p.1 ≡ r.version) first second
        (counts-AllVersion k r counts) (rates-AllVersion k r m (Distinct-same k r m d h)))
      (any-append (λ p. ref_beq p.0 (rate_key_ref k)) first second
        ∙ later (any (λ p. ref_beq p.0 (rate_key_ref k)) first) (rates-sent k r m h l))
  where
    later : (b : Bool) {c : Bool} → c ≡ true → (b || c) ≡ true
    later true g = refl
    later false g = g

-- A row as it was, but for its state.
abbrev pub IsSameCell : Row RestrictionValues → Row RestrictionValues → Type 0
IsSameCell r q = (q.desired ≡ r.desired) × (q.version ≡ r.version)

mark_row-IsSameCell :
    (v : ℕ) (r q : Row RestrictionValues)
    → IsSameCell r q
    → IsSameCell r (mark_row v RestrictionValues q)
mark_row-IsSameCell v r q h = elim (Bool-cases (q.version == v)) [
  | inl y ↦ rw (y, mark_row) h
  | inr n ↦ rw (n, mark_row) h
]

-- Marking cells in flight keeps what each cell desires and its version.
pub mark_in_flight-IsSameCell :
    (cells : List (CellRef × ℕ)) (s : AriStore) (k : CellKey) (r q : Row RestrictionValues)
    → lookup k s.rate_rows ≡ some q
    → IsSameCell r q
    → (q' : Row RestrictionValues) × (lookup k ((mark_in_flight cells s).rate_rows) ≡ some q')
      × IsSameCell r q'
unfolding mark_in_flight
mark_in_flight-IsSameCell [] s k r q h e = (q, h, e)
mark_in_flight-IsSameCell ((c, v) ∷ cells) s k r q h e =
    let next : AriStore = on_row_of c.kind (c.id, c.date) (mark_row v) s in
    let moved =
      rate-on_row_of (mark_row v) c.kind (c.id, c.date) k s
      ∙ ap (change (λ x. if ref_beq c (rate_key_ref k) then mark_row v RestrictionValues x else x))
          h in
    mark_in_flight-IsSameCell cells next k r
      (if ref_beq c (rate_key_ref k) then mark_row v RestrictionValues q else q) moved
      (go (ref_beq c (rate_key_ref k)))
  where
    go : (b : Bool) → IsSameCell r (if b then mark_row v RestrictionValues q else q)
    go true = mark_row-IsSameCell v r q e
    go false = e
