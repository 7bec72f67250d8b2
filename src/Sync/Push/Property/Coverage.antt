-- ===== src/Sync/Push/Property/Coverage.antt =====
-- `pushProperty`: the entries of the restriction batch cover every pending cell that has a value.
use channex_pms.Prelude.{
  ◌<◌, ◌≡◌, subst, refl, sym, Bool, true, false, ◌||◌, Option, none, some, List, [], ◌∷◌,
  if◌then◌else◌, nat_eq, pair_eq, Eq, map, filter, any, concat, arith, ◌∙◌, ap, Bool-cases,
  Option-cases, inl, inr,
}
use channex_pms.Prelude.Maps.{lookup, Distinct}
use channex_pms.Shared.Date.{LocalDate}
use channex_pms.Inventory.{
  Weekday, RestrictionField, FieldValue, RestrictionValues, RateCell, RestrictionEntry, BatchLimits,
}
use channex_pms.Sync.Dates.{expand_dates}
use channex_pms.Sync.Dates.Laws.{contains-expand_dates}
use channex_pms.Sync.Encode.Coverage.{covers, or_else}
use channex_pms.Sync.Apply.{CellKey, empty_state}
use channex_pms.Sync.Apply.Reads.{result, write_of, apply_restriction_entries-read}
use channex_pms.Sync.Apply.Cells.{is_cell, last_defined, state_from_cells-read}
use channex_pms.Sync.Build.{build_restriction_batch}
use channex_pms.Sync.Build.Exact.{AreDistinct, build_restriction_batch-exact}
use channex_pms.Sync.Push.Store.{Row, Rows, is_loaded, pending_cell, pending_rows}
use channex_pms.Sync.Push.Pipeline.{plan_entry}
use channex_pms.Sync.Push.Pipeline.Rows.{covers_ref, rate_key_ref}
use channex_pms.Sync.Push.Pipeline.Reaches.{has_ref-dates}
use channex_pms.Sync.Push.Property.{rate_cells}

or_left : {a : Bool} (b : Bool) → a ≡ true → (a || b) ≡ true
or_left b h = ap (λ x. x || b) h

or_right : (a : Bool) {b : Bool} → b ≡ true → (a || b) ≡ true
or_right true h = refl
or_right false h = h

module _ (weekday_of : LocalDate → Weekday) (k : CellKey) where
  covers-entry :
      (f : RestrictionField) (x : RestrictionEntry) (v : FieldValue)
      → (if covers weekday_of (write_of k.0 f x) k.1 then (write_of k.0 f x).value else none)
        ≡ some v
      → covers_ref weekday_of (rate_key_ref k) (plan_entry x) ≡ true
  covers-entry f x v h =
      has_ref-dates k x.rate_plan_id (expand_dates weekday_of x.date_from x.date_to x.days)
      ∙ (rw (contains-expand_dates weekday_of x.date_from x.date_to x.days k.1) (ground (arith, h)))

  covers-result :
      (f : RestrictionField) (es : List RestrictionEntry) (v : FieldValue)
      → result weekday_of (map (write_of k.0 f) es) k.1 ≡ some v
      → any (covers_ref weekday_of (rate_key_ref k)) (map plan_entry es) ≡ true
  unfolding result
  covers-result f [] v h = cc
  covers-result f (x ∷ es) v h =
      elim (Option-cases (result weekday_of (map (write_of k.0 f) es) k.1)) [
        | inl n ↦ or_left (any (covers_ref weekday_of (rate_key_ref k)) (map plan_entry es)) (
            covers-entry f x v (
              ap
                (λ o. or_else o (
                  if covers weekday_of (write_of k.0 f x) k.1
                  then (write_of k.0 f x).value
                  else none))
                (sym n)
              ∙ h))
        | inr (w, s) ↦
            or_right (covers_ref weekday_of (rate_key_ref k) (plan_entry x))
              (covers-result f es w s)
      ]

-- The rate cells of the pending rows.
abbrev pub cells_of_rows : Rows RestrictionValues → List RateCell
cells_of_rows m = rate_cells (pending_rows m)

or_else-some : {A : Type 0} (o : Option A) (v : A) → (w : A) × (or_else o (some v) ≡ some w)
or_else-some none v = (v, refl)
or_else-some (some w) v = (w, refl)

or_else_kept : {A : Type 0} (o p : Option A) (w : A) → o ≡ some w → or_else o p ≡ some w
or_else_kept o p w h = ap (λ x. or_else x p) h

cells_of_rows-keep :
    (j : CellKey) (q : Row RestrictionValues) (m : Rows RestrictionValues)
    → is_loaded q ≡ true
    → cells_of_rows ((j, q) ∷ m)
      ≡ record { rate_plan_id = j.0; date = j.1; values = q.desired } ∷ cells_of_rows m
cells_of_rows-keep j q m h =
    ap
      (λ b. rate_cells (
        map pending_cell
          (if b then (j, q) ∷ filter (λ p. is_loaded p.1) m else filter (λ p. is_loaded p.1) m)))
      h

cells_of_rows-skip :
    (j : CellKey) (q : Row RestrictionValues) (m : Rows RestrictionValues)
    → is_loaded q ≡ false
    → cells_of_rows ((j, q) ∷ m) ≡ cells_of_rows m
cells_of_rows-skip j q m h =
    ap
      (λ b. rate_cells (
        map pending_cell
          (if b then (j, q) ∷ filter (λ p. is_loaded p.1) m else filter (λ p. is_loaded p.1) m)))
      h

module _ (k : CellKey) (f : RestrictionField) where
  pending-defined :
      (m : Rows RestrictionValues) (r : Row RestrictionValues) (v : FieldValue)
      → lookup k m ≡ some r
      → is_loaded r ≡ true
      → r.desired f ≡ some v
      → (w : FieldValue) × (last_defined k.0 k.1 f (cells_of_rows m) ≡ some w)
  pending-defined [] r v h l d = cc
  pending-defined ((j, q) ∷ m) r v h l d = elim (Bool-cases (pair_eq.beq j k)) [
    | inl y ↦
        let same : q ≡ r = ground (arith, h, y) in
        let loaded : is_loaded q ≡ true = ap is_loaded same ∙ l in
        let (w, e) = or_else-some (last_defined k.0 k.1 f (cells_of_rows m)) v in
        (
          w,
          ap (last_defined k.0 k.1 f) (cells_of_rows-keep j q m loaded)
              ∙ ap
                  (λ b.
                    or_else (last_defined k.0 k.1 f (cells_of_rows m))
                      (if b then q.desired f else none))
                  y
              ∙ ap
                  (λ (x : Row RestrictionValues).
                    or_else (last_defined k.0 k.1 f (cells_of_rows m)) (x.desired f))
                  same
              ∙ ap (or_else (last_defined k.0 k.1 f (cells_of_rows m))) d
              ∙ e,
        )
    | inr n ↦
        let found : lookup k m ≡ some r = ap (λ b. if b then some q else lookup k m) (sym n) ∙ h in
        let (w, e) = pending-defined m r v found l d in
        elim (Bool-cases (is_loaded q)) [
          | inl y ↦
              (w, ap (last_defined k.0 k.1 f) (cells_of_rows-keep j q m y) ∙ or_else_kept _ _ w e)
          | inr z ↦ (w, ap (last_defined k.0 k.1 f) (cells_of_rows-skip j q m z) ∙ e)
        ]
  ]

pending-absent :
    (m : Rows RestrictionValues) (k : CellKey)
    → lookup k m ≡ none
    → any (is_cell k.0 k.1) (cells_of_rows m) ≡ false
pending-absent [] k h = refl
pending-absent ((j, q) ∷ m) k h =
    let apart : (pair_eq.beq j k) ≡ false = ground (arith, h) in
    let rest : lookup k m ≡ none = ground (arith, h) in
    elim (Bool-cases (is_loaded q)) [
      | inl y ↦
          ap (any (is_cell k.0 k.1)) (cells_of_rows-keep j q m y)
          ∙ ap (λ b. b || any (is_cell k.0 k.1) (cells_of_rows m)) apart
          ∙ pending-absent m k rest
      | inr z ↦ ap (any (is_cell k.0 k.1)) (cells_of_rows-skip j q m z) ∙ pending-absent m k rest
    ]

pending-AreDistinct : (m : Rows RestrictionValues) → Distinct m → AreDistinct (cells_of_rows m)
pending-AreDistinct [] d = tt
pending-AreDistinct ((j, q) ∷ m) (n, d) = elim (Bool-cases (is_loaded q)) [
  | inl y ↦
      subst AreDistinct (sym (cells_of_rows-keep j q m y))
        (pending-absent m j n, pending-AreDistinct m d)
  | inr z ↦ subst AreDistinct (sym (cells_of_rows-skip j q m z)) (pending-AreDistinct m d)
]

-- Every pending rate cell with a value is covered by an entry of the batch.
pub batch-covers :
    {K : Type 0} ⦃e : Eq K⦄ (canon : Option FieldValue → K) (weekday_of : LocalDate → Weekday)
    → ((v w : Option FieldValue) → canon v ≡ canon w → v ≡ w)
    → (m : Rows RestrictionValues) (limits : BatchLimits) (k : CellKey) (r : Row RestrictionValues)
      (f : RestrictionField) (v : FieldValue)
    → Distinct m
    → 0 < limits.max_entries
    → lookup k m ≡ some r
    → is_loaded r ≡ true
    → r.desired f ≡ some v
    → any (covers_ref weekday_of (rate_key_ref k)) (
        map plan_entry (concat (build_restriction_batch weekday_of canon (cells_of_rows m) limits)))
      ≡ true
batch-covers canon weekday_of inj m limits k r f v d pos h l value =
    let cells = cells_of_rows m in
    let es = concat (build_restriction_batch weekday_of canon cells limits) in
    let (w, defined) = pending-defined k f m r v h l value in
    let reads =
      sym (apply_restriction_entries-read weekday_of es empty_state k.0 k.1 f)
      ∙ build_restriction_batch-exact weekday_of canon inj cells limits pos
          (pending-AreDistinct m d) k.0 k.1 f
      ∙ state_from_cells-read cells [] k.0 k.1 f
      ∙ defined in
    covers-result weekday_of k f es w (sym (bare _) ∙ reads)
  where
    bare : (o : Option FieldValue) → or_else o none ≡ o
    bare none = refl
    bare (some x) = refl
