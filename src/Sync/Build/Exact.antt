-- ===== src/Sync/Build/Exact.antt =====
-- `buildRestrictionBatch` (build.ts) with `applyRestrictionEntries` (apply.ts): a batch applied to
-- the empty state.
use channex_pms.Prelude.{
  ◌<◌, ◌≡◌, refl, sym, ap, ◌∙◌, false, Option, none, some, List, [], ◌∷◌, arith, ◌==◌, any, filter,
  concat, Eq, Bool-cases, inl, inr,
}
use channex_pms.Shared.Date.{LocalDate}
use channex_pms.Inventory.{EntityId, Weekday, RestrictionField, FieldValue, RateCell, BatchLimits}
use channex_pms.Sync.Encode.Coverage.{or_else}
use channex_pms.Sync.Apply.{empty_state, apply_restriction_entries, state_from_cells}
use channex_pms.Sync.Apply.Reads.{read_cell, apply_restriction_entries-read}
use channex_pms.Sync.Apply.Cells.{is_cell, last_defined, state_from_cells-read}
use channex_pms.Sync.Build.{plan_entries, build_restriction_batch}
use channex_pms.Sync.Build.Groups.{chunk_lem}
use channex_pms.Sync.Build.Plans.{last_on, joined, plan_entries-means}

-- No two cells of one plan and date.
abbrev pub AreDistinct : List RateCell → Type 0
AreDistinct [] = Unit
AreDistinct (c ∷ cs) = (any (is_cell c.rate_plan_id c.date) cs ≡ false) × AreDistinct cs

absent :
    (cells : List RateCell) (p : EntityId) (d : LocalDate) (f : RestrictionField)
    → any (is_cell p d) cells ≡ false
    → (last_defined p d f cells ≡ none)
      × (last_on f d (filter (λ c. c.rate_plan_id == p) cells) ≡ none)
absent [] p d f h = (refl, refl)
absent (c ∷ cs) p d f h =
    let (no_cell, no_last) = absent cs p d f (ground arith) in
    elim (Bool-cases (c.rate_plan_id == p)) [
      | inl s ↦
          let other : (c.date == d) ≡ false = ground arith in
          (rw (no_cell, s, other), rw (s, no_last, other))
      | inr t ↦ (rw (no_cell, t), rw (t, no_last))
    ]

or_none {ℓ} : {A : Type ℓ} (o : Option A) → or_else o none ≡ o
or_none none = refl
or_none (some a) = refl

-- Of distinct cells the last one of a plan and date is the only one.
last_defined-last_on :
    (cells : List RateCell) (p : EntityId) (d : LocalDate) (f : RestrictionField)
    → AreDistinct cells
    → last_defined p d f cells ≡ joined (last_on f d (filter (λ c. c.rate_plan_id == p) cells))
last_defined-last_on [] p d f h = refl
last_defined-last_on (c ∷ cs) p d f (h, k) = elim (Bool-cases (c.rate_plan_id == p)) [
  | inl s ↦ elim (Bool-cases (c.date == d)) [
    | inl t ↦
        let plan : c.rate_plan_id ≡ p = ground arith in
        let day : c.date ≡ d = ground arith in
        let (no_cell, no_last) = absent cs p d f (rw (plan, day) at h) in
        rw (no_cell, s, t, no_last)
    | inr t ↦
        rw (s, t, or_none (last_defined p d f cs), or_none (last_on f d _))
          (last_defined-last_on cs p d f k)
  ]
  | inr t ↦ rw (t, or_none (last_defined p d f cs)) (last_defined-last_on cs p d f k)
]

-- For distinct cells, an injective canonical text and a positive limit, the chunks of a batch,
-- applied in order to the empty state, leave at every plan, date and field what the state of the
-- cells holds there.
pub build_restriction_batch-exact :
    {K : Type 0} ⦃e : Eq K⦄ (weekday_of : LocalDate → Weekday) (canon : Option FieldValue → K)
    → ((v w : Option FieldValue) → canon v ≡ canon w → v ≡ w)
    → (cells : List RateCell) (limits : BatchLimits) → 0 < limits.max_entries
    → AreDistinct cells
    → (p : EntityId) (d : LocalDate) (f : RestrictionField)
    → read_cell p d f
        (apply_restriction_entries weekday_of empty_state
          (concat (build_restriction_batch weekday_of canon cells limits))).restrictions
      ≡ read_cell p d f (state_from_cells cells []).restrictions
unfolding build_restriction_batch
build_restriction_batch-exact weekday_of canon inj cells limits pos distinct p d f =
    rw ((chunk_lem (plan_entries weekday_of canon cells) limits.max_entries pos).0) (
      apply_restriction_entries-read weekday_of (plan_entries weekday_of canon cells) empty_state p
        d f
      ∙ ap (λ o. or_else o none) (plan_entries-means weekday_of canon inj cells p f d)
      ∙ or_none (joined (last_on f d (filter (λ c. c.rate_plan_id == p) cells)))
      ∙ sym (state_from_cells-read cells [] p d f ∙ last_defined-last_on cells p d f distinct))
