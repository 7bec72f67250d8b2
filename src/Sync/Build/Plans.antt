-- ===== src/Sync/Build/Plans.antt =====
-- `buildRestrictionBatch` (build.ts): the entries of one plan, and of all plans.
use channex_pms.Prelude.{
  ◌≡◌, ◌≢◌, refl, sym, ap, ◌∙◌, Bool, true, false, ◌||◌, Option, none, some, List, [], ◌∷◌, arith,
  map, ◌==◌, if◌then◌else◌, All, any, filter, contains, concat, Eq, nat_eq, Bool-cases, inl, inr,
}
use mathlib.Core.List.{map-append}
use channex_pms.Prelude.Maps.{lookup, insert, lookup-insert}
use channex_pms.Prelude.Sort.{sort_by, any-sort_by, All-sort_by}
use channex_pms.Shared.Date.{LocalDate}
use channex_pms.Inventory.{
  EntityId, Weekday, RestrictionField, field_has_eq, restriction_fields, FieldValue,
  RestrictionValues, RateCell, RestrictionEntry,
}
use channex_pms.Sync.Encode.Coverage.{covers, or_else}
use channex_pms.Sync.Apply.Reads.{result, result-append, write_of}
use channex_pms.Sync.Build.Merge.{meaning}
use channex_pms.Sync.Build.Overwrite.{merge_from-means}
use channex_pms.Sync.Build.Groups.{items_of, group_by-items, group_by-filter, any-key-none}
use channex_pms.Sync.Build.Fields.{twice, right, field_entries-result, field_entries-days}
use channex_pms.Sync.Build.{
  by_date_from, field_at, build_plan, plan_entries, group_by, field_entries,
}

-- The field of the last cell of the list that has the date.
abbrev pub last_on : RestrictionField → LocalDate → List RateCell → Option (Option FieldValue)
last_on f d [] = none
last_on f d (c ∷ cs) = or_else (last_on f d cs) (if c.date == d then some (c.values f) else none)

-- `undefined` where there is no such cell.
abbrev pub joined {ℓ} : {A : Type ℓ} → Option (Option A) → Option A
joined none = none
joined (some o) = o

field_at-insert :
    (c d : LocalDate) (v : RestrictionValues) (m : List (LocalDate × RestrictionValues))
    (f : RestrictionField)
    → field_at (insert c v m) f d ≡ (if c == d then v f else field_at m f d)
unfolding field_at
field_at-insert c d v m f =
    rw (lookup-insert c d v m, field_at)
      (elim (Bool-cases (c == d)) [ inl s ↦ rw s | inr t ↦ rw t ])

abbrev else_at : Option (Option FieldValue) → Option FieldValue → Option FieldValue
else_at none a = a
else_at (some o) a = o

by_date_from-field_at :
    (cs : List RateCell) (m : List (LocalDate × RestrictionValues)) (f : RestrictionField)
    (d : LocalDate)
    → field_at (by_date_from m cs) f d ≡ else_at (last_on f d cs) (field_at m f d)
unfolding by_date_from
by_date_from-field_at [] m f d = refl
by_date_from-field_at (c ∷ cs) m f d =
    by_date_from-field_at cs (insert c.date c.values m) f d
    ∙ ap (else_at (last_on f d cs)) (field_at-insert c.date d c.values m f)
    ∙ step (last_on f d cs) (c.date == d)
  where
    step :
        (o : Option (Option FieldValue)) (b : Bool)
        → else_at o (if b then c.values f else field_at m f d)
          ≡ else_at (or_else o (if b then some (c.values f) else none)) (field_at m f d)
    step (some o) b = refl
    step none true = refl
    step none false = refl

lookup-keys :
    (m : List (LocalDate × RestrictionValues)) (d : LocalDate)
    → lookup d m ≢ none
    → contains d (map (λ p. p.0) m) ≡ true
lookup-keys [] d h = absurd (h refl)
lookup-keys ((c, v) ∷ m) d h = elim (Bool-cases (c == d)) [
  | inl s ↦ rw s
  | inr t ↦ rw t (lookup-keys m d (λ n. h (rw t n)))
]

lookup-sorted_keys :
    (m : List (LocalDate × RestrictionValues)) (d : LocalDate)
    → lookup d m ≢ none
    → contains d (sort_by (λ c. c) (map (λ p. p.0) m)) ≡ true
lookup-sorted_keys m d h = any-sort_by (λ c. c) (λ c. c == d) (map (λ p. p.0) m) ∙ lookup-keys m d h

every_field : (f : RestrictionField) → any (λ g. field_has_eq.beq g f) restriction_fields ≡ true
unfolding restriction_fields
every_field f = ground arith

meaning-other_plan :
    (weekday_of : LocalDate → Weekday) (p q : EntityId) (f : RestrictionField)
    (xs : List RestrictionEntry) (d : LocalDate)
    → (q == p) ≡ false
    → All (λ x. x.rate_plan_id ≡ q) xs
    → meaning weekday_of p f xs d ≡ none
unfolding result
meaning-other_plan weekday_of p q f [] d ne h = refl
meaning-other_plan weekday_of p q f (x ∷ xs) d ne (e, h) =
    rw (meaning-other_plan weekday_of p q f xs d ne h, e, ne)
      (none_either (covers weekday_of (write_of p f x) d))
  where
    none_either : (b : Bool) → ◌≡◌ {A = Option FieldValue} (if b then none else none) none
    none_either true = refl
    none_either false = refl

module _ {K : Type 0} ⦃e : Eq K⦄ (weekday_of : LocalDate → Weekday) (canon : Option FieldValue → K)
    (canon-injective : (v w : Option FieldValue) → canon v ≡ canon w → v ≡ w) where
  -- The entries of a plan's cells belong to the plan, and read as its last cell of each date.
  build_plan-means :
      (p : EntityId) (cells : List RateCell)
      → All (λ x. x.rate_plan_id ≡ p) (build_plan weekday_of canon p cells)
        × ((f : RestrictionField) (d : LocalDate)
            → meaning weekday_of p f (build_plan weekday_of canon p cells) d
              ≡ joined (last_on f d cells))
  unfolding build_plan field_at
  build_plan-means p cells =
      let m = by_date_from [] cells in
      let dates = sort_by (λ d. d) (map (λ q. q.0) m) in
      let covered = lookup-sorted_keys m in
      let (planned, means) =
        merge_from-means weekday_of p
          (concat (map (field_entries weekday_of canon m dates) restriction_fields))
          (field_entries-days weekday_of canon canon-injective m dates covered
            restriction_fields) in
      (
        planned,
        λ f d.
            means f d
            ∙ field_entries-result weekday_of canon canon-injective m dates covered
                restriction_fields f d
            ∙ rw (every_field f) (by_date_from-field_at cells [] f d)
            ∙ else_none (last_on f d cells),
      )
    where
      else_none : (o : Option (Option FieldValue)) → else_at o none ≡ joined o
      else_none none = refl
      else_none (some o) = refl

  -- Groups of one plan that hold the same cells read as those, whatever stands between.
  groups-means :
      (p : EntityId) (xs : List RateCell) (gs : List (EntityId × List RateCell))
      (f : RestrictionField) (d : LocalDate)
      → All (λ g. g.0 ≡ p → g.1 ≡ xs) gs
      → meaning weekday_of p f (concat (map (λ g. build_plan weekday_of canon g.0 g.1) gs)) d
        ≡ (if any (λ g. g.0 == p) gs then joined (last_on f d xs) else none)
  unfolding result
  groups-means p xs [] f d h = refl
  groups-means p xs ((q, cs) ∷ gs) f d (same, h) =
      ap (λ l. result weekday_of l d)
        (map-append (write_of p f) (build_plan weekday_of canon q cs) _)
      ∙ result-append weekday_of (map (write_of p f) (build_plan weekday_of canon q cs)) _ d
      ∙ ap (λ o. or_else o (meaning weekday_of p f (build_plan weekday_of canon q cs) d))
          (groups-means p xs gs f d h)
      ∙ head
    where
      rest : Bool
      rest = any (λ g. g.0 == p) gs

      head :
          or_else
            (if rest then joined (last_on f d xs) else none)
            (meaning weekday_of p f (build_plan weekday_of canon q cs) d)
          ≡ (if q == p || rest then joined (last_on f d xs) else none)
      head = elim (Bool-cases (q == p)) [
        | inl s ↦
            let plan : q ≡ p = ground arith in
            rw (s, plan, (build_plan-means p cs).1 f d, same plan)
              (twice rest (joined (last_on f d xs)))
        | inr t ↦
            rw
              (
                t,
                meaning-other_plan weekday_of p q f (build_plan weekday_of canon q cs) d t
                    (build_plan-means q cs).0,
              )
              (right rest (joined (last_on f d xs)))
      ]

  -- The entries of all cells read, at each plan and date, as the plan's last cell of the date.
  pub plan_entries-means :
      (cells : List RateCell) (p : EntityId) (f : RestrictionField) (d : LocalDate)
      → meaning weekday_of p f (plan_entries weekday_of canon cells) d
        ≡ joined (last_on f d (filter (λ c. c.rate_plan_id == p) cells))
  unfolding plan_entries group_by
  plan_entries-means cells p f d =
      let groups = group_by (λ c. c.rate_plan_id) cells in
      let xs = items_of (λ c. c.rate_plan_id) p groups in
      groups-means p xs (sort_by (λ g. g.0) groups) f d (
        All-sort_by (λ g. g.0) (λ g. g.0 ≡ p → g.1 ≡ xs) groups
          (group_by-items (λ c. c.rate_plan_id) cells p))
      ∙ ap (λ b. if b then joined (last_on f d xs) else none)
          (any-sort_by (λ g. g.0) (λ g. g.0 == p) groups)
      ∙ (elim (Bool-cases (any (λ g. g.0 == p) groups)) [
        | inl s ↦
            rw s (ap (λ l. joined (last_on f d l)) (group_by-filter (λ c. c.rate_plan_id) cells p))
        | inr t ↦
            let gone : lookup p groups ≡ none = any-key-none p groups t in
            let empty : xs ≡ [] = rw (gone, items_of) in
            let bare : filter (λ c. c.rate_plan_id == p) cells ≡ [] =
              sym (group_by-filter (λ c. c.rate_plan_id) cells p) ∙ empty in
            rw (t, bare)
      ])
