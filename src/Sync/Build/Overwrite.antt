-- ===== src/Sync/Build/Overwrite.antt =====
-- `buildRestrictionBatch` (build.ts): a field written into an entry that stands already.
use channex_pms.Prelude.{
  ℕ, ◌≤◌, ◌<◌, ◌≡◌, refl, sym, ap, ap₂, ◌∙◌, Bool, true, false, Option, none, some, List, [], ◌∷◌,
  ◌++◌, arith, map, ltb, ◌==◌, if◌then◌else◌, get_elem?, All, nat_eq, pair_eq, list_eq, Bool-cases,
  inl, inr, append_assoc, append-nil,
}
use channex_pms.Prelude.Maps.{lookup, insert, lookup-insert}
use channex_pms.Shared.Date.{LocalDate}
use channex_pms.Inventory.{
  EntityId, Weekday, weekday_has_eq, RestrictionField, field_has_eq, FieldValue, RestrictionEntry,
}
use channex_pms.Sync.Encode.{FieldEntry}
use channex_pms.Sync.Encode.Coverage.{covers, or_else}
use channex_pms.Sync.Encode.Days.{HasDays}
use channex_pms.Sync.Apply.Reads.{result}
use channex_pms.Sync.Build.Slots.{get_elem?-set_at, set_at-kept, All-set_at, All-get_elem?}
use channex_pms.Sync.Build.{
  Tagged, EntryKey, Merging, days_or_empty, entry_key, is_above, set_at, merge_at, merge_found,
  merge_entry, merge_from, merging_start,
}
use channex_pms.Sync.Build.Push.{push_new-IsMerged}
use channex_pms.Sync.Build.Merge.{
  field_write, days_of_key, meaning, meaning-set_at, meaning-set_at_ne, IsMerged, start-IsMerged,
  field_write-result,
}

unwritten {ℓ} : {A : Type ℓ} (b : Bool) (o : Option A) → or_else (if b then none else none) o ≡ o
unwritten true o = refl
unwritten false o = refl

is_above_lt :
    (i j : ℕ) (floor : Option ℕ) → is_above i floor ≡ true → i < j → is_above j floor ≡ true
is_above_lt i j none a h = refl
is_above_lt i j (some k) a h = ground arith

module _ (weekday_of : LocalDate → Weekday) where
  module _ (p : EntityId) (st : Merging) (done : List Tagged) (f : RestrictionField)
      (x : FieldEntry (Option FieldValue)) (m : IsMerged weekday_of p st done) (i : ℕ)
      (found : lookup (entry_key x) st.index_by_key ≡ some i)
      (above : is_above i (lookup f st.last_index_of_field) ≡ true) where
    -- No entry from the index on carries the field.
    bare :
        (j : ℕ) (z : RestrictionEntry) → i ≤ j → get_elem? st.merged j ≡ some z → z.values f ≡ none
    bare j z h g = elim (Bool-cases (i == j)) [
      | inl s ↦ let same : i ≡ j = ground arith in m.clear f j z g (rw (← same) above)
      | inr t ↦ m.clear f j z g (is_above_lt i j _ above (ground arith))
    ]

    merge_at-clear :
        (g : RestrictionField) (j : ℕ) (z : RestrictionEntry)
        → get_elem? (set_at i f x.value st.merged) j ≡ some z
        → is_above j (lookup g (insert f i st.last_index_of_field)) ≡ true
        → z.values g ≡ none
    merge_at-clear g j z h a =
        let (y, old, range, values) = get_elem?-set_at i f x.value st.merged j z h in
        elim (Bool-cases (field_has_eq.beq f g)) [
          | inl s ↦
              let beyond : ltb i j ≡ true =
                rw (lookup-insert f g i st.last_index_of_field, s) at a in
              let other : (i == j) ≡ false = ground arith in
              let same : f ≡ g = (field_has_eq.beq_iff f g).0 s in
              rw (values g, other, ← same) (bare j y (ground arith) old)
          | inr t ↦
              let over : is_above j (lookup g st.last_index_of_field) ≡ true =
                rw (lookup-insert f g i st.last_index_of_field, t) at a in
              rw (values g, t)
                (elim (Bool-cases (i == j)) [
                  | inl q ↦ rw q (m.clear g j y old over)
                  | inr q ↦ rw q (m.clear g j y old over)
                ])
        ]

    merge_at-indexed :
        (k : EntryKey) (j : ℕ)
        → lookup k st.index_by_key ≡ some j
        → (z : RestrictionEntry) × (get_elem? (set_at i f x.value st.merged) j ≡ some z)
          × (z.date_from ≡ k.0)
          × (z.date_to ≡ k.1.0)
          × (days_or_empty z.days ≡ k.1.1)
    merge_at-indexed k j h =
        let (y, old, from, to, on) = m.indexed k j h in
        let (z, new, range) = set_at-kept i f x.value st.merged j y old in
        (z, new, sym range.from ∙ from, sym range.to ∙ to, ap days_or_empty (sym range.on) ∙ on)

    merge_at-means :
        HasDays x.days
        → (g : RestrictionField) (d : LocalDate)
        → meaning weekday_of p g (set_at i f x.value st.merged) d
          ≡ result weekday_of (map (field_write g) (done ++ (f, x) ∷ [])) d
    merge_at-means has g d = elim (Bool-cases (field_has_eq.beq f g)) [
      | inl s ↦
          let same : f ≡ g = (field_has_eq.beq_iff f g).0 s in
          rw (← same) (
            meaning-set_at weekday_of p f x.value st.merged i y d old bare
            ∙ ap₂ or_else
                (rw (
                  hit.2,
                  hit.3,
                  days,
                  plan,
                  (nat_eq.beq_iff p p).1 refl,
                  (field_has_eq.beq_iff f f).1 refl,
                ))
                (m.means f d)
            ∙ sym (field_write-result weekday_of f f x done d))
      | inr t ↦
          ap (λ l. result weekday_of l d) (meaning-set_at_ne weekday_of p f g x.value st.merged i t)
          ∙ m.means g d
          ∙ sym (
              field_write-result weekday_of f g x done d
              ∙ (rw t (unwritten (covers weekday_of (field_write g (f, x)) d) _)))
    ]
      where
        hit :
            (z : RestrictionEntry) × (get_elem? st.merged i ≡ some z)
            × (z.date_from ≡ x.date_from)
            × (z.date_to ≡ x.date_to)
            × (days_or_empty z.days ≡ days_or_empty x.days)
        hit = m.indexed (entry_key x) i found

        y : RestrictionEntry
        y = hit.0

        old : get_elem? st.merged i ≡ some y
        old = hit.1

        days : y.days ≡ x.days
        days =
            days_of_key y.days x.days
              (All-get_elem? (λ z. HasDays z.days) st.merged i y m.dayed old) has hit.4

        plan : y.rate_plan_id ≡ p
        plan = All-get_elem? (λ z. z.rate_plan_id ≡ p) st.merged i y m.planned old

    pub merge_at-IsMerged :
        HasDays x.days → IsMerged weekday_of p (merge_at i st (f, x)) (done ++ (f, x) ∷ [])
    unfolding merge_at
    merge_at-IsMerged has = record {
      planned = All-set_at (λ z. z.rate_plan_id ≡ p) i f x.value st.merged (λ z h. h) m.planned;
      dayed = All-set_at (λ z. HasDays z.days) i f x.value st.merged (λ z h. h) m.dayed;
      clear = merge_at-clear;
      indexed = merge_at-indexed;
      means = merge_at-means has;
    }

merge_found-IsMerged :
    (weekday_of : LocalDate → Weekday) (p : EntityId) (st : Merging) (done : List Tagged)
    (f : RestrictionField) (x : FieldEntry (Option FieldValue)) (o : Option ℕ)
    → IsMerged weekday_of p st done
    → HasDays x.days
    → lookup (entry_key x) st.index_by_key ≡ o
    → IsMerged weekday_of p (merge_found o p st (f, x)) (done ++ (f, x) ∷ [])
unfolding merge_found
merge_found-IsMerged weekday_of p st done f x none m has e =
    push_new-IsMerged weekday_of p st done f x m has
merge_found-IsMerged weekday_of p st done f x (some i) m has e =
    elim (Bool-cases (is_above i (lookup f st.last_index_of_field))) [
      | inl s ↦ rw s (merge_at-IsMerged weekday_of p st done f x m i e s has)
      | inr t ↦ rw t (push_new-IsMerged weekday_of p st done f x m has)
    ]

merge_from-IsMerged :
    (weekday_of : LocalDate → Weekday) (p : EntityId) (ts : List Tagged) (st : Merging)
    (done : List Tagged)
    → IsMerged weekday_of p st done
    → All (λ t. HasDays t.1.days) ts
    → IsMerged weekday_of p (merge_from p st ts) (done ++ ts)
unfolding merge_from merge_entry
merge_from-IsMerged weekday_of p [] st done m h = rw (append-nil done) m
merge_from-IsMerged weekday_of p ((f, x) ∷ ts) st done m (has, h) =
    rw (← (append_assoc done ((f, x) ∷ []) ts)) (
      merge_from-IsMerged weekday_of p ts (merge_entry p st (f, x)) (done ++ (f, x) ∷ [])
        (merge_found-IsMerged weekday_of p st done f x (lookup (entry_key x) st.index_by_key) m has
          refl)
        h)

-- Of entries with days that are absent or not empty, merging keeps what each field reads, and
-- every merged entry belongs to the plan.
pub merge_from-means :
    (weekday_of : LocalDate → Weekday) (p : EntityId) (ts : List Tagged)
    → All (λ t. HasDays t.1.days) ts
    → All (λ x. x.rate_plan_id ≡ p) (merge_from p merging_start ts).merged
      × ((f : RestrictionField) (d : LocalDate)
          → meaning weekday_of p f (merge_from p merging_start ts).merged d
            ≡ result weekday_of (map (field_write f) ts) d)
merge_from-means weekday_of p ts h =
    let m = merge_from-IsMerged weekday_of p ts merging_start [] (start-IsMerged weekday_of p) h in
    (m.planned, m.means)
