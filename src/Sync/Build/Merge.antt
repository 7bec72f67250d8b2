-- ===== src/Sync/Build/Merge.antt =====
-- `buildRestrictionBatch` (build.ts): the meaning of the merged entries for each field.
use channex_pms.Prelude.{
  ℕ, zero, suc, ◌≤◌, ◌≡◌, refl, sym, ap, ◌∙◌, Bool, true, false, Option, none, some, List, [], ◌∷◌,
  ◌++◌, arith, map, ◌==◌, if◌then◌else◌, get_elem?, All, nat_eq, pair_eq, list_eq,
}
use mathlib.Core.List.{map-append}
use channex_pms.Prelude.Maps.{lookup}
use channex_pms.Shared.Date.{LocalDate}
use channex_pms.Inventory.{
  EntityId, Weekday, weekday_has_eq, RestrictionField, field_has_eq, FieldValue, RestrictionEntry,
}
use channex_pms.Sync.Encode.{FieldEntry}
use channex_pms.Sync.Encode.Coverage.{covers, or_else, or_else_assoc}
use channex_pms.Sync.Encode.Days.{HasDays}
use channex_pms.Sync.Apply.Reads.{result, result-append, write_of}
use channex_pms.Sync.Build.{
  Tagged, EntryKey, Merging, days_or_empty, is_above, set_at, merging_start,
}

-- What a tagged entry writes of field `f`.
abbrev pub field_write : RestrictionField → Tagged → FieldEntry (Option FieldValue)
field_write f (g, x) = record x { value = if field_has_eq.beq g f then x.value else none }

pub days_of_key :
    (a b : Option (List Weekday))
    → HasDays a
    → HasDays b
    → days_or_empty a ≡ days_or_empty b
    → a ≡ b
days_of_key none none h k e = refl
days_of_key none (some bs) h k e = absurd (k (ap some (sym e)))
days_of_key (some as') none h k e = absurd (h (ap some e))
days_of_key (some as') (some bs) h k e = ap some e

or_else_bare {ℓ} :
    {A : Type ℓ} (b c : Bool) (o : Option A)
    → or_else o (if b then if c then none else none else none) ≡ o
or_else_bare b c (some a) = refl
or_else_bare true true none = refl
or_else_bare true false none = refl
or_else_bare false c none = refl

module _ (weekday_of : LocalDate → Weekday) where
  -- What the list of entries writes of field `f` of plan `p` at a date.
  abbrev pub meaning :
      EntityId → RestrictionField → List RestrictionEntry → LocalDate → Option FieldValue
  meaning p f xs = result weekday_of (map (write_of p f) xs)

  meaning-none :
      (p : EntityId) (f : RestrictionField) (xs : List RestrictionEntry) (d : LocalDate)
      → ((j : ℕ) (z : RestrictionEntry) → get_elem? xs j ≡ some z → z.values f ≡ none)
      → meaning p f xs d ≡ none
  unfolding result
  meaning-none p f [] d h = refl
  meaning-none p f (x ∷ xs) d h =
      let rest = meaning-none p f xs d (λ j z g. h (suc j) z g) in
      rw (rest, h 0 x refl) (ground arith)

  -- A write at an index from which on no entry carries the field comes last.
  pub meaning-set_at :
      (p : EntityId) (f : RestrictionField) (v : Option FieldValue) (xs : List RestrictionEntry)
      (i : ℕ) (x : RestrictionEntry) (d : LocalDate)
      → get_elem? xs i ≡ some x
      → ((j : ℕ) (z : RestrictionEntry) → i ≤ j → get_elem? xs j ≡ some z → z.values f ≡ none)
      → meaning p f (set_at i f v xs) d
        ≡ or_else
            (if covers weekday_of (write_of p f x) d
              then if x.rate_plan_id == p then v else none
              else none)
            (meaning p f xs d)
  unfolding result set_at
  meaning-set_at p f v [] i x d g h = cc
  meaning-set_at p f v (y ∷ xs) zero x d g h =
      let same : y ≡ x = cc in
      let bare = h 0 y (omega arith) refl in
      let rest = meaning-none p f xs d (λ j z e. h (suc j) z (omega arith) e) in
      rw (rest, bare, ← same, (field_has_eq.beq_iff f f).1 refl)
        (sym (or_else_bare (covers weekday_of (write_of p f y) d) (y.rate_plan_id == p) _))
  meaning-set_at p f v (y ∷ xs) (suc i) x d g h =
      let ih = meaning-set_at p f v xs i x d g (λ j z l e. h (suc j) z (omega arith) e) in
      ap
        (λ o.
          or_else o (if covers weekday_of (write_of p f y) d then (write_of p f y).value else none))
        ih
      ∙ or_else_assoc _ (meaning p f xs d) _

  pub meaning-set_at_ne :
      (p : EntityId) (f g : RestrictionField) (v : Option FieldValue) (xs : List RestrictionEntry)
      (i : ℕ)
      → field_has_eq.beq f g ≡ false
      → map (write_of p g) (set_at i f v xs) ≡ map (write_of p g) xs
  unfolding set_at
  meaning-set_at_ne p f g v [] i h = refl
  meaning-set_at_ne p f g v (y ∷ xs) zero h = rw h
  meaning-set_at_ne p f g v (y ∷ xs) (suc i) h =
      ap (λ t. write_of p g y ∷ t) (meaning-set_at_ne p f g v xs i h)

  -- What the loop keeps of the entries that it has made of `done`.
  pub record IsMerged (p : EntityId) (st : Merging) (done : List Tagged) : Type 0 where
    pub planned : All (λ x. x.rate_plan_id ≡ p) st.merged
    pub dayed : All (λ x. HasDays x.days) st.merged
    pub clear :
        (f : RestrictionField) (i : ℕ) (x : RestrictionEntry)
        → get_elem? st.merged i ≡ some x
        → is_above i (lookup f st.last_index_of_field) ≡ true
        → x.values f ≡ none
    pub indexed :
        (k : EntryKey) (i : ℕ)
        → lookup k st.index_by_key ≡ some i
        → (x : RestrictionEntry) × (get_elem? st.merged i ≡ some x)
          × (x.date_from ≡ k.0)
          × (x.date_to ≡ k.1.0)
          × (days_or_empty x.days ≡ k.1.1)
    pub means :
        (f : RestrictionField) (d : LocalDate)
        → meaning p f st.merged d ≡ result weekday_of (map (field_write f) done) d

  pub start-IsMerged : (p : EntityId) → IsMerged p merging_start []
  start-IsMerged p = record {
    planned = tt;
    dayed = tt;
    clear = λ f i x g a. cc;
    indexed = λ k i g. cc;
    means = λ f d. refl;
  }

  pub field_write-result :
      (f g : RestrictionField) (x : FieldEntry (Option FieldValue)) (done : List Tagged)
      (d : LocalDate)
      → result weekday_of (map (field_write g) (done ++ (f, x) ∷ [])) d
        ≡ or_else
            (if covers weekday_of (field_write g (f, x)) d
              then if field_has_eq.beq f g then x.value else none
              else none)
            (result weekday_of (map (field_write g) done) d)
  unfolding result
  field_write-result f g x done d =
      ap (λ l. result weekday_of l d) (map-append (field_write g) done ((f, x) ∷ []))
      ∙ result-append weekday_of (map (field_write g) done) (field_write g (f, x) ∷ []) d
