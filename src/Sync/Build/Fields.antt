-- ===== src/Sync/Build/Fields.antt =====
-- `buildRestrictionBatch` (build.ts): the entries of one field of one plan.
use channex_pms.Prelude.{
  ◌≡◌, ◌≢◌, refl, sym, ap, ap₂, ◌∙◌, Bool, true, false, ◌&&◌, ◌||◌, Option, none, some, List, [],
  ◌∷◌, arith, map, ◌==◌, if◌then◌else◌, All, All-append, any, any-append, filter, contains, concat,
  Eq, nat_eq, Bool-cases, Option-cases, inl, inr,
}
use mathlib.Core.List.{map-append}
use channex_pms.Prelude.Maps.{lookup}
use channex_pms.Shared.Date.{LocalDate}
use channex_pms.Inventory.{Weekday, RestrictionField, field_has_eq, FieldValue, RestrictionValues}
use channex_pms.Sync.Dates.{contiguous_spans}
use channex_pms.Sync.Dates.Laws.{IsRun, contiguous_spans-AreRuns}
use channex_pms.Sync.Encode.{FieldEntry, encode_span}
use channex_pms.Sync.Encode.Coverage.{covers, last_write, last_write-append, or_else}
use channex_pms.Sync.Encode.Exact.{encode_span-IsExact}
use channex_pms.Sync.Encode.Days.{HasDays, encode_span-days}
use channex_pms.Sync.Apply.Reads.{result, result-append}
use channex_pms.Sync.Build.Merge.{field_write}
use channex_pms.Sync.Build.{Tagged, field_at, is_defined, field_entries}

abbrev pub TaggedDays : Tagged → Type 0
TaggedDays t = HasDays t.1.days

module _ (weekday_of : LocalDate → Weekday) where
  result_of_none :
      (xs : List (FieldEntry (Option FieldValue))) (d : LocalDate)
      → last_write weekday_of xs d ≡ none
      → result weekday_of xs d ≡ none
  unfolding last_write result
  result_of_none [] d h = refl
  result_of_none (x ∷ xs) d h = elim (Option-cases (last_write weekday_of xs d)) [
    | inl e ↦ elim (Bool-cases (covers weekday_of x d)) [
      | inl c ↦ let no_value = rw (e, c) at h in cc
      | inr n ↦ rw (n, result_of_none xs d e)
    ]
    | inr (o, e) ↦ let no_value = rw e at h in cc
  ]

  -- A last write of a defined value is the value that is left.
  result_of_some :
      (xs : List (FieldEntry (Option FieldValue))) (d : LocalDate) (v : FieldValue)
      → last_write weekday_of xs d ≡ some (some v)
      → result weekday_of xs d ≡ some v
  unfolding last_write result
  result_of_some [] d v h = cc
  result_of_some (x ∷ xs) d v h = elim (Option-cases (last_write weekday_of xs d)) [
    | inl e ↦ elim (Bool-cases (covers weekday_of x d)) [
      | inl c ↦ let w = rw (e, c) at h in rw (c, result_of_none xs d e) (cc)
      | inr n ↦ let no_value = rw (e, n) at h in cc
    ]
    | inr (o, e) ↦ let w = rw e at h in rw (result_of_some xs d v (e ∙ w))
  ]

pub twice {ℓ} : {A : Type ℓ} (b : Bool) (o : Option A) → or_else (if b then o else none) o ≡ o
twice true none = refl
twice true (some a) = refl
twice false o = refl

pub right {ℓ} :
    {A : Type ℓ} (b : Bool) (o : Option A)
    → or_else (if b then o else none) none ≡ (if b then o else none)
right true none = refl
right true (some a) = refl
right false o = refl

module _ {K : Type 0} ⦃e : Eq K⦄ (weekday_of : LocalDate → Weekday) (canon : Option FieldValue → K)
    (canon-injective : (v w : Option FieldValue) → canon v ≡ canon w → v ≡ w) where
  spans-write :
      (value_at : LocalDate → Option FieldValue) (spans : List (List LocalDate)) (d : LocalDate)
      → All IsRun spans
      → last_write weekday_of (concat (map (encode_span weekday_of value_at canon) spans)) d
        ≡ (if contains d (concat spans) then some (value_at d) else none)
  unfolding last_write
  spans-write value_at [] d h = refl
  spans-write value_at (span ∷ spans) d (run, h) =
      last_write-append weekday_of (encode_span weekday_of value_at canon span) _ d
      ∙ ap₂ or_else (spans-write value_at spans d h)
          (encode_span-IsExact weekday_of value_at canon canon-injective span run d)
      ∙ rw (any-append (λ x. x == d) span (concat spans)) (ground arith)

  spans-days :
      (value_at : LocalDate → Option FieldValue) (spans : List (List LocalDate))
      → All (λ x. HasDays x.days) (concat (map (encode_span weekday_of value_at canon) spans))
  spans-days value_at [] = tt
  spans-days value_at (span ∷ spans) =
      All-append (λ x. HasDays x.days) (encode_span weekday_of value_at canon span) _
        (encode_span-days weekday_of value_at canon span) (spans-days value_at spans)

  contains-filter :
      (p : LocalDate → Bool) (ds : List LocalDate) (d : LocalDate)
      → contains d (filter p ds) ≡ (contains d ds && p d)
  contains-filter p [] d = refl
  contains-filter p (c ∷ ds) d = elim (Bool-cases (c == d)) [
    | inl s ↦
        let same : c ≡ d = ground arith in rw (← same) (ground (arith, contains-filter p ds c))
    | inr t ↦ ground (arith, contains-filter p ds d)
  ]

  module _ (m : List (LocalDate × RestrictionValues)) (dates : List LocalDate)
      (covered : (d : LocalDate) → lookup d m ≢ none → contains d dates ≡ true) where
    field_writes : RestrictionField → List (FieldEntry (Option FieldValue))
    field_writes f = concat (
        map (encode_span weekday_of (field_at m f) canon)
          (contiguous_spans (filter (λ d. is_defined (field_at m f d)) dates)))

    field_writes-result :
        (f : RestrictionField) (d : LocalDate)
        → result weekday_of (field_writes f) d ≡ field_at m f d
    unfolding field_writes field_at
    field_writes-result f d =
        let kept = filter (λ c. is_defined (field_at m f c)) dates in
        let (runs, same) = contiguous_spans-AreRuns kept in
        let last : last_write weekday_of (field_writes f) d
            ≡ (if contains d kept then some (field_at m f d) else none) =
          spans-write (field_at m f) (contiguous_spans kept) d runs ∙ (rw same) in
        let inside = contains-filter (λ c. is_defined (field_at m f c)) dates d in
        elim (Option-cases (field_at m f d)) [
          | inl bare ↦
              let out : contains d kept ≡ false = inside ∙ and_none bare in
              result_of_none weekday_of (field_writes f) d (last ∙ (rw out)) ∙ sym bare
          | inr (v, there) ↦
              let held : contains d kept ≡ true =
                inside ∙ (rw (covered d (found v there), there)) in
              result_of_some weekday_of (field_writes f) d v (last ∙ (rw (held, there))) ∙ sym there
        ]
      where
        and_none : field_at m f d ≡ none → (contains d dates && is_defined (field_at m f d)) ≡ false
        and_none bare = rw bare (ground arith)

        found : (v : FieldValue) → field_at m f d ≡ some v → lookup d m ≢ none
        found v there gone = let no_value = rw (gone, field_at) at there in cc

  tagged-result :
      (f g : RestrictionField) (xs : List (FieldEntry (Option FieldValue))) (d : LocalDate)
      → result weekday_of (map (field_write g) (map (λ x. (f, x)) xs)) d
        ≡ (if field_has_eq.beq f g then result weekday_of xs d else none)
  unfolding result
  tagged-result f g [] d = elim (Bool-cases (field_has_eq.beq f g)) [ inl s ↦ rw s | inr t ↦ rw t ]
  tagged-result f g (x ∷ xs) d = elim (Bool-cases (field_has_eq.beq f g)) [
    | inl s ↦ rw (tagged-result f g xs d, s)
    | inr t ↦
        rw (tagged-result f g xs d, t)
          (elim (Bool-cases (covers weekday_of x d)) [ inl c ↦ rw c | inr n ↦ rw n ])
  ]

  tagged-days :
      (f : RestrictionField) (xs : List (FieldEntry (Option FieldValue)))
      → All (λ x. HasDays x.days) xs
      → All TaggedDays (map (λ x. (f, x)) xs)
  tagged-days f [] h = tt
  tagged-days f (x ∷ xs) (p, h) = (p, tagged-days f xs h)

  module _ (m : List (LocalDate × RestrictionValues)) (dates : List LocalDate)
      (covered : (d : LocalDate) → lookup d m ≢ none → contains d dates ≡ true) where
    -- The entries of a list of fields write, of each field of the list, its value at each date.
    pub field_entries-result :
        (fs : List RestrictionField) (g : RestrictionField) (d : LocalDate)
        → result weekday_of
            (map (field_write g) (concat (map (field_entries weekday_of canon m dates) fs)))
            d
          ≡ (if any (λ f. field_has_eq.beq f g) fs then field_at m g d else none)
    unfolding field_entries field_writes result
    field_entries-result [] g d = refl
    field_entries-result (f ∷ fs) g d =
        ap (λ l. result weekday_of l d)
          (map-append (field_write g) (field_entries weekday_of canon m dates f) _)
        ∙ result-append weekday_of (map (field_write g) (field_entries weekday_of canon m dates f))
            _ d
        ∙ ap₂ or_else (field_entries-result fs g d) (
            tagged-result f g (field_writes m dates covered f) d
            ∙ rw (field_writes-result m dates covered f d))
        ∙ both (any (λ h. field_has_eq.beq h g) fs)
      where
        both :
            (b : Bool)
            → or_else
                (if b then field_at m g d else none)
                (if field_has_eq.beq f g then field_at m f d else none)
              ≡ (if field_has_eq.beq f g || b then field_at m g d else none)
        both b = elim (Bool-cases (field_has_eq.beq f g)) [
          | inl s ↦ rw (s, (field_has_eq.beq_iff f g).0 s) (twice b (field_at m g d))
          | inr t ↦ rw t (right b (field_at m g d))
        ]

    pub field_entries-days :
        (fs : List RestrictionField)
        → All TaggedDays (concat (map (field_entries weekday_of canon m dates) fs))
    unfolding field_entries
    field_entries-days [] = tt
    field_entries-days (f ∷ fs) =
        All-append TaggedDays (field_entries weekday_of canon m dates f) _
          (tagged-days f _ (spans-days (field_at m f) _)) (field_entries-days fs)
