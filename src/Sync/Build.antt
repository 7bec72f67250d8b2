-- ===== src/Sync/Build.antt =====
-- packages/sync/src/batch/build.ts: cells to the entries of a batch. `canon` is the canonical JSON
-- text of a field's value (`JSON.stringify` is the runtime's), of any type of keys.
pub mod Slots
pub mod Merge
pub mod Push
pub mod Overwrite
pub mod Fields
pub mod Groups
pub mod Plans
pub mod Exact
use channex_pms.Prelude.{
  ℕ, zero, suc, Bool, true, false, Option, none, some, List, [], ◌∷◌, ◌++◌, map, ltb, if◌then◌else◌,
  length, take, drop, filter, concat, Eq, nat_eq, pair_eq, list_eq,
}
use channex_pms.Prelude.Maps.{lookup, insert}
use channex_pms.Prelude.Sort.{sort_by}
use channex_pms.Shared.Date.{LocalDate}
use channex_pms.Inventory.{
  EntityId, Weekday, weekday_has_eq, RestrictionField, field_has_eq, restriction_fields, FieldValue,
  RestrictionValues, no_values, with_field, RateCell, AvailabilityCell, RestrictionEntry,
  AvailabilityEntry, BatchLimits,
}
use channex_pms.Sync.Dates.{contiguous_spans}
use channex_pms.Sync.Encode.{FieldEntry, encode_span}

module _ {A : Type 0} where
  pub group_step : (A → EntityId) → List (EntityId × List A) → A → List (EntityId × List A)
  group_step key_of groups it =
      let old : List A = elim (lookup (key_of it) groups) [ none ↦ [] | some items ↦ items ] in
      insert (key_of it) (old ++ it ∷ []) groups

  pub group_from : (A → EntityId) → List (EntityId × List A) → List A → List (EntityId × List A)
  unfolding group_step
  group_from key_of groups [] = groups
  group_from key_of groups (it ∷ items) = group_from key_of (group_step key_of groups it) items

  unfoldable pub group_by : (A → EntityId) → List A → List (EntityId × List A)
  unfolding group_from
  group_by key_of items = group_from key_of [] items

  -- The loop of `chunk`, one round for each element at most.
  pub chunk_from : ℕ → ℕ → List A → List (List A)
  chunk_from zero size xs = []
  chunk_from (suc rounds) size [] = []
  chunk_from (suc rounds) size (x ∷ xs) =
      take size (x ∷ xs) ∷ chunk_from rounds size (drop size (x ∷ xs))

  unfoldable pub chunk : List A → ℕ → List (List A)
  unfolding chunk_from
  chunk xs size = chunk_from (length xs) size xs

-- One `fieldEntries` element.
abbrev pub Tagged : Type 0
Tagged = RestrictionField × FieldEntry (Option FieldValue)

-- The parts of the key `dateFrom|dateTo|days`.
abbrev pub EntryKey : Type 0
EntryKey = LocalDate × (LocalDate × List Weekday)

pub record Merging : Type 0 where
  pub merged : List RestrictionEntry
  pub index_by_key : List (EntryKey × ℕ)
  pub last_index_of_field : List (RestrictionField × ℕ)

abbrev pub days_or_empty : Option (List Weekday) → List Weekday
days_or_empty none = []
days_or_empty (some days) = days

abbrev pub entry_key : FieldEntry (Option FieldValue) → EntryKey
entry_key x = (x.date_from, (x.date_to, days_or_empty x.days))

-- `existing > floor`, where the floor of a field that has no entry yet is -1.
abbrev pub is_above : ℕ → Option ℕ → Bool
is_above i none = true
is_above i (some floor) = ltb floor i

-- `merged[i][field] = value`.
pub set_at :
    ℕ → RestrictionField → Option FieldValue → List RestrictionEntry → List RestrictionEntry
set_at i f v [] = []
set_at zero f v (x ∷ xs) = record x { values = with_field f v x.values } ∷ xs
set_at (suc i) f v (x ∷ xs) = x ∷ set_at i f v xs

pub new_entry : EntityId → RestrictionField → FieldEntry (Option FieldValue) → RestrictionEntry
new_entry plan f x = record {
  rate_plan_id = plan;
  date_from = x.date_from;
  date_to = x.date_to;
  days = x.days;
  values = with_field f x.value no_values;
}

pub push_new : EntityId → Merging → Tagged → Merging
unfolding new_entry
push_new plan st (f, x) = record {
  merged = st.merged ++ new_entry plan f x ∷ [];
  index_by_key = insert (entry_key x) (length st.merged) st.index_by_key;
  last_index_of_field = insert f (length st.merged) st.last_index_of_field;
}

pub merge_at : ℕ → Merging → Tagged → Merging
unfolding set_at
merge_at i st (f, x) = record st {
  merged = set_at i f x.value st.merged;
  last_index_of_field = insert f i st.last_index_of_field;
}

pub merge_found : Option ℕ → EntityId → Merging → Tagged → Merging
unfolding push_new merge_at
merge_found none plan st t = push_new plan st t
merge_found (some i) plan st t =
    if is_above i (lookup t.0 st.last_index_of_field) then merge_at i st t else push_new plan st t

-- One round of the merging loop.
pub merge_entry : EntityId → Merging → Tagged → Merging
unfolding merge_found
merge_entry plan st t = merge_found (lookup (entry_key t.1) st.index_by_key) plan st t

pub merge_from : EntityId → Merging → List Tagged → Merging
unfolding merge_entry
merge_from plan st [] = st
merge_from plan st (t ∷ ts) = merge_from plan (merge_entry plan st t) ts

abbrev pub merging_start : Merging
merging_start = record { merged = []; index_by_key = []; last_index_of_field = [] }

-- `new Map(planCells.map((c) => [c.date, c.values]))`.
pub by_date_from :
    List (LocalDate × RestrictionValues) → List RateCell → List (LocalDate × RestrictionValues)
by_date_from m [] = m
by_date_from m (c ∷ cs) = by_date_from (insert c.date c.values m) cs

-- `byDate.get(d)![field]`.
pub field_at :
    List (LocalDate × RestrictionValues) → RestrictionField → LocalDate → Option FieldValue
field_at m f d = elim (lookup d m) [ none ↦ none | some v ↦ v f ]

abbrev pub is_defined {ℓ} : {A : Type ℓ} → Option A → Bool
is_defined none = false
is_defined (some a) = true

module _ {K : Type 0} ⦃e : Eq K⦄ (weekday_of : LocalDate → Weekday)
    (canon : Option FieldValue → K) where
  pub field_entries :
      List (LocalDate × RestrictionValues) → List LocalDate → RestrictionField → List Tagged
  unfolding field_at
  field_entries m dates f =
      map (λ x. (f, x))
        (concat (
          map (encode_span weekday_of (field_at m f) canon)
            (contiguous_spans (filter (λ d. is_defined (field_at m f d)) dates))))

  pub build_plan : EntityId → List RateCell → List RestrictionEntry
  unfolding field_entries by_date_from merge_from restriction_fields
  build_plan plan cells =
      let m = by_date_from [] cells in
      let dates = sort_by (λ d. d) (map (λ p. p.0) m) in
      (merge_from plan merging_start
        (concat (map (field_entries m dates) restriction_fields))).merged

  pub plan_entries : List RateCell → List RestrictionEntry
  unfolding build_plan group_by sort_by
  plan_entries cells =
      concat
        (map (λ g. build_plan g.0 g.1) (sort_by (λ g. g.0) (group_by (λ c. c.rate_plan_id) cells)))

  unfoldable pub build_restriction_batch :
      List RateCell → BatchLimits → List (List RestrictionEntry)
  unfolding plan_entries chunk
  build_restriction_batch cells limits = chunk (plan_entries cells) limits.max_entries

count_at : List (LocalDate × ℕ) → LocalDate → ℕ
count_at m d = elim (lookup d m) [ none ↦ 0 | some n ↦ n ]

counts_from : List (LocalDate × ℕ) → List AvailabilityCell → List (LocalDate × ℕ)
counts_from m [] = m
counts_from m (c ∷ cs) = counts_from (insert c.date c.availability m) cs

room_entry : EntityId → FieldEntry ℕ → AvailabilityEntry
room_entry room e = record {
  room_type_id = room;
  date_from = e.date_from;
  date_to = e.date_to;
  days = e.days;
  availability = e.value;
}

-- The dates come from the map, so that `byDate.get(d)!` finds a count for each.
room_entries : (LocalDate → Weekday) → EntityId → List AvailabilityCell → List AvailabilityEntry
unfolding count_at counts_from room_entry sort_by
room_entries weekday_of room cells =
    let m = counts_from [] cells in
    map (room_entry room) (
      concat (
        map (encode_span weekday_of (count_at m) (λ n. n))
          (contiguous_spans (sort_by (λ d. d) (map (λ p. p.0) m)))))

unfoldable pub build_availability_batch :
    (LocalDate → Weekday) → List AvailabilityCell → BatchLimits → List (List AvailabilityEntry)
unfolding room_entries chunk group_by sort_by
build_availability_batch weekday_of cells limits =
    chunk
      (concat (
        map (λ g. room_entries weekday_of g.0 g.1)
          (sort_by (λ g. g.0) (group_by (λ c. c.room_type_id) cells))))
      limits.max_entries
