-- ===== src/Sync/Tests.antt =====
-- Batches of a few cells, and the theorems at them. A calendar whose day 0 is a Monday.
use channex_pms.Prelude.{
  ℕ, ◌%◌, ◌≡◌, refl, Option, none, some, List, [], ◌∷◌, arith, concat, length, All, contains,
  range_from, if◌then◌else◌, nat_eq, list_eq, ◌≤◌, leb, ◌&&◌,
}
use channex_pms.Shared.Date.{LocalDate}
use channex_pms.Inventory.{
  sa, rate, min_stay, FieldValue, no_values, with_field, RateCell, RestrictionEntry,
  default_batch_limits,
}
use channex_pms.Sync.Samples.{weekday_of, canon, canon-injective, minor}
use channex_pms.Sync.Dates.{admits, expand_dates, contiguous_spans}
use channex_pms.Sync.Dates.Laws.{IsRun, contains-expand_dates, contiguous_spans-AreRuns}
use channex_pms.Sync.Encode.{encode_span}
use channex_pms.Sync.Encode.Coverage.{last_write, or_else}
use channex_pms.Sync.Encode.Exact.{encode_span-last_write}
use channex_pms.Sync.Apply.{empty_state, apply_restriction_entries, state_from_cells}
use channex_pms.Sync.Apply.Reads.{read_cell, apply_restriction_entries-read, result, write_of}
use channex_pms.Sync.Build.{chunk, build_restriction_batch}
use channex_pms.Sync.Build.Groups.{chunk_lem}
use channex_pms.Sync.Build.Exact.{build_restriction_batch-exact}

abbrev cell : ℕ → LocalDate → ℕ → RateCell
cell plan d n = record {
  rate_plan_id = plan;
  date = d;
  values = with_field rate (minor n) no_values;
}

-- Two plans; the first has an exception in the middle of a constant price.
abbrev cells : List RateCell
cells =
    cell 7 10 100 ∷ cell 3 4 80 ∷ cell 7 11 100 ∷ cell 7 12 150 ∷ cell 7 13 100 ∷ cell 7 14 100 ∷ []

three_entries :
    length (concat (build_restriction_batch weekday_of canon cells default_batch_limits)) ≡ 3
unfolding build_restriction_batch contiguous_spans encode_span
three_entries = refl

build_restriction_batch-exact_example :
    read_cell 7 12 rate
      (apply_restriction_entries weekday_of empty_state
        (concat (build_restriction_batch weekday_of canon cells default_batch_limits))).restrictions
    ≡ read_cell 7 12 rate (state_from_cells cells []).restrictions
build_restriction_batch-exact_example =
    build_restriction_batch-exact weekday_of canon canon-injective cells default_batch_limits
      (omega arith) (refl, (refl, (refl, (refl, (refl, (refl, tt)))))) 7 12 rate

-- Nine days with the price of the weekend: one entry for each price.
abbrev weekend_price : LocalDate → Option FieldValue
weekend_price d = if leb 5 (d % 7) then minor 150 else minor 100

weekday_filter_wins : length (encode_span weekday_of weekend_price canon (range_from 0 21)) ≡ 2
unfolding encode_span
weekday_filter_wins = refl

encode_span-last_write_example :
    last_write weekday_of (encode_span weekday_of weekend_price canon (range_from 0 21)) 12
    ≡ some (minor 150)
encode_span-last_write_example =
    encode_span-last_write weekday_of weekend_price canon canon-injective (range_from 0 21)
      (0, 20, refl) 12

contains-expand_dates_example :
    contains 5 (expand_dates weekday_of 3 12 (some (sa ∷ [])))
    ≡ ((leb 3 5 && leb 5 12) && admits (some (sa ∷ [])) sa)
contains-expand_dates_example = contains-expand_dates weekday_of 3 12 (some (sa ∷ [])) 5

contiguous_spans-AreRuns_example :
    All IsRun (contiguous_spans (3 ∷ 4 ∷ 8 ∷ []))
    × (concat (contiguous_spans (3 ∷ 4 ∷ 8 ∷ [])) ≡ 3 ∷ 4 ∷ 8 ∷ [])
contiguous_spans-AreRuns_example = contiguous_spans-AreRuns (3 ∷ 4 ∷ 8 ∷ [])

abbrev three : List ℕ
three = 1 ∷ 2 ∷ 3 ∷ []

chunk_lem_example : (concat (chunk three 2) ≡ three) × All (λ c. length c ≤ 2) (chunk three 2)
chunk_lem_example = chunk_lem three 2 (omega arith)

abbrev one_entry : RestrictionEntry
one_entry = record {
  rate_plan_id = 7;
  date_from = 3;
  date_to = 9;
  days = none;
  values = with_field min_stay (minor 2) no_values;
}

apply_restriction_entries-read_example :
    read_cell 7 4 min_stay
      (apply_restriction_entries weekday_of empty_state (one_entry ∷ [])).restrictions
    ≡ or_else (result weekday_of (write_of 7 min_stay one_entry ∷ []) 4) none
apply_restriction_entries-read_example =
    apply_restriction_entries-read weekday_of (one_entry ∷ []) empty_state 7 4 min_stay
