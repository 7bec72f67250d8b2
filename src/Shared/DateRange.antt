-- ===== src/Shared/DateRange.antt =====
-- packages/core/src/shared/date-range.ts: a half-open range of nights.
pub mod Nights
use channex_pms.Prelude.{
  ℕ, zero, suc, ◌+◌, ◌-◌, Bool, not, ◌&&◌, ◌||◌, Option, none, some, List, [], ◌∷◌, if◌then◌else◌,
}
use channex_pms.Shared.Date.{LocalDate, is_before, is_after, equals, plus_days, days_until}
use channex_pms.Prelude.Int.{ℤ}

pub record DateRange : Type 0 where
  pub start : LocalDate
  pub end : LocalDate

-- `DateRange.of`; the RangeError is `none`.
unfoldable pub of : LocalDate → LocalDate → Option DateRange
of start end =
    if not (is_before start end) then none else some (record { start = start; end = end })

unfoldable pub night : LocalDate → DateRange
unfolding plus_days
night date = record { start = date; end = plus_days date 1 }

unfoldable pub nights : DateRange → ℤ
unfolding days_until
nights r = days_until r.start r.end

unfoldable pub contains_date : DateRange → LocalDate → Bool
contains_date r date = not (is_before date r.start) && is_before date r.end

unfoldable pub overlaps : DateRange → DateRange → Bool
overlaps r other = is_before r.start other.end && is_before other.start r.end

unfoldable pub intersect : DateRange → DateRange → Option DateRange
intersect r other =
    let start = if is_after r.start other.start then r.start else other.start in
    let end = if is_before r.end other.end then r.end else other.end in
    if is_before start end then some (record { start = start; end = end }) else none

unfoldable pub is_adjacent_to : DateRange → DateRange → Bool
is_adjacent_to r other = equals r.end other.start || equals other.end r.start

-- The generator's loop; `rounds` bounds its iterations.
unfoldable pub dates_from : ℕ → LocalDate → LocalDate → List LocalDate
unfolding plus_days
dates_from zero d end = []
dates_from (suc rounds) d end =
    let rest = d ∷ dates_from rounds (plus_days d 1) end in if is_before d end then rest else []

unfoldable pub dates : DateRange → List LocalDate
unfolding dates_from
dates r = dates_from (r.end - r.start) r.start r.end
