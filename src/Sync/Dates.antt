-- ===== src/Sync/Dates.antt =====
-- packages/sync/src/batch/dates.ts. The weekday of a date is the calendar's: a parameter.
pub mod Laws
use channex_pms.Prelude.{
  ℕ, zero, suc, ◌+◌, ◌-◌, Bool, true, false, Option, none, some, List, [], ◌∷◌, ◌++◌, ◌==◌,
  if◌then◌else◌, any, Eq,
}
use channex_pms.Prelude.Int.{ℤ, pos, negsuc}
use channex_pms.Shared.Date.{LocalDate, is_after, plus_days, days_until}
use channex_pms.Inventory.{Weekday, weekday_has_eq}

abbrev pub has_day : Weekday → List Weekday → Bool
has_day w = any (λ v. weekday_has_eq.beq v w)

-- `!filter || filter.has(weekday)`, at a weekday.
abbrev pub admits : Option (List Weekday) → Weekday → Bool
admits none w = true
admits (some days) w = has_day w days

module _ (weekday_of : LocalDate → Weekday) where
  pub expand_from : ℕ → LocalDate → LocalDate → Option (List Weekday) → List LocalDate
  unfolding plus_days
  expand_from zero d date_to days = []
  expand_from (suc rounds) d date_to days =
      let rest = expand_from rounds (plus_days d 1) date_to days in
      let kept = if admits days (weekday_of d) then d ∷ rest else rest in
      if is_after d date_to then [] else kept

  -- `rounds` of the loop: one for each day of the range.
  unfoldable pub expand_dates : LocalDate → LocalDate → Option (List Weekday) → List LocalDate
  unfolding expand_from
  expand_dates date_from date_to days = expand_from (suc date_to - date_from) date_from date_to days

abbrev is_one : ℤ → Bool
is_one (pos n) = n == 1
is_one (negsuc n) = false

-- The loop after the first date: `current` is not empty, and `prev` is its last date.
spans_from : List LocalDate → LocalDate → List LocalDate → List (List LocalDate)
unfolding days_until
spans_from current prev [] = current ∷ []
spans_from current prev (d ∷ ds) = elim (is_one (days_until prev d)) [
  | true ↦ spans_from (current ++ d ∷ []) d ds
  | false ↦ current ∷ spans_from (d ∷ []) d ds
]

unfoldable pub contiguous_spans : List LocalDate → List (List LocalDate)
unfolding spans_from
contiguous_spans [] = []
contiguous_spans (d ∷ ds) = spans_from (d ∷ []) d ds
