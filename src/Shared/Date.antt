-- ===== src/Shared/Date.antt =====
-- packages/core/src/shared/local-date.ts. Temporal (a third-party package) does the calendar; a
-- date stands for its ordinal day, so that adding days, comparing and counting days are
-- arithmetic, and the order of ISO texts is the order of the numbers. The weekday of a day is the
-- calendar's: a parameter wherever it is used.
use channex_pms.Prelude.{ℕ, ◌+◌, ◌-◌, Bool, ltb, ◌==◌}
use channex_pms.Prelude.Int.{ℤ, sub_ℕ}

abbrev pub LocalDate : Type 0
LocalDate = ℕ

unfoldable pub plus_days : LocalDate → ℕ → LocalDate
plus_days d n = d + n

unfoldable pub minus_days : LocalDate → ℕ → LocalDate
minus_days d n = d - n

-- Signed number of days from `d` until `other`.
unfoldable pub days_until : LocalDate → LocalDate → ℤ
days_until d other = sub_ℕ other d

abbrev pub is_before : LocalDate → LocalDate → Bool
is_before d other = ltb d other

abbrev pub is_after : LocalDate → LocalDate → Bool
is_after d other = ltb other d

abbrev pub equals : LocalDate → LocalDate → Bool
equals d other = d == other
