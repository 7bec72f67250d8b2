-- ===== src/Shared/DateRange/Nights.antt =====
-- What the nights of a range are, and how two ranges meet.
use channex_pms.Prelude.{
  ℕ, zero, suc, ◌+◌, ◌-◌, ◌≤◌, ◌<◌, ◌≡◌, true, false, ◌&&◌, Option, none, some, arith, length,
  contains, leb, ltb, inl, inr, Option-cases,
}
use channex_pms.Prelude.Int.{pos}
use channex_pms.Shared.Date.{LocalDate, plus_days, days_until}
use channex_pms.Shared.DateRange.{
  DateRange, nights, contains_date, overlaps, intersect, dates_from, dates,
}

-- A range as `DateRange.of` builds it.
abbrev pub IsRange : DateRange → Type 0
IsRange r = r.start < r.end

length-dates_from :
    (rounds d end : ℕ) → end ≤ d + rounds → length (dates_from rounds d end) ≡ end - d
unfolding dates_from plus_days
length-dates_from zero d end h = omega arith
length-dates_from (suc rounds) d end h = ground (arith, length-dates_from rounds (d + 1) end)

contains-dates_from :
    (rounds d end date : ℕ)
    → end ≤ d + rounds
    → contains date (dates_from rounds d end) ≡ (leb d date && ltb date end)
unfolding dates_from plus_days
contains-dates_from zero d end date h = ground arith
contains-dates_from (suc rounds) d end date h =
    ground (arith, contains-dates_from rounds (d + 1) end date)

-- `nights` counts the dates that `dates` lists, and a date is listed exactly if the range
-- contains it.
pub dates-nights :
    (r : DateRange)
    → IsRange r
    → (nights r ≡ pos (length (dates r)))
      × ((date : LocalDate) → contains date (dates r) ≡ contains_date r date)
unfolding nights dates contains_date days_until
dates-nights r h = (
  ground (arith, length-dates_from (r.end - r.start) r.start r.end),
  λ date. ground (arith, contains-dates_from (r.end - r.start) r.start r.end date),
)

-- What `intersect` returns holds exactly the nights that both ranges hold; where it returns
-- none, they share no night, and `overlaps` says so in both cases.
abbrev pub IsMeet : DateRange → DateRange → Option DateRange → Type 0
IsMeet r o none =
    (overlaps r o ≡ false) × ((d : LocalDate) → (contains_date r d && contains_date o d) ≡ false)
IsMeet r o (some m) =
    IsRange m
    × (overlaps r o ≡ true)
    × ((d : LocalDate) → contains_date m d ≡ (contains_date r d && contains_date o d))

intersect-some :
    (r o m : DateRange) → IsRange r → IsRange o → intersect r o ≡ some m → IsMeet r o (some m)
unfolding intersect overlaps contains_date
intersect-some r o m h k e = (ground arith, ground arith, λ d. ground arith)

intersect-none : (r o : DateRange) → IsRange r → IsRange o → intersect r o ≡ none → IsMeet r o none
unfolding intersect overlaps contains_date
intersect-none r o h k e = (ground arith, λ d. ground arith)

-- For two non-empty ranges, `intersect` returns a non-empty range of exactly the common nights
-- when `overlaps` holds, and none when it fails, where no night is common.
pub intersect-IsMeet : (r o : DateRange) → IsRange r → IsRange o → IsMeet r o (intersect r o)
intersect-IsMeet r o h k = elim (Option-cases (intersect r o)) [
  | inl e ↦ rw e (intersect-none r o h k e)
  | inr (m, e) ↦ rw e (intersect-some r o m h k e)
]
