-- ===== src/Sync/Dates/Laws.antt =====
-- Which dates a range expands to, and what the contiguous spans of a list are.
use channex_pms.Prelude.{
  ℕ, zero, suc, ◌+◌, ◌-◌, ◌≤◌, ◌≡◌, refl, ap, ◌∙◌, ◌&&◌, Option, List, [], ◌∷◌, ◌++◌, arith,
  contains, leb, ◌==◌, range_from, concat, All, Bool-cases, inl, inr, append_assoc,
}
use channex_pms.Shared.Date.{LocalDate, plus_days, days_until}
use channex_pms.Inventory.{Weekday}
use channex_pms.Sync.Dates.{admits, expand_from, expand_dates, is_one, spans_from, contiguous_spans}

module _ (weekday_of : LocalDate → Weekday) where
  contains-expand_from :
      (rounds d last : ℕ) (days : Option (List Weekday)) (date : ℕ)
      → suc last ≤ d + rounds
      → contains date (expand_from weekday_of rounds d last days)
        ≡ ((leb d date && leb date last) && admits days (weekday_of date))
  unfolding expand_from plus_days
  contains-expand_from zero d last days date h = ground arith
  contains-expand_from (suc rounds) d last days date h =
      elim (Bool-cases (leb d date && leb date d)) [
        | inl e ↦
            let same : d ≡ date = ground arith in
            rw (← same) (ground (arith, contains-expand_from rounds (d + 1) last days d))
        | inr e ↦ ground (arith, contains-expand_from rounds (d + 1) last days date)
      ]

  -- A date is expanded exactly if it lies in the inclusive range and its weekday is admitted.
  pub contains-expand_dates :
      (first last : LocalDate) (days : Option (List Weekday)) (date : LocalDate)
      → contains date (expand_dates weekday_of first last days)
        ≡ ((leb first date && leb date last) && admits days (weekday_of date))
  unfolding expand_dates
  contains-expand_dates first last days date =
      contains-expand_from (suc last - first) first last days date (omega arith)

-- A non-empty run of consecutive days.
abbrev pub IsRun : List LocalDate → Type 0
IsRun span = (a : ℕ) × (n : ℕ) × (span ≡ range_from a (suc n))

range_from-snoc : (a n : ℕ) → range_from a (suc n) ++ (a + suc n) ∷ [] ≡ range_from a (suc (suc n))
range_from-snoc a zero = ground arith
range_from-snoc a (suc n) = ground (arith, range_from-snoc (suc a) n)

is_one-days_until : (prev d : LocalDate) → is_one (days_until prev d) ≡ (d == prev + 1)
unfolding days_until
is_one-days_until prev d = ground arith

-- What the loop keeps: every span is a run, and the spans in order are the dates.
abbrev AreRuns : List LocalDate → List (List LocalDate) → Type 0
AreRuns ds spans = All IsRun spans × (concat spans ≡ ds)

spans_from-AreRuns :
    (a n : ℕ) (current : List LocalDate) (prev : LocalDate) (ds : List LocalDate)
    → current ≡ range_from a (suc n)
    → prev ≡ a + n
    → AreRuns (current ++ ds) (spans_from current prev ds)
unfolding spans_from
spans_from-AreRuns a n current prev [] c p = (((a, n, c), tt), refl)
spans_from-AreRuns a n current prev (d ∷ ds) c p = elim (Bool-cases (is_one (days_until prev d))) [
  | inl next ↦
      let e : d ≡ a + suc n = ground (arith, is_one-days_until prev d) in
      let grown : current ++ d ∷ [] ≡ range_from a (suc (suc n)) =
        rw (c, e) (range_from-snoc a n) in
      let (runs, same) = spans_from-AreRuns a (suc n) (current ++ d ∷ []) d ds grown e in
      rw (next, spans_from) (runs, same ∙ append_assoc current (d ∷ []) ds)
  | inr gap ↦
      let (runs, same) = spans_from-AreRuns d 0 (d ∷ []) d ds refl (omega arith) in
      rw (gap, spans_from) (((a, n, c), runs), ap (λ t. current ++ t) same)
]

-- Every span that `contiguous_spans` returns is a non-empty run of consecutive days, and the
-- spans put one after the other are the list that was given.
pub contiguous_spans-AreRuns :
    (ds : List LocalDate) → All IsRun (contiguous_spans ds) × (concat (contiguous_spans ds) ≡ ds)
unfolding contiguous_spans
contiguous_spans-AreRuns [] = (tt, refl)
contiguous_spans-AreRuns (d ∷ ds) = spans_from-AreRuns d 0 (d ∷ []) d ds refl (omega arith)
