-- ===== src/Shared/Tests.antt =====
-- The theorems on ranges and amounts at concrete ones.
use channex_pms.Prelude.{◌*◌, ◌/◌, List, [], ◌∷◌, refl, ◌≡◌, arith, length, contains}
use channex_pms.Prelude.Int.{ℤ, pos, negsuc, ◌+ℤ◌, ◌-ℤ◌}
use channex_pms.Shared.Date.{LocalDate}
use channex_pms.Shared.Result.{ok}
use channex_pms.Shared.Money.{Money, add, subtract, money_of}
use channex_pms.Prelude.Sort.{sort_by, place}
use channex_pms.Shared.Money.Sums.{add-subtract}
use channex_pms.Shared.Money.Allocate.{allocate, split, give, moneys_of}
use channex_pms.Shared.Money.Allocate.Exact.{sum_minor, allocate-sum}
use channex_pms.Shared.DateRange.{DateRange, nights, dates, contains_date, intersect}
use channex_pms.Shared.DateRange.Nights.{dates-nights, intersect-IsMeet, IsMeet}

abbrev week : DateRange
week = record { start = 10; end = 17 }

abbrev weekend : DateRange
weekend = record { start = 15; end = 20 }

dates-nights_example :
    (nights week ≡ pos (length (dates week)))
    × ((date : LocalDate) → contains date (dates week) ≡ contains_date week date)
dates-nights_example = dates-nights week (omega arith)

intersect-IsMeet_example : IsMeet week weekend (intersect week weekend)
intersect-IsMeet_example = intersect-IsMeet week weekend (omega arith) (omega arith)

abbrev fare : Money
fare = record { minor = pos 1250; money_currency = 978 }

abbrev fee : Money
fee = record { minor = pos 300; money_currency = 978 }

abbrev fare_and_fee : Money
fare_and_fee = record { minor = pos 1550; money_currency = 978 }

fare-added : add fare fee ≡ ok fare_and_fee
unfolding add money_of ◌+ℤ◌
fare-added = refl

add-subtract_example :
    (fare.money_currency ≡ fee.money_currency) × (subtract fare_and_fee fee ≡ ok fare)
add-subtract_example = add-subtract fare fee fare_and_fee refl fare-added

abbrev refund : Money
refund = record { minor = negsuc 999; money_currency = 978 }

abbrev thirds : List ℤ
thirds = pos 1 ∷ pos 1 ∷ pos 1 ∷ []

allocate-sum_example :
    (amounts : List Money) × (allocate (λ a b d. a * b / d) refund thirds ≡ ok amounts)
    × (sum_minor amounts ≡ negsuc 999)
allocate-sum_example =
    allocate-sum (λ a b d. a * b / d) refund thirds (λ a b d h k l. refl) refl refl (omega arith)
      (omega arith) (omega arith, (omega arith, (omega arith, tt)))

-- The remainder goes to the first of equal ratios.
refund-split :
    allocate (λ a b d. a * b / d) refund thirds
    ≡ ok (
        record { minor = negsuc 333; money_currency = 978 }
        ∷ record { minor = negsuc 332; money_currency = 978 }
        ∷ record { minor = negsuc 332; money_currency = 978 }
        ∷ [])
unfolding allocate split give moneys_of money_of sort_by place ◌-ℤ◌
refund-split = refl
