-- ===== src/Shared/Money/Allocate.antt =====
-- `allocate` of packages/core/src/shared/money.ts. `floor_quotient a b d` is Math.floor((a * b) / d)
-- on floating-point numbers.
pub mod Split
pub mod Exact
use channex_pms.Prelude.{
  ℕ, zero, suc, ◌+◌, ◌-◌, Bool, true, false, not, ◌||◌, List, [], ◌∷◌, map, any, if◌then◌else◌,
  ◌==◌,
}
use channex_pms.Prelude.Int.{ℤ, pos, negsuc, ◌-ℤ◌, ltb_ℤ, pos_part, neg_part}
use channex_pms.Prelude.Sort.{sort_by}
use channex_pms.Shared.Result.{Result, ok, err}
use channex_pms.Shared.Money.{
  Money, MoneyError, no_ratios, bad_ratio, zero_ratios, is_safe_integer, minor_eq, is_negative,
  money_of,
}

abbrev pub sum : List ℕ → ℕ
sum [] = 0
sum (x ∷ xs) = x + sum xs

-- The ratios with their places, from `i` on.
abbrev pub with_places : ℕ → List ℕ → List (ℕ × ℕ)
with_places i [] = []
with_places i (r ∷ rs) = (r, i) ∷ with_places (suc i) rs

-- `order`, with the ratios: the largest ratio first, of equal ones the first in place.
abbrev pub order : List ℕ → List (ℕ × ℕ)
order ratios = sort_by (λ x. sum ratios - x.0) (with_places 0 ratios)

-- `parts[i] += 1`.
abbrev pub add_one : ℕ → List ℕ → List ℕ
add_one i [] = []
add_one zero (p ∷ ps) = suc p ∷ ps
add_one (suc i) (p ∷ ps) = p ∷ add_one i ps

unfoldable pub give : List (ℕ × ℕ) → ℤ → List ℕ → List ℕ
give [] remainder parts = parts
give ((r, i) ∷ places) remainder parts =
    let skipped = give places remainder parts in
    let given = give places (remainder -ℤ pos 1) (add_one i parts) in
    if minor_eq remainder (pos 0) then parts else if r == 0 then skipped else given

-- `sign * p`.
abbrev pub with_sign : Bool → ℕ → ℤ
with_sign true p = pos 0 -ℤ pos p
with_sign false p = pos p

-- The amounts in turn, up to the first that is not safe.
unfoldable pub moneys_of : Bool → ℕ → List ℕ → Result (List Money) MoneyError
moneys_of minus currency [] = ok []
moneys_of minus currency (p ∷ ps) =
    let rest = moneys_of minus currency ps in
    elim (money_of (with_sign minus p) currency) [
      | err e ↦ err e
      | ok a ↦ elim rest [ err e ↦ err e | ok amounts ↦ ok (a ∷ amounts) ]
    ]

module _ (floor_quotient : ℕ → ℕ → ℕ → ℕ) where
  abbrev pub floors : ℕ → List ℕ → List ℕ
  floors whole ratios = map (λ r. floor_quotient whole r (sum ratios)) ratios

  -- The parts of the absolute value.
  unfoldable pub split : ℕ → List ℕ → List ℕ
  split whole ratios =
      let parts = floors whole ratios in give (order ratios) (pos whole -ℤ pos (sum parts)) parts

  unfoldable pub allocate : Money → List ℤ → Result (List Money) MoneyError
  allocate money [] = err no_ratios
  allocate money (r ∷ rs) =
      let ratios = map pos_part (r ∷ rs) in
      if any (λ x. not (is_safe_integer x) || ltb_ℤ x (pos 0)) (r ∷ rs)
      then err bad_ratio
      else if sum ratios == 0
      then err zero_ratios
      else moneys_of (is_negative money) money.money_currency
          (split (pos_part money.minor + neg_part money.minor) ratios)
