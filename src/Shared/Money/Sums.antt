-- ===== src/Shared/Money/Sums.antt =====
-- `add` and `subtract` of packages/core/src/shared/money.ts.
use channex_pms.Prelude.{◌≡◌, refl, true, ◌==◌, arith}
use channex_pms.Prelude.Int.{◌+ℤ◌, +ℤ_cancel}
use channex_pms.Shared.Result.{ok}
use channex_pms.Shared.Money.{Money, is_safe_integer, money_of, add, subtract}

sum-shape :
    (a b c : Money)
    → add a b ≡ ok c
    → (a.money_currency ≡ b.money_currency)
      × (c.minor ≡ a.minor +ℤ b.minor)
      × (c.money_currency ≡ a.money_currency)
unfolding add money_of
sum-shape a b c h = ground arith

-- Where `add` gives a sum, both amounts have one currency, and the sum less the second amount is
-- the first again, for a first amount that is a safe integer.
pub add-subtract :
    (a b c : Money)
    → is_safe_integer a.minor ≡ true
    → add a b ≡ ok c
    → (a.money_currency ≡ b.money_currency) × (subtract c b ≡ ok a)
unfolding subtract money_of
add-subtract a b c s h =
    let (same, sum, cur) = sum-shape a b c h in
    let q : (c.money_currency == b.money_currency) ≡ true = ground arith in
    (same, rw (q, sum, +ℤ_cancel a.minor b.minor, s, cur) refl)
