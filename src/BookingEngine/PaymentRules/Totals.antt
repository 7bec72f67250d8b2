-- ===== src/BookingEngine/PaymentRules/Totals.antt =====
-- What a payment plan adds up to.
use channex_pms.Prelude.{
  ℕ, ◌+◌, ◌-◌, ◌*◌, ◌/◌, ◌≤◌, ◌<◌, Bool, true, false, List, [], ◌∷◌, any, all, leb, ◌==◌, ◌≡◌, ◌⊎◌,
  refl, arith, ap, ◌∙◌, All, Bool-cases, inl, inr,
}
use native.Mathlib.Nat.{mul-le-mul_left}
use channex_pms.Prelude.Int.{ℤ, pos, negsuc, ◌-ℤ◌, pos_part}
use channex_pms.Prelude.Sort.{place, sort_by, All-sort_by}
use channex_pms.Shared.Result.{Result, ok}
use channex_pms.Shared.Money.{Money, MoneyError, money_of, max_safe_integer}
use channex_pms.Shared.Money.Allocate.Exact.{allocate-sum}
use channex_pms.BookingEngine.PaymentRules.{
  PaymentAmount, percent, fixed_amount, remainder, PaymentRule, PaymentPlanInput, Instalment, taken,
  sorted_rules, instalment_of, wanted, pay_rules, plan_payments, first_minor, sum_due,
}

abbrev pub is_remainder : PaymentRule → Bool
is_remainder r = elim r.amount [ percent b ↦ false | fixed_amount n ↦ false | remainder ↦ true ]

-- A percentage from 0 to 100.
abbrev pub is_share : PaymentRule → Bool
is_share r = elim r.amount [
  | percent b ↦ elim b [ pos n ↦ leb n 10000 | negsuc n ↦ false ]
  | fixed_amount n ↦ true
  | remainder ↦ true
]

taken-below : (w : ℤ) (left : ℕ) → taken w left ≤ left
taken-below w left = ground arith

-- What is taken for a remainder is all that is left.
remainder-takes :
    (floor_quotient : ℕ → ℕ → ℕ → ℕ) (r : PaymentRule) (total currency left : ℕ) (w : ℤ)
    → wanted floor_quotient r.amount total currency left ≡ ok w
    → (is_remainder r ≡ false) ⊎ (taken w left ≡ left)
unfolding wanted
remainder-takes f r total currency left w e = go r.amount e
  where
    go :
        (amount : PaymentAmount)
        → wanted f amount total currency left ≡ ok w
        → (is_remainder (record r { amount = amount }) ≡ false) ⊎ (taken w left ≡ left)
    go (percent b) e = inl refl
    go (fixed_amount n) e = inl refl
    go remainder e = let same : pos left ≡ w = ground arith in inr (rw (← same) (ground arith))

-- Instalments of at most `left`, each of some amount, and of all of it where a remainder is asked.
abbrev Pays : Bool → ℕ → Result (List Instalment) MoneyError → Type 0
Pays full left r =
    (out : List Instalment) × (r ≡ ok out)
    × (sum_due out ≤ left)
    × (All (λ i. 0 < i.due_minor) out)
    × ((full ≡ false) ⊎ (sum_due out ≡ left))

module _ (floor_quotient : ℕ → ℕ → ℕ → ℕ) (input : PaymentPlanInput) (total : ℕ)
    (answers : (r : PaymentRule) (left : ℕ)
      → is_share r ≡ true
      → (w : ℤ) × (wanted floor_quotient r.amount total input.currency left ≡ ok w)) where
  pay_rules-Pays :
      (rs : List PaymentRule) (left : ℕ)
      → all is_share rs ≡ true
      → Pays (any is_remainder rs) left (pay_rules floor_quotient input total rs left)
  unfolding pay_rules
  pay_rules-Pays [] left h = ([], refl, omega arith, tt, inl refl)
  pay_rules-Pays (r ∷ rs) left h =
      let (w, e) = answers r left (ground (arith, h)) in
      let full = any is_remainder (r ∷ rs) in
      let all_left = remainder-takes floor_quotient r total input.currency left w e in
      elim (Bool-cases (left == 0)) [
        | inl y ↦ rw (y, pay_rules) ([], refl, omega arith, tt, inr (ground (arith, y)))
        | inr z ↦ elim (Bool-cases (taken w left == 0)) [
          | inl n ↦
              let (out, o, low, some_due, rest) = pay_rules-Pays rs left (ground (arith, h)) in
              let last : (full ≡ false) ⊎ (sum_due out ≡ left) =
                ground (arith, rest, all_left, n, z) in
              rw (z, pay_rules, e, n, o) (out, refl, low, some_due, last)
          | inr n ↦
              let (out, o, low, some_due, rest) =
                pay_rules-Pays rs (left - taken w left) (ground (arith, h)) in
              let below = taken-below w left in
              let last : (full ≡ false) ⊎ (taken w left + sum_due out ≡ left) =
                ground (arith, rest, all_left, low, below) in
              rw (z, pay_rules, e, n, o)
                (
                  instalment_of r input (taken w left) ∷ out,
                  refl,
                  omega (arith, low, below),
                  (ground (arith, n), some_due),
                  last,
                )
        ]
      ]

others-share : (n : ℕ) → n ≤ 10000 → pos 10000 -ℤ pos n ≡ pos (10000 - n)
unfolding ◌-ℤ◌
others-share n h = ground (arith, h)

sub-below : (n : ℕ) → 10000 - n ≤ 10000
sub-below n = omega arith

-- A rule with a share of at most the whole finds what it asks for.
wanted-answers :
    (floor_quotient : ℕ → ℕ → ℕ → ℕ) (total currency : ℕ)
    → ((a b d : ℕ)
        → a * b ≤ max_safe_integer
        → 0 < d
        → d ≤ max_safe_integer
        → floor_quotient a b d ≡ a * b / d)
    → total * 10000 ≤ max_safe_integer
    → (r : PaymentRule) (left : ℕ) → is_share r ≡ true
    → (w : ℤ) × (wanted floor_quotient r.amount total currency left ≡ ok w)
unfolding wanted money_of
wanted-answers f total currency exact small r left = go r.amount
  where
    go :
        (amount : PaymentAmount)
        → is_share (record r { amount = amount }) ≡ true
        → (w : ℤ) × (wanted f amount total currency left ≡ ok w)
    go (fixed_amount n) h = (n, refl)
    go remainder h = (pos left, refl)
    go (percent (negsuc n)) h = cc
    go (percent (pos n)) h =
        let money : Money = record { minor = pos total; money_currency = currency } in
        let low : n ≤ 10000 = ground (arith, h) in
        let safe : total ≤ max_safe_integer = omega (arith, small) in
        let is_ok : money_of (pos total) currency ≡ ok money = ground (arith, safe) in
        let (amounts, e, k) =
          allocate-sum f money (pos n ∷ pos (10000 - n) ∷ []) exact (ground (arith, safe))
            (ground (arith, low)) (omega (arith, low)) (omega (arith, low))
            (
              omega (arith, small, mul-le-mul_left total low),
              (omega (arith, small, mul-le-mul_left total (sub-below n)), tt),
            ) in
        (first_minor amounts, rw (is_ok, wanted, others-share n low, e) refl)

sum-place :
    (rank : Instalment → ℕ) (x : Instalment) (ys : List Instalment)
    → sum_due (place rank x ys) ≡ x.due_minor + sum_due ys
unfolding place
sum-place rank x [] = refl
sum-place rank x (y ∷ ys) = elim (Bool-cases (leb (rank x) (rank y))) [
  | inl s ↦ rw (s, place) refl
  | inr t ↦ rw (t, place) (omega (arith, sum-place rank x ys))
]

sum-sort_by :
    (rank : Instalment → ℕ) (xs : List Instalment) → sum_due (sort_by rank xs) ≡ sum_due xs
unfolding sort_by
sum-sort_by rank [] = refl
sum-sort_by rank (x ∷ xs) =
    sum-place rank x (sort_by rank xs) ∙ ap (λ n. x.due_minor + n) (sum-sort_by rank xs)

-- A booking that the property collects, whose rules that apply take shares from 0 to 100 percent:
-- the plan returns, with instalments of positive amounts that never exceed the total, and that sum
-- exactly to it where one of the rules takes the remainder. Ten thousand times the total is a safe
-- integer, and the floating-point quotient of safe integers is rounded down exactly.
pub plan_payments-total :
    (floor_quotient : ℕ → ℕ → ℕ → ℕ) (input : PaymentPlanInput)
    → ((a b d : ℕ)
        → a * b ≤ max_safe_integer
        → 0 < d
        → d ≤ max_safe_integer
        → floor_quotient a b d ≡ a * b / d)
    → pos_part input.total_minor * 10000 ≤ max_safe_integer
    → input.collected_by_ota ≡ false
    → all is_share (sorted_rules input) ≡ true
    → (out : List Instalment) × (plan_payments floor_quotient input ≡ ok out)
      × (sum_due out ≤ pos_part input.total_minor)
      × All (λ i. 0 < i.due_minor) out
      × ((any is_remainder (sorted_rules input) ≡ false)
          ⊎ (sum_due out ≡ pos_part input.total_minor))
unfolding plan_payments
plan_payments-total f input exact small ours shares =
    let total = pos_part input.total_minor in
    let (out, e, low, some_due, rest) =
      pay_rules-Pays f input total (wanted-answers f total input.currency exact small)
        (sorted_rules input) total shares in
    let same = sum-sort_by (λ i. i.due_on) out in
    (
      sort_by (λ i. i.due_on) out,
      rw (e, plan_payments, ours) refl,
      rw same low,
      All-sort_by (λ i. i.due_on) (λ i. 0 < i.due_minor) out some_due,
      rw same rest,
    )
