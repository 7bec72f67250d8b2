-- ===== src/BookingEngine/PaymentRules.antt =====
-- packages/core/src/booking-engine/payment-rules.ts. Positions count from 0, and an id's number
-- orders ids as localeCompare does. `floor_quotient` is the one of `allocate`.
pub mod Totals
use channex_pms.Prelude.{
  ℕ, ◌+◌, ◌-◌, Bool, true, false, not, ◌&&◌, ◌||◌, List, [], ◌∷◌, filter, max, min, if◌then◌else◌,
  ◌==◌, contains,
}
use channex_pms.Prelude.Int.{ℤ, pos, negsuc, ◌-ℤ◌, pos_part}
use channex_pms.Prelude.Sort.{sort_by}
use channex_pms.Shared.Date.{LocalDate}
use channex_pms.Shared.Result.{Result, ok, err}
use channex_pms.Shared.Money.{Money, MoneyError, money_of}
use channex_pms.Shared.Money.Allocate.{allocate}
use channex_pms.Inventory.{EntityId}

pub data PaymentTrigger : Type 0 where
  on_confirmation before_arrival after_arrival : PaymentTrigger

pub data PaymentAmount : Type 0 where
  percent : (percent_bps : ℤ) → PaymentAmount
  fixed_amount : (amount_minor : ℤ) → PaymentAmount
  remainder : PaymentAmount

pub record PaymentRule : Type 0 where
  pub rule_id : EntityId
  pub rule_name : ℕ
  pub trigger : PaymentTrigger
  pub offset_days : ℤ
  pub amount : PaymentAmount
  pub property_ids : List EntityId
  pub channels : List ℕ
  pub enabled : Bool
  pub position : ℕ

-- `collected_by_ota` is paymentCollect === "ota".
pub record PaymentPlanInput : Type 0 where
  pub rules : List PaymentRule
  pub total_minor : ℤ
  pub currency : ℕ
  pub property_id : EntityId
  pub channel : ℕ
  pub arrival : LocalDate
  pub booked_on : LocalDate
  pub collected_by_ota : Bool

pub record Instalment : Type 0 where
  pub by_rule : EntityId
  pub name : ℕ
  pub due_on : LocalDate
  pub due_minor : ℕ

abbrev is_none_of : List ℕ → Bool
is_none_of [] = true
is_none_of _ = false

abbrev pub applies : PaymentRule → EntityId → ℕ → Bool
applies r property channel =
    r.enabled
    && ((is_none_of r.property_ids || contains property r.property_ids)
        && (is_none_of r.channels || contains channel r.channels))

-- The moment of a rule; a day before the first one is before every booking.
abbrev pub moment : PaymentTrigger → ℕ → PaymentPlanInput → LocalDate
moment on_confirmation offset input = input.booked_on
moment before_arrival offset input = input.arrival - offset
moment after_arrival offset input = input.arrival + offset

abbrev pub due_date : PaymentRule → PaymentPlanInput → LocalDate
due_date r input = max input.booked_on (moment r.trigger (pos_part r.offset_days) input)

-- `[0]!.minor`; `allocate` gives an amount for each ratio.
abbrev pub first_minor : List Money → ℤ
first_minor [] = pos 0
first_minor (a ∷ amounts) = a.minor

abbrev pub bound : {A B E : Type 0} → Result A E → (A → Result B E) → Result B E
bound (err e) rest = err e
bound (ok a) rest = rest a

-- `Math.max(0, Math.min(wanted, left))`.
abbrev pub taken : ℤ → ℕ → ℕ
taken (pos w) left = min w left
taken (negsuc w) left = 0

abbrev pub sorted_rules : PaymentPlanInput → List PaymentRule
sorted_rules input =
    sort_by (λ r. r.position)
      (sort_by (λ r. r.rule_id)
        (filter (λ r. applies r input.property_id input.channel) input.rules))

abbrev pub instalment_of : PaymentRule → PaymentPlanInput → ℕ → Instalment
instalment_of r input n = record {
  by_rule = r.rule_id;
  name = r.rule_name;
  due_on = due_date r input;
  due_minor = n;
}

-- `out.push`, with what the rules after it give.
abbrev pub push_first :
    Instalment → Result (List Instalment) MoneyError → Result (List Instalment) MoneyError
push_first i (err e) = err e
push_first i (ok out) = ok (i ∷ out)

-- `reduce((n, i) => n + i.amountMinor, 0)`.
abbrev pub sum_due : List Instalment → ℕ
sum_due [] = 0
sum_due (i ∷ is) = i.due_minor + sum_due is

-- The catalogue of a new organisation; `direct` is the channel "direct".
abbrev pub default_payment_rules : (id_of : ℕ → EntityId) (name direct : ℕ) → List PaymentRule
default_payment_rules id_of name direct =
    record {
      rule_id = id_of 0;
      rule_name = name;
      trigger = on_confirmation;
      offset_days = pos 0;
      amount = remainder;
      property_ids = [];
      channels = direct ∷ [];
      enabled = true;
      position = 0;
    }
    ∷ []

module _ (floor_quotient : ℕ → ℕ → ℕ → ℕ) where
  -- What a rule asks for of the total, with what is left of it.
  unfoldable pub wanted : PaymentAmount → ℕ → ℕ → ℕ → Result ℤ MoneyError
  wanted (fixed_amount n) total currency left = ok n
  wanted (percent bps) total currency left = bound (money_of (pos total) currency) (λ money.
      bound (allocate floor_quotient money (bps ∷ pos (pos_part (pos 10000 -ℤ bps)) ∷ []))
        (λ amounts. ok (first_minor amounts)))
  wanted remainder total currency left = ok (pos left)

  unfoldable pub pay_rules :
      PaymentPlanInput → ℕ → List PaymentRule → ℕ → Result (List Instalment) MoneyError
  pay_rules input total [] left = ok []
  pay_rules input total (r ∷ rs) left =
      let next = pay_rules input total rs in
      if left == 0
      then ok []
      else bound (wanted r.amount total input.currency left) (λ w.
        let n = taken w left in
        let skipped = next left in
        let given = push_first (instalment_of r input n) (next (left - n)) in
        if n == 0 then skipped else given)

  unfoldable pub plan_payments : PaymentPlanInput → Result (List Instalment) MoneyError
  plan_payments input =
      if input.collected_by_ota
      then ok []
      else (let total = pos_part input.total_minor in
          bound (pay_rules input total (sorted_rules input) total)
            (λ out. ok (sort_by (λ i. i.due_on) out)))

  abbrev pub uncovered_minor : PaymentPlanInput → Result ℕ MoneyError
  unfolding plan_payments
  uncovered_minor input =
      bound (plan_payments input) (λ out. ok (pos_part input.total_minor - sum_due out))
