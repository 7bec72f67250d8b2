-- ===== src/BookingEngine/Tests.antt =====
-- The theorems on the booking engine at a stay of 500 that is paid in two instalments.
use channex_pms.Prelude.{
  ℕ, ◌*◌, ◌/◌, ◌≤◌, ◌<◌, ◌≡◌, ◌⊎◌, refl, arith, true, false, any, List, [], ◌∷◌, All,
}
use channex_pms.Prelude.Int.{pos, ◌-ℤ◌}
use channex_pms.Prelude.Sort.{sort_by, place}
use channex_pms.Shared.Result.{ok}
use channex_pms.Shared.Money.{money_of}
use channex_pms.Shared.Money.Allocate.{allocate, split, give, moneys_of}
use channex_pms.BookingEngine.PaymentRules.{
  PaymentRule, on_confirmation, before_arrival, percent, remainder, PaymentPlanInput, Instalment,
  sorted_rules, sum_due, wanted, pay_rules, plan_payments,
}
use channex_pms.BookingEngine.PaymentRules.Totals.{is_remainder, plan_payments-total}

abbrev deposit : PaymentRule
deposit = record {
  rule_id = 1;
  rule_name = 10;
  trigger = on_confirmation;
  offset_days = pos 0;
  amount = percent (pos 3000);
  property_ids = [];
  channels = [];
  enabled = true;
  position = 0;
}

abbrev balance : PaymentRule
balance = record deposit {
  rule_id = 2;
  trigger = before_arrival;
  offset_days = pos 7;
  amount = remainder;
  position = 1;
}

abbrev stay : PaymentPlanInput
stay = record {
  rules = balance ∷ deposit ∷ [];
  total_minor = pos 50001;
  currency = 978;
  property_id = 1;
  channel = 2;
  arrival = 100;
  booked_on = 60;
  collected_by_ota = false;
}

abbrev quotient : ℕ → ℕ → ℕ → ℕ
quotient a b d = a * b / d

plan_payments-total_example :
    (out : List Instalment) × (plan_payments quotient stay ≡ ok out)
    × (sum_due out ≤ 50001)
    × All (λ i. 0 < i.due_minor) out
    × ((any is_remainder (sorted_rules stay) ≡ false) ⊎ (sum_due out ≡ 50001))
unfolding sort_by place
plan_payments-total_example =
    plan_payments-total quotient stay (λ a b d h k l. refl) (omega arith) refl refl

stay-paid :
    plan_payments quotient stay
    ≡ ok (
        record { by_rule = 1; name = 10; due_on = 60; due_minor = 15000 }
        ∷ record { by_rule = 2; name = 10; due_on = 93; due_minor = 35001 }
        ∷ [])
unfolding plan_payments pay_rules wanted allocate split give moneys_of money_of sort_by place ◌-ℤ◌
stay-paid = refl
