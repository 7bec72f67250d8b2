-- ===== src/Operations/Billing.antt =====
-- billing.ts: folio balances, deposits, the tourist tax and the daily close. A text stands for its
-- number, except a reason, which is trimmed and so is a list of characters. The fresh id of a posted
-- line is left out.
pub mod Deposits
pub mod Close
use channex_pms.Prelude.{
  ℕ, ◌+◌, ◌-◌, ◌*◌, min, Bool, true, false, not, ◌&&◌, ◌||◌, Option, none, some, List, [], ◌∷◌,
  if◌then◌else◌, ◌==◌, leb, ltb, nat_eq, pair_eq, map, filter, length, all, any,
}
use channex_pms.Prelude.Int.{ℤ, pos, ◌+ℤ◌, ◌-ℤ◌, ◌*ℤ◌, round_div, ltb_ℤ, sub_ℕ}
use channex_pms.Prelude.Sort.{sort_by}
use channex_pms.Shared.Date.{LocalDate, days_until}
use channex_pms.Shared.Result.{Result, ok, err}
use channex_pms.Inventory.{EntityId}

pub data PaymentState : Type 0 where
  captured held released refunded : PaymentState

abbrev pub state_index : PaymentState → ℕ
state_index captured = 0
state_index held = 1
state_index released = 2
state_index refunded = 3

abbrev pub is_state : PaymentState → PaymentState → Bool
is_state s t = state_index t == state_index s

pub record Payment : Type 0 where
  pub payment_id : EntityId
  pub amount_minor : ℤ
  pub state : PaymentState
  pub reason : List ℕ

pub record FolioLine : Type 0 where
  pub description : ℕ × LocalDate
  pub date : LocalDate
  pub line_minor : ℤ
  pub posting_key : Option (EntityId × LocalDate)

pub record FolioBalance : Type 0 where
  pub charges_minor : ℤ
  pub paid_minor : ℤ
  pub held_minor : ℤ
  pub balance_minor : ℤ

-- `reduce((a, x) => a + x, a)`.
abbrev pub sum_from : ℤ → List ℤ → ℤ
sum_from a [] = a
sum_from a (x ∷ xs) = sum_from (a +ℤ x) xs

abbrev pub sum_in : PaymentState → List Payment → ℤ
sum_in s payments =
    sum_from (pos 0) (map (λ p. p.amount_minor) (filter (λ p. is_state s p.state) payments))

unfoldable pub folio_balance : List FolioLine → List Payment → FolioBalance
folio_balance lines payments =
    let charges = sum_from (pos 0) (map (λ l. l.line_minor) lines) in
    let paid = sum_in captured payments -ℤ sum_in refunded payments in
    record {
      charges_minor = charges;
      paid_minor = paid;
      held_minor = sum_in held payments;
      balance_minor = charges -ℤ paid;
    }

pub data DepositAction : Type 0 where
  capture release : DepositAction

pub data DepositError : Type 0 where
  not_held : PaymentState → DepositError
  reason_required : DepositError

abbrev pub settled_state : DepositAction → PaymentState
settled_state capture = captured
settled_state release = released

-- `is_space` tells the characters that `trim` removes.
unfoldable pub settle_deposit :
    (ℕ → Bool) → Payment → DepositAction → List ℕ → Result Payment DepositError
settle_deposit is_space p action reason =
    if not (is_state held p.state)
    then err (not_held p.state)
    else if all is_space reason
    then err reason_required
    else ok (record p { state = settled_state action; reason = reason })

pub record TouristTaxRule : Type 0 where
  pub per_person_per_night_minor : ℤ
  pub exempt_under_age : Option ℕ
  pub max_nights : Option ℕ

pub record TouristTax : Type 0 where
  pub tax_minor : ℤ
  pub nights_charged : ℕ
  pub persons_charged : ℕ

abbrev pub capped : Option ℕ → ℕ → ℕ
capped none nights = nights
capped (some m) nights = min nights m

abbrev pub is_charged : Option ℕ → Option ℕ → Bool
is_charged none age = true
is_charged (some limit) none = true
is_charged (some limit) (some age) = leb limit age

-- The nights are `max(0, arrival.daysUntil(departure))`.
unfoldable pub tourist_tax : TouristTaxRule → LocalDate → LocalDate → List (Option ℕ) → TouristTax
tourist_tax rule arrival departure ages =
    let nights = capped rule.max_nights (departure - arrival) in
    let persons = length (filter (is_charged rule.exempt_under_age) ages) in
    record {
      tax_minor = rule.per_person_per_night_minor *ℤ pos nights *ℤ pos persons;
      nights_charged = nights;
      persons_charged = persons;
    }

pub record NightCharge : Type 0 where
  pub booking_room_id : EntityId
  pub booking_id : EntityId
  pub night_date : LocalDate
  pub night_minor : ℤ
  pub text : ℕ

pub record DailyClose : Type 0 where
  pub postings : List (EntityId × FolioLine)
  pub flags : List (EntityId × ℤ)

abbrev pub posting_key_of : NightCharge → EntityId × LocalDate
posting_key_of n = (n.booking_room_id, n.night_date)

abbrev pub room_line : NightCharge → FolioLine
room_line n = record {
  description = (n.text, n.night_date);
  date = n.night_date;
  line_minor = n.night_minor;
  posting_key = some (posting_key_of n);
}

abbrev pub has_key : EntityId × LocalDate → List (EntityId × LocalDate) → Bool
has_key k = any (λ j. pair_eq.beq j k)

unfoldable pub postings_for :
    LocalDate → List (EntityId × LocalDate) → List NightCharge → List (EntityId × FolioLine)
postings_for day existing [] = []
postings_for day existing (n ∷ nights) =
    let rest = postings_for day existing nights in
    if not (n.night_date == day)
    then rest
    else if has_key (posting_key_of n) existing
    then rest
    else (n.booking_id, room_line n) ∷ rest

abbrev pub is_zero : ℤ → Bool
is_zero (pos n) = n == 0
is_zero _ = false

unfoldable pub plan_daily_close :
    LocalDate → List NightCharge → List (EntityId × LocalDate) → List (EntityId × ℤ) → DailyClose
plan_daily_close day nights existing departed = record {
  postings = postings_for day existing nights;
  flags = filter (λ d. not (is_zero d.1)) departed;
}

-- `roomLines`: the nights of a booked room in the order of their dates.
unfoldable pub room_lines : EntityId → List (LocalDate × ℤ) → ℕ → List FolioLine
unfolding sort_by
room_lines room days text =
    map
      (λ d. record {
        description = (text, d.0);
        date = d.0;
        line_minor = d.1;
        posting_key = some (room, d.0);
      })
      (sort_by (λ d. d.0) days)

pub data CancellationPolicy : Type 0 where
  flexible : (free_until_days_before : ℤ) (late_fee_percent : ℤ) → CancellationPolicy
  non_refundable first_night : CancellationPolicy

unfoldable pub cancellation_fee : CancellationPolicy → LocalDate → ℤ → ℤ → LocalDate → ℤ
unfolding days_until
cancellation_fee non_refundable arrival total first cancelled_on = total
cancellation_fee first_night arrival total first cancelled_on = first
cancellation_fee (flexible free_until percent) arrival total first cancelled_on =
    if not (ltb_ℤ (days_until cancelled_on arrival) free_until)
    then pos 0
    else round_div (total *ℤ percent) 100
