-- ===== src/Operations/Tests.antt =====
-- The theorems on folios and turnover tasks at small inputs.
use channex_pms.Prelude.{
  ℕ, ◌≡◌, refl, Bool, false, some, none, List, [], ◌∷◌, ◌++◌, All, arith, ◌==◌,
}
use channex_pms.Prelude.Int.{pos}
use channex_pms.Shared.Result.{ok}
use channex_pms.Operations.Billing.{
  Payment, held, captured, FolioLine, folio_balance, capture, settle_deposit, NightCharge,
  plan_daily_close,
}
use channex_pms.Operations.Billing.Deposits.{IsSettlement, settle_deposit-balance}
use channex_pms.Operations.Billing.Close.{keys_of, plan_daily_close-again}
use channex_pms.Operations.Turnover.{
  Stay, new, default_options, plan_turnovers, departure, PlannedTask,
}
use channex_pms.Operations.Tasks.{ExistingTask, done, planned}
use channex_pms.Operations.Turnover.Planning.{IsSound, plan_turnovers-AllSound}
use channex_pms.Prelude.Sort.{sort_by, place}
use channex_pms.Operations.Assignment.{
  UnitCandidate, AssignmentRequest, moved, unit_lacks, busy_from, find_unit, pick_unit, assign_all,
  in_check_in_order, auto_assign,
}
use channex_pms.Operations.Assignment.Placed.{placements}
use channex_pms.Operations.Assignment.Overlaps.{AllAlone, double_books, auto_assign-apart}

abbrev is_space : ℕ → Bool
is_space c = c == 32

abbrev deposit : Payment
deposit = record { payment_id = 1; amount_minor = pos 5000; state = held; reason = [] }

abbrev damage : List ℕ
damage = 98 ∷ 32 ∷ []

abbrev taken : Payment
taken = record { payment_id = 1; amount_minor = pos 5000; state = captured; reason = damage }

deposit-taken : settle_deposit is_space deposit capture damage ≡ ok taken
unfolding settle_deposit
deposit-taken = refl

abbrev lines : List FolioLine
lines = record { description = (1, 3); date = 3; line_minor = pos 7000; posting_key = none } ∷ []

settle_deposit-balance_example :
    IsSettlement capture
      (pos 5000)
      (folio_balance lines ([] ++ deposit ∷ []))
      (folio_balance lines ([] ++ taken ∷ []))
settle_deposit-balance_example =
    settle_deposit-balance is_space lines [] [] deposit taken capture damage deposit-taken

abbrev night_charges : List NightCharge
night_charges =
    record { booking_room_id = 4; booking_id = 9; night_date = 3; night_minor = pos 7000; text = 1 }
    ∷ record {
      booking_room_id = 4;
      booking_id = 9;
      night_date = 4;
      night_minor = pos 7500;
      text = 1;
    }
    ∷ []

plan_daily_close-again_example :
    (plan_daily_close 3 night_charges
      ([] ++ keys_of ((plan_daily_close 3 night_charges [] []).postings))
      []).postings
    ≡ []
plan_daily_close-again_example = plan_daily_close-again 3 night_charges [] []

abbrev stays : List Stay
stays =
    record {
      stay_booking_id = 1;
      stay_unit_id = 5;
      arrival_date = 10;
      departure_date = 14;
      status = new;
    }
    ∷ record {
      stay_booking_id = 2;
      stay_unit_id = 5;
      arrival_date = 14;
      departure_date = 15;
      status = new;
    }
    ∷ []

plan_turnovers-AllSound_example : All IsSound (plan_turnovers default_options stays)
plan_turnovers-AllSound_example = plan_turnovers-AllSound default_options (omega arith) stays

abbrev clean : PlannedTask
clean = record {
  unit_id = 5;
  task_date = 14;
  task_type = departure;
  window_from = 600;
  window_to = 1439;
  is_same_day = false;
  departing_booking_id = some 1;
  arriving_booking_id = none;
}

abbrev existing : List ExistingTask
existing =
    record { task = clean; task_id = 1; state = done; assignee_id = none }
    ∷ record {
      task = record clean { task_date = 20 };
      task_id = 2;
      state = planned;
      assignee_id = none;
    }
    ∷ []

abbrev suite : UnitCandidate
suite = record {
  unit_id = 1;
  of_room_type = 4;
  attributes = (7, 1) ∷ [];
  is_out_of_order = false;
  busy = record { from_date = 5; to_date = 9; of_booking = 90 } ∷ [];
}

abbrev other_suite : UnitCandidate
other_suite = record suite { unit_id = 2; attributes = []; busy = [] }

abbrev asking : AssignmentRequest
asking = record {
  for_booking = 31;
  booking_room = 41;
  wanted_room_type = 4;
  check_in = 10;
  check_out = 13;
  wants = (7, 1) ∷ [];
  current_unit = none;
}

abbrev asking_too : AssignmentRequest
asking_too = record asking {
  for_booking = 32;
  booking_room = 42;
  check_in = 12;
  check_out = 15;
  current_unit = some 1;
}

auto_assign-apart_example :
    let requests = asking_too ∷ asking ∷ [] in
    let units = suite ∷ other_suite ∷ [] in
    let ps = placements (in_check_in_order requests) (auto_assign requests units) in
    All (λ p. All (λ c. double_books requests 12 p c ≡ false) units) ps × AllAlone 12 ps
auto_assign-apart_example =
    auto_assign-apart (asking_too ∷ asking ∷ []) (suite ∷ other_suite ∷ []) 12 (refl, (refl, tt))

-- The second stay overlaps the first, and moves to the unit that lacks what it wants.
suites-assigned :
    auto_assign (asking_too ∷ asking ∷ []) (suite ∷ other_suite ∷ [])
    ≡ record { suggested_room = 41; suggested_unit = some 1; warnings = [] }
      ∷ record {
        suggested_room = 42;
        suggested_unit = some 2;
        warnings = moved ∷ unit_lacks 7 1 ∷ [];
      }
      ∷ []
unfolding auto_assign assign_all busy_from pick_unit find_unit sort_by place
suites-assigned = refl
