-- ===== src/Sync/Push/Property/Tests.antt =====
-- The push of one cell: through, answered by a throttle, and behind a probe that is not reported.
use channex_pms.Prelude.{
  ◌≡◌, refl, true, false, none, some, List, [], ◌∷◌, All, nat_eq, pair_eq, list_eq, arith,
}
use channex_pms.Prelude.Int.{pos}
use channex_pms.Prelude.Maps.{lookup, change}
use channex_pms.Shared.Result.{ok, err}
use channex_pms.Inventory.{
  RestrictionValues, rate, num, no_values, with_field, rate_cell, pending, default_batch_limits,
}
use channex_pms.Sync.Samples.{weekday_of, canon, canon-injective, minor}
use channex_pms.Sync.Push.Breaker.{allow}
use channex_pms.Sync.Push.Store.{Row, empty_store, load_pending}
use channex_pms.Sync.Push.Pipeline.{
  ref_has_eq, World, PushContext, PushState, Versions, Entry, plan_entry, no_summary,
  throttle_error, retry_later, circuit_open, run, apply_edits,
}
use channex_pms.Sync.Push.Pipeline.Rows.{rate_key_ref}
use channex_pms.Sync.Push.Pipeline.Run.{reply_status, row_after, run-rows}
use channex_pms.Sync.Push.Pipeline.Accepted.{IsAccepting, IsDone}
use channex_pms.Sync.Push.Property.{push_property}
use channex_pms.Sync.Push.Property.Blocked.{Attempt, attempts_from, empty_push-blocks}
use channex_pms.Sync.Push.Property.Synced.{synced_row, push_property-synced}

abbrev context : PushContext
context = record {
  org_id = 1;
  property_id = 2;
  breaker_options = record { failure_threshold = 5; cooldown_ms = 60 };
  push_limits = default_batch_limits;
  today = none;
  started_at = 170;
  sampled = false;
}

abbrev open_world : World
open_world = record {
  read_reply = λ from to. ok (record { restrictions = []; availability = [] });
  push_reply = λ n kind es. ok (record { accepted = 1; rejected = [] });
  edits_during = λ n. [];
  time_of = λ n. 180;
}

open_world-IsAccepting : IsAccepting open_world
open_world-IsAccepting = (λ n kind es. (1, refl), λ n. refl)

abbrev price : RestrictionValues
price = with_field rate (minor 9900) no_values

abbrev priced : Row RestrictionValues
priced = record {
  desired = price;
  synced_value = none;
  sync_state = pending;
  version = 4;
  last_error = none;
}

abbrev one_cell : PushState
one_cell = record {
  store = record { rate_rows = ((7, 3), priced) ∷ []; availability_rows = [] };
  breakers = [];
  limiter_calls = [];
}

allowed : (allow context.breaker_options 170 1 []).0 ≡ true
unfolding allow
allowed = refl

-- The cell's date is the present day.
abbrev dated : PushContext
dated = record context { today = some 3 }

push_property-synced_example :
    let a = push_property canon weekday_of open_world dated one_cell in
    IsDone a × (lookup (7, 3) a.0.store.rate_rows ≡ some (synced_row priced))
push_property-synced_example =
    push_property-synced canon weekday_of open_world dated open_world-IsAccepting canon-injective
      (omega arith) one_cell (7, 3) priced rate (num (pos 9900)) allowed refl refl (refl, tt) refl
      refl refl

-- The cooldown has passed and nothing is pending.
abbrev half_opened : PushState
half_opened = record {
  store = empty_store;
  breakers = (1, record { failures = 5; opened_at_ms = some 100; probing = false }) ∷ [];
  limiter_calls = [];
}

nothing-pending : load_pending half_opened.store ≡ ([], [])
unfolding load_pending
nothing-pending = refl

-- Two later pushes, of two properties.
abbrev later_attempts : List Attempt
later_attempts =
    record {
      by_world = open_world;
      by_context = record context { started_at = 9000 };
      held = one_cell.store;
    }
    ∷ record {
      by_world = open_world;
      by_context = record context { started_at = 9500; property_id = 3 };
      held = one_cell.store;
    }
    ∷ []

empty_push-blocks_example :
    All
      (λ r. r ≡ err (retry_later 30000 circuit_open))
      (attempts_from canon weekday_of
        (push_property canon weekday_of open_world context half_opened).0.breakers
        later_attempts)
empty_push-blocks_example =
    empty_push-blocks canon weekday_of open_world context half_opened later_attempts refl
      nothing-pending ((refl, (refl, omega arith)), ((refl, (refl, omega arith)), tt))

abbrev busy_world : World
busy_world = record open_world { push_reply = λ n kind es. err (throttle_error (some 2000)) }

abbrev one_entry : List Entry
one_entry =
    plan_entry
      (record { rate_plan_id = 7; date_from = 3; date_to = 3; days = none; values = price })
    ∷ []

abbrev sent : Versions
sent = (rate_key_ref (7, 3), 4) ∷ []

run-rows_example :
    lookup
      (7, 3)
      ((run weekday_of busy_world context rate_cell one_entry sent no_summary
        one_cell).0.store.rate_rows)
    ≡ change
        (row_after
          (lookup (rate_key_ref (7, 3)) sent)
          (reply_status weekday_of (7, 3) one_entry (busy_world.push_reply 0 rate_cell one_entry)))
        (lookup (7, 3) ((apply_edits (busy_world.edits_during 0) one_cell.store).rate_rows))
run-rows_example =
    run-rows weekday_of busy_world context rate_cell one_entry sent no_summary one_cell (7, 3)
