-- ===== src/Operations/Turnover.antt =====
-- turnover.ts: planning the turnover tasks of a set of stays. Local times "HH:MM" stand for their
-- minutes, which is their order too.
pub mod Planning
use channex_pms.Prelude.{
  ℕ, zero, suc, ◌+◌, ◌-◌, Bool, true, false, not, ◌&&◌, ◌||◌, Option, none, some, List, [], ◌∷◌,
  ◌++◌, if◌then◌else◌, ◌==◌, leb, ltb, nat_eq, pair_eq, map, filter, any, contains, Eq, ◌↔◌, ◌≡◌,
  arith,
}
use channex_pms.Prelude.Maps.{lookup, insert}
use channex_pms.Prelude.Sort.{sort_by}
use channex_pms.Shared.Date.{LocalDate, plus_days}
use channex_pms.Shared.Result.{Result, ok, err}
use channex_pms.Inventory.{EntityId}
use channex_pms.Sync.Build.{group_by}

-- In the order of their texts, which `planTurnovers` sorts by.
pub data TaskType : Type 0 where
  changeover deep departure inspection linen mid_stay : TaskType

abbrev pub type_index : TaskType → ℕ
type_index changeover = 0
type_index deep = 1
type_index departure = 2
type_index inspection = 3
type_index linen = 4
type_index mid_stay = 5

abbrev pub type_eq : TaskType → TaskType → Bool
type_eq a b = type_index a == type_index b

pub type_eq_iff : (a b : TaskType) → (type_eq a b ≡ true) ↔ (a ≡ b)
type_eq_iff a b = ground arith

instance abbrev pub type_has_eq : Eq TaskType
type_has_eq = record { beq = type_eq; beq_iff = type_eq_iff }

pub data StayStatus : Type 0 where
  new modified cancelled_stay : StayStatus

pub record Stay : Type 0 where
  pub stay_booking_id : EntityId
  pub stay_unit_id : EntityId
  pub arrival_date : LocalDate
  pub departure_date : LocalDate
  pub status : StayStatus

pub record PlannedTask : Type 0 where
  pub unit_id : EntityId
  pub task_date : LocalDate
  pub task_type : TaskType
  pub window_from : ℕ
  pub window_to : ℕ
  pub is_same_day : Bool
  pub departing_booking_id : Option EntityId
  pub arriving_booking_id : Option EntityId

pub record PlanningOptions : Type 0 where
  pub check_out_time : ℕ
  pub check_in_time : ℕ
  pub mid_stay_cadence_nights : ℕ
  pub clean_minutes : ℕ
  pub travel_minutes : ℕ

-- DEFAULTS.
abbrev pub default_options : PlanningOptions
default_options = record {
  check_out_time = 600;
  check_in_time = 900;
  mid_stay_cadence_nights = 0;
  clean_minutes = 120;
  travel_minutes = 30;
}

-- `taskKey`: the unit, the date and the type.
abbrev pub TaskKey : Type 0
TaskKey = EntityId × (LocalDate × TaskType)

abbrev pub task_key : PlannedTask → TaskKey
task_key t = (t.unit_id, (t.task_date, t.task_type))

abbrev pub is_cancelled : StayStatus → Bool
is_cancelled cancelled_stay = true
is_cancelled _ = false

abbrev pub is_active : Stay → Bool
is_active s = not (is_cancelled s.status) && ltb s.arrival_date s.departure_date

abbrev pub Tasks : Type 0
Tasks = List (TaskKey × PlannedTask)

-- `out.set(taskKey(task), task)`.
abbrev pub put_task : PlannedTask → Tasks → Tasks
put_task t out = insert (task_key t) t out

-- `new Map(list.map((s) => [s.arrivalDate, s]))`.
arrivals_from : List (LocalDate × Stay) → List Stay → List (LocalDate × Stay)
arrivals_from m [] = m
arrivals_from m (s ∷ stays) = arrivals_from (insert s.arrival_date s m) stays

abbrev pub arrives_same_day : Option Stay → EntityId → Bool
arrives_same_day none booking = false
arrives_same_day (some arriving) booking = not (arriving.stay_booking_id == booking)

abbrev pub booking_of : Option Stay → Option EntityId
booking_of none = none
booking_of (some s) = some s.stay_booking_id

module _ (o : PlanningOptions) where
  -- Check-in less the travel time, which `hhmm` keeps from falling below 0, in the order that the
  -- source adds and subtracts; the check-in time itself where that is not after check-out.
  abbrev pub same_day_window : ℕ
  same_day_window =
      let w = o.check_in_time + o.clean_minutes - (o.clean_minutes + o.travel_minutes) in
      if ltb o.check_out_time w then w else o.check_in_time

  abbrev pub departure_task : EntityId → Option Stay → Stay → PlannedTask
  departure_task unit arriving s =
      let same_day = arrives_same_day arriving s.stay_booking_id in
      record {
        unit_id = unit;
        task_date = s.departure_date;
        task_type = if same_day then changeover else departure;
        window_from = o.check_out_time;
        window_to = if same_day then same_day_window else 1439;
        is_same_day = same_day;
        departing_booking_id = some s.stay_booking_id;
        arriving_booking_id = booking_of arriving;
      }

  abbrev pub mid_stay_task : EntityId → Stay → ℕ → PlannedTask
  mid_stay_task unit s n = record {
    unit_id = unit;
    task_date = plus_days s.arrival_date n;
    task_type = mid_stay;
    window_from = 660;
    window_to = 960;
    is_same_day = false;
    departing_booking_id = some s.stay_booking_id;
    arriving_booking_id = none;
  }

  -- The loop `for (n = cadence; n < nights; n += cadence)`, one round for each night at most.
  mid_stays : ℕ → EntityId → Stay → ℕ → Tasks → Tasks
  mid_stays zero unit s n out = out
  mid_stays (suc rounds) unit s n out =
      let rest =
        mid_stays rounds unit s (n + o.mid_stay_cadence_nights)
          (put_task (mid_stay_task unit s n) out) in
      if ltb n (s.departure_date - s.arrival_date) then rest else out

  plan_stay : EntityId → List (LocalDate × Stay) → Stay → Tasks → Tasks
  unfolding mid_stays
  plan_stay unit arrivals s out =
      let out' = put_task (departure_task unit (lookup s.departure_date arrivals) s) out in
      if ltb 0 o.mid_stay_cadence_nights
      then mid_stays (s.departure_date - s.arrival_date) unit s o.mid_stay_cadence_nights out'
      else out'

  plan_stays : EntityId → List (LocalDate × Stay) → List Stay → Tasks → Tasks
  unfolding plan_stay
  plan_stays unit arrivals [] out = out
  plan_stays unit arrivals (s ∷ stays) out =
      plan_stays unit arrivals stays (plan_stay unit arrivals s out)

  plan_units : List (EntityId × List Stay) → Tasks → Tasks
  unfolding plan_stays arrivals_from
  plan_units [] out = out
  plan_units ((unit, list) ∷ units) out =
      plan_units units (plan_stays unit (arrivals_from [] list) list out)

  -- Sorting by the date, the unit and the type: from the last key to the first, each sort stable.
  abbrev pub in_order : List PlannedTask → List PlannedTask
  in_order ts =
      sort_by (λ t. t.task_date)
        (sort_by (λ t. t.unit_id) (sort_by (λ t. type_index t.task_type) ts))

  unfoldable pub plan_turnovers : List Stay → List PlannedTask
  unfolding plan_units
  plan_turnovers stays =
      in_order
        (map (λ p. p.1) (plan_units (group_by (λ s. s.stay_unit_id) (filter is_active stays)) []))
