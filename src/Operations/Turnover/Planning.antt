-- ===== src/Operations/Turnover/Planning.antt =====
-- `planTurnovers` of turnover.ts.
use channex_pms.Prelude.{
  ℕ, zero, suc, ◌+◌, ◌-◌, ◌<◌, ◌≡◌, ◌↔◌, refl, true, Option, List, [], ◌∷◌, ltb, nat_eq, pair_eq,
  map, filter, All, arith, Bool-cases, inl, inr,
}
use channex_pms.Prelude.Maps.{lookup, All-insert}
use channex_pms.Prelude.Sort.{All-sort_by}
use channex_pms.Shared.Date.{LocalDate}
use channex_pms.Inventory.{EntityId}
use channex_pms.Sync.Build.{group_by}
use channex_pms.Operations.Turnover.{
  changeover, type_index, type_has_eq, Stay, PlannedTask, PlanningOptions, task_key, is_active,
  Tasks, put_task, arrives_same_day, departure_task, mid_stay_task, mid_stays, plan_stay,
  plan_stays, plan_units, arrivals_from, in_order, plan_turnovers,
}

-- A same-day task is a changeover and the other way round, and its window is not empty.
abbrev pub IsSound : PlannedTask → Type 0
IsSound t =
    ((t.is_same_day ≡ true) ↔ (t.task_type ≡ changeover))
    × (t.is_same_day ≡ true → t.window_from < t.window_to)

All-values :
    {K : Type 0} (P : PlannedTask → Type 0) (m : List (K × PlannedTask))
    → All (λ q. P q.1) m
    → All P (map (λ q. q.1) m)
All-values P [] h = tt
All-values P ((k, t) ∷ m) (h, hs) = (h, All-values P m hs)

module _ (o : PlanningOptions) (later : o.check_out_time < o.check_in_time) where
  abbrev AllSound : Tasks → Type 0
  AllSound out = All (λ q. IsSound q.1) out

  departure_task-IsSound :
      (unit : EntityId) (arriving : Option Stay) (s : Stay)
      → IsSound (departure_task o unit arriving s)
  departure_task-IsSound unit arriving s =
      elim (Bool-cases (arrives_same_day arriving s.stay_booking_id)) [
        | inl y ↦ rw (y, departure_task) ((λ h. refl, λ h. refl), λ h. ground arith)
        | inr n ↦ rw (n, departure_task) ((λ h. cc, λ h. cc), λ h. cc)
      ]

  put_task-AllSound :
      (t : PlannedTask) (out : Tasks) → IsSound t → AllSound out → AllSound (put_task t out)
  put_task-AllSound t out h hs = All-insert (λ q. IsSound q.1) (task_key t) t out hs h

  mid_stays-AllSound :
      (rounds : ℕ) (unit : EntityId) (s : Stay) (n : ℕ) (out : Tasks)
      → AllSound out
      → AllSound (mid_stays o rounds unit s n out)
  unfolding mid_stays
  mid_stays-AllSound zero unit s n out h = h
  mid_stays-AllSound (suc rounds) unit s n out h =
      elim (Bool-cases (ltb n (s.departure_date - s.arrival_date))) [
        | inl y ↦
            rw (y, mid_stays)
              (mid_stays-AllSound rounds unit s (n + o.mid_stay_cadence_nights)
                (put_task (mid_stay_task o unit s n) out)
                (put_task-AllSound (mid_stay_task o unit s n) out ((λ e. cc, λ e. cc), λ e. cc) h))
        | inr z ↦ rw (z, mid_stays) h
      ]

  plan_stay-AllSound :
      (unit : EntityId) (arrivals : List (LocalDate × Stay)) (s : Stay) (out : Tasks)
      → AllSound out
      → AllSound (plan_stay o unit arrivals s out)
  unfolding plan_stay
  plan_stay-AllSound unit arrivals s out h =
      let t = departure_task o unit (lookup s.departure_date arrivals) s in
      let first =
        put_task-AllSound t out (departure_task-IsSound unit (lookup s.departure_date arrivals) s)
          h in
      elim (Bool-cases (ltb 0 o.mid_stay_cadence_nights)) [
        | inl y ↦
            rw (y, plan_stay)
              (mid_stays-AllSound (s.departure_date - s.arrival_date) unit s
                o.mid_stay_cadence_nights (put_task t out) first)
        | inr z ↦ rw (z, plan_stay) first
      ]

  plan_stays-AllSound :
      (unit : EntityId) (arrivals : List (LocalDate × Stay)) (stays : List Stay) (out : Tasks)
      → AllSound out
      → AllSound (plan_stays o unit arrivals stays out)
  unfolding plan_stays
  plan_stays-AllSound unit arrivals [] out h = h
  plan_stays-AllSound unit arrivals (s ∷ stays) out h =
      plan_stays-AllSound unit arrivals stays (plan_stay o unit arrivals s out)
        (plan_stay-AllSound unit arrivals s out h)

  plan_units-AllSound :
      (units : List (EntityId × List Stay)) (out : Tasks)
      → AllSound out
      → AllSound (plan_units o units out)
  unfolding plan_units
  plan_units-AllSound [] out h = h
  plan_units-AllSound ((unit, list) ∷ units) out h =
      plan_units-AllSound units (plan_stays o unit (arrivals_from [] list) list out)
        (plan_stays-AllSound unit (arrivals_from [] list) list out h)

  in_order-All :
      (P : PlannedTask → Type 0) (ts : List PlannedTask) → All P ts → All P (in_order o ts)
  in_order-All P ts h =
      All-sort_by (λ t. t.task_date) P _
        (All-sort_by (λ t. t.unit_id) P _ (All-sort_by (λ t. type_index t.task_type) P ts h))

  -- Where check-out is before check-in, whatever the stays, the cleaning and the travel times are:
  -- a planned task has the type changeover exactly if it is marked same-day, and then its window
  -- is not empty.
  pub plan_turnovers-AllSound : (stays : List Stay) → All IsSound (plan_turnovers o stays)
  unfolding plan_turnovers
  plan_turnovers-AllSound stays =
      let units = group_by (λ s. s.stay_unit_id) (filter is_active stays) in
      in_order-All IsSound (map (λ p. p.1) (plan_units o units []))
        (All-values IsSound (plan_units o units []) (plan_units-AllSound units [] tt))
