-- ===== src/Operations/Tasks/Replanning.antt =====
-- `reconcileTasks` of turnover.ts.
use channex_pms.Prelude.{◌≡◌, true, false, none, List, nat_eq, pair_eq, All}
use channex_pms.Prelude.Maps.{lookup}
use channex_pms.Operations.Turnover.{type_has_eq, PlannedTask, task_key}
use channex_pms.Operations.Tasks.{
  ExistingTask, ReplanResult, same_shape, is_open, OpenTasks, open_tasks, has_finished,
}

abbrev pub IsOpen : ExistingTask → Type 0
IsOpen t = is_open t.state ≡ true

-- No open and no finished task has the key of the task.
abbrev pub IsMissing : List ExistingTask → PlannedTask → Type 0
IsMissing existing p =
    (lookup (task_key p) (open_tasks existing) ≡ none)
    × (has_finished (task_key p) existing ≡ false)

-- A kept task whose window or bookings moved, with the task that it becomes.
abbrev pub IsChange : ExistingTask × PlannedTask → Type 0
IsChange (t, p) = (is_open t.state ≡ true) × (same_shape t.task p ≡ false)

-- Of the tasks kept or changed, each is open; the created ones are missing.
abbrev pub IsReplan : List ExistingTask → ReplanResult → Type 0
IsReplan existing r =
    All (IsMissing existing) r.create
    × All IsOpen r.cancel
    × All IsChange r.changed
    × All IsOpen r.unchanged

abbrev AllOpen : OpenTasks → Type 0
AllOpen m = All (λ q. is_open q.1.state ≡ true) m
