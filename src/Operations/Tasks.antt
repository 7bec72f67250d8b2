-- ===== src/Operations/Tasks.antt =====
-- turnover.ts: re-planning the turnover tasks, the task's state machine and its checklist.
pub mod Replanning
use channex_pms.Prelude.{
  ℕ, Bool, true, false, not, ◌&&◌, Option, none, some, List, [], ◌∷◌, ◌++◌, if◌then◌else◌, ◌==◌,
  nat_eq, pair_eq, map, filter, any,
}
use channex_pms.Prelude.Maps.{lookup, insert}
use channex_pms.Shared.Date.{LocalDate}
use channex_pms.Shared.Result.{Result, ok, err}
use channex_pms.Inventory.{EntityId}
use channex_pms.Operations.Turnover.{TaskType, type_has_eq, PlannedTask, TaskKey, task_key}

pub data TaskState : Type 0 where
  planned assigned accepted on_site done inspected cancelled : TaskState

pub record ExistingTask : Type 0 where
  pub task : PlannedTask
  pub task_id : EntityId
  pub state : TaskState
  pub assignee_id : Option EntityId

pub record ReplanResult : Type 0 where
  pub create : List PlannedTask
  pub cancel : List ExistingTask
  pub changed : List (ExistingTask × PlannedTask)
  pub unchanged : List ExistingTask

abbrev pub option_eq : Option EntityId → Option EntityId → Bool
option_eq none none = true
option_eq (some a) (some b) = a == b
option_eq _ _ = false

abbrev pub bool_eq : Bool → Bool → Bool
bool_eq true b = b
bool_eq false b = not b

abbrev pub same_shape : PlannedTask → PlannedTask → Bool
same_shape a b =
    (a.window_from == b.window_from)
    && ((a.window_to == b.window_to)
        && (bool_eq a.is_same_day b.is_same_day
            && (option_eq a.departing_booking_id b.departing_booking_id
                && option_eq a.arriving_booking_id b.arriving_booking_id)))

-- `done` or `inspected`.
abbrev pub is_finished : TaskState → Bool
is_finished done = true
is_finished inspected = true
is_finished _ = false

-- Neither cancelled nor finished.
abbrev pub is_open : TaskState → Bool
is_open cancelled = false
is_open s = not (is_finished s)

abbrev pub OpenTasks : Type 0
OpenTasks = List (TaskKey × ExistingTask)

abbrev pub open_from : OpenTasks → List ExistingTask → OpenTasks
open_from m [] = m
open_from m (t ∷ ts) = open_from (insert (task_key t.task) t m) ts

abbrev pub open_tasks : List ExistingTask → OpenTasks
open_tasks existing = open_from [] (filter (λ t. is_open t.state) existing)

abbrev pub has_finished : TaskKey → List ExistingTask → Bool
has_finished k = any (λ t. (pair_eq ⦃e = pair_eq⦄).beq (task_key t.task) k && is_finished t.state)

-- One planned task, with the open task of its key if there is one.
abbrev pub replan_one :
    List ExistingTask → PlannedTask → Option ExistingTask → ReplanResult → ReplanResult
replan_one existing p none r =
    if has_finished (task_key p) existing then r else record r { create = r.create ++ p ∷ [] }
replan_one existing p (some cur) r =
    if same_shape cur.task p
    then record r { unchanged = r.unchanged ++ cur ∷ [] }
    else record r { changed = r.changed ++ (cur, p) ∷ [] }

replan_from : List ExistingTask → List PlannedTask → ReplanResult → ReplanResult
replan_from existing [] r = r
replan_from existing (p ∷ ps) r =
    replan_from existing ps (replan_one existing p (lookup (task_key p) (open_tasks existing)) r)

abbrev pub is_seen : TaskKey → List PlannedTask → Bool
is_seen k = any (λ p. (pair_eq ⦃e = pair_eq⦄).beq (task_key p) k)

abbrev pub empty_result : ReplanResult
empty_result = record { create = []; cancel = []; changed = []; unchanged = [] }

unfoldable pub reconcile_tasks : List ExistingTask → List PlannedTask → ReplanResult
unfolding replan_from
reconcile_tasks existing ps = record (replan_from existing ps empty_result) {
  cancel = map (λ q. q.1) (filter (λ q. not (is_seen q.0 ps)) (open_tasks existing));
}

-- TRANSITIONS of a task.
abbrev pub may_move : TaskState → TaskState → Bool
may_move planned assigned = true
may_move planned cancelled = true
may_move assigned accepted = true
may_move assigned planned = true
may_move assigned assigned = true
may_move assigned cancelled = true
may_move accepted on_site = true
may_move accepted assigned = true
may_move accepted cancelled = true
may_move on_site done = true
may_move on_site cancelled = true
may_move done inspected = true
may_move done on_site = true
may_move _ _ = false

unfoldable pub transition_task : TaskState → TaskState → Result TaskState (TaskState × TaskState)
transition_task current next = if may_move current next then ok next else err (current, next)

pub record ChecklistItem : Type 0 where
  pub item_key : EntityId
  pub requires_photo : Bool

pub record ChecklistProgress : Type 0 where
  pub progress_key : EntityId
  pub is_done : Bool
  pub photo_ref : Option EntityId

pub data Blocker : Type 0 where
  not_done needs_photo : EntityId → Blocker

abbrev pub progress_from :
    List (EntityId × ChecklistProgress)
    → List ChecklistProgress
    → List (EntityId × ChecklistProgress)
progress_from m [] = m
progress_from m (p ∷ ps) = progress_from (insert p.progress_key p m) ps

abbrev pub has_photo : Option EntityId → Bool
has_photo none = false
has_photo (some r) = true

-- The blocker of one item, from its latest progress.
abbrev pub item_blockers : ChecklistItem → Option ChecklistProgress → List Blocker
item_blockers it none = not_done it.item_key ∷ []
item_blockers it (some p) =
    if not p.is_done
    then not_done it.item_key ∷ []
    else if it.requires_photo && not (has_photo p.photo_ref)
    then needs_photo it.item_key ∷ []
    else []

abbrev blockers_from : List (EntityId × ChecklistProgress) → List ChecklistItem → List Blocker
blockers_from m [] = []
blockers_from m (it ∷ items) = item_blockers it (lookup it.item_key m) ++ blockers_from m items

unfoldable pub checklist_blockers : List ChecklistItem → List ChecklistProgress → List Blocker
checklist_blockers items progress = blockers_from (progress_from [] progress) items
