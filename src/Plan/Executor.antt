-- ===== src/Plan/Executor.antt =====
-- internal/planner/executor.go. Mutations in place become new values: the executor's state is the
-- owner, its plan and the world of the tasks. Logs and metrics are left out.
use sei_k8s_controller.Prelude.{
  ℕ, zero, suc, ◌+◌, ◌*◌, ◌^◌, min, String, Bool, false, ◌&&◌, Option, none, some, List, [], ◌∷◌,
  ltb, str_eq, if◌then◌else◌, length, get_elem?, set,
}
use sei_k8s_controller.Plan.Types.{
  TaskPlanPhase, TaskStatus, SeiNodePhase, PlannedTask, TaskPlan, Owner, sei_node, other_object,
  is_complete, is_pending,
}
use sei_k8s_controller.Plan.Runtime.{
  ExecutionStatus, ExecuteResult, ok, terminal, transient, Deserialized, Runtime,
}

abbrev pub second : ℕ
second = 1000000000

abbrev pub task_poll_interval : ℕ
task_poll_interval = 5 * second

abbrev pub max_retry_backoff : ℕ
max_retry_backoff = 30 * second

-- ctrl.Result: 0 asks for no requeue
pub record Result : Type 0 where
  pub requeue_after : ℕ

abbrev pub result_requeue_immediate : Result
result_requeue_immediate = record { requeue_after = 1000000 }

abbrev pub no_requeue : Result
no_requeue = record { requeue_after = 0 }

abbrev pub poll_again : Result
poll_again = record { requeue_after = task_poll_interval }

pub record State (W : Type 0) : Type 0 where
  pub owner : Owner
  pub plan : TaskPlan
  pub world : W

unfoldable pub needs_submission : PlannedTask → Bool
needs_submission t = is_pending t.status

-- the position of the first task that is not complete, and the task
unfoldable pub current_from : ℕ → List PlannedTask → Option (ℕ × PlannedTask)
current_from i [] = none
current_from i (t ∷ ts) = if is_complete t.status then current_from (suc i) ts else some (i, t)

unfoldable pub current_task : TaskPlan → Option (ℕ × PlannedTask)
unfolding current_from
current_task plan = current_from 0 plan.tasks

unfoldable pub retry_backoff : ℕ → ℕ
retry_backoff attempt =
    let d = task_poll_interval * 2 ^ min attempt 5 in
    if ltb max_retry_backoff d then max_retry_backoff else d

unfoldable pub set_target_phase : ℕ → Owner → Option SeiNodePhase → Owner
set_target_phase now owner none = owner
set_target_phase now (sei_node st) (some p) =
    sei_node (record st { phase = some p; phase_transition_time = some now })
set_target_phase now other_object (some p) = other_object

-- the loop that looks for the failed task's index; `none` if no task has the id
unfoldable pub index_of_id : String → ℕ → List PlannedTask → Option ℕ
index_of_id id i [] = none
index_of_id id i (t ∷ ts) = if str_eq t.id id then some i else index_of_id id (suc i) ts

abbrev pub or_keep : Option ℕ → Option ℕ → Option ℕ
or_keep (some i) old = some i
or_keep none old = old

unfoldable pub observe_config : Owner → String → Owner
observe_config (sei_node st) h =
    if str_eq h "" then sei_node st else sei_node (record st { current_config_values_hash = h })
observe_config other_object h = other_object

module _ {W : Type 0} where
  -- a write through the pointer to task `i` of the plan
  abbrev pub with_task : State W → ℕ → PlannedTask → State W
  with_task s i t = record s { plan = record (s.plan) { tasks = set s.plan.tasks i t } }

  unfoldable pub fail_task : ℕ → State W → ℕ → PlannedTask → String → State W
  unfolding index_of_id set_target_phase
  fail_task now s i t msg =
      let t' = record t { status = TaskStatus.failed; error = msg } in
      let tasks' = set s.plan.tasks i t' in
      record s {
        owner = set_target_phase now s.owner s.plan.failed_phase;
        plan = record (s.plan) {
          tasks = tasks';
          phase = TaskPlanPhase.failed;
          failed_task_index = or_keep (index_of_id t.id 0 tasks') s.plan.failed_task_index;
          failed_task_detail = some (record {
            type = t.type;
            id = t.id;
            error = msg;
            retry_count = t.retry_count;
            max_retries = t.max_retries;
          });
        };
      }

  -- the branch of the loop that finds every task complete
  unfoldable pub complete_plan : ℕ → State W → State W
  unfolding set_target_phase observe_config
  complete_plan now s = record s {
    owner =
        set_target_phase now (observe_config s.owner s.plan.config_values_hash) s.plan.target_phase;
    plan = record (s.plan) { phase = TaskPlanPhase.complete };
  }

-- whether the task behind the pointer is now complete
abbrev pub task_done : List PlannedTask → ℕ → Bool
task_done ts i = elim (get_elem? ts i) [ none ↦ false | some t ↦ is_complete t.status ]

module _ {W E : Type 0} (rt : Runtime W E) where
  unfoldable pub error_message : E → W → String
  error_message e w = elim (rt.err e w) [ none ↦ "unknown error" | some m ↦ m ]

  -- `case task.ExecutionFailed`: a retry while the budget lasts, or else the plan fails
  unfoldable pub on_failed : E → State W → ℕ → PlannedTask → Result × State W
  unfolding error_message fail_task retry_backoff
  on_failed e s i t =
      if ltb 0 t.max_retries && ltb t.retry_count t.max_retries
      then (
        record { requeue_after = retry_backoff (t.retry_count + 1) },
        with_task s i (record t {
          retry_count = t.retry_count + 1;
          status = TaskStatus.pending;
          error = "";
          submitted_at = none;
        }),
      )
      else (no_requeue, fail_task (rt.now s.world) s i t (error_message e s.world))

  -- the switch on the polled status
  unfoldable pub on_status : ExecutionStatus → E → State W → ℕ → PlannedTask → Result × State W
  unfolding on_failed
  on_status ExecutionStatus.running e s i t = (poll_again, with_task s i t)
  on_status ExecutionStatus.complete e s i t =
      (result_requeue_immediate, with_task s i (record t { status = TaskStatus.complete }))
  on_status ExecutionStatus.failed e s i t = on_failed e s i t
  on_status (ExecutionStatus.other _) e s i t = (poll_again, with_task s i t)

  unfoldable pub poll_task : E → State W → ℕ → PlannedTask → Result × State W
  unfolding on_status
  poll_task e s i t =
      let (st, w) = rt.status e s.world in on_status st e (record s { world = w }) i t

  unfoldable pub stamp_submitted : ℕ → PlannedTask → PlannedTask
  stamp_submitted now t = record t {
    submitted_at = some (elim t.submitted_at [ none ↦ now | some first ↦ first ]);
  }

  -- what follows `Execute`
  unfoldable pub on_executed : ExecuteResult → E → State W → ℕ → PlannedTask → Result × State W
  unfolding stamp_submitted poll_task fail_task
  on_executed ok e s i t = poll_task e s i (stamp_submitted (rt.now s.world) t)
  on_executed (terminal msg) e s i t = (no_requeue, fail_task (rt.now s.world) s i t msg)
  on_executed (transient _) e s i t = (poll_again, s)

  unfoldable pub drive_task : E → State W → ℕ → PlannedTask → Result × State W
  unfolding needs_submission on_executed poll_task
  drive_task e s i t =
      if needs_submission t
      then (let (r, w) = rt.execute e s.world in on_executed r e (record s { world = w }) i t)
      else poll_task e s i t

  unfoldable pub on_deserialized : Deserialized E → State W → ℕ → PlannedTask → Result × State W
  unfolding drive_task fail_task
  on_deserialized (Deserialized.task e) s i t = drive_task e s i t
  on_deserialized (Deserialized.error msg) s i t =
      (no_requeue, fail_task (rt.now s.world) s i t msg)

  unfoldable pub advance_task : State W → ℕ → PlannedTask → Result × State W
  unfolding on_deserialized
  advance_task s i t = on_deserialized (rt.deserialize t.type t.id t.params s.world) s i t

  -- the loop; `none` means that the fuel ran out
  unfoldable pub run : ℕ → State W → Option (Result × State W)
  unfolding current_task advance_task complete_plan
  run zero s = none
  run (suc fuel) s = elim (current_task s.plan) [
    | none ↦ some (result_requeue_immediate, complete_plan (rt.now s.world) s)
    | some (i, t) ↦
        let (result, s') = advance_task s i t in
        let rest = run fuel s' in if task_done s'.plan.tasks i then rest else some (result, s')
  ]

  -- executePlan, for a plan that is not nil; a plan has at most as many rounds as tasks, and one
  unfoldable pub execute_plan : State W → Option (Result × State W)
  unfolding run
  execute_plan s = elim s.plan.phase [
    | TaskPlanPhase.complete ↦ some (no_requeue, s)
    | TaskPlanPhase.failed ↦ some (no_requeue, s)
    | TaskPlanPhase.active ↦ run (suc (length s.plan.tasks)) s
  ]
