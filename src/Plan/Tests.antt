-- ===== src/Plan/Tests.antt =====
-- Runs of the executor on a small runtime, and the theorems about it at concrete plans.
use sei_k8s_controller.Prelude.{
  ℕ, ◌+◌, ◌*◌, ◌≡◌, ◌≢◌, ◌^◌, min, false, refl, String, none, some, List, [], ◌∷◌, inr, arith,
  str_eq, eq_iff, if◌then◌else◌, All,
}
use sei_k8s_controller.Plan.Types.{TaskPlanPhase, TaskStatus, SeiNodePhase, PlannedTask, sei_node}
use sei_k8s_controller.Plan.Runtime.{ExecutionStatus, ok, Deserialized, Runtime}
use sei_k8s_controller.Plan.Executor.{
  State, execute_plan, second, retry_backoff, task_poll_interval, max_retry_backoff,
}
use sei_k8s_controller.Plan.Backoff.{retry_backoff_lem}
use sei_k8s_controller.Plan.Tasks.{Current, AllComplete}
use sei_k8s_controller.Plan.Loop.{Returns}
use sei_k8s_controller.Plan.Outcome.{Outcome, execute_plan-Outcome}
use sei_k8s_controller.Plan.Order.{
  InOrder, InBudget, SamePlan, execute_plan-InOrder, execute_plan-InBudget, execute_plan-SamePlan,
}
use sei_k8s_controller.Plan.Failure.{DistinctIds, failed_task_index_lem}
use sei_k8s_controller.Plan.Liveness.{IsPrompt, execute_plan-finishes}

-- A task of type "fails" fails when polled, and one of type "runs" stays running; the world counts
-- the submissions.
abbrev scripted : Runtime ℕ String
scripted = record {
  deserialize = λ type id params w. Deserialized.task type;
  execute = λ e w. (ok, w + 1);
  status = λ e w. (
    if str_eq e "fails"
        then ExecutionStatus.failed
        else if str_eq e "runs"
        then ExecutionStatus.running
        else ExecutionStatus.complete,
    w,
  );
  err = λ e w. some "boom";
  now = λ w. w;
}

abbrev prompt : Runtime ℕ String
prompt = record {
  deserialize = λ type id params w. Deserialized.task type;
  execute = λ e w. (ok, w + 1);
  status = λ e w. (ExecutionStatus.complete, w);
  err = λ e w. none;
  now = λ w. w;
}

abbrev planned_task : String → String → PlannedTask
planned_task ty name = record {
  type = ty;
  id = name;
  status = TaskStatus.pending;
  params = none;
  submitted_at = none;
  error = "";
  max_retries = 0;
  retry_count = 0;
}

abbrev plan_of : List PlannedTask → State ℕ
plan_of ts = record {
  owner = sei_node (record {
    phase = some SeiNodePhase.initializing;
    phase_transition_time = none;
    current_config_values_hash = "";
  });
  plan = record {
    id = "p";
    phase = TaskPlanPhase.active;
    tasks = ts;
    target_phase = some SeiNodePhase.running;
    config_values_hash = "h";
    failed_phase = some SeiNodePhase.failed;
    failed_task_index = none;
    failed_task_detail = none;
  };
  world = 0;
}

abbrev good_then_fails : State ℕ
good_then_fails =
    plan_of (planned_task "works" "a" ∷ planned_task "fails" "b" ∷ planned_task "works" "c" ∷ [])

abbrev good_then_runs : State ℕ
good_then_runs =
    plan_of (planned_task "works" "a" ∷ planned_task "runs" "b" ∷ planned_task "works" "c" ∷ [])

execute_plan-Outcome_example :
    Returns (Outcome good_then_fails) (execute_plan scripted good_then_fails)
execute_plan-Outcome_example = execute_plan-Outcome scripted good_then_fails refl

execute_plan-InOrder_example :
    Returns (λ _ s. InOrder s.plan.tasks) (execute_plan scripted good_then_runs)
execute_plan-InOrder_example = execute_plan-InOrder scripted good_then_runs refl (
    inr (
      record { pending = refl; unsubmitted = refl },
      (record { pending = refl; unsubmitted = refl }, tt),
    ))

execute_plan-InBudget_example :
    Returns (λ _ s. All InBudget s.plan.tasks) (execute_plan scripted good_then_fails)
execute_plan-InBudget_example = execute_plan-InBudget scripted good_then_fails refl (omega arith)

execute_plan-SamePlan_example :
    Returns
      (λ _ s. SamePlan good_then_fails.plan.tasks s.plan.tasks)
      (execute_plan scripted good_then_fails)
execute_plan-SamePlan_example = execute_plan-SamePlan scripted good_then_fails refl

-- what the pass over the failing plan returns
abbrev failing_pass : State ℕ
failing_pass = elim (execute_plan scripted good_then_fails) [
  | none ↦ good_then_fails
  | some (r, s) ↦ s
]

ne : (s t : String) → str_eq s t ≡ false → s ≢ t
ne s t h = ground (arith, eq_iff s t)

good_then_fails-DistinctIds : DistinctIds good_then_fails.plan.tasks
good_then_fails-DistinctIds =
    ((ne "a" "b" refl, (ne "a" "c" refl, tt)), ((ne "b" "c" refl, tt), (tt, tt)))

pass_fails :
    execute_plan scripted good_then_fails ≡ some (record { requeue_after = 0 }, failing_pass)
unfolding execute_plan
pass_fails = refl

phase_failed : failing_pass.plan.phase ≡ TaskPlanPhase.failed
unfolding execute_plan
phase_failed = refl

failed_task_index_lem_example :
    (i : ℕ) × (t : PlannedTask) × Current failing_pass.plan.tasks i t
    × (failing_pass.plan.failed_task_index ≡ some i)
failed_task_index_lem_example =
    failed_task_index_lem scripted good_then_fails refl good_then_fails-DistinctIds pass_fails
      phase_failed

prompt-IsPrompt : IsPrompt prompt
prompt-IsPrompt = record {
  known = λ type id params w. (type, refl);
  accepted = λ e w. refl;
  completed = λ e w. refl;
}

execute_plan-finishes_example :
    Returns
      (λ _ s. (s.plan.phase ≡ TaskPlanPhase.complete) × AllComplete s.plan.tasks)
      (execute_plan prompt good_then_runs)
execute_plan-finishes_example = execute_plan-finishes prompt prompt-IsPrompt good_then_runs refl

failed_at_second : failing_pass.plan.failed_task_index ≡ some 1
unfolding execute_plan
failed_at_second = refl

third_untouched : Returns (λ _ s. s.world ≡ 2) (execute_plan scripted good_then_fails)
unfolding execute_plan
third_untouched = refl

third_retry : retry_backoff 3 ≡ 30 * second
unfolding retry_backoff
third_retry = refl

retry_backoff_lem_example : retry_backoff 2 ≡ min (task_poll_interval * 2 ^ 2) max_retry_backoff
retry_backoff_lem_example = retry_backoff_lem 2
