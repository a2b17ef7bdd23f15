-- ===== src/Planner/Tasks.antt =====
-- How planned tasks and progressions are made: insertBefore, buildPlannedTask and assembleSteps
-- (internal/planner/planner.go and maintenance.go).
use sei_k8s_controller.Prelude.{
  ℕ, suc, String, Bool, false, ◌||◌, Option, none, some, List, [], ◌∷◌, str_eq, if◌then◌else◌,
}
use sei_k8s_controller.Plan.Types.{TaskPlanPhase, TaskStatus, SeiNodePhase, PlannedTask, TaskPlan}
use sei_k8s_controller.Planner.TaskTypes as T
use sei_k8s_controller.Planner.Params.{TaskParams, Encoded, Library}

-- A value or an error.
pub data Built {ℓ} (A : Type ℓ) : Type ℓ where
  built : A → Built A
  refused : String → Built A

-- the early return on an error
abbrev pub and_then {ℓ} : {A B : Type ℓ} → Built A → (A → Built B) → Built B
and_then (built a) f = f a
and_then (refused e) f = refused e

-- planStep
pub record PlanStep : Type 0 where
  pub task_type : String
  pub params : TaskParams

abbrev pub task_retries : ℕ
task_retries = 180

unfoldable pub task_max_retries : String → ℕ
task_max_retries type =
    if str_eq type T.configure_genesis
    then task_retries
    else if str_eq type T.assemble_genesis
    then task_retries
    else if str_eq type T.replace_pod
    then 3
    else 0

-- slices.Contains
unfoldable pub contains : String → List String → Bool
contains s [] = false
contains s (t ∷ ts) = str_eq t s || contains s ts

-- `type` in front of the first `target`, if there is one
unfoldable pub spliced : String → String → List String → Option (List String)
spliced target type [] = none
spliced target type (t ∷ ts) =
    let rest = spliced target type ts in
    if str_eq t target
    then some (type ∷ t ∷ ts)
    else elim rest [ none ↦ none | some out ↦ some (t ∷ out) ]

unfoldable pub insert_before : List String → String → String → Built (List String)
unfolding contains spliced
insert_before prog target type =
    if contains type prog then built prog else elim (spliced target type prog) [
      | some out ↦ built out
      | none ↦ refused "insertBefore: target not found in progression"
    ]

-- A plan under construction: Active, and aimed at Running.
abbrev pub active_plan : String → List PlannedTask → Option SeiNodePhase → TaskPlan
active_plan plan_id tasks failed_phase = record {
  id = plan_id;
  phase = TaskPlanPhase.active;
  tasks = tasks;
  target_phase = some SeiNodePhase.running;
  config_values_hash = "";
  failed_phase = failed_phase;
  failed_task_index = none;
  failed_task_detail = none;
}

-- each task of a progression with its params
abbrev pub steps_of : (String → TaskParams) → List String → List PlanStep
steps_of params [] = []
steps_of params (t ∷ ts) = record { task_type = t; params = params t } ∷ steps_of params ts

module _ (lib : Library) (plan_id : String) where
  -- the task, once its params are JSON
  abbrev pub planned_task : String → ℕ → Encoded → Built PlannedTask
  planned_task type index (Encoded.failed e) = refused e
  planned_task type index (Encoded.json raw) = built (record {
    type = type;
    id = lib.task_id plan_id type index;
    status = TaskStatus.pending;
    params = some raw;
    submitted_at = none;
    error = "";
    max_retries = task_max_retries type;
    retry_count = 0;
  })

  unfoldable pub build_planned_task : String → ℕ → TaskParams → Built PlannedTask
  unfolding task_max_retries
  build_planned_task type index params = planned_task type index (lib.marshal params)

  -- the loop of every builder over its progression, from position `i`
  unfoldable pub build_tasks : ℕ → List PlanStep → Built (List PlannedTask)
  unfolding build_planned_task
  build_tasks i [] = built []
  build_tasks i (s ∷ ss) =
      and_then (build_planned_task s.task_type i s.params)
        (λ t. and_then (build_tasks (suc i) ss) (λ ts. built (t ∷ ts)))

  unfoldable pub assemble_steps : List PlanStep → Built TaskPlan
  unfolding build_tasks
  assemble_steps steps =
      and_then (build_tasks 0 steps) (λ tasks. built (active_plan plan_id tasks none))
