-- ===== src/Planner/Reset.antt =====
-- The declarative data reset (internal/planner/data_reset.go).
use sei_k8s_controller.Prelude.{
  ℕ, String, Bool, true, false, not, ◌&&◌, Option, none, some, List, [], ◌∷◌, ltb, str_eq,
  if◌then◌else◌,
}
use sei_k8s_controller.Prelude.Dict.{lookup}
use sei_k8s_controller.Plan.Types.{
  TaskPlanPhase, PlannedTask, FailedTaskInfo, TaskPlan, is_complete,
}
use sei_k8s_controller.Node.{NodeCondition, ConditionStatus, SeiNode, set_condition, is_running}
use sei_k8s_controller.Drift.Node.{data_reset_pending}
use sei_k8s_controller.Planner.TaskTypes as T
use sei_k8s_controller.Planner.Params.{TaskParams, Library}
use sei_k8s_controller.Planner.Tasks.{Built, and_then, PlanStep, assemble_steps, built}
use sei_k8s_controller.Planner.Hold.{step, observe_step, mark_not_ready_step, any_type}

abbrev pub data_reset_max_retries : ℕ
data_reset_max_retries = 5

abbrev pub reset_steps : Library → SeiNode → List PlanStep
reset_steps lib node =
    observe_step node
    ∷ mark_not_ready_step
    ∷ step T.stop_seid (TaskParams.up_check (lib.up_check_of node))
    ∷ step T.reset_data_keep_sign_state TaskParams.no_fields
    ∷ step T.record_data_reset (TaskParams.reset_generation node.wanted_reset_generation)
    ∷ step T.mark_ready TaskParams.no_fields
    ∷ []

-- the budget of the wipe
unfoldable pub with_reset_retries : List PlannedTask → List PlannedTask
with_reset_retries [] = []
with_reset_retries (t ∷ ts) =
    let rest = with_reset_retries ts in
    if str_eq t.type T.reset_data_keep_sign_state
    then record t { max_retries = data_reset_max_retries } ∷ rest
    else t ∷ rest

unfoldable pub build_data_reset_plan : Library → String → SeiNode → Built TaskPlan
unfolding assemble_steps with_reset_retries
build_data_reset_plan lib plan_id node =
    and_then (assemble_steps lib plan_id (reset_steps lib node))
      (λ plan. built (record plan { tasks = with_reset_retries plan.tasks }))

unfoldable pub is_data_reset_plan : TaskPlan → Bool
unfolding any_type
is_data_reset_plan plan = any_type T.record_data_reset plan.tasks

-- the plan pointer may be nil
abbrev pub carries_reset_plan : Option TaskPlan → Bool
carries_reset_plan none = false
carries_reset_plan (some plan) = is_data_reset_plan plan

unfoldable pub set_data_reset_condition : ConditionStatus → String → SeiNode → SeiNode
unfolding set_condition
set_data_reset_condition status reason node = set_condition "DataResetInProgress" status reason node

abbrev pub reason_or_empty : Option NodeCondition → String
reason_or_empty none = ""
reason_or_empty (some c) = c.reason

unfoldable pub data_reset_reason : SeiNode → String
unfolding lookup
data_reset_reason node = reason_or_empty (lookup "DataResetInProgress" node.conditions)

-- the counter while the node is not Running
unfoldable pub catch_up : SeiNode → SeiNode
catch_up node =
    if not (is_running node.phase) && ltb node.data_reset_generation node.wanted_reset_generation
    then record node { data_reset_generation = node.wanted_reset_generation }
    else node

unfoldable pub resolve_data_reset : SeiNode → SeiNode
unfolding catch_up set_data_reset_condition data_reset_reason is_data_reset_plan data_reset_pending
resolve_data_reset node =
    let kept = catch_up node in
    let reason = data_reset_reason kept in
    if not node.has_node_config
    then set_data_reset_condition ConditionStatus.is_false "NotApplicable" node
    else if carries_reset_plan kept.plan
    then kept
    else if not (data_reset_pending kept)
    then (if str_eq reason "ResetComplete"
        then kept
        else set_data_reset_condition ConditionStatus.is_false "NoResetRequested" kept)
    else if str_eq reason "ResetFailed"
    then kept
    else set_data_reset_condition ConditionStatus.is_true "ResetPending" kept

unfoldable pub mark_data_reset_started : SeiNode → SeiNode
unfolding data_reset_reason set_data_reset_condition
mark_data_reset_started node =
    if str_eq (data_reset_reason node) "ResetFailed"
    then node
    else set_data_reset_condition ConditionStatus.is_true "ResetRunning" node

abbrev pub start_guard_refusal : String
start_guard_refusal = "mark-ready refused by the start guard"

-- the loop of startDeferred: every task before the first mark-ready is complete
unfoldable pub complete_up_to_release : List PlannedTask → Bool
complete_up_to_release [] = false
complete_up_to_release (t ∷ ts) =
    let rest = complete_up_to_release ts in
    if str_eq t.type T.mark_ready then true else if is_complete t.status then rest else false

abbrev pub refused_release : Library → Option FailedTaskInfo → Bool
refused_release lib none = false
refused_release lib (some d) =
    str_eq d.type T.mark_ready && lib.contains d.error start_guard_refusal

unfoldable pub start_deferred : Library → TaskPlan → Bool
unfolding complete_up_to_release
start_deferred lib plan =
    refused_release lib plan.failed_task_detail && complete_up_to_release plan.tasks

-- the reset plan of a node has failed
abbrev pub observe_failed_reset : Library → TaskPlan → SeiNode → SeiNode
observe_failed_reset lib plan node =
    if start_deferred lib plan
    then (if data_reset_pending node
        then set_data_reset_condition ConditionStatus.is_true "ResetPending" node
        else set_data_reset_condition ConditionStatus.is_false "ResetComplete" node)
    else set_data_reset_condition ConditionStatus.is_true "ResetFailed" node

unfoldable pub observe_terminal_data_reset_plan : Library → TaskPlan → SeiNode → SeiNode
unfolding is_data_reset_plan set_data_reset_condition start_deferred data_reset_pending
observe_terminal_data_reset_plan lib plan node =
    if is_data_reset_plan plan
    then elim (plan.phase) [
      | TaskPlanPhase.active ↦ node
      | TaskPlanPhase.complete ↦
          set_data_reset_condition ConditionStatus.is_false "ResetComplete" node
      | TaskPlanPhase.failed ↦ observe_failed_reset lib plan node
    ]
    else node
