-- ===== src/Planner/Hold.antt =====
-- The maintenance hold (internal/planner/maintenance.go).
use sei_k8s_controller.Prelude.{
  ℕ, suc, String, Bool, true, false, not, ◌&&◌, ◌||◌, Option, none, some, List, [], ◌∷◌, ◌++◌,
  str_eq, length, if◌then◌else◌,
}
use sei_k8s_controller.Plan.Types.{TaskPlanPhase, PlannedTask, TaskPlan}
use sei_k8s_controller.Node.{
  MaintenanceHold, ConditionStatus, SeiNode, condition_true, set_condition, same_hold, is_held,
}
use sei_k8s_controller.Planner.TaskTypes as T
use sei_k8s_controller.Planner.Params.{TaskParams, Library}
use sei_k8s_controller.Planner.Tasks.{
  Built, built, refused, and_then, PlanStep, build_planned_task, assemble_steps,
}

abbrev pub step : String → TaskParams → PlanStep
step type params = record { task_type = type; params = params }

abbrev pub observe_step : SeiNode → PlanStep
observe_step node = step T.observe_image (TaskParams.node_ref node.name node.namespace)

abbrev pub mark_not_ready_step : PlanStep
mark_not_ready_step = step T.mark_not_ready TaskParams.no_fields

unfoldable pub record_hold_step : MaintenanceHold → PlanStep
record_hold_step h = step T.record_maintenance_hold (TaskParams.hold h)

unfoldable pub sidecar_gate_open : SeiNode → Bool
unfolding condition_true
sidecar_gate_open node = condition_true "SidecarReady" node

-- The first switch of buildHoldPlan: the hold to apply and the one to apply it from.
unfoldable pub hold_change :
    Bool → MaintenanceHold → MaintenanceHold → Option (MaintenanceHold × MaintenanceHold)
hold_change gate_open want have =
    if is_held want && is_held have && gate_open
    then some (have, MaintenanceHold.no_hold)
    else if same_hold want have
    then none
    else some (want, have)

unfoldable pub ends_in_mark_ready : List PlannedTask → Bool
ends_in_mark_ready [] = false
ends_in_mark_ready (t ∷ []) = str_eq t.type T.mark_ready
ends_in_mark_ready (t ∷ u ∷ us) = ends_in_mark_ready (u ∷ us)

module _ (lib : Library) where
  -- the second switch, with the record step
  unfoldable pub hold_steps : SeiNode → MaintenanceHold → MaintenanceHold → List PlanStep
  unfolding record_hold_step
  hold_steps node MaintenanceHold.immediate have =
      mark_not_ready_step
      ∷ step T.stop_seid (TaskParams.up_check (lib.up_check_of node))
      ∷ record_hold_step MaintenanceHold.immediate
      ∷ []
  hold_steps node MaintenanceHold.after_exit MaintenanceHold.immediate =
      observe_step node
      ∷ step T.start_seid_once TaskParams.no_fields
      ∷ step T.await_seid_start TaskParams.no_fields
      ∷ mark_not_ready_step
      ∷ record_hold_step MaintenanceHold.after_exit
      ∷ []
  hold_steps node MaintenanceHold.after_exit have =
      mark_not_ready_step ∷ record_hold_step MaintenanceHold.after_exit ∷ []
  hold_steps node MaintenanceHold.no_hold have =
      observe_step node
      ∷ step T.mark_ready TaskParams.no_fields
      ∷ record_hold_step MaintenanceHold.no_hold
      ∷ []

  unfoldable pub build_hold_plan :
      String → SeiNode → MaintenanceHold → MaintenanceHold → Built (Option TaskPlan)
  unfolding hold_change sidecar_gate_open hold_steps assemble_steps
  build_hold_plan plan_id node want have = elim (hold_change (sidecar_gate_open node) want have) [
    | none ↦ built none
    | some (to, from) ↦
        and_then (assemble_steps lib plan_id (hold_steps node to from)) (λ p. built (some p))
  ]

  -- The last task becomes the record of the hold; `i` is the position of the list.
  unfoldable pub park_last : String → ℕ → List PlannedTask → Built (List PlannedTask)
  unfolding build_planned_task record_hold_step
  park_last plan_id i [] = refused "plan does not end in mark-ready; cannot park it"
  park_last plan_id i (t ∷ []) =
      let s = record_hold_step MaintenanceHold.immediate in
      if str_eq t.type T.mark_ready
      then and_then (build_planned_task lib plan_id s.task_type i s.params) (λ u. built (u ∷ []))
      else refused "plan does not end in mark-ready; cannot park it"
  park_last plan_id i (t ∷ u ∷ us) =
      and_then (park_last plan_id (suc i) (u ∷ us)) (λ rest. built (t ∷ rest))

  unfoldable pub park_instead_of_release : TaskPlan → Built TaskPlan
  unfolding park_last
  park_instead_of_release plan =
      and_then (park_last plan.id 0 plan.tasks) (λ ts. built (record plan { tasks = ts }))

  unfoldable pub clear_hold_after_release : TaskPlan → Built TaskPlan
  unfolding ends_in_mark_ready record_hold_step build_planned_task
  clear_hold_after_release plan =
      let s = record_hold_step MaintenanceHold.no_hold in
      if ends_in_mark_ready plan.tasks
      then and_then (build_planned_task lib plan.id s.task_type (length plan.tasks) s.params)
          (λ t. built (record plan { tasks = plan.tasks ++ (t ∷ []) }))
      else refused "plan does not end in mark-ready; cannot release from it"

unfoldable pub drop_mark_ready : List PlannedTask → List PlannedTask
drop_mark_ready [] = []
drop_mark_ready (t ∷ ts) =
    let rest = drop_mark_ready ts in if str_eq t.type T.mark_ready then rest else t ∷ rest

unfoldable pub without_mark_ready : TaskPlan → TaskPlan
unfolding drop_mark_ready
without_mark_ready plan = record plan { tasks = drop_mark_ready plan.tasks }

-- whether a task of the plan has the type
unfoldable pub any_type : String → List PlannedTask → Bool
any_type type [] = false
any_type type (t ∷ ts) = str_eq t.type type || any_type type ts

unfoldable pub is_maintenance_plan : TaskPlan → Bool
unfolding any_type
is_maintenance_plan plan = any_type T.record_maintenance_hold plan.tasks

abbrev pub is_active_phase : TaskPlanPhase → Bool
is_active_phase TaskPlanPhase.active = true
is_active_phase _ = false

abbrev pub active_maintenance : Option TaskPlan → Bool
active_maintenance none = false
active_maintenance (some plan) = is_maintenance_plan plan && is_active_phase plan.phase

abbrev pub hold_reason : MaintenanceHold → String
hold_reason MaintenanceHold.after_exit = "Armed"
hold_reason _ = "Held"

unfoldable pub resolve_maintenance : SeiNode → SeiNode
unfolding sidecar_gate_open is_maintenance_plan
resolve_maintenance node =
    let set : ConditionStatus → String → SeiNode =
      λ status reason. set_condition "MaintenanceInProgress" status reason node in
    let want = node.hold_requested in
    let have = node.maintenance_hold in
    if not node.has_node_config
    then set ConditionStatus.is_false "NotApplicable"
    else if active_maintenance node.plan
    then set ConditionStatus.is_true "HoldPending"
    else if not (is_held want) && not (is_held have)
    then set ConditionStatus.is_false "NotHeld"
    else if not (same_hold want have)
    then set ConditionStatus.is_true "HoldPending"
    else if sidecar_gate_open node
    then set ConditionStatus.is_true "HoldPending"
    else set ConditionStatus.is_true (hold_reason have)
