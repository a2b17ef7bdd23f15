-- ===== src/Planner/Resolve.antt =====
-- `ResolvePlan` (internal/planner/planner.go:163-354): what a reconcile does with the plan of a
-- node. One instant stands for the clock of the reconcile; metrics are left out.
use sei_k8s_controller.Prelude.{
  ℕ, ◌+◌, ◌*◌, String, Bool, true, false, not, ◌&&◌, ◌||◌, Option, none, some, List, [], ◌∷◌, ltb,
  str_eq, if◌then◌else◌,
}
use sei_k8s_controller.Prelude.Dict.{lookup}
use sei_k8s_controller.Plan.Types.{TaskPlanPhase, SeiNodePhase, PlannedTask, TaskPlan}
use sei_k8s_controller.Plan.Executor.{second}
use sei_k8s_controller.Node.{
  NodeCondition, ConditionStatus, SeiNode, found_true, set_condition, is_running, snapshot_source,
}
use sei_k8s_controller.Drift.Node.{Platform, update_in_progress, pod_template_drifted}
use sei_k8s_controller.Drift.Slot.{Listed, SlotDecision, drift_slot}
use sei_k8s_controller.Planner.TaskTypes as T
use sei_k8s_controller.Planner.Params.{Library}
use sei_k8s_controller.Planner.Tasks.{Built, built, refused, and_then}
use sei_k8s_controller.Planner.Config.{is_nil, mounted_config_writer_in_plan}
use sei_k8s_controller.Planner.Progression.{needs_state_sync_witnesses}
use sei_k8s_controller.Planner.Hold.{any_type, is_maintenance_plan, is_active_phase}
use sei_k8s_controller.Planner.Reset.{
  is_data_reset_plan, start_deferred, observe_terminal_data_reset_plan,
}
use sei_k8s_controller.Planner.Update.{Planning, set_node_update_condition}
use sei_k8s_controller.Planner.Modes.{ModePlanner, planner_for_mode, mode_validate, mode_build_plan}
use sei_k8s_controller.Planner.Static.{static_build_plan}

-- the answer of the sidecar's Healthz
pub data Health : Type 0 where
  unreachable ready not_ready : Health

-- What a reconcile brings: the new plan's id, the time, the namespace's nodes (`none` for a
-- resolver without a reader) and the sidecar's answer (`none` where there is no client).
pub record Reconcile : Type 0 where
  pub plan_id : String
  pub now : ℕ
  pub listed : Option Listed
  pub health : Option Health

pub record Resolution : Type 0 where
  pub node : SeiNode
  pub error : Option String

unfoldable pub probe_sidecar_health : Health → SeiNode → SeiNode
unfolding set_condition
probe_sidecar_health Health.unreachable node =
    set_condition "SidecarReady" ConditionStatus.unknown "Unreachable" node
probe_sidecar_health Health.ready node =
    set_condition "SidecarReady" ConditionStatus.is_true "Ready" node
probe_sidecar_health Health.not_ready node =
    set_condition "SidecarReady" ConditionStatus.is_false "NotReady" node

unfoldable pub probe : Option Health → SeiNode → SeiNode
unfolding probe_sidecar_health
probe none node = node
probe (some h) node = if is_running node.phase then probe_sidecar_health h node else node

-- The labels are data-reset, maintenance-hold, node-update, init, config-update,
-- mark-ready-reapply and unknown.
pub data PlanClass : Type 0 where
  data_reset maintenance_hold node_update init config_update mark_ready_reapply unknown : PlanClass

abbrev pub is_single_mark_ready : List PlannedTask → Bool
is_single_mark_ready (t ∷ []) = str_eq t.type T.mark_ready
is_single_mark_ready _ = false

-- the loop over the tasks, and `after` for a plan that it does not classify
unfoldable pub class_of_tasks : PlanClass → List PlannedTask → PlanClass
class_of_tasks after [] = after
class_of_tasks after (t ∷ ts) =
    let rest = class_of_tasks after ts in
    if str_eq t.type T.observe_image
    then PlanClass.node_update
    else if str_eq t.type T.ensure_data_pvc
    then PlanClass.init
    else if str_eq t.type T.restart_seid
    then PlanClass.config_update
    else rest

unfoldable pub classify_plan : TaskPlan → PlanClass
unfolding is_data_reset_plan is_maintenance_plan any_type class_of_tasks
classify_plan plan =
    if is_data_reset_plan plan
    then PlanClass.data_reset
    else if is_maintenance_plan plan && not (any_type T.ensure_data_pvc plan.tasks)
    then PlanClass.maintenance_hold
    else class_of_tasks
        (if is_single_mark_ready plan.tasks
          then PlanClass.mark_ready_reapply
          else PlanClass.unknown)
        plan.tasks

abbrev pub is_node_update : PlanClass → Bool
is_node_update PlanClass.node_update = true
is_node_update _ = false

unfoldable pub is_drift_update_plan : Platform → SeiNode → TaskPlan → Bool
unfolding pod_template_drifted classify_plan
is_drift_update_plan p node plan =
    pod_template_drifted node p && is_node_update (classify_plan plan)

-- the end of a plan in the condition NodeUpdateInProgress
unfoldable pub close_update : String → SeiNode → SeiNode
unfolding update_in_progress set_node_update_condition
close_update reason node =
    if update_in_progress node
    then set_node_update_condition ConditionStatus.is_false reason node
    else node

-- the switch on the plan's phase
unfoldable pub end_plan : Library → TaskPlan → SeiNode → SeiNode
unfolding close_update start_deferred
end_plan lib plan seen = elim (plan.phase) [
  | TaskPlanPhase.active ↦ seen
  | TaskPlanPhase.complete ↦ record (close_update "UpdateComplete" seen) { plan = none }
  | TaskPlanPhase.failed ↦
      let reason = if start_deferred lib plan then "UpdateComplete" else "UpdateFailed" in
      record (close_update reason seen) { plan = none }
]

-- by the plan of the node
unfoldable pub handle_plan : Library → Option TaskPlan → SeiNode → SeiNode
unfolding observe_terminal_data_reset_plan end_plan
handle_plan lib none node = node
handle_plan lib (some plan) node =
    end_plan lib plan (observe_terminal_data_reset_plan lib plan node)

unfoldable pub handle_terminal_plan : Library → SeiNode → SeiNode
unfolding handle_plan
handle_terminal_plan lib node = handle_plan lib node.plan node

abbrev pub present_and_not_true : Option NodeCondition → Bool
present_and_not_true none = false
present_and_not_true (some c) = not (found_true (some c))

unfoldable pub state_sync_blocks_plan : SeiNode → Bool
unfolding needs_state_sync_witnesses snapshot_source lookup
state_sync_blocks_plan node =
    not (is_running node.phase)
    && needs_state_sync_witnesses (snapshot_source node)
    && present_and_not_true (lookup "StateSyncReady" node.conditions)

abbrev pub peer_resolution_wait : ℕ
peer_resolution_wait = 600 * second

unfoldable pub peers_block_plan : SeiNode → ℕ → Bool
peers_block_plan node now =
    not (is_running node.phase)
    && is_nil node.resolved_peers
    && node.label_peers
    && ltb now (node.creation_timestamp + peer_resolution_wait)

unfoldable pub is_update_failure_reason : String → Bool
is_update_failure_reason reason =
    str_eq reason "UpdateFailed" || str_eq reason "UpdatePlanBuildFailed"

abbrev pub failure_kept : Option NodeCondition → Bool
failure_kept none = false
failure_kept (some c) = is_update_failure_reason c.reason

unfoldable pub should_explain_unobserved_config : SeiNode → Bool
unfolding lookup is_update_failure_reason
should_explain_unobserved_config node =
    is_running node.phase
    && str_eq node.current_config_values_hash ""
    && not (is_nil node.config_values)
    && not (failure_kept (lookup "NodeUpdateInProgress" node.conditions))

abbrev pub is_new : Option SeiNodePhase → Bool
is_new none = true
is_new (some SeiNodePhase.pending) = true
is_new _ = false

unfoldable pub store_plan : ℕ → SeiNode → TaskPlan → SeiNode
store_plan now node plan =
    if is_new node.phase
    then record node {
      plan = some plan;
      phase = some SeiNodePhase.initializing;
      phase_transition_time = some now;
    }
    else record node { plan = some plan }

-- the planner of a node
pub data NodePlanner : Type 0 where
  mode_planner static_config_planner : ModePlanner → NodePlanner

unfoldable pub planner_for : SeiNode → Built NodePlanner
unfolding planner_for_mode
planner_for node = and_then (planner_for_mode node) (λ mode. built (
    if node.has_node_config
    then NodePlanner.static_config_planner mode
    else NodePlanner.mode_planner mode))

unfoldable pub validate : NodePlanner → SeiNode → Option String
unfolding mode_validate
validate (NodePlanner.mode_planner mode) node = mode_validate mode node
validate (NodePlanner.static_config_planner mode) node = mode_validate mode node

abbrev pub is_active : Option TaskPlan → Bool
is_active none = false
is_active (some plan) = is_active_phase plan.phase

-- a drift update under the decision of the budget
unfoldable pub on_slot : ℕ → SlotDecision → SeiNode → TaskPlan → Resolution
unfolding store_plan set_node_update_condition
on_slot now SlotDecision.free node plan = record { node = store_plan now node plan; error = none }
on_slot now (SlotDecision.deferred d) node plan = record {
  node = set_node_update_condition ConditionStatus.is_false "UpdateDeferred" node;
  error = none;
}
on_slot now (SlotDecision.unreadable e) node plan = record {
  node = set_node_update_condition ConditionStatus.is_false "UpdateDeferred" node;
  error = some e;
}

module _ (lib : Library) (p : Platform) (env : Reconcile) where
  unfoldable pub build_plan : NodePlanner → SeiNode → Planning
  unfolding mode_build_plan static_build_plan
  build_plan (NodePlanner.mode_planner mode) node = mode_build_plan lib env.plan_id p mode node
  build_plan (NodePlanner.static_config_planner mode) node =
      static_build_plan lib env.plan_id p mode node

  -- the guards on a plan that was built, the first of them by the writer that was found
  unfoldable pub guard : Option String → SeiNode → TaskPlan → Resolution
  unfolding set_node_update_condition is_drift_update_plan on_slot drift_slot store_plan
  guard (some writer) node plan = record {
    node = set_node_update_condition ConditionStatus.is_false "UpdatePlanBuildFailed" node;
    error = some "plan carries a task that writes a mounted file";
  }
  guard none node plan =
      if is_drift_update_plan p node plan
      then on_slot env.now (drift_slot p env.listed node) node plan
      else record { node = store_plan env.now node plan; error = none }

  -- what follows BuildPlan
  unfoldable pub admit : SeiNode → Built (Option TaskPlan) → Resolution
  unfolding should_explain_unobserved_config set_node_update_condition mounted_config_writer_in_plan
      guard
  admit node (refused e) = record { node = node; error = some e }
  admit node (built none) = record {
    node =
        if should_explain_unobserved_config node
        then set_node_update_condition ConditionStatus.is_false "ConfigBaselineUnobserved" node
        else node;
    error = none;
  }
  admit node (built (some plan)) = guard (mounted_config_writer_in_plan node (some plan)) node plan

  -- the plan of a node that the planner's checks reject or let pass
  abbrev pub checked : Option String → SeiNode → Planning → Resolution
  checked (some e) node planned = record { node = node; error = some e }
  checked none node planned = admit planned.node planned.result

  unfoldable pub plan_with : NodePlanner → SeiNode → Resolution
  unfolding validate build_plan admit
  plan_with planner node = checked (validate planner node) node (build_plan planner node)

  abbrev pub by_planner : Built NodePlanner → SeiNode → Resolution
  by_planner (refused e) node = record { node = node; error = some e }
  by_planner (built planner) node = plan_with planner node

  unfoldable pub plan_for : SeiNode → Resolution
  unfolding planner_for plan_with
  plan_for node = by_planner (planner_for node) node

  unfoldable pub resolve_plan : SeiNode → Resolution
  unfolding probe handle_terminal_plan state_sync_blocks_plan peers_block_plan plan_for
  resolve_plan node =
      let probed = probe env.health node in
      let cleared = handle_terminal_plan lib probed in
      if is_active probed.plan
      then record { node = probed; error = none }
      else if state_sync_blocks_plan cleared
      then record { node = cleared; error = none }
      else if peers_block_plan cleared env.now
      then record { node = cleared; error = none }
      else plan_for cleared
