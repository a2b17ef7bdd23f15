-- ===== src/Planner/Update.antt =====
-- The plans of a Running node: assembleUpdatePlan and buildMarkReadyPlan (internal/planner/planner.go),
-- config_update.go, and the Running arm that the mode planners share.
use sei_k8s_controller.Prelude.{
  String, Bool, false, ◌||◌, Option, none, some, List, [], ◌∷◌, ◌++◌, str_eq, if◌then◌else◌,
}
use sei_k8s_controller.Prelude.Dict.{lookup}
use sei_k8s_controller.Plan.Types.{TaskPlan}
use sei_k8s_controller.Node.{NodeCondition, ConditionStatus, SeiNode, set_condition}
use sei_k8s_controller.Drift.Node.{Platform, pod_template_drifted}
use sei_k8s_controller.Planner.TaskTypes as T
use sei_k8s_controller.Planner.Params.{
  TaskParams, Library, params_for_update_task, p2p_config_patch, params_for_task_type,
}
use sei_k8s_controller.Planner.Tasks.{
  Built, built, refused, and_then, insert_before, active_plan, steps_of, build_tasks,
  assemble_steps,
}
use sei_k8s_controller.Planner.Config.{with_config_values, config_values_drifted}
use sei_k8s_controller.Planner.Hold.{step}

-- What a builder leaves: the node, whose conditions it may have written, and a plan, no plan or an
-- error.
pub record Planning : Type 0 where
  pub node : SeiNode
  pub result : Built (Option TaskPlan)

-- the result of a builder that leaves the node alone
abbrev pub with_plan : SeiNode → Built TaskPlan → Planning
with_plan node b = record { node = node; result = and_then b (λ p. built (some p)) }

unfoldable pub set_node_update_condition : ConditionStatus → String → SeiNode → SeiNode
unfolding set_condition
set_node_update_condition status reason node =
    set_condition "NodeUpdateInProgress" status reason node

abbrev pub not_ready : Option NodeCondition → Bool
not_ready none = false
not_ready (some c) = elim (c.status) [
  | ConditionStatus.is_false ↦ str_eq c.reason "NotReady"
  | _ ↦ false
]

unfoldable pub sidecar_needs_reapproval : SeiNode → Bool
unfolding lookup
sidecar_needs_reapproval node = not_ready (lookup "SidecarReady" node.conditions)

-- A planner that found no work.
abbrev pub no_plan : SeiNode → Planning
no_plan node = record { node = node; result = built none }

-- the deferred function of an assembler, and the caller's success
abbrev pub update_result : String → SeiNode → Built TaskPlan → Planning
update_result reason node (built plan) = record {
  node = set_node_update_condition ConditionStatus.is_true reason node;
  result = built (some plan);
}
update_result reason node (refused e) = record {
  node = set_node_update_condition ConditionStatus.is_false "UpdatePlanBuildFailed" node;
  result = refused e;
}

abbrev pub config_update_progression : List String
config_update_progression = T.config_patch ∷ T.config_validate ∷ T.mark_ready ∷ T.restart_seid ∷ []

abbrev pub update_progression : List String → List String
update_progression gates =
    gates
    ++ (T.apply_statefulset ∷ T.apply_service ∷ T.config_patch ∷ T.config_validate ∷ T.replace_pod
        ∷ T.observe_image ∷ T.mark_ready ∷ [])

module _ (lib : Library) (plan_id : String) where
  unfoldable pub build_mark_ready_plan : SeiNode → Built TaskPlan
  unfolding assemble_steps params_for_task_type
  build_mark_ready_plan node =
      let params = params_for_task_type lib node T.mark_ready none none in
      assemble_steps lib plan_id (step T.mark_ready params ∷ [])

  -- assembleUpdatePlan, without the condition that it sets on an error
  unfoldable pub assemble_update_plan : SeiNode → List String → TaskParams → Built TaskPlan
  unfolding insert_before config_values_drifted params_for_update_task build_tasks
      with_config_values
  assemble_update_plan node prog patched =
      let params : String → TaskParams = λ type. params_for_update_task lib node type patched in
      and_then
        (if str_eq node.current_config_values_hash "" || config_values_drifted lib node
          then insert_before prog T.config_patch T.config_apply
          else built prog)
        (λ full.
          and_then (build_tasks lib plan_id 0 (steps_of params full))
            (λ tasks. with_config_values lib (active_plan plan_id tasks none) node))

  unfoldable pub build_config_update_plan : SeiNode → Planning
  unfolding assemble_update_plan p2p_config_patch set_node_update_condition
  build_config_update_plan node =
      update_result "ConfigUpdateStarted" node
        (assemble_update_plan node config_update_progression (p2p_config_patch lib node))

  -- The Running arm of every mode, which differ in the key validations that come first.
  unfoldable pub build_running_plan : Platform → List String → SeiNode → Planning
  unfolding pod_template_drifted assemble_update_plan p2p_config_patch set_node_update_condition
      config_values_drifted build_config_update_plan sidecar_needs_reapproval build_mark_ready_plan
  build_running_plan p gates node =
      if pod_template_drifted node p
      then update_result "UpdateStarted" node
          (assemble_update_plan node (update_progression gates) (p2p_config_patch lib node))
      else if config_values_drifted lib node
      then build_config_update_plan node
      else if sidecar_needs_reapproval node
      then with_plan node (build_mark_ready_plan node)
      else no_plan node
