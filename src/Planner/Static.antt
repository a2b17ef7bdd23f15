-- ===== src/Planner/Static.antt =====
-- The planner of a node whose configuration comes from ConfigMaps: staticConfigPlanner
-- (internal/planner/static_config.go:76-219).
use sei_k8s_controller.Prelude.{
  String, Bool, true, not, ◌&&◌, Option, none, some, List, [], ◌∷◌, ◌++◌, if◌then◌else◌,
}
use sei_k8s_controller.Plan.Types.{TaskPlan}
use sei_k8s_controller.Node.{SeiNode, is_held, is_running}
use sei_k8s_controller.Drift.Node.{Platform, pod_template_drifted, data_reset_pending}
use sei_k8s_controller.Planner.TaskTypes as T
use sei_k8s_controller.Planner.Params.{TaskParams, Library, params_for_update_task}
use sei_k8s_controller.Planner.Tasks.{Built, built, refused, and_then, steps_of, assemble_steps}
use sei_k8s_controller.Planner.Progression.{key_gates}
use sei_k8s_controller.Planner.Hold.{
  build_hold_plan, park_instead_of_release, clear_hold_after_release, without_mark_ready,
}
use sei_k8s_controller.Planner.Reset.{build_data_reset_plan, mark_data_reset_started}
use sei_k8s_controller.Planner.Update.{
  Planning, with_plan, no_plan, update_result, sidecar_needs_reapproval, build_mark_ready_plan,
}
use sei_k8s_controller.Planner.Modes.{ModePlanner, mode_build_plan}

abbrev pub started_reset : SeiNode → Built TaskPlan → Planning
started_reset node (built plan) = record {
  node = mark_data_reset_started node;
  result = built (some plan);
}
started_reset node (refused e) = record { node = node; result = refused e }

-- a result that is an error or a plan, or else what the following arms give
abbrev pub or_else : SeiNode → Built (Option TaskPlan) → Planning → Planning
or_else node (built none) other = other
or_else node (built (some plan)) other = record { node = node; result = built (some plan) }
or_else node (refused e) other = record { node = node; result = refused e }

module _ (lib : Library) where
  -- what the init plan of a held node becomes
  abbrev pub park_result : Bool → Built (Option TaskPlan) → Built (Option TaskPlan)
  park_result true (built (some plan)) =
      and_then (park_instead_of_release lib plan) (λ parked. built (some parked))
  park_result _ result = result

  module _ (plan_id : String) where
    unfoldable pub static_update_plan : SeiNode → Built TaskPlan
    unfolding key_gates params_for_update_task assemble_steps
    static_update_plan node =
        let prog : List String =
          key_gates node
          ++ (T.apply_statefulset ∷ T.apply_service ∷ T.observe_image ∷ T.mark_ready ∷ []) in
        let params : String → TaskParams =
          λ type. params_for_update_task lib node type TaskParams.empty_patch in
        assemble_steps lib plan_id (steps_of params prog)

    -- the reset plan and the switch after it
    unfoldable pub static_reset_plan : SeiNode → Built TaskPlan
    unfolding build_data_reset_plan park_instead_of_release clear_hold_after_release
    static_reset_plan node = and_then (build_data_reset_plan lib plan_id node) (λ plan.
        if is_held node.hold_requested
        then park_instead_of_release lib plan
        else if is_held node.maintenance_hold
        then clear_hold_after_release lib plan
        else built plan)

    unfoldable pub static_running_plan : Platform → SeiNode → Planning
    unfolding data_reset_pending static_reset_plan mark_data_reset_started build_hold_plan
        pod_template_drifted static_update_plan without_mark_ready sidecar_needs_reapproval
        build_mark_ready_plan
    static_running_plan p node =
        let held = is_held node.hold_requested in
        if data_reset_pending node
        then started_reset node (static_reset_plan node)
        else or_else node
            (build_hold_plan lib plan_id node node.hold_requested node.maintenance_hold)
            (if pod_template_drifted node p
              then update_result "UpdateStarted" node (
                  and_then (static_update_plan node)
                    (λ plan. built (if held then without_mark_ready plan else plan)))
              else if sidecar_needs_reapproval node && not held
              then with_plan node (build_mark_ready_plan lib plan_id node)
              else no_plan node)

    unfoldable pub static_build_plan : Platform → ModePlanner → SeiNode → Planning
    unfolding static_running_plan mode_build_plan park_instead_of_release
    static_build_plan p mode node =
        let planned = mode_build_plan lib plan_id p mode node in
        if is_running node.phase
        then static_running_plan p node
        else record planned { result = park_result (is_held node.hold_requested) planned.result }
