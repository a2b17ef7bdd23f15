-- ===== src/Planner/Touched.antt =====
-- What planning may change of a node: its conditions, and the plan that has ended.
use sei_k8s_controller.Prelude.{
  ◌≡◌, ◌∙◌, ap, refl, String, Bool, true, false, Option, none, some, List, [], if_elim,
  if◌then◌else◌,
}
use sei_k8s_controller.Prelude.Dict.{Dict}
use sei_k8s_controller.Plan.Types.{TaskPlanPhase, TaskPlan}
use sei_k8s_controller.Node.{NodeCondition, ConditionStatus, SeiNode, set_condition, is_running}
use sei_k8s_controller.Drift.Node.{
  Platform, pod_template_drifted, data_reset_pending, update_in_progress,
}
use sei_k8s_controller.Planner.TaskTypes as T
use sei_k8s_controller.Planner.Params.{Library, needs_validate_node_key}
use sei_k8s_controller.Planner.Tasks.{Built, built, refused}
use sei_k8s_controller.Planner.Config.{config_values_drifted}
use sei_k8s_controller.Planner.Hold.{is_active_phase}
use sei_k8s_controller.Planner.Reset.{
  set_data_reset_condition, mark_data_reset_started, start_deferred, is_data_reset_plan,
  observe_failed_reset, observe_terminal_data_reset_plan,
}
use sei_k8s_controller.Planner.Update.{
  Planning, with_plan, update_result, set_node_update_condition, build_config_update_plan,
  build_running_plan, sidecar_needs_reapproval,
}
use sei_k8s_controller.Planner.Modes.{
  ModePlanner, mode_build_plan, full_build_plan, archive_build_plan, replayer_build_plan,
  validator_build_plan, seed_build_plan,
}
use sei_k8s_controller.Planner.Progression.{is_genesis_ceremony_node, key_gates, gate}
use sei_k8s_controller.Planner.Static.{
  started_reset, or_else, static_running_plan, static_build_plan,
}
use sei_k8s_controller.Planner.Resolve.{
  Health, Reconcile, NodePlanner, probe, probe_sidecar_health, close_update, build_plan,
  handle_terminal_plan, handle_plan, end_plan, is_active,
}

-- the node with other conditions
pub data Conditioned (a : SeiNode) : SeiNode → Type 0 where
  conditioned : (c : Dict NodeCondition) → Conditioned a (record a { conditions = c })

-- the node with other conditions and another plan
pub data Touched (a : SeiNode) : SeiNode → Type 0 where
  touched :
      (c : Dict NodeCondition) (q : Option TaskPlan)
      → Touched a (record a { conditions = c; plan = q })

pub set_condition-Conditioned :
    (type reason : String) (status : ConditionStatus) (a : SeiNode)
    → Conditioned a (set_condition type status reason a)
unfolding set_condition
set_condition-Conditioned type reason status a = Conditioned.conditioned _

pub Conditioned-refl : (a : SeiNode) → Conditioned a a
Conditioned-refl a = Conditioned.conditioned a.conditions

pub Conditioned-plan : (a b : SeiNode) → Conditioned a b → b.plan ≡ a.plan
Conditioned-plan a b (Conditioned.conditioned c) = refl

update_result-Conditioned :
    (reason : String) (a : SeiNode) (b : Built TaskPlan)
    → Conditioned a (update_result reason a b).node
unfolding set_node_update_condition
update_result-Conditioned reason a (built plan) = set_condition-Conditioned _ _ _ a
update_result-Conditioned reason a (refused e) = set_condition-Conditioned _ _ _ a

mark_data_reset_started-Conditioned : (a : SeiNode) → Conditioned a (mark_data_reset_started a)
unfolding mark_data_reset_started set_data_reset_condition
mark_data_reset_started-Conditioned a =
    if_elim (Conditioned a) _ (Conditioned-refl a) (set_condition-Conditioned _ _ _ a)

started_reset-Conditioned :
    (a : SeiNode) (b : Built TaskPlan) → Conditioned a (started_reset a b).node
started_reset-Conditioned a (built plan) = mark_data_reset_started-Conditioned a
started_reset-Conditioned a (refused e) = Conditioned-refl a

or_else-Conditioned :
    (a : SeiNode) (r : Built (Option TaskPlan)) (other : Planning)
    → Conditioned a other.node
    → Conditioned a (or_else a r other).node
or_else-Conditioned a (built none) other h = h
or_else-Conditioned a (built (some plan)) other h = Conditioned-refl a
or_else-Conditioned a (refused e) other h = Conditioned-refl a

-- the node that a planning leaves
record Leaves (a : SeiNode) (pl : Planning) : Type 0 where
  node_is : Conditioned a pl.node

leaves : (a : SeiNode) (pl : Planning) → Conditioned a pl.node → Leaves a pl
leaves a pl h = record { node_is = h }

module _ (lib : Library) (plan_id : String) (p : Platform) where
  build_running_plan-Leaves :
      (gates : List String) (a : SeiNode) → Leaves a (build_running_plan lib plan_id p gates a)
  unfolding build_running_plan build_config_update_plan
  build_running_plan-Leaves gates a =
      if_elim (Leaves a) (pod_template_drifted a p) (leaves a _ (update_result-Conditioned _ a _)) (
        if_elim (Leaves a) (config_values_drifted lib a)
          (leaves a _ (update_result-Conditioned _ a _))
          (if_elim (Leaves a) (sidecar_needs_reapproval a) (leaves a _ (Conditioned-refl a))
            (leaves a _ (Conditioned-refl a))))

  arms :
      (a : SeiNode) (gates : List String) (init : Built TaskPlan)
      → Leaves a (
          if is_running a.phase then build_running_plan lib plan_id p gates a else with_plan a init)
  arms a gates init =
      if_elim (Leaves a) (is_running a.phase) (build_running_plan-Leaves gates a)
        (leaves a _ (Conditioned-refl a))

  validator_arms :
      (a : SeiNode) (gates : List String) (ceremony : Bool) (one other : Built TaskPlan)
      → Leaves a (
          if is_running a.phase
          then build_running_plan lib plan_id p gates a
          else if ceremony
          then with_plan a one
          else with_plan a other)
  validator_arms a gates true one other = arms a gates one
  validator_arms a gates false one other = arms a gates other

  mode_build_plan-Leaves :
      (mode : ModePlanner) (a : SeiNode) → Leaves a (mode_build_plan lib plan_id p mode a)
  unfolding mode_build_plan full_build_plan archive_build_plan replayer_build_plan
      validator_build_plan seed_build_plan
  mode_build_plan-Leaves ModePlanner.full_node a = arms a [] _
  mode_build_plan-Leaves ModePlanner.archive_node a = arms a [] _
  mode_build_plan-Leaves ModePlanner.replayer_node a = arms a [] _
  mode_build_plan-Leaves ModePlanner.validator_node a =
      validator_arms a (key_gates a) (is_genesis_ceremony_node a) _ _
  mode_build_plan-Leaves ModePlanner.seed_node a =
      arms a (gate (needs_validate_node_key a) T.validate_node_key) _

  static_running_plan-Leaves : (a : SeiNode) → Leaves a (static_running_plan lib plan_id p a)
  unfolding static_running_plan
  static_running_plan-Leaves a =
      if_elim (Leaves a) (data_reset_pending a) (leaves a _ (started_reset-Conditioned a _)) (
        leaves a _ (
          or_else-Conditioned a _ _ (
            Leaves.node_is (
              if_elim (Leaves a) (pod_template_drifted a p)
                (leaves a _ (update_result-Conditioned _ a _))
                (if_elim (Leaves a) _ (leaves a _ (Conditioned-refl a))
                  (leaves a _ (Conditioned-refl a)))))))

  static_build_plan-Leaves :
      (mode : ModePlanner) (a : SeiNode) → Leaves a (static_build_plan lib plan_id p mode a)
  unfolding static_build_plan
  static_build_plan-Leaves mode a =
      if_elim (Leaves a) (is_running a.phase) (static_running_plan-Leaves a)
        (leaves a _ (Leaves.node_is (mode_build_plan-Leaves mode a)))

-- A planner writes conditions of the node and nothing else.
pub build_plan-Conditioned :
    (lib : Library) (p : Platform) (env : Reconcile) (planner : NodePlanner) (a : SeiNode)
    → Conditioned a (build_plan lib p env planner a).node
unfolding build_plan
build_plan-Conditioned lib p env (NodePlanner.mode_planner mode) a =
    Leaves.node_is (mode_build_plan-Leaves lib env.plan_id p mode a)
build_plan-Conditioned lib p env (NodePlanner.static_config_planner mode) a =
    Leaves.node_is (static_build_plan-Leaves lib env.plan_id p mode a)

Conditioned-trans : (a b c : SeiNode) → Conditioned a b → Conditioned b c → Conditioned a c
Conditioned-trans a b c (Conditioned.conditioned x) (Conditioned.conditioned y) =
    Conditioned.conditioned y

probe_sidecar_health-Conditioned :
    (h : Health) (a : SeiNode) → Conditioned a (probe_sidecar_health h a)
unfolding probe_sidecar_health
probe_sidecar_health-Conditioned Health.unreachable a = set_condition-Conditioned _ _ _ a
probe_sidecar_health-Conditioned Health.ready a = set_condition-Conditioned _ _ _ a
probe_sidecar_health-Conditioned Health.not_ready a = set_condition-Conditioned _ _ _ a

pub probe-Conditioned : (h : Option Health) (a : SeiNode) → Conditioned a (probe h a)
unfolding probe
probe-Conditioned none a = Conditioned-refl a
probe-Conditioned (some h) a =
    if_elim (Conditioned a) (is_running a.phase) (probe_sidecar_health-Conditioned h a)
      (Conditioned-refl a)

untouched : (a : SeiNode) → Touched a a
untouched a = Touched.touched a.conditions a.plan

after :
    (a : SeiNode) (x : Dict NodeCondition) (c : SeiNode)
    → Touched (record a { conditions = x }) c
    → Touched a c
after a x c (Touched.touched y q) = Touched.touched y q

module _ (lib : Library) where
  observe_failed_reset-Conditioned :
      (plan : TaskPlan) (a : SeiNode) → Conditioned a (observe_failed_reset lib plan a)
  unfolding set_data_reset_condition
  observe_failed_reset-Conditioned plan a =
      if_elim (Conditioned a) (start_deferred lib plan)
        (if_elim (Conditioned a) (data_reset_pending a) (set_condition-Conditioned _ _ _ a)
          (set_condition-Conditioned _ _ _ a))
        (set_condition-Conditioned _ _ _ a)

  by_phase :
      (phase : TaskPlanPhase) (plan : TaskPlan) (a : SeiNode)
      → Conditioned a (elim phase [
        | TaskPlanPhase.active ↦ a
        | TaskPlanPhase.complete ↦
            set_data_reset_condition ConditionStatus.is_false "ResetComplete" a
        | TaskPlanPhase.failed ↦ observe_failed_reset lib plan a
      ])
  unfolding set_data_reset_condition
  by_phase TaskPlanPhase.active plan a = Conditioned-refl a
  by_phase TaskPlanPhase.complete plan a = set_condition-Conditioned _ _ _ a
  by_phase TaskPlanPhase.failed plan a = observe_failed_reset-Conditioned plan a

  observe_terminal_data_reset_plan-Conditioned :
      (plan : TaskPlan) (a : SeiNode) → Conditioned a (observe_terminal_data_reset_plan lib plan a)
  unfolding observe_terminal_data_reset_plan
  observe_terminal_data_reset_plan-Conditioned plan a =
      if_elim (Conditioned a) (is_data_reset_plan plan) (by_phase plan.phase plan a)
        (Conditioned-refl a)

  close_update-Conditioned : (reason : String) (a : SeiNode) → Conditioned a (close_update reason a)
  unfolding close_update set_node_update_condition
  close_update-Conditioned reason a =
      if_elim (Conditioned a) (update_in_progress a) (set_condition-Conditioned _ _ _ a)
        (Conditioned-refl a)

  -- A node without a plan, touched.
  pub record Ended (a b : SeiNode) : Type 0 where
    pub touched_is : Touched a b
    pub no_plan : b.plan ≡ none

  without_plan : (a b : SeiNode) → Conditioned a b → Ended a (record b { plan = none })
  without_plan a b (Conditioned.conditioned c) = record {
    touched_is = Touched.touched c none;
    no_plan = refl;
  }

  by_end :
      (plan : TaskPlan) (a seen : SeiNode)
      → Conditioned a seen
      → is_active_phase plan.phase ≡ false
      → Ended a (end_plan lib plan seen)
  unfolding end_plan
  by_end plan a seen h = phases plan.phase
    where
      phases :
          (phase : TaskPlanPhase)
          → is_active_phase phase ≡ false
          → Ended a (elim phase [
            | TaskPlanPhase.active ↦ seen
            | TaskPlanPhase.complete ↦ record (close_update "UpdateComplete" seen) { plan = none }
            | TaskPlanPhase.failed ↦
                let reason = if start_deferred lib plan then "UpdateComplete" else "UpdateFailed" in
                record (close_update reason seen) { plan = none }
          ])
      phases TaskPlanPhase.active ne = absurd (cc ne)
      phases TaskPlanPhase.complete ne =
          without_plan a _ (Conditioned-trans a seen _ h (close_update-Conditioned _ seen))
      phases TaskPlanPhase.failed ne =
          without_plan a _ (Conditioned-trans a seen _ h (close_update-Conditioned _ seen))

  handle_plan-Ended :
      (o : Option TaskPlan) (a : SeiNode)
      → a.plan ≡ o
      → is_active o ≡ false
      → Ended a (handle_plan lib o a)
  unfolding handle_plan
  handle_plan-Ended none a e ne = record { touched_is = untouched a; no_plan = e }
  handle_plan-Ended (some plan) a e ne =
      by_end plan a _ (observe_terminal_data_reset_plan-Conditioned plan a) ne

  through : (a b c : SeiNode) → Conditioned a b → Ended b c → Ended a c
  through a b c (Conditioned.conditioned x) h = record {
    touched_is = after a x c h.touched_is;
    no_plan = h.no_plan;
  }

  -- What is left of a node whose plan has ended: other conditions, and no plan.
  pub cleared-Ended :
      (h : Option Health) (a : SeiNode)
      → is_active a.plan ≡ false
      → Ended a (handle_terminal_plan lib (probe h a))
  unfolding handle_terminal_plan
  cleared-Ended h a ne =
      let same = Conditioned-plan a (probe h a) (probe-Conditioned h a) in
      through a (probe h a) _ (probe-Conditioned h a)
        (handle_plan-Ended (probe h a).plan (probe h a) refl (ap is_active same ∙ ne))
