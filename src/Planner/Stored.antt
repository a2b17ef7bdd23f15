-- ===== src/Planner/Stored.antt =====
-- Which plan a reconcile leaves on a node whose plan has ended (internal/planner/planner.go:163-247).
use sei_k8s_controller.Prelude.{
  ℕ, ◌≡◌, refl, sym, subst, ◌∙◌, String, false, Option, none, some, if_elim, if_split,
}
use sei_k8s_controller.Plan.Types.{TaskPlan}
use sei_k8s_controller.Node.{SeiNode, set_condition}
use sei_k8s_controller.Drift.Node.{Platform}
use sei_k8s_controller.Drift.Slot.{SlotDecision, drift_slot}
use sei_k8s_controller.Planner.Params.{Library}
use sei_k8s_controller.Planner.Tasks.{Built, built, refused}
use sei_k8s_controller.Planner.Update.{Planning, set_node_update_condition}
use sei_k8s_controller.Planner.Resolve.{
  Reconcile, Resolution, NodePlanner, probe, is_active, handle_terminal_plan,
  state_sync_blocks_plan, peers_block_plan, should_explain_unobserved_config, is_drift_update_plan,
  is_new, store_plan, planner_for, guard, checked, by_planner, validate, build_plan, on_slot, admit,
  plan_with, plan_for, resolve_plan,
}
use sei_k8s_controller.Planner.ModeProgs.{AllPlan, Plans}
use sei_k8s_controller.Planner.Touched.{
  Conditioned, Conditioned-plan, build_plan-Conditioned, probe-Conditioned, cleared-Ended,
}

module _ (P : TaskPlan → Type 0) where
  pub no_plan_on : (a : SeiNode) → a.plan ≡ none → AllPlan P a.plan
  no_plan_on a e = subst (AllPlan P) (sym e) tt

  pub store_plan-All :
      (now : ℕ) (a : SeiNode) (plan : TaskPlan) → P plan → AllPlan P (store_plan now a plan).plan
  unfolding store_plan
  store_plan-All now a plan h = if_elim (λ (n : SeiNode). AllPlan P n.plan) (is_new a.phase) h h

  on_slot-All :
      (now : ℕ) (d : SlotDecision) (a : SeiNode) (plan : TaskPlan)
      → a.plan ≡ none
      → P plan
      → AllPlan P (on_slot now d a plan).node.plan
  unfolding on_slot set_node_update_condition set_condition
  on_slot-All now SlotDecision.free a plan e h = store_plan-All now a plan h
  on_slot-All now (SlotDecision.deferred d) a plan e h = no_plan_on a e
  on_slot-All now (SlotDecision.unreadable m) a plan e h = no_plan_on a e

  module _ (lib : Library) (p : Platform) (env : Reconcile) where
    -- the plan that a resolution leaves on the node
    abbrev Leaves : Resolution → Type 0
    Leaves r = AllPlan P r.node.plan

    guard-Leaves :
        (writer : Option String) (a : SeiNode) (plan : TaskPlan)
        → a.plan ≡ none
        → P plan
        → Leaves (guard lib p env writer a plan)
    unfolding guard set_node_update_condition set_condition
    guard-Leaves (some w) a plan e h = no_plan_on a e
    guard-Leaves none a plan e h =
        if_elim Leaves (is_drift_update_plan p a plan)
          (on_slot-All env.now (drift_slot p env.listed a) a plan e h)
          (store_plan-All env.now a plan h)

    -- what the planner built has `Q`, and the guards leave `P` of it on the node
    pub record Admits (Q : TaskPlan → Type 0) (planned : Planning) : Type 0 where
      pub plans : Plans Q planned
      pub guards :
          (w : Option String) (plan : TaskPlan)
          → planned.node.plan ≡ none
          → Q plan
          → Leaves (guard lib p env w planned.node plan)

    module _ (Q : TaskPlan → Type 0) where
      admit-Leaves :
          (a : SeiNode) (r : Built (Option TaskPlan))
          → a.plan ≡ none
          → Admits Q (record { node = a; result = r })
          → Leaves (admit lib p env a r)
      unfolding admit set_node_update_condition set_condition
      admit-Leaves a (refused m) e h = no_plan_on a e
      admit-Leaves a (built none) e h =
          if_elim (λ (n : SeiNode). AllPlan P n.plan) (should_explain_unobserved_config a)
            (no_plan_on a e) (no_plan_on a e)
      admit-Leaves a (built (some plan)) e h = h.guards _ plan e h.plans

      checked-Leaves :
          (verdict : Option String) (a : SeiNode) (planned : Planning)
          → a.plan ≡ none
          → Conditioned a planned.node
          → Admits Q planned
          → Leaves (checked lib p env verdict a planned)
      checked-Leaves (some m) a planned e c h = no_plan_on a e
      checked-Leaves none a planned e c h =
          admit-Leaves planned.node planned.result (Conditioned-plan a planned.node c ∙ e) h

      by_planner-Leaves :
          (b : Built NodePlanner) (a : SeiNode)
          → a.plan ≡ none
          → ((planner : NodePlanner)
              → b ≡ built planner
              → Admits Q (build_plan lib p env planner a))
          → Leaves (by_planner lib p env b a)
      unfolding plan_with
      by_planner-Leaves (refused m) a e h = no_plan_on a e
      by_planner-Leaves (built planner) a e h =
          checked-Leaves (validate planner a) a (build_plan lib p env planner a) e
            (build_plan-Conditioned lib p env planner a) (h planner refl)

      -- The plan of a node whose earlier plan has ended is none, or what the guards let through of
      -- its planner's plan.
      pub resolve_plan-Admits :
          (a : SeiNode)
          → is_active a.plan ≡ false
          → ((planner : NodePlanner) (cleared : SeiNode)
              → cleared ≡ handle_terminal_plan lib (probe env.health a)
              → planner_for cleared ≡ built planner
              → Admits Q (build_plan lib p env planner cleared))
          → AllPlan P (resolve_plan lib p env a).node.plan
      unfolding resolve_plan plan_for
      resolve_plan-Admits a ended h =
          let same = Conditioned-plan a (probe env.health a) (probe-Conditioned env.health a) in
          let cleared = handle_terminal_plan lib (probe env.health a) in
          let empty : cleared.plan ≡ none = (cleared-Ended lib env.health a ended).no_plan in
          if_split Leaves (is_active (probe env.health a).plan)
            (λ busy. absurd (cc (ended, busy, same)))
            (λ _. if_elim Leaves (state_sync_blocks_plan cleared) (no_plan_on cleared empty) (
              if_elim Leaves (peers_block_plan cleared env.now) (no_plan_on cleared empty) (
                by_planner-Leaves (planner_for cleared) cleared empty
                  (λ planner k. h planner cleared refl k))))

    pub resolve_plan-Leaves :
        (a : SeiNode)
        → is_active a.plan ≡ false
        → ((planner : NodePlanner) (cleared : SeiNode)
            → cleared ≡ handle_terminal_plan lib (probe env.health a)
            → planner_for cleared ≡ built planner
            → Plans P (build_plan lib p env planner cleared))
        → AllPlan P (resolve_plan lib p env a).node.plan
    resolve_plan-Leaves a ended h = resolve_plan-Admits P a ended (λ planner cleared same known.
        record {
          plans = h planner cleared same known;
          guards = λ w plan. guard-Leaves w (build_plan lib p env planner cleared).node plan;
        })
