-- ===== src/Planner/Safety.antt =====
-- What holds of every plan that a reconcile stores (internal/planner/planner.go:163-247 and
-- static_config.go).
use sei_k8s_controller.Prelude.{
  ◌≡◌, ◌⊎◌, refl, ap, sym, subst, ◌∙◌, inl, inr, true, false, none, some, List, [], ◌∷◌, if_elim,
  if_split, if◌then◌else◌, All, arith,
}
use sei_k8s_controller.Plan.Types.{TaskPlanPhase, PlannedTask, TaskPlan}
use sei_k8s_controller.Plan.Failure.{DistinctIds}
use sei_k8s_controller.Node.{SeiNode, is_held, is_running}
use sei_k8s_controller.Drift.Node.{Platform}
use sei_k8s_controller.Planner.TaskTypes as T
use sei_k8s_controller.Planner.Params.{Library}
use sei_k8s_controller.Planner.Tasks.{Built, built, refused}
use sei_k8s_controller.Planner.Config.{first_writer, mounted_config_writer_in_plan}
use sei_k8s_controller.Planner.Progression.{is_genesis_ceremony_node}
use sei_k8s_controller.Planner.Modes.{ModePlanner, mode_build_plan, planner_for_mode}
use sei_k8s_controller.Planner.Static.{static_build_plan}
use sei_k8s_controller.Planner.Resolve.{
  Reconcile, NodePlanner, is_active, planner_for, build_plan, resolve_plan,
}
use sei_k8s_controller.Planner.Avoids.{Holds, avoids}
use sei_k8s_controller.Planner.Made.{Holds-and_then, IsFresh, types}
use sei_k8s_controller.Planner.ModeProgs.{AllPlan, Plans, Plans-map}
use sei_k8s_controller.Planner.ModePlans.{ModePlan, mode_build_plan-Plans}
use sei_k8s_controller.Planner.Edits.{IsCollisionFree, Numbered-fresh, Numbered-DistinctIds}
use sei_k8s_controller.Planner.StaticPlans.{Sound, Made-Sound, StaticPlan}
use sei_k8s_controller.Planner.StaticRunning.{without_ceremony, static_build_plan-Plans}
use sei_k8s_controller.Planner.Touched.{Touched, cleared-Ended}
use sei_k8s_controller.Planner.Stored.{resolve_plan-Leaves}

-- A plan that the executor can start: active, every task unsent, no two of them with one id.
pub record Startable (plan : TaskPlan) : Type 0 where
  pub active : plan.phase ≡ TaskPlanPhase.active
  pub clean : plan.failed_task_detail ≡ none
  pub fresh : All IsFresh plan.tasks
  pub distinct : DistinctIds plan.tasks

-- the planner of a node, by where its configuration comes from
pub data PlannerOf (a : SeiNode) : NodePlanner → Type 0 where
  by_mode :
      (mode : ModePlanner) → a.has_node_config ≡ false → PlannerOf a (NodePlanner.mode_planner mode)
  static :
      (mode : ModePlanner)
      → a.has_node_config ≡ true
      → PlannerOf a (NodePlanner.static_config_planner mode)

any_result : {A : Type 0} (b : Built A) → Holds (λ (x : A). Unit {0}) b
any_result (built a) = tt
any_result (refused e) = tt

planner_for-Holds : (a : SeiNode) → Holds (PlannerOf a) (planner_for a)
unfolding planner_for
planner_for-Holds a =
    Holds-and_then (λ _. Unit) (PlannerOf a) (planner_for_mode a) _
      (any_result (planner_for_mode a))
      (λ mode _.
        if_split (PlannerOf a) a.has_node_config (λ own. PlannerOf.static mode own)
          (λ own. PlannerOf.by_mode mode own))

pub planner_for-PlannerOf :
    (a : SeiNode) (planner : NodePlanner) → planner_for a ≡ built planner → PlannerOf a planner
planner_for-PlannerOf a planner h = subst (Holds (PlannerOf a)) h (planner_for-Holds a)

spec_of :
    (a b : SeiNode)
    → Touched a b
    → (b.has_node_config ≡ a.has_node_config) × (b.hold_requested ≡ a.hold_requested)
spec_of a b (Touched.touched c q) = (refl, refl)

first_writer-none :
    (ts : List PlannedTask)
    → avoids T.mounted_config_writers (types ts) ≡ true
    → first_writer ts ≡ none
unfolding first_writer avoids
first_writer-none [] h = refl
first_writer-none (t ∷ ts) h = let ih = first_writer-none ts in ground (arith, ih)

module _ (lib : Library) (p : Platform) (env : Reconcile) where
  ModePlan-Sound :
      (a : SeiNode) (plan : TaskPlan)
      → ModePlan lib env.plan_id p a plan
      → Sound lib env.plan_id plan
  ModePlan-Sound a plan (inl m) = Made-Sound lib env.plan_id _ plan m.1.made
  ModePlan-Sound a plan (inr m) = Made-Sound lib env.plan_id _ plan m.1.made

  build_plan-Sound :
      (planner : NodePlanner) (a : SeiNode)
      → PlannerOf a planner
      → Plans (Sound lib env.plan_id) (build_plan lib p env planner a)
  unfolding build_plan
  build_plan-Sound planner a (PlannerOf.by_mode mode nc) =
      Plans-map (ModePlan lib env.plan_id p a) (Sound lib env.plan_id)
        (mode_build_plan lib env.plan_id p mode a) (mode_build_plan-Plans lib env.plan_id p mode a)
        (ModePlan-Sound a)
  build_plan-Sound planner a (PlannerOf.static mode nc) =
      Plans-map
        (StaticPlan lib env.plan_id (is_held a.hold_requested) (without_ceremony lib env.plan_id a))
        (Sound lib env.plan_id) (static_build_plan lib env.plan_id p mode a)
        (static_build_plan-Plans lib env.plan_id p mode a nc) (λ plan s. s.sound)

  Sound-Startable :
      IsCollisionFree lib → (plan : TaskPlan) → Sound lib env.plan_id plan → Startable plan
  Sound-Startable c plan s = record {
    active = s.active;
    clean = s.clean;
    fresh = Numbered-fresh lib env.plan_id 0 plan.tasks s.numbered;
    distinct = Numbered-DistinctIds lib env.plan_id c 0 plan.tasks s.numbered;
  }

  -- Given that task ids do not collide: a reconcile of a node that has no active plan leaves the
  -- node without a plan, or with one that the executor can start: active, without a recorded
  -- failure, its tasks pending, unsent and never retried, with params, and no two with one id.
  pub resolve_plan-Startable :
      IsCollisionFree lib
      → (a : SeiNode) → is_active a.plan ≡ false
      → AllPlan Startable (resolve_plan lib p env a).node.plan
  resolve_plan-Startable c a ended =
      resolve_plan-Leaves Startable lib p env a ended (λ planner cleared _ known.
        Plans-map (Sound lib env.plan_id) Startable (build_plan lib p env planner cleared)
          (build_plan-Sound planner cleared (planner_for-PlannerOf cleared planner known))
          (Sound-Startable c))

  no_ceremony :
      (a : SeiNode)
      → (is_running a.phase ≡ true) ⊎ (is_genesis_ceremony_node a ≡ false)
      → without_ceremony lib env.plan_id a ≡ true
  no_ceremony a (inl r) = ground (arith, r)
  no_ceremony a (inr c) = ground (arith, c)

  unrefused :
      (planner : NodePlanner) (a : SeiNode)
      → PlannerOf a planner
      → (a.has_node_config ≡ true
          → (is_running a.phase ≡ true) ⊎ (is_genesis_ceremony_node a ≡ false))
      → Plans
          (λ plan. mounted_config_writer_in_plan a (some plan) ≡ none)
          (build_plan lib p env planner a)
  unfolding build_plan mounted_config_writer_in_plan
  unrefused planner a (PlannerOf.by_mode mode nc) safe =
      Plans-map (ModePlan lib env.plan_id p a)
        (λ plan. (if a.has_node_config then first_writer plan.tasks else none) ≡ none)
        (mode_build_plan lib env.plan_id p mode a) (mode_build_plan-Plans lib env.plan_id p mode a)
        (λ plan _. ap (λ b. if b then first_writer plan.tasks else none) nc)
  unrefused planner a (PlannerOf.static mode nc) safe =
      Plans-map
        (StaticPlan lib env.plan_id (is_held a.hold_requested) (without_ceremony lib env.plan_id a))
        (λ plan. (if a.has_node_config then first_writer plan.tasks else none) ≡ none)
        (static_build_plan lib env.plan_id p mode a)
        (static_build_plan-Plans lib env.plan_id p mode a nc)
        (λ plan s.
          if_elim (λ w. w ≡ none) a.has_node_config
            (first_writer-none plan.tasks (s.no_writer (no_ceremony a (safe nc)))) refl)

  -- Given that a node whose configuration comes from ConfigMaps is running or takes part in no
  -- genesis ceremony: the plan that a node's own planner builds carries no task that would write a
  -- mounted file, so the guard of a reconcile does not refuse it. Of a node without ConfigMaps
  -- nothing is asked.
  pub build_plan-unrefused :
      (planner : NodePlanner) (a : SeiNode)
      → planner_for a ≡ built planner
      → (a.has_node_config ≡ true
          → (is_running a.phase ≡ true) ⊎ (is_genesis_ceremony_node a ≡ false))
      → Plans
          (λ plan. mounted_config_writer_in_plan a (some plan) ≡ none)
          (build_plan lib p env planner a)
  build_plan-unrefused planner a known safe =
      unrefused planner a (planner_for-PlannerOf a planner known) safe

  parked :
      (planner : NodePlanner) (a : SeiNode)
      → PlannerOf a planner
      → a.has_node_config ≡ true
      → is_held a.hold_requested ≡ true
      → Plans
          (λ plan. avoids (T.mark_ready ∷ []) (types plan.tasks) ≡ true)
          (build_plan lib p env planner a)
  unfolding build_plan
  parked planner a (PlannerOf.by_mode mode other) nc held = absurd (cc (other, nc))
  parked planner a (PlannerOf.static mode own) nc held =
      Plans-map
        (StaticPlan lib env.plan_id (is_held a.hold_requested) (without_ceremony lib env.plan_id a))
        (λ plan. avoids (T.mark_ready ∷ []) (types plan.tasks) ≡ true)
        (static_build_plan lib env.plan_id p mode a)
        (static_build_plan-Plans lib env.plan_id p mode a own) (λ plan s. s.no_release held)

  -- While a hold is requested on a node whose configuration comes from ConfigMaps, a reconcile
  -- that finds no active plan stores no plan with a mark-ready task.
  pub resolve_plan-held :
      (a : SeiNode)
      → is_active a.plan ≡ false
      → a.has_node_config ≡ true
      → is_held a.hold_requested ≡ true
      → AllPlan
          (λ plan. avoids (T.mark_ready ∷ []) (types plan.tasks) ≡ true)
          (resolve_plan lib p env a).node.plan
  resolve_plan-held a ended nc held =
      resolve_plan-Leaves (λ plan. avoids (T.mark_ready ∷ []) (types plan.tasks) ≡ true) lib p env a
        ended
        (λ planner cleared same known.
          let (own, hold) =
            spec_of a cleared
              (subst (Touched a) (sym same) (cleared-Ended lib env.health a ended).touched_is) in
          parked planner cleared (planner_for-PlannerOf cleared planner known) (own ∙ nc)
            (ap is_held hold ∙ held))
