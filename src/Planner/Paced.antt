-- ===== src/Planner/Paced.antt =====
-- The drift-roll budget on the update plans of the modes (internal/planner/planner.go:222-234 and
-- drift_budget.go:169-173).
use sei_k8s_controller.Prelude.{
  ◌≡◌, refl, ap, sym, subst, ◌∙◌, inl, inr, String, true, false, ◌||◌, Option, none, some, List, [],
  ◌∷◌, if_split, arith, str_eq, eq_iff,
}
use sei_k8s_controller.Prelude.Dict.{Dict}
use sei_k8s_controller.Plan.Types.{PlannedTask, TaskPlan}
use sei_k8s_controller.Node.{NodeCondition, SeiNode, set_condition, is_running}
use sei_k8s_controller.Drift.Node.{
  Platform, pod_template_drifted, image_drifted, sidecar_image_drifted, effective_sidecar_image,
  node_isolation_drifted, effective_node_isolation, node_pool_drifted, requested_node_pool,
}
use sei_k8s_controller.Drift.Slot.{Listed, SlotDecision, drift_slot}
use sei_k8s_controller.Planner.TaskTypes as T
use sei_k8s_controller.Planner.Params.{Library, needs_validate_node_key}
use sei_k8s_controller.Planner.Tasks.{contains}
use sei_k8s_controller.Planner.Hold.{any_type, is_maintenance_plan}
use sei_k8s_controller.Planner.Reset.{is_data_reset_plan}
use sei_k8s_controller.Planner.Update.{update_progression, set_node_update_condition}
use sei_k8s_controller.Planner.Resolve.{
  Reconcile, Resolution, NodePlanner, PlanClass, is_active, class_of_tasks, classify_plan,
  is_drift_update_plan, on_slot, guard, build_plan, resolve_plan,
}
use sei_k8s_controller.Planner.Modes.{mode_build_plan}
use sei_k8s_controller.Planner.Avoids.{
  avoids, avoids-append, avoids-gate, contains-append, Inserted-avoids, Inserted-contains,
  overlaid-avoids, overlaid-contains,
}
use sei_k8s_controller.Planner.Made.{types, Made}
use sei_k8s_controller.Planner.ModeProgs.{Edited, Gates, RunningProg, AllPlan, Plans-map}
use sei_k8s_controller.Planner.ModePlans.{ModePlan, mode_build_plan-Plans}
use sei_k8s_controller.Planner.StaticTypes.{avoids-contains, key_gates-avoids}
use sei_k8s_controller.Planner.Touched.{Conditioned, Touched, cleared-Ended, build_plan-Conditioned}
use sei_k8s_controller.Planner.Stored.{Admits, resolve_plan-Admits, store_plan-All, no_plan_on}
use sei_k8s_controller.Planner.Safety.{PlannerOf, planner_for-PlannerOf}

-- the types that would give a plan another class
abbrev other_marks : List String
other_marks =
    T.record_data_reset ∷ T.record_maintenance_hold ∷ T.ensure_data_pvc ∷ T.restart_seid ∷ []

-- The types of an update plan.
record UpdateTypes (ts : List String) : Type 0 where
  unmarked : avoids other_marks ts ≡ true
  observes : contains T.observe_image ts ≡ true

Gates-avoids :
    (node : SeiNode) (gates : List String) → Gates node gates → avoids other_marks gates ≡ true
unfolding avoids contains
Gates-avoids node gates Gates.no_gates = refl
Gates-avoids node gates Gates.all_keys = key_gates-avoids other_marks node refl refl refl
Gates-avoids node gates Gates.node_key =
    avoids-gate other_marks (needs_validate_node_key node) T.validate_node_key refl

update_progression-UpdateTypes :
    (node : SeiNode) (gates : List String)
    → Gates node gates
    → UpdateTypes (update_progression gates)
unfolding avoids contains
update_progression-UpdateTypes node gates g = record {
  unmarked = avoids-append other_marks gates _ (Gates-avoids node gates g) refl;
  observes = contains-append T.observe_image gates _ refl;
}

Edited-UpdateTypes : (prog out : List String) → Edited prog out → UpdateTypes prog → UpdateTypes out
unfolding avoids contains
Edited-UpdateTypes prog out (inl e) u = subst UpdateTypes (sym e) u
Edited-UpdateTypes prog out (inr i) u = record {
  unmarked = Inserted-avoids other_marks i refl u.unmarked;
  observes = Inserted-contains T.observe_image i u.observes;
}

Made-UpdateTypes :
    (lib : Library) (plan_id : String) (prog : List String) (plan : TaskPlan)
    → UpdateTypes prog
    → Made lib plan_id prog plan
    → UpdateTypes (types plan.tasks)
unfolding contains
Made-UpdateTypes lib plan_id prog plan u m = elim (m.laid) [
  | inl l ↦ subst UpdateTypes (sym l) u
  | inr l ↦ subst UpdateTypes (sym l.0) (record {
    unmarked = overlaid-avoids other_marks prog refl u.unmarked;
    observes = overlaid-contains T.observe_image prog u.observes;
  })
]

any_type-contains :
    (type : String) (ts : List PlannedTask) → any_type type ts ≡ contains type (types ts)
unfolding any_type contains
any_type-contains type [] = refl
any_type-contains type (t ∷ ts) = ap (λ b. str_eq t.type type || b) (any_type-contains type ts)

class_of_tasks-update :
    (after : PlanClass) (ts : List PlannedTask)
    → avoids other_marks (types ts) ≡ true
    → contains T.observe_image (types ts) ≡ true
    → class_of_tasks after ts ≡ PlanClass.node_update
unfolding class_of_tasks avoids contains
class_of_tasks-update after [] h k = absurd (cc k)
class_of_tasks-update after (t ∷ ts) h k =
    let ih = class_of_tasks-update after ts in
    ground (
      arith,
      ih,
      eq_iff t.type T.ensure_data_pvc,
      eq_iff T.ensure_data_pvc t.type,
      eq_iff t.type T.restart_seid,
      eq_iff T.restart_seid t.type,
    )

UpdateTypes-class :
    (plan : TaskPlan) → UpdateTypes (types plan.tasks) → classify_plan plan ≡ PlanClass.node_update
unfolding classify_plan is_data_reset_plan is_maintenance_plan avoids contains
UpdateTypes-class plan u =
    let none_of : (type : String)
        → contains type other_marks ≡ true
        → any_type type plan.tasks ≡ false =
      λ type h.
        any_type-contains type plan.tasks
        ∙ avoids-contains other_marks (types plan.tasks) type h u.unmarked in
    rw (none_of T.record_data_reset refl, none_of T.record_maintenance_hold refl)
      (class_of_tasks-update _ plan.tasks u.unmarked u.observes)

-- What planning keeps of a node.
record Kept (p : Platform) (a b : SeiNode) : Type 0 where
  drift_is : pod_template_drifted b p ≡ pod_template_drifted a p
  phase_is : b.phase ≡ a.phase
  own_is : b.has_node_config ≡ a.has_node_config
  slot_is : (l : Option Listed) → drift_slot p l b ≡ drift_slot p l a

same_slot :
    (p : Platform) (l : Option Listed) (a : SeiNode) (c : Dict NodeCondition) (q : Option TaskPlan)
    → drift_slot p l (record a { conditions = c; plan = q }) ≡ drift_slot p l a
unfolding drift_slot
same_slot p none a c q = refl
same_slot p (some l) a c q = refl

Touched-Kept : (p : Platform) (a b : SeiNode) → Touched a b → Kept p a b
unfolding pod_template_drifted image_drifted sidecar_image_drifted effective_sidecar_image
    node_isolation_drifted effective_node_isolation node_pool_drifted requested_node_pool
Touched-Kept p a b (Touched.touched c q) = record {
  drift_is = refl;
  phase_is = refl;
  own_is = refl;
  slot_is = λ l. same_slot p l a c q;
}

Conditioned-Kept : (p : Platform) (a b : SeiNode) → Conditioned a b → Kept p a b
unfolding pod_template_drifted image_drifted sidecar_image_drifted effective_sidecar_image
    node_isolation_drifted effective_node_isolation node_pool_drifted requested_node_pool
Conditioned-Kept p a b (Conditioned.conditioned c) = record {
  drift_is = refl;
  phase_is = refl;
  own_is = refl;
  slot_is = λ l. same_slot p l a c a.plan;
}

module _ (lib : Library) (p : Platform) (env : Reconcile) where
  -- the plan of a running node that drifted
  ModePlan-class :
      (a : SeiNode) (plan : TaskPlan)
      → is_running a.phase ≡ true
      → pod_template_drifted a p ≡ true
      → ModePlan lib env.plan_id p a plan
      → classify_plan plan ≡ PlanClass.node_update
  ModePlan-class a plan r d (inl m) = absurd (cc (r, m.0))
  ModePlan-class a plan r d (inr m) = by_prog m.1.holds
    where
      by_prog : RunningProg p a m.1.prog → classify_plan plan ≡ PlanClass.node_update
      by_prog (RunningProg.update gates g e) = UpdateTypes-class plan (
          Made-UpdateTypes lib env.plan_id m.1.prog plan
            (Edited-UpdateTypes (update_progression gates) m.1.prog e
              (update_progression-UpdateTypes a gates g))
            m.1.made)
      by_prog (RunningProg.config_update steady e) = absurd (cc (d, steady))
      by_prog (RunningProg.reapproval steady e) = absurd (cc (d, steady))

  -- the guard on an update: only a free slot leaves a plan
  on_slot-free :
      (d : SlotDecision) (a : SeiNode) (plan : TaskPlan)
      → a.plan ≡ none
      → AllPlan (λ _. d ≡ SlotDecision.free) (on_slot env.now d a plan).node.plan
  unfolding on_slot set_node_update_condition set_condition
  on_slot-free SlotDecision.free a plan e =
      store_plan-All (λ _. SlotDecision.free ≡ SlotDecision.free) env.now a plan refl
  on_slot-free (SlotDecision.deferred x) a plan e =
      subst (AllPlan (λ _. SlotDecision.deferred x ≡ SlotDecision.free)) (sym e) tt
  on_slot-free (SlotDecision.unreadable x) a plan e =
      subst (AllPlan (λ _. SlotDecision.unreadable x ≡ SlotDecision.free)) (sym e) tt

  guard-paced :
      (w : Option String) (a b : SeiNode) (plan : TaskPlan)
      → Kept p a b
      → pod_template_drifted a p ≡ true
      → b.plan ≡ none
      → classify_plan plan ≡ PlanClass.node_update
      → AllPlan
          (λ _. drift_slot p env.listed a ≡ SlotDecision.free)
          (guard lib p env w b plan).node.plan
  unfolding guard set_node_update_condition set_condition
  guard-paced (some w) a b plan k d e c =
      no_plan_on (λ _. drift_slot p env.listed a ≡ SlotDecision.free) b e
  guard-paced none a b plan k d e c =
      let drifts : is_drift_update_plan p b plan ≡ true =
        unfold is_drift_update_plan in rw (k.drift_is, d, c) refl in
      if_split
        (λ r. AllPlan (λ _. drift_slot p env.listed a ≡ SlotDecision.free) (Resolution.node r).plan)
        (is_drift_update_plan p b plan)
        (λ _.
          subst
            (λ s.
              AllPlan (λ _. s ≡ SlotDecision.free)
                (on_slot env.now (drift_slot p env.listed b) b plan).node.plan)
            (k.slot_is env.listed) (on_slot-free (drift_slot p env.listed b) b plan e))
        (λ other. absurd (cc (other, drifts)))

  Kept-trans : (a b c : SeiNode) → Kept p a b → Kept p b c → Kept p a c
  Kept-trans a b c k l = record {
    drift_is = l.drift_is ∙ k.drift_is;
    phase_is = l.phase_is ∙ k.phase_is;
    own_is = l.own_is ∙ k.own_is;
    slot_is = λ o. l.slot_is o ∙ k.slot_is o;
  }

  paced :
      (planner : NodePlanner) (a b : SeiNode)
      → Kept p a b
      → a.has_node_config ≡ false
      → is_running a.phase ≡ true
      → pod_template_drifted a p ≡ true
      → PlannerOf b planner
      → Admits
          (λ _. drift_slot p env.listed a ≡ SlotDecision.free)
          lib
          p
          env
          (λ plan. classify_plan plan ≡ PlanClass.node_update)
          (build_plan lib p env planner b)
  unfolding build_plan
  paced planner a b k nc r d (PlannerOf.static mode own) = absurd (cc (own, nc, k.own_is))
  paced planner a b k nc r d (PlannerOf.by_mode mode own) = record {
    plans =
        Plans-map (ModePlan lib env.plan_id p b)
          (λ plan. classify_plan plan ≡ PlanClass.node_update)
          (mode_build_plan lib env.plan_id p mode b)
          (mode_build_plan-Plans lib env.plan_id p mode b)
          (λ plan. ModePlan-class b plan (ap is_running k.phase_is ∙ r) (k.drift_is ∙ d));
    guards = λ w plan e c.
        let out = (mode_build_plan lib env.plan_id p mode b).node in
        let left = build_plan-Conditioned lib p env (NodePlanner.mode_planner mode) b in
        guard-paced w a out plan (Kept-trans a b out k (Conditioned-Kept p b out left)) d e c;
  }

  -- A Running node whose pod template has drifted, and whose configuration does not come from
  -- ConfigMaps, gets a plan from a reconcile that finds none active only if the budget of its
  -- namespace has a free slot for it.
  pub resolve_plan-paced :
      (a : SeiNode)
      → is_active a.plan ≡ false
      → a.has_node_config ≡ false
      → is_running a.phase ≡ true
      → pod_template_drifted a p ≡ true
      → AllPlan
          (λ _. drift_slot p env.listed a ≡ SlotDecision.free)
          (resolve_plan lib p env a).node.plan
  resolve_plan-paced a ended nc r d =
      resolve_plan-Admits (λ _. drift_slot p env.listed a ≡ SlotDecision.free) lib p env
        (λ plan. classify_plan plan ≡ PlanClass.node_update) a ended
        (λ planner b same known.
          paced planner a b
            (Touched-Kept p a b
              (subst (Touched a) (sym same) (cleared-Ended lib env.health a ended).touched_is))
            nc r d (planner_for-PlannerOf b planner known))
