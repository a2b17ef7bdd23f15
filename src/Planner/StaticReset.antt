-- ===== src/Planner/StaticReset.antt =====
-- The reset plan of the planner of a node with configuration from ConfigMaps
-- (internal/planner/data_reset.go and static_config.go:129-142).
use sei_k8s_controller.Prelude.{
  ℕ, ◌≡◌, refl, ap, ◌∙◌, inl, inr, subst, String, Bool, true, false, List, [], ◌∷◌, ◌++◌, if_elim,
  if◌then◌else◌, length, arith,
}
use sei_k8s_controller.Plan.Types.{PlannedTask, TaskPlan}
use sei_k8s_controller.Node.{SeiNode, MaintenanceHold, is_held}
use sei_k8s_controller.Planner.TaskTypes as T
use sei_k8s_controller.Planner.Params.{TaskParams, Library}
use sei_k8s_controller.Planner.Tasks.{built, PlanStep, contains, assemble_steps, build_planned_task}
use sei_k8s_controller.Planner.Hold.{
  park_instead_of_release, clear_hold_after_release, record_hold_step, ends_in_mark_ready,
}
use sei_k8s_controller.Planner.Reset.{reset_steps, build_data_reset_plan, with_reset_retries}
use sei_k8s_controller.Planner.Static.{static_reset_plan}
use sei_k8s_controller.Planner.Avoids.{Holds, avoids, avoids-append, parked}
use sei_k8s_controller.Planner.Made.{
  Holds-and_then, Holds-map, types, step_types, Exact, Made, IsBuilt, assemble_steps-Made,
  build_planned_task-IsBuilt,
}
use sei_k8s_controller.Planner.Edits.{
  Exact-Numbered, Exact-append, with_reset_retries-Exact, with_reset_retries-types, types-append,
}
use sei_k8s_controller.Planner.StaticPlans.{
  Sound, Made-Sound, StaticPlan, Parked, park_instead_of_release-Parked,
}

abbrev reset_types : List String
reset_types =
    T.observe_image ∷ T.mark_not_ready ∷ T.stop_seid ∷ T.reset_data_keep_sign_state
    ∷ T.record_data_reset ∷ T.mark_ready ∷ []

module _ (lib : Library) (plan_id : String) where
  -- a plan whose tasks have exactly these types
  pub record Typed (ts : List String) (plan : TaskPlan) : Type 0 where
    pub id_is : plan.id ≡ plan_id
    pub sound : Sound lib plan_id plan
    pub exact : Exact lib plan_id 0 plan.tasks
    pub types_are : types plan.tasks ≡ ts

  pub Made-Typed :
      (ts : List String) (plan : TaskPlan)
      → contains T.config_validate ts ≡ false
      → Made lib plan_id ts plan
      → Typed ts plan
  Made-Typed ts plan h m = record {
    id_is = m.id_is;
    sound = Made-Sound lib plan_id ts plan m;
    exact = m.exact;
    types_are = elim (m.laid) [ inl l ↦ l | inr l ↦ absurd (cc (h, l.1)) ];
  }

  pub steps-Typed :
      (ts : List String) (steps : List PlanStep)
      → step_types steps ≡ ts
      → contains T.config_validate ts ≡ false
      → Holds (Typed ts) (assemble_steps lib plan_id steps)
  steps-Typed ts steps e h =
      Holds-map (Made lib plan_id (step_types steps)) (Typed ts) (assemble_steps lib plan_id steps)
        (assemble_steps-Made lib plan_id steps)
        (λ plan m. Made-Typed ts plan h (subst (λ l. Made lib plan_id l plan) e m))

  -- A plan with types that are fine under a hold, or under none.
  pub Typed-StaticPlan :
      (held : Bool) (ts : List String) (plan : TaskPlan)
      → avoids T.mounted_config_writers ts ≡ true
      → (held ≡ true → avoids (T.mark_ready ∷ []) ts ≡ true)
      → Typed ts plan
      → StaticPlan lib plan_id held true plan
  Typed-StaticPlan held ts plan w r t = record {
    sound = t.sound;
    no_writer = λ _. ap (avoids T.mounted_config_writers) t.types_are ∙ w;
    no_release = λ h. ap (avoids (T.mark_ready ∷ [])) t.types_are ∙ r h;
  }

  build_data_reset_plan-Typed :
      (node : SeiNode) → Holds (Typed reset_types) (build_data_reset_plan lib plan_id node)
  unfolding build_data_reset_plan contains
  build_data_reset_plan-Typed node =
      Holds-and_then (Typed reset_types) (Typed reset_types)
        (assemble_steps lib plan_id (reset_steps lib node)) _
        (steps-Typed reset_types (reset_steps lib node) refl refl)
        (λ plan t.
          let exact = with_reset_retries-Exact lib plan_id 0 plan.tasks t.exact in
          record {
            id_is = t.id_is;
            sound = record {
              active = t.sound.active;
              clean = t.sound.clean;
              numbered = Exact-Numbered lib plan_id 0 (with_reset_retries plan.tasks) exact;
            };
            exact = exact;
            types_are = with_reset_retries-types plan.tasks ∙ t.types_are;
          })

  record_at :
      (id : String) (i : ℕ)
      → id ≡ plan_id
      → Holds (IsBuilt lib plan_id T.record_maintenance_hold i) (
          build_planned_task lib id T.record_maintenance_hold i
            (TaskParams.hold MaintenanceHold.no_hold))
  record_at id i e = rw e (
      build_planned_task-IsBuilt lib plan_id T.record_maintenance_hold i
        (TaskParams.hold MaintenanceHold.no_hold))

  appended :
      (bad : List String) (plan : TaskPlan) (u : PlannedTask)
      → types plan.tasks ≡ reset_types
      → u.type ≡ T.record_maintenance_hold
      → avoids bad reset_types ≡ true
      → avoids bad (T.record_maintenance_hold ∷ []) ≡ true
      → avoids bad (types (plan.tasks ++ (u ∷ []))) ≡ true
  appended bad plan u e k h r =
      ap (avoids bad) (types-append plan.tasks (u ∷ []) ∙ cc (e, k))
      ∙ avoids-append bad reset_types (T.record_maintenance_hold ∷ []) h r

  clear_hold_after_release-StaticPlan :
      (plan : TaskPlan)
      → Typed reset_types plan
      → Holds (StaticPlan lib plan_id false true) (clear_hold_after_release lib plan)
  unfolding clear_hold_after_release record_hold_step avoids contains
  clear_hold_after_release-StaticPlan plan t =
      if_elim (Holds (StaticPlan lib plan_id false true)) (ends_in_mark_ready plan.tasks)
        (Holds-and_then (IsBuilt lib plan_id T.record_maintenance_hold (length plan.tasks))
          (StaticPlan lib plan_id false true)
          (build_planned_task lib plan.id T.record_maintenance_hold (length plan.tasks) _) _
          (record_at plan.id (length plan.tasks) t.id_is)
          (λ u b.
            let exact =
              Exact-append lib plan_id 0 plan.tasks u t.exact
                (b.id_is ∙ ap (lib.task_id plan_id u.type) (omega arith)) b.fresh in
            record {
              sound = record {
                active = t.sound.active;
                clean = t.sound.clean;
                numbered = Exact-Numbered lib plan_id 0 (plan.tasks ++ (u ∷ [])) exact;
              };
              no_writer =
                  λ _. appended T.mounted_config_writers plan u t.types_are b.type_is refl refl;
              no_release = λ h. absurd (cc h);
            }))
        tt

  parked_reset :
      (plan : TaskPlan)
      → Typed reset_types plan
      → Holds (StaticPlan lib plan_id true true) (park_instead_of_release lib plan)
  unfolding avoids contains parked
  parked_reset plan t =
      Holds-map (Parked lib plan_id plan) (StaticPlan lib plan_id true true)
        (park_instead_of_release lib plan)
        (park_instead_of_release-Parked lib plan_id plan t.id_is t.exact t.sound)
        (λ out k. record {
          sound = k.sound;
          no_writer =
              λ _. ap (avoids T.mounted_config_writers) (k.types_are ∙ ap parked t.types_are);
          no_release = λ _. ap (avoids (T.mark_ready ∷ [])) (k.types_are ∙ ap parked t.types_are);
        })

  after_reset :
      (want have : MaintenanceHold) (plan : TaskPlan)
      → Typed reset_types plan
      → Holds (StaticPlan lib plan_id (is_held want) true) (
          if is_held want
          then park_instead_of_release lib plan
          else if is_held have
          then clear_hold_after_release lib plan
          else built plan)
  after_reset MaintenanceHold.immediate have plan t = parked_reset plan t
  after_reset MaintenanceHold.after_exit have plan t = parked_reset plan t
  after_reset MaintenanceHold.no_hold have plan t =
      if_elim (Holds (StaticPlan lib plan_id false true)) (is_held have)
        (clear_hold_after_release-StaticPlan plan t)
        (unfold avoids contains in
          Typed-StaticPlan false reset_types plan refl (λ h. absurd (cc h)) t)

  pub static_reset_plan-StaticPlan :
      (node : SeiNode)
      → Holds
          (StaticPlan lib plan_id (is_held node.hold_requested) true)
          (static_reset_plan lib plan_id node)
  unfolding static_reset_plan
  static_reset_plan-StaticPlan node =
      Holds-and_then (Typed reset_types) (StaticPlan lib plan_id (is_held node.hold_requested) true)
        (build_data_reset_plan lib plan_id node) _ (build_data_reset_plan-Typed node)
        (λ plan t. after_reset node.hold_requested node.maintenance_hold plan t)
