-- ===== src/Planner/StaticRunning.antt =====
-- The Running arm of the planner of a node with configuration from ConfigMaps
-- (internal/planner/static_config.go:114-219).
use sei_k8s_controller.Prelude.{
  ◌≡◌, refl, ap, ◌∙◌, inl, inr, String, Bool, true, false, Option, none, some, List, [], ◌∷◌, ◌++◌,
  if_elim, if_split, if◌then◌else◌, ◌&&◌, ◌||◌, not, arith,
}
use sei_k8s_controller.Plan.Types.{TaskPlan}
use sei_k8s_controller.Node.{SeiNode, MaintenanceHold, is_held, is_running, same_hold}
use sei_k8s_controller.Drift.Node.{Platform, pod_template_drifted, data_reset_pending}
use sei_k8s_controller.Planner.TaskTypes as T
use sei_k8s_controller.Planner.Params.{TaskParams, Library, params_for_update_task}
use sei_k8s_controller.Planner.Tasks.{
  Built, built, refused, and_then, contains, steps_of, assemble_steps,
}
use sei_k8s_controller.Planner.Progression.{is_genesis_ceremony_node, key_gates}
use sei_k8s_controller.Planner.Hold.{
  without_mark_ready, build_hold_plan, hold_change, hold_steps, record_hold_step, sidecar_gate_open,
}
use sei_k8s_controller.Planner.Update.{Planning, build_mark_ready_plan, sidecar_needs_reapproval}
use sei_k8s_controller.Planner.Modes.{ModePlanner, mode_build_plan}
use sei_k8s_controller.Planner.Static.{
  started_reset, or_else, park_result, static_update_plan, static_running_plan, static_build_plan,
}
use sei_k8s_controller.Planner.Avoids.{Holds, avoids, avoids-append}
use sei_k8s_controller.Planner.Made.{
  Holds-and_then, Holds-map, step_types, step_types-steps_of, Made,
}
use sei_k8s_controller.Planner.Builders.{MadeOf, build_mark_ready_plan-Made}
use sei_k8s_controller.Planner.ModeProgs.{
  InitProg, AllPlan, Plans, Plans-map, Plans-with_plan, Plans-update_result,
}
use sei_k8s_controller.Planner.ModePlans.{ModePlan, mode_build_plan-Plans}
use sei_k8s_controller.Planner.Edits.{
  drop_mark_ready-Numbered, drop_mark_ready-avoids, drop_mark_ready-keeps,
}
use sei_k8s_controller.Planner.StaticTypes.{key_gates-avoids, avoids-contains}
use sei_k8s_controller.Planner.StaticPlans.{StaticPlan, init_result}
use sei_k8s_controller.Planner.StaticReset.{
  Typed, Made-Typed, steps-Typed, Typed-StaticPlan, static_reset_plan-StaticPlan,
}

-- the hold of a step that a request for a hold leads to
abbrev KeepsHold : MaintenanceHold → Option (MaintenanceHold × MaintenanceHold) → Type 0
KeepsHold want none = Unit
KeepsHold want (some (to, from)) = is_held want ≡ true → is_held to ≡ true

hold_change-KeepsHold :
    (gate_open : Bool) (want have : MaintenanceHold)
    → KeepsHold want (hold_change gate_open want have)
unfolding hold_change
hold_change-KeepsHold gate_open want have =
    if_split (KeepsHold want) (is_held want && is_held have && gate_open) (λ h _. ground (arith, h))
      (λ _. if_elim (KeepsHold want) (same_hold want have) tt (λ h. h))

-- the progression of the static planner's update
abbrev roll_types : SeiNode → List String
roll_types node =
    key_gates node ++ (T.apply_statefulset ∷ T.apply_service ∷ T.observe_image ∷ T.mark_ready ∷ [])

roll_types-avoids :
    (bad : List String) (node : SeiNode)
    → contains T.validate_signing_key bad ≡ false
    → contains T.validate_node_key bad ≡ false
    → contains T.validate_operator_keyring bad ≡ false
    → avoids bad (T.apply_statefulset ∷ T.apply_service ∷ T.observe_image ∷ T.mark_ready ∷ [])
      ≡ true
    → avoids bad (roll_types node) ≡ true
roll_types-avoids bad node s n o h =
    avoids-append bad (key_gates node) _ (key_gates-avoids bad node s n o) h

Plans-started_reset :
    (P : TaskPlan → Type 0) (node : SeiNode) (b : Built TaskPlan)
    → Holds P b
    → Plans P (started_reset node b)
Plans-started_reset P node (built plan) h = h
Plans-started_reset P node (refused e) h = tt

Plans-or_else :
    (P : TaskPlan → Type 0) (node : SeiNode) (r : Built (Option TaskPlan)) (other : Planning)
    → Holds (AllPlan P) r
    → Plans P other
    → Plans P (or_else node r other)
Plans-or_else P node (built none) other h k = k
Plans-or_else P node (built (some plan)) other h k = h
Plans-or_else P node (refused e) other h k = tt

module _ (lib : Library) where
  hold_steps-no_writer :
      (node : SeiNode) (to from : MaintenanceHold)
      → avoids T.mounted_config_writers (step_types (hold_steps lib node to from)) ≡ true
  unfolding hold_steps avoids contains record_hold_step
  hold_steps-no_writer node MaintenanceHold.immediate from = refl
  hold_steps-no_writer node MaintenanceHold.no_hold from = refl
  hold_steps-no_writer node MaintenanceHold.after_exit MaintenanceHold.immediate = refl
  hold_steps-no_writer node MaintenanceHold.after_exit MaintenanceHold.no_hold = refl
  hold_steps-no_writer node MaintenanceHold.after_exit MaintenanceHold.after_exit = refl

  hold_steps-no_validation :
      (node : SeiNode) (to from : MaintenanceHold)
      → contains T.config_validate (step_types (hold_steps lib node to from)) ≡ false
  unfolding hold_steps contains record_hold_step
  hold_steps-no_validation node MaintenanceHold.immediate from = refl
  hold_steps-no_validation node MaintenanceHold.no_hold from = refl
  hold_steps-no_validation node MaintenanceHold.after_exit MaintenanceHold.immediate = refl
  hold_steps-no_validation node MaintenanceHold.after_exit MaintenanceHold.no_hold = refl
  hold_steps-no_validation node MaintenanceHold.after_exit MaintenanceHold.after_exit = refl

  hold_steps-no_release :
      (node : SeiNode) (to from : MaintenanceHold)
      → is_held to ≡ true
      → avoids (T.mark_ready ∷ []) (step_types (hold_steps lib node to from)) ≡ true
  unfolding hold_steps avoids contains record_hold_step
  hold_steps-no_release node MaintenanceHold.immediate from h = refl
  hold_steps-no_release node MaintenanceHold.no_hold from h = absurd (cc h)
  hold_steps-no_release node MaintenanceHold.after_exit MaintenanceHold.immediate h = refl
  hold_steps-no_release node MaintenanceHold.after_exit MaintenanceHold.no_hold h = refl
  hold_steps-no_release node MaintenanceHold.after_exit MaintenanceHold.after_exit h = refl

  module _ (plan_id : String) where
    hold_result :
        (node : SeiNode) (want : MaintenanceHold) (o : Option (MaintenanceHold × MaintenanceHold))
        → KeepsHold want o
        → Holds (AllPlan (StaticPlan lib plan_id (is_held want) true)) (elim o [
          | none ↦ built none
          | some (to, from) ↦
              and_then
                (assemble_steps lib plan_id (hold_steps lib node to from))
                (λ p. built (some p))
        ])
    hold_result node want none k = tt
    hold_result node want (some (to, from)) k =
        Holds-and_then (Typed lib plan_id (step_types (hold_steps lib node to from)))
          (AllPlan (StaticPlan lib plan_id (is_held want) true))
          (assemble_steps lib plan_id (hold_steps lib node to from)) _
          (steps-Typed lib plan_id _ (hold_steps lib node to from) refl
            (hold_steps-no_validation node to from))
          (λ plan t.
            Typed-StaticPlan lib plan_id (is_held want) _ plan (hold_steps-no_writer node to from)
              (λ h. hold_steps-no_release node to from (k h)) t)

    build_hold_plan-StaticPlan :
        (node : SeiNode) (want have : MaintenanceHold)
        → Holds
            (AllPlan (StaticPlan lib plan_id (is_held want) true))
            (build_hold_plan lib plan_id node want have)
    unfolding build_hold_plan
    build_hold_plan-StaticPlan node want have =
        hold_result node want _ (hold_change-KeepsHold (sidecar_gate_open node) want have)

    rolled :
        (node : SeiNode) (held : Bool) (plan : TaskPlan)
        → Typed lib plan_id (roll_types node) plan
        → StaticPlan lib plan_id held true (if held then without_mark_ready plan else plan)
    unfolding without_mark_ready avoids contains
    rolled node true plan t = record {
      sound = record {
        active = t.sound.active;
        clean = t.sound.clean;
        numbered = drop_mark_ready-Numbered lib plan_id 0 plan.tasks t.sound.numbered;
      };
      no_writer = λ _. drop_mark_ready-keeps T.mounted_config_writers plan.tasks (
          ap (avoids T.mounted_config_writers) t.types_are
          ∙ roll_types-avoids T.mounted_config_writers node refl refl refl refl);
      no_release = λ _. drop_mark_ready-avoids plan.tasks;
    }
    rolled node false plan t =
        Typed-StaticPlan lib plan_id false (roll_types node) plan
          (roll_types-avoids T.mounted_config_writers node refl refl refl refl) (λ h. absurd (cc h))
          t

    update_with :
        (node : SeiNode) (held : Bool)
        → Holds (StaticPlan lib plan_id held true) (
            and_then
              (static_update_plan lib plan_id node)
              (λ plan. built (if held then without_mark_ready plan else plan)))
    unfolding static_update_plan avoids contains
    update_with node held =
        let params : String → TaskParams =
          λ type. params_for_update_task lib node type TaskParams.empty_patch in
        Holds-and_then (Typed lib plan_id (roll_types node)) (StaticPlan lib plan_id held true)
          (static_update_plan lib plan_id node) _
          (steps-Typed lib plan_id (roll_types node) (steps_of params (roll_types node))
            (step_types-steps_of params (roll_types node))
            (avoids-contains (T.config_validate ∷ []) (roll_types node) T.config_validate refl
              (roll_types-avoids (T.config_validate ∷ []) node refl refl refl refl)))
          (λ plan t. rolled node held plan t)

    reapproval :
        (node : SeiNode) (held : Bool)
        → held ≡ false
        → Holds (StaticPlan lib plan_id held true) (build_mark_ready_plan lib plan_id node)
    unfolding avoids contains
    reapproval node held free =
        Holds-map (Made lib plan_id (T.mark_ready ∷ [])) (StaticPlan lib plan_id held true)
          (build_mark_ready_plan lib plan_id node) (build_mark_ready_plan-Made lib plan_id node)
          (λ plan m.
            Typed-StaticPlan lib plan_id held (T.mark_ready ∷ []) plan refl
              (λ h. absurd (cc (h, free))) (Made-Typed lib plan_id (T.mark_ready ∷ []) plan refl m))

    pub static_running_plan-Plans :
        (p : Platform) (node : SeiNode)
        → Plans
            (StaticPlan lib plan_id (is_held node.hold_requested) true)
            (static_running_plan lib plan_id p node)
    unfolding static_running_plan
    static_running_plan-Plans p node =
        if_elim (Plans (StaticPlan lib plan_id (is_held node.hold_requested) true))
          (data_reset_pending node)
          (Plans-started_reset (StaticPlan lib plan_id (is_held node.hold_requested) true) node _
            (static_reset_plan-StaticPlan lib plan_id node))
          (Plans-or_else (StaticPlan lib plan_id (is_held node.hold_requested) true) node _ _
            (build_hold_plan-StaticPlan node node.hold_requested node.maintenance_hold)
            (if_elim (Plans (StaticPlan lib plan_id (is_held node.hold_requested) true))
              (pod_template_drifted node p)
              (Plans-update_result (StaticPlan lib plan_id (is_held node.hold_requested) true)
                "UpdateStarted" node _ (update_with node (is_held node.hold_requested)))
              (if_split (Plans (StaticPlan lib plan_id (is_held node.hold_requested) true))
                (sidecar_needs_reapproval node && not (is_held node.hold_requested))
                (λ free.
                  Plans-with_plan (StaticPlan lib plan_id (is_held node.hold_requested) true) node _
                    (reapproval node (is_held node.hold_requested) (ground (arith, free))))
                (λ _. tt))))

    safer :
        (held safe safe' : Bool) (plan : TaskPlan)
        → (safe' ≡ true → safe ≡ true)
        → StaticPlan lib plan_id held safe plan
        → StaticPlan lib plan_id held safe' plan
    safer held safe safe' plan f s = record {
      sound = s.sound;
      no_writer = λ h. s.no_writer (f h);
      no_release = s.no_release;
    }

    -- whether no ceremony is planned
    abbrev pub without_ceremony : SeiNode → Bool
    without_ceremony node = is_running node.phase || not (is_genesis_ceremony_node node)

    init_of :
        (p : Platform) (node : SeiNode)
        → is_running node.phase ≡ false
        → (plan : TaskPlan) → ModePlan lib plan_id p node plan
        → MadeOf lib plan_id (InitProg node) plan
    init_of p node r plan (inl m) = m.1
    init_of p node r plan (inr m) = absurd (cc (r, m.0))

    -- What the planner of a node with nodeConfig makes: a sound plan that writes no mounted file,
    -- unless it is the init plan of a ceremony, and releases nothing while a hold is requested.
    pub static_build_plan-Plans :
        (p : Platform) (mode : ModePlanner) (node : SeiNode)
        → node.has_node_config ≡ true
        → Plans
            (StaticPlan lib plan_id (is_held node.hold_requested) (without_ceremony node))
            (static_build_plan lib plan_id p mode node)
    unfolding static_build_plan
    static_build_plan-Plans p mode node nc =
        if_split
          (Plans (StaticPlan lib plan_id (is_held node.hold_requested) (without_ceremony node)))
          (is_running node.phase)
          (λ r.
            Plans-map (StaticPlan lib plan_id (is_held node.hold_requested) true)
              (StaticPlan lib plan_id (is_held node.hold_requested) (without_ceremony node))
              (static_running_plan lib plan_id p node) (static_running_plan-Plans p node)
              (λ plan.
                safer (is_held node.hold_requested) true (without_ceremony node) plan (λ _. refl)))
          (λ r.
            Plans-map
              (StaticPlan lib plan_id (is_held node.hold_requested)
                (not (is_genesis_ceremony_node node)))
              (StaticPlan lib plan_id (is_held node.hold_requested) (without_ceremony node))
              (record (mode_build_plan lib plan_id p mode node) {
                result =
                    park_result lib (is_held node.hold_requested)
                      (mode_build_plan lib plan_id p mode node).result;
              })
              (init_result lib plan_id node (is_held node.hold_requested)
                (mode_build_plan lib plan_id p mode node).result nc
                (Plans-map (ModePlan lib plan_id p node) (MadeOf lib plan_id (InitProg node))
                  (mode_build_plan lib plan_id p mode node)
                  (mode_build_plan-Plans lib plan_id p mode node) (init_of p node r)))
              (λ plan.
                safer (is_held node.hold_requested) (not (is_genesis_ceremony_node node))
                  (without_ceremony node) plan (λ h. ground (arith, h, r))))
