-- ===== src/Planner/ModePlans.antt =====
-- What the mode planners make, before and after a node runs.
use sei_k8s_controller.Prelude.{
  ◌≡◌, ◌⊎◌, refl, inl, inr, String, true, false, Option, none, some, List, [], ◌∷◌, if_elim,
  if_split, if◌then◌else◌,
}
use sei_k8s_controller.Plan.Types.{TaskPlan}
use sei_k8s_controller.Node.{SnapshotSource, SeiNode, is_running}
use sei_k8s_controller.Drift.Node.{Platform, pod_template_drifted}
use sei_k8s_controller.Planner.TaskTypes as T
use sei_k8s_controller.Planner.Params.{ConfigIntent, Library, p2p_config_patch}
use sei_k8s_controller.Planner.Tasks.{Built}
use sei_k8s_controller.Planner.Config.{config_values_drifted}
use sei_k8s_controller.Planner.Progression.{
  genesis_progression, is_genesis_ceremony_node, key_gates, build_base_plan, build_genesis_plan,
}
use sei_k8s_controller.Planner.Update.{
  with_plan, update_progression, config_update_progression, build_config_update_plan,
  build_running_plan, sidecar_needs_reapproval,
}
use sei_k8s_controller.Planner.Modes.{
  ModePlanner, nil_pointer, mode_build_plan, full_build_plan, archive_build_plan,
  replayer_build_plan, validator_build_plan, seed_build_plan,
}
use sei_k8s_controller.Planner.Avoids.{Holds}
use sei_k8s_controller.Planner.Made.{Holds-map}
use sei_k8s_controller.Planner.Builders.{
  MadeOf, made_of, base_prog, build_base_plan-Made, build_genesis_plan-Made,
  build_mark_ready_plan-Made, assemble_update_plan-Made,
}
use sei_k8s_controller.Planner.ModeProgs.{
  SidecarProg, build_sidecar_progression-SidecarProg, InitProg, Edited, Gates, RunningProg, Plans,
  Plans-map, Plans-with_plan, Plans-update_result,
}

module _ (lib : Library) (plan_id : String) (p : Platform) where
  build_config_update_plan-Plans :
      (node : SeiNode)
      → Plans
          (MadeOf lib plan_id (Edited config_update_progression))
          (build_config_update_plan lib plan_id node)
  unfolding build_config_update_plan
  build_config_update_plan-Plans node =
      Plans-update_result (MadeOf lib plan_id (Edited config_update_progression))
        "ConfigUpdateStarted" node _
        (assemble_update_plan-Made lib plan_id node config_update_progression
          (p2p_config_patch lib node))

  Holds-MadeOf :
      (P Q : List String → Type 0) (b : Built TaskPlan)
      → ((prog : List String) → P prog → Q prog)
      → Holds (MadeOf lib plan_id P) b
      → Holds (MadeOf lib plan_id Q) b
  Holds-MadeOf P Q b f h =
      Holds-map (MadeOf lib plan_id P) (MadeOf lib plan_id Q) b h
        (λ plan m. record { prog = m.prog; holds = f m.prog m.holds; made = m.made })

  build_running_plan-Plans :
      (gates : List String) (node : SeiNode)
      → Gates node gates
      → Plans
          (MadeOf lib plan_id (RunningProg p node))
          (build_running_plan lib plan_id p gates node)
  unfolding build_running_plan
  build_running_plan-Plans gates node g =
      if_split (Plans (MadeOf lib plan_id (RunningProg p node))) (pod_template_drifted node p)
        (λ drifted.
          Plans-update_result (MadeOf lib plan_id (RunningProg p node)) "UpdateStarted" node _ (
            Holds-MadeOf (Edited (update_progression gates)) (RunningProg p node) _
              (λ prog e. RunningProg.update gates g e)
              (assemble_update_plan-Made lib plan_id node (update_progression gates)
                (p2p_config_patch lib node))))
        (λ steady.
          if_elim (Plans (MadeOf lib plan_id (RunningProg p node))) (config_values_drifted lib node)
            (Plans-map (MadeOf lib plan_id (Edited config_update_progression))
              (MadeOf lib plan_id (RunningProg p node)) (build_config_update_plan lib plan_id node)
              (build_config_update_plan-Plans node)
              (λ plan m. record {
                prog = m.prog;
                holds = RunningProg.config_update steady m.holds;
                made = m.made;
              }))
            (if_elim (Plans (MadeOf lib plan_id (RunningProg p node)))
              (sidecar_needs_reapproval node)
              (Plans-with_plan (MadeOf lib plan_id (RunningProg p node)) node _ (
                made_of lib plan_id (RunningProg p node) (T.mark_ready ∷ []) _
                  (RunningProg.reapproval steady refl)
                  (build_mark_ready_plan-Made lib plan_id node)))
              tt))

  abbrev InitPlan : SeiNode → TaskPlan → Type 0
  InitPlan node = MadeOf lib plan_id (InitProg node)

  base_plan-Holds :
      (node : SeiNode) (snap : Option SnapshotSource) (intent : ConfigIntent)
      → Holds (InitPlan node) (build_base_plan lib plan_id node snap intent)
  base_plan-Holds node snap intent =
      Holds-MadeOf (λ prog. (s : List String) × SidecarProg s × (prog ≡ base_prog node s))
        (InitProg node) _ (λ prog h. InitProg.base h.0 h.1 h.2)
        (build_base_plan-Made lib plan_id SidecarProg node snap intent
          (build_sidecar_progression-SidecarProg snap))

  genesis_plan-Holds :
      (node : SeiNode)
      → is_genesis_ceremony_node node ≡ true
      → Holds (InitPlan node) (build_genesis_plan lib plan_id node)
  genesis_plan-Holds node c =
      made_of lib plan_id (InitProg node) genesis_progression _ (InitProg.ceremony c refl)
        (build_genesis_plan-Made lib plan_id node)

  -- What a mode planner makes of the node: the plan of an init progression or of a running one.
  abbrev pub ModePlan : SeiNode → TaskPlan → Type 0
  ModePlan node plan =
      (is_running node.phase ≡ false) × MadeOf lib plan_id (InitProg node) plan
      ⊎ (is_running node.phase ≡ true) × MadeOf lib plan_id (RunningProg p node) plan

  arms :
      (node : SeiNode) (gates : List String) (init : Built TaskPlan)
      → Gates node gates
      → Holds (InitPlan node) init
      → Plans (ModePlan node) (
          if is_running node.phase
          then build_running_plan lib plan_id p gates node
          else with_plan node init)
  arms node gates init g h =
      if_split (Plans (ModePlan node)) (is_running node.phase)
        (λ r.
          Plans-map (MadeOf lib plan_id (RunningProg p node)) (ModePlan node)
            (build_running_plan lib plan_id p gates node) (build_running_plan-Plans gates node g)
            (λ plan m. inr (r, m)))
        (λ r.
          Plans-with_plan (ModePlan node) node init
            (Holds-map (InitPlan node) (ModePlan node) init h (λ plan m. inl (r, m))))

  on_spec :
      {A : Type 0} (P : TaskPlan → Type 0) (o : Option A) (f : A → Built TaskPlan)
      → ((a : A) → Holds P (f a))
      → Holds P (elim o [ none ↦ nil_pointer | some a ↦ f a ])
  on_spec P none f h = tt
  on_spec P (some a) f h = h a

  validator_arms :
      (node : SeiNode) (init : Built TaskPlan)
      → Holds (InitPlan node) init
      → Plans (ModePlan node) (
          if is_running node.phase
          then build_running_plan lib plan_id p (key_gates node) node
          else if is_genesis_ceremony_node node
          then with_plan node (build_genesis_plan lib plan_id node)
          else with_plan node init)
  validator_arms node init h =
      if_split
        (λ b. Plans (ModePlan node) (
          if is_running node.phase
          then build_running_plan lib plan_id p (key_gates node) node
          else b))
        (is_genesis_ceremony_node node)
        (λ c. arms node (key_gates node) _ Gates.all_keys (genesis_plan-Holds node c))
        (λ c. arms node (key_gates node) init Gates.all_keys h)

  pub mode_build_plan-Plans :
      (mode : ModePlanner) (node : SeiNode)
      → Plans (ModePlan node) (mode_build_plan lib plan_id p mode node)
  unfolding mode_build_plan full_build_plan archive_build_plan replayer_build_plan
      validator_build_plan seed_build_plan
  mode_build_plan-Plans ModePlanner.full_node node =
      arms node [] _ Gates.no_gates
        (on_spec (InitPlan node) node.full_node _ (λ fn. base_plan-Holds node fn.snapshot _))
  mode_build_plan-Plans ModePlanner.archive_node node =
      arms node [] _ Gates.no_gates
        (on_spec (InitPlan node) node.archive _ (λ a. base_plan-Holds node none _))
  mode_build_plan-Plans ModePlanner.replayer_node node =
      arms node [] _ Gates.no_gates
        (on_spec (InitPlan node) node.replayer _ (λ snap. base_plan-Holds node (some snap) _))
  mode_build_plan-Plans ModePlanner.validator_node node =
      validator_arms node _
        (on_spec (InitPlan node) node.validator _ (λ v. base_plan-Holds node v.snapshot _))
  mode_build_plan-Plans ModePlanner.seed_node node =
      arms node _ _ Gates.node_key (base_plan-Holds node none _)
