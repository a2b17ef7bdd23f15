-- ===== src/Planner/Builders.antt =====
-- Each builder makes a plan of its progression.
use sei_k8s_controller.Prelude.{
  ◌≡◌, ◌⊎◌, refl, ◌∙◌, inl, String, ◌||◌, Option, none, List, [], ◌∷◌, ◌++◌, if_elim, if◌then◌else◌,
  str_eq,
}
use sei_k8s_controller.Plan.Types.{SeiNodePhase, TaskPlan}
use sei_k8s_controller.Node.{SnapshotSource, SeiNode}
use sei_k8s_controller.Planner.TaskTypes as T
use sei_k8s_controller.Planner.Params.{ConfigIntent, TaskParams, Library}
use sei_k8s_controller.Planner.Tasks.{
  Built, built, and_then, insert_before, steps_of, active_plan, build_tasks,
}
use sei_k8s_controller.Planner.Config.{
  with_config_values, without_managed_config_tasks, config_values_drifted,
}
use sei_k8s_controller.Planner.Progression.{
  build_sidecar_progression, infrastructure, genesis_progression, init_plan, build_base_plan,
  build_genesis_plan,
}
use sei_k8s_controller.Planner.Hold.{step}
use sei_k8s_controller.Planner.Update.{build_mark_ready_plan, assemble_update_plan}
use sei_k8s_controller.Planner.Avoids.{Holds, Inserted, insert_before-Inserted}
use sei_k8s_controller.Planner.Made.{
  Holds-and_then, Holds-map, types, step_types, step_types-steps_of, Exact, Made, build_tasks-Exact,
  assemble_steps-Made, with_config_values-Made,
}

-- the progression that a base plan follows, where the sidecar part is `prog`
abbrev pub base_prog : SeiNode → List String → List String
base_prog node prog = infrastructure node ++ without_managed_config_tasks node prog

module _ (lib : Library) (plan_id : String) where
  -- a plan of some progression with the property
  pub record MadeOf (P : List String → Type 0) (plan : TaskPlan) : Type 0 where
    pub prog : List String
    pub holds : P prog
    pub made : Made lib plan_id prog plan

  pub made_of :
      (P : List String → Type 0) (prog : List String) (b : Built TaskPlan)
      → P prog
      → Holds (Made lib plan_id prog) b
      → Holds (MadeOf P) b
  made_of P prog b h m =
      Holds-map (Made lib plan_id prog) (MadeOf P) b m
        (λ plan k. record { prog = prog; holds = h; made = k })

  -- the common end of the assemblers: the tasks of a progression, and the overlay
  pub drafted :
      (prog : List String) (params : String → TaskParams) (failed_phase : Option SeiNodePhase)
      (node : SeiNode)
      → Holds (Made lib plan_id prog) (
          and_then
            (build_tasks lib plan_id 0 (steps_of params prog))
            (λ tasks. with_config_values lib (active_plan plan_id tasks failed_phase) node))
  drafted prog params failed_phase node =
      Holds-and_then (λ ts. Exact lib plan_id 0 ts × (types ts ≡ step_types (steps_of params prog)))
        (Made lib plan_id prog) (build_tasks lib plan_id 0 (steps_of params prog)) _
        (build_tasks-Exact lib plan_id 0 (steps_of params prog))
        (λ ts h. with_config_values-Made lib plan_id prog _ node (record {
          id_is = refl;
          active = refl;
          clean = refl;
          exact = h.0;
          types_are = h.1 ∙ step_types-steps_of params prog;
        }))

  pub init_plan-Made :
      (node : SeiNode) (snap : Option SnapshotSource) (intent : ConfigIntent) (prog : List String)
      → Holds (Made lib plan_id prog) (init_plan lib plan_id node snap intent prog)
  unfolding init_plan
  init_plan-Made node snap intent prog = drafted prog _ _ node

  pub build_genesis_plan-Made :
      (node : SeiNode)
      → Holds (Made lib plan_id genesis_progression) (build_genesis_plan lib plan_id node)
  unfolding build_genesis_plan
  build_genesis_plan-Made node = init_plan-Made node none _ genesis_progression

  pub build_base_plan-Made :
      (P : List String → Type 0) (node : SeiNode) (snap : Option SnapshotSource)
      (intent : ConfigIntent)
      → Holds P (build_sidecar_progression snap)
      → Holds
          (MadeOf (λ prog. (sidecar : List String) × P sidecar × (prog ≡ base_prog node sidecar)))
          (build_base_plan lib plan_id node snap intent)
  unfolding build_base_plan
  build_base_plan-Made P node snap intent h =
      Holds-and_then P
        (MadeOf (λ prog. (sidecar : List String) × P sidecar × (prog ≡ base_prog node sidecar)))
        (build_sidecar_progression snap) _ h
        (λ sidecar k.
          made_of (λ prog. (s : List String) × P s × (prog ≡ base_prog node s))
            (base_prog node sidecar) _ (sidecar, k, refl)
            (init_plan-Made node snap intent (base_prog node sidecar)))

  pub build_mark_ready_plan-Made :
      (node : SeiNode)
      → Holds (Made lib plan_id (T.mark_ready ∷ [])) (build_mark_ready_plan lib plan_id node)
  unfolding build_mark_ready_plan
  build_mark_ready_plan-Made node = assemble_steps-Made lib plan_id (step T.mark_ready _ ∷ [])

  -- The progression of an update, or that with config-apply in front of its patch.
  pub assemble_update_plan-Made :
      (node : SeiNode) (prog : List String) (patched : TaskParams)
      → Holds
          (MadeOf (λ out. (out ≡ prog) ⊎ Inserted T.config_apply prog out))
          (assemble_update_plan lib plan_id node prog patched)
  unfolding assemble_update_plan
  assemble_update_plan-Made node prog patched =
      Holds-and_then (λ out. (out ≡ prog) ⊎ Inserted T.config_apply prog out)
        (MadeOf (λ out. (out ≡ prog) ⊎ Inserted T.config_apply prog out))
        (if str_eq node.current_config_values_hash "" || config_values_drifted lib node
          then insert_before prog T.config_patch T.config_apply
          else built prog)
        _
        (if_elim (Holds (λ out. (out ≡ prog) ⊎ Inserted T.config_apply prog out))
          (str_eq node.current_config_values_hash "" || config_values_drifted lib node)
          (insert_before-Inserted prog T.config_patch T.config_apply) (inl refl))
        (λ out h.
          made_of (λ out. (out ≡ prog) ⊎ Inserted T.config_apply prog out) out _ h
            (drafted out _ _ node))
