-- ===== src/Planner/Config.antt =====
-- The tasks that write the configuration: internal/planner/config_overlay.go:62-99 and
-- static_config.go:15-74.
use sei_k8s_controller.Prelude.{
  ℕ, suc, String, Bool, true, false, not, ◌&&◌, ◌||◌, Option, none, some, List, [], ◌∷◌, str_eq,
  ◌==◌, length, if◌then◌else◌,
}
use sei_k8s_controller.Plan.Types.{PlannedTask, TaskPlan}
use sei_k8s_controller.Node.{SeiNode}
use sei_k8s_controller.Planner.TaskTypes as T
use sei_k8s_controller.Planner.Params.{TaskParams, Encoded, Library}
use sei_k8s_controller.Planner.Tasks.{Built, built, refused, and_then, contains, build_planned_task}

abbrev pub is_nil {ℓ} : {A : Type ℓ} → List A → Bool
is_nil [] = true
is_nil _ = false

module _ (lib : Library) where
  -- The loop over the plan's tasks from position `i` of the new plan.
  unfoldable pub splice_overlay : String → String → List PlannedTask → ℕ → Built (List PlannedTask)
  unfolding build_planned_task
  splice_overlay plan_id patch [] i = built []
  splice_overlay plan_id patch (t ∷ ts) i =
      let rest : ℕ → Built (List PlannedTask) = splice_overlay plan_id patch ts in
      if str_eq t.type T.config_validate
      then and_then (build_planned_task lib plan_id T.config_patch i (TaskParams.overlay patch))
          (λ o.
            and_then (rest (suc (suc i)))
              (λ us. built (o ∷ record t { id = lib.task_id plan_id t.type (suc i) } ∷ us)))
      else and_then (rest (suc i))
          (λ us. built (record t { id = lib.task_id plan_id t.type i } ∷ us))

  -- the plan with the overlay of a patch
  unfoldable pub with_overlay : TaskPlan → Encoded → Built TaskPlan
  unfolding splice_overlay
  with_overlay plan (Encoded.failed e) = refused e
  with_overlay plan (Encoded.json patch) =
      and_then (splice_overlay plan.id patch plan.tasks 0) (λ tasks.
        if length tasks == length plan.tasks
        then refused "configValues: cannot splice overlay: plan has no config-validate task"
        else built (record plan { tasks = tasks }))

  -- the plan with the hash of the values
  unfoldable pub with_hash : TaskPlan → SeiNode → Encoded → Built TaskPlan
  unfolding with_overlay
  with_hash plan node (Encoded.failed e) = refused e
  with_hash plan node (Encoded.json hash) =
      let stamped = record plan { config_values_hash = hash } in
      if is_nil node.config_values && not node.autobahn
      then built stamped
      else with_overlay stamped (lib.overlay_patch node)

  unfoldable pub with_config_values : TaskPlan → SeiNode → Built TaskPlan
  unfolding with_hash
  with_config_values plan node = with_hash plan node (lib.config_values_hash node.config_values)

  unfoldable pub config_values_drifted : SeiNode → Bool
  config_values_drifted node =
      if str_eq node.current_config_values_hash ""
      then false
      else elim (lib.config_values_hash node.config_values) [
        | Encoded.failed e ↦ true
        | Encoded.json hash ↦ not (str_eq hash node.current_config_values_hash)
      ]

-- the condition of the deletion in withoutManagedConfigTasks
unfoldable pub is_managed_config_task : String → Bool
unfolding contains
is_managed_config_task type =
    str_eq type T.config_validate || contains type T.mounted_config_writers

unfoldable pub drop_managed : List String → List String
unfolding is_managed_config_task
drop_managed [] = []
drop_managed (t ∷ ts) =
    let rest = drop_managed ts in if is_managed_config_task t then rest else t ∷ rest

unfoldable pub without_managed_config_tasks : SeiNode → List String → List String
unfolding drop_managed
without_managed_config_tasks node prog = if node.has_node_config then drop_managed prog else prog

unfoldable pub first_writer : List PlannedTask → Option String
unfolding contains
first_writer [] = none
first_writer (t ∷ ts) =
    let rest = first_writer ts in
    if contains t.type T.mounted_config_writers then some t.type else rest

-- `none` is the empty string: the plan is safe
unfoldable pub mounted_config_writer_in_plan : SeiNode → Option TaskPlan → Option String
unfolding first_writer
mounted_config_writer_in_plan node none = none
mounted_config_writer_in_plan node (some plan) =
    if node.has_node_config then first_writer plan.tasks else none
