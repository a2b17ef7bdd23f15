-- ===== src/Planner/Modes.antt =====
-- The planners of the node modes: full.go, archive.go, replay.go, validator.go and seed.go under
-- internal/planner.
use sei_k8s_controller.Prelude.{String, Option, none, some, [], if◌then◌else◌}
use sei_k8s_controller.Plan.Types.{TaskPlan}
use sei_k8s_controller.Node.{SeiNode, is_running}
use sei_k8s_controller.Drift.Node.{Platform}
use sei_k8s_controller.Planner.TaskTypes as T
use sei_k8s_controller.Planner.Params.{
  NodeMode, ConfigIntent, Library, needs_validate_node_key, full_node_overrides, archive_overrides,
  replayer_overrides, intent_of, merge_overrides, common_overrides,
}
use sei_k8s_controller.Planner.Tasks.{Built, built, refused}
use sei_k8s_controller.Planner.Progression.{
  is_genesis_ceremony_node, gate, key_gates, build_base_plan, build_genesis_plan,
}
use sei_k8s_controller.Planner.Update.{Planning, with_plan, build_running_plan}
use sei_k8s_controller.Planner.Validate.{
  full_validate, archive_validate, replayer_validate, validator_validate, seed_validate,
}

-- a sub-spec that is dereferenced while nil
abbrev pub nil_pointer : Built TaskPlan
nil_pointer = refused "nil pointer dereference"

-- the intent of the modes without overrides of their own
abbrev pub common_intent : Library → NodeMode → SeiNode → ConfigIntent
common_intent lib mode node = record {
  mode = some mode;
  overrides = merge_overrides (common_overrides lib node) node.overrides;
}

module _ (lib : Library) (plan_id : String) (p : Platform) where
  unfoldable pub full_build_plan : SeiNode → Planning
  unfolding build_running_plan build_base_plan full_node_overrides merge_overrides common_overrides
  full_build_plan node =
      if is_running node.phase
      then build_running_plan lib plan_id p [] node
      else with_plan node (elim (node.full_node) [
        | none ↦ nil_pointer
        | some fn ↦
            let intent = intent_of lib NodeMode.full (full_node_overrides lib fn) node in
            build_base_plan lib plan_id node fn.snapshot intent
      ])

  unfoldable pub archive_build_plan : SeiNode → Planning
  unfolding build_running_plan build_base_plan archive_overrides merge_overrides common_overrides
  archive_build_plan node =
      if is_running node.phase
      then build_running_plan lib plan_id p [] node
      else with_plan node (elim (node.archive) [
        | none ↦ nil_pointer
        | some a ↦
            let intent = intent_of lib NodeMode.archive (archive_overrides lib a) node in
            build_base_plan lib plan_id node none intent
      ])

  unfoldable pub replayer_build_plan : SeiNode → Planning
  unfolding build_running_plan build_base_plan merge_overrides common_overrides
  replayer_build_plan node =
      if is_running node.phase
      then build_running_plan lib plan_id p [] node
      else with_plan node (elim (node.replayer) [
        | none ↦ nil_pointer
        | some snap ↦
            let intent = intent_of lib NodeMode.full (replayer_overrides lib) node in
            build_base_plan lib plan_id node (some snap) intent
      ])

  unfoldable pub validator_build_plan : SeiNode → Planning
  unfolding build_running_plan key_gates is_genesis_ceremony_node build_genesis_plan build_base_plan
      merge_overrides common_overrides
  validator_build_plan node =
      if is_running node.phase
      then build_running_plan lib plan_id p (key_gates node) node
      else if is_genesis_ceremony_node node
      then with_plan node (build_genesis_plan lib plan_id node)
      else with_plan node (elim (node.validator) [
        | none ↦ nil_pointer
        | some v ↦
            build_base_plan lib plan_id node v.snapshot (common_intent lib NodeMode.validator node)
      ])

  unfoldable pub seed_build_plan : SeiNode → Planning
  unfolding build_running_plan needs_validate_node_key build_base_plan merge_overrides
      common_overrides
  seed_build_plan node =
      if is_running node.phase
      then build_running_plan lib plan_id p
          (gate (needs_validate_node_key node) T.validate_node_key) node
      else with_plan node
          (build_base_plan lib plan_id node none (common_intent lib NodeMode.seed node))

-- the planner of a mode
pub data ModePlanner : Type 0 where
  full_node archive_node replayer_node validator_node seed_node : ModePlanner

unfoldable pub planner_for_mode : SeiNode → Built ModePlanner
planner_for_mode node = elim (node.full_node) [
  | some _ ↦ built ModePlanner.full_node
  | none ↦ elim (node.archive) [
    | some _ ↦ built ModePlanner.archive_node
    | none ↦ elim (node.replayer) [
      | some _ ↦ built ModePlanner.replayer_node
      | none ↦ elim (node.validator) [
        | some _ ↦ built ModePlanner.validator_node
        | none ↦ elim (node.seed) [
          | some _ ↦ built ModePlanner.seed_node
          | none ↦ refused "no mode sub-spec set on SeiNode"
        ]
      ]
    ]
  ]
]

-- the methods of the interface NodePlanner, by the mode's planner
unfoldable pub mode_validate : ModePlanner → SeiNode → Option String
unfolding full_validate archive_validate replayer_validate validator_validate seed_validate
mode_validate ModePlanner.full_node node = full_validate node
mode_validate ModePlanner.archive_node node = archive_validate node
mode_validate ModePlanner.replayer_node node = replayer_validate node
mode_validate ModePlanner.validator_node node = validator_validate node
mode_validate ModePlanner.seed_node node = seed_validate node

unfoldable pub mode_build_plan : Library → String → Platform → ModePlanner → SeiNode → Planning
unfolding full_build_plan archive_build_plan replayer_build_plan validator_build_plan
    seed_build_plan
mode_build_plan lib plan_id p ModePlanner.full_node node = full_build_plan lib plan_id p node
mode_build_plan lib plan_id p ModePlanner.archive_node node = archive_build_plan lib plan_id p node
mode_build_plan lib plan_id p ModePlanner.replayer_node node =
    replayer_build_plan lib plan_id p node
mode_build_plan lib plan_id p ModePlanner.validator_node node =
    validator_build_plan lib plan_id p node
mode_build_plan lib plan_id p ModePlanner.seed_node node = seed_build_plan lib plan_id p node
