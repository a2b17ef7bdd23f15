-- ===== src/Planner/Progression.antt =====
-- The init plans: buildSidecarProgression and buildBasePlan (internal/planner/planner.go) and
-- buildGenesisPlan (genesis.go).
use sei_k8s_controller.Prelude.{
  String, Bool, true, false, Option, none, some, List, [], ◌∷◌, ◌++◌, if◌then◌else◌,
}
use sei_k8s_controller.Plan.Types.{SeiNodePhase, TaskPlan}
use sei_k8s_controller.Node.{SnapshotSource, SeiNode}
use sei_k8s_controller.Planner.TaskTypes as T
use sei_k8s_controller.Planner.Params.{
  NodeMode, ConfigIntent, TaskParams, Library, needs_validate_signing_key, needs_validate_node_key,
  needs_validate_operator_keyring, has_s3_snapshot, merge_overrides, common_overrides,
  params_for_task_type,
}
use sei_k8s_controller.Planner.Tasks.{
  Built, built, and_then, insert_before, active_plan, steps_of, build_tasks,
}
use sei_k8s_controller.Planner.Config.{with_config_values, without_managed_config_tasks}

unfoldable pub is_genesis_ceremony_node : SeiNode → Bool
is_genesis_ceremony_node node = elim (node.validator) [
  | none ↦ false
  | some v ↦ elim (v.genesis_ceremony) [ none ↦ false | some gc ↦ true ]
]

unfoldable pub needs_state_sync_witnesses : Option SnapshotSource → Bool
needs_state_sync_witnesses none = false
needs_state_sync_witnesses (some s) = true

pub data BootstrapMode : Type 0 where
  from_snapshot from_state_sync from_genesis : BootstrapMode

unfoldable pub has_state_sync : Option SnapshotSource → Bool
has_state_sync none = false
has_state_sync (some s) = s.state_sync

unfoldable pub bootstrap_mode : Option SnapshotSource → BootstrapMode
unfolding has_s3_snapshot has_state_sync
bootstrap_mode snap =
    if has_s3_snapshot snap
    then BootstrapMode.from_snapshot
    else if has_state_sync snap
    then BootstrapMode.from_state_sync
    else BootstrapMode.from_genesis

abbrev pub config_progression : List String
config_progression = T.config_apply ∷ T.config_validate ∷ T.mark_ready ∷ []

unfoldable pub base_progression : BootstrapMode → List String
base_progression BootstrapMode.from_snapshot = T.snapshot_restore ∷ config_progression
base_progression BootstrapMode.from_state_sync = config_progression
base_progression BootstrapMode.from_genesis = config_progression

unfoldable pub build_sidecar_progression : Option SnapshotSource → Built (List String)
unfolding bootstrap_mode base_progression insert_before needs_state_sync_witnesses
build_sidecar_progression snap =
    and_then
      (insert_before (base_progression (bootstrap_mode snap)) T.config_apply T.configure_genesis)
      (λ prog.
        if needs_state_sync_witnesses snap
        then insert_before prog T.config_validate T.configure_state_sync
        else built prog)

-- one optional entry of a progression
abbrev pub gate : Bool → String → List String
gate true type = type ∷ []
gate false type = []

-- the key validations that the planners put first
unfoldable pub key_gates : SeiNode → List String
unfolding needs_validate_signing_key needs_validate_node_key needs_validate_operator_keyring
key_gates node =
    gate (needs_validate_signing_key node) T.validate_signing_key
    ++ gate (needs_validate_node_key node) T.validate_node_key
    ++ gate (needs_validate_operator_keyring node) T.validate_operator_keyring

-- the infrastructure tasks of buildBasePlan
unfoldable pub infrastructure : SeiNode → List String
unfolding key_gates
infrastructure node =
    (T.ensure_data_pvc ∷ key_gates node)
    ++ (T.apply_rbac_proxy_config ∷ T.apply_statefulset ∷ T.apply_service ∷ [])

abbrev pub genesis_progression : List String
genesis_progression =
    T.ensure_data_pvc ∷ T.apply_rbac_proxy_config ∷ T.apply_statefulset ∷ T.apply_service
    ∷ T.generate_identity ∷ T.generate_gentx ∷ T.upload_genesis_artifacts ∷ T.configure_genesis
    ∷ T.config_apply ∷ T.set_genesis_peers ∷ T.config_validate ∷ T.mark_ready ∷ []

module _ (lib : Library) (plan_id : String) where
  -- the end of both builders: params, ids and the plan that fails the node when it fails
  unfoldable pub init_plan :
      SeiNode → Option SnapshotSource → ConfigIntent → List String → Built TaskPlan
  unfolding params_for_task_type build_tasks with_config_values
  init_plan node snap intent prog =
      let params : String → TaskParams =
        λ type. params_for_task_type lib node type snap (some intent) in
      and_then (build_tasks lib plan_id 0 (steps_of params prog)) (λ tasks.
        with_config_values lib (active_plan plan_id tasks (some SeiNodePhase.failed)) node)

  unfoldable pub build_base_plan : SeiNode → Option SnapshotSource → ConfigIntent → Built TaskPlan
  unfolding build_sidecar_progression without_managed_config_tasks infrastructure init_plan
  build_base_plan node snap intent = and_then (build_sidecar_progression snap) (λ sidecar_prog.
      init_plan node snap intent
        (infrastructure node ++ without_managed_config_tasks node sidecar_prog))

  unfoldable pub build_genesis_plan : SeiNode → Built TaskPlan
  unfolding merge_overrides common_overrides init_plan
  build_genesis_plan node =
      init_plan node none
        (record {
          mode = some NodeMode.validator;
          overrides = merge_overrides (common_overrides lib node) node.overrides;
        })
        genesis_progression
