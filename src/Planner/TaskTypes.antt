-- ===== src/Planner/TaskTypes.antt =====
-- The task types that plans are made of: sidecarapi/wire/wire.go:17-65 and the constants of
-- internal/task.
use sei_k8s_controller.Prelude.{String, List, [], ◌∷◌}

abbrev pub snapshot_restore : String
snapshot_restore = "snapshot-restore"

abbrev pub config_patch : String
config_patch = "config-patch"

abbrev pub config_apply : String
config_apply = "config-apply"

abbrev pub config_validate : String
config_validate = "config-validate"

abbrev pub mark_ready : String
mark_ready = "mark-ready"

abbrev pub mark_not_ready : String
mark_not_ready = "mark-not-ready"

abbrev pub stop_seid : String
stop_seid = "stop-seid"

abbrev pub restart_seid : String
restart_seid = "restart-seid"

abbrev pub await_seid_start : String
await_seid_start = "await-seid-start"

abbrev pub start_seid_once : String
start_seid_once = "start-seid-once"

abbrev pub reset_data_keep_sign_state : String
reset_data_keep_sign_state = "reset-data-keep-sign-state"

abbrev pub configure_genesis : String
configure_genesis = "configure-genesis"

abbrev pub configure_state_sync : String
configure_state_sync = "configure-state-sync"

abbrev pub generate_identity : String
generate_identity = "generate-identity"

abbrev pub generate_gentx : String
generate_gentx = "generate-gentx"

abbrev pub upload_genesis_artifacts : String
upload_genesis_artifacts = "upload-genesis-artifacts"

abbrev pub set_genesis_peers : String
set_genesis_peers = "set-genesis-peers"

abbrev pub assemble_genesis : String
assemble_genesis = "assemble-and-upload-genesis"

abbrev pub ensure_data_pvc : String
ensure_data_pvc = "ensure-data-pvc"

abbrev pub apply_statefulset : String
apply_statefulset = "apply-statefulset"

abbrev pub apply_service : String
apply_service = "apply-service"

abbrev pub apply_rbac_proxy_config : String
apply_rbac_proxy_config = "apply-rbac-proxy-config"

abbrev pub replace_pod : String
replace_pod = "replace-pod"

abbrev pub observe_image : String
observe_image = "observe-image"

abbrev pub validate_signing_key : String
validate_signing_key = "validate-signing-key"

abbrev pub validate_node_key : String
validate_node_key = "validate-node-key"

abbrev pub validate_operator_keyring : String
validate_operator_keyring = "validate-operator-keyring"

abbrev pub record_data_reset : String
record_data_reset = "record-data-reset"

abbrev pub record_maintenance_hold : String
record_maintenance_hold = "record-maintenance-hold"

-- mountedConfigWriters (internal/planner/static_config.go)
abbrev pub mounted_config_writers : List String
mounted_config_writers =
    config_apply ∷ config_patch ∷ configure_state_sync ∷ set_genesis_peers ∷ generate_identity ∷ []
