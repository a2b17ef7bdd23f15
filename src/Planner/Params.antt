-- ===== src/Planner/Params.antt =====
-- The parameters of the planned tasks: `paramsForTaskType` and the overrides of
-- internal/planner/planner.go. The up-check of a node (internal/noderesource) is a parameter.
use sei_k8s_controller.Prelude.{
  ℕ, String, Bool, true, false, not, Option, none, some, List, [], ◌∷◌, str_eq, if◌then◌else◌,
}
use sei_k8s_controller.Prelude.Dict.{Dict, insert}
use sei_k8s_controller.Node.{
  ConfigValue, SnapshotSource, FullNodeSpec, ArchiveSpec, GenesisCeremony, KeyringSecret,
  MaintenanceHold, SeiNode, snapshot_source, node_key_secret,
}
use sei_k8s_controller.Drift.Node.{is_empty}
use sei_k8s_controller.Planner.TaskTypes as T

pub data NodeMode : Type 0 where
  full archive validator seed : NodeMode

-- seiconfig.ConfigIntent
pub record ConfigIntent : Type 0 where
  pub mode : Option NodeMode
  pub overrides : Dict String

pub data TaskParams : Type 0 where
  -- the params of the tasks that act on the node's own objects
  node_ref : (node_name namespace : String) → TaskParams
  -- ValidateSigningKeyParams and ValidateNodeKeyParams
  secret_ref : (secret_name namespace : String) → TaskParams
  keyring_ref : KeyringSecret → (namespace : String) → TaskParams
  snapshot_height : ℕ → TaskParams
  genesis_config : (autobahn : Bool) → TaskParams
  intent : ConfigIntent → TaskParams
  witnesses :
      (use_local_snapshot : Bool) (rpc_servers : List String) (trust_period : String)
      (backfill_blocks : ℕ)
      → TaskParams
  -- the up-check, in the form of its JSON
  up_check : String → TaskParams
  identity : (chain_id moniker : String) → TaskParams
  gentx : (chain_id staking_amount account_balance : String) → TaskParams
  artifacts : (node_name namespace : String) → (autobahn : Bool) → TaskParams
  -- the patch of the [p2p] table
  p2p_patch : (external_address persistent_peers : String) → TaskParams
  -- a patch without files
  empty_patch : TaskParams
  -- a merge patch, in the form of its JSON
  overlay : String → TaskParams
  reset_generation : ℕ → TaskParams
  hold : MaintenanceHold → TaskParams
  -- a task struct without fields
  no_fields : TaskParams
  -- nil
  no_params : TaskParams

-- JSON text, or the error of the code that makes it
pub data Encoded : Type 0 where
  json : String → Encoded
  failed : String → Encoded

-- What plan construction calls: uuid.NewSHA1 on plan, type and index (task.DeterministicTaskID),
-- json.Marshal, sei-config, strings.Join, strings.Contains and strconv; noderesource.UpCheckForNode;
-- the hash of spec.configValues (config_overlay.go:179-248), and the merge patch that they and the
-- consensus engine ask for (config_overlay.go:27-60 and consensus_overlay.go).
pub record Library : Type 0 where
  pub task_id : String → String → ℕ → String
  pub marshal : TaskParams → Encoded
  pub config_values_hash : List ConfigValue → Encoded
  pub overlay_patch : SeiNode → Encoded
  pub up_check_of : SeiNode → String
  pub join : List String → String
  pub contains : String → String → Bool
  pub decimal : ℕ → String
  pub snapshot_generation_overrides : ℕ → Dict String
  pub key_external_address : String
  pub key_snapshot_interval : String
  pub key_snapshot_keep_recent : String
  pub default_snapshot_interval : ℕ

unfoldable pub needs_validate_signing_key : SeiNode → Bool
needs_validate_signing_key node = elim (node.validator) [
  | none ↦ false
  | some v ↦ elim (v.signing_key) [
    | none ↦ false
    | some k ↦ elim (k.secret) [ none ↦ false | some name ↦ not (is_empty name) ]
  ]
]

unfoldable pub needs_validate_node_key : SeiNode → Bool
unfolding node_key_secret
needs_validate_node_key node = elim (node_key_secret node) [
  | none ↦ false
  | some name ↦ not (is_empty name)
]

unfoldable pub needs_validate_operator_keyring : SeiNode → Bool
needs_validate_operator_keyring node = elim (node.validator) [
  | none ↦ false
  | some v ↦ elim (v.operator_keyring) [
    | none ↦ false
    | some k ↦ elim (k.secret) [ none ↦ false | some s ↦ not (is_empty s.secret_name) ]
  ]
]

abbrev pub default_operator_key_name : String
default_operator_key_name = "node_admin"

unfoldable pub validate_signing_key_params : SeiNode → TaskParams
validate_signing_key_params node = elim (node.validator) [
  | none ↦ no_params
  | some v ↦ elim (v.signing_key) [
    | none ↦ no_params
    | some k ↦ elim (k.secret) [
      | none ↦ no_params
      | some name ↦ if is_empty name then no_params else secret_ref name node.namespace
    ]
  ]
]

unfoldable pub validate_node_key_params : SeiNode → TaskParams
unfolding node_key_secret
validate_node_key_params node = elim (node_key_secret node) [
  | none ↦ no_params
  | some name ↦ if is_empty name then no_params else secret_ref name node.namespace
]

abbrev pub with_key_name : KeyringSecret → KeyringSecret
with_key_name s =
    if is_empty s.key_name then record s { key_name = default_operator_key_name } else s

unfoldable pub validate_operator_keyring_params : SeiNode → TaskParams
validate_operator_keyring_params node = elim (node.validator) [
  | none ↦ no_params
  | some v ↦ elim (v.operator_keyring) [
    | none ↦ no_params
    | some k ↦ elim (k.secret) [
      | none ↦ no_params
      | some s ↦
          if is_empty s.secret_name then no_params else keyring_ref (with_key_name s) node.namespace
    ]
  ]
]

unfoldable pub genesis_ceremony_task_params : SeiNode → String → TaskParams
genesis_ceremony_task_params node type =
    let ceremony : Option GenesisCeremony = elim (node.validator) [
      | none ↦ none
      | some v ↦ v.genesis_ceremony
    ] in
    elim ceremony [
      | none ↦ no_params
      | some gc ↦
          if str_eq type T.generate_identity
          then identity gc.chain_id node.name
          else if str_eq type T.generate_gentx
          then gentx gc.chain_id gc.staking_amount gc.account_balance
          else if str_eq type T.upload_genesis_artifacts
          then artifacts node.name node.namespace node.autobahn
          else if str_eq type T.set_genesis_peers
          then no_fields
          else no_params
    ]

unfoldable pub has_s3_snapshot : Option SnapshotSource → Bool
has_s3_snapshot none = false
has_s3_snapshot (some s) = elim (s.s3) [ none ↦ false | some h ↦ true ]

unfoldable pub snapshot_restore_task : Option SnapshotSource → TaskParams
snapshot_restore_task none = snapshot_height 0
snapshot_restore_task (some s) = elim (s.s3) [
  | none ↦ snapshot_height 0
  | some h ↦ snapshot_height h
]

unfoldable pub configure_state_sync_task : SeiNode → TaskParams
unfolding snapshot_source has_s3_snapshot
configure_state_sync_task node =
    let snap = snapshot_source node in
    let local = has_s3_snapshot snap in
    elim snap [
      | none ↦ witnesses local node.resolved_state_syncers "" 0
      | some s ↦ witnesses local node.resolved_state_syncers s.trust_period s.backfill_blocks
    ]

-- maps.Copy of each map in turn: the later one wins
abbrev pub copy_over : Dict String → Dict String → Dict String
copy_over base [] = base
copy_over base ((k, v) ∷ more) = insert k v (copy_over base more)

unfoldable pub merge_overrides : Dict String → Dict String → Dict String
unfolding insert
merge_overrides controller user = copy_over (copy_over [] controller) user

module _ (lib : Library) where
  unfoldable pub freeze_overrides : Option ℕ → Dict String
  freeze_overrides none = []
  freeze_overrides (some height) = ("chain.freeze_height", lib.decimal height) ∷ []

  unfoldable pub common_overrides : SeiNode → Dict String
  unfolding insert
  common_overrides node =
      let out : Dict String =
        ("logging.level", "error")
        ∷ ("network.p2p.persistent_peers", lib.join node.resolved_peers)
        ∷ [] in
      if is_empty node.external_address
      then out
      else insert lib.key_external_address node.external_address out

  unfoldable pub full_node_overrides : FullNodeSpec → Dict String
  unfolding freeze_overrides
  full_node_overrides fn = elim (fn.freeze) [
    | some h ↦ freeze_overrides (some h)
    | none ↦ elim (fn.snapshot_generation) [
      | none ↦ []
      | some sg ↦ elim (sg.tendermint) [
        | none ↦ []
        | some t ↦ lib.snapshot_generation_overrides (t.0)
      ]
    ]
  ]

  unfoldable pub archive_overrides : ArchiveSpec → Dict String
  unfolding freeze_overrides
  archive_overrides a = elim (a.freeze) [
    | some h ↦ freeze_overrides (some h)
    | none ↦ elim (a.snapshot_generation) [
      | none ↦ []
      | some sg ↦ elim (sg.tendermint) [
        | none ↦ []
        | some t ↦
            (lib.key_snapshot_interval, lib.decimal lib.default_snapshot_interval)
            ∷ (lib.key_snapshot_keep_recent, lib.decimal (t.0))
            ∷ []
      ]
    ]
  ]

  abbrev pub replayer_overrides : Dict String
  replayer_overrides =
      ("storage.state_commit.async_commit_buffer", "100")
      ∷ ("storage.state_commit.memiavl.snapshot_keep_recent", "2")
      ∷ ("storage.state_commit.memiavl.snapshot_min_time_interval", "3600")
      ∷ []

  abbrev pub intent_of : NodeMode → Dict String → SeiNode → ConfigIntent
  intent_of mode own node = record {
    mode = some mode;
    overrides = merge_overrides (merge_overrides (common_overrides node) own) node.overrides;
  }

  -- the intent of a running node, by the mode sub-spec that is set
  unfoldable pub running_config_intent : SeiNode → ConfigIntent
  unfolding full_node_overrides archive_overrides merge_overrides common_overrides
  running_config_intent node = elim (node.full_node) [
    | some fn ↦ intent_of NodeMode.full (full_node_overrides fn) node
    | none ↦ elim (node.archive) [
      | some a ↦ intent_of NodeMode.archive (archive_overrides a) node
      | none ↦ elim (node.validator) [
        | some v ↦ intent_of NodeMode.validator [] node
        | none ↦ elim (node.seed) [
          | some k ↦ intent_of NodeMode.seed [] node
          | none ↦ elim (node.replayer) [
            | some r ↦ intent_of NodeMode.full replayer_overrides node
            | none ↦ intent_of NodeMode.full [] node
          ]
        ]
      ]
    ]
  ]

  abbrev pub intent_or_empty : Option ConfigIntent → ConfigIntent
  intent_or_empty none = record { mode = none; overrides = [] }
  intent_or_empty (some i) = i

  unfoldable pub params_for_task_type :
      SeiNode → String → Option SnapshotSource → Option ConfigIntent → TaskParams
  params_for_task_type node type snap config_intent =
      let own = node_ref node.name node.namespace in
      if str_eq type T.ensure_data_pvc
      then own
      else if str_eq type T.apply_statefulset
      then own
      else if str_eq type T.apply_service
      then own
      else if str_eq type T.apply_rbac_proxy_config
      then own
      else if str_eq type T.replace_pod
      then own
      else if str_eq type T.observe_image
      then own
      else if str_eq type T.validate_signing_key
      then validate_signing_key_params node
      else if str_eq type T.validate_node_key
      then validate_node_key_params node
      else if str_eq type T.validate_operator_keyring
      then validate_operator_keyring_params node
      else if str_eq type T.snapshot_restore
      then snapshot_restore_task snap
      else if str_eq type T.configure_genesis
      then genesis_config node.autobahn
      else if str_eq type T.config_apply
      then intent (intent_or_empty config_intent)
      else if str_eq type T.configure_state_sync
      then configure_state_sync_task node
      else if str_eq type T.config_validate
      then no_fields
      else if str_eq type T.mark_ready
      then no_fields
      else if str_eq type T.restart_seid
      then up_check (lib.up_check_of node)
      else genesis_ceremony_task_params node type

  -- `patched` is what a config-patch task of the progression applies: the [p2p] patch or nothing
  unfoldable pub params_for_update_task : SeiNode → String → TaskParams → TaskParams
  params_for_update_task node type patched =
      if str_eq type T.config_apply
      then intent (running_config_intent node)
      else if str_eq type T.config_patch
      then patched
      else params_for_task_type node type none none

  unfoldable pub p2p_config_patch : SeiNode → TaskParams
  p2p_config_patch node = p2p_patch node.external_address (lib.join node.resolved_peers)
