-- ===== src/Node.antt =====
-- A SeiNode as the planner sees it: api/v1alpha1/seinode_types.go and the mode sub-specs beside it.
use sei_k8s_controller.Prelude.{ℕ, String, Bool, true, false, Option, none, some, List, []}
use sei_k8s_controller.Prelude.Dict.{Dict, lookup, insert}
use sei_k8s_controller.Plan.Types.{TaskPlan, SeiNodePhase}

-- A nil pointer is `none`; a string that may be empty is a string.
pub record SchedulingConfig : Type 0 where
  pub node_isolation : String
  pub node_pool : String

-- `s3` is the target height of the S3 source.
pub record SnapshotSource : Type 0 where
  pub s3 : Option ℕ
  pub state_sync : Bool
  pub trust_period : String
  pub backfill_blocks : ℕ

-- spec.snapshotGeneration: the sub-struct tendermint, with its keepRecent and whether it publishes
pub record SnapshotGeneration : Type 0 where
  pub tendermint : Option (ℕ × Bool)

-- `freeze` is the height of the freeze.
pub record FullNodeSpec : Type 0 where
  pub snapshot : Option SnapshotSource
  pub snapshot_generation : Option SnapshotGeneration
  pub freeze : Option ℕ

pub record ArchiveSpec : Type 0 where
  pub snapshot_generation : Option SnapshotGeneration
  pub freeze : Option ℕ

pub record GenesisCeremony : Type 0 where
  pub chain_id : String
  pub staking_amount : String
  pub account_balance : String

-- A source of a key: its Secret's name, if it has the secret variant.
pub record KeySource : Type 0 where
  pub secret : Option String

pub record KeyringSecret : Type 0 where
  pub secret_name : String
  pub key_name : String
  pub passphrase_secret_name : String
  pub passphrase_key : String

pub record KeyringSource : Type 0 where
  pub secret : Option KeyringSecret

pub record ValidatorSpec : Type 0 where
  pub snapshot : Option SnapshotSource
  pub genesis_ceremony : Option GenesisCeremony
  pub signing_key : Option KeySource
  pub node_key : Option KeySource
  pub operator_keyring : Option KeyringSource

-- the raw JSON of one entry of spec.configValues
pub record ConfigValue : Type 0 where
  pub file_name : String
  pub key : String
  pub value : String

-- `no_hold` is the empty string.
pub data MaintenanceHold : Type 0 where
  no_hold immediate after_exit : MaintenanceHold

pub data ConditionStatus : Type 0 where
  is_true is_false unknown : ConditionStatus

-- metav1.Condition, without its message, time and generation, under its type
pub record NodeCondition : Type 0 where
  pub status : ConditionStatus
  pub reason : String

-- `sidecar_image` is spec.sidecar.image, with "" for a nil spec.sidecar; `label_peers` tells
-- whether spec.peers has a label source, and `peer_sources` counts all of them; `seed` and
-- `replayer` are the fields of the sub-specs; instants are in nanoseconds.
pub record SeiNode : Type 0 where
  pub name : String
  pub namespace : String
  pub annotations : Dict String
  pub creation_timestamp : ℕ
  pub image : String
  pub sidecar_image : String
  pub scheduling : Option SchedulingConfig
  pub full_node : Option FullNodeSpec
  pub archive : Option ArchiveSpec
  pub replayer : Option SnapshotSource
  pub validator : Option ValidatorSpec
  pub seed : Option KeySource
  pub autobahn : Bool
  pub peer_sources : ℕ
  pub label_peers : Bool
  pub external_address : String
  pub overrides : Dict String
  pub config_values : List ConfigValue
  pub has_node_config : Bool
  pub paused : Bool
  pub hold_requested : MaintenanceHold
  pub wanted_reset_generation : ℕ
  pub data_reset_generation : ℕ
  pub phase : Option SeiNodePhase
  pub phase_transition_time : Option ℕ
  pub plan : Option TaskPlan
  pub maintenance_hold : MaintenanceHold
  pub resolved_peers : List String
  pub resolved_state_syncers : List String
  pub current_image : String
  pub current_sidecar_image : String
  pub current_node_isolation : String
  pub current_node_pool : String
  pub current_config_values_hash : String
  pub conditions : Dict NodeCondition

-- the zero value
abbrev pub plain_node : SeiNode
plain_node = record {
  name = "";
  namespace = "";
  annotations = [];
  creation_timestamp = 0;
  image = "";
  sidecar_image = "";
  scheduling = none;
  full_node = none;
  archive = none;
  replayer = none;
  validator = none;
  seed = none;
  autobahn = false;
  peer_sources = 0;
  label_peers = false;
  external_address = "";
  overrides = [];
  config_values = [];
  has_node_config = false;
  paused = false;
  hold_requested = MaintenanceHold.no_hold;
  wanted_reset_generation = 0;
  data_reset_generation = 0;
  phase = none;
  phase_transition_time = none;
  plan = none;
  maintenance_hold = MaintenanceHold.no_hold;
  resolved_peers = [];
  resolved_state_syncers = [];
  current_image = "";
  current_sidecar_image = "";
  current_node_isolation = "";
  current_node_pool = "";
  current_config_values_hash = "";
  conditions = [];
}

abbrev pub same_hold : MaintenanceHold → MaintenanceHold → Bool
same_hold MaintenanceHold.no_hold MaintenanceHold.no_hold = true
same_hold MaintenanceHold.immediate MaintenanceHold.immediate = true
same_hold MaintenanceHold.after_exit MaintenanceHold.after_exit = true
same_hold _ _ = false

abbrev pub is_held : MaintenanceHold → Bool
is_held MaintenanceHold.no_hold = false
is_held _ = true

abbrev pub is_running : Option SeiNodePhase → Bool
is_running (some SeiNodePhase.running) = true
is_running _ = false

-- the status of a condition that was found or not
abbrev pub found_true : Option NodeCondition → Bool
found_true none = false
found_true (some c) = elim (c.status) [ ConditionStatus.is_true ↦ true | _ ↦ false ]

-- meta.FindStatusCondition and a test for True
unfoldable pub condition_true : String → SeiNode → Bool
unfolding lookup
condition_true type node = found_true (lookup type node.conditions)

-- meta.SetStatusCondition
unfoldable pub set_condition : String → ConditionStatus → String → SeiNode → SeiNode
unfolding insert
set_condition type status reason node = record node {
  conditions = insert type (record { status = status; reason = reason }) node.conditions;
}

-- spec.SnapshotSource
unfoldable pub snapshot_source : SeiNode → Option SnapshotSource
snapshot_source node = elim (node.full_node) [
  | some fn ↦ fn.snapshot
  | none ↦ elim (node.validator) [ some v ↦ v.snapshot | none ↦ node.replayer ]
]

-- spec.NodeKeySecret
unfoldable pub node_key_secret : SeiNode → Option String
node_key_secret node =
    let seed_key : Option String = elim (node.seed) [ some k ↦ k.secret | none ↦ none ] in
    elim (node.validator) [
      | none ↦ seed_key
      | some v ↦ elim (v.node_key) [ some k ↦ k.secret | none ↦ seed_key ]
    ]
