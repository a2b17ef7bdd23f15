-- ===== src/NodeTask/Types.antt =====
-- api/v1alpha1/seinodetask_types.go: a SeiNodeTask, without the payloads of the kinds, which only
-- the task package reads.
use sei_k8s_controller.Prelude.{ℕ, String, Bool, true, false, Option, List}
use sei_k8s_controller.Plan.Types.{TaskStatus, SeiNodePhase}

-- An unknown kind is `other`.
pub data SeiNodeTaskKind : Type 0 where
  gov_software_upgrade gov_vote gov_param_change gov_update_instantiate_config : SeiNodeTaskKind
  await_condition update_node_image await_nodes_at_height : SeiNodeTaskKind
  restart_seid mark_ready unjail : SeiNodeTaskKind
  other : String → SeiNodeTaskKind

-- `unset` is the empty string of an object that was never reconciled.
pub data SeiNodeTaskPhase : Type 0 where
  unset pending running complete failed : SeiNodeTaskPhase

pub record SeiNodeTaskTarget : Type 0 where
  pub node_name : String
  pub require_phase : Option SeiNodePhase
  pub require_phase_timeout : Option ℕ

-- `timeout_seconds` is 0 for the values that are not positive.
pub record SeiNodeTaskSpec : Type 0 where
  pub kind : SeiNodeTaskKind
  pub target : SeiNodeTaskTarget
  pub timeout_seconds : ℕ

pub record SeiNodeTaskExecution : Type 0 where
  pub id : String
  pub status : TaskStatus
  pub err : String
  pub submitted_at : Option ℕ
  pub execution_started_at : Option ℕ

pub record ProposalOutputs : Type 0 where
  pub tx_hash : String
  pub height : ℕ
  pub proposal_id : ℕ

pub record TxOutputs : Type 0 where
  pub tx_hash : String
  pub height : ℕ

pub record SeiNodeTaskOutputs : Type 0 where
  pub gov_software_upgrade : Option ProposalOutputs
  pub gov_vote : Option TxOutputs
  pub gov_param_change : Option ProposalOutputs
  pub gov_update_instantiate_config : Option ProposalOutputs
  pub await_condition : Option ℕ
  pub update_node_image : Option String
  pub await_nodes_at_height : Option ℕ
  pub unjail : Option TxOutputs

-- metav1.Condition, without its transition time; `status` is True or False.
pub record Condition : Type 0 where
  pub type : String
  pub status : Bool
  pub observed_generation : ℕ
  pub reason : String
  pub message : String

pub record SeiNodeTaskStatus : Type 0 where
  pub observed_generation : ℕ
  pub phase : SeiNodeTaskPhase
  pub task : Option SeiNodeTaskExecution
  pub outputs : Option SeiNodeTaskOutputs
  pub phase_transition_time : Option ℕ
  pub started_at : Option ℕ
  pub target_first_observed_at : Option ℕ
  pub conditions : List Condition

pub record SeiNodeTask : Type 0 where
  pub namespace : String
  pub uid : String
  pub generation : ℕ
  pub spec : SeiNodeTaskSpec
  pub status : SeiNodeTaskStatus

-- The part of the target SeiNode that a task reads.
pub record SeiNode : Type 0 where
  pub phase : Option SeiNodePhase
  pub current_image : String

-- sidecarapi/wire/wire.go
pub record GovTxResult : Type 0 where
  pub tx_hash : String
  pub height : ℕ
  pub proposal_id : ℕ
  pub inclusion_status : String

abbrev pub inclusion_committed_failed : String
inclusion_committed_failed = "committed_failed"

abbrev pub inclusion_pending : String
inclusion_pending = "pending"

abbrev pub is_running : SeiNodeTaskPhase → Bool
is_running SeiNodeTaskPhase.running = true
is_running _ = false

abbrev pub is_failed : SeiNodeTaskPhase → Bool
is_failed SeiNodeTaskPhase.failed = true
is_failed _ = false

abbrev pub is_terminal : SeiNodeTaskPhase → Bool
is_terminal SeiNodeTaskPhase.complete = true
is_terminal SeiNodeTaskPhase.failed = true
is_terminal _ = false
