-- ===== src/Plan/Types.antt =====
-- api/v1alpha1/seinode_types.go: a plan, its tasks, and the part of an owner that a plan writes.
use sei_k8s_controller.Prelude.{ℕ, String, Bool, true, false, Option, List}

pub data TaskPlanPhase : Type 0 where
  active complete failed : TaskPlanPhase

-- Two enums share the names `complete` and `failed`; those of a task carry their type.
pub data TaskStatus : Type 0 where
  pending running complete failed : TaskStatus

pub data SeiNodePhase : Type 0 where
  pending initializing running failed terminating : SeiNodePhase

-- Instants and durations are in nanoseconds; `params` is the raw JSON. Go's `int` counters are
-- non-negative here.
pub record PlannedTask : Type 0 where
  pub type : String
  pub id : String
  pub status : TaskStatus
  pub params : Option String
  pub submitted_at : Option ℕ
  pub error : String
  pub max_retries : ℕ
  pub retry_count : ℕ

pub record FailedTaskInfo : Type 0 where
  pub type : String
  pub id : String
  pub error : String
  pub retry_count : ℕ
  pub max_retries : ℕ

-- An empty phase in the source is `none`.
pub record TaskPlan : Type 0 where
  pub id : String
  pub phase : TaskPlanPhase
  pub tasks : List PlannedTask
  pub target_phase : Option SeiNodePhase
  pub config_values_hash : String
  pub failed_phase : Option SeiNodePhase
  pub failed_task_index : Option ℕ
  pub failed_task_detail : Option FailedTaskInfo

-- The status fields of a SeiNode that the executor writes.
pub record NodeStatus : Type 0 where
  pub phase : Option SeiNodePhase
  pub phase_transition_time : Option ℕ
  pub current_config_values_hash : String

-- The object that carries the plan: a SeiNode, or one whose status the executor leaves alone.
pub data Owner : Type 0 where
  sei_node : NodeStatus → Owner
  other_object : Owner

abbrev pub is_complete : TaskStatus → Bool
is_complete TaskStatus.complete = true
is_complete _ = false

abbrev pub is_pending : TaskStatus → Bool
is_pending TaskStatus.pending = true
is_pending _ = false
