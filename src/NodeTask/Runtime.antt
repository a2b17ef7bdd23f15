-- ===== src/NodeTask/Runtime.antt =====
-- What the reconciler of internal/controller/nodetask calls: the API server, the task package, the
-- conditions helper of apimachinery and fmt, all of them acting on a world.
use sei_k8s_controller.Prelude.{ℕ, String, Bool, Option, List}
use sei_k8s_controller.Plan.Types.{SeiNodePhase}
use sei_k8s_controller.Plan.Runtime.{ExecutionStatus, ExecuteResult, Deserialized}
use sei_k8s_controller.NodeTask.Types.{
  SeiNodeTaskKind, SeiNodeTaskStatus, SeiNodeTask, SeiNode, Condition, GovTxResult,
}

-- client.Client's Get
pub data Get (A : Type 0) : Type 0 where
  found : A → Get A
  not_found : Get A
  error : String → Get A

-- task.SeiNodeTaskParamsFor and json.Marshal: a task type with its payload, or a failure with its
-- reason.
pub data TaskParams : Type 0 where
  params : String → Option String → TaskParams
  error : (reason msg : String) → TaskParams

pub record Runtime (W E : Type 0) : Type 0 where
  pub get_node : String → String → W → Get SeiNode
  -- Status().Patch with an optimistic lock; an error on failure
  pub patch_status : SeiNodeTask → W → Option String × W
  -- apiequality.Semantic.DeepEqual
  pub same_status : SeiNodeTaskStatus → SeiNodeTaskStatus → Bool
  -- apimeta.SetStatusCondition
  pub set_status_condition : List Condition → Condition → List Condition
  pub event : (reason msg : String) → W → W
  pub task_params : SeiNodeTask → Option SeiNode → TaskParams
  pub task_id : String → SeiNodeTaskKind → String
  pub deserialize : String → String → Option String → W → Deserialized E
  pub execute : E → W → ExecuteResult × W
  pub status : E → W → ExecutionStatus × W
  pub err : E → W → Option String
  -- the raw result of an execution that has the `Result` method
  pub raw_result : E → W → Option String
  -- json.Unmarshal into a GovTxResult
  pub unmarshal : String → Option GovTxResult
  -- the texts that fmt builds
  pub target_missing : (name namespace : String) → String
  pub target_late : String → SeiNodePhase → ℕ → Option SeiNodePhase → String
  pub target_met : String → SeiNodePhase → String
  pub target_waiting : String → SeiNodePhase → Option SeiNodePhase → String
  pub not_completed_within : ℕ → String
