-- ===== src/Plan/Runtime.antt =====
-- internal/task/task.go: what the executor sees of a task. The implementations behind the
-- interface act on a world that the executor only threads through.
use sei_k8s_controller.Prelude.{ℕ, String, Option}

pub data ExecutionStatus : Type 0 where
  running complete failed : ExecutionStatus
  -- any other string, the empty one of a task that was not started among them
  other : String → ExecutionStatus

-- The error of `Execute`: `errors.As` finds a `TerminalError` in it or does not.
pub data ExecuteResult : Type 0 where
  ok : ExecuteResult
  terminal : String → ExecuteResult
  transient : String → ExecuteResult

pub data Deserialized (E : Type 0) : Type 0 where
  task : E → Deserialized E
  error : String → Deserialized E

-- `deserialize` is task.Deserialize under the reconcile's ExecutionConfig; `execute`, `status` and
-- `err` are the methods of TaskExecution; `now` is the clock.
pub record Runtime (W E : Type 0) : Type 0 where
  pub deserialize : String → String → Option String → W → Deserialized E
  pub execute : E → W → ExecuteResult × W
  pub status : E → W → ExecutionStatus × W
  pub err : E → W → Option String
  pub now : W → ℕ
