-- ===== src/Engine/Types.antt =====
-- sidecar/engine/types.go: tasks and their recorded results.
use sei_k8s_controller.Prelude.{ℕ, String, Bool, true, false, Option}

pub data TaskStatus : Type 0 where
  running completed failed : TaskStatus

abbrev pub is_running : TaskStatus → Bool
is_running running = true
is_running _ = false

-- `type` is a wire string, and `params` the JSON of the parameters.
pub record Task : Type 0 where
  pub id : String
  pub type : String
  pub params : String

-- Instants are in nanoseconds.
pub record TaskResult : Type 0 where
  pub id : String
  pub type : String
  pub status : TaskStatus
  pub run : ℕ
  pub params : String
  pub result : Option String
  pub error : String
  pub submitted_at : ℕ
  pub completed_at : Option ℕ

abbrev pub mark_ready : String
mark_ready = "mark-ready"

abbrev pub mark_not_ready : String
mark_not_ready = "mark-not-ready"
