-- ===== src/NodeTask/Drive.antt =====
-- `driveTask`, `markComplete` and `handleFailure` of internal/controller/nodetask/controller.go.
use sei_k8s_controller.Prelude.{ℕ, String, true, Option, none, some, str_eq, if◌then◌else◌}
use sei_k8s_controller.Plan.Types.{TaskStatus, is_pending}
use sei_k8s_controller.Plan.Runtime.{
  ExecutionStatus, ExecuteResult, ok, terminal, transient, Deserialized,
}
use sei_k8s_controller.NodeTask.Types.{
  SeiNodeTaskPhase, SeiNodeTaskExecution, SeiNode, GovTxResult, inclusion_committed_failed,
  inclusion_pending,
}
use sei_k8s_controller.NodeTask.Runtime.{TaskParams, Runtime}
use sei_k8s_controller.NodeTask.Outputs.{
  is_sign_tx_kind, populate_tx_outputs, populate_outputs, decode_gov_result,
}
use sei_k8s_controller.NodeTask.Controller.{
  State, with_task, set_phase, set_condition, mark_failed, task_failed, exec_timed_out,
  effective_timeout, or_default,
}

abbrev pub text_or_empty : Option String → String
text_or_empty none = ""
text_or_empty (some m) = m

-- A status with the error to return: `none` is Go's nil.
pub record Driven (W : Type 0) : Type 0 where
  pub state : State W
  pub exec_err : Option String

module _ {W E : Type 0} (rt : Runtime W E) (now : ℕ) where
  unfoldable pub mark_complete : State W → SeiNodeTaskExecution → E → SeiNode → State W
  unfolding set_phase set_condition populate_outputs decode_gov_result
  mark_complete s t e target =
      let done = with_task s.cr (record t { status = TaskStatus.complete }) in
      let filled = populate_outputs done target (decode_gov_result rt e s.world) in
      record s {
        cr =
            set_condition rt (set_phase filled SeiNodeTaskPhase.complete now) "Ready" true
              (if is_sign_tx_kind s.cr.spec.kind then "Confirmed" else "TaskComplete") "";
      }

  -- a failure that is final
  unfoldable pub latch : State W → SeiNodeTaskExecution → (reason msg : String) → State W
  unfolding mark_failed
  latch s t reason msg =
      mark_failed rt now reason msg (record s { cr = with_task s.cr (task_failed rt t msg) })

  -- the switch on the inclusion status
  unfoldable pub on_gov_failure : State W → SeiNodeTaskExecution → GovTxResult → String → State W
  unfolding latch populate_tx_outputs exec_timed_out
  on_gov_failure s t gr msg =
      let shown = record s { cr = populate_tx_outputs s.cr (some gr) } in
      if str_eq gr.inclusion_status inclusion_pending
      then (if exec_timed_out shown.cr now
          then latch shown t "InclusionUndetermined" msg
          else record shown { cr = with_task shown.cr (record t { status = TaskStatus.pending }) })
      else if str_eq gr.inclusion_status inclusion_committed_failed
      then latch shown t "TxFailed" msg
      else latch shown t "TaskFailed" msg

  unfoldable pub handle_failure : State W → SeiNodeTaskExecution → E → State W
  unfolding on_gov_failure latch decode_gov_result
  handle_failure s t e =
      let msg = text_or_empty (rt.err e s.world) in
      elim (decode_gov_result rt e s.world) [
        | none ↦ latch s t "TaskFailed" msg
        | some gr ↦ on_gov_failure s t gr msg
      ]

  -- the switch on the execution's status
  unfoldable pub on_polled :
      State W → SeiNodeTaskExecution → E → SeiNode → ExecutionStatus → State W
  unfolding mark_complete handle_failure exec_timed_out effective_timeout mark_failed
  on_polled s t e target ExecutionStatus.complete = mark_complete s t e target
  on_polled s t e target ExecutionStatus.failed = handle_failure s t e
  on_polled s t e target _ =
      if exec_timed_out s.cr now
      then mark_failed rt now "Timeout" (rt.not_completed_within (effective_timeout s.cr))
          (record s { cr = with_task s.cr (task_failed rt t "timeout") })
      else s

  unfoldable pub on_status : State W → SeiNodeTaskExecution → E → SeiNode → State W
  unfolding on_polled
  on_status s t e target =
      let (st, w) = rt.status e s.world in on_polled (record s { world = w }) t e target st

  -- what follows `Execute`
  unfoldable pub on_executed :
      State W → SeiNodeTaskExecution → E → SeiNode → ExecuteResult → Driven W
  unfolding latch on_status
  on_executed s t e target (terminal msg) = record {
    state = latch s t "TaskTerminalError" msg;
    exec_err = none;
  }
  on_executed s t e target (transient msg) = record { state = s; exec_err = some msg }
  on_executed s t e target ok =
      let submitted = record t {
        status = TaskStatus.running;
        submitted_at = some (or_default t.submitted_at now);
      } in
      record {
        state = on_status (record s { cr = with_task s.cr submitted }) submitted e target;
        exec_err = none;
      }

  -- the rest of `driveTask` once the task is deserialized
  unfoldable pub on_deserialized : State W → SeiNodeTaskExecution → E → SeiNode → Driven W
  unfolding on_executed on_status
  on_deserialized s t e target =
      let anchored = record t {
        execution_started_at = some (or_default t.execution_started_at now);
      } in
      let s' = record s { cr = with_task s.cr anchored } in
      if is_pending t.status
      then (let (result, w) = rt.execute e s.world in
          on_executed (record s' { world = w }) anchored e target result)
      else record { state = on_status s' anchored e target; exec_err = none }

  unfoldable pub drive_task : State W → SeiNodeTaskExecution → SeiNode → Driven W
  unfolding mark_failed on_deserialized
  drive_task s t target = elim (rt.task_params s.cr (some target)) [
    | TaskParams.error reason msg ↦ record {
      state = mark_failed rt now reason msg s;
      exec_err = none;
    }
    | TaskParams.params type payload ↦ elim (rt.deserialize type t.id payload s.world) [
      | Deserialized.error msg ↦ record {
        state = mark_failed rt now "DeserializeFailed" msg s;
        exec_err = none;
      }
      | Deserialized.task e ↦ on_deserialized s t e target
    ]
  ]
