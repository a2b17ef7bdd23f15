-- ===== src/NodeTask/Reconcile.antt =====
-- `Reconcile` and `flush` of internal/controller/nodetask/controller.go.
use sei_k8s_controller.Prelude.{ℕ, String, Option, none, some, if◌then◌else◌}
use sei_k8s_controller.Plan.Types.{TaskStatus}
use sei_k8s_controller.NodeTask.Types.{
  SeiNodeTaskPhase, SeiNodeTaskExecution, SeiNodeTask, SeiNode, is_running, is_terminal,
}
use sei_k8s_controller.NodeTask.Runtime.{Get, TaskParams, Runtime}
use sei_k8s_controller.NodeTask.Controller.{
  State, Resolved, ready, waiting, fatal, with_status, with_task, set_phase, mark_failed,
  resolve_target, or_default, status_poll_interval, target_wait_interval, result_requeue_immediate,
}
use sei_k8s_controller.NodeTask.Drive.{drive_task}

-- ctrl.Result and the error; `requeue_after` 0 asks for no requeue.
pub record Outcome (W : Type 0) : Type 0 where
  pub requeue_after : ℕ
  pub failure : Option String
  pub state : State W

module _ {W E : Type 0} (rt : Runtime W E) (now : ℕ) where
  -- The status patch fails or leaves `exec_err` to return.
  unfoldable pub flush : SeiNodeTask → State W → ℕ → Option String → Outcome W
  flush before s result exec_err =
      if rt.same_status before.status s.cr.status
      then record { requeue_after = result; failure = exec_err; state = s }
      else let (patch_err, w) = rt.patch_status s.cr s.world in
        elim patch_err [
          | some msg ↦ record {
            requeue_after = 0;
            failure = some msg;
            state = record s { world = w };
          }
          | none ↦ record {
            requeue_after = result;
            failure = exec_err;
            state = record s { world = w };
          }
        ]

  -- the object after the lines that precede `resolveTarget`
  abbrev pub observed : SeiNodeTask → SeiNodeTask
  observed cr = with_status cr (record (cr.status) {
    observed_generation = cr.generation;
    started_at = some (or_default cr.status.started_at now);
  })

  abbrev pub poll_interval : SeiNodeTask → ℕ
  poll_interval cr = if is_running cr.status.phase then status_poll_interval else 0

  abbrev pub fresh_task : SeiNodeTask → SeiNodeTaskExecution
  fresh_task cr = record {
    id = rt.task_id cr.uid cr.spec.kind;
    status = TaskStatus.pending;
    err = "";
    submitted_at = none;
    execution_started_at = some now;
  }

  -- the synthesis of the task, from the result of the early validation
  unfoldable pub synthesize : SeiNodeTask → State W → TaskParams → Outcome W
  synthesize before s (TaskParams.error reason msg) =
      flush before (mark_failed rt now reason msg s) 0 none
  synthesize before s (TaskParams.params type payload) =
      flush before
        (record s {
          cr = set_phase (with_task s.cr (fresh_task s.cr)) SeiNodeTaskPhase.running now;
        })
        result_requeue_immediate none

  -- the steps once the target is ready, by the task that the object has
  unfoldable pub on_task : SeiNodeTask → State W → SeiNode → Option SeiNodeTaskExecution → Outcome W
  on_task before s target none = synthesize before s (rt.task_params s.cr none)
  on_task before s target (some t) =
      let driven = drive_task rt now s t target in
      flush before driven.state (poll_interval driven.state.cr) driven.exec_err

  unfoldable pub on_resolved : SeiNodeTask → Resolved W → Outcome W
  on_resolved before (fatal msg s) =
      flush before (mark_failed rt now "TargetResolveFailed" msg s) 0 none
  on_resolved before (waiting s) = flush before s target_wait_interval none
  on_resolved before (ready target s) = on_task before s target s.cr.status.task

  unfoldable pub reconcile_live : SeiNodeTask → W → Outcome W
  reconcile_live cr w =
      on_resolved cr (resolve_target rt now (record { cr = observed cr; world = w }))

  -- the object is the one that `Get` found
  unfoldable pub reconcile : SeiNodeTask → W → Outcome W
  reconcile cr w =
      if is_terminal cr.status.phase
      then record { requeue_after = 0; failure = none; state = record { cr = cr; world = w } }
      else reconcile_live cr w

  pub data Reconciled : Type 0 where
    absent : Reconciled
    unread : String → Reconciled
    acted : Outcome W → Reconciled

  -- the first lines: the object is gone, cannot be read, or is acted on
  unfoldable pub reconcile_request : Get SeiNodeTask → W → Reconciled
  unfolding reconcile
  reconcile_request Get.not_found w = Reconciled.absent
  reconcile_request (Get.error msg) w = Reconciled.unread msg
  reconcile_request (Get.found cr) w = Reconciled.acted (reconcile cr w)
