-- ===== src/NodeTask/Submission.antt =====
-- When `Reconcile` submits (internal/controller/nodetask/controller.go:119-146, 252-274).
use sei_k8s_controller.Prelude.{
  ℕ, String, ◌≡◌, refl, ap, ◌∙◌, Bool, false, Option, none, some, inl, inr, Bool-cases,
}
use sei_k8s_controller.Plan.Types.{is_pending}
use sei_k8s_controller.Plan.Runtime.{ExecutionStatus, ExecuteResult, Deserialized}
use sei_k8s_controller.NodeTask.Types.{SeiNodeTaskExecution, SeiNodeTask, SeiNode, is_terminal}
use sei_k8s_controller.NodeTask.Runtime.{TaskParams, Runtime}
use sei_k8s_controller.NodeTask.Controller.{
  State, Resolved, or_default, with_task, ready, waiting, fatal, resolve_target, set_condition,
  mark_failed,
}
use sei_k8s_controller.NodeTask.Drive.{
  mark_complete, latch, on_gov_failure, handle_failure, on_polled, on_status, on_deserialized,
  drive_task,
}
use sei_k8s_controller.NodeTask.Outputs.{decode_gov_result}
use sei_k8s_controller.NodeTask.Reconcile.{
  flush, synthesize, on_task, on_resolved, reconcile_live, reconcile, observed, poll_interval,
}
use sei_k8s_controller.NodeTask.Lifecycle.{SameResolved, resolve_target-same}

abbrev pub submits : Option SeiNodeTaskExecution → Bool
submits none = false
submits (some t) = is_pending t.status

module _ {W E : Type 0} (rt : Runtime W E) (now : ℕ) where
  -- the same runtime with another `Execute`
  abbrev pub with_execute : (E → W → ExecuteResult × W) → Runtime W E
  with_execute f = record rt { execute = f }

  on_polled-execute :
      (f : E → W → ExecuteResult × W) (s : State W) (t : SeiNodeTaskExecution) (e : E)
      (target : SeiNode) (st : ExecutionStatus)
      → on_polled (with_execute f) now s t e target st ≡ on_polled rt now s t e target st
  unfolding on_polled mark_complete handle_failure on_gov_failure latch set_condition mark_failed
      decode_gov_result
  on_polled-execute f s t e target ExecutionStatus.complete = refl
  on_polled-execute f s t e target ExecutionStatus.failed = refl
  on_polled-execute f s t e target ExecutionStatus.running = refl
  on_polled-execute f s t e target (ExecutionStatus.other x) = refl

  on_deserialized-execute :
      (f : E → W → ExecuteResult × W) (s : State W) (t : SeiNodeTaskExecution) (e : E)
      (target : SeiNode)
      → is_pending t.status ≡ false
      → on_deserialized (with_execute f) now s t e target ≡ on_deserialized rt now s t e target
  unfolding on_deserialized on_status
  on_deserialized-execute f s t e target h =
      let anchored = record t {
        execution_started_at = some (or_default t.execution_started_at now);
      } in
      let (st, w) = rt.status e s.world in
      rw h (
        ap (λ x. record { state = x; exec_err = none })
          (on_polled-execute f (record { cr = with_task s.cr anchored; world = w }) anchored e
            target st))

  drive_task-execute :
      (f : E → W → ExecuteResult × W) (s : State W) (t : SeiNodeTaskExecution) (target : SeiNode)
      → is_pending t.status ≡ false
      → drive_task (with_execute f) now s t target ≡ drive_task rt now s t target
  unfolding drive_task mark_failed set_condition
  drive_task-execute f s t target h = by_params (rt.task_params s.cr (some target)) refl
    where
      by_task :
          (type : String) (payload : Option String) (d : Deserialized E)
          → rt.task_params s.cr (some target) ≡ TaskParams.params type payload
          → rt.deserialize type t.id payload s.world ≡ d
          → drive_task (with_execute f) now s t target ≡ drive_task rt now s t target
      by_task type payload (Deserialized.error msg) p q = rw (drive_task, p, q) refl
      by_task type payload (Deserialized.task e) p q =
          rw (drive_task, p, q) (on_deserialized-execute f s t e target h)

      by_params :
          (ps : TaskParams)
          → rt.task_params s.cr (some target) ≡ ps
          → drive_task (with_execute f) now s t target ≡ drive_task rt now s t target
      by_params (TaskParams.error reason msg) p = rw (drive_task, p) refl
      by_params (TaskParams.params type payload) p =
          by_task type payload (rt.deserialize type t.id payload s.world) p refl

  synthesize-execute :
      (f : E → W → ExecuteResult × W) (before : SeiNodeTask) (s : State W) (ps : TaskParams)
      → synthesize (with_execute f) now before s ps ≡ synthesize rt now before s ps
  unfolding synthesize flush mark_failed set_condition
  synthesize-execute f before s (TaskParams.error reason msg) = refl
  synthesize-execute f before s (TaskParams.params type payload) = refl

  on_task-execute :
      (f : E → W → ExecuteResult × W) (before : SeiNodeTask) (s : State W) (target : SeiNode)
      (o : Option SeiNodeTaskExecution)
      → submits o ≡ false
      → on_task (with_execute f) now before s target o ≡ on_task rt now before s target o
  unfolding on_task flush
  on_task-execute f before s target none h =
      synthesize-execute f before s (rt.task_params s.cr none)
  on_task-execute f before s target (some t) h =
      ap (λ d. flush rt now before d.state (poll_interval rt now d.state.cr) d.exec_err)
        (drive_task-execute f s t target h)

  on_resolved-execute :
      (f : E → W → ExecuteResult × W) (cr : SeiNodeTask) (r : Resolved W)
      → SameResolved cr r
      → submits cr.status.task ≡ false
      → on_resolved (with_execute f) now cr r ≡ on_resolved rt now cr r
  unfolding on_resolved flush mark_failed set_condition
  on_resolved-execute f cr (fatal msg s) same h = refl
  on_resolved-execute f cr (waiting s) same h = refl
  on_resolved-execute f cr (ready target s) (p, t, u, k) h =
      on_task-execute f cr s target s.cr.status.task (ap submits t ∙ h)

  -- A pass over an object whose task is not pending, or that has none yet, never submits: its
  -- outcome is the same under any other `Execute`.
  pub reconcile_without_submission :
      (f : E → W → ExecuteResult × W) (cr : SeiNodeTask) (w : W)
      → submits cr.status.task ≡ false
      → reconcile (with_execute f) now cr w ≡ reconcile rt now cr w
  unfolding reconcile reconcile_live resolve_target set_condition
  reconcile_without_submission f cr w h =
      let s : State W = record { cr = observed rt now cr; world = w } in
      let r = resolve_target rt now s in
      let live = on_resolved-execute f cr r (resolve_target-same rt now s) h in
      elim (Bool-cases (is_terminal cr.status.phase)) [
        | inl k ↦ rw (reconcile, k) refl
        | inr k ↦ rw (reconcile, k) live
      ]
