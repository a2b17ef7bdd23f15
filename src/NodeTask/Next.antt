-- ===== src/NodeTask/Next.antt =====
-- What a reconcile of internal/controller/nodetask/controller.go does to the phase and the task.
use sei_k8s_controller.Prelude.{
  ℕ, String, ◌≡◌, refl, Bool, true, false, Option, none, some, inl, inr, Bool-cases, Option-cases,
  if_elim, str_eq, if◌then◌else◌, arith,
}
use sei_k8s_controller.Plan.Types.{TaskStatus, is_pending}
use sei_k8s_controller.Plan.Runtime.{
  ExecutionStatus, ExecuteResult, ok, terminal, transient, Deserialized,
}
use sei_k8s_controller.NodeTask.Types.{
  SeiNodeTaskPhase, SeiNodeTaskExecution, SeiNodeTask, SeiNode, GovTxResult, inclusion_pending,
  inclusion_committed_failed,
}
use sei_k8s_controller.NodeTask.Runtime.{TaskParams, Runtime}
use sei_k8s_controller.NodeTask.Outputs.{
  populate_tx_outputs, populate_outputs, decode_gov_result, is_update_node_image, is_sign_tx_kind,
}
use sei_k8s_controller.NodeTask.Controller.{
  State, with_task, set_phase, set_condition, mark_failed, task_failed, effective_timeout,
  same_phase, exec_timed_out, or_default,
}
use sei_k8s_controller.NodeTask.Drive.{
  Driven, text_or_empty, mark_complete, latch, on_gov_failure, handle_failure, on_polled, on_status,
  on_executed, on_deserialized, drive_task,
}

-- whether the task was neither completed nor failed
abbrev pub is_live : TaskStatus → Bool
is_live TaskStatus.pending = true
is_live TaskStatus.running = true
is_live _ = false

-- How a pass that drives a task of this id, found in phase `p`, can leave phase and task.
pub data Drove (id : String) (p : SeiNodeTaskPhase)
    : SeiNodeTaskPhase → Option SeiNodeTaskExecution → Type 0 where
  kept : {t : SeiNodeTaskExecution} → t.id ≡ id → Drove id p p (some t)
  done :
      {t : SeiNodeTaskExecution}
      → t.id ≡ id
      → t.status ≡ TaskStatus.complete
      → Drove id p SeiNodeTaskPhase.complete (some t)
  failed : {t : SeiNodeTaskExecution} → t.id ≡ id → Drove id p SeiNodeTaskPhase.failed (some t)

abbrev pub DroveTo : String → SeiNodeTaskPhase → SeiNodeTask → Type 0
DroveTo id p cr = Drove id p cr.status.phase cr.status.task

same_phase-eq : (p q : SeiNodeTaskPhase) → same_phase p q ≡ true → p ≡ q
same_phase-eq p q h = ground arith

pub set_phase-phase :
    (cr : SeiNodeTask) (p : SeiNodeTaskPhase) (now : ℕ) → (set_phase cr p now).status.phase ≡ p
unfolding set_phase
set_phase-phase cr p now = elim (Bool-cases (same_phase cr.status.phase p)) [
  | inl h ↦ rw h (same_phase-eq cr.status.phase p h)
  | inr h ↦ rw h refl
]

pub set_phase-task :
    (cr : SeiNodeTask) (p : SeiNodeTaskPhase) (now : ℕ)
    → (set_phase cr p now).status.task ≡ cr.status.task
unfolding set_phase
set_phase-task cr p now = elim (Bool-cases (same_phase cr.status.phase p)) [
  | inl h ↦ rw h refl
  | inr h ↦ rw h refl
]

populate_tx_outputs-phase :
    (cr : SeiNodeTask) (gr : Option GovTxResult)
    → ((populate_tx_outputs cr gr).status.phase ≡ cr.status.phase)
      × ((populate_tx_outputs cr gr).status.task ≡ cr.status.task)
unfolding populate_tx_outputs
populate_tx_outputs-phase cr none = (refl, refl)
populate_tx_outputs-phase cr (some gr) = (refl, refl)

populate_outputs-task :
    (cr : SeiNodeTask) (target : SeiNode) (gr : Option GovTxResult)
    → (populate_outputs cr target gr).status.task ≡ cr.status.task
unfolding populate_outputs
populate_outputs-task cr target gr = elim (Bool-cases (is_update_node_image cr.spec.kind)) [
  | inl h ↦ rw h refl
  | inr h ↦ elim (Bool-cases (is_sign_tx_kind cr.spec.kind)) [
    | inl k ↦ rw (h, k) ((populate_tx_outputs-phase cr gr).1)
    | inr k ↦ rw (h, k) refl
  ]
]

module _ {W E : Type 0} (rt : Runtime W E) (now : ℕ) where
  mark_failed-Drove :
      (id : String) (p : SeiNodeTaskPhase) (s : State W) (t : SeiNodeTaskExecution)
      (reason msg : String)
      → t.id ≡ id
      → s.cr.status.task ≡ some t
      → DroveTo id p (mark_failed rt now reason msg s).cr
  unfolding mark_failed set_condition
  mark_failed-Drove id p s t reason msg i e =
      rw
        (
          set_phase-phase s.cr SeiNodeTaskPhase.failed now,
          set_phase-task s.cr SeiNodeTaskPhase.failed now,
          e,
        )
        (Drove.failed i)

  mark_complete-Drove :
      (p : SeiNodeTaskPhase) (s : State W) (t : SeiNodeTaskExecution) (e : E) (target : SeiNode)
      → DroveTo t.id p (mark_complete rt now s t e target).cr
  unfolding mark_complete set_condition
  mark_complete-Drove p s t e target =
      let done = with_task s.cr (record t { status = TaskStatus.complete }) in
      let filled = populate_outputs done target (decode_gov_result rt e s.world) in
      rw
        (
          set_phase-phase filled SeiNodeTaskPhase.complete now,
          set_phase-task filled SeiNodeTaskPhase.complete now,
          populate_outputs-task done target (decode_gov_result rt e s.world),
        )
        (Drove.done refl refl)

  latch-Drove :
      (p : SeiNodeTaskPhase) (s : State W) (t : SeiNodeTaskExecution) (reason msg : String)
      → DroveTo t.id p (latch rt now s t reason msg).cr
  unfolding latch
  latch-Drove p s t reason msg =
      mark_failed-Drove t.id p (record s { cr = with_task s.cr (task_failed rt t msg) })
        (task_failed rt t msg) reason msg refl refl

  on_gov_failure-Drove :
      (s : State W) (t : SeiNodeTaskExecution) (gr : GovTxResult) (msg : String)
      → DroveTo t.id s.cr.status.phase (on_gov_failure rt now s t gr msg).cr
  unfolding on_gov_failure
  on_gov_failure-Drove s t gr msg =
      let Q : State W → Type 0 = λ r. DroveTo t.id s.cr.status.phase r.cr in
      let shown = record s { cr = populate_tx_outputs s.cr (some gr) } in
      let final : (reason : String) → Q (latch rt now shown t reason msg) =
        λ reason. latch-Drove s.cr.status.phase shown t reason msg in
      if_elim Q (str_eq gr.inclusion_status inclusion_pending)
        (if_elim Q (exec_timed_out shown.cr now) (final "InclusionUndetermined") (Drove.kept refl))
        (if_elim Q (str_eq gr.inclusion_status inclusion_committed_failed) (final "TxFailed")
          (final "TaskFailed"))

  handle_failure-Drove :
      (s : State W) (t : SeiNodeTaskExecution) (e : E)
      → DroveTo t.id s.cr.status.phase (handle_failure rt now s t e).cr
  unfolding handle_failure
  handle_failure-Drove s t e =
      let msg = text_or_empty (rt.err e s.world) in
      elim (Option-cases (decode_gov_result rt e s.world)) [
        | inl h ↦ rw (handle_failure, h) (latch-Drove s.cr.status.phase s t "TaskFailed" msg)
        | inr (gr, h) ↦ rw (handle_failure, h) (on_gov_failure-Drove s t gr msg)
      ]

  on_live :
      (s : State W) (t : SeiNodeTaskExecution)
      → s.cr.status.task ≡ some t
      → DroveTo t.id s.cr.status.phase
          (if exec_timed_out s.cr now
            then mark_failed rt now "Timeout"
                (rt.not_completed_within (effective_timeout s.cr))
                (record s { cr = with_task s.cr (task_failed rt t "timeout") })
            else s).cr
  on_live s t h =
      if_elim (λ (r : State W). DroveTo t.id s.cr.status.phase r.cr) (exec_timed_out s.cr now)
        (mark_failed-Drove t.id s.cr.status.phase
          (record s { cr = with_task s.cr (task_failed rt t "timeout") })
          (task_failed rt t "timeout") "Timeout" (rt.not_completed_within (effective_timeout s.cr))
          refl refl)
        (rw h (Drove.kept refl))

  on_polled-Drove :
      (s : State W) (t : SeiNodeTaskExecution) (e : E) (target : SeiNode) (st : ExecutionStatus)
      → s.cr.status.task ≡ some t
      → DroveTo t.id s.cr.status.phase (on_polled rt now s t e target st).cr
  unfolding on_polled
  on_polled-Drove s t e target ExecutionStatus.complete h =
      mark_complete-Drove s.cr.status.phase s t e target
  on_polled-Drove s t e target ExecutionStatus.failed h = handle_failure-Drove s t e
  on_polled-Drove s t e target ExecutionStatus.running h = on_live s t h
  on_polled-Drove s t e target (ExecutionStatus.other x) h = on_live s t h

  on_status-Drove :
      (s : State W) (t : SeiNodeTaskExecution) (e : E) (target : SeiNode)
      → s.cr.status.task ≡ some t
      → DroveTo t.id s.cr.status.phase (on_status rt now s t e target).cr
  unfolding on_status
  on_status-Drove s t e target h =
      let (st, w) = rt.status e s.world in on_polled-Drove (record s { world = w }) t e target st h

  on_executed-Drove :
      (s : State W) (t : SeiNodeTaskExecution) (e : E) (target : SeiNode) (r : ExecuteResult)
      → s.cr.status.task ≡ some t
      → DroveTo t.id s.cr.status.phase (on_executed rt now s t e target r).state.cr
  unfolding on_executed
  on_executed-Drove s t e target (terminal msg) h =
      latch-Drove s.cr.status.phase s t "TaskTerminalError" msg
  on_executed-Drove s t e target (transient msg) h = rw h (Drove.kept refl)
  on_executed-Drove s t e target ok h =
      let submitted = record t {
        status = TaskStatus.running;
        submitted_at = some (or_default t.submitted_at now);
      } in
      on_status-Drove (record s { cr = with_task s.cr submitted }) submitted e target refl

  on_deserialized-Drove :
      (s : State W) (t : SeiNodeTaskExecution) (e : E) (target : SeiNode)
      → DroveTo t.id s.cr.status.phase (on_deserialized rt now s t e target).state.cr
  unfolding on_deserialized
  on_deserialized-Drove s t e target =
      let anchored = record t {
        execution_started_at = some (or_default t.execution_started_at now);
      } in
      let s' = record s { cr = with_task s.cr anchored } in
      let (result, w) = rt.execute e s.world in
      if_elim (λ (r : Driven W). DroveTo t.id s.cr.status.phase r.state.cr) (is_pending t.status)
        (on_executed-Drove (record s' { world = w }) anchored e target result refl)
        (on_status-Drove s' anchored e target refl)

  pub drive_task-Drove :
      (s : State W) (t : SeiNodeTaskExecution) (target : SeiNode)
      → s.cr.status.task ≡ some t
      → DroveTo t.id s.cr.status.phase (drive_task rt now s t target).state.cr
  unfolding drive_task
  drive_task-Drove s t target h = by_params (rt.task_params s.cr (some target)) refl
    where
      by_task :
          (type : String) (payload : Option String) (d : Deserialized E)
          → rt.task_params s.cr (some target) ≡ TaskParams.params type payload
          → rt.deserialize type t.id payload s.world ≡ d
          → DroveTo t.id s.cr.status.phase (drive_task rt now s t target).state.cr
      by_task type payload (Deserialized.error msg) p q =
          rw (drive_task, p, q)
            (mark_failed-Drove t.id s.cr.status.phase s t "DeserializeFailed" msg refl h)
      by_task type payload (Deserialized.task e) p q =
          rw (drive_task, p, q) (on_deserialized-Drove s t e target)

      by_params :
          (ps : TaskParams)
          → rt.task_params s.cr (some target) ≡ ps
          → DroveTo t.id s.cr.status.phase (drive_task rt now s t target).state.cr
      by_params (TaskParams.error reason msg) p =
          rw (drive_task, p) (mark_failed-Drove t.id s.cr.status.phase s t reason msg refl h)
      by_params (TaskParams.params type payload) p =
          by_task type payload (rt.deserialize type t.id payload s.world) p refl
