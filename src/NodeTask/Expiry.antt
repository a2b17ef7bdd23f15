-- ===== src/NodeTask/Expiry.antt =====
-- A task that is driven past its deadline (internal/controller/nodetask/controller.go:231-365).
use sei_k8s_controller.Prelude.{
  ℕ, ◌+◌, ◌<◌, String, ◌≡◌, ◌⊎◌, inl, inr, sym, ap, subst, Bool, true, false, Option, none, some,
  arith, ltb, ◌&&◌, if_elim, str_eq, Option-cases, if◌then◌else◌,
}
use sei_k8s_controller.Plan.Types.{TaskStatus, is_pending}
use sei_k8s_controller.Plan.Runtime.{ExecutionStatus, ExecuteResult, ok, Deserialized}
use sei_k8s_controller.NodeTask.Types.{
  SeiNodeTaskPhase, SeiNodeTaskExecution, SeiNodeTask, SeiNode, GovTxResult, is_terminal,
  inclusion_pending, inclusion_committed_failed,
}
use sei_k8s_controller.NodeTask.Runtime.{TaskParams, Runtime}
use sei_k8s_controller.NodeTask.Outputs.{populate_tx_outputs, populate_outputs, decode_gov_result}
use sei_k8s_controller.NodeTask.Controller.{
  State, with_task, set_condition, mark_failed, task_failed, exec_timed_out, effective_timeout,
  or_default,
}
use sei_k8s_controller.NodeTask.Drive.{
  Driven, text_or_empty, mark_complete, latch, on_gov_failure, handle_failure, on_polled, on_status,
  on_executed, on_deserialized, drive_task,
}
use sei_k8s_controller.NodeTask.Next.{set_phase-phase}

abbrev Ended : SeiNodeTask → Type 0
Ended cr = is_terminal cr.status.phase ≡ true

module _ {W E : Type 0} (rt : Runtime W E) (now : ℕ) where
  mark_failed-Ended :
      (s : State W) (reason msg : String) → Ended (mark_failed rt now reason msg s).cr
  unfolding mark_failed set_condition
  mark_failed-Ended s reason msg = ap is_terminal (set_phase-phase s.cr SeiNodeTaskPhase.failed now)

  latch-Ended :
      (s : State W) (t : SeiNodeTaskExecution) (reason msg : String)
      → Ended (latch rt now s t reason msg).cr
  unfolding latch
  latch-Ended s t reason msg =
      mark_failed-Ended (record s { cr = with_task s.cr (task_failed rt t msg) }) reason msg

  on_gov_failure-Ended :
      (s : State W) (t : SeiNodeTaskExecution) (gr : GovTxResult) (msg : String)
      → exec_timed_out s.cr now ≡ true
      → Ended (on_gov_failure rt now s t gr msg).cr
  unfolding on_gov_failure exec_timed_out effective_timeout populate_tx_outputs
  on_gov_failure-Ended s t gr msg late =
      let Q : State W → Type 0 = λ r. Ended r.cr in
      let shown = record s { cr = populate_tx_outputs s.cr (some gr) } in
      let final : (reason : String) → Q (latch rt now shown t reason msg) =
        λ reason. latch-Ended shown t reason msg in
      if_elim Q (str_eq gr.inclusion_status inclusion_pending)
        (subst
          (λ (b : Bool). Q (
            if b then latch rt now shown t "InclusionUndetermined" msg else record shown {
              cr = with_task shown.cr (record t { status = TaskStatus.pending });
            }))
          (sym late) (final "InclusionUndetermined"))
        (if_elim Q (str_eq gr.inclusion_status inclusion_committed_failed) (final "TxFailed")
          (final "TaskFailed"))

  handle_failure-Ended :
      (s : State W) (t : SeiNodeTaskExecution) (e : E)
      → exec_timed_out s.cr now ≡ true
      → Ended (handle_failure rt now s t e).cr
  unfolding handle_failure
  handle_failure-Ended s t e late =
      let msg = text_or_empty (rt.err e s.world) in
      elim (Option-cases (decode_gov_result rt e s.world)) [
        | inl h ↦ rw (handle_failure, h) (latch-Ended s t "TaskFailed" msg)
        | inr (gr, h) ↦ rw (handle_failure, h) (on_gov_failure-Ended s t gr msg late)
      ]

  expired :
      (s : State W) (t : SeiNodeTaskExecution)
      → Ended
          (mark_failed rt now "Timeout"
            (rt.not_completed_within (effective_timeout s.cr))
            (record s { cr = with_task s.cr (task_failed rt t "timeout") })).cr
  expired s t =
      mark_failed-Ended (record s { cr = with_task s.cr (task_failed rt t "timeout") }) "Timeout"
        (rt.not_completed_within (effective_timeout s.cr))

  on_polled-Ended :
      (s : State W) (t : SeiNodeTaskExecution) (e : E) (target : SeiNode) (st : ExecutionStatus)
      → exec_timed_out s.cr now ≡ true
      → Ended (on_polled rt now s t e target st).cr
  unfolding on_polled mark_complete set_condition
  on_polled-Ended s t e target ExecutionStatus.complete late =
      let done = with_task s.cr (record t { status = TaskStatus.complete }) in
      ap is_terminal (
        set_phase-phase (populate_outputs done target (decode_gov_result rt e s.world))
          SeiNodeTaskPhase.complete now)
  on_polled-Ended s t e target ExecutionStatus.failed late = handle_failure-Ended s t e late
  on_polled-Ended s t e target ExecutionStatus.running late = rw (on_polled, late) (expired s t)
  on_polled-Ended s t e target (ExecutionStatus.other x) late = rw (on_polled, late) (expired s t)

  on_status-Ended :
      (s : State W) (t : SeiNodeTaskExecution) (e : E) (target : SeiNode)
      → exec_timed_out s.cr now ≡ true
      → Ended (on_status rt now s t e target).cr
  unfolding on_status
  on_status-Ended s t e target late =
      let (st, w) = rt.status e s.world in
      on_polled-Ended (record s { world = w }) t e target st late

  -- the object once the task's anchor is written, whatever its status and submission time
  still_late :
      (cr : SeiNodeTask) (t : SeiNodeTaskExecution) (a : ℕ)
      → t.execution_started_at ≡ some a
      → 0 < effective_timeout cr
      → a + effective_timeout cr < now
      → exec_timed_out (with_task cr t) now ≡ true
  unfolding exec_timed_out effective_timeout
  still_late cr t a e h l = rw (exec_timed_out, e) (both h l)
    where
      both :
          0 < effective_timeout cr
          → a + effective_timeout cr < now
          → (ltb 0 (effective_timeout cr) && ltb (a + effective_timeout cr) now) ≡ true
      both p q = ground arith

  on_executed-Ended :
      (s : State W) (t : SeiNodeTaskExecution) (e : E) (target : SeiNode) (r : ExecuteResult)
      (a : ℕ)
      → r ≡ ok
      → t.execution_started_at ≡ some a
      → 0 < effective_timeout s.cr
      → a + effective_timeout s.cr < now
      → Ended (on_executed rt now s t e target r).state.cr
  unfolding on_executed
  on_executed-Ended s t e target r a q st h l =
      let submitted = record t {
        status = TaskStatus.running;
        submitted_at = some (or_default t.submitted_at now);
      } in
      subst (λ x. Ended (on_executed rt now s t e target x).state.cr) (sym q)
        (on_status-Ended (record s { cr = with_task s.cr submitted }) submitted e target
          (still_late s.cr submitted a st h l))

  on_deserialized-Ended :
      (s : State W) (t : SeiNodeTaskExecution) (e : E) (target : SeiNode) (a : ℕ)
      → t.execution_started_at ≡ some a
      → 0 < effective_timeout s.cr
      → a + effective_timeout s.cr < now
      → (is_pending t.status ≡ false) ⊎ ((rt.execute e s.world).0 ≡ ok)
      → Ended (on_deserialized rt now s t e target).state.cr
  unfolding on_deserialized effective_timeout
  on_deserialized-Ended s t e target a st h l sub =
      let anchored = record t {
        execution_started_at = some (or_default t.execution_started_at now);
      } in
      let s' = record s { cr = with_task s.cr anchored } in
      let at : anchored.execution_started_at ≡ some a = ap some (ap (λ o. or_default o now) st) in
      let polled = on_status-Ended s' anchored e target (still_late s.cr anchored a at h l) in
      let (result, w) = rt.execute e s.world in
      elim sub [
        | inl k ↦
            subst
              (λ (b : Bool).
                Ended
                  (if b
                    then on_executed rt now (record s' { world = w }) anchored e target result
                    else record {
                      state = on_status rt now s' anchored e target;
                      exec_err = none;
                    }).state.cr)
              (sym k) polled
        | inr k ↦
            if_elim (λ (d : Driven W). Ended d.state.cr) (is_pending t.status)
              (on_executed-Ended (record s' { world = w }) anchored e target result a k at
                (same_timeout s.cr anchored h) (same_timeout_sum s.cr anchored a l))
              polled
      ]
    where
      same_timeout :
          (cr : SeiNodeTask) (u : SeiNodeTaskExecution)
          → 0 < effective_timeout cr
          → 0 < effective_timeout (with_task cr u)
      same_timeout cr u p = p

      same_timeout_sum :
          (cr : SeiNodeTask) (u : SeiNodeTaskExecution) (b : ℕ)
          → b + effective_timeout cr < now
          → b + effective_timeout (with_task cr u) < now
      same_timeout_sum cr u b p = p

  -- A task whose execution started, with a timeout that is not 0, long enough ago that start plus
  -- timeout lies before now, is Complete or Failed once it is driven, where its params and the task
  -- are built and it is either submitted already or the submission succeeds.
  pub drive_task-Ended :
      (s : State W) (t : SeiNodeTaskExecution) (target : SeiNode) (type : String)
      (payload : Option String) (e : E) (a : ℕ)
      → rt.task_params s.cr (some target) ≡ TaskParams.params type payload
      → rt.deserialize type t.id payload s.world ≡ Deserialized.task e
      → t.execution_started_at ≡ some a
      → 0 < effective_timeout s.cr
      → a + effective_timeout s.cr < now
      → (is_pending t.status ≡ false) ⊎ ((rt.execute e s.world).0 ≡ ok)
      → is_terminal (drive_task rt now s t target).state.cr.status.phase ≡ true
  unfolding drive_task
  drive_task-Ended s t target type payload e a ps d st h l sub =
      rw (drive_task, ps, d) (on_deserialized-Ended s t e target a st h l sub)
