-- ===== src/Planner/Deferral.antt =====
-- A start that the guard refuses (internal/task/start_guard.go, internal/planner/executor.go:138-245
-- and startDeferred of data_reset.go).
use sei_k8s_controller.Prelude.{
  ℕ, ◌≡◌, refl, ap, sym, subst, ◌∙◌, String, true, false, Option, some, List, str_eq, set, arith,
}
use sei_k8s_controller.Plan.Types.{TaskPlanPhase, TaskStatus, PlannedTask}
use sei_k8s_controller.Plan.Runtime.{terminal, Deserialized, Runtime}
use sei_k8s_controller.Plan.Executor.{
  State, no_requeue, needs_submission, fail_task, on_executed, drive_task, on_deserialized,
  advance_task, task_done, execute_plan,
}
use sei_k8s_controller.Plan.Tasks.{Current, AllComplete, task_done-set}
use sei_k8s_controller.Plan.Loop.{Returns, execute_plan-Returns}
use sei_k8s_controller.Node.{SeiNode}
use sei_k8s_controller.Planner.TaskTypes as T
use sei_k8s_controller.Planner.Params.{Library}
use sei_k8s_controller.Planner.Reset.{start_guard_refusal, complete_up_to_release, start_deferred}
use sei_k8s_controller.Planner.Guard.{
  StartBlock, start_blocked, block_of, reason_on, refused_or, guarded,
}

Current-unique :
    {ts : List PlannedTask} {i j : ℕ} {t u : PlannedTask} → Current ts i t → Current ts j u → t ≡ u
Current-unique (Current.here o) (Current.here o') = refl
Current-unique (Current.here o) (Current.there d c) = absurd (cc (o, d))
Current-unique (Current.there d c) (Current.here o) = absurd (cc (o, d))
Current-unique (Current.there d c) (Current.there d' c') = Current-unique c c'

complete_has_none :
    {ts : List PlannedTask} {i : ℕ} {t : PlannedTask} → Current ts i t → AllComplete ts → ⊥
complete_has_none (Current.here o) (d, ds) = cc (o, d)
complete_has_none (Current.there _ c) (d, ds) = complete_has_none c ds

-- the loop of startDeferred on a plan whose current task is a mark-ready
release_reached :
    {ts : List PlannedTask} {i : ℕ} {t : PlannedTask} (t' : PlannedTask)
    → Current ts i t
    → t'.type ≡ T.mark_ready
    → complete_up_to_release (set ts i t') ≡ true
unfolding complete_up_to_release
release_reached t' (Current.here o) e = rw e refl
release_reached t' (Current.there {t = u} d c) e =
    let ih = release_reached t' c e in ground (arith, ih, d)

module _ {W E : Type 0} (node_of : W → Option SeiNode) (message : StartBlock → String)
    (rt : Runtime W E) (lib : Library) where
  -- The plan is at a mark-ready task that was never sent, on a node that must not start.
  pub record AtRelease (s : State W) : Type 0 where
    pub index : ℕ
    pub task : PlannedTask
    pub current : Current s.plan.tasks index task
    pub releases : task.type ≡ T.mark_ready
    pub pending : task.status ≡ TaskStatus.pending
    pub execution : E
    pub known : rt.deserialize task.type task.id task.params s.world ≡ Deserialized.task execution
    pub node : SeiNode
    pub resource : node_of s.world ≡ some node
    pub block : StartBlock
    pub blocked : start_blocked node ≡ some block

  -- How a refused start ends: nothing reached the world, and the plan has failed in the way that
  -- startDeferred tells.
  pub record Deferred (w : W) (u : State W) : Type 0 where
    pub untouched : u.world ≡ w
    pub failed : u.plan.phase ≡ TaskPlanPhase.failed
    pub told : start_deferred lib u.plan ≡ true

  refuses :
      (s : State W) (a : AtRelease s)
      → refused_or node_of message rt
          (reason_on node_of message rt a.task.type (node_of s.world))
          a.execution
          s.world
        ≡ (terminal (message a.block), s.world)
  unfolding block_of
  refuses s a = rw (a.resource, a.releases, a.blocked) refl

  advance_task-refused :
      (s : State W) (a : AtRelease s) (i : ℕ)
      → advance_task (guarded node_of message rt) s i a.task
        ≡ (no_requeue, fail_task (rt.now s.world) s i a.task (message a.block))
  unfolding advance_task on_deserialized drive_task needs_submission guarded on_executed
  advance_task-refused s a i = rw (a.known, a.pending, refuses s a) refl

  -- a failed release, as the planner reads it
  fail_task-told :
      (s : State W) (a : AtRelease s) (i : ℕ)
      → Current s.plan.tasks i a.task
      → lib.contains (message a.block) start_guard_refusal ≡ true
      → start_deferred lib (fail_task (rt.now s.world) s i a.task (message a.block)).plan ≡ true
  unfolding fail_task start_deferred
  fail_task-told s a i c mentions =
      let t' = record (a.task) { status = TaskStatus.failed; error = message a.block } in
      let release : str_eq a.task.type T.mark_ready ≡ true =
        ap (λ x. str_eq x T.mark_ready) a.releases in
      rw (release, mentions) (release_reached t' c a.releases)

  fail_task-open :
      (s : State W) (a : AtRelease s) (i : ℕ)
      → Current s.plan.tasks i a.task
      → task_done (fail_task (rt.now s.world) s i a.task (message a.block)).plan.tasks i ≡ false
  unfolding fail_task
  fail_task-open s a i c =
      task_done-set (record (a.task) { status = TaskStatus.failed; error = message a.block }) c

  fail_task-world :
      (s : State W) (i : ℕ) (t : PlannedTask) (m : String)
      → (fail_task (rt.now s.world) s i t m).world ≡ s.world
  unfolding fail_task
  fail_task-world s i t m = refl

  fail_task-phase :
      (s : State W) (i : ℕ) (t : PlannedTask) (m : String)
      → (fail_task (rt.now s.world) s i t m).plan.phase ≡ TaskPlanPhase.failed
  unfolding fail_task
  fail_task-phase s i t m = refl

  -- what one round of the executor does
  Round : State W → W → ℕ → PlannedTask → Type 0
  Round u w i x =
      let (r, v) = advance_task (guarded node_of message rt) u i x in
      (task_done v.plan.tasks i ≡ true → AtRelease v × (v.world ≡ w))
      × (task_done v.plan.tasks i ≡ false → Deferred w v)

  refused_once :
      (u : State W) (w : W) (a : AtRelease u) (i : ℕ)
      → u.world ≡ w
      → Current u.plan.tasks i a.task
      → lib.contains (message a.block) start_guard_refusal ≡ true
      → Round u w i a.task
  unfolding Round
  refused_once u w a i same c mentions =
      let told = fail_task-told u a i c mentions in
      let open_task = fail_task-open u a i c in
      rw (advance_task-refused u a i) (
        (λ done. absurd (cc (done, open_task))),
        λ _. record {
          untouched = fail_task-world u i a.task _ ∙ same;
          failed = fail_task-phase u i a.task _;
          told = told;
        },
      )

  -- Where the text of every refusal contains that of the guard: a pass over an active plan whose
  -- current task is an unsent mark-ready, on a node that must not start, sends nothing to the
  -- sidecar, fails the plan, and the planner reads the failure as a deferred start.
  pub refused_start-Deferred :
      (s : State W)
      → s.plan.phase ≡ TaskPlanPhase.active
      → AtRelease s
      → ((b : StartBlock) → lib.contains (message b) start_guard_refusal ≡ true)
      → Returns (λ _ u. Deferred s.world u) (execute_plan (guarded node_of message rt) s)
  unfolding Round
  refused_start-Deferred s active a mentions =
      execute_plan-Returns (guarded node_of message rt) (λ u. AtRelease u × (u.world ≡ s.world))
        (λ _ u. Deferred s.world u)
        (λ u i t inv c.
          let at = inv.0 in
          let same = Current-unique at.current c in
          subst (Round u s.world i) same (
            refused_once u s.world at i inv.1 (subst (Current u.plan.tasks i) (sym same) c)
              (mentions at.block)))
        (λ u inv done. absurd (complete_has_none inv.0.current done)) s active (a, refl)
