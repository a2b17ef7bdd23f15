-- ===== src/Plan/Outcome.antt =====
-- What `ExecutePlan` leaves behind (internal/planner/executor.go:88-136).
use sei_k8s_controller.Prelude.{
  ℕ, ◌+◌, ◌<◌, ◌≡◌, refl, ap, ◌∙◌, Bool, true, false, some, List, arith, set,
}
use sei_k8s_controller.Plan.Types.{TaskPlanPhase, TaskStatus, PlannedTask, TaskPlan, is_complete}
use sei_k8s_controller.Plan.Runtime.{Runtime}
use sei_k8s_controller.Plan.Executor.{
  Result, State, no_requeue, result_requeue_immediate, set_target_phase, observe_config,
  index_of_id, or_keep, fail_task, complete_plan, task_done, execute_plan,
}
use sei_k8s_controller.Plan.Effect.{Effect, advance_task-Effect}
use sei_k8s_controller.Plan.Tasks.{
  Current, AllComplete, Current-open, Current-set, task_done-set, task_done-Current,
}
use sei_k8s_controller.Plan.Loop.{Returns, execute_plan-Returns}
use sei_k8s_controller.Plan.Backoff.{retry_backoff_bounds}

-- The three ways in which a pass over the active plan of `s₀` returns.
pub data Outcome {W : Type 0} (s₀ : State W) (r : Result) (s : State W) : Type 0 where
  -- every task is complete, and the owner is in its target phase
  finished :
      (now : ℕ)
      → s.plan.phase ≡ TaskPlanPhase.complete
      → AllComplete s.plan.tasks
      → s.owner
        ≡ set_target_phase now
            (observe_config s₀.owner s₀.plan.config_values_hash)
            s₀.plan.target_phase
      → r ≡ result_requeue_immediate
      → Outcome s₀ r s
  -- the current task is failed, its details are recorded, and the owner is in its failed phase
  failed :
      (now i : ℕ) (t : PlannedTask)
      → s.plan.phase ≡ TaskPlanPhase.failed
      → Current s.plan.tasks i t
      → t.status ≡ TaskStatus.failed
      → s.plan.failed_task_detail
        ≡ some (record {
          type = t.type;
          id = t.id;
          error = t.error;
          retry_count = t.retry_count;
          max_retries = t.max_retries;
        })
      → s.plan.failed_task_index
        ≡ or_keep (index_of_id t.id 0 s.plan.tasks) s₀.plan.failed_task_index
      → s.owner ≡ set_target_phase now s₀.owner s₀.plan.failed_phase
      → r ≡ no_requeue
      → Outcome s₀ r s
  -- the plan waits for its current task and comes back
  waiting :
      (i : ℕ) (t : PlannedTask)
      → s.plan.phase ≡ TaskPlanPhase.active
      → Current s.plan.tasks i t
      → s.owner ≡ s₀.owner
      → 0 < r.requeue_after
      → Outcome s₀ r s

-- What a round that completes its task leaves as it was.
record Frame {W : Type 0} (s₀ s : State W) : Type 0 where
  phase : s.plan.phase ≡ s₀.plan.phase
  target_phase : s.plan.target_phase ≡ s₀.plan.target_phase
  config_values_hash : s.plan.config_values_hash ≡ s₀.plan.config_values_hash
  failed_phase : s.plan.failed_phase ≡ s₀.plan.failed_phase
  failed_task_index : s.plan.failed_task_index ≡ s₀.plan.failed_task_index
  owner : s.owner ≡ s₀.owner

Frame-set :
    {W : Type 0} (s₀ s s' : State W) (ts : List PlannedTask)
    → Frame s₀ s
    → s'.plan ≡ record (s.plan) { tasks = ts }
    → s'.owner ≡ s.owner
    → Frame s₀ s'
Frame-set s₀ s s' ts f pl ow = ground arith

task_done-written :
    (ts us : List PlannedTask) {i : ℕ} {t : PlannedTask} (t' : PlannedTask) {b : Bool}
    → Current ts i t
    → us ≡ set ts i t'
    → is_complete t'.status ≡ b
    → task_done us i ≡ b
task_done-written ts us {i} t' c e d = rw e (task_done-set t' c ∙ d)

Current-written :
    (ts us : List PlannedTask) {i : ℕ} {t : PlannedTask} (t' : PlannedTask)
    → Current ts i t
    → us ≡ set ts i t'
    → is_complete t'.status ≡ false
    → Current us i t'
Current-written ts us t' c e o = rw e (Current-set t' c o)

-- One round keeps the frame or ends in one of the three ways.
abbrev Round : {W : Type 0} → State W → ℕ → Result → State W → Type 0
Round s₀ i r s' =
    (task_done s'.plan.tasks i ≡ true → Frame s₀ s')
    × (task_done s'.plan.tasks i ≡ false → Outcome s₀ r s')

Effect-Round :
    {W : Type 0} (s₀ s : State W) (i : ℕ) (t : PlannedTask) {r : Result} {s' : State W}
    → Frame s₀ s
    → s₀.plan.phase ≡ TaskPlanPhase.active
    → Current s.plan.tasks i t
    → Effect s.plan s.owner i t r s'
    → Round s₀ i r s'
unfolding fail_task
Effect-Round s₀ s i t {s' = s'} f a c (Effect.completed t' same st n pl ow) =
    let done =
      task_done-written s.plan.tasks s'.plan.tasks t' c (ap (λ q. q.tasks) pl)
        (ap is_complete st) in
    (λ _. Frame-set s₀ s s' _ f pl ow, λ d. absurd (cc))
Effect-Round s₀ s i t {s' = s'} f a c (Effect.waiting t' same st n q pl ow) =
    let o = ap is_complete st ∙ Current-open c in
    let e = ap (λ q. q.tasks) pl in
    let done = task_done-written s.plan.tasks s'.plan.tasks t' c e o in
    let g = Frame-set s₀ s s' _ f pl ow in
    (
      λ d. absurd (cc),
      λ _.
          Outcome.waiting i t' (g.phase ∙ a) (Current-written s.plan.tasks s'.plan.tasks t' c e o)
            g.owner q,
    )
Effect-Round s₀ s i t {s' = s'} f a c (Effect.deferred q pl ow) =
    let e = ap (λ q. q.tasks) pl in
    let done : task_done s'.plan.tasks i ≡ false = rw e (task_done-Current c ∙ Current-open c) in
    (
      λ d. absurd (cc),
      λ _. Outcome.waiting i t (ap (λ q. q.phase) pl ∙ f.phase ∙ a) (rw e c) (ow ∙ f.owner) q,
    )
Effect-Round s₀ s i t {s' = s'} f a c (Effect.retried t' same st lt n q pl ow) =
    let o = ap is_complete st in
    let e = ap (λ q. q.tasks) pl in
    let done = task_done-written s.plan.tasks s'.plan.tasks t' c e o in
    let g = Frame-set s₀ s s' _ f pl ow in
    (
      λ d. absurd (cc),
      λ _.
          Outcome.waiting i t' (g.phase ∙ a) (Current-written s.plan.tasks s'.plan.tasks t' c e o)
            g.owner (omega (arith, q, retry_backoff_bounds (t.retry_count + 1))),
    )
Effect-Round s₀ s i t {s' = s'} f a c (Effect.failed t' u now msg same n pl ow q e) =
    let x : PlannedTask = record t' { status = TaskStatus.failed; error = msg } in
    let ts : s'.plan.tasks ≡ set s.plan.tasks i x =
      ap (λ q. q.plan.tasks) e ∙ ap (λ (q : TaskPlan). set q.tasks i x) pl in
    let done = task_done-written s.plan.tasks s'.plan.tasks x {b = false} c ts refl in
    (
      λ d. absurd (cc),
      λ _.
          Outcome.failed now i x (ap (λ q. q.plan.phase) e)
            (Current-written s.plan.tasks s'.plan.tasks x c ts refl) refl
            (ap (λ q. q.plan.failed_task_detail) e)
            (cc (
              ap (λ q. q.plan.failed_task_index) e,
              ap (λ q. q.failed_task_index) pl,
              f.failed_task_index,
            ))
            (cc (ap (λ q. q.owner) e, ow, f.owner, ap (λ q. q.failed_phase) pl, f.failed_phase)) q,
    )

Frame-refl : {W : Type 0} (s : State W) → Frame s s
Frame-refl s = ground arith

finish-Outcome :
    {W : Type 0} (s₀ s : State W) (now : ℕ)
    → Frame s₀ s
    → AllComplete s.plan.tasks
    → Outcome s₀ result_requeue_immediate (complete_plan now s)
unfolding complete_plan
finish-Outcome s₀ s now f done =
    Outcome.finished now refl done (cc (f.owner, f.config_values_hash, f.target_phase)) refl

module _ {W E : Type 0} (rt : Runtime W E) (s₀ : State W) where
  -- One pass over an active plan always returns: the plan is finished with every task complete and
  -- the owner in its target phase; or its current task has failed, the details and the index of
  -- that task are recorded and the owner is in its failed phase; or it is still active, its owner
  -- unchanged, with an incomplete current task and a requeue.
  pub execute_plan-Outcome :
      s₀.plan.phase ≡ TaskPlanPhase.active → Returns (Outcome s₀) (execute_plan rt s₀)
  execute_plan-Outcome active =
      execute_plan-Returns rt (Frame s₀) (Outcome s₀)
        (λ s i t f c. Effect-Round s₀ s i t f active c (advance_task-Effect rt s i t))
        (λ s f done. finish-Outcome s₀ s (rt.now s.world) f done) s₀ active (Frame-refl s₀)
