-- ===== src/Plan/Liveness.antt =====
-- A plan whose tasks all succeed at once (internal/planner/executor.go:67-70).
use sei_k8s_controller.Prelude.{
  ℕ, ◌≡◌, refl, ap, ◌∙◌, inl, inr, true, Option, String, Bool-cases, set,
}
use sei_k8s_controller.Plan.Types.{TaskPlanPhase, TaskStatus, PlannedTask, is_complete}
use sei_k8s_controller.Plan.Runtime.{ExecutionStatus, ok, Deserialized, Runtime}
use sei_k8s_controller.Plan.Executor.{
  State, needs_submission, complete_plan, on_status, poll_task, stamp_submitted, on_executed,
  drive_task, advance_task, task_done, execute_plan,
}
use sei_k8s_controller.Plan.Tasks.{Current, AllComplete, task_done-set}
use sei_k8s_controller.Plan.Loop.{Returns, execute_plan-Returns}

-- Every task deserializes, is accepted, and is found complete when it is polled.
pub record IsPrompt {W E : Type 0} (rt : Runtime W E) : Type 0 where
  pub known :
      (type id : String) (params : Option String) (w : W)
      → (e : E) × (rt.deserialize type id params w ≡ Deserialized.task e)
  pub accepted : (e : E) (w : W) → (rt.execute e w).0 ≡ ok
  pub completed : (e : E) (w : W) → (rt.status e w).0 ≡ ExecutionStatus.complete

module _ {W E : Type 0} (rt : Runtime W E) (p : IsPrompt rt) where
  poll_task-done :
      (e : E) (s : State W) (i : ℕ) (t : PlannedTask)
      → (poll_task rt e s i t).1.plan.tasks
        ≡ set s.plan.tasks i (record t { status = TaskStatus.complete })
  unfolding poll_task
  poll_task-done e s i t = rw (p.completed e s.world, on_status) refl

  drive_task-done :
      (e : E) (s : State W) (i : ℕ) (t : PlannedTask)
      → (t' : PlannedTask) × (t'.status ≡ TaskStatus.complete)
        × ((drive_task rt e s i t).1.plan.tasks ≡ set s.plan.tasks i t')
  unfolding drive_task
  drive_task-done e s i t = elim (Bool-cases (needs_submission t)) [
    | inl fresh ↦
        let now = rt.now (rt.execute e s.world).1 in
        let u = stamp_submitted rt now t in
        (
          record u { status = TaskStatus.complete },
          refl,
          rw (fresh, p.accepted e s.world, on_executed)
              (poll_task-done e (record s { world = (rt.execute e s.world).1 }) i u),
        )
    | inr sent ↦ (record t { status = TaskStatus.complete }, refl, rw sent (poll_task-done e s i t))
  ]

  advance_task-done :
      (s : State W) (i : ℕ) (t : PlannedTask)
      → Current s.plan.tasks i t
      → task_done (advance_task rt s i t).1.plan.tasks i ≡ true
  unfolding advance_task
  advance_task-done s i t c =
      let (e, known) = p.known t.type t.id t.params s.world in
      let (t', st, ts) = drive_task-done e s i t in
      rw (known, ts) (task_done-set t' c ∙ ap is_complete st)

  -- Where every task is accepted and complete when polled, one pass over an active plan completes
  -- all its tasks and the plan.
  pub execute_plan-finishes :
      (s : State W)
      → s.plan.phase ≡ TaskPlanPhase.active
      → Returns
          (λ _ s'. (s'.plan.phase ≡ TaskPlanPhase.complete) × AllComplete s'.plan.tasks)
          (execute_plan rt s)
  execute_plan-finishes s active =
      execute_plan-Returns rt (λ _. Unit)
        (λ _ s'. (s'.plan.phase ≡ TaskPlanPhase.complete) × AllComplete s'.plan.tasks)
        (λ u i t _ c. ((λ _. tt), λ d. absurd (cc (advance_task-done u i t c))))
        (λ u _ done. unfold complete_plan in (refl, done)) s active tt
