-- ===== src/Plan/Loop.antt =====
-- The loop of `executePlan` (internal/planner/executor.go:108-135): it ends within its fuel, and an
-- invariant of one round holds of the whole.
use sei_k8s_controller.Prelude.{
  ℕ, zero, suc, ◌<◌, ◌≡◌, refl, inl, inr, Bool, true, false, Option, none, some, arith, length,
  Option-cases, if◌then◌else◌,
}
use sei_k8s_controller.Plan.Types.{TaskPlanPhase, PlannedTask}
use sei_k8s_controller.Plan.Runtime.{Runtime}
use sei_k8s_controller.Plan.Executor.{
  Result, State, result_requeue_immediate, current_task, complete_plan, advance_task, task_done,
  run, execute_plan,
}
use sei_k8s_controller.Plan.Effect.{Effect-Written, advance_task-Effect}
use sei_k8s_controller.Plan.Tasks.{
  Current, AllComplete, remaining, current_task-some, current_task-none, remaining-le-length,
  remaining-lt, remaining-le-length, set-Current,
}

-- A call that ran out of fuel returns nothing.
abbrev pub Returns : {W : Type 0} → (Result → State W → Type 0) → Option (Result × State W) → Type 0
Returns Q none = ⊥
Returns Q (some (r, s)) = Q r s

branch :
    {W : Type 0} (Q : Result → State W → Type 0) (b : Bool) (rest : Option (Result × State W))
    (r : Result) (s : State W)
    → (b ≡ true → Returns Q rest)
    → (b ≡ false → Q r s)
    → Returns Q (if b then rest else some (r, s))
branch Q true rest r s yes_case no_case = yes_case refl
branch Q false rest r s yes_case no_case = no_case refl

module _ {W E : Type 0} (rt : Runtime W E) (I : State W → Type 0) (Q : Result → State W → Type 0)
    (step : (s : State W) (i : ℕ) (t : PlannedTask)
      → I s
      → Current s.plan.tasks i t
      → let (r, s') = advance_task rt s i t in
        (task_done s'.plan.tasks i ≡ true → I s') × (task_done s'.plan.tasks i ≡ false → Q r s'))
    (last : (s : State W)
      → I s
      → AllComplete s.plan.tasks
      → Q result_requeue_immediate (complete_plan (rt.now s.world) s)) where
  pub run-Returns :
      (fuel : ℕ) (s : State W) → remaining s.plan.tasks < fuel → I s → Returns Q (run rt fuel s)
  unfolding run
  run-Returns zero s h inv = absurd (omega arith)
  run-Returns (suc fuel) s h inv = elim (Option-cases (current_task s.plan)) [
    | inl finished ↦ rw (finished, Returns) (last s inv (current_task-none s.plan finished))
    | inr ((i, t), e) ↦
        rw (e, Returns)
          (let (r, s') = advance_task rt s i t in
            let c = current_task-some s.plan i t e in
            let (more, stop) = step s i t inv c in
            let (t', w) =
              Effect-Written s.plan i t (set-Current c) (advance_task-Effect rt s i t) in
            branch Q (task_done s'.plan.tasks i) (run rt fuel s') r s'
              (λ d.
                run-Returns fuel s'
                  (omega (arith, remaining-lt s.plan.tasks s'.plan.tasks t' c w.tasks d)) (more d))
              stop)
  ]

  pub execute_plan-Returns :
      (s : State W) → s.plan.phase ≡ TaskPlanPhase.active → I s → Returns Q (execute_plan rt s)
  unfolding execute_plan
  execute_plan-Returns s active inv =
      rw (active, Returns)
        (run-Returns (suc (length s.plan.tasks)) s (omega (arith, remaining-le-length s.plan.tasks))
          inv)
