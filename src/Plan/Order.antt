-- ===== src/Plan/Order.antt =====
-- The order of a plan's tasks and their retry budgets, through a pass of `ExecutePlan`.
use sei_k8s_controller.Prelude.{
  ℕ, ◌≤◌, ◌≡◌, refl, sym, subst, ◌∙◌, ◌⊎◌, inl, inr, true, none, List, [], ◌∷◌, arith, set, All,
}
use sei_k8s_controller.Plan.Types.{TaskPlanPhase, TaskStatus, PlannedTask, is_complete}
use sei_k8s_controller.Plan.Runtime.{Runtime}
use sei_k8s_controller.Plan.Executor.{State, complete_plan, execute_plan}
use sei_k8s_controller.Plan.Effect.{SameTask, Effect-Written, advance_task-Effect}
use sei_k8s_controller.Plan.Tasks.{Current, set-Current}
use sei_k8s_controller.Plan.Loop.{Returns, execute_plan-Returns}

-- A task that was never submitted.
pub record IsFresh (t : PlannedTask) : Type 0 where
  pub pending : t.status ≡ TaskStatus.pending
  pub unsubmitted : t.submitted_at ≡ none

-- Complete tasks, at most one that was begun, and then tasks that were never submitted.
abbrev pub InOrder : List PlannedTask → Type 0
InOrder [] = Unit
InOrder (t ∷ ts) = ((is_complete t.status ≡ true) × InOrder ts) ⊎ All IsFresh ts

Fresh-InOrder : (ts : List PlannedTask) → All IsFresh ts → InOrder ts
Fresh-InOrder [] h = tt
Fresh-InOrder (t ∷ ts) h = inr h.1

InOrder-set :
    {ts : List PlannedTask} {i : ℕ} {t : PlannedTask} (t' : PlannedTask)
    → Current ts i t
    → InOrder ts
    → InOrder (set ts i t')
InOrder-set t' (Current.here h) (inl (done, rest)) = absurd (cc)
InOrder-set t' (Current.here h) (inr fresh) = inr fresh
InOrder-set t' (Current.there h c) (inl (done, rest)) = inl (h, InOrder-set t' c rest)
InOrder-set t' (Current.there {ts = ts} h c) (inr fresh) =
    inl (h, InOrder-set t' c (Fresh-InOrder ts fresh))

-- A task within its retry budget.
abbrev pub InBudget : PlannedTask → Type 0
InBudget t = t.retry_count ≤ t.max_retries

InBudget-set :
    {ts : List PlannedTask} {i : ℕ} {t : PlannedTask} (t' : PlannedTask)
    → Current ts i t
    → SameTask t t'
    → (t.retry_count ≤ t.max_retries → t'.retry_count ≤ t.max_retries)
    → All InBudget ts
    → All InBudget (set ts i t')
InBudget-set t' (Current.here h) same k (b, bs) = (omega (arith, k b, same.max_retries), bs)
InBudget-set t' (Current.there h c) same k (b, bs) = (b, InBudget-set t' c same k bs)

-- The tasks of `us` are those of `ts`, but for their progress.
abbrev pub SamePlan : List PlannedTask → List PlannedTask → Type 0
SamePlan [] [] = Unit
SamePlan [] (u ∷ us) = ⊥
SamePlan (t ∷ ts) [] = ⊥
SamePlan (t ∷ ts) (u ∷ us) = SameTask t u × SamePlan ts us

SamePlan-refl : (ts : List PlannedTask) → SamePlan ts ts
SamePlan-refl [] = tt
SamePlan-refl (t ∷ ts) =
    (record { type = refl; id = refl; params = refl; max_retries = refl }, SamePlan-refl ts)

SameTask-trans : {t u v : PlannedTask} → SameTask t u → SameTask u v → SameTask t v
SameTask-trans a b = record {
  type = b.type ∙ a.type;
  id = b.id ∙ a.id;
  params = b.params ∙ a.params;
  max_retries = b.max_retries ∙ a.max_retries;
}

SamePlan-set :
    (ts : List PlannedTask) {us : List PlannedTask} {i : ℕ} {t : PlannedTask} (t' : PlannedTask)
    → Current us i t
    → SameTask t t'
    → SamePlan ts us
    → SamePlan ts (set us i t')
SamePlan-set [] t' (Current.here h) same s = absurd s
SamePlan-set [] t' (Current.there h c) same s = absurd s
SamePlan-set (v ∷ ts) t' (Current.here h) same (a, s) = (SameTask-trans a same, s)
SamePlan-set (v ∷ ts) t' (Current.there h c) same (a, s) = (a, SamePlan-set ts t' c same s)

module _ {W E : Type 0} (rt : Runtime W E) (P : List PlannedTask → Type 0)
    (keep : (ts : List PlannedTask) (i : ℕ) (t t' : PlannedTask)
      → Current ts i t
      → SameTask t t'
      → (t.retry_count ≤ t.max_retries → t'.retry_count ≤ t.max_retries)
      → P ts
      → P (set ts i t')) where
  -- What every write to the current task keeps, a pass keeps.
  tasks-Returns :
      (s₀ : State W)
      → s₀.plan.phase ≡ TaskPlanPhase.active
      → P s₀.plan.tasks
      → Returns (λ _ s. P s.plan.tasks) (execute_plan rt s₀)
  tasks-Returns s₀ active h =
      execute_plan-Returns rt (λ s. P s.plan.tasks) (λ _ s. P s.plan.tasks)
        (λ s i t k c.
          let (t', w) = Effect-Written s.plan i t (set-Current c) (advance_task-Effect rt s i t) in
          let after = subst P (sym w.tasks) (keep s.plan.tasks i t t' c w.same w.retries k) in
          ((λ _. after), λ _. after))
        (λ s k done. unfold complete_plan in k) s₀ active h

module _ {W E : Type 0} (rt : Runtime W E) (s₀ : State W) where
  -- One pass over an active plan always returns and keeps the tasks in order: no task is begun
  -- before all tasks in front of it are complete.
  pub execute_plan-InOrder :
      s₀.plan.phase ≡ TaskPlanPhase.active
      → InOrder s₀.plan.tasks
      → Returns (λ _ s. InOrder s.plan.tasks) (execute_plan rt s₀)
  execute_plan-InOrder = tasks-Returns rt InOrder (λ ts i t t' c same k h. InOrder-set t' c h) s₀

  -- One pass over an active plan always returns and takes no task over its retry limit.
  pub execute_plan-InBudget :
      s₀.plan.phase ≡ TaskPlanPhase.active
      → All InBudget s₀.plan.tasks
      → Returns (λ _ s. All InBudget s.plan.tasks) (execute_plan rt s₀)
  execute_plan-InBudget =
      tasks-Returns rt (All InBudget) (λ ts i t t' c same k h. InBudget-set t' c same k h) s₀

  -- One pass over an active plan always returns; it adds, drops and reorders no task and changes
  -- no task's type, id, params or retry limit.
  pub execute_plan-SamePlan :
      s₀.plan.phase ≡ TaskPlanPhase.active
      → Returns (λ _ s. SamePlan s₀.plan.tasks s.plan.tasks) (execute_plan rt s₀)
  execute_plan-SamePlan active =
      tasks-Returns rt (SamePlan s₀.plan.tasks)
        (λ ts i t t' c same k h. SamePlan-set s₀.plan.tasks t' c same h) s₀ active
        (SamePlan-refl s₀.plan.tasks)
