-- ===== src/Plan/Failure.antt =====
-- The index that `failTask` records (internal/planner/executor.go:226-231).
use sei_k8s_controller.Prelude.{
  ℕ, suc, ◌+◌, ◌≡◌, ◌≢◌, ap, ◌∙◌, false, some, List, [], ◌∷◌, arith, All, str_eq, eq_iff, eq_refl,
  String,
}
use sei_k8s_controller.Plan.Types.{TaskPlanPhase, PlannedTask}
use sei_k8s_controller.Plan.Runtime.{Runtime}
use sei_k8s_controller.Plan.Executor.{Result, State, index_of_id, execute_plan}
use sei_k8s_controller.Plan.Tasks.{Current}
use sei_k8s_controller.Plan.Outcome.{Outcome, execute_plan-Outcome}
use sei_k8s_controller.Plan.Order.{SamePlan, execute_plan-SamePlan}

-- No two tasks share an id (ids are derived from the plan's id, the type and the index).
abbrev pub DistinctIds : List PlannedTask → Type 0
DistinctIds [] = Unit
DistinctIds (t ∷ ts) = All (λ u. t.id ≢ u.id) ts × DistinctIds ts

All-Current :
    (P : PlannedTask → Type 0) {ts : List PlannedTask} {i : ℕ} {t : PlannedTask}
    → Current ts i t
    → All P ts
    → P t
All-Current P (Current.here o) (h, hs) = h
All-Current P (Current.there o c) (h, hs) = All-Current P c hs

index_of_id-Current :
    (k : ℕ) {ts : List PlannedTask} {i : ℕ} {t : PlannedTask}
    → Current ts i t
    → DistinctIds ts
    → index_of_id t.id k ts ≡ some (k + i)
unfolding index_of_id
index_of_id-Current k {t = t} (Current.here o) d = rw (eq_refl t.id) (ap some (omega arith))
index_of_id-Current k (Current.there {t = u} {u = t} {ts = ts} {i = i} o c) (h, d) =
    let apart : u.id ≢ t.id = All-Current (λ x. u.id ≢ x.id) c h in
    let ih = index_of_id-Current (suc k) c d in
    let miss : str_eq u.id t.id ≡ false = ground (arith, eq_iff u.id t.id) in
    rw miss (ih ∙ ap some (omega arith))

same_ids :
    (P : String → Type 0) (ts us : List PlannedTask)
    → SamePlan ts us
    → All (λ u. P u.id) ts
    → All (λ u. P u.id) us
same_ids P [] [] s h = tt
same_ids P [] (u ∷ us) s h = absurd s
same_ids P (t ∷ ts) [] s h = absurd s
same_ids P (t ∷ ts) (u ∷ us) (e, s) (h, hs) = (rw e.id h, same_ids P ts us s hs)

SamePlan-DistinctIds : (ts us : List PlannedTask) → SamePlan ts us → DistinctIds ts → DistinctIds us
SamePlan-DistinctIds [] [] s d = tt
SamePlan-DistinctIds [] (u ∷ us) s d = absurd s
SamePlan-DistinctIds (t ∷ ts) [] s d = absurd s
SamePlan-DistinctIds (t ∷ ts) (u ∷ us) (e, s) (h, d) =
    (rw e.id (same_ids (λ x. t.id ≢ x) ts us s h), SamePlan-DistinctIds ts us s d)

failed_index :
    {W : Type 0} (s₀ : State W) {r : Result} (s : State W)
    → Outcome s₀ r s
    → SamePlan s₀.plan.tasks s.plan.tasks
    → DistinctIds s₀.plan.tasks
    → s.plan.phase ≡ TaskPlanPhase.failed
    → (i : ℕ) × (t : PlannedTask) × Current s.plan.tasks i t × (s.plan.failed_task_index ≡ some i)
failed_index s₀ s (Outcome.finished now ph done ow q) same d f = absurd (cc)
failed_index s₀ s (Outcome.waiting i t ph c ow q) same d f = absurd (cc)
failed_index s₀ s (Outcome.failed now i t ph c st det ix ow q) same d f = (
  i,
  t,
  c,
  ix
      ∙ rw (index_of_id-Current 0 c (SamePlan-DistinctIds s₀.plan.tasks s.plan.tasks same d))
          (ap some (omega arith)),
)

module _ {W E : Type 0} (rt : Runtime W E) (s₀ : State W) where
  -- Where the tasks of an active plan have distinct ids and a pass fails the plan, the recorded
  -- index is that of the first task that is not complete.
  pub failed_task_index_lem :
      {r : Result} {s : State W}
      → s₀.plan.phase ≡ TaskPlanPhase.active
      → DistinctIds s₀.plan.tasks
      → execute_plan rt s₀ ≡ some (r, s)
      → s.plan.phase ≡ TaskPlanPhase.failed
      → (i : ℕ) × (t : PlannedTask) × Current s.plan.tasks i t × (s.plan.failed_task_index ≡ some i)
  failed_task_index_lem {s = s} active d e f =
      failed_index s₀ s (rw e at (execute_plan-Outcome rt s₀ active))
        (rw e at (execute_plan-SamePlan rt s₀ active)) d f
