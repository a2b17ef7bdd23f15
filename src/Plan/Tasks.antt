-- ===== src/Plan/Tasks.antt =====
-- Facts about the list of tasks of a plan and its current task (`CurrentTask`).
use sei_k8s_controller.Prelude.{
  ℕ, zero, suc, ◌+◌, ◌<◌, ◌≤◌, ◌≡◌, refl, sym, ap, ◌∙◌, subst, inl, inr, true, false, Option, none,
  some, List, [], ◌∷◌, arith, set, length, Bool-cases, if◌then◌else◌, All,
}
use sei_k8s_controller.Plan.Types.{PlannedTask, TaskPlan, is_complete}
use sei_k8s_controller.Plan.Executor.{current_from, current_task, task_done}

-- `t` at position `i` is the first task that is not complete.
pub data Current : List PlannedTask → ℕ → PlannedTask → Type 0 where
  here :
      {t : PlannedTask} {ts : List PlannedTask}
      → is_complete t.status ≡ false
      → Current (t ∷ ts) zero t
  there :
      {t u : PlannedTask} {ts : List PlannedTask} {i : ℕ}
      → is_complete t.status ≡ true
      → Current ts i u
      → Current (t ∷ ts) (suc i) u

abbrev pub AllComplete : List PlannedTask → Type 0
AllComplete = All (λ t. is_complete t.status ≡ true)

-- how many tasks are still to be completed
abbrev pub remaining : List PlannedTask → ℕ
remaining [] = 0
remaining (t ∷ ts) = if is_complete t.status then remaining ts else suc (remaining ts)

open_first :
    (k : ℕ) (u : PlannedTask) (ts : List PlannedTask) (i : ℕ) (t : PlannedTask)
    → is_complete u.status ≡ false
    → ◌≡◌ {A = Option (ℕ × PlannedTask)} (some (k, u)) (some (i, t))
    → (j : ℕ) × (i ≡ k + j) × Current (u ∷ ts) j t
open_first k u ts i t h e =
    let same : u ≡ t = cc in
    let at : k ≡ i = cc in (0, omega arith, subst (λ x. Current (u ∷ ts) 0 x) same (Current.here h))

current_from-some :
    (k : ℕ) (ts : List PlannedTask) (i : ℕ) (t : PlannedTask)
    → current_from k ts ≡ some (i, t)
    → (j : ℕ) × (i ≡ k + j) × Current ts j t
unfolding current_from
current_from-some k [] i t h = cc
current_from-some k (u ∷ ts) i t h = elim (Bool-cases (is_complete u.status)) [
  | inl done ↦
      let (j, e, c) = current_from-some (suc k) ts i t (rw done at h) in
      (suc j, omega arith, Current.there done c)
  | inr open_task ↦ open_first k u ts i t open_task (rw open_task at h)
]

current_from-none : (k : ℕ) (ts : List PlannedTask) → current_from k ts ≡ none → AllComplete ts
unfolding current_from
current_from-none k [] h = tt
current_from-none k (u ∷ ts) h = elim (Bool-cases (is_complete u.status)) [
  | inl done ↦ (done, current_from-none (suc k) ts (rw done at h))
  | inr open_task ↦ ground arith
]

pub current_task-some :
    (p : TaskPlan) (i : ℕ) (t : PlannedTask) → current_task p ≡ some (i, t) → Current p.tasks i t
unfolding current_task
current_task-some p i t h =
    let (j, e, c) = current_from-some 0 p.tasks i t h in let e' : i ≡ j = omega arith in rw e' c

pub current_task-none : (p : TaskPlan) → current_task p ≡ none → AllComplete p.tasks
unfolding current_task
current_task-none p h = current_from-none 0 p.tasks h

pub remaining-le-length : (ts : List PlannedTask) → remaining ts ≤ length ts
remaining-le-length [] = omega arith
remaining-le-length (t ∷ ts) = ground (arith, remaining-le-length ts)

pub Current-open :
    {ts : List PlannedTask} {i : ℕ} {t : PlannedTask}
    → Current ts i t
    → is_complete t.status ≡ false
Current-open (here h) = h
Current-open (there h c) = Current-open c

pub remaining-set :
    {ts : List PlannedTask} {i : ℕ} {t : PlannedTask} (t' : PlannedTask)
    → Current ts i t
    → is_complete t'.status ≡ true
    → suc (remaining (set ts i t')) ≡ remaining ts
remaining-set t' (here h) e = rw (h, e)
remaining-set t' (there {ts = ts} {i = i} h c) e = rw h (remaining-set t' c e)

pub task_done-set :
    {ts : List PlannedTask} {i : ℕ} {t : PlannedTask} (t' : PlannedTask)
    → Current ts i t
    → task_done (set ts i t') i ≡ is_complete t'.status
task_done-set t' (here h) = refl
task_done-set t' (there h c) = task_done-set t' c

pub task_done-Current :
    {ts : List PlannedTask} {i : ℕ} {t : PlannedTask}
    → Current ts i t
    → task_done ts i ≡ is_complete t.status
task_done-Current (here h) = refl
task_done-Current (there h c) = task_done-Current c

pub set-Current :
    {ts : List PlannedTask} {i : ℕ} {t : PlannedTask} → Current ts i t → set ts i t ≡ ts
set-Current (here h) = refl
set-Current (there {t = u} h c) = ap (λ us. u ∷ us) (set-Current c)

-- A write that completes the current task leaves one task less.
pub remaining-lt :
    (ts us : List PlannedTask) {i : ℕ} {t : PlannedTask} (t' : PlannedTask)
    → Current ts i t
    → us ≡ set ts i t'
    → task_done us i ≡ true
    → remaining us < remaining ts
remaining-lt ts us {i} t' c e d =
    let done : is_complete t'.status ≡ true = sym (task_done-set t' c) ∙ (rw e at d) in
    rw e (omega (arith, remaining-set t' c done))

pub Current-set :
    {ts : List PlannedTask} {i : ℕ} {t : PlannedTask} (t' : PlannedTask)
    → Current ts i t
    → is_complete t'.status ≡ false
    → Current (set ts i t') i t'
Current-set t' (here h) o = Current.here o
Current-set t' (there h c) o = Current.there h (Current-set t' c o)
