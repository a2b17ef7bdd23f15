-- ===== src/Plan/Effect.antt =====
-- What one call of `advanceTask` can do to a plan (internal/planner/executor.go:140-207).
use sei_k8s_controller.Prelude.{
  ℕ, ◌+◌, ◌<◌, String, ◌≡◌, refl, sym, ap, ◌∙◌, ◌≤◌, inl, inr, arith, set, ltb, ◌&&◌, Bool-cases,
}
use sei_k8s_controller.Plan.Types.{TaskStatus, PlannedTask, TaskPlan, Owner}
use sei_k8s_controller.Plan.Runtime.{
  ExecutionStatus, ExecuteResult, ok, terminal, transient, Deserialized, Runtime,
}
use sei_k8s_controller.Plan.Executor.{
  Result, State, no_requeue, retry_backoff, needs_submission, fail_task, on_failed, on_status,
  poll_task, stamp_submitted, on_executed, drive_task, on_deserialized, advance_task,
}

-- The fields of a task that no step of the executor writes.
pub record SameTask (t t' : PlannedTask) : Type 0 where
  pub type : t'.type ≡ t.type
  pub id : t'.id ≡ t.id
  pub params : t'.params ≡ t.params
  pub max_retries : t'.max_retries ≡ t.max_retries

-- The ways in which a call with plan `p`, owner `o` and task `t` at `i` can end.
pub data Effect {W : Type 0} (p : TaskPlan) (o : Owner) (i : ℕ) (t : PlannedTask) (r : Result)
    (s' : State W) : Type 0 where
  completed :
      (t' : PlannedTask)
      → SameTask t t'
      → t'.status ≡ TaskStatus.complete
      → t'.retry_count ≡ t.retry_count
      → s'.plan ≡ record p { tasks = set p.tasks i t' }
      → s'.owner ≡ o
      → Effect p o i t r s'
  waiting :
      (t' : PlannedTask)
      → SameTask t t'
      → t'.status ≡ t.status
      → t'.retry_count ≡ t.retry_count
      → 0 < r.requeue_after
      → s'.plan ≡ record p { tasks = set p.tasks i t' }
      → s'.owner ≡ o
      → Effect p o i t r s'
  deferred : 0 < r.requeue_after → s'.plan ≡ p → s'.owner ≡ o → Effect p o i t r s'
  retried :
      (t' : PlannedTask)
      → SameTask t t'
      → t'.status ≡ TaskStatus.pending
      → t.retry_count < t.max_retries
      → t'.retry_count ≡ t.retry_count + 1
      → r.requeue_after ≡ retry_backoff (t.retry_count + 1)
      → s'.plan ≡ record p { tasks = set p.tasks i t' }
      → s'.owner ≡ o
      → Effect p o i t r s'
  failed :
      (t' : PlannedTask) (s : State W) (now : ℕ) (msg : String)
      → SameTask t t'
      → t'.retry_count ≡ t.retry_count
      → s.plan ≡ p
      → s.owner ≡ o
      → r ≡ no_requeue
      → s' ≡ fail_task now s i t' msg
      → Effect p o i t r s'

SameTask-refl : (t : PlannedTask) → SameTask t t
SameTask-refl t = record { type = refl; id = refl; params = refl; max_retries = refl }

module _ {W E : Type 0} (rt : Runtime W E) where
  on_failed-Effect :
      (e : E) (s : State W) (i : ℕ) (t : PlannedTask)
      → Effect s.plan s.owner i t (on_failed rt e s i t).0 (on_failed rt e s i t).1
  unfolding on_failed
  on_failed-Effect e s i t =
      elim (Bool-cases (ltb 0 t.max_retries && ltb t.retry_count t.max_retries)) [
        | inl more ↦ rw more (
            Effect.retried _ (record { type = refl; id = refl; params = refl; max_retries = refl })
              refl (ground arith) refl refl refl refl)
        | inr done ↦ rw done (Effect.failed t s _ _ (SameTask-refl t) refl refl refl refl refl)
      ]

  on_status-Effect :
      (st : ExecutionStatus) (e : E) (s : State W) (i : ℕ) (t : PlannedTask)
      → Effect s.plan s.owner i t (on_status rt st e s i t).0 (on_status rt st e s i t).1
  unfolding on_status
  on_status-Effect ExecutionStatus.running e s i t =
      Effect.waiting t (SameTask-refl t) refl refl (omega arith) refl refl
  on_status-Effect ExecutionStatus.complete e s i t =
      Effect.completed (record t { status = TaskStatus.complete })
        (record { type = refl; id = refl; params = refl; max_retries = refl }) refl refl refl refl
  on_status-Effect ExecutionStatus.failed e s i t = on_failed-Effect e s i t
  on_status-Effect (ExecutionStatus.other _) e s i t =
      Effect.waiting t (SameTask-refl t) refl refl (omega arith) refl refl

  poll_task-Effect :
      (e : E) (s : State W) (i : ℕ) (t : PlannedTask)
      → Effect s.plan s.owner i t (poll_task rt e s i t).0 (poll_task rt e s i t).1
  unfolding poll_task
  poll_task-Effect e s i t =
      let (st, w) = rt.status e s.world in on_status-Effect st e (record s { world = w }) i t

  restamp : (now : ℕ) {t t' : PlannedTask} → SameTask (stamp_submitted rt now t) t' → SameTask t t'
  unfolding stamp_submitted
  restamp now h = record {
    type = h.type;
    id = h.id;
    params = h.params;
    max_retries = h.max_retries;
  }

  -- The ways do not depend on when the task was submitted.
  Effect-stamp :
      (now : ℕ) (p : TaskPlan) (o : Owner) (i : ℕ) (t : PlannedTask) {r : Result} {s' : State W}
      → Effect p o i (stamp_submitted rt now t) r s'
      → Effect p o i t r s'
  unfolding stamp_submitted
  Effect-stamp now p o i t (Effect.completed t' same st n pl ow) =
      Effect.completed t' (restamp now same) st n pl ow
  Effect-stamp now p o i t (Effect.waiting t' same st n d pl ow) =
      Effect.waiting t' (restamp now same) st n d pl ow
  Effect-stamp now p o i t (Effect.deferred d pl ow) = Effect.deferred d pl ow
  Effect-stamp now p o i t (Effect.retried t' same st lt n d pl ow) =
      Effect.retried t' (restamp now same) st lt n d pl ow
  Effect-stamp now p o i t (Effect.failed t' s at msg same n pl ow d e) =
      Effect.failed t' s at msg (restamp now same) n pl ow d e

  on_executed-Effect :
      (x : ExecuteResult) (e : E) (s : State W) (i : ℕ) (t : PlannedTask)
      → Effect s.plan s.owner i t (on_executed rt x e s i t).0 (on_executed rt x e s i t).1
  unfolding on_executed
  on_executed-Effect ok e s i t =
      Effect-stamp (rt.now s.world) s.plan s.owner i t
        (poll_task-Effect e s i (stamp_submitted rt (rt.now s.world) t))
  on_executed-Effect (terminal msg) e s i t =
      Effect.failed t s _ msg (SameTask-refl t) refl refl refl refl refl
  on_executed-Effect (transient _) e s i t = Effect.deferred (omega arith) refl refl

  drive_task-Effect :
      (e : E) (s : State W) (i : ℕ) (t : PlannedTask)
      → Effect s.plan s.owner i t (drive_task rt e s i t).0 (drive_task rt e s i t).1
  unfolding drive_task
  drive_task-Effect e s i t = elim (Bool-cases (needs_submission t)) [
    | inl fresh ↦
        rw fresh
          (let (x, w) = rt.execute e s.world in on_executed-Effect x e (record s { world = w }) i t)
    | inr sent ↦ rw sent (poll_task-Effect e s i t)
  ]

  on_deserialized-Effect :
      (d : Deserialized E) (s : State W) (i : ℕ) (t : PlannedTask)
      → Effect s.plan s.owner i t (on_deserialized rt d s i t).0 (on_deserialized rt d s i t).1
  unfolding on_deserialized
  on_deserialized-Effect (Deserialized.task e) s i t = drive_task-Effect e s i t
  on_deserialized-Effect (Deserialized.error msg) s i t =
      Effect.failed t s _ msg (SameTask-refl t) refl refl refl refl refl

  pub advance_task-Effect :
      (s : State W) (i : ℕ) (t : PlannedTask)
      → Effect s.plan s.owner i t (advance_task rt s i t).0 (advance_task rt s i t).1
  unfolding advance_task
  advance_task-Effect s i t =
      on_deserialized-Effect (rt.deserialize t.type t.id t.params s.world) s i t

-- Every way writes at most the current task, and none of its fixed fields.
pub record Written {W : Type 0} (p : TaskPlan) (i : ℕ) (t t' : PlannedTask) (s' : State W)
    : Type 0 where
  pub same : SameTask t t'
  pub tasks : s'.plan.tasks ≡ set p.tasks i t'
  pub retries : t.retry_count ≤ t.max_retries → t'.retry_count ≤ t.max_retries

pub Effect-Written :
    {W : Type 0} (p : TaskPlan) {o : Owner} (i : ℕ) (t : PlannedTask) {r : Result} {s' : State W}
    → set p.tasks i t ≡ p.tasks
    → Effect p o i t r s'
    → (t' : PlannedTask) × Written p i t t' s'
unfolding fail_task
Effect-Written p i t c (Effect.completed t' same st n pl ow) =
    (t', record { same = same; tasks = ap (λ q. q.tasks) pl; retries = λ h. omega arith })
Effect-Written p i t c (Effect.waiting t' same st n q pl ow) =
    (t', record { same = same; tasks = ap (λ q. q.tasks) pl; retries = λ h. omega arith })
Effect-Written p i t c (Effect.deferred q pl ow) =
    (t, record { same = SameTask-refl t; tasks = ap (λ q. q.tasks) pl ∙ sym c; retries = λ h. h })
Effect-Written p i t c (Effect.retried t' same st lt n q pl ow) =
    (t', record { same = same; tasks = ap (λ q. q.tasks) pl; retries = λ h. omega arith })
Effect-Written p i t c (Effect.failed t' s at msg same n pl ow q e) = (
  record t' { status = TaskStatus.failed; error = msg },
  record {
    same = record {
      type = same.type;
      id = same.id;
      params = same.params;
      max_retries = same.max_retries;
    };
    tasks =
        ap (λ q. q.plan.tasks) e
        ∙ ap
            (λ (q : TaskPlan).
              set q.tasks i (record t' { status = TaskStatus.failed; error = msg }))
            pl;
    retries = λ h. omega arith;
  },
)
