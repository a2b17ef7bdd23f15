-- ===== src/Engine/Lifecycle.antt =====
-- The life of one task: `Submit`, `runTaskSync`, `clearCancel` and `RemoveResult`
-- (sidecar/engine/engine.go).
use sei_k8s_controller.Prelude.{
  ℕ, ◌+◌, String, ◌≡◌, ◌≢◌, refl, ◌∙◌, Bool, true, false, Option, none, some, [], ◌∷◌, ◌++◌, arith,
  str_eq, eq_refl, if◌then◌else◌,
}
use sei_k8s_controller.Prelude.Dict.{lookup, lookup-insert}
use sei_k8s_controller.Engine.Types.{TaskStatus, Task, TaskResult}
use sei_k8s_controller.Engine.Store.{get}
use sei_k8s_controller.Engine.StoreLaws.{get-save}
use sei_k8s_controller.Engine.Core.{
  Run, Engine, Config, HandlerResult, success, SubmitResult, accepted, valid_task_id, running_row,
  start_run, on_existing, task_id, submit, context_cancelled, clear_cancel, finish,
}

-- A task type that has a handler and an id that is empty or a UUID.
pub record IsAcceptable (cfg : Config) (t : Task) : Type 0 where
  pub handler : cfg.has_handler t.type ≡ true
  pub id : valid_task_id cfg t.id ≡ true

-- The run counter of the last run under an id, 0 if there is no row.
abbrev pub last_run : Option TaskResult → ℕ
last_run none = 0
last_run (some r) = r.run

-- An id under which `Submit` starts a run: no row, or a failed one.
abbrev pub IsStartable : Option TaskResult → Type 0
IsStartable none = Unit
IsStartable (some r) = r.status ≡ TaskStatus.failed

-- What a run that is started under `id` with counter `run` returns and leaves.
abbrev pub Started : String → ℕ → ℕ → Task → Engine → SubmitResult × Engine → Type 0
Started id run now t e (r, e') =
    (r ≡ accepted id)
    × ((j : String)
        → get j e'.rows ≡ (if str_eq id j then some (running_row id now t run) else get j e.rows))
    × (e'.goroutines
        ≡ e.goroutines
          ++ (record {
            id = id;
            type = t.type;
            params = t.params;
            submitted_at = now;
            run = run;
            gen = e.gen + 1;
          })
            ∷ [])
    × (lookup id e'.cancels ≡ some (e.gen + 1))
    × (e'.ready ≡ e.ready)

start_run-Started :
    (id : String) (now : ℕ) (t : Task) (run : ℕ) (e : Engine)
    → Started id run now t e (start_run true id now t run e)
unfolding start_run
start_run-Started id now t run e = (
  refl,
  (λ j. get-save (running_row id now t run) j e.rows),
  refl,
  lookup-insert id id (e.gen + 1) e.cancels ∙ rw (eq_refl id),
  refl,
)

on_existing-Started :
    (o : Option TaskResult) (id : String) (now : ℕ) (t : Task) (e : Engine)
    → IsStartable o
    → Started id (last_run o + 1) now t e (on_existing o true id now t e)
unfolding on_existing
on_existing-Started none id now t e st = start_run-Started id now t 1 e
on_existing-Started (some row) id now t e st = rw st (start_run-Started id now t (row.run + 1) e)

module _ (cfg : Config) (uuid : String) (now : ℕ) (t : Task) (e : Engine) where
  -- With a row that is running or completed, a submit whose read succeeds returns the task's id and
  -- changes nothing, whether or not a save would succeed.
  pub submit_idempotent :
      (save_ok : Bool) (row : TaskResult)
      → IsAcceptable cfg t
      → get (task_id uuid t) e.rows ≡ some row
      → row.status ≢ TaskStatus.failed
      → submit cfg true save_ok uuid now t e ≡ (accepted (task_id uuid t), e)
  unfolding submit
  submit_idempotent save_ok row a g nf = rw (a.handler, a.id, g) (ground arith)

  -- A submit under an id with no row or a failed one, whose read and save succeed, returns the id
  -- and records a running row with the run counter after the last; no other row changes; one
  -- goroutine is added for it, under a new generation that is registered for the id.
  pub submit_starts :
      IsAcceptable cfg t
      → IsStartable (get (task_id uuid t) e.rows)
      → Started
          (task_id uuid t)
          (last_run (get (task_id uuid t) e.rows) + 1)
          now
          t
          e
          (submit cfg true true uuid now t e)
  unfolding submit
  submit_starts a st =
      rw (a.handler, a.id)
        (on_existing-Started (get (task_id uuid t) e.rows) (task_id uuid t) now t e st)

  -- A submit that does not return the id changes nothing.
  pub submit_refused :
      (get_ok save_ok : Bool)
      → (submit cfg get_ok save_ok uuid now t e).0 ≢ accepted (task_id uuid t)
      → (submit cfg get_ok save_ok uuid now t e).1 ≡ e
  unfolding submit
  submit_refused get_ok save_ok h = ground arith

  -- Where the read of the existing row fails, its error is dropped: a task that is running or
  -- completed is recorded again as a first run, and a further goroutine is started for it.
  pub submit_read_error :
      (row : TaskResult)
      → IsAcceptable cfg t
      → get (task_id uuid t) e.rows ≡ some row
      → row.status ≢ TaskStatus.failed
      → let e' = (submit cfg false true uuid now t e).1 in
        let id = task_id uuid t in
        (get id e'.rows ≡ some (running_row id now t 1))
        × (e'.goroutines
            ≡ e.goroutines
              ++ (record {
                id = id;
                type = t.type;
                params = t.params;
                submitted_at = now;
                run = 1;
                gen = e.gen + 1;
              })
                ∷ [])
  unfolding submit
  submit_read_error row a g nf = rw (a.handler, a.id) (rw (get-save, eq_refl) refl, refl)

pub clear_cancel-rows : (id : String) (g : ℕ) (e : Engine) → (clear_cancel id g e).rows ≡ e.rows
unfolding clear_cancel
clear_cancel-rows id g e = ground arith

pub clear_cancel-ready : (id : String) (g : ℕ) (e : Engine) → (clear_cancel id g e).ready ≡ e.ready
unfolding clear_cancel
clear_cancel-ready id g e = ground arith

-- Whether a handler returned without an error.
abbrev pub is_success : HandlerResult → Bool
is_success (success _) = true
is_success _ = false

module _ (save_ok : Bool) (now : ℕ) (r : Run) (h : HandlerResult) (e : Engine) where
  -- A run whose registration was replaced by a newer one ends without touching that one: no entry
  -- changes, and no context is cancelled.
  pub finish_superseded :
      (g : ℕ)
      → lookup r.id e.cancels ≡ some g
      → g ≢ r.gen
      → ((finish save_ok now r h e).cancels ≡ e.cancels)
        × ((finish save_ok now r h e).cancelled ≡ e.cancelled)
  unfolding finish
  finish_superseded g l ne = ground arith

  -- A run that ends in an error under a cancelled context leaves the rows and the readiness as they
  -- were.
  pub finish_cancelled :
      is_success h ≡ false
      → context_cancelled r.gen e ≡ true
      → ((finish save_ok now r h e).rows ≡ e.rows) × ((finish save_ok now r h e).ready ≡ e.ready)
  unfolding finish
  finish_cancelled err c = ground arith

-- A run that succeeds is recorded as completed, with its result and its run counter, whether or not
-- its context was cancelled, if the save succeeds.
pub finish_success :
    (now : ℕ) (r : Run) (x : Option String) (e : Engine)
    → get r.id (finish true now r (success x) e).rows
      ≡ some (record {
        id = r.id;
        type = r.type;
        status = TaskStatus.completed;
        run = r.run;
        params = r.params;
        result = x;
        error = "";
        submitted_at = r.submitted_at;
        completed_at = some now;
      })
unfolding finish
finish_success now r x e = rw (clear_cancel-rows, get-save, eq_refl) refl
