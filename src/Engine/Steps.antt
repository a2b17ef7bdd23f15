-- ===== src/Engine/Steps.antt =====
-- The engine's operations as the steps of concurrent threads (sidecar/engine/engine.go). A step is
-- what one thread does under the mutex, or one statement of the store, one read of a context or one
-- write of `ready`. So a DELETE is three steps, a run is five, and a submission, which holds the
-- mutex throughout, is three between which steps that need no mutex may fall.
use sei_k8s_controller.Prelude.{
  ℕ, ◌+◌, String, ◌≡◌, Bool, true, Option, none, some, List, ◌∷◌, ◌==◌, if◌then◌else◌,
}
use sei_k8s_controller.Engine.Types.{Task, TaskResult}
use sei_k8s_controller.Engine.Store.{delete}
use sei_k8s_controller.Engine.Core.{
  Run, Engine, Config, HandlerResult, existing_row, task_id, valid_task_id, next_run, running_row,
  spawn, handler_effect, ready_after, row_to_save, save_row, clear_cancel, without_gen,
  remove_cancel, remove_entry,
}
use sei_k8s_controller.Engine.Registry.{Has}

-- how far a run is: in its handler, before the flip of `ready`, before the check of its context,
-- before its save, and before clearCancel
pub data Stage : Type 0 where
  working leaving : Stage
  handled returned : HandlerResult → Stage
  saving : TaskResult → Stage

-- the submission that holds the mutex, before its save and before its spawn
pub data Submission : Type 0 where
  idle : Submission
  preparing recorded : String → ℕ → Task → ℕ → Submission

-- a DELETE before its statement, and before its second critical section
pub data Removal : Type 0 where
  absent : Removal
  cancelling deleted : String → Option ℕ → Removal

-- The engine with its threads: the stage of each generation, the submission that holds the mutex,
-- the DELETEs by a number of their own, and, as a record for the proofs, every run so far.
pub record System : Type 0 where
  pub engine : Engine
  pub stage : ℕ → Stage
  pub submission : Submission
  pub removal : ℕ → Removal
  pub started : List Run

abbrev pub set_at : {A : Type 0} → ℕ → A → (ℕ → A) → ℕ → A
set_at k x f n = if n == k then x else f n

abbrev pub move : ℕ → Stage → System → System
move g stage s = record s { stage = set_at g stage s.stage }

abbrev pub new_run : String → String → String → ℕ → ℕ → Engine → Run
new_run id ty params submitted_at run e = record {
  id = id;
  type = ty;
  params = params;
  submitted_at = submitted_at;
  run = run;
  gen = e.gen + 1;
}

abbrev pub start : String → String → String → ℕ → ℕ → System → System
start id ty params at run s = record s {
  engine = spawn id ty params at run s.engine;
  started = new_run id ty params at run s.engine ∷ s.started;
}

abbrev pub save_or_leave : Option TaskResult → Stage
save_or_leave none = leaving
save_or_leave (some row) = saving row

-- clearCancel, and the goroutine is gone
unfoldable pub leave : Run → Engine → Engine
unfolding clear_cancel without_gen
leave r e =
    let e' = clear_cancel r.id r.gen e in record e' { goroutines = without_gen r.gen e'.goroutines }

-- RemoveResult's first critical section, of the DELETE with the number `k`
abbrev pub begin_delete : ℕ → String → System → System
begin_delete k id s = record s {
  engine = (remove_cancel id s.engine).1;
  removal = set_at k (cancelling id (remove_cancel id s.engine).0) s.removal;
}

abbrev pub after_save : Bool → Submission → Submission
after_save true (preparing id now t run) = recorded id now t run
after_save _ submission = idle

pub data Step (cfg : Config) (s : System) : System → Type 0 where
  -- Submit locks the mutex, reads the row and decides to start a run. One that is refused, or that
  -- answers from the row alone, changes nothing and is no step.
  decide :
      (get_ok : Bool) (uuid : String) (now : ℕ) (t : Task) (run : ℕ)
      → s.submission ≡ idle
      → cfg.has_handler t.type ≡ true
      → valid_task_id cfg t.id ≡ true
      → next_run (existing_row get_ok (task_id uuid t) s.engine.rows) ≡ some run
      → Step cfg s (record s { submission = preparing (task_id uuid t) now t run })
  persist_submission :
      (save_ok : Bool) (id : String) (now : ℕ) (t : Task) (run : ℕ)
      → s.submission ≡ preparing id now t run
      → Step cfg s (record s {
        engine = save_row save_ok (some (running_row id now t run)) s.engine;
        submission = after_save save_ok s.submission;
      })
  spawn_submission :
      (id : String) (now : ℕ) (t : Task) (run : ℕ)
      → s.submission ≡ recorded id now t run
      → Step cfg s (record (start id t.type t.params now run s) { submission = idle })
  -- RehydrateStaleTasks starts a row, by runTask or by runTaskSync.
  rehydrate :
      (id ty params : String) (at run : ℕ)
      → s.submission ≡ idle
      → Step cfg s (start id ty params at run s)
  handler_returns :
      (r : Run) (h : HandlerResult)
      → Has s.engine.goroutines r
      → s.stage r.gen ≡ working
      → Step cfg s (
          move r.gen (handled h) (record s {
            engine = record (s.engine) { rows = handler_effect r.type h s.engine.rows };
          }))
  flip_ready :
      (r : Run) (h : HandlerResult)
      → Has s.engine.goroutines r
      → s.stage r.gen ≡ handled h
      → Step cfg s (
          move r.gen (returned h) (record s {
            engine = record (s.engine) { ready = ready_after r.type h s.engine.ready };
          }))
  check_context :
      (now : ℕ) (r : Run) (h : HandlerResult)
      → Has s.engine.goroutines r
      → s.stage r.gen ≡ returned h
      → Step cfg s (move r.gen (save_or_leave (row_to_save now r h s.engine)) s)
  save_result :
      (save_ok : Bool) (r : Run) (row : TaskResult)
      → Has s.engine.goroutines r
      → s.stage r.gen ≡ saving row
      → Step cfg s (move r.gen leaving (record s { engine = save_row save_ok (some row) s.engine }))
  end_run :
      (r : Run)
      → Has s.engine.goroutines r
      → s.stage r.gen ≡ leaving
      → s.submission ≡ idle
      → Step cfg s (record s { engine = leave r s.engine })
  cancel_run :
      (k : ℕ) (id : String)
      → s.removal k ≡ absent
      → s.submission ≡ idle
      → Step cfg s (begin_delete k id s)
  delete_row :
      (k : ℕ) (id : String) (entry : Option ℕ)
      → s.removal k ≡ cancelling id entry
      → Step cfg s (record s {
        engine = record (s.engine) { rows = delete id s.engine.rows };
        removal = set_at k (deleted id entry) s.removal;
      })
  delete_fails :
      (k : ℕ) (id : String) (entry : Option ℕ)
      → s.removal k ≡ cancelling id entry
      → Step cfg s (record s { removal = set_at k absent s.removal })
  unregister :
      (k : ℕ) (id : String) (entry : Option ℕ)
      → s.removal k ≡ deleted id entry
      → s.submission ≡ idle
      → Step cfg s (record s {
        engine = remove_entry id entry s.engine;
        removal = set_at k absent s.removal;
      })
  stop : Step cfg s (record s { engine = record (s.engine) { shutdown = true } })

pub data Reach (cfg : Config) (s : System) : System → Type 0 where
  here : Reach cfg s s
  next : {t u : System} → Reach cfg s t → Step cfg t u → Reach cfg s u
