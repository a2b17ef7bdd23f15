-- ===== src/Engine/Core.antt =====
-- sidecar/engine/engine.go: the engine's state and its operations. A goroutine that runs a handler
-- is an entry of `goroutines` until `finish`; the outcome of the handler, the clock, a fresh UUID
-- and whether a statement of the store succeeds are arguments. Logs and metrics are left out.
use sei_k8s_controller.Prelude.{
  ℕ, ◌+◌, String, Bool, true, false, not, ◌||◌, Option, none, some, List, [], ◌∷◌, ◌++◌, str_eq,
  ◌==◌, if◌then◌else◌,
}
use sei_k8s_controller.Prelude.Dict.{Dict, lookup, erase, insert}
use sei_k8s_controller.Engine.Types.{TaskStatus, Task, TaskResult, mark_ready, mark_not_ready}
use sei_k8s_controller.Engine.Store.{Rows, get, save, delete_by_type}

-- The arguments of one `runTask`, with the generation of its context.
pub record Run : Type 0 where
  pub id : String
  pub type : String
  pub params : String
  pub submitted_at : ℕ
  pub run : ℕ
  pub gen : ℕ

-- `cancels` maps a task's id to the generation of its registration; a context is its generation,
-- and `cancelled` lists those that were cancelled one by one.
pub record Engine : Type 0 where
  pub rows : Rows
  pub ready : Bool
  pub cancels : Dict ℕ
  pub gen : ℕ
  pub cancelled : List ℕ
  pub shutdown : Bool
  pub goroutines : List Run

-- The handler map and uuid.Parse.
pub record Config : Type 0 where
  pub has_handler : String → Bool
  pub valid_uuid : String → Bool

-- What a handler returned: a result with no error, one with an error (and whether that error wraps
-- context.Canceled), or a panic.
pub data HandlerResult : Type 0 where
  success : Option String → HandlerResult
  failure : Option String → String → Bool → HandlerResult
  panic : String → HandlerResult

pub data SubmitResult : Type 0 where
  accepted : String → SubmitResult
  unknown_task_type invalid_task_id persist_task : SubmitResult

unfoldable pub valid_task_id : Config → String → Bool
valid_task_id cfg id = str_eq id "" || cfg.valid_uuid id

unfoldable pub new_task_context : String → Engine → ℕ × Engine
new_task_context id e =
    (e.gen + 1, record e { gen = e.gen + 1; cancels = insert id (e.gen + 1) e.cancels })

unfoldable pub run_task : Run → Engine → Engine
run_task r e = record e { goroutines = e.goroutines ++ r ∷ [] }

-- `newTaskContext` and then `runTask`
unfoldable pub spawn : String → String → String → ℕ → ℕ → Engine → Engine
unfolding new_task_context run_task
spawn id ty params submitted_at run e =
    let (gen, e') = new_task_context id e in
    run_task
      (record {
        id = id;
        type = ty;
        params = params;
        submitted_at = submitted_at;
        run = run;
        gen = gen;
      })
      e'

-- the row that `Submit` persists
unfoldable pub running_row : String → ℕ → Task → ℕ → TaskResult
running_row id now t run = record {
  id = id;
  type = t.type;
  status = TaskStatus.running;
  run = run;
  params = t.params;
  result = none;
  error = "";
  submitted_at = now;
  completed_at = none;
}

unfoldable pub start_run : Bool → String → ℕ → Task → ℕ → Engine → SubmitResult × Engine
unfolding running_row spawn
start_run save_ok id now t run e =
    if save_ok
    then (
      accepted id,
      spawn id t.type t.params now run (record e { rows = save (running_row id now t run) e.rows }),
    )
    else (persist_task, e)

-- the switch on the existing row's status
unfoldable pub on_row : TaskStatus → ℕ → Bool → String → ℕ → Task → Engine → SubmitResult × Engine
unfolding start_run
on_row TaskStatus.running last save_ok id now t e = (accepted id, e)
on_row TaskStatus.completed last save_ok id now t e = (accepted id, e)
on_row TaskStatus.failed last save_ok id now t e = start_run save_ok id now t (last + 1) e

unfoldable pub on_existing :
    Option TaskResult → Bool → String → ℕ → Task → Engine → SubmitResult × Engine
unfolding on_row
on_existing none save_ok id now t e = start_run save_ok id now t 1 e
on_existing (some row) save_ok id now t e = on_row row.status row.run save_ok id now t e

-- the counter of the run that `Submit` starts; none where it answers with the id alone
unfoldable pub next_run : Option TaskResult → Option ℕ
next_run none = some 1
next_run (some row) = elim row.status [
  | TaskStatus.running ↦ none
  | TaskStatus.completed ↦ none
  | TaskStatus.failed ↦ some (row.run + 1)
]

-- `existing, _ := e.store.Get(id)`: an error of the read is dropped
unfoldable pub existing_row : Bool → String → Rows → Option TaskResult
existing_row get_ok id rows = if get_ok then get id rows else none

abbrev pub task_id : String → Task → String
task_id uuid t = if str_eq t.id "" then uuid else t.id

unfoldable pub submit : Config → Bool → Bool → String → ℕ → Task → Engine → SubmitResult × Engine
unfolding valid_task_id on_existing existing_row
submit cfg get_ok save_ok uuid now t e =
    if not (cfg.has_handler t.type)
    then (unknown_task_type, e)
    else if not (valid_task_id cfg t.id)
    then (invalid_task_id, e)
    else on_existing (existing_row get_ok (task_id uuid t) e.rows) save_ok (task_id uuid t) now t e

unfoldable pub mem_gen : ℕ → List ℕ → Bool
mem_gen g [] = false
mem_gen g (h ∷ hs) = h == g || mem_gen g hs

-- whether the context of generation `g` is cancelled, by itself or with the engine
unfoldable pub context_cancelled : ℕ → Engine → Bool
unfolding mem_gen
context_cancelled g e = e.shutdown || mem_gen g e.cancelled

-- cancel and unregister, if the entry is still that of generation `g`
unfoldable pub clear_cancel : String → ℕ → Engine → Engine
clear_cancel id g e = elim (lookup id e.cancels) [
  | none ↦ e
  | some h ↦
      if h == g then record e { cancelled = g ∷ e.cancelled; cancels = erase id e.cancels } else e
]

-- What the mark-not-ready handler does to the store (sidecar/tasks/mark_not_ready.go): it succeeds
-- once the recorded mark-ready rows are gone. No other handler writes task results.
unfoldable pub handler_effect : String → HandlerResult → Rows → Rows
handler_effect ty (success _) rows =
    if str_eq ty mark_not_ready then delete_by_type mark_ready rows else rows
handler_effect ty (failure _ _ _) rows = rows
handler_effect ty (panic _) rows = rows

-- the hooks at the end of `execute`, the only writers of `ready`
unfoldable pub ready_after : String → HandlerResult → Bool → Bool
ready_after ty (success _) ready =
    if str_eq ty mark_ready then true else if str_eq ty mark_not_ready then false else ready
ready_after ty (failure _ _ _) ready = ready
ready_after ty (panic _) ready = ready

unfoldable pub execute : String → HandlerResult → Engine → Engine
unfolding handler_effect ready_after
execute ty h e = record e { rows = handler_effect ty h e.rows; ready = ready_after ty h e.ready }

-- the row that a finished run persists; a panic is an error with no result
unfoldable pub finished_row : ℕ → Run → HandlerResult → TaskResult
finished_row now r h = record {
  id = r.id;
  type = r.type;
  status = elim h [ success _ ↦ TaskStatus.completed | _ ↦ TaskStatus.failed ];
  run = r.run;
  params = r.params;
  result = elim h [ success x ↦ x | failure x _ _ ↦ x | panic _ ↦ none ];
  error = elim h [ success _ ↦ "" | failure _ msg _ ↦ msg | panic msg ↦ msg ];
  submitted_at = r.submitted_at;
  completed_at = some now;
}

-- whether a run that ends in an error leaves the store untouched
unfoldable pub dropped : Bool → HandlerResult → Bool
dropped cancelled (success _) = false
dropped cancelled (failure _ _ wraps_canceled) = wraps_canceled || cancelled
dropped cancelled (panic _) = cancelled

-- the row that a run goes on to save, by what its context says at the check
unfoldable pub row_to_save : ℕ → Run → HandlerResult → Engine → Option TaskResult
unfolding dropped finished_row context_cancelled
row_to_save now r h e =
    if dropped (context_cancelled r.gen e) h then none else some (finished_row now r h)

unfoldable pub save_row : Bool → Option TaskResult → Engine → Engine
save_row save_ok none e = e
save_row save_ok (some row) e = if save_ok then record e { rows = save row e.rows } else e

unfoldable pub persist : Bool → ℕ → Run → HandlerResult → Engine → Engine
unfolding row_to_save save_row
persist save_ok now r h e = save_row save_ok (row_to_save now r h e) e

unfoldable pub run_task_sync : Bool → ℕ → Run → HandlerResult → Engine → Engine
unfolding execute persist clear_cancel
run_task_sync save_ok now r h e =
    clear_cancel r.id r.gen (persist save_ok now r h (execute r.type h e))

unfoldable pub without_gen : ℕ → List Run → List Run
without_gen g [] = []
without_gen g (r ∷ rs) = let rest = without_gen g rs in if r.gen == g then rest else r ∷ rest

-- A goroutine runs to its end with no other step between its parts.
unfoldable pub finish : Bool → ℕ → Run → HandlerResult → Engine → Engine
unfolding run_task_sync without_gen
finish save_ok now r h e =
    let e' = run_task_sync save_ok now r h e in
    record e' { goroutines = without_gen r.gen e'.goroutines }

-- RemoveResult's first critical section: the context of a registered run is cancelled
unfoldable pub remove_cancel : String → Engine → Option ℕ × Engine
remove_cancel id e = elim (lookup id e.cancels) [
  | none ↦ (none, e)
  | some g ↦ (some g, record e { cancelled = g ∷ e.cancelled })
]

-- its second critical section: the entry goes if it is still the one that was cancelled
unfoldable pub remove_entry : String → Option ℕ → Engine → Engine
remove_entry id none e = e
remove_entry id (some g) e = elim (lookup id e.cancels) [
  | none ↦ e
  | some h ↦ if h == g then record e { cancels = erase id e.cancels } else e
]

unfoldable pub healthz : Engine → Bool
healthz e = e.ready

unfoldable pub status : Engine → String
status e = if e.ready then "Ready" else "Initializing"
