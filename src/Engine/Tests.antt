-- ===== src/Engine/Tests.antt =====
-- Runs of the engine, and the theorems about it at concrete engines.
use sei_k8s_controller.Prelude.{
  ℕ, ◌+◌, ◌*◌, ◌≡◌, refl, inl, String, true, false, none, some, List, [], ◌∷◌, arith, str_eq,
  if◌then◌else◌,
}
use sei_k8s_controller.Prelude.Dict.{lookup, insert, erase}
use sei_k8s_controller.Engine.Types.{TaskStatus, Task, TaskResult, mark_ready, mark_not_ready}
use sei_k8s_controller.Engine.Store.{
  get, save, delete, list_stale_tasks, latest_by_type, delete_by_type,
}
use sei_k8s_controller.Engine.Store.Time.{nanos_per_second}
use sei_k8s_controller.Engine.Core.{
  Run, Engine, Config, success, failure, accepted, unknown_task_type, submit, spawn, finish,
  context_cancelled, valid_task_id, running_row, existing_row, next_run, save_row, remove_cancel,
  handler_effect, finished_row,
}
use sei_k8s_controller.Engine.Rehydrate.{Boot, hold_seen, dispatch, rehydrate_stale_tasks}
use sei_k8s_controller.Engine.Lifecycle.{
  IsAcceptable, Started, submit_idempotent, submit_starts, submit_refused, submit_read_error,
  finish_superseded, finish_cancelled, finish_success,
}
use sei_k8s_controller.Engine.HoldFirst.{IsHeld, rehydrate_hold_wins}
use sei_k8s_controller.Engine.Order.{IsLatest, latest_by_type_lem, dispatch_misses_hold}
use sei_k8s_controller.Engine.Registry.{Inv}
use sei_k8s_controller.Engine.Steps.{
  System, Stage, Submission, Removal, Step, Reach, here, next, start, move, begin_delete,
}
use sei_k8s_controller.Engine.NoLeak.{IsFresh, Reach-Registry}
use sei_k8s_controller.Engine.Entries.{AllStoppable}
use sei_k8s_controller.Engine.Stoppable.{Reach-Stoppable}
use sei_k8s_controller.Engine.Deletes.{Spared, early_delete-Spared}

-- every type but "bogus" has a handler, and every id is a UUID
abbrev any_id : Config
any_id = record {
  has_handler = λ ty. if str_eq ty "bogus" then false else true;
  valid_uuid = λ id. true;
}

abbrev fresh : Engine
fresh = record {
  rows = [];
  ready = false;
  cancels = [];
  gen = 0;
  cancelled = [];
  shutdown = false;
  goroutines = [];
}

abbrev patch : Task
patch = record { id = "a"; type = "config-patch"; params = "{}" }

abbrev bogus : Task
bogus = record { id = "a"; type = "bogus"; params = "{}" }

abbrev row : String → String → TaskStatus → ℕ → TaskResult
row name ty st at = record {
  id = name;
  type = ty;
  status = st;
  run = 1;
  params = "{}";
  result = none;
  error = "";
  submitted_at = at;
  completed_at = none;
}

abbrev with_rows : List TaskResult → Engine
with_rows rs = record fresh { rows = rs }

abbrev running_a : Engine
running_a = with_rows (row "a" "config-patch" TaskStatus.running 5 ∷ [])

abbrev failed_a : Engine
failed_a = with_rows (row "a" "config-patch" TaskStatus.failed 5 ∷ [])

patch-IsAcceptable : IsAcceptable any_id patch
unfolding valid_task_id
patch-IsAcceptable = record { handler = refl; id = refl }

submit_idempotent_example :
    submit any_id true false "u" 9 patch running_a ≡ (accepted "a", running_a)
unfolding get
submit_idempotent_example =
    submit_idempotent any_id "u" 9 patch running_a false
      (row "a" "config-patch" TaskStatus.running 5) patch-IsAcceptable refl (λ e. cc)

submit_starts_example :
    Started "a" 2 9 patch failed_a (submit any_id true true "u" 9 patch failed_a)
unfolding get
submit_starts_example = submit_starts any_id "u" 9 patch failed_a patch-IsAcceptable refl

submit_refused_example : (submit any_id true true "u" 9 bogus fresh).1 ≡ fresh
unfolding submit
submit_refused_example = submit_refused any_id "u" 9 bogus fresh true true (λ e. cc)

submit_read_error_example :
    let e' = (submit any_id false true "u" 9 patch running_a).1 in
    (get "a" e'.rows ≡ some (running_row "a" 9 patch 1))
    × (e'.goroutines
        ≡ (record {
          id = "a";
          type = "config-patch";
          params = "{}";
          submitted_at = 9;
          run = 1;
          gen = 1;
        })
          ∷ [])
unfolding get
submit_read_error_example =
    submit_read_error any_id "u" 9 patch running_a (row "a" "config-patch" TaskStatus.running 5)
      patch-IsAcceptable refl (λ e. cc)

-- the run of "a" under generation 1
abbrev first_run : Run
first_run = record {
  id = "a";
  type = "config-patch";
  params = "{}";
  submitted_at = 9;
  run = 1;
  gen = 1;
}

-- "a" was submitted again, under generation 2, before the first run ended
abbrev superseded : Engine
superseded = record fresh { gen = 2; cancels = ("a", 2) ∷ []; goroutines = first_run ∷ [] }

abbrev registered : Engine
registered = record fresh {
  rows = row "a" "config-patch" TaskStatus.running 9 ∷ [];
  gen = 1;
  cancels = ("a", 1) ∷ [];
  goroutines = first_run ∷ [];
}

abbrev stopping : Engine
stopping = record registered { shutdown = true }

finish_superseded_example :
    ((finish true 10 first_run (success none) superseded).cancels ≡ superseded.cancels)
    × ((finish true 10 first_run (success none) superseded).cancelled ≡ superseded.cancelled)
unfolding lookup
finish_superseded_example =
    finish_superseded true 10 first_run (success none) superseded 2 refl (λ e. absurd (omega arith))

finish_cancelled_example :
    ((finish true 10 first_run (failure none "stopped" true) stopping).rows ≡ stopping.rows)
    × ((finish true 10 first_run (failure none "stopped" true) stopping).ready ≡ stopping.ready)
unfolding context_cancelled
finish_cancelled_example =
    finish_cancelled true 10 first_run (failure none "stopped" true) stopping refl refl

finish_success_example :
    get "a" (finish true 10 first_run (success none) stopping).rows
    ≡ some (record {
      id = "a";
      type = "config-patch";
      status = TaskStatus.completed;
      run = 1;
      params = "{}";
      result = none;
      error = "";
      submitted_at = 9;
      completed_at = some 10;
    })
finish_success_example = finish_success 10 first_run none stopping

-- a process that died with a release and a hold in flight
abbrev crashed : Engine
crashed = with_rows (
    row "r" mark_ready TaskStatus.running 5
    ∷ row "h" mark_not_ready TaskStatus.running 6
    ∷ row "c" "config-patch" TaskStatus.running 7
    ∷ [])

abbrev boot : Boot
boot = record {
  list_ok = true;
  relist_ok = true;
  latest_ok = λ r. true;
  save_ok = λ r. true;
  hold_result = λ r. success none;
  now = 10;
}

rehydrate_hold_wins_example : IsHeld (rehydrate_stale_tasks any_id boot crashed)
unfolding hold_seen list_stale_tasks
rehydrate_hold_wins_example =
    rehydrate_hold_wins any_id boot refl (λ tr. (none, refl)) crashed refl refl tt

abbrev hold_at : String → ℕ → TaskResult
hold_at name at = row name mark_not_ready TaskStatus.failed at

latest_by_type_lem_example : IsLatest mark_not_ready (hold_at "h" 6 ∷ []) (hold_at "h" 6)
unfolding latest_by_type
latest_by_type_lem_example =
    latest_by_type_lem mark_not_ready (hold_at "h" 6 ∷ []) (hold_at "h" 6) refl

abbrev release : TaskResult
release = row "r" mark_ready TaskStatus.running (7 * nanos_per_second + 1)

abbrev two_holds : Engine
two_holds =
    with_rows
      (release ∷ hold_at "h" (7 * nanos_per_second) ∷ hold_at "k" (7 * nanos_per_second + 2) ∷ [])

dispatch_misses_hold_example :
    dispatch any_id boot release two_holds
    ≡ spawn "r" mark_ready "{}" (7 * nanos_per_second + 1) 1 two_holds
dispatch_misses_hold_example =
    dispatch_misses_hold any_id boot two_holds (hold_at "h" (7 * nanos_per_second))
      (hold_at "k" (7 * nanos_per_second + 2)) release 7 2 1 refl refl refl refl refl refl refl refl
      refl (omega arith) (omega arith) (omega arith)

-- the engine at the start, with no thread
abbrev quiet : System
quiet = record {
  engine = fresh;
  stage = λ g. Stage.working;
  submission = Submission.idle;
  removal = λ k. Removal.absent;
  started = [];
}

quiet-IsFresh : IsFresh quiet
quiet-IsFresh = record { no_goroutines = refl; no_entries = refl; no_removals = λ k. refl }

-- "a" is submitted; a DELETE of it has cancelled its run when the handler fails
abbrev submitted : System
submitted =
    record (start "a" "config-patch" "{}" 9 1
      (record quiet { engine = save_row true (some (running_row "a" 9 patch 1)) fresh })) {
        submission = Submission.idle;
      }

steps_of_submit : Reach any_id quiet submitted
unfolding existing_row get valid_task_id next_run
steps_of_submit =
    next
      (next (next here (Step.decide true "u" 9 patch 1 refl refl refl refl))
        (Step.persist_submission true "a" 9 patch 1 refl))
      (Step.spawn_submission "a" 9 patch 1 refl)

steps_of_delete : Reach any_id quiet (begin_delete 0 "a" submitted)
steps_of_delete = next steps_of_submit (Step.cancel_run 0 "a" refl refl)

Reach-Registry_example : Inv (begin_delete 0 "a" submitted).engine
Reach-Registry_example =
    Reach-Registry {cfg = any_id} {s = quiet} {t = begin_delete 0 "a" submitted} steps_of_delete
      quiet-IsFresh

Reach-Stoppable_example : AllStoppable (begin_delete 0 "a" submitted)
Reach-Stoppable_example =
    Reach-Stoppable {cfg = any_id} {s = quiet} {t = begin_delete 0 "a" submitted} steps_of_delete
      quiet-IsFresh

-- the engine of `registered`, its run in its handler
abbrev busy : System
busy = record quiet { engine = registered }

abbrev after_handler : System
after_handler = move 1 (Stage.handled (failure none "late" false)) (begin_delete 0 "a" busy)

early_delete-Spared_example : Spared (after_handler.stage 1)
unfolding lookup remove_cancel handler_effect
early_delete-Spared_example =
    early_delete-Spared {cfg = any_id} 0 "a" 1 busy {u = after_handler} refl tt
      (next here (Step.handler_returns first_run (failure none "late" false) (inl refl) refl))

-- the run of `registered` has failed and read its context
abbrev about_to_save : System
about_to_save = move 1 (Stage.saving (finished_row 10 first_run (failure none "late" false))) busy

-- the stranded release is neither run nor recorded, the other task is
only_patch_runs :
    (rehydrate_stale_tasks any_id boot crashed).goroutines
    ≡ (record {
      id = "c";
      type = "config-patch";
      params = "{}";
      submitted_at = 7;
      run = 1;
      gen = 2;
    })
      ∷ []
unfolding rehydrate_stale_tasks list_stale_tasks lookup insert erase save delete delete_by_type
only_patch_runs = refl

unknown_refused : (submit any_id true true "u" 9 bogus fresh).0 ≡ unknown_task_type
unfolding submit
unknown_refused = refl
