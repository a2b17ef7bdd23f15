-- ===== src/Engine/Rehydrate.antt =====
-- `RehydrateStaleTasks`, `markReadySuperseded` and `resolveStaleHandler` (sidecar/engine/engine.go).
use sei_k8s_controller.Prelude.{
  ℕ, String, Bool, true, false, not, Option, none, some, List, [], ◌∷◌, str_eq, ltb, if◌then◌else◌,
}
use sei_k8s_controller.Engine.Types.{TaskStatus, TaskResult, mark_ready, mark_not_ready}
use sei_k8s_controller.Engine.Store.{save, list_stale_tasks, latest_by_type}
use sei_k8s_controller.Engine.Core.{
  Engine, Config, HandlerResult, new_task_context, spawn, run_task_sync,
}

-- Which statements succeed, and what the handler of each stale hold returns.
pub record Boot : Type 0 where
  pub list_ok : Bool
  pub relist_ok : Bool
  pub latest_ok : TaskResult → Bool
  pub save_ok : TaskResult → Bool
  pub hold_result : TaskResult → HandlerResult
  pub now : ℕ

-- a stale row that ends without running
unfoldable pub failed_row : ℕ → String → TaskResult → TaskResult
failed_row now msg tr = record tr {
  status = TaskStatus.failed;
  error = msg;
  completed_at = some now;
}

unfoldable pub save_failed : Boot → String → TaskResult → Engine → Engine
unfolding failed_row
save_failed b msg tr e =
    if b.save_ok tr then record e { rows = save (failed_row b.now msg tr) e.rows } else e

unfoldable pub resolve_stale_handler : Config → Boot → TaskResult → Engine → Bool × Engine
unfolding save_failed
resolve_stale_handler cfg b tr e =
    if cfg.has_handler tr.type
    then (true, e)
    else (false, save_failed b "no handler registered for task type" tr e)

-- `hold == nil || hold.SubmittedAt.Before(mr.SubmittedAt)`
unfoldable pub no_newer_hold : TaskResult → Option TaskResult → Bool
no_newer_hold mr none = true
no_newer_hold mr (some hold) = ltb hold.submitted_at mr.submitted_at

unfoldable pub mark_ready_superseded : Boot → TaskResult → Engine → Bool × Engine
unfolding no_newer_hold save_failed
mark_ready_superseded b mr e =
    if not (b.latest_ok mr)
    then (true, e)
    else if no_newer_hold mr (latest_by_type mark_not_ready e.rows)
    then (false, e)
    else (true, save_failed b "superseded by hold" mr e)

-- one stale hold, run to its end before anything else
unfoldable pub run_hold : Config → Boot → TaskResult → Engine → Engine
unfolding resolve_stale_handler new_task_context run_task_sync
run_hold cfg b tr e =
    let (found, e') = resolve_stale_handler cfg b tr e in
    if found
    then (let (gen, e'') = new_task_context tr.id e' in
        run_task_sync (b.save_ok tr) b.now
          (record {
            id = tr.id;
            type = tr.type;
            params = tr.params;
            submitted_at = tr.submitted_at;
            run = tr.run;
            gen = gen;
          })
          (b.hold_result tr) e'')
    else e'

unfoldable pub run_holds : Config → Boot → List TaskResult → Engine → Engine
unfolding run_hold
run_holds cfg b [] e = e
run_holds cfg b (tr ∷ trs) e =
    run_holds cfg b trs (if str_eq tr.type mark_not_ready then run_hold cfg b tr e else e)

unfoldable pub hold_seen : List TaskResult → Bool
hold_seen [] = false
hold_seen (tr ∷ trs) = if str_eq tr.type mark_not_ready then true else hold_seen trs

unfoldable pub resume : Config → Boot → TaskResult → Engine → Engine
unfolding resolve_stale_handler spawn
resume cfg b tr e =
    let (found, e') = resolve_stale_handler cfg b tr e in
    if found then spawn tr.id tr.type tr.params tr.submitted_at tr.run e' else e'

-- one round of the second loop
unfoldable pub dispatch : Config → Boot → TaskResult → Engine → Engine
unfolding mark_ready_superseded resume
dispatch cfg b tr e =
    if str_eq tr.type mark_not_ready
    then e
    else if str_eq tr.type mark_ready
    then (let (superseded, e') = mark_ready_superseded b tr e in
        if superseded then e' else resume cfg b tr e')
    else resume cfg b tr e

unfoldable pub dispatch_all : Config → Boot → List TaskResult → Engine → Engine
unfolding dispatch
dispatch_all cfg b [] e = e
dispatch_all cfg b (tr ∷ trs) e = dispatch_all cfg b trs (dispatch cfg b tr e)

unfoldable pub rehydrate_stale_tasks : Config → Boot → Engine → Engine
unfolding run_holds hold_seen dispatch_all
rehydrate_stale_tasks cfg b e =
    if not b.list_ok
    then e
    else let stale = list_stale_tasks e.rows in
      let held = run_holds cfg b stale e in
      if not (hold_seen stale)
      then dispatch_all cfg b stale held
      else if b.relist_ok
      then dispatch_all cfg b (list_stale_tasks held.rows) held
      else held
