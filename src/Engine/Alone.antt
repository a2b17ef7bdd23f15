-- ===== src/Engine/Alone.antt =====
-- A run whose steps nothing comes between (runTaskSync of sidecar/engine/engine.go:284-336).
use sei_k8s_controller.Prelude.{
  ℕ, ◌+◌, String, ◌≡◌, refl, ap, Bool, true, false, Option, none, some, arith, ◌==◌,
}
use sei_k8s_controller.Engine.Types.{TaskStatus, Task, TaskResult}
use sei_k8s_controller.Engine.Core.{
  Run, Engine, Config, HandlerResult, next_run, on_existing, on_row, start_run, submit,
  existing_row, task_id, valid_task_id, running_row, execute, save_row,
}
use sei_k8s_controller.Engine.Steps.{
  System, Stage, Submission, set_at, after_save, start, Step, Reach, here, next,
}

pub set_at-same : {A : Type 0} (k : ℕ) (x : A) (f : ℕ → A) → set_at k x f k ≡ x
set_at-same k x f = let same : (k == k) ≡ true = ground arith in rw same refl

-- A system that the steps lead to, with the engine that a function computes.
pub record Reaches (cfg : Config) (s : System) (e : Engine) : Type 0 where
  pub at_end : System
  pub steps : Reach cfg s at_end
  pub same_engine : at_end.engine ≡ e

-- the steps up to the check of the context
executed : Run → HandlerResult → System → System
executed r h s = record s {
  engine = execute r.type h s.engine;
  stage = set_at r.gen (Stage.returned h) (set_at r.gen (Stage.handled h) s.stage);
}

on_existing-next_run :
    (o : Option TaskResult) (save_ok : Bool) (id : String) (now : ℕ) (t : Task) (run : ℕ)
    (e : Engine)
    → next_run o ≡ some run
    → on_existing o save_ok id now t e ≡ start_run save_ok id now t run e
unfolding next_run on_existing on_row
on_existing-next_run none save_ok id now t run e n =
    let m : 1 ≡ run = cc in ap (λ k. start_run save_ok id now t k e) m
on_existing-next_run (some row) save_ok id now t run e n = by_status row.status refl
  where
    by_status :
        (st : TaskStatus)
        → row.status ≡ st
        → on_existing (some row) save_ok id now t e ≡ start_run save_ok id now t run e
    by_status TaskStatus.running q = absurd (cc (rw q at n))
    by_status TaskStatus.completed q = absurd (cc (rw q at n))
    by_status TaskStatus.failed q =
        let m : some (row.run + 1) ≡ some run = rw q at n in
        let m' : row.run + 1 ≡ run = cc in rw q (ap (λ k. start_run save_ok id now t k e) m')

-- A submission that starts a run, its three steps following each other while no other holds the
-- mutex, reaches the engine that `submit` computes, whether or not the save succeeds.
pub submit-Reaches :
    (cfg : Config) (get_ok save_ok : Bool) (uuid : String) (now : ℕ) (t : Task) (run : ℕ)
    (s : System)
    → s.submission ≡ Submission.idle
    → cfg.has_handler t.type ≡ true
    → valid_task_id cfg t.id ≡ true
    → next_run (existing_row get_ok (task_id uuid t) s.engine.rows) ≡ some run
    → Reaches cfg s (submit cfg get_ok save_ok uuid now t s.engine).1
unfolding submit start_run save_row
submit-Reaches cfg get_ok save_ok uuid now t run s idle known valid starts =
    rw
      (
        known,
        valid,
        on_existing-next_run (existing_row get_ok (task_id uuid t) s.engine.rows) save_ok
            (task_id uuid t) now t run s.engine starts,
      )
      (started_by save_ok)
  where
    id : String
    id = task_id uuid t

    p : System
    p = record s { submission = Submission.preparing id now t run }

    decided : Reach cfg s p
    decided = next here (Step.decide get_ok uuid now t run idle known valid starts)

    persisted : Bool → System
    persisted ok = record p {
      engine = save_row ok (some (running_row id now t run)) s.engine;
      submission = after_save ok (Submission.preparing id now t run);
    }

    saved : (ok : Bool) → Reach cfg s (persisted ok)
    saved ok = next decided (Step.persist_submission ok id now t run refl)

    started_by : (ok : Bool) → Reaches cfg s (start_run ok id now t run s.engine).1
    started_by true = record {
      at_end = record (start id t.type t.params now run (persisted true)) {
        submission = Submission.idle;
      };
      steps = next (saved true) (Step.spawn_submission id now t run refl);
      same_engine = refl;
    }
    started_by false = record { at_end = persisted false; steps = saved false; same_engine = refl }
