-- ===== src/Engine/Deletes.antt =====
-- A DELETE beside the run that it stops (runTaskSync and RemoveResult of sidecar/engine/engine.go).
use sei_k8s_controller.Prelude.{
  ℕ, String, ◌≡◌, refl, true, Option, none, some, arith, ◌==◌, if_elim, if_split, subst,
}
use sei_k8s_controller.Prelude.Dict.{lookup}
use sei_k8s_controller.Engine.Types.{TaskStatus, TaskResult}
use sei_k8s_controller.Engine.Store.{get, delete}
use sei_k8s_controller.Engine.Core.{
  Run, Engine, Config, HandlerResult, success, failure, panic, mem_gen, context_cancelled,
  finished_row, row_to_save, save_row, remove_cancel, remove_entry, spawn,
}
use sei_k8s_controller.Engine.Steps.{
  System, Stage, working, leaving, handled, returned, saving, absent, deleted, set_at, begin_delete,
  move, Step, Reach, here, next, save_or_leave,
}
use sei_k8s_controller.Engine.NoLeak.{entry-rest, save_row-rest}
use sei_k8s_controller.Engine.Entries.{Grows, leave-Grows, cancel-Grows}

-- The run has saved nothing yet, and all that it may still save is a completed row.
abbrev pub Spared : Stage → Type 0
Spared working = Unit
Spared leaving = Unit
Spared (handled h) = Unit
Spared (returned h) = Unit
Spared (saving row) = row.status ≡ TaskStatus.completed

-- the run has not read its context yet
abbrev pub IsUnchecked : Stage → Type 0
IsUnchecked working = Unit
IsUnchecked leaving = ⊥
IsUnchecked (handled h) = Unit
IsUnchecked (returned h) = Unit
IsUnchecked (saving row) = ⊥

unchecked-Spared : (v : Stage) → IsUnchecked v → Spared v
unchecked-Spared working u = tt
unchecked-Spared leaving u = absurd u
unchecked-Spared (handled h) u = tt
unchecked-Spared (returned h) u = tt
unchecked-Spared (saving row) u = absurd u

record Stopped (g : ℕ) (s : System) : Type 0 where
  cancelled : mem_gen g s.engine.cancelled ≡ true
  spared : Spared (s.stage g)

check-Spared :
    (now : ℕ) (r : Run) (h : HandlerResult) (e : Engine)
    → mem_gen r.gen e.cancelled ≡ true
    → Spared (save_or_leave (row_to_save now r h e))
unfolding row_to_save context_cancelled finished_row
check-Spared now r (success x) e c = refl
check-Spared now r (failure x m w) e c =
    let gone : row_to_save now r (failure x m w) e ≡ none = ground (arith, c) in rw gone tt
check-Spared now r (panic m) e c =
    let gone : row_to_save now r (panic m) e ≡ none = ground (arith, c) in rw gone tt

-- no step takes a cancellation back
Step-Grows :
    {cfg : Config} {s t : System} → Step cfg s t → Grows s.engine.cancelled t.engine.cancelled
unfolding spawn
Step-Grows (Step.decide get_ok uuid now t run f k v n) g h = h
Step-Grows {s = s} (Step.persist_submission save_ok id now t run e) g h =
    rw ((save_row-rest save_ok _ s.engine).3) h
Step-Grows (Step.spawn_submission id now t run e) g h = h
Step-Grows (Step.rehydrate id ty params at run f) g h = h
Step-Grows (Step.handler_returns r x has at) g h = h
Step-Grows (Step.flip_ready r x has at) g h = h
Step-Grows (Step.check_context now r x has at) g h = h
Step-Grows {s = s} (Step.save_result save_ok r row has at) g h =
    rw ((save_row-rest save_ok (some row) s.engine).3) h
Step-Grows {s = s} (Step.end_run r has at f) g h = leave-Grows r s.engine g h
Step-Grows {s = s} (Step.cancel_run k id e f) g h = cancel-Grows id s.engine g h
Step-Grows (Step.delete_row k id entry e) g h = h
Step-Grows (Step.delete_fails k id entry e) g h = h
Step-Grows {s = s} (Step.unregister k id entry e f) g h = rw ((entry-rest id entry s.engine).2) h
Step-Grows Step.stop g h = h

move-Spared :
    (g k : ℕ) (v : Stage) (f : ℕ → Stage) → Spared v → Spared (f g) → Spared (set_at k v f g)
move-Spared g k v f p q = if_elim Spared (g == k) p q

Step-Spared :
    {cfg : Config} {s t : System} (g : ℕ) → Step cfg s t → Stopped g s → Spared (t.stage g)
Step-Spared g (Step.decide get_ok uuid now t run f k v n) h = h.spared
Step-Spared g (Step.persist_submission save_ok id now t run e) h = h.spared
Step-Spared g (Step.spawn_submission id now t run e) h = h.spared
Step-Spared g (Step.rehydrate id ty params at run f) h = h.spared
Step-Spared {s = s} g (Step.handler_returns r x has at) h =
    move-Spared g r.gen (handled x) s.stage tt h.spared
Step-Spared {s = s} g (Step.flip_ready r x has at) h =
    move-Spared g r.gen (returned x) s.stage tt h.spared
Step-Spared {s = s} g (Step.check_context now r x has at) h =
    if_split Spared (g == r.gen)
      (λ same.
        let e : g ≡ r.gen = ground (arith, same) in
        check-Spared now r x s.engine
          (subst (λ k. mem_gen k s.engine.cancelled ≡ true) e h.cancelled))
      (λ _. h.spared)
Step-Spared {s = s} g (Step.save_result save_ok r row has at) h =
    move-Spared g r.gen leaving s.stage tt h.spared
Step-Spared g (Step.end_run r has at f) h = h.spared
Step-Spared g (Step.cancel_run k id e f) h = h.spared
Step-Spared g (Step.delete_row k id entry e) h = h.spared
Step-Spared g (Step.delete_fails k id entry e) h = h.spared
Step-Spared g (Step.unregister k id entry e f) h = h.spared
Step-Spared g Step.stop h = h.spared

Reach-Stopped : {cfg : Config} {s t : System} (g : ℕ) → Reach cfg s t → Stopped g s → Stopped g t
Reach-Stopped g here h = h
Reach-Stopped g (next r st) h =
    let h' = Reach-Stopped g r h in
    record { cancelled = Step-Grows st g h'.cancelled; spared = Step-Spared g st h' }

begin_delete-cancelled :
    (k : ℕ) (id : String) (g : ℕ) (s : System)
    → lookup id s.engine.cancels ≡ some g
    → mem_gen g (begin_delete k id s).engine.cancelled ≡ true
unfolding remove_cancel mem_gen
begin_delete-cancelled k id g s l = ground (arith, l)

-- Where a DELETE cancels the registered run of its id before that run has read its context: over
-- every interleaving of steps that follows, the run is never about to save a row that is not
-- completed.
pub early_delete-Spared :
    {cfg : Config} (k : ℕ) (id : String) (g : ℕ) (s : System) {u : System}
    → lookup id s.engine.cancels ≡ some g
    → IsUnchecked (s.stage g)
    → Reach cfg (begin_delete k id s) u
    → Spared (u.stage g)
early_delete-Spared k id g s l early r =
    (Reach-Stopped g r (record {
      cancelled = begin_delete-cancelled k id g s l;
      spared = unchecked-Spared (s.stage g) early;
    })).spared

-- a DELETE up to the end of its statement, a save, and the end of a DELETE
abbrev swept : ℕ → String → System → System
swept k id s =
    let b = begin_delete k id s in
    record b {
      engine = record (b.engine) { rows = delete id b.engine.rows };
      removal = set_at k (deleted id (remove_cancel id s.engine).0) b.removal;
    }

abbrev saved : Run → TaskResult → System → System
saved r row s = move r.gen leaving (record s { engine = save_row true (some row) s.engine })

abbrev unregistered : ℕ → String → Option ℕ → System → System
unregistered k id entry s = record s {
  engine = remove_entry id entry s.engine;
  removal = set_at k absent s.removal;
}

-- A DELETE that ends with its row gone, and steps after which the row is there again.
pub record Overtaken (cfg : Config) (k : ℕ) (row : TaskResult) (s : System) : Type 0 where
  pub midway : System
  pub at_end : System
  pub first_steps : Reach cfg s midway
  pub ended : midway.removal k ≡ absent
  pub gone : get row.id midway.engine.rows ≡ none
  pub last_steps : Reach cfg midway at_end
  pub back : get row.id at_end.engine.rows ≡ some row
