-- ===== src/Engine/Stoppable.antt =====
-- That no run is lost to a DELETE, over every interleaving (sidecar/engine/engine.go).
use sei_k8s_controller.Prelude.{
  ℕ, String, ◌≡◌, ◌≢◌, inl, inr, refl, Bool, Option, none, some, arith, Bool-cases, ◌==◌,
}
use sei_k8s_controller.Engine.Types.{TaskResult}
use sei_k8s_controller.Engine.Core.{Run, Config, spawn, remove_cancel, remove_entry, save_row}
use sei_k8s_controller.Engine.Registry.{Has, Inv}
use sei_k8s_controller.Engine.Steps.{
  System, absent, deleted, set_at, begin_delete, start, leave, Step, Reach, here, next,
}
use sei_k8s_controller.Engine.NoLeak.{
  entry-rest, cancel-rest, save_row-rest, leave-goroutines, Step-Inv, IsFresh, fresh-Inv,
}
use sei_k8s_controller.Engine.Entries.{
  Stoppable, AllStoppable, Entry, Pending, Pending-Grows, Pending-set, Has-stays,
  start-AllStoppable, leave-listed, leave-Grows, entry-listed, cancel-Entry, cancel-Grows,
}

record Kept (s : System) : Type 0 where
  registry : Inv s.engine
  runs : AllStoppable s
  removals : (k : ℕ) → Pending s.engine.cancelled (s.removal k)

same_rest :
    {s t : System}
    → Kept s
    → Inv t.engine
    → t.engine.goroutines ≡ s.engine.goroutines
    → t.engine.cancels ≡ s.engine.cancels
    → t.engine.cancelled ≡ s.engine.cancelled
    → t.started ≡ s.started
    → ((k : ℕ) → Pending s.engine.cancelled (t.removal k))
    → Kept t
same_rest {s} {t} kept i gs cs cd st ps = record {
  registry = i;
  runs = λ r h. rw (cs, cd, st) (kept.runs r (rw gs at h));
  removals = λ k. rw cd (ps k);
}

end_run-Kept :
    (s : System) (r : Run)
    → Has s.engine.goroutines r
    → Kept s
    → Inv (leave r s.engine)
    → Kept (record s { engine = leave r s.engine })
end_run-Kept s r has kept i = record {
  registry = i;
  runs = λ x h.
      let (old, ne) = Has-stays r.gen s.engine.goroutines x (rw leave-goroutines at h) in
      elim (kept.runs x old) [
        | Stoppable.stopped c ↦ Stoppable.stopped (leave-Grows r s.engine x.gen c)
        | Stoppable.replaced y hy ids lt ↦ Stoppable.replaced y hy ids lt
        | Stoppable.listed l ↦ Stoppable.listed (leave-listed r x s.engine ne l)
      ];
  removals = λ k.
      Pending-Grows s.engine.cancelled (leave r s.engine).cancelled (s.removal k)
        (leave-Grows r s.engine) (kept.removals k);
}

cancel_run-Kept :
    (s : System) (k : ℕ) (id : String)
    → Kept s
    → Inv (remove_cancel id s.engine).1
    → Kept (begin_delete k id s)
cancel_run-Kept s k id kept i =
    let (gs, _, cs) = cancel-rest id s.engine in
    let more = cancel-Grows id s.engine in
    record {
      registry = i;
      runs = λ x h. elim (kept.runs x (rw gs at h)) [
        | Stoppable.stopped c ↦ Stoppable.stopped (more x.gen c)
        | Stoppable.replaced y hy ids lt ↦ Stoppable.replaced y hy ids lt
        | Stoppable.listed l ↦ Stoppable.listed (rw cs l)
      ];
      removals = λ n.
          Pending-set (remove_cancel id s.engine).1.cancelled k n _ s.removal
            (cancel-Entry id s.engine)
            (Pending-Grows s.engine.cancelled _ (s.removal n) more (kept.removals n));
    }

remove_entry-Stoppable :
    (id : String) (entry : Option ℕ) (s : System) (x : Run)
    → Entry s.engine.cancelled entry
    → Stoppable s.engine.cancelled s.engine.cancels s.started x
    → Stoppable s.engine.cancelled (remove_entry id entry s.engine).cancels s.started x
remove_entry-Stoppable id none s x e a = unfold remove_entry in a
remove_entry-Stoppable id (some g) s x e (Stoppable.stopped c) = Stoppable.stopped c
remove_entry-Stoppable id (some g) s x e (Stoppable.replaced y hy ids lt) =
    Stoppable.replaced y hy ids lt
remove_entry-Stoppable id (some g) s x e (Stoppable.listed l) = elim (Bool-cases (x.gen == g)) [
  | inl same ↦ let same' : x.gen ≡ g = ground (arith, same) in Stoppable.stopped (rw same' e)
  | inr other ↦
      let ne : x.gen ≢ g = λ q. absurd (ground (arith, other, q)) in
      Stoppable.listed (entry-listed id g x s.engine ne l)
]

unregister-Kept :
    (s : System) (k : ℕ) (id : String) (entry : Option ℕ)
    → s.removal k ≡ deleted id entry
    → Kept s
    → Inv (remove_entry id entry s.engine)
    → Kept
        (record s { engine = remove_entry id entry s.engine; removal = set_at k absent s.removal })
unregister-Kept s k id entry at kept i =
    let (gs, _, cd) = entry-rest id entry s.engine in
    let gone : Entry s.engine.cancelled entry = rw at at (kept.removals k) in
    record {
      registry = i;
      runs = λ x h. rw cd (remove_entry-Stoppable id entry s x gone (kept.runs x (rw gs at h)));
      removals =
          λ n. rw cd (Pending-set s.engine.cancelled k n absent s.removal tt (kept.removals n));
    }

start-Kept :
    (id ty params : String) (at run : ℕ) (s : System)
    → Inv (spawn id ty params at run s.engine)
    → Kept s
    → Kept (start id ty params at run s)
unfolding spawn
start-Kept id ty params at run s i kept = record {
  registry = i;
  runs = start-AllStoppable id ty params at run s kept.registry kept.runs;
  removals = kept.removals;
}

save-Kept :
    (save_ok : Bool) (row : Option TaskResult) (s : System)
    → Inv (save_row save_ok row s.engine)
    → Kept s
    → Kept (record s { engine = save_row save_ok row s.engine })
save-Kept save_ok row s i kept =
    let (gs, _, cs, cd) = save_row-rest save_ok row s.engine in
    same_rest kept i gs cs cd refl kept.removals

Step-Kept : {cfg : Config} {s t : System} → Step cfg s t → Kept s → Kept t
Step-Kept {s = s} st kept = go st (Step-Inv st kept.registry)
  where
    go : {cfg : Config} {t : System} → Step cfg s t → Inv t.engine → Kept t
    go (Step.decide get_ok uuid now t run f k v n) i =
        same_rest kept i refl refl refl refl kept.removals
    go (Step.persist_submission save_ok id now t run e) i =
        let k = save-Kept save_ok _ s i kept in same_rest k i refl refl refl refl k.removals
    go (Step.spawn_submission id now t run e) i =
        let k = start-Kept id t.type t.params now run s i kept in
        same_rest k i refl refl refl refl k.removals
    go (Step.rehydrate id ty params at run f) i = start-Kept id ty params at run s i kept
    go (Step.handler_returns r h has at) i = same_rest kept i refl refl refl refl kept.removals
    go (Step.flip_ready r h has at) i = same_rest kept i refl refl refl refl kept.removals
    go (Step.check_context now r h has at) i = same_rest kept i refl refl refl refl kept.removals
    go (Step.save_result save_ok r row has at) i =
        let k = save-Kept save_ok (some row) s i kept in
        same_rest k i refl refl refl refl k.removals
    go (Step.end_run r has at f) i = end_run-Kept s r has kept i
    go (Step.cancel_run k id e f) i = cancel_run-Kept s k id kept i
    go (Step.delete_row k id entry e) i = same_rest kept i refl refl refl refl (λ n.
        Pending-set s.engine.cancelled k n (deleted id entry) s.removal (rw e at (kept.removals k))
          (kept.removals n))
    go (Step.delete_fails k id entry e) i =
        same_rest kept i refl refl refl refl
          (λ n. Pending-set s.engine.cancelled k n absent s.removal tt (kept.removals n))
    go (Step.unregister k id entry e f) i = unregister-Kept s k id entry e kept i
    go Step.stop i = same_rest kept i refl refl refl refl kept.removals

fresh-Kept : (s : System) → IsFresh s → Kept s
fresh-Kept s f = record {
  registry = fresh-Inv s f;
  runs = λ r h. absurd (rw f.no_goroutines at h);
  removals = λ k. rw (f.no_removals k) tt;
}

Reach-Kept : {cfg : Config} {s t : System} → Reach cfg s t → IsFresh s → Kept t
Reach-Kept {s = s} here f = fresh-Kept s f
Reach-Kept (next r st) f = Step-Kept st (Reach-Kept r f)

-- Over every interleaving of the steps of submissions, runs, DELETEs, rehydration and a shutdown
-- that starts with no goroutine, no DELETE and an empty registry: every goroutine has a cancelled
-- context, or is the registered run of its id, which a DELETE stops, or was replaced by a newer run
-- of its id.
pub Reach-Stoppable : {cfg : Config} {s t : System} → Reach cfg s t → IsFresh s → AllStoppable t
Reach-Stoppable r f = (Reach-Kept r f).runs
