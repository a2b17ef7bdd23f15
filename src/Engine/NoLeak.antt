-- ===== src/Engine/NoLeak.antt =====
-- What every step of the engine's threads keeps: no cancel function outlives its run, and no run
-- loses its cancel function (sidecar/engine/engine.go).
use sei_k8s_controller.Prelude.{
  ℕ, ◌+◌, String, ◌≡◌, ◌≢◌, ◌⊎◌, inl, inr, refl, sym, ap, ◌∙◌, Bool, true, false, Option, none,
  some, [], arith, Bool-cases, str_eq, eq_iff, ◌==◌, if◌then◌else◌, All-append, ◌≤◌,
}
use sei_k8s_controller.Prelude.Dict.{Dict, lookup, erase, lookup-insert, lookup-erase}
use sei_k8s_controller.Engine.Types.{TaskResult}
use sei_k8s_controller.Engine.Core.{
  Run, Engine, Config, spawn, clear_cancel, without_gen, remove_cancel, remove_entry, save_row,
}
use sei_k8s_controller.Engine.Registry.{
  Has, Registered, Inv, Has-left, Has-last, bounded-suc, fresh_gen, same_gen, Has-without,
  All-without, DistinctGens-without,
}
use sei_k8s_controller.Engine.Steps.{System, absent, leave, Step, Reach, here, next}

spawn-Registered :
    (id ty ps : String) (at run : ℕ) (e : Engine)
    → Registered e
    → Registered (spawn id ty ps at run e)
unfolding spawn
spawn-Registered id ty ps at run e reg j g h = elim (Bool-cases (str_eq id j)) [
  | inl same ↦
      let new : some (e.gen + 1) ≡ some g = rw (lookup-insert, same) at h in
      (_, Has-last e.goroutines _, (eq_iff id j).0 same, cc)
  | inr other ↦
      let (r, has, i, q) = reg j g (rw (lookup-insert, other) at h) in
      (r, Has-left e.goroutines _ r has, i, q)
]

spawn-Inv : (id ty ps : String) (at run : ℕ) (e : Engine) → Inv e → Inv (spawn id ty ps at run e)
unfolding spawn
spawn-Inv id ty ps at run e i = record {
  bounded =
      All-append (λ r. r.gen ≤ e.gen + 1) e.goroutines _ (bounded-suc e.gen e.goroutines i.bounded)
        (omega arith, tt);
  distinct = fresh_gen e.gen e.goroutines _ refl i.bounded i.distinct;
  registered = spawn-Registered id ty ps at run e i.registered;
}

-- What `clearCancel` makes of the registry.
abbrev cleared : String → ℕ → Dict ℕ → Dict ℕ
cleared id g c = elim (lookup id c) [ none ↦ c | some h ↦ if h == g then erase id c else c ]

leave-cancels : (r : Run) (e : Engine) → (leave r e).cancels ≡ cleared r.id r.gen e.cancels
unfolding leave clear_cancel
leave-cancels r e = ground arith

pub leave-goroutines :
    (r : Run) (e : Engine) → (leave r e).goroutines ≡ without_gen r.gen e.goroutines
unfolding leave clear_cancel
leave-goroutines r e = ground arith

leave-gen : (r : Run) (e : Engine) → (leave r e).gen ≡ e.gen
unfolding leave clear_cancel
leave-gen r e = ground arith

lookup-cleared :
    (id j : String) (g k : ℕ) (c : Dict ℕ)
    → lookup j (cleared id g c) ≡ some k
    → (lookup j c ≡ some k) × ((j ≢ id) ⊎ (k ≢ g))
lookup-cleared id j g k c h = ground (arith, lookup-erase id j c, eq_iff id j)

module _ (r : Run) (e : Engine) where
  leave-Registered : Inv e → Has e.goroutines r → Registered (leave r e)
  leave-Registered i has j g q =
      let (old, apart) = lookup-cleared r.id j r.gen g e.cancels (rw leave-cancels at q) in
      let (x, hx, xi, xg) = i.registered j g old in
      let ne : x.gen ≢ r.gen = λ same.
        let e' = same_gen e.goroutines x r i.distinct hx has same in
        other_run x r j g xi xg e' same apart in
      (x, rw leave-goroutines (Has-without r.gen e.goroutines x ne hx), xi, xg)
    where
      other_run :
          (x r : Run) (j : String) (g : ℕ)
          → x.id ≡ j
          → x.gen ≡ g
          → x ≡ r
          → x.gen ≡ r.gen
          → (j ≢ r.id) ⊎ (g ≢ r.gen)
          → ⊥
      other_run x r j g xi xg e' same (inl ne) = ne (sym xi ∙ ap (λ z. z.id) e')
      other_run x r j g xi xg e' same (inr ne) = ne (sym xg ∙ same)

  leave-Inv : Inv e → Has e.goroutines r → Inv (leave r e)
  leave-Inv i has = record {
    bounded =
        rw (leave-goroutines, leave-gen)
          (All-without (λ x. x.gen ≤ e.gen) r.gen e.goroutines i.bounded);
    distinct = rw leave-goroutines (DistinctGens-without r.gen e.goroutines i.distinct);
    registered = leave-Registered i has;
  }

-- a step that leaves the goroutines and the registry
same_registry :
    {e f : Engine}
    → f.goroutines ≡ e.goroutines
    → f.gen ≡ e.gen
    → f.cancels ≡ e.cancels
    → Inv e
    → Inv f
same_registry gs n cs i = record {
  bounded = rw (gs, n) i.bounded;
  distinct = rw gs i.distinct;
  registered = λ j k l. rw gs (i.registered j k (rw cs at l));
}

entry-lookup :
    (id j : String) (k : ℕ) (entry : Option ℕ) (e : Engine)
    → lookup j (remove_entry id entry e).cancels ≡ some k
    → lookup j e.cancels ≡ some k
unfolding remove_entry
entry-lookup id j k none e l = l
entry-lookup id j k (some g) e l = ground (arith, l, lookup-erase id j e.cancels)

pub entry-rest :
    (id : String) (entry : Option ℕ) (e : Engine)
    → ((remove_entry id entry e).goroutines ≡ e.goroutines)
      × ((remove_entry id entry e).gen ≡ e.gen)
      × ((remove_entry id entry e).cancelled ≡ e.cancelled)
unfolding remove_entry
entry-rest id none e = (refl, refl, refl)
entry-rest id (some g) e = ground arith

entry-Inv : (id : String) (entry : Option ℕ) (e : Engine) → Inv e → Inv (remove_entry id entry e)
entry-Inv id entry e i =
    let (gs, n, _) = entry-rest id entry e in
    record {
      bounded = rw (gs, n) i.bounded;
      distinct = rw gs i.distinct;
      registered = λ j k l. rw gs (i.registered j k (entry-lookup id j k entry e l));
    }

pub cancel-rest :
    (id : String) (e : Engine)
    → ((remove_cancel id e).1.goroutines ≡ e.goroutines)
      × ((remove_cancel id e).1.gen ≡ e.gen)
      × ((remove_cancel id e).1.cancels ≡ e.cancels)
unfolding remove_cancel
cancel-rest id e = ground arith

cancel-Inv : (id : String) (e : Engine) → Inv e → Inv (remove_cancel id e).1
cancel-Inv id e i = let (gs, n, cs) = cancel-rest id e in same_registry gs n cs i

-- a save changes the rows alone
pub save_row-rest :
    (save_ok : Bool) (row : Option TaskResult) (e : Engine)
    → ((save_row save_ok row e).goroutines ≡ e.goroutines)
      × ((save_row save_ok row e).gen ≡ e.gen)
      × ((save_row save_ok row e).cancels ≡ e.cancels)
      × ((save_row save_ok row e).cancelled ≡ e.cancelled)
unfolding save_row
save_row-rest save_ok none e = (refl, refl, refl, refl)
save_row-rest true (some row) e = (refl, refl, refl, refl)
save_row-rest false (some row) e = (refl, refl, refl, refl)

save_row-Inv :
    (save_ok : Bool) (row : Option TaskResult) (e : Engine) → Inv e → Inv (save_row save_ok row e)
save_row-Inv save_ok row e i =
    let (gs, n, cs, _) = save_row-rest save_ok row e in same_registry gs n cs i

pub Step-Inv : {cfg : Config} {s t : System} → Step cfg s t → Inv s.engine → Inv t.engine
Step-Inv (Step.decide get_ok uuid now t run f k v n) i = i
Step-Inv {s = s} (Step.persist_submission save_ok id now t run e) i =
    save_row-Inv save_ok _ s.engine i
Step-Inv {s = s} (Step.spawn_submission id now t run e) i =
    spawn-Inv id t.type t.params now run s.engine i
Step-Inv {s = s} (Step.rehydrate id ty params at run f) i = spawn-Inv id ty params at run s.engine i
Step-Inv (Step.handler_returns r h has at) i = same_registry refl refl refl i
Step-Inv (Step.flip_ready r h has at) i = same_registry refl refl refl i
Step-Inv (Step.check_context now r h has at) i = i
Step-Inv {s = s} (Step.save_result save_ok r row has at) i =
    save_row-Inv save_ok (some row) s.engine i
Step-Inv {s = s} (Step.end_run r has at f) i = leave-Inv r s.engine i has
Step-Inv {s = s} (Step.cancel_run k id e f) i = cancel-Inv id s.engine i
Step-Inv (Step.delete_row k id entry e) i = same_registry refl refl refl i
Step-Inv (Step.delete_fails k id entry e) i = i
Step-Inv {s = s} (Step.unregister k id entry e f) i = entry-Inv id entry s.engine i
Step-Inv Step.stop i = same_registry refl refl refl i

-- an engine without goroutines, submissions or DELETEs
pub record IsFresh (s : System) : Type 0 where
  pub no_goroutines : s.engine.goroutines ≡ []
  pub no_entries : s.engine.cancels ≡ []
  pub no_removals : (k : ℕ) → s.removal k ≡ absent

pub fresh-Inv : (s : System) → IsFresh s → Inv s.engine
unfolding lookup
fresh-Inv s f = record {
  bounded = rw f.no_goroutines tt;
  distinct = rw f.no_goroutines tt;
  registered = λ id k h. absurd (empty_registry id k (rw f.no_entries at h));
}
  where
    empty_registry : (id : String) (k : ℕ) → lookup {V = ℕ} id [] ≡ some k → ⊥
    empty_registry id k h = cc

-- Over every interleaving of the steps of submissions, runs, DELETEs, rehydration and a shutdown
-- that starts with no goroutine, no DELETE and an empty registry: every registered cancel function
-- belongs to a goroutine that has not ended, no two goroutines share a generation, and none has one
-- above the counter.
pub Reach-Registry : {cfg : Config} {s t : System} → Reach cfg s t → IsFresh s → Inv t.engine
Reach-Registry {s = s} here f = fresh-Inv s f
Reach-Registry (next r st) f = Step-Inv st (Reach-Registry r f)
