-- ===== src/Engine/HoldFirst.antt =====
-- Crash recovery with a stale hold (`RehydrateStaleTasks`, sidecar/engine/engine.go:96-155).
use sei_k8s_controller.Prelude.{
  ℕ, String, ◌≡◌, refl, Bool, true, false, Option, List, [], ◌∷◌, inl, inr, arith, Bool-cases,
  str_eq, eq_iff, All, All-append,
}
use sei_k8s_controller.Engine.Types.{TaskResult, mark_ready, mark_not_ready}
use sei_k8s_controller.Engine.Store.{Rows, save, list_stale_tasks}
use sei_k8s_controller.Engine.StoreLaws.{
  All-delete, NoType, delete_by_type-NoType, list_stale_tasks-NoType,
}
use sei_k8s_controller.Engine.Core.{Run, Engine, Config, success, clear_cancel, run_task_sync}
use sei_k8s_controller.Engine.Lifecycle.{clear_cancel-rows, clear_cancel-ready}
use sei_k8s_controller.Engine.Rehydrate.{
  Boot, save_failed, run_hold, run_holds, hold_seen, resume, dispatch, dispatch_all,
  rehydrate_stale_tasks,
}

-- Not ready, with no mark-ready task recorded or running.
pub record IsHeld (e : Engine) : Type 0 where
  pub not_ready : e.ready ≡ false
  pub no_rows : NoType mark_ready e.rows
  pub no_runs : All (λ r. str_eq r.type mark_ready ≡ false) e.goroutines

NoType-save :
    (ty : String) (r : TaskResult) (rs : Rows)
    → str_eq r.type ty ≡ false
    → NoType ty rs
    → NoType ty (save r rs)
unfolding save
NoType-save ty r rs h hs =
    All-append (λ x. str_eq x.type ty ≡ false) _ (r ∷ [])
      (All-delete (λ x. str_eq x.type ty ≡ false) r.id rs hs) (h, tt)

not_mark_ready : (ty : String) → str_eq ty mark_not_ready ≡ true → str_eq ty mark_ready ≡ false
not_mark_ready ty h = rw ((eq_iff ty mark_not_ready).0 h) refl

abbrev NoRuns : Engine → Type 0
NoRuns e = All (λ r. str_eq r.type mark_ready ≡ false) e.goroutines

clear_cancel-goroutines :
    (id : String) (g : ℕ) (e : Engine) → (clear_cancel id g e).goroutines ≡ e.goroutines
unfolding clear_cancel
clear_cancel-goroutines id g e = ground arith

-- A hold whose purge succeeds ends held, whether or not its own row is saved.
hold_success :
    (save_ok : Bool) (now : ℕ) (r : Run) (x : Option String) (e : Engine)
    → str_eq r.type mark_not_ready ≡ true
    → NoRuns e
    → IsHeld (run_task_sync save_ok now r (success x) e)
unfolding run_task_sync
hold_success true now r x e h nr = record {
  not_ready = rw (clear_cancel-ready, h, not_mark_ready r.type h) refl;
  no_rows =
      rw (clear_cancel-rows, h)
        (NoType-save mark_ready _ _ (not_mark_ready r.type h)
          (delete_by_type-NoType mark_ready e.rows));
  no_runs = rw clear_cancel-goroutines nr;
}
hold_success false now r x e h nr = record {
  not_ready = rw (clear_cancel-ready, h, not_mark_ready r.type h) refl;
  no_rows = rw (clear_cancel-rows, h) (delete_by_type-NoType mark_ready e.rows);
  no_runs = rw clear_cancel-goroutines nr;
}

save_failed-IsHeld :
    (b : Boot) (msg : String) (tr : TaskResult) (e : Engine)
    → str_eq tr.type mark_ready ≡ false
    → IsHeld e
    → IsHeld (save_failed b msg tr e)
unfolding save_failed
save_failed-IsHeld b msg tr e ne h = elim (Bool-cases (b.save_ok tr)) [
  | inl saved ↦ rw saved (record {
    not_ready = h.not_ready;
    no_rows = NoType-save mark_ready _ e.rows ne h.no_rows;
    no_runs = h.no_runs;
  })
  | inr lost ↦ rw lost h
]

module _ (cfg : Config) (b : Boot) where
  run_hold-IsHeld :
      (tr : TaskResult) (e : Engine) (x : Option String)
      → cfg.has_handler tr.type ≡ true
      → str_eq tr.type mark_not_ready ≡ true
      → b.hold_result tr ≡ success x
      → NoRuns e
      → IsHeld (run_hold cfg b tr e)
  unfolding run_hold
  run_hold-IsHeld tr e x f h ok nr = rw (f, ok) (hold_success (b.save_ok tr) b.now _ x _ h nr)

  -- a row that is no mark-ready keeps the hold
  resume-IsHeld :
      (tr : TaskResult) (e : Engine)
      → str_eq tr.type mark_ready ≡ false
      → IsHeld e
      → IsHeld (resume cfg b tr e)
  unfolding resume
  resume-IsHeld tr e ne h = elim (Bool-cases (cfg.has_handler tr.type)) [
    | inl found ↦ rw found (record {
      not_ready = h.not_ready;
      no_rows = h.no_rows;
      no_runs =
          All-append (λ r. str_eq r.type mark_ready ≡ false) e.goroutines _ h.no_runs (ne, tt);
    })
    | inr missing ↦ rw missing (save_failed-IsHeld b _ tr e ne h)
  ]

  dispatch-IsHeld :
      (tr : TaskResult) (e : Engine)
      → str_eq tr.type mark_ready ≡ false
      → IsHeld e
      → IsHeld (dispatch cfg b tr e)
  unfolding dispatch
  dispatch-IsHeld tr e ne h = elim (Bool-cases (str_eq tr.type mark_not_ready)) [
    | inl hold ↦ rw hold h
    | inr other ↦ rw (other, ne) (resume-IsHeld tr e ne h)
  ]

  dispatch_all-IsHeld :
      (trs : List TaskResult) (e : Engine)
      → NoType mark_ready trs
      → IsHeld e
      → IsHeld (dispatch_all cfg b trs e)
  unfolding dispatch_all
  dispatch_all-IsHeld [] e n h = h
  dispatch_all-IsHeld (tr ∷ trs) e (ne, n) h =
      dispatch_all-IsHeld trs (dispatch cfg b tr e) n (dispatch-IsHeld tr e ne h)

  module _ (found : cfg.has_handler mark_not_ready ≡ true)
      (purged : (tr : TaskResult) → (x : Option String) × (b.hold_result tr ≡ success x)) where
    hold_round :
        (tr : TaskResult) (e : Engine)
        → str_eq tr.type mark_not_ready ≡ true
        → NoRuns e
        → IsHeld (run_hold cfg b tr e)
    hold_round tr e h nr =
        let (x, ok) = purged tr in
        run_hold-IsHeld tr e x (rw ((eq_iff tr.type mark_not_ready).0 h) found) h ok nr

    -- once a hold has run, further holds keep it
    run_holds-keep :
        (trs : List TaskResult) (e : Engine) → IsHeld e → IsHeld (run_holds cfg b trs e)
    unfolding run_holds
    run_holds-keep [] e h = h
    run_holds-keep (tr ∷ trs) e h = elim (Bool-cases (str_eq tr.type mark_not_ready)) [
      | inl hold ↦ rw hold (run_holds-keep trs _ (hold_round tr e hold h.no_runs))
      | inr other ↦ rw other (run_holds-keep trs e h)
    ]

    run_holds-IsHeld :
        (trs : List TaskResult) (e : Engine)
        → hold_seen trs ≡ true
        → NoRuns e
        → IsHeld (run_holds cfg b trs e)
    unfolding run_holds hold_seen
    run_holds-IsHeld [] e s nr = absurd (cc)
    run_holds-IsHeld (tr ∷ trs) e s nr = elim (Bool-cases (str_eq tr.type mark_not_ready)) [
      | inl hold ↦ rw hold (run_holds-keep trs _ (hold_round tr e hold nr))
      | inr other ↦ rw other (run_holds-IsHeld trs e (rw other at s) nr)
    ]

    -- Where a stale hold is recorded, no goroutine runs mark-ready yet, and the handler of
    -- mark-not-ready exists and succeeds, the hold wins crash recovery: after the stale tasks are
    -- rehydrated the engine is not ready, no mark-ready row is left and no goroutine runs
    -- mark-ready, whichever statements after the first listing fail.
    pub rehydrate_hold_wins :
        (e : Engine)
        → b.list_ok ≡ true
        → hold_seen (list_stale_tasks e.rows) ≡ true
        → All (λ r. str_eq r.type mark_ready ≡ false) e.goroutines
        → IsHeld (rehydrate_stale_tasks cfg b e)
    unfolding rehydrate_stale_tasks
    rehydrate_hold_wins e ok seen nr =
        let held = run_holds-IsHeld (list_stale_tasks e.rows) e seen nr in
        elim (Bool-cases b.relist_ok) [
          | inl again ↦
              rw (ok, seen, again)
                (dispatch_all-IsHeld _ _ (list_stale_tasks-NoType mark_ready _ held.no_rows) held)
          | inr lost ↦ rw (ok, seen, lost) held
        ]
