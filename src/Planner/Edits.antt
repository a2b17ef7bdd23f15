-- ===== src/Planner/Edits.antt =====
-- The edits that the static planner makes to a plan: what they do to its ids and to its types.
use sei_k8s_controller.Prelude.{
  ℕ, suc, ◌+◌, ◌≤◌, ◌<◌, ◌≡◌, ◌≢◌, refl, ap, ◌∙◌, String, true, List, [], ◌∷◌, ◌++◌, if_elim,
  if_split, All, arith, str_eq, eq_iff, length,
}
use sei_k8s_controller.Plan.Types.{PlannedTask}
use sei_k8s_controller.Plan.Failure.{DistinctIds}
use sei_k8s_controller.Node.{MaintenanceHold}
use sei_k8s_controller.Planner.TaskTypes as T
use sei_k8s_controller.Planner.Params.{TaskParams, Library}
use sei_k8s_controller.Planner.Tasks.{contains, build_planned_task}
use sei_k8s_controller.Planner.Hold.{park_last, drop_mark_ready, record_hold_step}
use sei_k8s_controller.Planner.Reset.{with_reset_retries}
use sei_k8s_controller.Planner.Avoids.{Holds, avoids, parked}
use sei_k8s_controller.Planner.Made.{
  Holds-and_then, types, IsFresh, Exact, IsBuilt, build_planned_task-IsBuilt,
}

-- uuid.NewSHA1 gives the tasks at two positions of one plan two ids.
pub record IsCollisionFree (lib : Library) : Type 0 where
  pub apart :
      (plan_id type type' : String) (i j : ℕ)
      → lib.task_id plan_id type i ≡ lib.task_id plan_id type' j
      → i ≡ j

module _ (lib : Library) (plan_id : String) where
  -- Fresh tasks whose ids are those of growing positions, from `i` on.
  abbrev pub Numbered : ℕ → List PlannedTask → Type 0
  Numbered i [] = Unit
  Numbered i (t ∷ ts) =
      (k : ℕ) × (i ≤ k) × (t.id ≡ lib.task_id plan_id t.type k) × IsFresh t × Numbered (suc k) ts

  pub Exact-Numbered : (i : ℕ) (ts : List PlannedTask) → Exact lib plan_id i ts → Numbered i ts
  Exact-Numbered i [] h = tt
  Exact-Numbered i (t ∷ ts) h = (i, omega arith, h.0, h.1, Exact-Numbered (suc i) ts h.2)

  Numbered-weaken : (i j : ℕ) (ts : List PlannedTask) → i ≤ j → Numbered j ts → Numbered i ts
  Numbered-weaken i j [] le h = tt
  Numbered-weaken i j (t ∷ ts) le (k, le', id, f, rest) = (k, omega arith, id, f, rest)

  pub drop_mark_ready-Numbered :
      (i : ℕ) (ts : List PlannedTask) → Numbered i ts → Numbered i (drop_mark_ready ts)
  unfolding drop_mark_ready
  drop_mark_ready-Numbered i [] h = tt
  drop_mark_ready-Numbered i (t ∷ ts) (k, le, id, f, rest) =
      let ih = drop_mark_ready-Numbered (suc k) ts rest in
      if_elim (Numbered i) (str_eq t.type T.mark_ready)
        (Numbered-weaken i (suc k) (drop_mark_ready ts) (omega arith) ih) (k, le, id, f, ih)

  pub Numbered-fresh : (i : ℕ) (ts : List PlannedTask) → Numbered i ts → All IsFresh ts
  Numbered-fresh i [] h = tt
  Numbered-fresh i (t ∷ ts) (k, le, id, f, rest) = (f, Numbered-fresh (suc k) ts rest)

  no_later :
      IsCollisionFree lib
      → (type : String) (k i : ℕ) (ts : List PlannedTask) → k < i
      → Numbered i ts
      → All (λ u. lib.task_id plan_id type k ≢ u.id) ts
  no_later c type k i [] lt h = tt
  no_later c type k i (u ∷ us) lt (j, le, id, f, rest) = (
    (λ e. let same = c.apart plan_id type u.type k j (e ∙ id) in omega arith),
    no_later c type k (suc j) us (omega arith) rest,
  )

  id_rewritten :
      (id id' : String) (ts : List PlannedTask)
      → id ≡ id'
      → All (λ u. id' ≢ u.id) ts
      → All (λ u. id ≢ u.id) ts
  id_rewritten id id' ts e h = rw e h

  pub Numbered-DistinctIds :
      IsCollisionFree lib → (i : ℕ) (ts : List PlannedTask) → Numbered i ts → DistinctIds ts
  Numbered-DistinctIds c i [] h = tt
  Numbered-DistinctIds c i (t ∷ ts) (k, le, id, f, rest) = (
    id_rewritten t.id _ ts id (no_later c t.type k (suc k) ts (omega arith) rest),
    Numbered-DistinctIds c (suc k) ts rest,
  )

  -- the record of a hold at the end, in the place of the last task
  pub park_last-Exact :
      (i : ℕ) (ts : List PlannedTask)
      → Exact lib plan_id i ts
      → Holds
          (λ us. Exact lib plan_id i us × (types us ≡ parked (types ts)))
          (park_last lib plan_id i ts)
  unfolding park_last parked record_hold_step
  park_last-Exact i [] h = tt
  park_last-Exact i (t ∷ []) h =
      if_elim (Holds (λ us. Exact lib plan_id i us × (types us ≡ T.record_maintenance_hold ∷ [])))
        (str_eq t.type T.mark_ready)
        (Holds-and_then (IsBuilt lib plan_id T.record_maintenance_hold i)
          (λ us. Exact lib plan_id i us × (types us ≡ T.record_maintenance_hold ∷ []))
          (build_planned_task lib plan_id T.record_maintenance_hold i
            (TaskParams.hold MaintenanceHold.immediate))
          _
          (build_planned_task-IsBuilt lib plan_id T.record_maintenance_hold i
            (TaskParams.hold MaintenanceHold.immediate))
          (λ u b. ((b.id_is, b.fresh, tt), cc b.type_is)))
        tt
  park_last-Exact i (t ∷ u ∷ us) h =
      Holds-and_then (λ vs. Exact lib plan_id (suc i) vs × (types vs ≡ parked (types (u ∷ us))))
        (λ vs. Exact lib plan_id i vs × (types vs ≡ t.type ∷ parked (types (u ∷ us))))
        (park_last lib plan_id (suc i) (u ∷ us)) _ (park_last-Exact (suc i) (u ∷ us) h.2)
        (λ vs k. ((h.0, h.1, k.0), ap (λ l. t.type ∷ l) k.1))

  pub Exact-append :
      (i : ℕ) (ts : List PlannedTask) (u : PlannedTask)
      → Exact lib plan_id i ts
      → u.id ≡ lib.task_id plan_id u.type (i + length ts)
      → IsFresh u
      → Exact lib plan_id i (ts ++ (u ∷ []))
  Exact-append i [] u h id f = (id ∙ ap (lib.task_id plan_id u.type) (omega arith), f, tt)
  Exact-append i (t ∷ ts) u h id f = (
    h.0,
    h.1,
    Exact-append (suc i) ts u h.2 (id ∙ ap (lib.task_id plan_id u.type) (omega arith)) f,
  )

  pub with_reset_retries-Exact :
      (i : ℕ) (ts : List PlannedTask)
      → Exact lib plan_id i ts
      → Exact lib plan_id i (with_reset_retries ts)
  unfolding with_reset_retries
  with_reset_retries-Exact i [] h = tt
  with_reset_retries-Exact i (t ∷ ts) h =
      let ih = with_reset_retries-Exact (suc i) ts h.2 in
      if_elim (Exact lib plan_id i) (str_eq t.type T.reset_data_keep_sign_state)
        (
          h.0,
          record {
            pending = h.1.pending;
            unsent = h.1.unsent;
            untried = h.1.untried;
            encoded = h.1.encoded;
          },
          ih,
        )
        (h.0, h.1, ih)

pub with_reset_retries-types : (ts : List PlannedTask) → types (with_reset_retries ts) ≡ types ts
unfolding with_reset_retries
with_reset_retries-types [] = refl
with_reset_retries-types (t ∷ ts) =
    let ih = ap (λ l. t.type ∷ l) (with_reset_retries-types ts) in
    if_elim (λ us. types us ≡ t.type ∷ types ts) (str_eq t.type T.reset_data_keep_sign_state) ih ih

pub types-append : (ts us : List PlannedTask) → types (ts ++ us) ≡ types ts ++ types us
types-append [] us = refl
types-append (t ∷ ts) us = ap (λ l. t.type ∷ l) (types-append ts us)

-- what is left has no mark-ready
pub drop_mark_ready-avoids :
    (ts : List PlannedTask) → avoids (T.mark_ready ∷ []) (types (drop_mark_ready ts)) ≡ true
unfolding drop_mark_ready avoids contains
drop_mark_ready-avoids [] = refl
drop_mark_ready-avoids (t ∷ ts) =
    let ih = drop_mark_ready-avoids ts in
    if_split (λ us. avoids (T.mark_ready ∷ []) (types us) ≡ true) (str_eq t.type T.mark_ready)
      (λ _. ih) (λ e. ground (arith, eq_iff t.type T.mark_ready, eq_iff T.mark_ready t.type))

pub drop_mark_ready-keeps :
    (bad : List String) (ts : List PlannedTask)
    → avoids bad (types ts) ≡ true
    → avoids bad (types (drop_mark_ready ts)) ≡ true
unfolding drop_mark_ready avoids
drop_mark_ready-keeps bad [] h = refl
drop_mark_ready-keeps bad (t ∷ ts) h =
    let ih = drop_mark_ready-keeps bad ts in
    if_elim (λ us. avoids bad (types us) ≡ true) (str_eq t.type T.mark_ready) (ground (arith, ih))
      (ground (arith, ih))
