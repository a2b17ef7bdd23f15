-- ===== src/Planner/Made.antt =====
-- What the builders make: the plan of a progression, its tasks fresh and their ids numbered.
use sei_k8s_controller.Prelude.{
  ℕ, suc, ◌≡◌, ◌⊎◌, ◌∙◌, refl, ap, sym, inl, inr, String, true, not, ◌&&◌, none, some, List, [],
  ◌∷◌, arith, Bool-cases, if_elim, if◌then◌else◌, str_eq, ◌==◌, length,
}
use sei_k8s_controller.Plan.Types.{TaskPlanPhase, TaskStatus, PlannedTask, TaskPlan}
use sei_k8s_controller.Node.{SeiNode}
use sei_k8s_controller.Planner.TaskTypes as T
use sei_k8s_controller.Planner.Params.{TaskParams, Encoded, Library}
use sei_k8s_controller.Planner.Tasks.{
  Built, built, refused, and_then, PlanStep, contains, steps_of, planned_task, build_planned_task,
  build_tasks, assemble_steps,
}
use sei_k8s_controller.Planner.Config.{
  is_nil, splice_overlay, with_overlay, with_hash, with_config_values,
}
use sei_k8s_controller.Planner.Avoids.{Holds, overlaid, overlaid-none}

pub Holds-and_then {ℓ κ} :
    {A B : Type ℓ} (P : A → Type κ) (Q : B → Type κ) (b : Built A) (f : A → Built B)
    → Holds P b
    → ((a : A) → P a → Holds Q (f a))
    → Holds Q (and_then b f)
Holds-and_then P Q (built a) f h k = k a h
Holds-and_then P Q (refused e) f h k = tt

pub Holds-map {ℓ κ} :
    {A : Type ℓ} (P Q : A → Type κ) (b : Built A) → Holds P b → ((a : A) → P a → Q a) → Holds Q b
Holds-map P Q (built a) h k = k a h
Holds-map P Q (refused e) h k = tt

abbrev pub types : List PlannedTask → List String
types [] = []
types (t ∷ ts) = t.type ∷ types ts

abbrev pub step_types : List PlanStep → List String
step_types [] = []
step_types (s ∷ ss) = s.task_type ∷ step_types ss

-- a task that was never submitted
pub record IsFresh (t : PlannedTask) : Type 0 where
  pub pending : t.status ≡ TaskStatus.pending
  pub unsent : t.submitted_at ≡ none
  pub untried : t.retry_count ≡ 0
  pub encoded : (raw : String) × (t.params ≡ some raw)

length-types : (ts : List PlannedTask) → length (types ts) ≡ length ts
length-types [] = refl
length-types (t ∷ ts) = ap suc (length-types ts)

same_length : (ts us : List PlannedTask) → types us ≡ types ts → (length us == length ts) ≡ true
same_length ts us h =
    let e : length us ≡ length ts = sym (length-types us) ∙ ap length h ∙ length-types ts in
    ground (arith, e)

pub step_types-steps_of :
    (params : String → TaskParams) (prog : List String) → step_types (steps_of params prog) ≡ prog
step_types-steps_of params [] = refl
step_types-steps_of params (t ∷ ts) = ap (λ l. t ∷ l) (step_types-steps_of params ts)

-- Each task's id is that of its position, from `i` on.
module _ (lib : Library) (plan_id : String) where
  abbrev pub Exact : ℕ → List PlannedTask → Type 0
  Exact i [] = Unit
  Exact i (t ∷ ts) = (t.id ≡ lib.task_id plan_id t.type i) × IsFresh t × Exact (suc i) ts

  -- A plan of the progression, or of the progression with its overlays.
  pub record Made (prog : List String) (plan : TaskPlan) : Type 0 where
    pub id_is : plan.id ≡ plan_id
    pub active : plan.phase ≡ TaskPlanPhase.active
    pub clean : plan.failed_task_detail ≡ none
    pub exact : Exact 0 plan.tasks
    pub laid :
        (types plan.tasks ≡ prog)
        ⊎ (types plan.tasks ≡ overlaid prog) × (contains T.config_validate prog ≡ true)

  -- a task as it is built
  pub record IsBuilt (type : String) (i : ℕ) (t : PlannedTask) : Type 0 where
    pub type_is : t.type ≡ type
    pub id_is : t.id ≡ lib.task_id plan_id t.type i
    pub fresh : IsFresh t

  planned_task-IsBuilt :
      (type : String) (i : ℕ) (e : Encoded)
      → Holds (IsBuilt type i) (planned_task lib plan_id type i e)
  planned_task-IsBuilt type i (Encoded.failed e) = tt
  planned_task-IsBuilt type i (Encoded.json raw) = record {
    type_is = refl;
    id_is = refl;
    fresh = record { pending = refl; unsent = refl; untried = refl; encoded = (raw, refl) };
  }

  pub build_planned_task-IsBuilt :
      (type : String) (i : ℕ) (params : TaskParams)
      → Holds (IsBuilt type i) (build_planned_task lib plan_id type i params)
  unfolding build_planned_task
  build_planned_task-IsBuilt type i params = planned_task-IsBuilt type i (lib.marshal params)

  pub build_tasks-Exact :
      (i : ℕ) (steps : List PlanStep)
      → Holds (λ ts. Exact i ts × (types ts ≡ step_types steps)) (build_tasks lib plan_id i steps)
  unfolding build_tasks
  build_tasks-Exact i [] = (tt, refl)
  build_tasks-Exact i (s ∷ ss) =
      Holds-and_then (IsBuilt s.task_type i)
        (λ ts. Exact i ts × (types ts ≡ s.task_type ∷ step_types ss))
        (build_planned_task lib plan_id s.task_type i s.params) _
        (build_planned_task-IsBuilt s.task_type i s.params)
        (λ t b.
          Holds-and_then (λ ts. Exact (suc i) ts × (types ts ≡ step_types ss))
            (λ ts. Exact i ts × (types ts ≡ s.task_type ∷ step_types ss))
            (build_tasks lib plan_id (suc i) ss) _ (build_tasks-Exact (suc i) ss)
            (λ ts h. ((b.id_is, b.fresh, h.0), cc (b.type_is, h.1))))

  pub assemble_steps-Made :
      (steps : List PlanStep) → Holds (Made (step_types steps)) (assemble_steps lib plan_id steps)
  unfolding assemble_steps
  assemble_steps-Made steps =
      Holds-and_then (λ ts. Exact 0 ts × (types ts ≡ step_types steps)) (Made (step_types steps))
        (build_tasks lib plan_id 0 steps) _ (build_tasks-Exact 0 steps)
        (λ ts h. record { id_is = refl; active = refl; clean = refl; exact = h.0; laid = inl h.1 })

  IsFresh-renumbered : (t : PlannedTask) (id : String) → IsFresh t → IsFresh (record t { id = id })
  IsFresh-renumbered t id f = record {
    pending = f.pending;
    unsent = f.unsent;
    untried = f.untried;
    encoded = f.encoded;
  }

  pub splice_overlay-Exact :
      (patch : String) (ts : List PlannedTask) (i j : ℕ)
      → Exact j ts
      → Holds
          (λ us. Exact i us × (types us ≡ overlaid (types ts)))
          (splice_overlay lib plan_id patch ts i)
  unfolding splice_overlay overlaid
  splice_overlay-Exact patch [] i j h = (tt, refl)
  splice_overlay-Exact patch (t ∷ ts) i j h = elim (Bool-cases (str_eq t.type T.config_validate)) [
    | inl v ↦ rw v (
        Holds-and_then (IsBuilt T.config_patch i)
          (λ us. Exact i us × (types us ≡ T.config_patch ∷ t.type ∷ overlaid (types ts)))
          (build_planned_task lib plan_id T.config_patch i (TaskParams.overlay patch)) _
          (build_planned_task-IsBuilt T.config_patch i (TaskParams.overlay patch))
          (λ o b.
            Holds-and_then (λ us. Exact (suc (suc i)) us × (types us ≡ overlaid (types ts)))
              (λ us. Exact i us × (types us ≡ T.config_patch ∷ t.type ∷ overlaid (types ts)))
              (splice_overlay lib plan_id patch ts (suc (suc i))) _
              (splice_overlay-Exact patch ts (suc (suc i)) (suc j) h.2)
              (λ us k. (
                (b.id_is, b.fresh, (refl, IsFresh-renumbered t _ h.1, k.0)),
                cc (b.type_is, k.1),
              ))))
    | inr v ↦ rw v (
        Holds-and_then (λ us. Exact (suc i) us × (types us ≡ overlaid (types ts)))
          (λ us. Exact i us × (types us ≡ t.type ∷ overlaid (types ts)))
          (splice_overlay lib plan_id patch ts (suc i)) _
          (splice_overlay-Exact patch ts (suc i) (suc j) h.2)
          (λ us k. ((refl, IsFresh-renumbered t _ h.1, k.0), ap (λ l. t.type ∷ l) k.1)))
  ]

  -- What a list of fresh tasks with their positions' ids is, for a plan in construction.
  pub record Drafted (prog : List String) (plan : TaskPlan) : Type 0 where
    pub id_is : plan.id ≡ plan_id
    pub active : plan.phase ≡ TaskPlanPhase.active
    pub clean : plan.failed_task_detail ≡ none
    pub exact : Exact 0 plan.tasks
    pub types_are : types plan.tasks ≡ prog

  pub Drafted-Made : {prog : List String} {plan : TaskPlan} → Drafted prog plan → Made prog plan
  Drafted-Made d = record {
    id_is = d.id_is;
    active = d.active;
    clean = d.clean;
    exact = d.exact;
    laid = inl d.types_are;
  }

  overlaid-Made :
      (prog : List String) (plan : TaskPlan) (us : List PlannedTask)
      → Drafted prog plan
      → Exact 0 us
      → types us ≡ overlaid prog
      → Holds (Made prog) (
          if length us == length plan.tasks
          then refused "configValues: cannot splice overlay: plan has no config-validate task"
          else built (record plan { tasks = us }))
  overlaid-Made prog plan us d e h = elim (Bool-cases (contains T.config_validate prog)) [
    | inl v ↦ if_elim (Holds (Made prog)) (length us == length plan.tasks) tt (record {
      id_is = d.id_is;
      active = d.active;
      clean = d.clean;
      exact = e;
      laid = inr (h, v);
    })
    | inr v ↦ rw (same_length plan.tasks us (h ∙ overlaid-none prog v ∙ sym d.types_are)) tt
  ]

  splice_at :
      (id patch : String) (ts : List PlannedTask)
      → id ≡ plan_id
      → Exact 0 ts
      → Holds
          (λ us. Exact 0 us × (types us ≡ overlaid (types ts)))
          (splice_overlay lib id patch ts 0)
  splice_at id patch ts e h = rw e (splice_overlay-Exact patch ts 0 0 h)

  with_overlay-Made :
      (prog : List String) (plan : TaskPlan) (e : Encoded)
      → Drafted prog plan
      → Holds (Made prog) (with_overlay lib plan e)
  unfolding with_overlay
  with_overlay-Made prog plan (Encoded.failed e) d = tt
  with_overlay-Made prog plan (Encoded.json patch) d =
      Holds-and_then (λ us. Exact 0 us × (types us ≡ overlaid (types plan.tasks))) (Made prog)
        (splice_overlay lib plan.id patch plan.tasks 0) _
        (splice_at plan.id patch plan.tasks d.id_is d.exact)
        (λ us h. overlaid-Made prog plan us d h.0 (h.1 ∙ ap overlaid d.types_are))

  with_hash-Made :
      (prog : List String) (plan : TaskPlan) (node : SeiNode) (e : Encoded)
      → Drafted prog plan
      → Holds (Made prog) (with_hash lib plan node e)
  unfolding with_hash
  with_hash-Made prog plan node (Encoded.failed e) d = tt
  with_hash-Made prog plan node (Encoded.json hash) d =
      let stamped = record plan { config_values_hash = hash } in
      let d' : Drafted prog stamped = record {
        id_is = d.id_is;
        active = d.active;
        clean = d.clean;
        exact = d.exact;
        types_are = d.types_are;
      } in
      if_elim (Holds (Made prog)) (is_nil node.config_values && not node.autobahn) (Drafted-Made d')
        (with_overlay-Made prog stamped (lib.overlay_patch node) d')

  pub with_config_values-Made :
      (prog : List String) (plan : TaskPlan) (node : SeiNode)
      → Drafted prog plan
      → Holds (Made prog) (with_config_values lib plan node)
  unfolding with_config_values
  with_config_values-Made prog plan node d =
      with_hash-Made prog plan node (lib.config_values_hash node.config_values) d
