-- ===== src/Planner/StaticPlans.antt =====
-- What the planner of a node with configuration from ConfigMaps returns
-- (internal/planner/static_config.go).
use sei_k8s_controller.Prelude.{
  ◌≡◌, refl, ap, sym, ◌∙◌, String, Bool, true, false, Option, none, some, List, [], ◌∷◌, not,
}
use sei_k8s_controller.Plan.Types.{TaskPlanPhase, PlannedTask, TaskPlan}
use sei_k8s_controller.Node.{SeiNode}
use sei_k8s_controller.Planner.TaskTypes as T
use sei_k8s_controller.Planner.Params.{Library}
use sei_k8s_controller.Planner.Tasks.{Built, built, refused}
use sei_k8s_controller.Planner.Progression.{is_genesis_ceremony_node}
use sei_k8s_controller.Planner.Hold.{park_last, park_instead_of_release}
use sei_k8s_controller.Planner.Static.{park_result}
use sei_k8s_controller.Planner.Avoids.{Holds, avoids, parked}
use sei_k8s_controller.Planner.Made.{Holds-and_then, Holds-map, types, Exact, Made}
use sei_k8s_controller.Planner.Builders.{MadeOf}
use sei_k8s_controller.Planner.ModeProgs.{InitProg, AllPlan}
use sei_k8s_controller.Planner.Edits.{Numbered, Exact-Numbered, park_last-Exact}
use sei_k8s_controller.Planner.StaticTypes.{
  Made-InitTypes, InitTypes-no_writer, InitTypes-no_release,
}

falsehood : (b : Bool) → not b ≡ true → b ≡ false
falsehood true h = sym h
falsehood false h = refl

module _ (lib : Library) (plan_id : String) where
  -- A plan that no task of was sent, with ids of growing positions.
  pub record Sound (plan : TaskPlan) : Type 0 where
    pub active : plan.phase ≡ TaskPlanPhase.active
    pub clean : plan.failed_task_detail ≡ none
    pub numbered : Numbered lib plan_id 0 plan.tasks

  pub Made-Sound : (prog : List String) (plan : TaskPlan) → Made lib plan_id prog plan → Sound plan
  Made-Sound prog plan m = record {
    active = m.active;
    clean = m.clean;
    numbered = Exact-Numbered lib plan_id 0 plan.tasks m.exact;
  }

  -- What a plan of the static planner is, for the request that it is built under.
  pub record StaticPlan (held safe : Bool) (plan : TaskPlan) : Type 0 where
    pub sound : Sound plan
    pub no_writer : safe ≡ true → avoids T.mounted_config_writers (types plan.tasks) ≡ true
    pub no_release : held ≡ true → avoids (T.mark_ready ∷ []) (types plan.tasks) ≡ true

  park_at :
      (id : String) (ts : List PlannedTask)
      → id ≡ plan_id
      → Exact lib plan_id 0 ts
      → Holds
          (λ us. Exact lib plan_id 0 us × (types us ≡ parked (types ts)))
          (park_last lib id 0 ts)
  park_at id ts e h = rw e (park_last-Exact lib plan_id 0 ts h)

  -- A plan that is parked at its end.
  pub record Parked (plan out : TaskPlan) : Type 0 where
    pub sound : Sound out
    pub types_are : types out.tasks ≡ parked (types plan.tasks)

  pub park_instead_of_release-Parked :
      (plan : TaskPlan)
      → plan.id ≡ plan_id
      → Exact lib plan_id 0 plan.tasks
      → Sound plan
      → Holds (Parked plan) (park_instead_of_release lib plan)
  unfolding park_instead_of_release
  park_instead_of_release-Parked plan e x s =
      Holds-and_then (λ us. Exact lib plan_id 0 us × (types us ≡ parked (types plan.tasks)))
        (Parked plan) (park_last lib plan.id 0 plan.tasks) _ (park_at plan.id plan.tasks e x)
        (λ us h. record {
          sound = record {
            active = s.active;
            clean = s.clean;
            numbered = Exact-Numbered lib plan_id 0 us h.0;
          };
          types_are = h.1;
        })

  -- the init plan of a node that mounts its configuration
  parked_init :
      (node : SeiNode) (plan : TaskPlan)
      → node.has_node_config ≡ true
      → MadeOf lib plan_id (InitProg node) plan
      → Holds
          (StaticPlan true (not (is_genesis_ceremony_node node)))
          (park_instead_of_release lib plan)
  parked_init node plan nc m =
      let ts = Made-InitTypes lib plan_id node m.prog plan nc m.holds m.made in
      Holds-map (Parked plan) (StaticPlan true (not (is_genesis_ceremony_node node)))
        (park_instead_of_release lib plan)
        (park_instead_of_release-Parked plan m.made.id_is m.made.exact
          (Made-Sound m.prog plan m.made))
        (λ out k. record {
          sound = k.sound;
          no_writer = λ safe.
              ap (avoids T.mounted_config_writers) k.types_are
              ∙ (InitTypes-no_writer node (types plan.tasks) (falsehood _ safe) ts).1;
          no_release = λ _.
              ap (avoids (T.mark_ready ∷ [])) k.types_are
              ∙ InitTypes-no_release node (types plan.tasks) ts;
        })

  plain_init :
      (node : SeiNode) (plan : TaskPlan)
      → node.has_node_config ≡ true
      → MadeOf lib plan_id (InitProg node) plan
      → StaticPlan false (not (is_genesis_ceremony_node node)) plan
  plain_init node plan nc m =
      let ts = Made-InitTypes lib plan_id node m.prog plan nc m.holds m.made in
      record {
        sound = Made-Sound m.prog plan m.made;
        no_writer = λ safe. (InitTypes-no_writer node (types plan.tasks) (falsehood _ safe) ts).0;
        no_release = λ h. absurd (cc h);
      }

  pub init_result :
      (node : SeiNode) (held : Bool) (r : Built (Option TaskPlan))
      → node.has_node_config ≡ true
      → Holds (AllPlan (MadeOf lib plan_id (InitProg node))) r
      → Holds
          (AllPlan (StaticPlan held (not (is_genesis_ceremony_node node))))
          (park_result lib held r)
  init_result node true (refused e) nc h = tt
  init_result node false (refused e) nc h = tt
  init_result node true (built none) nc h = tt
  init_result node false (built none) nc h = tt
  init_result node true (built (some plan)) nc h =
      Holds-and_then (StaticPlan true (not (is_genesis_ceremony_node node)))
        (AllPlan (StaticPlan true (not (is_genesis_ceremony_node node))))
        (park_instead_of_release lib plan) _ (parked_init node plan nc h) (λ out k. k)
  init_result node false (built (some plan)) nc h = plain_init node plan nc h
