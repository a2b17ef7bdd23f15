-- ===== src/Planner/Tests.antt =====
-- Plans of small nodes, and the theorems about them.
use sei_k8s_controller.Prelude.{
  Bool, ◌≡◌, refl, sym, ap, ◌∙◌, ℕ, zero, suc, arith, Option, String, true, false, none, some, List,
  [], ◌∷◌, inr,
}
use Prim.Native.String.{◌++◌, count}
use text.Mathlib.Text.{find?}
use text.Mathlib.TextLemmas.{length-append}
use sei_k8s_controller.Planner.Progression.{is_genesis_ceremony_node}
use sei_k8s_controller.Plan.Types.{SeiNodePhase, TaskStatus, PlannedTask, TaskPlan, other_object}
use sei_k8s_controller.Plan.Runtime.{ExecutionStatus, ok, Deserialized, Runtime}
use sei_k8s_controller.Plan.Executor.{State, execute_plan}
use sei_k8s_controller.Plan.Tasks.{Current}
use sei_k8s_controller.Plan.Loop.{Returns}
use sei_k8s_controller.Planner.Tasks.{active_plan}
use sei_k8s_controller.Planner.Reset.{start_guard_refusal}
use sei_k8s_controller.Planner.Guard.{StartBlock, start_blocked, guarded}
use sei_k8s_controller.Planner.Deferral.{AtRelease, Deferred, refused_start-Deferred}
use sei_k8s_controller.Node.{SeiNode, MaintenanceHold, plain_node}
use sei_k8s_controller.Drift.Node.{Platform, pod_template_drifted, image_drifted}
use sei_k8s_controller.Drift.Slot.{drift_slot, SlotDecision}
use sei_k8s_controller.Planner.TaskTypes as T
use sei_k8s_controller.Planner.Params.{Encoded, Library}
use sei_k8s_controller.Planner.Tasks.{built}
use sei_k8s_controller.Planner.Modes.{ModePlanner, planner_for_mode}
use sei_k8s_controller.Planner.Resolve.{
  Reconcile, NodePlanner, planner_for, build_plan, resolve_plan,
}
use sei_k8s_controller.Planner.Avoids.{avoids}
use sei_k8s_controller.Planner.Made.{types}
use sei_k8s_controller.Planner.ModeProgs.{AllPlan, Plans}
use sei_k8s_controller.Planner.Edits.{IsCollisionFree}
use sei_k8s_controller.Planner.Safety.{
  Startable, resolve_plan-Startable, build_plan-unrefused, resolve_plan-held,
}
use sei_k8s_controller.Planner.Paced.{resolve_plan-paced}
use sei_k8s_controller.Planner.Config.{mounted_config_writer_in_plan}
use sei_k8s_controller.Planner.Settle.{Within, hold_plans-settle}

-- ids that count the position in strokes
abbrev strokes : ℕ → String
strokes zero = ""
strokes (suc n) = strokes n ++ "|"

count-strokes : (n : ℕ) → count (strokes n) ≡ n
count-strokes zero = refl
count-strokes (suc n) = omega (arith, length-append (strokes n) "|", count-strokes n)

abbrev found : Option ℕ → Bool
found none = false
found (some _) = true

abbrev small_library : Library
small_library = record {
  task_id = λ plan_id type i. strokes i;
  marshal = λ _. Encoded.json "{}";
  config_values_hash = λ _. Encoded.json "h";
  overlay_patch = λ _. Encoded.json "{}";
  up_check_of = λ _. "{}";
  join = λ _. "";
  contains = λ text part. found (find? text part);
  decimal = λ _. "0";
  snapshot_generation_overrides = λ _. [];
  key_external_address = "p2p.external_address";
  key_snapshot_interval = "snapshot.interval";
  key_snapshot_keep_recent = "snapshot.keep_recent";
  default_snapshot_interval = 1000;
}

small_library-IsCollisionFree : IsCollisionFree small_library
small_library-IsCollisionFree = record {
  apart = λ _ _ _ i j e. sym (count-strokes i) ∙ ap count e ∙ count-strokes j;
}

abbrev platform : Platform
platform = record { sidecar_image = "sc"; drift_update_budget_percent = 50 }

abbrev first_reconcile : Reconcile
first_reconcile = record { plan_id = "p"; now = 7; listed = none; health = none }

abbrev new_node : SeiNode
new_node = record plain_node {
  name = "a";
  namespace = "sei";
  image = "v1";
  full_node = some (record { snapshot = none; snapshot_generation = none; freeze = none });
}

abbrev held_node : SeiNode
held_node = record new_node { has_node_config = true; hold_requested = MaintenanceHold.immediate }

abbrev drifted_node : SeiNode
drifted_node = record new_node {
  phase = some SeiNodePhase.running;
  image = "v2";
  current_image = "v1";
}

abbrev planned_types : Option TaskPlan → List String
planned_types none = []
planned_types (some plan) = types plan.tasks

resolve_plan-Startable_example :
    AllPlan Startable (resolve_plan small_library platform first_reconcile new_node).node.plan
resolve_plan-Startable_example =
    resolve_plan-Startable small_library platform first_reconcile small_library-IsCollisionFree
      new_node refl

resolve_plan-held_example :
    AllPlan
      (λ plan. avoids (T.mark_ready ∷ []) (types plan.tasks) ≡ true)
      (resolve_plan small_library platform first_reconcile held_node).node.plan
resolve_plan-held_example =
    resolve_plan-held small_library platform first_reconcile held_node refl refl refl

drifted_node-drifts : pod_template_drifted drifted_node platform ≡ true
unfolding pod_template_drifted image_drifted
drifted_node-drifts = refl

resolve_plan-paced_example :
    AllPlan
      (λ _. drift_slot platform none drifted_node ≡ SlotDecision.free)
      (resolve_plan small_library platform first_reconcile drifted_node).node.plan
resolve_plan-paced_example =
    resolve_plan-paced small_library platform first_reconcile drifted_node refl refl refl
      drifted_node-drifts

held_node-planner :
    planner_for held_node ≡ built (NodePlanner.static_config_planner ModePlanner.full_node)
unfolding planner_for planner_for_mode
held_node-planner = refl

build_plan-unrefused_example :
    Plans
      (λ plan. mounted_config_writer_in_plan held_node (some plan) ≡ none)
      (build_plan small_library platform first_reconcile
        (NodePlanner.static_config_planner ModePlanner.full_node)
        held_node)
unfolding is_genesis_ceremony_node
build_plan-unrefused_example =
    build_plan-unrefused small_library platform first_reconcile
      (NodePlanner.static_config_planner ModePlanner.full_node) held_node held_node-planner
      (λ _. inr refl)

hold_plans-settle_example :
    Within small_library held_node MaintenanceHold.after_exit
      (record { gate_open = true; have = MaintenanceHold.immediate })
      2
hold_plans-settle_example =
    hold_plans-settle small_library held_node MaintenanceHold.after_exit MaintenanceHold.immediate
      true

-- The init plan of a held node ends with the record of the hold.
held_init :
    planned_types (resolve_plan small_library platform first_reconcile held_node).node.plan
    ≡ T.ensure_data_pvc ∷ T.apply_rbac_proxy_config ∷ T.apply_statefulset ∷ T.apply_service
      ∷ T.configure_genesis ∷ T.record_maintenance_hold ∷ []
unfolding resolve_plan image_drifted
held_init = refl

-- a running node with a hold, and the plan of a release that it overtook
abbrev parked_node : SeiNode
parked_node = record held_node { phase = some SeiNodePhase.running }

abbrev release : PlannedTask
release = record {
  type = T.mark_ready;
  id = "1";
  status = TaskStatus.pending;
  params = some "{}";
  submitted_at = none;
  error = "";
  max_retries = 0;
  retry_count = 0;
}

abbrev observed_image : PlannedTask
observed_image = record release { type = T.observe_image; id = "0"; status = TaskStatus.complete }

abbrev release_plan : State SeiNode
release_plan = record {
  owner = other_object;
  plan = active_plan "p" (observed_image ∷ release ∷ []) none;
  world = parked_node;
}

abbrev prompt : Runtime SeiNode String
prompt = record {
  deserialize = λ type id params w. Deserialized.task type;
  execute = λ e w. (ok, w);
  status = λ e w. (ExecutionStatus.complete, w);
  err = λ e w. none;
  now = λ w. 5;
}

abbrev refusal : StartBlock → String
refusal StartBlock.reset_pending = "mark-ready refused by the start guard: data reset pending"
refusal StartBlock.hold_set = "mark-ready refused by the start guard: maintenance hold is set"
refusal StartBlock.not_after_exit =
    "mark-ready refused by the start guard: start once needs AfterExit"

refusal-named : (b : StartBlock) → small_library.contains (refusal b) start_guard_refusal ≡ true
refusal-named StartBlock.reset_pending = refl
refusal-named StartBlock.hold_set = refl
refusal-named StartBlock.not_after_exit = refl

release_plan-AtRelease : AtRelease (λ w. some w) refusal prompt small_library release_plan
unfolding start_blocked
release_plan-AtRelease = record {
  index = 1;
  task = release;
  current = Current.there refl (Current.here refl);
  releases = refl;
  pending = refl;
  execution = T.mark_ready;
  known = refl;
  node = parked_node;
  resource = refl;
  block = StartBlock.hold_set;
  blocked = refl;
}

refused_start-Deferred_example :
    Returns
      (λ _ u. Deferred (λ w. some w) refusal prompt small_library parked_node u)
      (execute_plan (guarded (λ w. some w) refusal prompt) release_plan)
refused_start-Deferred_example =
    refused_start-Deferred (λ w. some w) refusal prompt small_library release_plan refl
      release_plan-AtRelease refusal-named
