-- ===== src/Planner/ModeProgs.antt =====
-- The progressions of the modes, before and after a node runs, and what a planner returns.
use sei_k8s_controller.Prelude.{
  ◌≡◌, ◌⊎◌, String, Bool, true, false, Option, none, some, List, [], ◌∷◌, if◌then◌else◌,
}
use sei_k8s_controller.Plan.Types.{TaskPlan}
use sei_k8s_controller.Node.{SnapshotSource, SeiNode}
use sei_k8s_controller.Drift.Node.{Platform, pod_template_drifted}
use sei_k8s_controller.Planner.TaskTypes as T
use sei_k8s_controller.Planner.Params.{has_s3_snapshot, needs_validate_node_key}
use sei_k8s_controller.Planner.Tasks.{
  Built, built, refused, and_then, insert_before, spliced, contains,
}
use sei_k8s_controller.Planner.Progression.{
  BootstrapMode, has_state_sync, bootstrap_mode, base_progression, needs_state_sync_witnesses,
  build_sidecar_progression, genesis_progression, is_genesis_ceremony_node, gate, key_gates,
}
use sei_k8s_controller.Planner.Update.{
  Planning, with_plan, update_result, update_progression, config_update_progression,
}
use sei_k8s_controller.Planner.Avoids.{Holds, Inserted}
use sei_k8s_controller.Planner.Made.{Holds-map}
use sei_k8s_controller.Planner.Builders.{base_prog}

-- the sidecar progressions of a new chain, of state-sync and of a snapshot
pub data SidecarProg : List String → Type 0 where
  plain : SidecarProg (T.configure_genesis ∷ T.config_apply ∷ T.config_validate ∷ T.mark_ready ∷ [])
  synced : SidecarProg (
      T.configure_genesis ∷ T.config_apply ∷ T.configure_state_sync ∷ T.config_validate
      ∷ T.mark_ready ∷ [])
  restored : SidecarProg (
      T.snapshot_restore ∷ T.configure_genesis ∷ T.config_apply ∷ T.configure_state_sync
      ∷ T.config_validate ∷ T.mark_ready ∷ [])

sidecar_of :
    (s3 sync : Bool)
    → Holds SidecarProg (
        and_then
          (insert_before
            (base_progression (
              if s3
              then BootstrapMode.from_snapshot
              else if sync
              then BootstrapMode.from_state_sync
              else BootstrapMode.from_genesis))
            T.config_apply
            T.configure_genesis)
          (λ prog. insert_before prog T.config_validate T.configure_state_sync))
unfolding insert_before base_progression contains spliced
sidecar_of true sync = SidecarProg.restored
sidecar_of false true = SidecarProg.synced
sidecar_of false false = SidecarProg.synced

pub build_sidecar_progression-SidecarProg :
    (snap : Option SnapshotSource) → Holds SidecarProg (build_sidecar_progression snap)
unfolding build_sidecar_progression bootstrap_mode needs_state_sync_witnesses insert_before contains
    spliced base_progression has_s3_snapshot has_state_sync
build_sidecar_progression-SidecarProg none = SidecarProg.plain
build_sidecar_progression-SidecarProg (some s) =
    sidecar_of (has_s3_snapshot (some s)) (has_state_sync (some s))

-- the progression of an init plan
pub data InitProg (node : SeiNode) (prog : List String) : Type 0 where
  base :
      (sidecar : List String)
      → SidecarProg sidecar
      → prog ≡ base_prog node sidecar
      → InitProg node prog
  ceremony : is_genesis_ceremony_node node ≡ true → prog ≡ genesis_progression → InitProg node prog

-- an update, or one with config-apply in front of its patch
abbrev pub Edited : List String → List String → Type 0
Edited prog out = (out ≡ prog) ⊎ Inserted T.config_apply prog out

-- what a mode planner puts first
pub data Gates (node : SeiNode) : List String → Type 0 where
  no_gates : Gates node []
  all_keys : Gates node (key_gates node)
  node_key : Gates node (gate (needs_validate_node_key node) T.validate_node_key)

pub data RunningProg (p : Platform) (node : SeiNode) (prog : List String) : Type 0 where
  update :
      (gates : List String)
      → Gates node gates
      → Edited (update_progression gates) prog
      → RunningProg p node prog
  config_update :
      pod_template_drifted node p ≡ false
      → Edited (config_update_progression) prog
      → RunningProg p node prog
  reapproval :
      pod_template_drifted node p ≡ false → prog ≡ T.mark_ready ∷ [] → RunningProg p node prog

-- What a planner returned: nothing, an error, or a plan with the property.
abbrev pub AllPlan : (TaskPlan → Type 0) → Option TaskPlan → Type 0
AllPlan P none = Unit
AllPlan P (some plan) = P plan

abbrev pub Plans : (TaskPlan → Type 0) → Planning → Type 0
Plans P planning = Holds (AllPlan P) planning.result

AllPlan-map :
    (P Q : TaskPlan → Type 0) (o : Option TaskPlan)
    → AllPlan P o
    → ((plan : TaskPlan) → P plan → Q plan)
    → AllPlan Q o
AllPlan-map P Q none h f = tt
AllPlan-map P Q (some plan) h f = f plan h

pub Plans-map :
    (P Q : TaskPlan → Type 0) (planning : Planning)
    → Plans P planning
    → ((plan : TaskPlan) → P plan → Q plan)
    → Plans Q planning
Plans-map P Q planning h f =
    Holds-map (AllPlan P) (AllPlan Q) planning.result h (λ o k. AllPlan-map P Q o k f)

pub Plans-with_plan :
    (P : TaskPlan → Type 0) (node : SeiNode) (b : Built TaskPlan)
    → Holds P b
    → Plans P (with_plan node b)
Plans-with_plan P node (built plan) h = h
Plans-with_plan P node (refused e) h = tt

pub Plans-update_result :
    (P : TaskPlan → Type 0) (reason : String) (node : SeiNode) (b : Built TaskPlan)
    → Holds P b
    → Plans P (update_result reason node b)
Plans-update_result P reason node (built plan) h = h
Plans-update_result P reason node (refused e) h = tt
