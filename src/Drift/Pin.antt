-- ===== src/Drift/Pin.antt =====
-- `pinnedToRunning` and `DriftRenderNode` (internal/planner/drift_budget.go:80-167).
use sei_k8s_controller.Prelude.{
  String, Bool, true, false, not, ◌&&◌, ◌||◌, ◌⊎◌, inl, inr, Option, none, some, str_eq,
  if◌then◌else◌,
}
use sei_k8s_controller.Plan.Types.{TaskPlanPhase, TaskPlan}
use sei_k8s_controller.Node.{
  ConditionStatus, SchedulingConfig, SeiNode, same_hold, set_condition, is_running,
}
use sei_k8s_controller.Drift.Node.{
  Platform, is_empty, requested_node_pool, update_in_progress, pod_template_drifted,
  data_reset_pending,
}
use sei_k8s_controller.Drift.Slot.{free, deferred, unreadable, Listed, drift_slot}

-- Get of the live StatefulSet, with noderesource.TemplateImages of what it finds
pub data Live : Type 0 where
  found : (seid sidecar : String) → Live
  not_found : Live
  failed : String → Live

pub record Images : Type 0 where
  pub seid : String
  pub sidecar : String

pub data Pinned : Type 0 where
  pinned : SeiNode → Pinned
  no_image : Pinned
  failed : String → Pinned

abbrev pub or_live : String → String → String
or_live known live = if is_empty known then live else known

abbrev pub bare_scheduling : SchedulingConfig
bare_scheduling = record { node_isolation = ""; node_pool = "" }

abbrev pub scheduling_or_new : Option SchedulingConfig → SchedulingConfig
scheduling_or_new none = bare_scheduling
scheduling_or_new (some s) = s

-- The two images to pin to, an error where the live StatefulSet is needed and cannot be read.
unfoldable pub running_images : SeiNode → Live → Images ⊎ String
running_images node live =
    let known : Images = record {
      seid = node.current_image;
      sidecar = node.current_sidecar_image;
    } in
    if is_empty node.current_image || is_empty node.current_sidecar_image
    then elim live [
      | found seid sidecar ↦ inl (record {
        seid = or_live node.current_image seid;
        sidecar = or_live node.current_sidecar_image sidecar;
      })
      | not_found ↦ inl known
      | failed msg ↦ inr msg
    ]
    else inl known

unfoldable pub pin_sidecar : String → SeiNode → SeiNode
pin_sidecar image node = if is_empty image then node else record node { sidecar_image = image }

unfoldable pub pin_isolation : String → SeiNode → SeiNode
pin_isolation iso node = if is_empty iso then node else record node {
  scheduling = some (record (scheduling_or_new node.scheduling) { node_isolation = iso });
}

-- `asked` is the pool that the node itself requests.
unfoldable pub pin_node_pool : String → SeiNode → SeiNode
pin_node_pool asked node =
    if not (is_empty node.current_image) && not (str_eq asked node.current_node_pool)
    then record node {
      scheduling =
          some (record (scheduling_or_new node.scheduling) { node_pool = node.current_node_pool });
    }
    else node

unfoldable pub pin_images : SeiNode → Images → Pinned
unfolding pin_sidecar pin_isolation pin_node_pool requested_node_pool
pin_images node images =
    if is_empty images.seid
    then no_image
    else pinned (
        pin_node_pool (requested_node_pool node) (
          pin_isolation node.current_node_isolation
            (pin_sidecar images.sidecar (record node { image = images.seid }))))

unfoldable pub pinned_to_running : SeiNode → Live → Pinned
unfolding running_images pin_images
pinned_to_running node live = elim (running_images node live) [
  | inl images ↦ pin_images node images
  | inr msg ↦ Pinned.failed msg
]

abbrev pub plan_active : Option TaskPlan → Bool
plan_active none = false
plan_active (some p) = elim (p.phase) [ TaskPlanPhase.active ↦ true | _ ↦ false ]

-- the guards before `DriftSlot`: the node itself is rendered
unfoldable pub renders_itself : SeiNode → Platform → Bool
renders_itself node p =
    not node.has_node_config
    || node.paused
    || not (is_running node.phase)
    || plan_active node.plan
    || update_in_progress node
    || not (pod_template_drifted node p)
    || data_reset_pending node
    || not (same_hold node.hold_requested node.maintenance_hold)

-- What is rendered, the node with its conditions, and the error.
pub record Rendered : Type 0 where
  pub template : SeiNode
  pub node : SeiNode
  pub failure : Option String

unfoldable pub drift_render_node : Platform → Option Listed → Live → SeiNode → Rendered
unfolding renders_itself drift_slot pinned_to_running set_condition
drift_render_node p listed live node =
    if renders_itself node p
    then record { template = node; node = node; failure = none }
    else elim (drift_slot p listed node) [
      | free ↦ record { template = node; node = node; failure = none }
      | unreadable msg ↦ record { template = node; node = node; failure = some msg }
      | deferred d ↦
          let marked =
            set_condition "NodeUpdateInProgress" ConditionStatus.is_false "UpdateDeferred" node in
          elim (pinned_to_running marked live) [
            | pinned copy ↦ record { template = copy; node = marked; failure = none }
            | no_image ↦ record { template = marked; node = marked; failure = none }
            | failed msg ↦ record { template = marked; node = marked; failure = some msg }
          ]
    ]
