-- ===== src/Drift/Node.antt =====
-- When a pod template has drifted: internal/planner/planner.go:874-931, with
-- task.EffectiveSidecarImage and the scheduling helpers of internal/noderesource.
use sei_k8s_controller.Prelude.{
  ℕ, String, Bool, false, not, ◌&&◌, ◌||◌, Option, none, some, ltb, str_eq, if◌then◌else◌,
}
use sei_k8s_controller.Prelude.Dict.{lookup}
use sei_k8s_controller.Node.{SchedulingConfig, SeiNode, condition_true}

-- platform.Config; a percentage that is not positive is 0
pub record Platform : Type 0 where
  pub sidecar_image : String
  pub drift_update_budget_percent : ℕ

abbrev pub is_empty : String → Bool
is_empty s = str_eq s ""

abbrev pub node_isolation_of : Option SchedulingConfig → String
node_isolation_of none = ""
node_isolation_of (some s) = s.node_isolation

abbrev pub annotation_or_empty : Option String → String
annotation_or_empty none = ""
annotation_or_empty (some v) = v

unfoldable pub effective_sidecar_image : SeiNode → Platform → String
effective_sidecar_image node p =
    if is_empty node.sidecar_image then p.sidecar_image else node.sidecar_image

unfoldable pub effective_node_isolation : SeiNode → String
unfolding lookup
effective_node_isolation node =
    let annotated = lookup "sei.io/dedicated-node" node.annotations in
    if not (is_empty (node_isolation_of node.scheduling))
    then node_isolation_of node.scheduling
    else if str_eq (annotation_or_empty annotated) "true"
    then "Dedicated"
    else "Shared"

unfoldable pub requested_node_pool : SeiNode → String
requested_node_pool node = elim (node.scheduling) [ none ↦ "" | some s ↦ s.node_pool ]

unfoldable pub image_drifted : SeiNode → Bool
image_drifted node = not (str_eq node.image node.current_image)

unfoldable pub sidecar_image_drifted : SeiNode → Platform → Bool
sidecar_image_drifted node p =
    if is_empty node.current_sidecar_image
    then false
    else not (str_eq (effective_sidecar_image node p) node.current_sidecar_image)

unfoldable pub node_isolation_drifted : SeiNode → Bool
node_isolation_drifted node =
    if is_empty node.current_node_isolation
    then false
    else not (str_eq (effective_node_isolation node) node.current_node_isolation)

unfoldable pub node_pool_drifted : SeiNode → Bool
node_pool_drifted node =
    if is_empty node.current_image
    then false
    else not (str_eq (requested_node_pool node) node.current_node_pool)

unfoldable pub pod_template_drifted : SeiNode → Platform → Bool
pod_template_drifted node p =
    image_drifted node
    || sidecar_image_drifted node p
    || node_isolation_drifted node
    || node_pool_drifted node

unfoldable pub update_in_progress : SeiNode → Bool
unfolding condition_true
update_in_progress node = condition_true "NodeUpdateInProgress" node

-- task.DataResetPending
unfoldable pub data_reset_pending : SeiNode → Bool
data_reset_pending node =
    node.has_node_config && ltb node.data_reset_generation node.wanted_reset_generation
