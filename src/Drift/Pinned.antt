-- ===== src/Drift/Pinned.antt =====
-- A pinned node has no drift (internal/planner/drift_budget.go:120-167).
use sei_k8s_controller.Prelude.{String, ◌≡◌, ◌⊎◌, refl, false, inl, inr, arith, eq_refl, Bool-cases}
use sei_k8s_controller.Node.{SeiNode}
use sei_k8s_controller.Drift.Node.{
  Platform, is_empty, image_drifted, sidecar_image_drifted, node_isolation_drifted,
  node_pool_drifted, pod_template_drifted, effective_sidecar_image, effective_node_isolation,
  requested_node_pool,
}
use sei_k8s_controller.Drift.Pin.{
  Images, Live, pinned, running_images, pin_sidecar, pin_isolation, pin_node_pool, pin_images,
  pinned_to_running,
}

-- the copy, with this sidecar image
abbrev copy_of : SeiNode → String → SeiNode
copy_of node sidecar = pin_node_pool (requested_node_pool node) (
    pin_isolation node.current_node_isolation
      (pin_sidecar sidecar (record node { image = node.current_image })))

copy_of-image : (node : SeiNode) (sidecar : String) → image_drifted (copy_of node sidecar) ≡ false
unfolding image_drifted pin_node_pool pin_isolation pin_sidecar
copy_of-image node sidecar = ground (arith, eq_refl node.current_image)

copy_of-sidecar :
    (node : SeiNode) (p : Platform) (sidecar : String)
    → (is_empty node.current_sidecar_image ≡ false → sidecar ≡ node.current_sidecar_image)
    → sidecar_image_drifted (copy_of node sidecar) p ≡ false
unfolding sidecar_image_drifted effective_sidecar_image pin_node_pool pin_isolation pin_sidecar
copy_of-sidecar node p sidecar h = elim (Bool-cases (is_empty node.current_sidecar_image)) [
  | inl e ↦ ground arith
  | inr e ↦ let q = h e in ground (arith, eq_refl node.current_sidecar_image)
]

copy_of-isolation :
    (node : SeiNode) (sidecar : String) → node_isolation_drifted (copy_of node sidecar) ≡ false
unfolding node_isolation_drifted effective_node_isolation pin_node_pool pin_isolation pin_sidecar
copy_of-isolation node sidecar = ground (arith, eq_refl node.current_node_isolation)

copy_of-pool :
    (node : SeiNode) (sidecar : String) → node_pool_drifted (copy_of node sidecar) ≡ false
unfolding node_pool_drifted requested_node_pool pin_node_pool pin_isolation pin_sidecar
copy_of-pool node sidecar = ground (arith, eq_refl node.current_node_pool)

running_images-known :
    (node : SeiNode) (live : Live) (images : Images)
    → is_empty node.current_image ≡ false
    → running_images node live ≡ inl images
    → (images.seid ≡ node.current_image)
      × (is_empty node.current_sidecar_image ≡ false → images.sidecar ≡ node.current_sidecar_image)
unfolding running_images
running_images-known node (Live.found a b) images h e = ground arith
running_images-known node Live.not_found images h e = ground arith
running_images-known node (Live.failed m) images h e = ground arith

-- The copy pinned to what a node with an observed image runs now shows no pod-template drift,
-- whatever the live StatefulSet says.
pub pinned_to_running-drift :
    (node copy : SeiNode) (p : Platform) (live : Live)
    → is_empty node.current_image ≡ false
    → pinned_to_running node live ≡ pinned copy
    → pod_template_drifted copy p ≡ false
unfolding pinned_to_running pin_images pod_template_drifted
pinned_to_running-drift node copy p live h e = by_images (running_images node live) refl
  where
    by_images :
        (r : Images ⊎ String) → running_images node live ≡ r → pod_template_drifted copy p ≡ false
    by_images (inr msg) q = absurd (ground (arith, e, q))
    by_images (inl images) q =
        let (seid, sidecar) = running_images-known node live images h q in
        let given : pin_images node images ≡ pinned copy = ground (arith, e, q) in
        let same : copy ≡ copy_of node images.sidecar = ground (arith, given, seid, h) in
        rw
          (
            same,
            pod_template_drifted,
            copy_of-image node images.sidecar,
            copy_of-sidecar node p images.sidecar sidecar,
            copy_of-isolation node images.sidecar,
            copy_of-pool node images.sidecar,
          )
          refl
