-- ===== src/Drift/Tests.antt =====
-- Decisions of the drift-roll budget on a small namespace, and the theorems about it.
use sei_k8s_controller.Prelude.{
  ◌≡◌, refl, String, true, false, some, List, [], ◌∷◌, arith, str_eq, eq_iff, ◌≢◌, length, min,
}
use sei_k8s_controller.Plan.Types.{SeiNodePhase}
use sei_k8s_controller.HashLog.Columns.{sort}
use sei_k8s_controller.Node.{SeiNode, ConditionStatus, plain_node, condition_true}
use sei_k8s_controller.Drift.Node.{
  Platform, pod_template_drifted, image_drifted, update_in_progress, requested_node_pool,
}
use sei_k8s_controller.Drift.Slot.{
  drift_slot, deferred, items, slots, roll_order, updating_names, waiting_names, counts, has_slot,
  running_nodes,
}
use sei_k8s_controller.Drift.Pin.{
  Live, pinned_to_running, running_images, pin_images, pin_sidecar, pin_isolation, pin_node_pool,
}
use sei_k8s_controller.Drift.Budget.{count, may_roll, may_roll-count, Distinct}
use sei_k8s_controller.Drift.Pinned.{pinned_to_running-drift}

abbrev drifted_node : String → SeiNode
drifted_node name = record plain_node {
  name = name;
  namespace = "sei";
  image = "v2";
  has_node_config = true;
  phase = some SeiNodePhase.running;
  current_image = "v1";
  current_node_isolation = "Shared";
}

abbrev budget : Platform
budget = record { sidecar_image = "sc"; drift_update_budget_percent = 50 }

abbrev updating_node : SeiNode
updating_node = record (drifted_node "c") {
  conditions =
      (
        "NodeUpdateInProgress",
        record { status = ConditionStatus.is_true; reason = "UpdateStarted" },
      )
      ∷ [];
}

abbrev fleet : List SeiNode
fleet = drifted_node "b" ∷ updating_node ∷ drifted_node "a" ∷ []

in_order : roll_order budget fleet ≡ "c" ∷ "a" ∷ "b" ∷ []
unfolding roll_order sort updating_names counts update_in_progress condition_true waiting_names
    pod_template_drifted image_drifted
in_order = refl

one_slot :
    drift_slot budget (some (items fleet)) (drifted_node "a")
    ≡ deferred (record { namespace = "sei"; slots = 1; holders = "c" ∷ [] })
unfolding drift_slot has_slot slots running_nodes roll_order sort updating_names counts
    update_in_progress condition_true waiting_names pod_template_drifted image_drifted
one_slot = refl

apart : (s t : String) → str_eq s t ≡ false → s ≢ t
apart s t h = ground (arith, eq_iff s t)

fleet-Distinct : Distinct (roll_order budget fleet)
unfolding roll_order sort updating_names counts update_in_progress condition_true waiting_names
    pod_template_drifted image_drifted
fleet-Distinct =
    ((apart "c" "a" refl, (apart "c" "b" refl, tt)), ((apart "a" "b" refl, tt), (tt, tt)))

may_roll-count_example :
    count (may_roll budget fleet (drifted_node "a")) (roll_order budget fleet)
    ≡ min (slots budget fleet) (length (roll_order budget fleet))
may_roll-count_example = may_roll-count budget fleet (drifted_node "a") (omega arith) fleet-Distinct

abbrev pinned_node : SeiNode
pinned_node = record (drifted_node "a") {
  image = "v1";
  scheduling = some (record { node_isolation = "Shared"; node_pool = "" });
}

pinned_to_running-drift_example : pod_template_drifted pinned_node budget ≡ false
unfolding pinned_to_running running_images pin_images pin_sidecar pin_isolation pin_node_pool
    requested_node_pool
pinned_to_running-drift_example =
    pinned_to_running-drift (drifted_node "a") pinned_node budget Live.not_found refl refl
