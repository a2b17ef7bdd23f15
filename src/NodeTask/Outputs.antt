-- ===== src/NodeTask/Outputs.antt =====
-- internal/controller/nodetask/govoutputs.go, and `populateOutputs` of controller.go.
use sei_k8s_controller.Prelude.{Bool, true, false, Option, none, some, str_eq, if◌then◌else◌}
use sei_k8s_controller.NodeTask.Types.{
  SeiNodeTaskKind, SeiNodeTaskOutputs, SeiNodeTask, SeiNode, GovTxResult,
}
use sei_k8s_controller.NodeTask.Runtime.{Runtime}

abbrev pub no_outputs : SeiNodeTaskOutputs
no_outputs = record {
  gov_software_upgrade = none;
  gov_vote = none;
  gov_param_change = none;
  gov_update_instantiate_config = none;
  await_condition = none;
  update_node_image = none;
  await_nodes_at_height = none;
  unjail = none;
}

abbrev pub outputs_or_new : Option SeiNodeTaskOutputs → SeiNodeTaskOutputs
outputs_or_new none = no_outputs
outputs_or_new (some o) = o

abbrev pub is_sign_tx_kind : SeiNodeTaskKind → Bool
is_sign_tx_kind SeiNodeTaskKind.gov_vote = true
is_sign_tx_kind SeiNodeTaskKind.gov_software_upgrade = true
is_sign_tx_kind SeiNodeTaskKind.gov_param_change = true
is_sign_tx_kind SeiNodeTaskKind.gov_update_instantiate_config = true
is_sign_tx_kind SeiNodeTaskKind.unjail = true
is_sign_tx_kind _ = false

-- the switch on the kind
abbrev pub with_tx : SeiNodeTaskKind → GovTxResult → SeiNodeTaskOutputs → SeiNodeTaskOutputs
with_tx SeiNodeTaskKind.gov_software_upgrade gr o = record o {
  gov_software_upgrade =
      some (record { tx_hash = gr.tx_hash; height = gr.height; proposal_id = gr.proposal_id });
}
with_tx SeiNodeTaskKind.gov_param_change gr o = record o {
  gov_param_change =
      some (record { tx_hash = gr.tx_hash; height = gr.height; proposal_id = gr.proposal_id });
}
with_tx SeiNodeTaskKind.gov_update_instantiate_config gr o = record o {
  gov_update_instantiate_config =
      some (record { tx_hash = gr.tx_hash; height = gr.height; proposal_id = gr.proposal_id });
}
with_tx SeiNodeTaskKind.gov_vote gr o = record o {
  gov_vote = some (record { tx_hash = gr.tx_hash; height = gr.height });
}
with_tx SeiNodeTaskKind.unjail gr o = record o {
  unjail = some (record { tx_hash = gr.tx_hash; height = gr.height });
}
with_tx _ gr o = o

abbrev pub with_outputs : SeiNodeTask → SeiNodeTaskOutputs → SeiNodeTask
with_outputs cr o = record cr { status = record (cr.status) { outputs = some o } }

unfoldable pub populate_tx_outputs : SeiNodeTask → Option GovTxResult → SeiNodeTask
populate_tx_outputs cr none = cr
populate_tx_outputs cr (some gr) =
    with_outputs cr (with_tx cr.spec.kind gr (outputs_or_new cr.status.outputs))

abbrev pub is_update_node_image : SeiNodeTaskKind → Bool
is_update_node_image SeiNodeTaskKind.update_node_image = true
is_update_node_image _ = false

unfoldable pub populate_outputs : SeiNodeTask → SeiNode → Option GovTxResult → SeiNodeTask
populate_outputs cr target gr =
    if is_update_node_image cr.spec.kind
    then with_outputs cr (record (outputs_or_new cr.status.outputs) {
      update_node_image = some target.current_image;
    })
    else if is_sign_tx_kind cr.spec.kind
    then populate_tx_outputs cr gr
    else cr

module _ {W E : Type 0} (rt : Runtime W E) where
  unfoldable pub decode_gov_result : E → W → Option GovTxResult
  decode_gov_result e w = elim (rt.raw_result e w) [
    | none ↦ none
    | some raw ↦ if str_eq raw "" then none else rt.unmarshal raw
  ]
