-- ===== src/NodeTask/TxHash.antt =====
-- The transaction hash in the outputs of a sign-tx kind
-- (internal/controller/nodetask/govoutputs.go:48-80, controller.go:317-355).
use sei_k8s_controller.Prelude.{
  ℕ, String, ◌≡◌, refl, ap, ◌∙◌, true, Option, none, some, inl, inr, Bool-cases, if_elim, str_eq,
}
use sei_k8s_controller.NodeTask.Types.{
  SeiNodeTaskKind, SeiNodeTaskPhase, SeiNodeTaskExecution, SeiNodeTaskOutputs, SeiNodeTask,
  GovTxResult, ProposalOutputs, TxOutputs, inclusion_pending, inclusion_committed_failed,
}
use sei_k8s_controller.NodeTask.Runtime.{Runtime}
use sei_k8s_controller.NodeTask.Outputs.{
  is_sign_tx_kind, with_tx, outputs_or_new, populate_tx_outputs, decode_gov_result,
}
use sei_k8s_controller.NodeTask.Controller.{
  State, with_task, set_phase, set_condition, mark_failed, task_failed, same_phase, exec_timed_out,
}
use sei_k8s_controller.NodeTask.Drive.{text_or_empty, latch, on_gov_failure, handle_failure}

abbrev proposal_hash : Option ProposalOutputs → Option String
proposal_hash none = none
proposal_hash (some o) = some o.tx_hash

abbrev plain_hash : Option TxOutputs → Option String
plain_hash none = none
plain_hash (some o) = some o.tx_hash

-- the hash in the field of the outputs that belongs to the kind
abbrev pub hash_in : SeiNodeTaskKind → SeiNodeTaskOutputs → Option String
hash_in SeiNodeTaskKind.gov_software_upgrade o = proposal_hash o.gov_software_upgrade
hash_in SeiNodeTaskKind.gov_param_change o = proposal_hash o.gov_param_change
hash_in SeiNodeTaskKind.gov_update_instantiate_config o =
    proposal_hash o.gov_update_instantiate_config
hash_in SeiNodeTaskKind.gov_vote o = plain_hash o.gov_vote
hash_in SeiNodeTaskKind.unjail o = plain_hash o.unjail
hash_in _ o = none

abbrev pub hash_shown : SeiNodeTaskKind → SeiNodeTask → Option String
hash_shown kind cr = hash_in kind (outputs_or_new cr.status.outputs)

with_tx-hash :
    (kind : SeiNodeTaskKind) (gr : GovTxResult) (o : SeiNodeTaskOutputs)
    → is_sign_tx_kind kind ≡ true
    → hash_in kind (with_tx kind gr o) ≡ some gr.tx_hash
with_tx-hash SeiNodeTaskKind.gov_software_upgrade gr o h = refl
with_tx-hash SeiNodeTaskKind.gov_vote gr o h = refl
with_tx-hash SeiNodeTaskKind.gov_param_change gr o h = refl
with_tx-hash SeiNodeTaskKind.gov_update_instantiate_config gr o h = refl
with_tx-hash SeiNodeTaskKind.await_condition gr o h = cc
with_tx-hash SeiNodeTaskKind.update_node_image gr o h = cc
with_tx-hash SeiNodeTaskKind.await_nodes_at_height gr o h = cc
with_tx-hash SeiNodeTaskKind.restart_seid gr o h = cc
with_tx-hash SeiNodeTaskKind.mark_ready gr o h = cc
with_tx-hash SeiNodeTaskKind.unjail gr o h = refl
with_tx-hash (SeiNodeTaskKind.other x) gr o h = cc

set_phase-outputs :
    (cr : SeiNodeTask) (p : SeiNodeTaskPhase) (now : ℕ)
    → (set_phase cr p now).status.outputs ≡ cr.status.outputs
unfolding set_phase
set_phase-outputs cr p now = elim (Bool-cases (same_phase cr.status.phase p)) [
  | inl h ↦ rw h refl
  | inr h ↦ rw h refl
]

module _ {W E : Type 0} (rt : Runtime W E) (now : ℕ) where
  latch-outputs :
      (s : State W) (t : SeiNodeTaskExecution) (reason msg : String)
      → (latch rt now s t reason msg).cr.status.outputs ≡ s.cr.status.outputs
  unfolding latch mark_failed set_condition
  latch-outputs s t reason msg =
      set_phase-outputs (with_task s.cr (task_failed rt t msg)) SeiNodeTaskPhase.failed now

  on_gov_failure-outputs :
      (s : State W) (t : SeiNodeTaskExecution) (gr : GovTxResult) (msg : String)
      → (on_gov_failure rt now s t gr msg).cr.status.outputs
        ≡ (populate_tx_outputs s.cr (some gr)).status.outputs
  unfolding on_gov_failure
  on_gov_failure-outputs s t gr msg =
      let shown = record s { cr = populate_tx_outputs s.cr (some gr) } in
      let Q : State W → Type 0 = λ r. r.cr.status.outputs ≡ shown.cr.status.outputs in
      if_elim Q (str_eq gr.inclusion_status inclusion_pending)
        (if_elim Q (exec_timed_out shown.cr now) (latch-outputs shown t "InclusionUndetermined" msg)
          refl)
        (if_elim Q (str_eq gr.inclusion_status inclusion_committed_failed)
          (latch-outputs shown t "TxFailed" msg) (latch-outputs shown t "TaskFailed" msg))

  -- When the execution of a sign-tx kind failed and its result can be decoded, the outputs show the
  -- transaction hash of the result, whatever the inclusion status and whether or not the task fails.
  pub handle_failure-hash :
      (s : State W) (t : SeiNodeTaskExecution) (e : E) (gr : GovTxResult)
      → is_sign_tx_kind s.cr.spec.kind ≡ true
      → decode_gov_result rt e s.world ≡ some gr
      → hash_shown s.cr.spec.kind (handle_failure rt now s t e).cr ≡ some gr.tx_hash
  unfolding handle_failure populate_tx_outputs
  handle_failure-hash s t e gr k d =
      let msg = text_or_empty (rt.err e s.world) in
      rw (handle_failure, d)
        (ap (λ o. hash_in s.cr.spec.kind (outputs_or_new o)) (on_gov_failure-outputs s t gr msg)
          ∙ with_tx-hash s.cr.spec.kind gr (outputs_or_new s.cr.status.outputs) k)
