-- ===== src/NodeTask/Tests.antt =====
-- Runs of the SeiNodeTask reconciler on a small runtime, and the theorems about it at concrete
-- objects.
use sei_k8s_controller.Prelude.{
  arith, inl, ℕ, ◌+◌, ◌≡◌, refl, String, true, false, none, some, [], ◌∷◌,
}
use sei_k8s_controller.Plan.Types.{TaskStatus, SeiNodePhase}
use sei_k8s_controller.Plan.Runtime.{ExecutionStatus, ok, transient, Deserialized}
use sei_k8s_controller.NodeTask.Types.{
  SeiNodeTaskKind, SeiNodeTaskPhase, SeiNodeTaskExecution, SeiNodeTaskStatus, SeiNodeTask, SeiNode,
  is_terminal, GovTxResult,
}
use sei_k8s_controller.NodeTask.Runtime.{Get, TaskParams, Runtime}
use sei_k8s_controller.NodeTask.Controller.{State, with_status, effective_timeout, exec_timed_out}
use sei_k8s_controller.NodeTask.Drive.{drive_task, handle_failure}
use sei_k8s_controller.NodeTask.Reconcile.{reconcile, fresh_task}
use sei_k8s_controller.NodeTask.Lifecycle.{NextTo, reconcile-Next}
use sei_k8s_controller.NodeTask.Passes.{Coherent, Reach, task_id_of, Reach-Coherent, Reach-terminal}
use sei_k8s_controller.NodeTask.Submission.{with_execute, reconcile_without_submission}
use sei_k8s_controller.NodeTask.Expiry.{drive_task-Ended}
use sei_k8s_controller.NodeTask.Outputs.{decode_gov_result}
use sei_k8s_controller.NodeTask.TxHash.{hash_shown, handle_failure-hash}
use sei_k8s_controller.NodeTask.Fatal.{target_read_error}

-- The world counts submissions and events; a submission succeeds and the task completes at once.
abbrev prompt : Runtime ℕ String
prompt = record {
  get_node = λ name namespace w.
      Get.found (record { phase = some SeiNodePhase.running; current_image = "v2" });
  patch_status = λ cr w. (none, w);
  same_status = λ a b. false;
  set_status_condition = λ cs c. c ∷ cs;
  event = λ reason msg w. w + 1;
  task_params = λ cr target. TaskParams.params "restart-seid" none;
  task_id = λ uid kind. uid;
  deserialize = λ type id payload w. Deserialized.task id;
  execute = λ e w. (ok, w + 1);
  status = λ e w. (ExecutionStatus.complete, w);
  err = λ e w. none;
  raw_result = λ e w. none;
  unmarshal = λ raw. none;
  target_missing = λ name namespace. "not found";
  target_late = λ name wanted timeout current. "late";
  target_met = λ name wanted. "met";
  target_waiting = λ name wanted current. "waiting";
  not_completed_within = λ timeout. "timeout";
}

-- the same, with a sidecar that cannot be reached
abbrev unreachable : Runtime ℕ String
unreachable = record prompt { execute = λ e w. (transient "connection refused", w) }

abbrev new_status : SeiNodeTaskStatus
new_status = record {
  observed_generation = 0;
  phase = SeiNodeTaskPhase.unset;
  task = none;
  outputs = none;
  phase_transition_time = none;
  started_at = none;
  target_first_observed_at = none;
  conditions = [];
}

abbrev new_task : SeiNodeTask
new_task = record {
  namespace = "sei";
  uid = "u1";
  generation = 1;
  spec = record {
    kind = SeiNodeTaskKind.restart_seid;
    target = record { node_name = "node-0"; require_phase = none; require_phase_timeout = none };
    timeout_seconds = 0;
  };
  status = new_status;
}

abbrev pending_execution : SeiNodeTaskExecution
pending_execution = fresh_task prompt 5 new_task

abbrev running_execution : SeiNodeTaskExecution
running_execution = record pending_execution { status = TaskStatus.running }

abbrev in_phase : SeiNodeTaskPhase → SeiNodeTaskExecution → SeiNodeTask
in_phase p t = with_status new_task (record new_status { phase = p; task = some t })

abbrev late : ℕ
late = 1000000000000

reconcile-Next_example :
    NextTo prompt 7
      (in_phase SeiNodeTaskPhase.running pending_execution)
      (reconcile prompt 7 (in_phase SeiNodeTaskPhase.running pending_execution) 0).state.cr
reconcile-Next_example =
    reconcile-Next prompt 7 (in_phase SeiNodeTaskPhase.running pending_execution) 0

abbrev once : SeiNodeTask
once = with_status new_task (reconcile prompt 5 new_task 0).state.cr.status

abbrev twice : SeiNodeTask
twice = with_status once (reconcile prompt 6 once 0).state.cr.status

Reach-Coherent_example : Coherent (task_id_of prompt twice) twice.status.phase twice.status.task
Reach-Coherent_example =
    Reach-Coherent prompt {from = new_task} refl refl (Reach.pass (Reach.pass Reach.start 5 0) 6 0)

abbrev done_task : SeiNodeTask
done_task =
    in_phase SeiNodeTaskPhase.complete (record pending_execution { status = TaskStatus.complete })

Reach-terminal_example :
    (with_status done_task (reconcile prompt 9 done_task 4).state.cr.status).status
    ≡ done_task.status
Reach-terminal_example = Reach-terminal prompt {from = done_task} refl (Reach.pass Reach.start 9 4)

reconcile_without_submission_example :
    reconcile
      (with_execute prompt 6 (λ e w. (transient "down", w + 100)))
      6
      (in_phase SeiNodeTaskPhase.running running_execution)
      0
    ≡ reconcile prompt 6 (in_phase SeiNodeTaskPhase.running running_execution) 0
reconcile_without_submission_example =
    reconcile_without_submission prompt 6 (λ e w. (transient "down", w + 100))
      (in_phase SeiNodeTaskPhase.running running_execution) 0 refl

abbrev stuck : State ℕ
stuck = record { cr = in_phase SeiNodeTaskPhase.running pending_execution; world = 0 }

abbrev running_node : SeiNode
running_node = record { phase = some SeiNodePhase.running; current_image = "v2" }

late_by_default : exec_timed_out (in_phase SeiNodeTaskPhase.running running_execution) late ≡ true
unfolding exec_timed_out
late_by_default = refl

-- a cache that cannot answer
abbrev unread : Runtime ℕ String
unread = record prompt { get_node = λ name namespace w. Get.error "timeout" }

target_read_error_example :
    (reconcile unread 5 new_task 0).state.cr.status.phase ≡ SeiNodeTaskPhase.failed
target_read_error_example = target_read_error unread 5 new_task 0 "timeout" refl refl

-- A sidecar on which the task never ends; the restart was anchored at 5 ns.
abbrev endless : Runtime ℕ String
endless = record prompt { status = λ e w. (ExecutionStatus.running, w) }

abbrev submitted_task : State ℕ
submitted_task = record { cr = in_phase SeiNodeTaskPhase.running running_execution; world = 0 }

restart_timeout : effective_timeout submitted_task.cr ≡ 600000000000
unfolding effective_timeout
restart_timeout = refl

drive_task-Ended_example :
    is_terminal
      (drive_task endless late submitted_task running_execution running_node).state.cr.status.phase
    ≡ true
drive_task-Ended_example =
    drive_task-Ended endless late submitted_task running_execution running_node "restart-seid" none
      "u1" 5 refl refl refl (omega (arith, restart_timeout)) (omega (arith, restart_timeout))
      (inl refl)

-- a vote whose tx was committed and failed
abbrev voted : GovTxResult
voted = record {
  tx_hash = "AB12";
  height = 7;
  proposal_id = 0;
  inclusion_status = "committed_failed";
}

abbrev rejected_vote : Runtime ℕ String
rejected_vote = record prompt { raw_result = λ e w. some "json"; unmarshal = λ raw. some voted }

abbrev vote_state : State ℕ
vote_state = record submitted_task {
  cr = record (submitted_task.cr) {
    spec = record (new_task.spec) { kind = SeiNodeTaskKind.gov_vote };
  };
}

handle_failure-hash_example :
    hash_shown SeiNodeTaskKind.gov_vote
      (handle_failure rejected_vote 9 vote_state running_execution "u1").cr
    ≡ some "AB12"
unfolding decode_gov_result
handle_failure-hash_example =
    handle_failure-hash rejected_vote 9 vote_state running_execution "u1" voted refl refl
