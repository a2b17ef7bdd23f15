-- ===== src/NodeTask/Controller.antt =====
-- internal/controller/nodetask/controller.go. A reconcile changes its copy of the object and
-- writes it once, at the end. Instants and durations are in nanoseconds; logs and metrics are
-- left out.
use sei_k8s_controller.Prelude.{
  ℕ, ◌+◌, ◌*◌, String, Bool, true, false, ◌&&◌, Option, none, some, ltb, if◌then◌else◌,
}
use sei_k8s_controller.Plan.Types.{TaskStatus, SeiNodePhase}
use sei_k8s_controller.Plan.Executor.{second}
use sei_k8s_controller.NodeTask.Types.{
  SeiNodeTaskKind, SeiNodeTaskPhase, SeiNodeTaskExecution, SeiNodeTaskStatus, SeiNodeTask, SeiNode,
}
use sei_k8s_controller.NodeTask.Runtime.{Get, Runtime}

abbrev pub status_poll_interval : ℕ
status_poll_interval = 15 * second

abbrev pub target_wait_interval : ℕ
target_wait_interval = 5 * second

abbrev pub default_require_phase_timeout : ℕ
default_require_phase_timeout = 300 * second

abbrev pub default_restart_seid_timeout : ℕ
default_restart_seid_timeout = 600 * second

abbrev pub default_mark_ready_timeout : ℕ
default_mark_ready_timeout = 120 * second

abbrev pub result_requeue_immediate : ℕ
result_requeue_immediate = 1000000

unfoldable pub effective_timeout : SeiNodeTask → ℕ
effective_timeout cr =
    if ltb 0 cr.spec.timeout_seconds
    then cr.spec.timeout_seconds * second
    else elim (cr.spec.kind) [
      | SeiNodeTaskKind.restart_seid ↦ default_restart_seid_timeout
      | SeiNodeTaskKind.mark_ready ↦ default_mark_ready_timeout
      | _ ↦ 0
    ]

abbrev pub started : Option SeiNodeTaskExecution → Option ℕ
started none = none
started (some t) = t.execution_started_at

unfoldable pub exec_timed_out : SeiNodeTask → ℕ → Bool
unfolding effective_timeout
exec_timed_out cr now = elim (started cr.status.task) [
  | none ↦ false
  | some start ↦ ltb 0 (effective_timeout cr) && ltb (start + effective_timeout cr) now
]

abbrev pub same_phase : SeiNodeTaskPhase → SeiNodeTaskPhase → Bool
same_phase SeiNodeTaskPhase.unset SeiNodeTaskPhase.unset = true
same_phase SeiNodeTaskPhase.pending SeiNodeTaskPhase.pending = true
same_phase SeiNodeTaskPhase.running SeiNodeTaskPhase.running = true
same_phase SeiNodeTaskPhase.complete SeiNodeTaskPhase.complete = true
same_phase SeiNodeTaskPhase.failed SeiNodeTaskPhase.failed = true
same_phase _ _ = false

abbrev pub with_status : SeiNodeTask → SeiNodeTaskStatus → SeiNodeTask
with_status cr st = record cr { status = st }

abbrev pub with_task : SeiNodeTask → SeiNodeTaskExecution → SeiNodeTask
with_task cr t = with_status cr (record (cr.status) { task = some t })

unfoldable pub set_phase : SeiNodeTask → SeiNodeTaskPhase → ℕ → SeiNodeTask
set_phase cr p now =
    if same_phase cr.status.phase p
    then cr
    else with_status cr (record (cr.status) { phase = p; phase_transition_time = some now })

-- The object in memory and the world around it.
pub record State (W : Type 0) : Type 0 where
  pub cr : SeiNodeTask
  pub world : W

-- The three outcomes of `resolveTarget`.
pub data Resolved (W : Type 0) : Type 0 where
  ready : SeiNode → State W → Resolved W
  waiting : State W → Resolved W
  fatal : String → State W → Resolved W

abbrev pub or_running : Option SeiNodePhase → SeiNodePhase
or_running none = SeiNodePhase.running
or_running (some p) = p

abbrev pub or_default : Option ℕ → ℕ → ℕ
or_default none d = d
or_default (some t) d = t

abbrev pub is_phase : Option SeiNodePhase → SeiNodePhase → Bool
is_phase (some SeiNodePhase.pending) SeiNodePhase.pending = true
is_phase (some SeiNodePhase.initializing) SeiNodePhase.initializing = true
is_phase (some SeiNodePhase.running) SeiNodePhase.running = true
is_phase (some SeiNodePhase.failed) SeiNodePhase.failed = true
is_phase (some SeiNodePhase.terminating) SeiNodePhase.terminating = true
is_phase _ _ = false

module _ {W E : Type 0} (rt : Runtime W E) where
  unfoldable pub set_condition : SeiNodeTask → String → Bool → String → String → SeiNodeTask
  set_condition cr type status reason msg = with_status cr (record (cr.status) {
    conditions = rt.set_status_condition cr.status.conditions (record {
      type = type;
      status = status;
      observed_generation = cr.generation;
      reason = reason;
      message = msg;
    });
  })

  unfoldable pub mark_failed : ℕ → String → String → State W → State W
  unfolding set_phase set_condition
  mark_failed now reason msg s = record {
    cr = set_condition (set_phase s.cr SeiNodeTaskPhase.failed now) "Failed" true reason msg;
    world = rt.event reason msg s.world;
  }

  -- the task's own failure, written before `markFailed`
  abbrev pub task_failed : SeiNodeTaskExecution → String → SeiNodeTaskExecution
  task_failed t msg = record t { status = TaskStatus.failed; err = msg }

  unfoldable pub resolve_target : ℕ → State W → Resolved W
  unfolding set_condition
  resolve_target now s =
      let cr = s.cr in
      let name = cr.spec.target.node_name in
      let wanted = or_running cr.spec.target.require_phase in
      elim (rt.get_node name cr.namespace s.world) [
        | Get.not_found ↦ fatal (rt.target_missing name cr.namespace) s
        | Get.error msg ↦ fatal msg s
        | Get.found target ↦
            if is_phase target.phase wanted
            then ready target (record s {
              cr =
                  set_condition
                    (with_status cr (record (cr.status) { target_first_observed_at = none }))
                    "TargetReady" true "PhaseMet" (rt.target_met name wanted);
            })
            else let first = or_default cr.status.target_first_observed_at now in
              let seen =
                with_status cr (record (cr.status) { target_first_observed_at = some first }) in
              let timeout =
                or_default cr.spec.target.require_phase_timeout default_require_phase_timeout in
              if ltb (first + timeout) now
              then fatal (rt.target_late name wanted timeout target.phase) (record s { cr = seen })
              else waiting (record s {
                cr =
                    set_condition seen "TargetReady" false "PhaseNotMet"
                      (rt.target_waiting name wanted target.phase);
              })
      ]
