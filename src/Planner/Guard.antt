-- ===== src/Planner/Guard.antt =====
-- The start guard (internal/task/start_guard.go): a mark-ready or start-seid-once task is refused
-- while the node must not start.
use sei_k8s_controller.Prelude.{String, ◌&&◌, Option, none, some, str_eq, if◌then◌else◌}
use sei_k8s_controller.Plan.Runtime.{ExecuteResult, terminal, Deserialized, Runtime}
use sei_k8s_controller.Node.{SeiNode, MaintenanceHold, is_held, is_running, same_hold}
use sei_k8s_controller.Drift.Node.{data_reset_pending}
use sei_k8s_controller.Planner.TaskTypes as T

-- why a start is refused; the texts are a function of it
pub data StartBlock : Type 0 where
  reset_pending hold_set not_after_exit : StartBlock

unfoldable pub start_blocked : SeiNode → Option StartBlock
unfolding data_reset_pending
start_blocked node =
    if data_reset_pending node
    then some StartBlock.reset_pending
    else if is_held node.hold_requested && is_running node.phase
    then some StartBlock.hold_set
    else none

unfoldable pub start_once_blocked : SeiNode → Option StartBlock
unfolding data_reset_pending
start_once_blocked node =
    if data_reset_pending node
    then some StartBlock.reset_pending
    else if same_hold node.hold_requested MaintenanceHold.after_exit
    then none
    else some StartBlock.not_after_exit

-- the guard of a task type; the tasks of other types have none
unfoldable pub block_of : String → SeiNode → Option StartBlock
unfolding start_blocked start_once_blocked
block_of type node =
    if str_eq type T.mark_ready
    then start_blocked node
    else if str_eq type T.start_seid_once
    then start_once_blocked node
    else none

-- startGuardedExecution. The error it keeps for Status and Err is the one Execute returned as
-- terminal, after which the executor asks for neither: it is not a field here.
pub record Guarded (E : Type 0) : Type 0 where
  pub execution : E
  pub task_type : String

-- `node_of` is cfg.Resource where it is a SeiNode, and `message` the text of a refusal.
module _ {W E : Type 0} (node_of : W → Option SeiNode) (message : StartBlock → String)
    (rt : Runtime W E) where
  abbrev pub wrapped : String → Deserialized E → Deserialized (Guarded E)
  wrapped type (Deserialized.task e) =
      Deserialized.task (record { execution = e; task_type = type })
  wrapped type (Deserialized.error m) = Deserialized.error m

  -- the reason of the guard, on a node or on another resource
  abbrev pub reason_on : String → Option SeiNode → Option StartBlock
  reason_on type none = none
  reason_on type (some node) = block_of type node

  abbrev pub refused_or : Option StartBlock → E → W → ExecuteResult × W
  refused_or (some b) e w = (terminal (message b), w)
  refused_or none e w = rt.execute e w

  unfoldable pub guarded : Runtime W (Guarded E)
  unfolding block_of
  guarded = record {
    deserialize = λ type id params w. wrapped type (rt.deserialize type id params w);
    execute = λ g w. refused_or (reason_on g.task_type (node_of w)) g.execution w;
    status = λ g w. rt.status g.execution w;
    err = λ g w. rt.err g.execution w;
    now = rt.now;
  }
