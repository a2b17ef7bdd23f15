-- ===== src/Lib.antt =====
-- A model of sei-k8s-controller, the Kubernetes operator for Sei nodes, and of the sidecar that
-- runs beside each node.
--
-- The parts and how they interact. A SeiNode carries a plan, a list of tasks in its status. The
-- planner (internal/planner/planner.go) decides at each reconcile which plan comes next. The
-- executor (internal/planner/executor.go) drives the plan one reconcile at a time: it submits the
-- first task that is not complete and polls it. Most tasks are submitted to the sidecar, whose
-- engine (sidecar/engine/engine.go) runs each in a goroutine and records it in a result store, so
-- that a restart can resume what was running. A SeiNodeTask is a single task without a plan, driven
-- by a reconciler of its own (internal/controller/nodetask). When pod templates drift, the drift
-- budget (internal/planner/drift_budget.go) says which nodes of a namespace may roll now. The
-- hash-log comparator (internal/hashlogcompare/compare.go) compares rows of two nodes. The merge
-- patch (sidecarapi/tomlpatch/merge.go) is how the sidecar changes configuration files.
--
-- Module Prelude: names of the libraries, tests on numbers, lists, Go maps as association lists.
--
-- Module Plan: api/v1alpha1/seinode_types.go (Types), internal/task/task.go (Runtime) and
-- internal/planner/executor.go (Executor: ExecutePlan is execute_plan, advanceTask advance_task,
-- failTask fail_task, the loop of executePlan run). The state is the owner, its plan and a world
-- that tasks act on; deserialize, Execute, Status, Err and the clock are a Runtime that every
-- definition takes. The loop of executePlan is on fuel, one more than the number of tasks: each
-- turn that continues completes a task. The other modules are about a pass: Effect, Tasks, Loop,
-- Outcome, Order, Failure, Liveness and Backoff.
--
-- Module Engine: sidecar/engine/types.go (Types), sidecar/engine/sqlite_store.go (Store, with
-- Store/Time for the RFC3339Nano text that rows are ordered by), sidecar/engine/engine.go (Core:
-- Submit is submit, the whole of runTask is finish; Rehydrate: RehydrateStaleTasks) and
-- sidecar/tasks/mark_not_ready.go (handler_effect). The registry of cancel functions is an
-- association list from task ids to run generations, and goroutines are a list of runs. submit and
-- finish are what one thread does by itself. Concurrency is in Steps, whose relation Step has what
-- the threads do between other threads' steps: the handler's return, the flip of readiness, the
-- check of the context, the save, clearCancel; RemoveResult's two critical sections and the
-- statement between them; the read, the save and the spawn of a Submit that holds the mutex, with
-- which only steps that need no mutex interleave. A step of the store is one statement. That a row
-- was found, which RemoveResult also answers, is left out. Alone relates submit and finish to the
-- steps; NoLeak and Stoppable are about the registry over every interleaving (Registry and Entries
-- lead to them), Deletes about a DELETE beside the run that it stops; StoreLaws, Lifecycle,
-- HoldFirst and Order are about the operations by themselves.
--
-- Module NodeTask: api/v1alpha1/seinodetask_types.go (Types), internal/controller/nodetask/controller.go
-- (Controller, Drive, Reconcile) and internal/controller/nodetask/govoutputs.go (Outputs). The API
-- server, the conditions helper, the task package and fmt's texts are the Runtime of
-- NodeTask/Runtime. Reconcile is reconcile, resolveTarget resolve_target, driveTask drive_task;
-- Next, Lifecycle and Passes are about the phases, Submission about Execute, Expiry about the
-- timeout, Fatal about reads that fail, TxHash about the outputs of transactions.
--
-- Module Node: the fields of a SeiNode that planning reads and writes (api/v1alpha1), and its
-- conditions.
--
-- Module Planner: ResolvePlan of internal/planner/planner.go is resolve_plan (Resolve), on a node
-- value in place of the shared object; the gates, the probe, the end of a plan and the guards are
-- functions of the same names. Params has the params of each task type, Tasks the tasks and their
-- numbering, Config the overlay of configValues (config_overlay.go:62-99) and the tasks that write
-- mounted files, Progression the init plans, Hold maintenance.go, Reset data_reset.go, Update the
-- plans of running nodes, Validate and Modes the mode planners, Static static_config.go. A builder
-- returns the node, whose conditions it may have written, with a plan, none or an error. What
-- plans are made with is a Library: task ids, JSON, sei-config, the hash of configValues and the
-- merge patch, and the up-check of a node. One instant stands for the clock of a reconcile. Avoids,
-- Made, Builders, ModeProgs, ModePlans, Edits, StaticTypes, StaticPlans, StaticReset, StaticRunning, Touched
-- and Stored lead to the theorems of Safety and Paced; Settle is about holds. Guard is
-- internal/task/start_guard.go: a Runtime of the executor, with mark-ready and start-seid-once
-- guarded, on a sidecar task that is a parameter. Deferral is about starts it refuses.
--
-- Module Drift: the drift tests of internal/planner/planner.go (Node), DriftSlot (Slot), pinnedToRunning
-- and DriftRenderNode (Pin) of internal/planner/drift_budget.go; Budget and Pinned are about them.
--
-- Module HashLog: ComparableHashes and differingColumns (Columns; SameColumns and Kept are about them).
--
-- Module TomlPatch: Merge of sidecarapi/tomlpatch/merge.go (Merge), with Go's maps as tables and the
-- loop over the patch in the order of its entries; Lookup is about it.
--
-- Numbers. Instants and durations are natural numbers of nanoseconds; Go's int counters are
-- natural numbers, since none of them is negative where it is used. Times are kept exact: the
-- truncation of metav1.Time to seconds in stored objects is not modelled.
--
-- Not modelled: the plans of SeiNetworks and workflows, the hash and merge patch of configValues,
-- the texts of conditions, the SeiNode and SeiNetwork controllers, the rendering of Kubernetes
-- objects, the tasks' own work, the sidecar's HTTP server, the SDK, logs and metrics; code that is
-- not in the repository (Kubernetes, SQLite, JSON, fmt) is a parameter.
pub mod Prelude
pub mod Plan
pub mod Engine
pub mod HashLog
pub mod TomlPatch
pub mod NodeTask
pub mod Node
pub mod Drift
pub mod Planner
