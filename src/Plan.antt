-- ===== src/Plan.antt =====
-- The task plan of a reconciled object and its executor: api/v1alpha1/seinode_types.go (the data)
-- and internal/planner/executor.go (the operations).
pub mod Types
pub mod Runtime
pub mod Executor
pub mod Effect
pub mod Tasks
pub mod Loop
pub mod Backoff
pub mod Outcome
pub mod Order
pub mod Failure
pub mod Liveness
mod Tests
