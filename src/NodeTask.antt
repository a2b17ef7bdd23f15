-- ===== src/NodeTask.antt =====
-- The SeiNodeTask reconciler (internal/controller/nodetask).
pub mod Types
pub mod Runtime
pub mod Outputs
pub mod Controller
pub mod Drive
pub mod Reconcile
pub mod Next
pub mod Lifecycle
pub mod Passes
pub mod Submission
pub mod Fatal
pub mod Expiry
pub mod TxHash
mod Tests
