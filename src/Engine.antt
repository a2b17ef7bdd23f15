-- ===== src/Engine.antt =====
-- The sidecar's task engine: sidecar/engine/engine.go over the table of sidecar/engine/sqlite_store.go.
pub mod Types
pub mod Store
pub mod StoreLaws
pub mod Core
pub mod Rehydrate
pub mod Lifecycle
pub mod HoldFirst
pub mod Order
pub mod Registry
pub mod Steps
pub mod NoLeak
pub mod Alone
pub mod Entries
pub mod Stoppable
pub mod Deletes
mod Tests
