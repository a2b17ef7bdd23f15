-- ===== src/Planner.antt =====
-- The planner of SeiNodes (internal/planner): which plan a node gets next.
pub mod TaskTypes
pub mod Params
pub mod Tasks
pub mod Config
pub mod Progression
pub mod Hold
pub mod Reset
pub mod Update
pub mod Validate
pub mod Modes
pub mod Static
pub mod Resolve
pub mod Avoids
pub mod Made
pub mod Builders
pub mod ModeProgs
pub mod ModePlans
pub mod Edits
pub mod StaticTypes
pub mod StaticPlans
pub mod StaticReset
pub mod StaticRunning
pub mod Touched
pub mod Stored
pub mod Safety
pub mod Paced
pub mod Settle
pub mod Guard
pub mod Deferral
mod Tests
