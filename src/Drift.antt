-- ===== src/Drift.antt =====
-- The drift-roll budget (internal/planner/drift_budget.go) and the drift tests it stands on.
pub mod Node
pub mod Slot
pub mod Pin
pub mod Budget
pub mod Pinned
mod Tests
