-- ===== src/HashLog.antt =====
-- The hash-log comparator: internal/hashlogcompare/compare.go.
pub mod Columns
pub mod SameColumns
pub mod Kept
mod Tests
