-- ===== src/TomlPatch.antt =====
-- The merge patches of documents: sidecarapi/tomlpatch/merge.go.
pub mod Merge
pub mod Lookup
mod Tests
