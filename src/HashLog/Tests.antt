-- ===== src/HashLog/Tests.antt =====
-- Rows of two nodes, and the theorems about them.
use sei_k8s_controller.Prelude.{if◌then◌else◌, none, ◌||◌, String, ◌≡◌, ◌↔◌, refl, [], ◌∷◌}
use sei_k8s_controller.Prelude.Dict.{lookup, insert}
use sei_k8s_controller.HashLog.Columns.{
  Hashes, base_comparable, comparable, missing_base, no_module_hashes, comparable_hashes,
  differing_columns, is_module_column,
}
use sei_k8s_controller.HashLog.Kept.{comparable_hashes-lookup}
use sei_k8s_controller.HashLog.SameColumns.{elem, differing_columns-nil}

abbrev base_row : Hashes
base_row = ("blockHash", "B") ∷ ("changeset", "C") ∷ ("resultHash", "R") ∷ []

abbrev memiavl_row : Hashes
memiavl_row = ("memIAVL/mod/bank", "1") ∷ ("memIAVL/mod/evm", "2") ∷ ("other", "3") ∷ base_row

abbrev flatkv_row : Hashes
flatkv_row = ("memIAVL/mod/evm", "9") ∷ ("memIAVL/mod/bank", "7") ∷ base_row

no_modules : comparable_hashes base_row ≡ no_module_hashes
unfolding comparable_hashes lookup is_module_column insert
no_modules = refl

no_base : comparable_hashes (("memIAVL/mod/bank", "1") ∷ []) ≡ missing_base
unfolding comparable_hashes lookup
no_base = refl

drops_evm :
    comparable_hashes memiavl_row
    ≡ comparable (
        ("memIAVL/mod/bank", "1")
        ∷ ("resultHash", "R")
        ∷ ("changeset", "C")
        ∷ ("blockHash", "B")
        ∷ [])
unfolding comparable_hashes lookup is_module_column insert
drops_evm = refl

differs :
    differing_columns memiavl_row flatkv_row ≡ "memIAVL/mod/bank" ∷ "memIAVL/mod/evm" ∷ "other" ∷ []
unfolding differing_columns lookup
differs = refl

differing_columns-nil_example :
    (differing_columns memiavl_row flatkv_row ≡ [])
    ↔ ((name : String) → lookup name memiavl_row ≡ lookup name flatkv_row)
differing_columns-nil_example = differing_columns-nil memiavl_row flatkv_row

abbrev kept_row : Hashes
kept_row =
    ("memIAVL/mod/bank", "1") ∷ ("resultHash", "R") ∷ ("changeset", "C") ∷ ("blockHash", "B") ∷ []

comparable_hashes-lookup_example : lookup "memIAVL/mod/evm" kept_row ≡ (
    if elem "memIAVL/mod/evm" base_comparable || is_module_column "memIAVL/mod/evm"
    then lookup "memIAVL/mod/evm" memiavl_row
    else none)
comparable_hashes-lookup_example =
    comparable_hashes-lookup memiavl_row kept_row "memIAVL/mod/evm" drops_evm
