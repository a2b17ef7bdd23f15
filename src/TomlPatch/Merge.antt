-- ===== src/TomlPatch/Merge.antt =====
-- `Merge` (sidecarapi/tomlpatch/merge.go).
use sei_k8s_controller.Prelude.{
  String, Bool, true, false, Option, none, some, str_eq, if◌then◌else◌,
}

-- The values of a document: nil, a map, or any other value, by its text.
mutual
  pub data Value : Type 0 where
    null : Value
    scalar : String → Value
    table : Table → Value

  pub data Table : Type 0 where
    end : Table
    entry : String → Value → Table → Table

abbrev pub is_null : Value → Bool
is_null null = true
is_null (scalar s) = false
is_null (table t) = false

unfoldable pub get : String → Table → Option Value
get key end = none
get key (entry name val t) = if str_eq name key then some val else get key t

unfoldable pub remove : String → Table → Table
remove key end = end
remove key (entry name val t) =
    let rest = remove key t in if str_eq name key then rest else entry name val rest

unfoldable pub put : String → Value → Table → Table
unfolding remove
put key val t = entry key val (remove key t)

-- the map of a value; a value that is none counts as an empty map
abbrev pub table_of : Value → Table
table_of null = end
table_of (scalar s) = end
table_of (table t) = t

-- one turn of the loop over the patch; the recursive call comes as an argument
unfoldable pub merge_at : (Value → Value) → Table → String → Value → Table
unfolding get remove put
merge_at merge_patch_at result key patch_at =
    if is_null patch_at then remove key result else elim (get key result) [
      | none ↦ put key patch_at result
      | some original_at ↦ put key (merge_patch_at original_at) result
    ]

unfoldable mutual
  unfolding merge_at

  pub merge : Value → Value → Value
  merge original null = null
  merge original (scalar s) = scalar s
  merge original (table patch) = table (merge_into (table_of original) patch)

  -- the loop over the patch, in the order of its entries
  pub merge_into : Table → Table → Table
  merge_into result end = result
  merge_into result (entry key patch_at patch) =
      merge_into (merge_at (λ o. merge o patch_at) result key patch_at) patch
