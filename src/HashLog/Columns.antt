-- ===== src/HashLog/Columns.antt =====
-- The columns of a row: `ComparableHashes` and `differingColumns`
-- (internal/hashlogcompare/compare.go). Go's error values are a data type; a map that is ranged
-- over is its list of keys, in an unspecified order.
use text.Mathlib.Text.{starts_with}
use Prim.Native.Nat.{Ordering}
use Prim.Native.String.{compare}
use sei_k8s_controller.Prelude.{
  String, Bool, true, false, not, ◌&&◌, Option, none, some, List, [], ◌∷◌, ◌++◌, str_eq,
  if◌then◌else◌, length, ◌==◌,
}
use sei_k8s_controller.Prelude.Dict.{Dict, lookup, insert}

abbrev pub Hashes : Type 0
Hashes = Dict String

abbrev pub base_comparable : List String
base_comparable = "blockHash" ∷ "changeset" ∷ "resultHash" ∷ []

abbrev pub mem_iavl_module_prefix : String
mem_iavl_module_prefix = "memIAVL/mod/"

abbrev pub mem_iavl_evm_column : String
mem_iavl_evm_column = "memIAVL/mod/evm"

pub data HashesResult : Type 0 where
  comparable : Hashes → HashesResult
  missing_base no_module_hashes : HashesResult

unfoldable pub keys : Hashes → List String
keys [] = []
keys ((k, v) ∷ m) = k ∷ keys m

unfoldable pub is_module_column : String → Bool
is_module_column name =
    starts_with name mem_iavl_module_prefix && not (str_eq name mem_iavl_evm_column)

-- the first loop, over the base columns
unfoldable pub copy_base : Hashes → List String → Hashes → Option Hashes
copy_base hashes [] out = some out
copy_base hashes (name ∷ names) out = elim (lookup name hashes) [
  | none ↦ none
  | some v ↦ copy_base hashes names (insert name v out)
]

-- the second loop, over the row
unfoldable pub copy_modules : Hashes → List String → Hashes → Hashes
copy_modules hashes [] out = out
copy_modules hashes (name ∷ names) out = copy_modules hashes names (elim (lookup name hashes) [
  | none ↦ out
  | some v ↦ if is_module_column name then insert name v out else out
])

unfoldable pub comparable_hashes : Hashes → HashesResult
unfolding keys copy_base copy_modules
comparable_hashes hashes = elim (copy_base hashes base_comparable []) [
  | none ↦ missing_base
  | some out ↦
      let all = copy_modules hashes (keys hashes) out in
      if length all == length base_comparable then no_module_hashes else comparable all
]

abbrev pub same_value : Option String → Option String → Bool
same_value none none = true
same_value none (some w) = false
same_value (some v) none = false
same_value (some v) (some w) = str_eq v w

-- the loop over `a`: a key that `b` lacks or has another value for
unfoldable pub differing_in : Hashes → Hashes → List String → List String
differing_in a b [] = []
differing_in a b (name ∷ names) =
    let rest = differing_in a b names in
    if same_value (lookup name a) (lookup name b) then rest else name ∷ rest

-- the loop over `b`: a key that `a` lacks
unfoldable pub missing_in : Hashes → List String → List String
missing_in a [] = []
missing_in a (name ∷ names) =
    let rest = missing_in a names in elim (lookup name a) [ none ↦ name ∷ rest | some v ↦ rest ]

-- slices.Sort
unfoldable pub insert_sorted : String → List String → List String
insert_sorted s [] = s ∷ []
insert_sorted s (t ∷ ts) = elim (compare s t) [
  | Ordering.gt ↦ t ∷ insert_sorted s ts
  | _ ↦ s ∷ t ∷ ts
]

unfoldable pub sort : List String → List String
unfolding insert_sorted
sort [] = []
sort (s ∷ ss) = insert_sorted s (sort ss)

unfoldable pub differing_columns : Hashes → Hashes → List String
unfolding keys differing_in missing_in sort
differing_columns a b = sort (differing_in a b (keys a) ++ missing_in a (keys b))
