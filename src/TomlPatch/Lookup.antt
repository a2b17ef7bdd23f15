-- ===== src/TomlPatch/Lookup.antt =====
-- What a key holds after a merge patch (sidecarapi/tomlpatch/merge.go).
use sei_k8s_controller.Prelude.{
  String, ◌≡◌, refl, sym, ap, ◌∙◌, Option, none, some, inl, inr, arith, Bool-cases, Option-cases,
  str_eq, eq_iff, if◌then◌else◌,
}
use sei_k8s_controller.TomlPatch.Merge.{
  Value, Table, null, scalar, table, end, entry, get, remove, put, table_of, merge, merge_into,
  merge_at,
}

-- no key of a table comes twice, as in a Go map
abbrev pub IsMap : Table → Type 0
IsMap end = Unit
IsMap (entry key val t) = (get key t ≡ none) × IsMap t

-- What a key holds after the patch, from what it holds in the document and in the patch: one that
-- the patch does not name stays, nil deletes, and another value is merged into what is there.
abbrev pub patched : Option Value → Option Value → Option Value
patched original none = original
patched original (some null) = none
patched none (some (scalar s)) = some (scalar s)
patched none (some (table t)) = some (table t)
patched (some o) (some (scalar s)) = some (merge o (scalar s))
patched (some o) (some (table t)) = some (merge o (table t))

get-remove :
    (key other : String) (t : Table)
    → get other (remove key t) ≡ (if str_eq key other then none else get other t)
unfolding remove get
get-remove key other end = ground arith
get-remove key other (entry name val t) =
    ground (arith, eq_iff name other, eq_iff key other, eq_iff name key, get-remove key other t)

get-put :
    (key other : String) (val : Value) (t : Table)
    → get other (put key val t) ≡ (if str_eq key other then some val else get other t)
unfolding put get
get-put key other val t = ground (arith, get-remove key other t)

get-merge_at :
    (r : Table) (key other : String) (val : Value)
    → get other (merge_at (λ o. merge o val) r key val)
      ≡ (if str_eq key other then patched (get key r) (some val) else get other r)
unfolding merge_at
get-merge_at r key other null = get-remove key other r
get-merge_at r key other (scalar s) = elim (Option-cases (get key r)) [
  | inl e ↦ rw e (get-put key other (scalar s) r)
  | inr (o, e) ↦ rw e (get-put key other (merge o (scalar s)) r)
]
get-merge_at r key other (table t) = elim (Option-cases (get key r)) [
  | inl e ↦ rw e (get-put key other (table t) r)
  | inr (o, e) ↦ rw e (get-put key other (merge o (table t)) r)
]

get-merge_into :
    (r p : Table)
    → IsMap p
    → (key : String) → get key (merge_into r p) ≡ patched (get key r) (get key p)
unfolding merge_into get
get-merge_into r end m key = refl
get-merge_into r (entry name val p) (fresh, m) key =
    let turn = merge_at (λ o. merge o val) r name val in
    let ih = get-merge_into turn p m key in
    let step = get-merge_at r name key val in
    elim (Bool-cases (str_eq name key)) [
      | inl q ↦
          let same : name ≡ key = (eq_iff name key).0 q in
          let gone : get key p ≡ none = ap (λ k. get k p) (sym same) ∙ fresh in
          let here : get key turn ≡ patched (get name r) (some val) = ground (arith, step, q) in
          rw q (
            ih
            ∙ ap (patched (get key turn)) gone
            ∙ here
            ∙ ap (λ k. patched (get k r) (some val)) same)
      | inr q ↦
          let elsewhere : get key turn ≡ get key r = ground (arith, step, q) in
          rw q (ih ∙ ap (λ o. patched o (get key p)) elsewhere)
    ]

-- After a patch that is a map in which no key comes twice, every key holds what it held before
-- where the patch does not name it, nothing where the patch holds nil, the patch's value where the
-- document had none, and else the merge of the two; a document that is no map has no keys.
pub merge-lookup :
    (original : Value) (patch : Table)
    → IsMap patch
    → (key : String)
    → get key (table_of (merge original (table patch)))
      ≡ patched (get key (table_of original)) (get key patch)
unfolding merge
merge-lookup original patch m key = get-merge_into (table_of original) patch m key
