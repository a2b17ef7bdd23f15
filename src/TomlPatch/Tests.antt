-- ===== src/TomlPatch/Tests.antt =====
-- A merge patch at work.
use sei_k8s_controller.Prelude.{◌≡◌, refl, some}
use sei_k8s_controller.TomlPatch.Merge.{
  Value, Table, null, scalar, table, end, entry, get, table_of, merge,
}
use sei_k8s_controller.TomlPatch.Lookup.{IsMap, merge-lookup}

abbrev document : Value
document = table (
    entry "moniker" (scalar "a")
      (entry "p2p" (table (entry "laddr" (scalar "b") (entry "seeds" (scalar "c") end))) end))

abbrev changes : Table
changes = entry "moniker" null (entry "p2p" (table (entry "seeds" null end)) end)

merged :
    merge document (table changes)
    ≡ table (entry "p2p" (table (entry "laddr" (scalar "b") end)) end)
unfolding merge
merged = refl

-- nil inside a table under a key that the document does not have stays
kept_nil :
    merge (table end) (table changes) ≡ table (entry "p2p" (table (entry "seeds" null end)) end)
unfolding merge
kept_nil = refl

changes-IsMap : IsMap changes
unfolding get
changes-IsMap = (refl, (refl, tt))

merge-lookup_example :
    get "p2p" (table_of (merge document (table changes)))
    ≡ some (table (entry "laddr" (scalar "b") end))
unfolding merge get
merge-lookup_example = merge-lookup document changes changes-IsMap "p2p"
