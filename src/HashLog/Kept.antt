-- ===== src/HashLog/Kept.antt =====
-- What `ComparableHashes` keeps of a row (internal/hashlogcompare/compare.go:35-57).
use sei_k8s_controller.Prelude.{
  String, subst, ◌≡◌, refl, sym, ap, ◌∙◌, true, false, ◌&&◌, ◌||◌, Option, none, some, List, [],
  ◌∷◌, inl, inr, arith, Bool-cases, Option-cases, str_eq, eq_iff, if◌then◌else◌, length, ◌==◌,
}
use sei_k8s_controller.Prelude.Dict.{lookup, insert, lookup-insert}
use sei_k8s_controller.HashLog.Columns.{
  Hashes, HashesResult, comparable, missing_base, no_module_hashes, base_comparable,
  is_module_column, keys, copy_base, copy_modules, comparable_hashes,
}
use sei_k8s_controller.HashLog.SameColumns.{elem, elem-keys}

abbrev or_else : Option String → Option String → Option String
or_else (some v) o = some v
or_else none o = o

copy_base-lookup :
    (h : Hashes) (names : List String) (out kept : Hashes) (name : String)
    → copy_base h names out ≡ some kept
    → lookup name kept ≡ (if elem name names then lookup name h else lookup name out)
unfolding copy_base
copy_base-lookup h [] out kept name e = ap (lookup name) (ground (arith, e))
copy_base-lookup h (s ∷ names) out kept name e = elim (Option-cases (lookup s h)) [
  | inl n ↦ absurd (ground (arith, e, n))
  | inr (v, n) ↦
      let rest : copy_base h names (insert s v out) ≡ some kept = ground (arith, e, n) in
      let ih = copy_base-lookup h names (insert s v out) kept name rest in
      let ins = lookup-insert s name v out in
      elim (Bool-cases (str_eq s name)) [
        | inl q ↦
            let m : lookup name h ≡ some v =
              subst (λ x. lookup x h ≡ some v) ((eq_iff s name).0 q) n in
            ground (arith, ih, ins, q, m)
        | inr q ↦ ground (arith, ih, ins, q)
      ]
]

copy_modules-lookup :
    (h : Hashes) (names : List String) (out : Hashes) (name : String)
    → lookup name (copy_modules h names out) ≡ (
        if elem name names && is_module_column name
        then or_else (lookup name h) (lookup name out)
        else lookup name out)
unfolding copy_modules
copy_modules-lookup h [] out name = refl
copy_modules-lookup h (s ∷ names) out name = elim (Option-cases (lookup s h)) [
  | inl n ↦
      let ih = copy_modules-lookup h names out name in
      elim (Bool-cases (str_eq s name)) [
        | inl q ↦
            let m : lookup name h ≡ none = subst (λ x. lookup x h ≡ none) ((eq_iff s name).0 q) n in
            rw n (ground (arith, ih, q, m))
        | inr q ↦ rw n (ground (arith, ih, q))
      ]
  | inr (v, n) ↦ elim (Bool-cases (is_module_column s)) [
    | inl k ↦
        let ih = copy_modules-lookup h names (insert s v out) name in
        let ins = lookup-insert s name v out in
        elim (Bool-cases (str_eq s name)) [
          | inl q ↦
              let same = (eq_iff s name).0 q in
              let m : lookup name h ≡ some v = subst (λ x. lookup x h ≡ some v) same n in
              let c : is_module_column name ≡ true =
                subst (λ x. is_module_column x ≡ true) same k in
              rw (n, k) (ground (arith, ih, ins, q, m, c))
          | inr q ↦ rw (n, k) (ground (arith, ih, ins, q))
        ]
    | inr k ↦
        let ih = copy_modules-lookup h names out name in
        elim (Bool-cases (str_eq s name)) [
          | inl q ↦
              let c : is_module_column name ≡ false =
                subst (λ x. is_module_column x ≡ false) ((eq_iff s name).0 q) k in
              rw (n, k) (ground (arith, ih, q, c))
          | inr q ↦ rw (n, k) (ground (arith, ih, q))
        ]
  ]
]

-- the test at the end of `ComparableHashes`
abbrev checked : Hashes → HashesResult
checked all = if length all == length base_comparable then no_module_hashes else comparable all

checked-comparable : (all kept : Hashes) → checked all ≡ comparable kept → all ≡ kept
checked-comparable all kept e = elim (Bool-cases (length all == length base_comparable)) [
  | inl l ↦ absurd (ground (arith, e, l))
  | inr l ↦ ground (arith, e, l)
]

comparable_hashes-checked :
    (h kept : Hashes)
    → comparable_hashes h ≡ comparable kept
    → (out : Hashes) × (copy_base h base_comparable [] ≡ some out)
      × (copy_modules h (keys h) out ≡ kept)
unfolding comparable_hashes
comparable_hashes-checked h kept e = by_base (copy_base h base_comparable []) refl
  where
    by_base :
        (o : Option Hashes)
        → copy_base h base_comparable [] ≡ o
        → (out : Hashes) × (copy_base h base_comparable [] ≡ some out)
          × (copy_modules h (keys h) out ≡ kept)
    by_base none n = absurd (missing (rw (comparable_hashes, n) refl))
      where
        missing : comparable_hashes h ≡ missing_base → ⊥
        missing m = cc
    by_base (some out) n = (
      out,
      n,
      checked-comparable (copy_modules h (keys h) out) kept
          (sym (rw (comparable_hashes, n) refl) ∙ e),
    )

-- A comparable row holds under each name what the row holds there, if the name is a base column or
-- that of a memIAVL module other than EVM, and nothing under any other name.
pub comparable_hashes-lookup :
    (h kept : Hashes) (name : String)
    → comparable_hashes h ≡ comparable kept
    → lookup name kept
      ≡ (if elem name base_comparable || is_module_column name then lookup name h else none)
unfolding lookup
comparable_hashes-lookup h kept name e =
    let (out, n, m) = comparable_hashes-checked h kept e in
    let base = copy_base-lookup h base_comparable [] out name n in
    let modules = copy_modules-lookup h (keys h) out name in
    let all : lookup name kept ≡ lookup name (copy_modules h (keys h) out) =
      ap (lookup name) (sym m) in
    elim (Option-cases (lookup name h)) [
      | inl q ↦ ground (arith, base, modules, all, q)
      | inr (v, q) ↦ ground (arith, base, modules, all, q, elem-keys name v h q)
    ]
