-- ===== src/HashLog/SameColumns.antt =====
-- What `ComparableHashes` keeps and when `differingColumns` is empty
-- (internal/hashlogcompare/compare.go:35-57, 152-166).
use sei_k8s_controller.Prelude.{
  String, ◌≡◌, ◌≢◌, ◌↔◌, inl, inr, refl, sym, ap, ◌∙◌, subst, Bool, true, false, ◌||◌, Option, none,
  some, List, [], ◌∷◌, ◌++◌, arith, Bool-cases, Option-cases, str_eq, eq_iff, eq_refl,
}
use sei_k8s_controller.Prelude.Dict.{lookup}
use sei_k8s_controller.HashLog.Columns.{
  Hashes, keys, same_value, differing_in, missing_in, insert_sorted, sort, differing_columns,
}

abbrev pub elem : String → List String → Bool
elem name [] = false
elem name (s ∷ ss) = str_eq s name || elem name ss

pub elem-keys : (name v : String) (m : Hashes) → lookup name m ≡ some v → elem name (keys m) ≡ true
unfolding keys lookup
elem-keys name v [] h = cc
elem-keys name v ((k, w) ∷ m) h = ground (arith, elem-keys name v m)

same_value-eq : (o p : Option String) → same_value o p ≡ true → o ≡ p
same_value-eq none none h = refl
same_value-eq none (some w) h = cc
same_value-eq (some v) none h = cc
same_value-eq (some v) (some w) h = ap some ((eq_iff v w).0 h)

same_value_refl : (o : Option String) → same_value o o ≡ true
same_value_refl none = refl
same_value_refl (some v) = eq_refl v

sort-nil : (l : List String) → sort l ≡ [] → l ≡ []
unfolding sort
sort-nil [] h = refl
sort-nil (s ∷ ss) h = absurd (insert_sorted-ne-nil s (sort ss) h)
  where
    insert_sorted-ne-nil : (s : String) (ss : List String) → insert_sorted s ss ≢ []
    insert_sorted-ne-nil s [] e = cc
    insert_sorted-ne-nil s (t ∷ ts) e = ground arith

differing_in-nil :
    (a b : Hashes) (names : List String) (name : String)
    → differing_in a b names ≡ []
    → elem name names ≡ true
    → same_value (lookup name a) (lookup name b) ≡ true
unfolding differing_in
differing_in-nil a b [] name d h = cc
differing_in-nil a b (s ∷ names) name d h =
    elim (Bool-cases (same_value (lookup s a) (lookup s b))) [
      | inl e ↦ elim (Bool-cases (str_eq s name)) [
        | inl k ↦ subst (λ x. same_value (lookup x a) (lookup x b) ≡ true) ((eq_iff s name).0 k) e
        | inr k ↦ differing_in-nil a b names name (ground (arith, d, e)) (ground (arith, h, k))
      ]
      | inr e ↦ absurd (ground (arith, d, e))
    ]

missing_in-nil :
    (a : Hashes) (names : List String) (name : String)
    → missing_in a names ≡ []
    → elem name names ≡ true
    → lookup name a ≢ none
unfolding missing_in
missing_in-nil a [] name d h = cc
missing_in-nil a (s ∷ names) name d h = elim (Option-cases (lookup s a)) [
  | inl e ↦ absurd (ground (arith, d, e))
  | inr (v, e) ↦ elim (Bool-cases (str_eq s name)) [
    | inl k ↦ subst (λ x. lookup x a ≢ none) ((eq_iff s name).0 k) (rw e (λ q. cc))
    | inr k ↦ missing_in-nil a names name (ground (arith, d, e)) (ground (arith, h, k))
  ]
]

differing_in-same :
    (a b : Hashes) (names : List String)
    → ((name : String) → lookup name a ≡ lookup name b)
    → differing_in a b names ≡ []
unfolding differing_in
differing_in-same a b [] h = refl
differing_in-same a b (s ∷ names) h =
    rw (h s, same_value_refl (lookup s b)) (differing_in-same a b names h)

missing_in-known :
    (a b : Hashes) (names : List String)
    → ((name : String) → elem name names ≡ true → lookup name a ≢ none)
    → missing_in a names ≡ []
unfolding missing_in
missing_in-known a b [] h = refl
missing_in-known a b (s ∷ names) h = elim (Option-cases (lookup s a)) [
  | inl e ↦ absurd (h s (ground (arith, eq_refl s)) e)
  | inr (v, e) ↦
      rw (missing_in, e) (missing_in-known a b names (λ name k. h name (ground (arith, k))))
]

elem-lookup : (name : String) (m : Hashes) → elem name (keys m) ≡ true → lookup name m ≢ none
unfolding keys lookup
elem-lookup name [] h = cc
elem-lookup name ((k, w) ∷ m) h = ground (arith, elem-lookup name m)

append-nil : (xs ys : List String) → xs ++ ys ≡ [] → (xs ≡ []) × (ys ≡ [])
append-nil [] ys h = (refl, h)
append-nil (x ∷ xs) ys h = absurd (cc)

same_lookup :
    (a b : Hashes)
    → differing_in a b (keys a) ≡ []
    → missing_in a (keys b) ≡ []
    → (name : String) → lookup name a ≡ lookup name b
same_lookup a b d m name = elim (Option-cases (lookup name a)) [
  | inr (v, e) ↦
      same_value-eq (lookup name a) (lookup name b)
        (differing_in-nil a b (keys a) name d (elem-keys name v a e))
  | inl e ↦ elim (Option-cases (lookup name b)) [
    | inl f ↦ e ∙ sym f
    | inr (w, f) ↦ absurd (missing_in-nil a (keys b) name m (elem-keys name w b f) e)
  ]
]

-- No column is reported for two rows if and only if they have the same value, or none, under every
-- name.
pub differing_columns-nil :
    (a b : Hashes)
    → (differing_columns a b ≡ []) ↔ ((name : String) → lookup name a ≡ lookup name b)
unfolding differing_columns sort
differing_columns-nil a b = (
  λ h.
      let both =
        append-nil (differing_in a b (keys a)) (missing_in a (keys b))
          (sort-nil (differing_in a b (keys a) ++ missing_in a (keys b)) h) in
      same_lookup a b (both.0) (both.1),
  λ same.
      rw
        (
          differing_in-same a b (keys a) same,
          missing_in-known a b (keys b) (λ name k e. elem-lookup name b k (sym (same name) ∙ e)),
        )
        refl,
)
