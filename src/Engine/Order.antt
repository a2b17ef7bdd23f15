-- ===== src/Engine/Order.antt =====
-- Which row `LatestByType` returns (sidecar/engine/sqlite_store.go:126), given that SQLite orders
-- submitted_at as text, and what `markReadySuperseded` makes of it.
use sei_k8s_controller.Prelude.{
  ℕ, ◌+◌, ◌*◌, ◌/◌, ◌%◌, ◌<◌, ◌≤◌, String, ◌≡◌, ◌⊎◌, subst, Option-cases, ◌==◌, refl, true, false,
  Option, none, some, List, [], ◌∷◌, ◌++◌, inl, inr, arith, Bool-cases, str_eq, All,
}
use sei_k8s_controller.Engine.Types.{TaskResult, mark_ready, mark_not_ready}
use sei_k8s_controller.Engine.Store.{Rows, later, latest_by_type}
use sei_k8s_controller.Engine.Store.Time.{
  nanos_per_second, text_before, trimmed, fraction_text, lex_lt,
}
use sei_k8s_controller.Engine.Core.{Engine, Config, spawn}
use sei_k8s_controller.Engine.Rehydrate.{Boot, no_newer_hold, dispatch}

abbrev pub second_of : ℕ → ℕ
second_of t = t / nanos_per_second

later_second : (a b : ℕ) → text_before a b ≡ true → second_of a ≤ second_of b
unfolding text_before
later_second a b h = ground arith

not_before_second : (a b : ℕ) → text_before a b ≡ false → second_of b ≤ second_of a
unfolding text_before
not_before_second a b h = ground arith

-- No row of type `ty` was submitted in a later second than `s`.
abbrev pub NotLater : String → ℕ → Rows → Type 0
NotLater ty s = All (λ r. (str_eq r.type ty ≡ false) ⊎ (second_of r.submitted_at ≤ s))

NotLater-mono : (ty : String) (s t : ℕ) (rs : Rows) → s ≤ t → NotLater ty s rs → NotLater ty t rs
NotLater-mono ty s t [] h n = tt
NotLater-mono ty s t (r ∷ rs) h (inl other, n) = (inl other, NotLater-mono ty s t rs h n)
NotLater-mono ty s t (r ∷ rs) h (inr le, n) = (inr (omega arith), NotLater-mono ty s t rs h n)

latest_by_type-none :
    (ty : String) (s : ℕ) (rs : Rows) → latest_by_type ty rs ≡ none → NotLater ty s rs
unfolding latest_by_type
latest_by_type-none ty s [] h = tt
latest_by_type-none ty s (r ∷ rs) h = elim (Bool-cases (str_eq r.type ty)) [
  | inl same ↦ absurd (cc (rw same at h))
  | inr other ↦ (inl other, latest_by_type-none ty s rs (rw other at h))
]

-- A row of a type after whose second no row of the type was submitted.
abbrev pub IsLatest : String → Rows → TaskResult → Type 0
IsLatest ty rs r = (str_eq r.type ty ≡ true) × NotLater ty (second_of r.submitted_at) rs

-- What one comparison of the query decides.
later-second :
    (ty : String) (u v : TaskResult) (rs : Rows)
    → str_eq u.type ty ≡ true
    → str_eq v.type ty ≡ true
    → NotLater ty (second_of v.submitted_at) rs
    → IsLatest ty (u ∷ rs) (later u (some v))
unfolding later
later-second ty u v rs su sv n = elim (Bool-cases (text_before u.submitted_at v.submitted_at)) [
  | inl before ↦
      let e : v ≡ later u (some v) = rw before refl in
      subst (IsLatest ty (u ∷ rs)) e
        (sv, (inr (later_second u.submitted_at v.submitted_at before), n))
  | inr after ↦
      let e : u ≡ later u (some v) = rw after refl in
      let le = not_before_second u.submitted_at v.submitted_at after in
      subst (IsLatest ty (u ∷ rs)) e (su, (inr (omega arith), NotLater-mono ty _ _ rs le n))
]

-- The row that the query returns for a type is of that type, and no row of the type was submitted
-- in a later second.
pub latest_by_type_lem :
    (ty : String) (rs : Rows) (r : TaskResult) → latest_by_type ty rs ≡ some r → IsLatest ty rs r
unfolding latest_by_type
latest_by_type_lem ty [] r h = absurd (cc)
latest_by_type_lem ty (u ∷ rs) r h = elim (Bool-cases (str_eq u.type ty)) [
  | inr other ↦ let (same, n) = latest_by_type_lem ty rs r (rw other at h) in (same, (inl other, n))
  | inl same ↦ elim (Option-cases (latest_by_type ty rs)) [
    | inl alone ↦
        let e : some u ≡ some r = rw (same, alone) at h in
        let e' : u ≡ r = cc in
        subst (IsLatest ty (u ∷ rs)) e'
          (same, (inr (omega arith), latest_by_type-none ty _ rs alone))
    | inr (v, rest) ↦
        let e : some (later u (some v)) ≡ some r = rw (same, rest) at h in
        let e' : later u (some v) ≡ r = cc in
        let (sv, n) = latest_by_type_lem ty rs v rest in
        subst (IsLatest ty (u ∷ rs)) e' (later-second ty u v rs same sv n)
  ]
]

fraction_text-point : (n : ℕ) → 0 < n → (rest : List ℕ) × (fraction_text n ≡ 46 ∷ rest)
unfolding fraction_text
fraction_text-point n h =
    let nonzero : (n == 0) ≡ false = ground arith in (trimmed 9 n ++ b'Z' ∷ [], rw nonzero refl)

-- Within a second the text order is not the order of time: a whole second sorts last.
whole_second_not_before :
    (s n : ℕ)
    → 0 < n
    → n < nanos_per_second
    → text_before (s * nanos_per_second) (s * nanos_per_second + n) ≡ false
unfolding text_before lex_lt
whole_second_not_before s n p q =
    let a : (s * nanos_per_second + n) / nanos_per_second ≡ s = omega arith in
    let b : s * nanos_per_second / nanos_per_second ≡ s = omega arith in
    let c : (s * nanos_per_second + n) % nanos_per_second ≡ n = omega arith in
    let d : s * nanos_per_second % nanos_per_second ≡ 0 = omega arith in
    let e : (s == s) ≡ true = ground arith in
    let (rest, f) = fraction_text-point n p in rw (a, b, c, d, e, f) (unfold fraction_text in refl)

pick_whole_second :
    (mr h₁ h₂ : TaskResult) (s n : ℕ)
    → mr.type ≡ mark_ready
    → h₁.type ≡ mark_not_ready
    → h₂.type ≡ mark_not_ready
    → h₁.submitted_at ≡ s * nanos_per_second
    → h₂.submitted_at ≡ s * nanos_per_second + n
    → 0 < n
    → n < nanos_per_second
    → latest_by_type mark_not_ready (mr ∷ h₁ ∷ h₂ ∷ []) ≡ some h₁
unfolding latest_by_type later
pick_whole_second mr h₁ h₂ s n tm t1 t2 at1 at2 p q =
    rw (tm, t1, t2, at1, at2, whole_second_not_before s n p q) refl

-- with no newer hold found, a stranded mark-ready is dispatched
dispatch-found :
    (cfg : Config) (b : Boot) (e : Engine) (mr : TaskResult) (hold : Option TaskResult)
    → cfg.has_handler mr.type ≡ true
    → b.latest_ok mr ≡ true
    → mr.type ≡ mark_ready
    → latest_by_type mark_not_ready e.rows ≡ hold
    → no_newer_hold mr hold ≡ true
    → dispatch cfg b mr e ≡ spawn mr.id mr.type mr.params mr.submitted_at mr.run e
unfolding dispatch
dispatch-found cfg b e mr hold f l tm g n =
    let a : str_eq mr.type mark_not_ready ≡ false = rw tm refl in
    let c : str_eq mr.type mark_ready ≡ true = rw tm refl in rw (a, c, l, g, n, f) refl

-- A stranded mark-ready is dispatched although a hold at least as new is recorded, where an older
-- hold of the same second was submitted at the whole second.
pub dispatch_misses_hold :
    (cfg : Config) (b : Boot) (e : Engine) (h₁ h₂ mr : TaskResult) (s n m : ℕ)
    → cfg.has_handler mr.type ≡ true
    → b.latest_ok mr ≡ true
    → mr.type ≡ mark_ready
    → h₁.type ≡ mark_not_ready
    → h₂.type ≡ mark_not_ready
    → e.rows ≡ mr ∷ h₁ ∷ h₂ ∷ []
    → h₁.submitted_at ≡ s * nanos_per_second
    → mr.submitted_at ≡ s * nanos_per_second + m
    → h₂.submitted_at ≡ s * nanos_per_second + n
    → 0 < m
    → m ≤ n
    → n < nanos_per_second
    → dispatch cfg b mr e ≡ spawn mr.id mr.type mr.params mr.submitted_at mr.run e
unfolding no_newer_hold
dispatch_misses_hold cfg b e h₁ h₂ mr s n m f l tm t1 t2 rows at1 atm at2 p q r =
    let pick = pick_whole_second mr h₁ h₂ s n tm t1 t2 at1 at2 (omega arith) r in
    dispatch-found cfg b e mr (some h₁) f l tm (rw rows pick) (rw (at1, atm) (ground arith))
