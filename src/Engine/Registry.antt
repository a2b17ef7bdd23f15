-- ===== src/Engine/Registry.antt =====
-- The registry of cancel functions, `cancels` and `gen` (sidecar/engine/engine.go:44-58, 248-277).
use sei_k8s_controller.Prelude.{
  ℕ, ◌+◌, ◌≤◌, String, ◌≡◌, ◌≢◌, ◌⊎◌, inl, inr, refl, sym, ap, subst, ◌∙◌, false, some, List, [],
  ◌∷◌, ◌++◌, arith, Bool-cases, ◌==◌, All, All-append,
}
use sei_k8s_controller.Prelude.Dict.{lookup}
use sei_k8s_controller.Engine.Core.{Run, Engine, without_gen}

abbrev pub Has : List Run → Run → Type 0
Has [] r = ⊥
Has (x ∷ xs) r = (x ≡ r) ⊎ Has xs r

abbrev pub DistinctGens : List Run → Type 0
DistinctGens [] = Unit
DistinctGens (r ∷ rs) = All (λ x. r.gen ≢ x.gen) rs × DistinctGens rs

-- Every registered entry belongs to a goroutine that has not ended.
abbrev pub Registered : Engine → Type 0
Registered e =
    (id : String) (g : ℕ)
    → lookup id e.cancels ≡ some g
    → (r : Run) × Has e.goroutines r × (r.id ≡ id) × (r.gen ≡ g)

pub record Inv (e : Engine) : Type 0 where
  pub bounded : All (λ r. r.gen ≤ e.gen) e.goroutines
  pub distinct : DistinctGens e.goroutines
  pub registered : Registered e

pub Has-left : (rs ss : List Run) (r : Run) → Has rs r → Has (rs ++ ss) r
Has-left [] ss r h = absurd h
Has-left (x ∷ rs) ss r (inl e) = inl e
Has-left (x ∷ rs) ss r (inr h) = inr (Has-left rs ss r h)

pub Has-last : (rs : List Run) (r : Run) → Has (rs ++ r ∷ []) r
Has-last [] r = inl refl
Has-last (x ∷ rs) r = inr (Has-last rs r)

pub All-Has : (P : Run → Type 0) (rs : List Run) (r : Run) → All P rs → Has rs r → P r
All-Has P [] r a h = absurd h
All-Has P (x ∷ rs) r (p, ps) (inl e) = subst P e p
All-Has P (x ∷ rs) r (p, ps) (inr h) = All-Has P rs r ps h

pub bounded-suc : (g : ℕ) (rs : List Run) → All (λ r. r.gen ≤ g) rs → All (λ r. r.gen ≤ g + 1) rs
bounded-suc g [] h = tt
bounded-suc g (r ∷ rs) (h, hs) = (omega arith, bounded-suc g rs hs)

pub fresh_gen :
    (g : ℕ) (rs : List Run) (r : Run)
    → r.gen ≡ g + 1
    → All (λ x. x.gen ≤ g) rs
    → DistinctGens rs
    → DistinctGens (rs ++ r ∷ [])
fresh_gen g [] r e b d = (tt, tt)
fresh_gen g (x ∷ rs) r e (b, bs) (d, ds) = (
  All-append (λ y. x.gen ≢ y.gen) rs (r ∷ []) d ((λ p. absurd (omega arith)), tt),
  fresh_gen g rs r e bs ds,
)

pub same_gen :
    (rs : List Run) (x y : Run) → DistinctGens rs → Has rs x → Has rs y → x.gen ≡ y.gen → x ≡ y
same_gen [] x y d hx hy e = absurd hx
same_gen (r ∷ rs) x y (d, ds) (inl p) (inl q) e = sym p ∙ q
same_gen (r ∷ rs) x y (d, ds) (inl p) (inr q) e =
    absurd (All-Has (λ z. r.gen ≢ z.gen) rs y d q (ap (λ z. z.gen) p ∙ e))
same_gen (r ∷ rs) x y (d, ds) (inr p) (inl q) e =
    absurd (All-Has (λ z. r.gen ≢ z.gen) rs x d p (ap (λ z. z.gen) q ∙ sym e))
same_gen (r ∷ rs) x y (d, ds) (inr p) (inr q) e = same_gen rs x y ds p q e

pub Has-without :
    (g : ℕ) (rs : List Run) (r : Run) → r.gen ≢ g → Has rs r → Has (without_gen g rs) r
unfolding without_gen
Has-without g [] r ne h = absurd h
Has-without g (x ∷ rs) r ne (inl e) =
    let gens : x.gen ≡ r.gen = ap (λ z. z.gen) e in
    let other : (x.gen == g) ≡ false = ground arith in rw other (inl e)
Has-without g (x ∷ rs) r ne (inr h) = elim (Bool-cases (x.gen == g)) [
  | inl same ↦ rw same (Has-without g rs r ne h)
  | inr other ↦ rw other (inr (Has-without g rs r ne h))
]

pub All-without : (P : Run → Type 0) (g : ℕ) (rs : List Run) → All P rs → All P (without_gen g rs)
unfolding without_gen
All-without P g [] h = tt
All-without P g (x ∷ rs) (h, hs) = ground (arith, All-without P g rs hs)

pub DistinctGens-without :
    (g : ℕ) (rs : List Run) → DistinctGens rs → DistinctGens (without_gen g rs)
unfolding without_gen
DistinctGens-without g [] d = tt
DistinctGens-without g (x ∷ rs) (d, ds) = elim (Bool-cases (x.gen == g)) [
  | inl same ↦ rw same (DistinctGens-without g rs ds)
  | inr other ↦ rw other (All-without (λ y. x.gen ≢ y.gen) g rs d, DistinctGens-without g rs ds)
]
