-- ===== src/Engine/Entries.antt =====
-- Which runs a DELETE can still stop, and what the engine's operations do to that (clearCancel and
-- RemoveResult of sidecar/engine/engine.go, which compare generations).
use sei_k8s_controller.Prelude.{
  ℕ, ◌+◌, ◌<◌, ◌≤◌, String, ◌≡◌, ◌≢◌, ◌⊎◌, inl, inr, refl, ap, ◌∙◌, true, Option, none, some, List,
  [], ◌∷◌, ◌++◌, arith, Bool-cases, Option-cases, str_eq, eq_iff, ◌==◌, if_elim,
}
use sei_k8s_controller.Prelude.Dict.{Dict, lookup, lookup-insert, lookup-erase}
use sei_k8s_controller.Engine.Core.{
  Run, Engine, mem_gen, spawn, clear_cancel, without_gen, remove_cancel, remove_entry,
}
use sei_k8s_controller.Engine.Registry.{Has, Inv, All-Has}
use sei_k8s_controller.Engine.Steps.{
  System, Removal, absent, cancelling, deleted, set_at, new_run, start, leave,
}

-- A run that is stopped, that a DELETE of its id would stop, or that a newer run of its id replaced.
pub data Stoppable (cancelled : List ℕ) (cancels : Dict ℕ) (started : List Run) (r : Run)
    : Type 0 where
  stopped : mem_gen r.gen cancelled ≡ true → Stoppable cancelled cancels started r
  listed : lookup r.id cancels ≡ some r.gen → Stoppable cancelled cancels started r
  replaced :
      (x : Run)
      → Has started x
      → x.id ≡ r.id
      → r.gen < x.gen
      → Stoppable cancelled cancels started r

abbrev pub AllStoppable : System → Type 0
AllStoppable s =
    (r : Run)
    → Has s.engine.goroutines r
    → Stoppable s.engine.cancelled s.engine.cancels s.started r

-- the entry that a DELETE found is cancelled
abbrev pub Entry : List ℕ → Option ℕ → Type 0
Entry cancelled none = Unit
Entry cancelled (some g) = mem_gen g cancelled ≡ true

abbrev pub Pending : List ℕ → Removal → Type 0
Pending cancelled absent = Unit
Pending cancelled (cancelling id entry) = Entry cancelled entry
Pending cancelled (deleted id entry) = Entry cancelled entry

-- more contexts are cancelled
abbrev pub Grows : List ℕ → List ℕ → Type 0
Grows c d = (g : ℕ) → mem_gen g c ≡ true → mem_gen g d ≡ true

pub Pending-Grows : (c d : List ℕ) (x : Removal) → Grows c d → Pending c x → Pending d x
Pending-Grows c d absent m p = tt
Pending-Grows c d (cancelling id none) m p = tt
Pending-Grows c d (cancelling id (some g)) m p = m g p
Pending-Grows c d (deleted id none) m p = tt
Pending-Grows c d (deleted id (some g)) m p = m g p

Grows-cons : (g : ℕ) (c : List ℕ) → Grows c (g ∷ c)
unfolding mem_gen
Grows-cons g c k h = ground (arith, h)

pub Pending-set :
    (c : List ℕ) (k n : ℕ) (x : Removal) (f : ℕ → Removal)
    → Pending c x
    → Pending c (f n)
    → Pending c (set_at k x f n)
Pending-set c k n x f p q = if_elim (Pending c) (n == k) p q

Has-snoc : (rs : List Run) (x r : Run) → Has (rs ++ x ∷ []) r → Has rs r ⊎ (x ≡ r)
Has-snoc [] x r (inl e) = inr e
Has-snoc [] x r (inr h) = absurd h
Has-snoc (y ∷ rs) x r (inl e) = inl (inl e)
Has-snoc (y ∷ rs) x r (inr h) = elim (Has-snoc rs x r h) [ inl i ↦ inl (inr i) | inr e ↦ inr e ]

pub Has-stays :
    (g : ℕ) (rs : List Run) (r : Run) → Has (without_gen g rs) r → Has rs r × (r.gen ≢ g)
unfolding without_gen
Has-stays g [] r h = absurd h
Has-stays g (x ∷ rs) r h = elim (Bool-cases (x.gen == g)) [
  | inl same ↦ let (i, n) = Has-stays g rs r (rw same at h) in (inr i, n)
  | inr other ↦
      let h' : Has (x ∷ without_gen g rs) r = rw other at h in
      elim h' [
        | inl e ↦
            let gens : x.gen ≡ r.gen = ap (λ z. z.gen) e in
            (inl e, λ q. absurd (ground (arith, other, gens ∙ q)))
        | inr i ↦ let (j, n) = Has-stays g rs r i in (inr j, n)
      ]
]

pub start-AllStoppable :
    (id ty params : String) (at run : ℕ) (s : System)
    → Inv s.engine
    → AllStoppable s
    → AllStoppable (start id ty params at run s)
unfolding spawn
start-AllStoppable id ty params at run s i a r h =
    elim (Has-snoc s.engine.goroutines (new_run id ty params at run s.engine) r h) [
      | inr e ↦
          let ids : id ≡ r.id = ap (λ z. z.id) e in
          let gens : s.engine.gen + 1 ≡ r.gen = ap (λ z. z.gen) e in
          Stoppable.listed (rw (lookup-insert, (eq_iff id r.id).1 ids, gens) refl)
      | inl old ↦
          let below = All-Has (λ x. x.gen ≤ s.engine.gen) s.engine.goroutines r i.bounded old in
          elim (a r old) [
            | Stoppable.stopped c ↦ Stoppable.stopped c
            | Stoppable.replaced x hx ids lt ↦ Stoppable.replaced x (inr hx) ids lt
            | Stoppable.listed l ↦ elim (Bool-cases (str_eq id r.id)) [
              | inl same ↦
                  Stoppable.replaced (new_run id ty params at run s.engine) (inl refl)
                    ((eq_iff id r.id).0 same) (omega (arith, below))
              | inr other ↦ Stoppable.listed (rw (lookup-insert, other) l)
            ]
          ]
    ]

pub leave-listed :
    (r x : Run) (e : Engine)
    → x.gen ≢ r.gen
    → lookup x.id e.cancels ≡ some x.gen
    → lookup x.id (leave r e).cancels ≡ some x.gen
unfolding leave clear_cancel
leave-listed r x e ne l = ground (arith, ne, l, lookup-erase r.id x.id e.cancels, eq_iff r.id x.id)

pub leave-Grows : (r : Run) (e : Engine) → Grows e.cancelled (leave r e).cancelled
unfolding leave clear_cancel mem_gen
leave-Grows r e k h = ground (arith, h)

pub entry-listed :
    (id : String) (g : ℕ) (x : Run) (e : Engine)
    → x.gen ≢ g
    → lookup x.id e.cancels ≡ some x.gen
    → lookup x.id (remove_entry id (some g) e).cancels ≡ some x.gen
unfolding remove_entry
entry-listed id g x e ne l = ground (arith, ne, l, lookup-erase id x.id e.cancels, eq_iff id x.id)

pub cancel-Grows : (id : String) (e : Engine) → Grows e.cancelled (remove_cancel id e).1.cancelled
unfolding remove_cancel mem_gen
cancel-Grows id e k h = ground (arith, h)

pub cancel-Entry :
    (id : String) (e : Engine) → Entry (remove_cancel id e).1.cancelled (remove_cancel id e).0
unfolding remove_cancel mem_gen
cancel-Entry id e = elim (Option-cases (lookup id e.cancels)) [
  | inl q ↦ rw (remove_cancel, q) tt
  | inr (g, q) ↦ rw (remove_cancel, q) (ground arith)
]
