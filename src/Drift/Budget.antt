-- ===== src/Drift/Budget.antt =====
-- How many nodes of a namespace `DriftSlot` lets update at once
-- (internal/planner/drift_budget.go:36-78).
use sei_k8s_controller.Prelude.{
  ℕ, suc, ◌-◌, ◌<◌, min, String, ◌≡◌, ◌≢◌, refl, ◌∙◌, Bool, true, false, Option, none, some, List,
  [], ◌∷◌, inl, inr, arith, All, ltb, ◌==◌, length, eq_iff, eq_refl, if◌then◌else◌, Bool-cases,
}
use sei_k8s_controller.Node.{SeiNode}
use sei_k8s_controller.Drift.Node.{Platform}
use sei_k8s_controller.Drift.Slot.{
  slots, roll_order, index_from, has_slot, drift_slot, free, SlotDecision, items,
}

-- No name occurs twice; names are unique in a namespace.
abbrev pub Distinct : List String → Type 0
Distinct [] = Unit
Distinct (s ∷ ss) = All (λ t. s ≢ t) ss × Distinct ss

abbrev pub count : (String → Bool) → List String → ℕ
count f [] = 0
count f (s ∷ ss) = let rest = count f ss in if f s then suc rest else rest

count-ext :
    (f g : String → Bool) (ss : List String) → All (λ s. f s ≡ g s) ss → count f ss ≡ count g ss
count-ext f g [] h = refl
count-ext f g (s ∷ ss) (e, h) = rw (e, count-ext f g ss h) refl

abbrev at_index : ℕ → Option ℕ → Bool
at_index n none = false
at_index n (some i) = ltb i n

later_index :
    (k n : ℕ) (s : String) (rest all : List String)
    → All (λ t. s ≢ t) rest
    → All (λ t. at_index n (index_from k t (s ∷ all)) ≡ at_index n (index_from (suc k) t all)) rest
unfolding index_from
later_index k n s [] all h = tt
later_index k n s (t ∷ ts) all (d, h) = (ground (arith, eq_iff s t), later_index k n s ts all h)

count_slots :
    (k n : ℕ) (ss : List String)
    → Distinct ss
    → count (λ t. at_index n (index_from k t ss)) ss ≡ min (n - k) (length ss)
unfolding index_from
count_slots k n [] d = omega arith
count_slots k n (s ∷ ss) (h, d) =
    let tail =
      count-ext (λ t. at_index n (index_from k t (s ∷ ss)))
        (λ t. at_index n (index_from (suc k) t ss)) ss (later_index k n s ss ss h) in
    rw (eq_refl s, tail, count_slots (suc k) n ss d) (ground arith)

listed_index : (k : ℕ) (ss : List String) → All (λ t. index_from k t ss ≢ none) ss
unfolding index_from
listed_index k [] = tt
listed_index k (s ∷ ss) = (rw (eq_refl s) (λ e. cc), weaken k s ss ss (listed_index (suc k) ss))
  where
    weaken :
        (k : ℕ) (s : String) (ts all : List String)
        → All (λ t. index_from (suc k) t all ≢ none) ts
        → All (λ t. index_from k t (s ∷ all) ≢ none) ts
    weaken k s [] all h = tt
    weaken k s (t ∷ ts) all (n, h) = (λ e. n (ground (arith, e)), weaken k s ts all h)

slot_by_index :
    (n : ℕ) (order ss : List String)
    → All (λ t. index_from 0 t order ≢ none) ss
    → All (λ t. has_slot n order t ≡ at_index n (index_from 0 t order)) ss
unfolding has_slot
slot_by_index n order [] h = tt
slot_by_index n order (t ∷ ts) (k, h) =
    (by_index (index_from 0 t order) refl, slot_by_index n order ts h)
  where
    by_index :
        (o : Option ℕ)
        → index_from 0 t order ≡ o
        → has_slot n order t ≡ at_index n (index_from 0 t order)
    by_index none e = absurd (k e)
    by_index (some i) e = rw (has_slot, e) refl

has_slot-count :
    (n : ℕ) (order : List String)
    → Distinct order
    → count (has_slot n order) order ≡ min n (length order)
has_slot-count n order d =
    count-ext (has_slot n order) (λ t. at_index n (index_from 0 t order)) order
      (slot_by_index n order order (listed_index 0 order))
    ∙ count_slots 0 n order d
    ∙ omega arith

abbrev pub is_free : SlotDecision → Bool
is_free free = true
is_free _ = false

-- the decision for the node of this name, under a budget that is on
abbrev pub may_roll : Platform → List SeiNode → SeiNode → String → Bool
may_roll p nodes node s = is_free (drift_slot p (some (items nodes)) (record node { name = s }))

-- With a budget and distinct node names, exactly as many of the nodes that update or wait are free
-- to update as there are slots, or all of them where they are fewer.
pub may_roll-count :
    (p : Platform) (nodes : List SeiNode) (node : SeiNode)
    → 0 < p.drift_update_budget_percent
    → Distinct (roll_order p nodes)
    → count (may_roll p nodes node) (roll_order p nodes)
      ≡ min (slots p nodes) (length (roll_order p nodes))
unfolding drift_slot
may_roll-count p nodes node h d =
    count-ext (may_roll p nodes node) (has_slot (slots p nodes) (roll_order p nodes))
      (roll_order p nodes) (by_slot (roll_order p nodes))
    ∙ has_slot-count (slots p nodes) (roll_order p nodes) d
  where
    ask : (s : String) → may_roll p nodes node s ≡ has_slot (slots p nodes) (roll_order p nodes) s
    ask s =
        let on : (p.drift_update_budget_percent == 0) ≡ false = ground arith in
        elim (Bool-cases (has_slot (slots p nodes) (roll_order p nodes) s)) [
          | inl e ↦ rw (drift_slot, on, e) refl
          | inr e ↦ rw (drift_slot, on, e) refl
        ]

    by_slot :
        (ss : List String)
        → All (λ s. may_roll p nodes node s ≡ has_slot (slots p nodes) (roll_order p nodes) s) ss
    by_slot [] = tt
    by_slot (s ∷ ss) = (ask s, by_slot ss)
