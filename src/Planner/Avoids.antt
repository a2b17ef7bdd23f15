-- ===== src/Planner/Avoids.antt =====
-- Progressions, as lists of task types: what they contain and what they avoid after the edits that
-- the builders make.
use sei_k8s_controller.Prelude.{
  ◌≡◌, ◌⊎◌, refl, ap, inl, inr, String, Bool, true, false, not, ◌&&◌, Option, none, some, List, [],
  ◌∷◌, ◌++◌, str_eq, if◌then◌else◌, arith, if_elim,
}
use sei_k8s_controller.Planner.TaskTypes as T
use sei_k8s_controller.Planner.Tasks.{Built, built, refused, contains, spliced, insert_before}
use sei_k8s_controller.Planner.Progression.{gate}

-- A predicate on the value of a result that has one.
abbrev pub Holds {ℓ κ} : {A : Type ℓ} → (A → Type κ) → Built A → Type κ
Holds P (built a) = P a
Holds P (refused e) = Unit

-- none of `bad` is in the progression
unfoldable pub avoids : List String → List String → Bool
unfolding contains
avoids bad [] = true
avoids bad (t ∷ ts) = not (contains t bad) && avoids bad ts

-- the overlay in front of every validation
unfoldable pub overlaid : List String → List String
overlaid [] = []
overlaid (t ∷ ts) =
    let rest = overlaid ts in
    if str_eq t T.config_validate then T.config_patch ∷ t ∷ rest else t ∷ rest

-- the record of the hold in the place of the last task
unfoldable pub parked : List String → List String
parked [] = []
parked (t ∷ []) = T.record_maintenance_hold ∷ []
parked (t ∷ u ∷ us) = t ∷ parked (u ∷ us)

pub avoids-append :
    (bad xs ys : List String)
    → avoids bad xs ≡ true
    → avoids bad ys ≡ true
    → avoids bad (xs ++ ys) ≡ true
unfolding avoids
avoids-append bad [] ys _ h = h
avoids-append bad (x ∷ xs) ys h k = let ih = avoids-append bad xs ys in ground (arith, ih)

pub avoids-gate :
    (bad : List String) (b : Bool) (type : String)
    → contains type bad ≡ false
    → avoids bad (gate b type) ≡ true
unfolding avoids
avoids-gate bad true type h = rw h refl
avoids-gate bad false type h = refl

pub contains-append :
    (s : String) (xs ys : List String) → contains s ys ≡ true → contains s (xs ++ ys) ≡ true
unfolding contains
contains-append s [] ys h = h
contains-append s (x ∷ xs) ys h = let ih = contains-append s xs ys h in ground (arith, ih)

-- `type` added at one place
pub data Inserted (type : String) : List String → List String → Type 0 where
  here : {ts : List String} → Inserted type ts (type ∷ ts)
  there :
      {t : String} {ts out : List String} → Inserted type ts out → Inserted type (t ∷ ts) (t ∷ out)

abbrev pub Splice : String → List String → Option (List String) → Type 0
Splice type prog none = Unit
Splice type prog (some out) = Inserted type prog out

under_head :
    (t type : String) (ts : List String) (rest : Option (List String))
    → Splice type ts rest
    → Splice type (t ∷ ts) (elim rest [ none ↦ none | some out ↦ some (t ∷ out) ])
under_head t type ts none s = tt
under_head t type ts (some out) s = Inserted.there s

spliced-Splice :
    (target type : String) (prog : List String) → Splice type prog (spliced target type prog)
unfolding spliced
spliced-Splice target type [] = tt
spliced-Splice target type (t ∷ ts) =
    if_elim (Splice type (t ∷ ts)) (str_eq t target) Inserted.here
      (under_head t type ts (spliced target type ts) (spliced-Splice target type ts))

of_spliced :
    (type e : String) (prog : List String) (o : Option (List String))
    → Splice type prog o
    → Holds
        (λ out. (out ≡ prog) ⊎ Inserted type prog out)
        (elim o [ some out ↦ built out | none ↦ refused e ])
of_spliced type e prog none s = tt
of_spliced type e prog (some out) s = inr s

-- An insertion gives the progression itself or one with the task added.
pub insert_before-Inserted :
    (prog : List String) (target type : String)
    → Holds (λ out. (out ≡ prog) ⊎ Inserted type prog out) (insert_before prog target type)
unfolding insert_before
insert_before-Inserted prog target type =
    if_elim (Holds (λ out. (out ≡ prog) ⊎ Inserted type prog out)) (contains type prog) (inl refl)
      (of_spliced type _ prog (spliced target type prog) (spliced-Splice target type prog))

pub Inserted-avoids :
    (bad : List String) {type : String} {prog out : List String}
    → Inserted type prog out
    → contains type bad ≡ false
    → avoids bad prog ≡ true
    → avoids bad out ≡ true
unfolding avoids
Inserted-avoids bad Inserted.here new h = rw (new, h) refl
Inserted-avoids bad (Inserted.there {t = t} i) new h =
    let ih = Inserted-avoids bad i new in ground (arith, ih)

pub Inserted-contains :
    (s : String) {type : String} {prog out : List String}
    → Inserted type prog out
    → contains s prog ≡ true
    → contains s out ≡ true
unfolding contains
Inserted-contains s Inserted.here h = ground arith
Inserted-contains s (Inserted.there {t = t} i) h =
    let ih = Inserted-contains s i in ground (arith, ih)

pub overlaid-avoids :
    (bad prog : List String)
    → contains T.config_patch bad ≡ false
    → avoids bad prog ≡ true
    → avoids bad (overlaid prog) ≡ true
unfolding avoids overlaid
overlaid-avoids bad [] new h = refl
overlaid-avoids bad (t ∷ ts) new h = let ih = overlaid-avoids bad ts new in ground (arith, ih)

pub overlaid-contains :
    (s : String) (prog : List String) → contains s prog ≡ true → contains s (overlaid prog) ≡ true
unfolding contains overlaid
overlaid-contains s [] h = absurd (cc h)
overlaid-contains s (t ∷ ts) h = let ih = overlaid-contains s ts in ground (arith, ih)

-- without a validation there is nothing to overlay
pub overlaid-none :
    (prog : List String) → contains T.config_validate prog ≡ false → overlaid prog ≡ prog
unfolding contains overlaid
overlaid-none [] h = refl
overlaid-none (t ∷ ts) h = let ih = overlaid-none ts in ground (arith, ih)

pub parked-append :
    (y : String) (xs ys : List String) → parked (xs ++ (y ∷ ys)) ≡ xs ++ parked (y ∷ ys)
unfolding parked
parked-append y [] ys = refl
parked-append y (u ∷ []) ys = refl
parked-append y (u ∷ v ∷ xs) ys = ap (λ l. u ∷ l) (parked-append y (v ∷ xs) ys)
