-- ===== src/Engine/StoreLaws.antt =====
-- What the statements of the store do to a later read.
use sei_k8s_controller.Prelude.{
  String, ◌≡◌, refl, false, none, some, [], ◌∷◌, ◌++◌, arith, str_eq, eq_iff, if◌then◌else◌, All,
}
use sei_k8s_controller.Engine.Types.{TaskResult}
use sei_k8s_controller.Engine.Store.{Rows, get, delete, save, list_stale_tasks, delete_by_type}

get-append :
    (j : String) (rs ss : Rows)
    → get j (rs ++ ss) ≡ elim (get j rs) [ none ↦ get j ss | some r ↦ some r ]
unfolding get
get-append j [] ss = refl
get-append j (r ∷ rs) ss = ground (arith, get-append j rs ss)

pub get-delete :
    (k j : String) (rs : Rows) → get j (delete k rs) ≡ (if str_eq k j then none else get j rs)
unfolding get delete
get-delete k j [] = ground arith
get-delete k j (r ∷ rs) =
    ground (arith, get-delete k j rs, eq_iff r.id k, eq_iff r.id j, eq_iff k j)

pub get-save :
    (r : TaskResult) (j : String) (rs : Rows)
    → get j (save r rs) ≡ (if str_eq r.id j then some r else get j rs)
unfolding save get
get-save r j rs = ground (arith, get-append j (delete r.id rs) (r ∷ []), get-delete r.id j rs)

-- A predicate that holds of all rows holds of the rows that are left.
pub All-delete : (P : TaskResult → Type 0) (k : String) (rs : Rows) → All P rs → All P (delete k rs)
unfolding delete
All-delete P k [] h = tt
All-delete P k (r ∷ rs) (h, hs) = ground (arith, All-delete P k rs hs)

abbrev pub NoType : String → Rows → Type 0
NoType ty = All (λ r. str_eq r.type ty ≡ false)

pub delete_by_type-NoType : (ty : String) (rs : Rows) → NoType ty (delete_by_type ty rs)
unfolding delete_by_type
delete_by_type-NoType ty [] = tt
delete_by_type-NoType ty (r ∷ rs) = ground (arith, delete_by_type-NoType ty rs)

pub list_stale_tasks-NoType :
    (ty : String) (rs : Rows) → NoType ty rs → NoType ty (list_stale_tasks rs)
unfolding list_stale_tasks
list_stale_tasks-NoType ty [] h = tt
list_stale_tasks-NoType ty (r ∷ rs) (h, hs) = ground (arith, list_stale_tasks-NoType ty rs hs)
