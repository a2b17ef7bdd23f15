-- ===== src/Engine/Store.antt =====
-- sidecar/engine/sqlite_store.go: the table of task results. A list of rows stands for the table;
-- that a statement fails is an argument of the engine's operations.
pub mod Time
use sei_k8s_controller.Prelude.{
  ℕ, String, Bool, true, false, ◌&&◌, Option, none, some, List, [], ◌∷◌, ◌++◌, str_eq,
  if◌then◌else◌,
}
use sei_k8s_controller.Engine.Types.{TaskResult, is_running}
use Time.{text_before}

abbrev pub Rows : Type 0
Rows = List TaskResult

-- SELECT … WHERE id = ?
unfoldable pub get : String → Rows → Option TaskResult
get id [] = none
get id (r ∷ rs) = if str_eq r.id id then some r else get id rs

-- DELETE … WHERE id = ?
unfoldable pub delete : String → Rows → Rows
delete id [] = []
delete id (r ∷ rs) = let rest = delete id rs in if str_eq r.id id then rest else r ∷ rest

-- INSERT OR REPLACE: the old row goes, and the new one is the last
unfoldable pub save : TaskResult → Rows → Rows
unfolding delete
save r rs = delete r.id rs ++ r ∷ []

-- SELECT … WHERE status = 'running'
unfoldable pub list_stale_tasks : Rows → Rows
list_stale_tasks [] = []
list_stale_tasks (r ∷ rs) =
    let rest = list_stale_tasks rs in if is_running r.status then r ∷ rest else rest

-- DELETE … WHERE type = ?
unfoldable pub delete_by_type : String → Rows → Rows
delete_by_type ty [] = []
delete_by_type ty (r ∷ rs) =
    let rest = delete_by_type ty rs in if str_eq r.type ty then rest else r ∷ rest

-- of two rows, the one that ORDER BY submitted_at DESC puts first
unfoldable pub later : TaskResult → Option TaskResult → TaskResult
later r none = r
later r (some s) = if text_before r.submitted_at s.submitted_at then s else r

-- SELECT … WHERE type = ? ORDER BY submitted_at DESC LIMIT 1
unfoldable pub latest_by_type : String → Rows → Option TaskResult
unfolding later
latest_by_type ty [] = none
latest_by_type ty (r ∷ rs) =
    let rest = latest_by_type ty rs in if str_eq r.type ty then some (later r rest) else rest
