-- ===== src/Drift/Slot.antt =====
-- `DriftSlot` (internal/planner/drift_budget.go:36-78).
use sei_k8s_controller.Prelude.{
  ℕ, suc, ◌*◌, ◌/◌, min, max, String, Bool, not, ◌&&◌, Option, none, some, List, [], ◌∷◌, ◌++◌, ltb,
  ◌==◌, length, take, str_eq, if◌then◌else◌,
}
use sei_k8s_controller.HashLog.Columns.{sort}
use sei_k8s_controller.Node.{SeiNode, is_running}
use sei_k8s_controller.Drift.Node.{Platform, update_in_progress, pod_template_drifted}

-- not skipped by the loop over the list
unfoldable pub counts : SeiNode → Bool
counts n = is_running n.phase && not n.paused

unfoldable pub running_nodes : List SeiNode → ℕ
running_nodes [] = 0
running_nodes (n ∷ ns) = let rest = running_nodes ns in if counts n then suc rest else rest

unfoldable pub updating_names : List SeiNode → List String
updating_names [] = []
updating_names (n ∷ ns) =
    let rest = updating_names ns in if counts n && update_in_progress n then n.name ∷ rest else rest

unfoldable pub waiting_names : Platform → List SeiNode → List String
waiting_names p [] = []
waiting_names p (n ∷ ns) =
    let rest = waiting_names p ns in
    if counts n && not (update_in_progress n) && pod_template_drifted n p
    then n.name ∷ rest
    else rest

unfoldable pub slots : Platform → List SeiNode → ℕ
slots p nodes = max 1 (running_nodes nodes * p.drift_update_budget_percent / 100)

unfoldable pub roll_order : Platform → List SeiNode → List String
roll_order p nodes = sort (updating_names nodes) ++ sort (waiting_names p nodes)

-- slices.Index, from position `i`
unfoldable pub index_from : ℕ → String → List String → Option ℕ
index_from i name [] = none
index_from i name (s ∷ ss) = if str_eq s name then some i else index_from (suc i) name ss

-- What the message of a refusal names.
pub record Deferral : Type 0 where
  pub namespace : String
  pub slots : ℕ
  pub holders : List String

pub data SlotDecision : Type 0 where
  free : SlotDecision
  deferred : Deferral → SlotDecision
  unreadable : String → SlotDecision

-- client.List of the namespace's SeiNodes
pub data Listed : Type 0 where
  items : List SeiNode → Listed
  failed : String → Listed

unfoldable pub has_slot : ℕ → List String → String → Bool
unfolding index_from
has_slot n order name = elim (index_from 0 name order) [
  | some i ↦ ltb i n
  | none ↦ ltb (length order) n
]

-- `listed` is `none` where the resolver has no reader of nodes.
unfoldable pub drift_slot : Platform → Option Listed → SeiNode → SlotDecision
drift_slot p none node = free
drift_slot p (some listed) node = if p.drift_update_budget_percent == 0 then free else elim listed [
  | failed msg ↦ unreadable msg
  | items nodes ↦
      let order = roll_order p nodes in
      let n = slots p nodes in
      if has_slot n order node.name
      then free
      else deferred (record {
        namespace = node.namespace;
        slots = n;
        holders = take (min n (length order)) order;
      })
]
