-- ===== src/Planner/StaticTypes.antt =====
-- Which task types an init plan has on a node whose configuration comes from ConfigMaps.
use sei_k8s_controller.Prelude.{
  ◌≡◌, ◌⊎◌, refl, ap, ◌∙◌, inl, inr, String, true, false, List, [], ◌∷◌, ◌++◌, if◌then◌else◌, arith,
  str_eq, eq_iff,
}
use sei_k8s_controller.Node.{SeiNode}
use sei_k8s_controller.Planner.TaskTypes as T
use sei_k8s_controller.Planner.Params.{
  Library, needs_validate_signing_key, needs_validate_node_key, needs_validate_operator_keyring,
}
use sei_k8s_controller.Planner.Tasks.{contains}
use sei_k8s_controller.Planner.Config.{
  without_managed_config_tasks, drop_managed, is_managed_config_task,
}
use sei_k8s_controller.Planner.Progression.{
  infrastructure, key_gates, gate, genesis_progression, is_genesis_ceremony_node,
}
use sei_k8s_controller.Planner.Avoids.{
  avoids, avoids-append, avoids-gate, overlaid, parked, parked-append,
}
use sei_k8s_controller.Planner.Made.{types, Made}
use sei_k8s_controller.Planner.Builders.{base_prog}
use sei_k8s_controller.Planner.ModeProgs.{SidecarProg, InitProg}
use sei_k8s_controller.Plan.Types.{TaskPlan}

pub avoids-contains :
    (bad ts : List String) (s : String)
    → contains s bad ≡ true
    → avoids bad ts ≡ true
    → contains s ts ≡ false
unfolding avoids contains
avoids-contains bad [] s h k = refl
avoids-contains bad (t ∷ ts) s h k =
    let ih = avoids-contains bad ts s h in
    let same : str_eq t s ≡ true → contains t bad ≡ true =
      λ e. ap (λ x. contains x bad) ((eq_iff t s).0 e) ∙ h in
    ground (arith, ih, same)

-- the tasks that may come before the sidecar's
abbrev infrastructure_types : List String
infrastructure_types =
    T.ensure_data_pvc ∷ T.validate_signing_key ∷ T.validate_node_key ∷ T.validate_operator_keyring
    ∷ T.apply_rbac_proxy_config ∷ T.apply_statefulset ∷ T.apply_service ∷ []

pub key_gates-avoids :
    (bad : List String) (node : SeiNode)
    → contains T.validate_signing_key bad ≡ false
    → contains T.validate_node_key bad ≡ false
    → contains T.validate_operator_keyring bad ≡ false
    → avoids bad (key_gates node) ≡ true
unfolding key_gates
key_gates-avoids bad node s n o =
    let signing = gate (needs_validate_signing_key node) T.validate_signing_key in
    let own = gate (needs_validate_node_key node) T.validate_node_key in
    avoids-append bad (signing ++ own) _
      (avoids-append bad signing own
        (avoids-gate bad (needs_validate_signing_key node) T.validate_signing_key s)
        (avoids-gate bad (needs_validate_node_key node) T.validate_node_key n))
      (avoids-gate bad (needs_validate_operator_keyring node) T.validate_operator_keyring o)

infrastructure-avoids :
    (bad : List String) (node : SeiNode)
    → avoids bad infrastructure_types ≡ true
    → avoids bad (infrastructure node) ≡ true
unfolding infrastructure avoids
infrastructure-avoids bad node h =
    let gates = key_gates-avoids bad node (ground arith) (ground arith) (ground arith) in
    let before : avoids bad (T.ensure_data_pvc ∷ key_gates node) ≡ true = ground (arith, gates) in
    avoids-append bad (T.ensure_data_pvc ∷ key_gates node) _ before (ground arith)

-- the sidecar tasks that are left, with mark-ready last
pub data Stripped : List String → Type 0 where
  fresh_chain : Stripped (T.configure_genesis ∷ T.mark_ready ∷ [])
  restored : Stripped (T.snapshot_restore ∷ T.configure_genesis ∷ T.mark_ready ∷ [])

-- the types of an init plan
pub data InitTypes (node : SeiNode) (ts : List String) : Type 0 where
  stripped :
      (rest : List String) → Stripped rest → ts ≡ infrastructure node ++ rest → InitTypes node ts
  ceremony :
      is_genesis_ceremony_node node ≡ true
      → (ts ≡ genesis_progression) ⊎ (ts ≡ overlaid genesis_progression)
      → InitTypes node ts

drop_managed-Stripped : (s : List String) → SidecarProg s → Stripped (drop_managed s)
unfolding drop_managed is_managed_config_task contains
drop_managed-Stripped s SidecarProg.plain = Stripped.fresh_chain
drop_managed-Stripped s SidecarProg.synced = Stripped.fresh_chain
drop_managed-Stripped s SidecarProg.restored = Stripped.restored

base_prog-stripped :
    (node : SeiNode) (s : List String)
    → node.has_node_config ≡ true
    → base_prog node s ≡ infrastructure node ++ drop_managed s
unfolding without_managed_config_tasks
base_prog-stripped node s h = ap (λ b. infrastructure node ++ (if b then drop_managed s else s)) h

Stripped-avoids :
    (bad : List String) (node : SeiNode) (rest : List String)
    → Stripped rest
    → avoids bad infrastructure_types ≡ true
    → avoids bad (T.snapshot_restore ∷ T.configure_genesis ∷ T.mark_ready ∷ []) ≡ true
    → avoids bad (infrastructure node ++ rest) ≡ true
unfolding avoids
Stripped-avoids bad node rest Stripped.fresh_chain h k =
    avoids-append bad (infrastructure node) _ (infrastructure-avoids bad node h) (ground arith)
Stripped-avoids bad node rest Stripped.restored h k =
    avoids-append bad (infrastructure node) _ (infrastructure-avoids bad node h) k

parked-Stripped-avoids :
    (bad : List String) (node : SeiNode) (rest : List String)
    → Stripped rest
    → avoids bad infrastructure_types ≡ true
    → avoids bad (T.snapshot_restore ∷ T.configure_genesis ∷ T.record_maintenance_hold ∷ []) ≡ true
    → avoids bad (parked (infrastructure node ++ rest)) ≡ true
unfolding avoids parked
parked-Stripped-avoids bad node rest Stripped.fresh_chain h k =
    rw (parked-append T.configure_genesis (infrastructure node) (T.mark_ready ∷ []))
      (avoids-append bad (infrastructure node) _ (infrastructure-avoids bad node h) (ground arith))
parked-Stripped-avoids bad node rest Stripped.restored h k =
    rw
      (parked-append T.snapshot_restore (infrastructure node)
        (T.configure_genesis ∷ T.mark_ready ∷ []))
      (avoids-append bad (infrastructure node) _ (infrastructure-avoids bad node h) k)

no_validation :
    (node : SeiNode) (s prog : List String)
    → Stripped s
    → prog ≡ infrastructure node ++ s
    → contains T.config_validate prog ≡ false
unfolding avoids contains
no_validation node s prog sd e = rw e (
    avoids-contains (T.config_validate ∷ []) (infrastructure node ++ s) T.config_validate refl
      (Stripped-avoids (T.config_validate ∷ []) node s sd refl refl))

module _ (lib : Library) (plan_id : String) (node : SeiNode) where
  pub Made-InitTypes :
      (prog : List String) (plan : TaskPlan)
      → node.has_node_config ≡ true
      → InitProg node prog
      → Made lib plan_id prog plan
      → InitTypes node (types plan.tasks)
  Made-InitTypes prog plan nc (InitProg.ceremony c e) m = elim (m.laid) [
    | inl l ↦ InitTypes.ceremony c (inl (l ∙ e))
    | inr l ↦ InitTypes.ceremony c (inr (l.0 ∙ ap overlaid e))
  ]
  Made-InitTypes prog plan nc (InitProg.base s sp e) m =
      let shape : prog ≡ infrastructure node ++ drop_managed s = e ∙ base_prog-stripped node s nc in
      let sd = drop_managed-Stripped s sp in
      elim (m.laid) [
        | inl l ↦ InitTypes.stripped (drop_managed s) sd (l ∙ shape)
        | inr l ↦ absurd (cc (l.1, no_validation node (drop_managed s) prog sd shape))
      ]

-- No writer of a mounted file is in an init plan, or in the parked one, without a ceremony.
pub InitTypes-no_writer :
    (node : SeiNode) (ts : List String)
    → is_genesis_ceremony_node node ≡ false
    → InitTypes node ts
    → (avoids T.mounted_config_writers ts ≡ true)
      × (avoids T.mounted_config_writers (parked ts) ≡ true)
unfolding avoids contains
InitTypes-no_writer node ts nc (InitTypes.ceremony c l) = absurd (cc (nc, c))
InitTypes-no_writer node ts nc (InitTypes.stripped rest s e) = rw e (
  Stripped-avoids T.mounted_config_writers node rest s refl refl,
  parked-Stripped-avoids T.mounted_config_writers node rest s refl refl,
)

pub InitTypes-no_release :
    (node : SeiNode) (ts : List String)
    → InitTypes node ts
    → avoids (T.mark_ready ∷ []) (parked ts) ≡ true
unfolding avoids contains parked overlaid
InitTypes-no_release node ts (InitTypes.ceremony c (inl e)) = rw e refl
InitTypes-no_release node ts (InitTypes.ceremony c (inr e)) = rw e refl
InitTypes-no_release node ts (InitTypes.stripped rest s e) =
    rw e (parked-Stripped-avoids (T.mark_ready ∷ []) node rest s refl refl)
