-- ===== src/Planner/Settle.antt =====
-- A requested hold and the plans that bring it about (internal/planner/maintenance.go:47-78 and
-- internal/task/record_maintenance_hold.go), with the probe of planner/sidecar_probe.go and the
-- gate of the sidecar's engine.
use sei_k8s_controller.Prelude.{
  ℕ, suc, String, ◌≡◌, refl, Bool, true, false, Option, none, some, List, [], ◌∷◌, str_eq,
  if◌then◌else◌,
}
use sei_k8s_controller.Prelude.Dict.{lookup, insert}
use sei_k8s_controller.Node.{MaintenanceHold, SeiNode, is_held, set_condition, condition_true}
use sei_k8s_controller.Engine.Core.{success, ready_after}
use sei_k8s_controller.Planner.TaskTypes as T
use sei_k8s_controller.Planner.Params.{TaskParams, Library}
use sei_k8s_controller.Planner.Tasks.{PlanStep}
use sei_k8s_controller.Planner.Hold.{hold_change, hold_steps, record_hold_step, sidecar_gate_open}
use sei_k8s_controller.Planner.Resolve.{Health, probe_sidecar_health}

-- the start gate of the sidecar, and status.maintenanceHold
pub record HoldState : Type 0 where
  pub gate_open : Bool
  pub have : MaintenanceHold

abbrev pub recorded_hold : TaskParams → MaintenanceHold → MaintenanceHold
recorded_hold (TaskParams.hold h) have = h
recorded_hold _ have = have

-- the type under which the sidecar gets a task: start-seid-once is sent as a mark-ready
unfoldable pub submitted_type : String → String
submitted_type type = if str_eq type T.start_seid_once then T.mark_ready else type

-- A task that succeeds: the record writes the status, and of the others the sidecar's engine sets
-- its gate by the type that it was sent.
unfoldable pub perform : PlanStep → HoldState → HoldState
unfolding submitted_type ready_after
perform s st =
    if str_eq s.task_type T.record_maintenance_hold
    then record st { have = recorded_hold s.params st.have }
    else record st {
      gate_open = ready_after (submitted_type s.task_type) (success none) st.gate_open;
    }

-- what Healthz says to a probe that reaches the sidecar
abbrev pub answer : Bool → Health
answer true = Health.ready
answer false = Health.not_ready

unfoldable pub perform_all : List PlanStep → HoldState → HoldState
unfolding perform
perform_all [] st = st
perform_all (s ∷ ss) st = perform_all ss (perform s st)

module _ (lib : Library) (node : SeiNode) (want : MaintenanceHold) where
  abbrev pub changed : Option (MaintenanceHold × MaintenanceHold) → HoldState → Option HoldState
  changed none st = none
  changed (some (to, from)) st = some (perform_all (hold_steps lib node to from) st)

  -- The state after a reconcile and its hold plan; `none` where it builds none. The probe reaches the
  -- sidecar and sets the condition SidecarReady, from which the planner takes the gate.
  unfoldable pub round : HoldState → Option HoldState
  unfolding hold_change hold_steps perform_all probe_sidecar_health sidecar_gate_open
  round st =
      changed
        (hold_change (sidecar_gate_open (probe_sidecar_health (answer st.gate_open) node)) want
          st.have)
        st

  -- What is left when no plan is built any more.
  pub record Settled (st : HoldState) : Type 0 where
    pub quiet : round st ≡ none
    pub in_effect : st.have ≡ want
    pub closed : is_held want ≡ true → st.gate_open ≡ false

  -- at most `n` rounds
  pub data Within : HoldState → ℕ → Type 0 where
    now : {st : HoldState} {n : ℕ} → Settled st → Within st n
    one_more : {st out : HoldState} {n : ℕ} → round st ≡ some out → Within out n → Within st (suc n)

module _ (lib : Library) (node : SeiNode) where
  rests :
      (want : MaintenanceHold) (gate_open : Bool)
      → (is_held want ≡ true → gate_open ≡ false)
      → Settled lib node want (record { gate_open = gate_open; have = want })
  unfolding round hold_change sidecar_gate_open probe_sidecar_health set_condition condition_true
      lookup insert
  rests MaintenanceHold.no_hold gate_open h = record { quiet = refl; in_effect = refl; closed = h }
  rests MaintenanceHold.immediate true h = absurd (cc (h refl))
  rests MaintenanceHold.immediate false h = record { quiet = refl; in_effect = refl; closed = h }
  rests MaintenanceHold.after_exit true h = absurd (cc (h refl))
  rests MaintenanceHold.after_exit false h = record { quiet = refl; in_effect = refl; closed = h }

  -- Whatever hold is requested, whatever hold is in effect and wherever the start gate is, given
  -- that the probe of every reconcile reaches the sidecar and that the plans complete: after at most
  -- two hold plans no further one is built, the requested hold is the one in effect, and the gate is
  -- closed if a hold is requested.
  pub hold_plans-settle :
      (want have : MaintenanceHold) (gate_open : Bool)
      → Within lib node want (record { gate_open = gate_open; have = have }) 2
  unfolding round hold_change hold_steps record_hold_step perform perform_all sidecar_gate_open
      probe_sidecar_health set_condition condition_true lookup insert ready_after submitted_type
  hold_plans-settle MaintenanceHold.no_hold MaintenanceHold.no_hold true =
      Within.now (rests MaintenanceHold.no_hold true (λ h. absurd (cc h)))
  hold_plans-settle MaintenanceHold.no_hold MaintenanceHold.no_hold false =
      Within.now (rests MaintenanceHold.no_hold false (λ h. absurd (cc h)))
  hold_plans-settle MaintenanceHold.no_hold MaintenanceHold.immediate true =
      Within.one_more refl (Within.now (rests MaintenanceHold.no_hold true (λ h. absurd (cc h))))
  hold_plans-settle MaintenanceHold.no_hold MaintenanceHold.immediate false =
      Within.one_more refl (Within.now (rests MaintenanceHold.no_hold true (λ h. absurd (cc h))))
  hold_plans-settle MaintenanceHold.no_hold MaintenanceHold.after_exit true =
      Within.one_more refl (Within.now (rests MaintenanceHold.no_hold true (λ h. absurd (cc h))))
  hold_plans-settle MaintenanceHold.no_hold MaintenanceHold.after_exit false =
      Within.one_more refl (Within.now (rests MaintenanceHold.no_hold true (λ h. absurd (cc h))))
  hold_plans-settle MaintenanceHold.immediate MaintenanceHold.no_hold true =
      Within.one_more refl (Within.now (rests MaintenanceHold.immediate false (λ _. refl)))
  hold_plans-settle MaintenanceHold.immediate MaintenanceHold.no_hold false =
      Within.one_more refl (Within.now (rests MaintenanceHold.immediate false (λ _. refl)))
  hold_plans-settle MaintenanceHold.immediate MaintenanceHold.immediate true =
      Within.one_more refl (Within.now (rests MaintenanceHold.immediate false (λ _. refl)))
  hold_plans-settle MaintenanceHold.immediate MaintenanceHold.immediate false =
      Within.now (rests MaintenanceHold.immediate false (λ _. refl))
  hold_plans-settle MaintenanceHold.immediate MaintenanceHold.after_exit true =
      Within.one_more refl
        (Within.one_more refl (Within.now (rests MaintenanceHold.immediate false (λ _. refl))))
  hold_plans-settle MaintenanceHold.immediate MaintenanceHold.after_exit false =
      Within.one_more refl (Within.now (rests MaintenanceHold.immediate false (λ _. refl)))
  hold_plans-settle MaintenanceHold.after_exit MaintenanceHold.no_hold true =
      Within.one_more refl (Within.now (rests MaintenanceHold.after_exit false (λ _. refl)))
  hold_plans-settle MaintenanceHold.after_exit MaintenanceHold.no_hold false =
      Within.one_more refl (Within.now (rests MaintenanceHold.after_exit false (λ _. refl)))
  hold_plans-settle MaintenanceHold.after_exit MaintenanceHold.immediate true =
      Within.one_more refl
        (Within.one_more refl (Within.now (rests MaintenanceHold.after_exit false (λ _. refl))))
  hold_plans-settle MaintenanceHold.after_exit MaintenanceHold.immediate false =
      Within.one_more refl (Within.now (rests MaintenanceHold.after_exit false (λ _. refl)))
  hold_plans-settle MaintenanceHold.after_exit MaintenanceHold.after_exit true =
      Within.one_more refl (Within.now (rests MaintenanceHold.after_exit false (λ _. refl)))
  hold_plans-settle MaintenanceHold.after_exit MaintenanceHold.after_exit false =
      Within.now (rests MaintenanceHold.after_exit false (λ _. refl))
