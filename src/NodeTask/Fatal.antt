-- ===== src/NodeTask/Fatal.antt =====
-- A target that cannot be read (internal/controller/nodetask/controller.go:131-134, 188-193).
use sei_k8s_controller.Prelude.{
  ℕ, String, ◌≡◌, refl, sym, ap, ◌∙◌, subst, false, none, Bool, if◌then◌else◌,
}
use sei_k8s_controller.NodeTask.Types.{SeiNodeTaskPhase, SeiNodeTask, is_terminal}
use sei_k8s_controller.NodeTask.Runtime.{Get, Runtime}
use sei_k8s_controller.NodeTask.Controller.{
  State, fatal, set_condition, mark_failed, resolve_target,
}
use sei_k8s_controller.NodeTask.Reconcile.{flush, on_resolved, reconcile_live, reconcile}
use sei_k8s_controller.NodeTask.Next.{set_phase-phase}
use sei_k8s_controller.NodeTask.Lifecycle.{flush-cr, start}

module _ {W E : Type 0} (rt : Runtime W E) (now : ℕ) where
  failed_phase :
      (before : SeiNodeTask) (s : State W) (reason msg : String)
      → (flush rt now before (mark_failed rt now reason msg s) 0 none).state.cr.status.phase
        ≡ SeiNodeTaskPhase.failed
  unfolding mark_failed set_condition
  failed_phase before s reason msg =
      ap (λ c. c.status.phase) (flush-cr rt now before (mark_failed rt now reason msg s) 0 none)
      ∙ set_phase-phase s.cr SeiNodeTaskPhase.failed now

  -- Any error of reading the target, not only its absence, fails an object that is not terminal.
  pub target_read_error :
      (cr : SeiNodeTask) (w : W) (msg : String)
      → is_terminal cr.status.phase ≡ false
      → rt.get_node cr.spec.target.node_name cr.namespace w ≡ Get.error msg
      → (reconcile rt now cr w).state.cr.status.phase ≡ SeiNodeTaskPhase.failed
  unfolding reconcile reconcile_live resolve_target on_resolved
  target_read_error cr w msg live g =
      let unread : resolve_target rt now (start rt now cr w) ≡ fatal msg (start rt now cr w) =
        by_get g in
      subst
        (λ (b : Bool).
          (if b
            then record { requeue_after = 0; failure = none; state = record { cr = cr; world = w } }
            else on_resolved rt now cr
                (resolve_target rt now (start rt now cr w))).state.cr.status.phase
          ≡ SeiNodeTaskPhase.failed)
        (sym live) (ap (λ r. (on_resolved rt now cr r).state.cr.status.phase) unread ∙ on_fatal)
    where
      by_get :
          rt.get_node cr.spec.target.node_name cr.namespace w ≡ Get.error msg
          → resolve_target rt now (start rt now cr w) ≡ fatal msg (start rt now cr w)
      by_get e = rw (resolve_target, e) refl

      on_fatal :
          (on_resolved rt now cr (fatal msg (start rt now cr w))).state.cr.status.phase
          ≡ SeiNodeTaskPhase.failed
      on_fatal = failed_phase cr (start rt now cr w) "TargetResolveFailed" msg
