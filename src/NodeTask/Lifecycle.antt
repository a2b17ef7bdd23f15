-- ===== src/NodeTask/Lifecycle.antt =====
-- The lifecycle of a SeiNodeTask under `Reconcile`
-- (internal/controller/nodetask/controller.go).
use sei_k8s_controller.Prelude.{
  ℕ, String, ◌≡◌, refl, sym, ◌∙◌, ap, subst, false, Option, none, some, inl, inr, Bool-cases,
  Option-cases, ltb, ◌+◌,
}
use sei_k8s_controller.Plan.Types.{SeiNodePhase}
use sei_k8s_controller.NodeTask.Types.{
  SeiNodeTaskPhase, SeiNodeTaskExecution, SeiNodeTask, SeiNode, is_terminal,
}
use sei_k8s_controller.NodeTask.Runtime.{Get, TaskParams, Runtime}
use sei_k8s_controller.NodeTask.Controller.{
  State, Resolved, ready, waiting, fatal, with_task, set_phase, set_condition, mark_failed,
  resolve_target, or_running, is_phase, or_default, default_require_phase_timeout,
  target_wait_interval, result_requeue_immediate,
}
use sei_k8s_controller.NodeTask.Drive.{drive_task}
use sei_k8s_controller.NodeTask.Reconcile.{
  flush, observed, fresh_task, synthesize, on_task, on_resolved, reconcile_live, reconcile,
  poll_interval,
}
use sei_k8s_controller.NodeTask.Next.{Drove, drive_task-Drove, set_phase-phase, set_phase-task}

-- How a pass changes the phase and the task of an object whose task, once synthesized, is `fresh`.
pub data Next (fresh : SeiNodeTaskExecution)
    : SeiNodeTaskPhase
      → Option SeiNodeTaskExecution
      → SeiNodeTaskPhase
      → Option SeiNodeTaskExecution
      → Type 0 where
  waits : {p : SeiNodeTaskPhase} {t : Option SeiNodeTaskExecution} → Next fresh p t p t
  rejected :
      {p : SeiNodeTaskPhase} {t : Option SeiNodeTaskExecution}
      → is_terminal p ≡ false
      → Next fresh p t SeiNodeTaskPhase.failed t
  synthesized :
      {p : SeiNodeTaskPhase}
      → is_terminal p ≡ false
      → Next fresh p none SeiNodeTaskPhase.running (some fresh)
  driven :
      {p q : SeiNodeTaskPhase} {t : SeiNodeTaskExecution} {u : Option SeiNodeTaskExecution}
      → is_terminal p ≡ false
      → Drove t.id p q u
      → Next fresh p (some t) q u

abbrev pub SameTask : SeiNodeTask → SeiNodeTask → Type 0
SameTask cr cr' =
    (cr'.status.phase ≡ cr.status.phase)
    × (cr'.status.task ≡ cr.status.task)
    × (cr'.uid ≡ cr.uid)
    × (cr'.spec ≡ cr.spec)

module _ {W : Type 0} where
  abbrev pub SameResolved : SeiNodeTask → Resolved W → Type 0
  SameResolved cr (ready target s) = SameTask cr s.cr
  SameResolved cr (waiting s) = SameTask cr s.cr
  SameResolved cr (fatal msg s) = SameTask cr s.cr

module _ {W E : Type 0} (rt : Runtime W E) (now : ℕ) where
  pub flush-cr :
      (before : SeiNodeTask) (s : State W) (r : ℕ) (e : Option String)
      → (flush rt now before s r e).state.cr ≡ s.cr
  unfolding flush
  flush-cr before s r e = elim (Bool-cases (rt.same_status before.status s.cr.status)) [
    | inl h ↦ rw h refl
    | inr h ↦ elim (Option-cases ((rt.patch_status s.cr s.world).0)) [
      | inl k ↦ rw (h, k) refl
      | inr (msg, k) ↦ rw (h, k) refl
    ]
  ]

  pub resolve_target-same : (s : State W) → SameResolved s.cr (resolve_target rt now s)
  unfolding resolve_target set_condition
  resolve_target-same s = by_get (rt.get_node name s.cr.namespace s.world) refl
    where
      name : String
      name = s.cr.spec.target.node_name

      wanted : SeiNodePhase
      wanted = or_running s.cr.spec.target.require_phase

      by_get :
          (g : Get SeiNode)
          → rt.get_node name s.cr.namespace s.world ≡ g
          → SameResolved s.cr (resolve_target rt now s)
      by_get Get.not_found h = rw (resolve_target, h) (refl, refl, refl, refl)
      by_get (Get.error msg) h = rw (resolve_target, h) (refl, refl, refl, refl)
      by_get (Get.found target) h = elim (Bool-cases (is_phase target.phase wanted)) [
        | inl k ↦ rw (resolve_target, h, k) (refl, refl, refl, refl)
        | inr k ↦
            let first = or_default s.cr.status.target_first_observed_at now in
            let timeout =
              or_default s.cr.spec.target.require_phase_timeout default_require_phase_timeout in
            elim (Bool-cases (ltb (first + timeout) now)) [
              | inl l ↦ rw (resolve_target, h, k, l) (refl, refl, refl, refl)
              | inr l ↦ rw (resolve_target, h, k, l) (refl, refl, refl, refl)
            ]
      ]

  abbrev pub NextTo : SeiNodeTask → SeiNodeTask → Type 0
  NextTo cr cr' =
      Next (fresh_task rt now cr) cr.status.phase cr.status.task cr'.status.phase cr'.status.task

  NextTo-SameTask : (cr c x : SeiNodeTask) → SameTask cr c → NextTo c x → NextTo cr x
  NextTo-SameTask cr c x (p, t, u, k) h = rw (sym p, sym t, sym u, sym k) h

  mark_failed-Next :
      (s : State W) (reason msg : String)
      → is_terminal s.cr.status.phase ≡ false
      → NextTo s.cr (mark_failed rt now reason msg s).cr
  unfolding mark_failed set_condition
  mark_failed-Next s reason msg live =
      rw
        (
          set_phase-phase s.cr SeiNodeTaskPhase.failed now,
          set_phase-task s.cr SeiNodeTaskPhase.failed now,
        )
        (Next.rejected live)

  flush-Next :
      (cr before : SeiNodeTask) (x : State W) (r : ℕ) (e : Option String)
      → NextTo cr x.cr
      → NextTo cr (flush rt now before x r e).state.cr
  flush-Next cr before x r e h = subst (NextTo cr) (sym (flush-cr before x r e)) h

  synthesize-Next :
      (before : SeiNodeTask) (s : State W) (ps : TaskParams)
      → s.cr.status.task ≡ none
      → is_terminal s.cr.status.phase ≡ false
      → NextTo s.cr (synthesize rt now before s ps).state.cr
  unfolding synthesize
  synthesize-Next before s (TaskParams.error reason msg) n live =
      flush-Next s.cr before (mark_failed rt now reason msg s) 0 none
        (mark_failed-Next s reason msg live)
  synthesize-Next before s (TaskParams.params type payload) n live =
      let made = with_task s.cr (fresh_task rt now s.cr) in
      flush-Next s.cr before (record s { cr = set_phase made SeiNodeTaskPhase.running now })
        result_requeue_immediate none
        (rw
          (
            set_phase-phase made SeiNodeTaskPhase.running now,
            set_phase-task made SeiNodeTaskPhase.running now,
            n,
          )
          (Next.synthesized live))

  on_task-Next :
      (before : SeiNodeTask) (s : State W) (target : SeiNode) (o : Option SeiNodeTaskExecution)
      → s.cr.status.task ≡ o
      → is_terminal s.cr.status.phase ≡ false
      → NextTo s.cr (on_task rt now before s target o).state.cr
  unfolding on_task
  on_task-Next before s target none n live =
      synthesize-Next before s (rt.task_params s.cr none) n live
  on_task-Next before s target (some t) n live =
      let driven = drive_task rt now s t target in
      flush-Next s.cr before driven.state (poll_interval rt now driven.state.cr) driven.exec_err (
        subst
          (λ o.
            Next (fresh_task rt now s.cr) s.cr.status.phase o driven.state.cr.status.phase
              driven.state.cr.status.task)
          (sym n) (Next.driven live (drive_task-Drove rt now s t target n)))

  on_resolved-Next :
      (cr : SeiNodeTask) (r : Resolved W)
      → SameResolved cr r
      → is_terminal cr.status.phase ≡ false
      → NextTo cr (on_resolved rt now cr r).state.cr
  unfolding on_resolved
  on_resolved-Next cr (ready target s) (p, t, u, k) live =
      NextTo-SameTask cr s.cr (on_task rt now cr s target s.cr.status.task).state.cr (p, t, u, k)
        (on_task-Next cr s target s.cr.status.task refl (ap is_terminal p ∙ live))
  on_resolved-Next cr (waiting s) (p, t, u, k) live =
      flush-Next cr cr s target_wait_interval none (rw (p, t) Next.waits)
  on_resolved-Next cr (fatal msg s) (p, t, u, k) live =
      let failed = mark_failed rt now "TargetResolveFailed" msg s in
      flush-Next cr cr failed 0 none (
        NextTo-SameTask cr s.cr failed.cr (p, t, u, k)
          (mark_failed-Next s "TargetResolveFailed" msg (ap is_terminal p ∙ live)))

  abbrev pub start : SeiNodeTask → W → State W
  start cr w = record { cr = observed rt now cr; world = w }

  -- A pass leaves the phase and the task of the object as they are, or fails an object that is not
  -- terminal, or synthesizes the task with the id derived from the object's uid and kind and sets
  -- the phase Running, or drives the task it has: the task then keeps its id, and the phase stays,
  -- becomes Complete with a complete task, or becomes Failed.
  pub reconcile-Next : (cr : SeiNodeTask) (w : W) → NextTo cr (reconcile rt now cr w).state.cr
  unfolding reconcile reconcile_live
  reconcile-Next cr w = elim (Bool-cases (is_terminal cr.status.phase)) [
    | inl h ↦ rw (reconcile, h) Next.waits
    | inr h ↦
        rw (reconcile, h, reconcile_live)
          (on_resolved-Next cr (resolve_target rt now (start cr w))
            (resolve_target-same (start cr w)) h)
  ]
