-- ===== src/NodeTask/Passes.antt =====
-- A SeiNodeTask over any number of reconciles (internal/controller/nodetask/controller.go) and
-- edits of its spec, whose kind the API server keeps.
use sei_k8s_controller.Prelude.{ℕ, ◌+◌, String, ◌≡◌, refl, ◌∙◌, true, false, Option, none, some}
use sei_k8s_controller.Plan.Types.{TaskStatus}
use sei_k8s_controller.NodeTask.Types.{
  SeiNodeTaskPhase, SeiNodeTaskExecution, SeiNodeTaskSpec, SeiNodeTask, is_terminal,
}
use sei_k8s_controller.NodeTask.Runtime.{Runtime}
use sei_k8s_controller.NodeTask.Controller.{with_status}
use sei_k8s_controller.NodeTask.Reconcile.{reconcile}
use sei_k8s_controller.NodeTask.Next.{Drove}
use sei_k8s_controller.NodeTask.Lifecycle.{Next, reconcile-Next}

-- The phases with the tasks that they go with; `id` is the id of the one task.
pub data Coherent (id : String) : SeiNodeTaskPhase → Option SeiNodeTaskExecution → Type 0 where
  untouched : Coherent id SeiNodeTaskPhase.unset none
  running : {t : SeiNodeTaskExecution} → t.id ≡ id → Coherent id SeiNodeTaskPhase.running (some t)
  complete :
      {t : SeiNodeTaskExecution}
      → t.id ≡ id
      → t.status ≡ TaskStatus.complete
      → Coherent id SeiNodeTaskPhase.complete (some t)
  refused : Coherent id SeiNodeTaskPhase.failed none
  failed : {t : SeiNodeTaskExecution} → t.id ≡ id → Coherent id SeiNodeTaskPhase.failed (some t)

Drove-Coherent :
    {id : String} {p q : SeiNodeTaskPhase} {t : SeiNodeTaskExecution}
    {u : Option SeiNodeTaskExecution}
    → Coherent id p (some t)
    → is_terminal p ≡ false
    → Drove t.id p q u
    → Coherent id q u
Drove-Coherent (Coherent.running k) live (Drove.kept h) = Coherent.running (h ∙ k)
Drove-Coherent (Coherent.complete k c) live d = absurd (cc)
Drove-Coherent (Coherent.failed k) live d = absurd (cc)
Drove-Coherent (Coherent.running k) live (Drove.done h s) = Coherent.complete (h ∙ k) s
Drove-Coherent (Coherent.running k) live (Drove.failed h) = Coherent.failed (h ∙ k)

Next-Coherent :
    {fresh : SeiNodeTaskExecution} {p q : SeiNodeTaskPhase} {t u : Option SeiNodeTaskExecution}
    → Coherent fresh.id p t
    → Next fresh p t q u
    → Coherent fresh.id q u
Next-Coherent c Next.waits = c
Next-Coherent Coherent.untouched (Next.rejected live) = Coherent.refused
Next-Coherent (Coherent.running k) (Next.rejected live) = Coherent.failed k
Next-Coherent (Coherent.complete k c) (Next.rejected live) = Coherent.failed k
Next-Coherent Coherent.refused (Next.rejected live) = Coherent.refused
Next-Coherent (Coherent.failed k) (Next.rejected live) = Coherent.failed k
Next-Coherent c (Next.synthesized live) = Coherent.running refl
Next-Coherent c (Next.driven live d) = Drove-Coherent c live d

module _ {W E : Type 0} (rt : Runtime W E) where
  -- the stored objects that follow one another
  pub data Reach (from : SeiNodeTask) : SeiNodeTask → Type 0 where
    start : Reach from from
    -- a pass whose patch of the status is stored
    pass :
        {cr : SeiNodeTask}
        → Reach from cr
        → (now : ℕ) (w : W) → Reach from (with_status cr (reconcile rt now cr w).state.cr.status)
    -- the status patch fails, or another one is stored first
    lost : {cr : SeiNodeTask} → Reach from cr → (now : ℕ) (w : W) → Reach from cr
    edit :
        {cr : SeiNodeTask}
        → Reach from cr
        → (spec' : SeiNodeTaskSpec) → spec'.kind ≡ cr.spec.kind
        → Reach from (record cr { spec = spec'; generation = cr.generation + 1 })

  abbrev pub task_id_of : SeiNodeTask → String
  task_id_of cr = rt.task_id cr.uid cr.spec.kind

  -- From an object that was never reconciled, over passes, lost writes and edits of the spec, the
  -- phase and the task stay coherent: no task before Running, one task with the id derived from uid
  -- and kind while Running, a complete task under Complete.
  pub Reach-Coherent :
      {from cr : SeiNodeTask}
      → from.status.phase ≡ SeiNodeTaskPhase.unset
      → from.status.task ≡ none
      → Reach from cr
      → Coherent (task_id_of cr) cr.status.phase cr.status.task
  Reach-Coherent p t Reach.start = rw (p, t) Coherent.untouched
  Reach-Coherent p t (Reach.pass {cr = cr} r now w) =
      Next-Coherent (Reach-Coherent p t r) (reconcile-Next rt now cr w)
  Reach-Coherent p t (Reach.lost r now w) = Reach-Coherent p t r
  Reach-Coherent p t (Reach.edit {cr = cr} r spec' k) = rw k (Reach-Coherent p t r)

  -- The status of an object that is Complete or Failed never changes again, whatever passes and
  -- edits follow.
  pub Reach-terminal :
      {from cr : SeiNodeTask}
      → is_terminal from.status.phase ≡ true
      → Reach from cr
      → cr.status ≡ from.status
  unfolding reconcile
  Reach-terminal h Reach.start = refl
  Reach-terminal h (Reach.pass {cr = cr} r now w) =
      let same = Reach-terminal h r in
      let done : is_terminal cr.status.phase ≡ true = rw same h in rw (reconcile, done) same
  Reach-terminal h (Reach.lost r now w) = Reach-terminal h r
  Reach-terminal h (Reach.edit r spec' k) = Reach-terminal h r
