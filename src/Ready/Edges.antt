-- ===== src/Ready/Edges.antt =====
-- When an edge lets its task go ahead, stated without the evaluator's tables, and the loop over them.
use dsh_dag_orchestrator.Prelude.{
  ◌≡◌, ◌↔◌, ◌⊎◌, inl, inr, refl, Bool, true, false, List, [], ◌∷◌, Option, none, some, arith, All,
  Option-cases, sym, if◌then◌else◌,
}
use dsh_dag_orchestrator.States.{TaskState, succeeded, failed, cancelled, blocked}
use dsh_dag_orchestrator.Ready.{
  Condition, on_succeeded, on_completed, DependencyEdge, DependencyGate, TaskView, Options,
  DepVerdict, BlockedCode, satisfied, waiting, blocks, upstream_blocked, dependency_gate_not_met,
  state_of, upstream_satisfies, view_of, gate_block, edge_verdict, control_done, control_of,
}

-- The two dependency conditions.
abbrev pub Satisfies : TaskState → Condition → Type 0
Satisfies s on_succeeded = s ≡ succeeded
Satisfies s on_completed = (s ≡ succeeded) ⊎ ((s ≡ failed) ⊎ (s ≡ cancelled))

-- A declared gate passes only through an evaluator that is wired and says so.
abbrev pub GatePasses : Options → Option DependencyGate → Type 0
GatePasses opts none = Unit
GatePasses opts (some g) =
    (evaluate : DependencyGate → Bool) × (opts.gate_evaluator ≡ some evaluate) × (evaluate g ≡ true)

pub record EdgeHolds (opts : Options) (views : List TaskView) (dep : DependencyEdge) : Type 0 where
  pub upstream : TaskView
  pub found : view_of views dep.task_id ≡ some upstream
  pub satisfies : Satisfies upstream.state dep.condition
  pub passes : GatePasses opts dep.gate

-- An upstream task satisfies an edge exactly where it succeeded, or, under the condition completed,
-- where it succeeded, failed or was cancelled.
pub upstream_satisfies_iff :
    (s : TaskState) (c : Condition) → (upstream_satisfies s c ≡ satisfied) ↔ Satisfies s c
unfolding upstream_satisfies
upstream_satisfies_iff s on_succeeded = (λ h. ground arith, λ h. ground arith)
upstream_satisfies_iff s on_completed = (λ h. ground arith, λ h. ground arith)

-- An upstream task that is blocked satisfies neither condition: the edge blocks its task in turn.
pub blocked_upstream_blocks :
    (c : Condition) → upstream_satisfies blocked c ≡ blocks upstream_blocked
unfolding upstream_satisfies
blocked_upstream_blocks on_succeeded = refl
blocked_upstream_blocks on_completed = refl

pub DepVerdict-cases :
    (v : DepVerdict) → (v ≡ satisfied) ⊎ ((v ≡ waiting) ⊎ ((c : BlockedCode) × (v ≡ blocks c)))
DepVerdict-cases satisfied = inl refl
DepVerdict-cases waiting = inr (inl refl)
DepVerdict-cases (blocks c) = inr (inr (c, refl))

module _ (opts : Options) where
  abbrev pub verdict : List TaskView → DependencyEdge → DepVerdict
  verdict views dep = edge_verdict opts (state_of (view_of views dep.task_id)) dep

  gate_block-none : (g : Option DependencyGate) → gate_block opts g ≡ none → GatePasses opts g
  unfolding gate_block
  gate_block-none none h = tt
  gate_block-none (some g) h = elim (Option-cases opts.gate_evaluator) [
    | inl e ↦ absurd (cc (sym (rw e at h)))
    | inr (f, e) ↦ (f, e, passed f (rw e at h))
  ]
    where
      passed :
          (f : DependencyGate → Bool)
          → (if f g then none else some dependency_gate_not_met) ≡ none
          → f g ≡ true
      passed f k = ground arith

  GatePasses-none : (g : Option DependencyGate) → GatePasses opts g → gate_block opts g ≡ none
  unfolding gate_block
  GatePasses-none none h = refl
  GatePasses-none (some g) (f, e, p) = rw (e, p)

  pub edge_verdict-satisfied :
      (views : List TaskView) (dep : DependencyEdge)
      → edge_verdict opts (state_of (view_of views dep.task_id)) dep ≡ satisfied
      → EdgeHolds opts views dep
  unfolding edge_verdict
  edge_verdict-satisfied views dep h = elim (Option-cases (view_of views dep.task_id)) [
    | inl e ↦ absurd (cc (sym (rw e at h)))
    | inr (v, e) ↦ record {
      upstream = v;
      found = e;
      satisfies = (upstream_satisfies_iff v.state dep.condition).0 (ground (arith, rw e at h));
      passes = gate_block-none dep.gate (ground (arith, rw e at h));
    }
  ]

  pub EdgeHolds-satisfied :
      (views : List TaskView) (dep : DependencyEdge)
      → EdgeHolds opts views dep
      → edge_verdict opts (state_of (view_of views dep.task_id)) dep ≡ satisfied
  unfolding edge_verdict
  EdgeHolds-satisfied views dep h = rw (
    h.found,
    edge_verdict,
    (upstream_satisfies_iff h.upstream.state dep.condition).1 h.satisfies,
    GatePasses-none dep.gate h.passes,
  )

  -- The loop ends with no edge blocked and none waiting exactly where every edge holds.
  pub control_of-done :
      (views : List TaskView) (deps : List DependencyEdge) (w : Bool)
      → control_of opts views deps w ≡ control_done false
      → (w ≡ false) × All (EdgeHolds opts views) deps
  unfolding control_of
  control_of-done views [] w h = (ground arith, tt)
  control_of-done views (dep ∷ deps) w h = elim (DepVerdict-cases (verdict views dep)) [
    | inl e ↦
        let (here, later) = control_of-done views deps w (rw (control_of, e) at h) in
        (here, (edge_verdict-satisfied views dep e, later))
    | inr (inl e) ↦
        let (here, later) = control_of-done views deps true (rw (control_of, e) at h) in
        absurd (cc here)
    | inr (inr (c, e)) ↦ absurd (cc (rw (control_of, e) at h))
  ]

  pub EdgeHolds-done :
      (views : List TaskView) (deps : List DependencyEdge)
      → All (EdgeHolds opts views) deps
      → control_of opts views deps false ≡ control_done false
  unfolding control_of
  EdgeHolds-done views [] h = refl
  EdgeHolds-done views (dep ∷ deps) h =
      rw (control_of, EdgeHolds-satisfied views dep h.0) (EdgeHolds-done views deps h.1)
