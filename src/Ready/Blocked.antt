-- ===== src/Ready/Blocked.antt =====
-- The blocked list of lib/ready-evaluator.js, and parked tasks.
use mathlib.Core.List.{Memᴰ}
use dsh_dag_orchestrator.Prelude.{
  ◌≡◌, ◌⊎◌, inl, inr, refl, sym, Bool, true, false, List, [], ◌∷◌, some, String, arith, All, eq_iff,
  ℕ, ap,
}
use dsh_dag_orchestrator.States.{blocked}
use dsh_dag_orchestrator.Ready.{
  DependencyEdge, SpecTask, TaskView, Options, BlockedCode, BlockedReason, on_upstream,
  output_missing, reason_code, blocks, control_blocked, control_of, view_of, is_ready_source,
  inputs_block, Outcome, skipped, is_ready, is_blocked_by, outcome_of, ReadyEvaluation,
  evaluate_ready, add_outcome,
}
use dsh_dag_orchestrator.Ready.Edges.{
  EdgeHolds, EdgeHolds-satisfied, control_of-done, verdict, DepVerdict-cases,
}
use dsh_dag_orchestrator.Ready.Sound.{
  InputsPresent, InputsPresent-none, Way, unlisted, not_source, waits, blocked_edge, blocked_input,
  goes, outcome_of-Way,
}
use dsh_dag_orchestrator.Ready.Listed.{Listed, Listed-cons, evaluate_ready_sound}

module _ (opts : Options) (views : List TaskView) where
  -- The edge that blocks: its own upstream task is the one that the reason names.
  pub record BlockingEdge (deps : List DependencyEdge) (reason : BlockedReason) : Type 0 where
    pub dep : DependencyEdge
    pub code : BlockedCode
    pub declared : Memᴰ dep deps
    pub judged : verdict opts views dep ≡ blocks code
    pub fails : ¬ EdgeHolds opts views dep
    pub reported : reason ≡ on_upstream code dep.task_id

  pub record MissingInput (task : SpecTask) (reason : BlockedReason) : Type 0 where
    pub edges : All (EdgeHolds opts views) task.depends_on
    pub missing : ¬ InputsPresent opts task.inputs
    pub reported : reason_code reason ≡ output_missing

  pub record IsBlocked (reason : BlockedReason) (task : SpecTask) : Type 0 where
    pub view : TaskView
    pub found : view_of views task.id ≡ some view
    pub source : is_ready_source view opts.now ≡ true
    pub because : BlockingEdge task.depends_on reason ⊎ MissingInput task reason

  BlockingEdge-cons :
      (d : DependencyEdge) {deps : List DependencyEdge} {reason : BlockedReason}
      → BlockingEdge deps reason
      → BlockingEdge (d ∷ deps) reason
  BlockingEdge-cons d b = record {
    dep = b.dep;
    code = b.code;
    declared = Memᴰ.tail b.declared;
    judged = b.judged;
    fails = b.fails;
    reported = b.reported;
  }

  not-EdgeHolds :
      (dep : DependencyEdge) (c : BlockedCode)
      → verdict opts views dep ≡ blocks c
      → ¬ EdgeHolds opts views dep
  not-EdgeHolds dep c e h = cc (EdgeHolds-satisfied opts views dep h)

  control_of-blocked :
      (deps : List DependencyEdge) (w : Bool) (reason : BlockedReason)
      → control_of opts views deps w ≡ control_blocked reason
      → BlockingEdge deps reason
  unfolding control_of
  control_of-blocked [] w reason h = absurd (cc)
  control_of-blocked (d ∷ deps) w reason h = elim (DepVerdict-cases (verdict opts views d)) [
    | inl e ↦ BlockingEdge-cons d (control_of-blocked deps w reason (rw (control_of, e) at h))
    | inr (inl e) ↦
        BlockingEdge-cons d (control_of-blocked deps true reason (rw (control_of, e) at h))
    | inr (inr (c, e)) ↦ record {
      dep = d;
      code = c;
      declared = Memᴰ.head refl;
      judged = e;
      fails = not-EdgeHolds d c e;
      reported = cc (rw (control_of, e) at h);
    }
  ]

  inputs_block-code :
      (refs : List String) (r : BlockedReason)
      → inputs_block opts refs ≡ some r
      → reason_code r ≡ output_missing
  unfolding inputs_block reason_code
  inputs_block-code [] r h = absurd (cc)
  inputs_block-code (x ∷ xs) r h = ground arith

  Way-IsBlocked :
      (task : SpecTask) (reason : BlockedReason) {o : Outcome}
      → Way opts views task o
      → o ≡ is_blocked_by reason
      → IsBlocked reason task
  Way-IsBlocked task reason (unlisted e) h = absurd (cc)
  Way-IsBlocked task reason (not_source v e s) h = absurd (cc)
  Way-IsBlocked task reason (waits v e s c) h = absurd (cc)
  Way-IsBlocked task reason (goes v e s c i) h = absurd (cc)
  Way-IsBlocked task reason (blocked_edge v r e s c) h = record {
    view = v;
    found = e;
    source = s;
    because = inl (control_of-blocked task.depends_on false reason (cc c));
  }
  Way-IsBlocked task reason (blocked_input v r e s c i) h =
      let same : inputs_block opts task.inputs ≡ some reason = cc i in
      record {
        view = v;
        found = e;
        source = s;
        because = inr (record {
          edges = (control_of-done opts views task.depends_on false c).1;
          missing = λ p. cc (InputsPresent-none opts task.inputs p);
          reported = inputs_block-code task.inputs reason same;
        });
      }

mem-add_outcome_blocked :
    (id : String) (o : Outcome) (r : ReadyEvaluation) (x : String) (reason : BlockedReason)
    → Memᴰ (x, reason) (add_outcome id o r).blocked_tasks
    → ((o ≡ is_blocked_by reason) × (x ≡ id)) ⊎ Memᴰ (x, reason) r.blocked_tasks
mem-add_outcome_blocked id skipped r x reason m = inr m
mem-add_outcome_blocked id is_ready r x reason m = inr m
mem-add_outcome_blocked id (is_blocked_by q) r x reason (Memᴰ.head e) =
    inl (ap (λ p. is_blocked_by p.1) (sym e), ap (λ p. p.0) e)
mem-add_outcome_blocked id (is_blocked_by q) r x reason (Memᴰ.tail m) = inr m

module _ (opts : Options) (views : List TaskView) where
  -- Every entry of the blocked list is an evaluation source of the spec, blocked by an edge of its
  -- own that does not hold and whose upstream task the reason names, or, where all of its edges
  -- hold, by an input that is not there.
  pub evaluate_ready-IsBlocked :
      (tasks : List SpecTask) (id : String) (reason : BlockedReason)
      → Memᴰ (id, reason) (evaluate_ready opts views tasks).blocked_tasks
      → Listed (IsBlocked opts views reason) tasks id
  unfolding evaluate_ready
  evaluate_ready-IsBlocked [] id reason m = elim m [ ]
  evaluate_ready-IsBlocked (t ∷ ts) id reason m =
      elim (mem-add_outcome_blocked t.id (outcome_of opts views t) (evaluate_ready opts views ts) id
        reason m) [
          | inl (e, same) ↦ record {
            task = t;
            planned = Memᴰ.head refl;
            named = sym same;
            holds = Way-IsBlocked opts views t reason (outcome_of-Way opts views t) e;
          }
          | inr later ↦ Listed-cons t (evaluate_ready-IsBlocked ts id reason later)
        ]

-- A task that waits for a human: parked for an approval or on a merge conflict.
abbrev pub IsParked : TaskView → Type 0
IsParked v =
    (v.state ≡ blocked)
    × ((v.blocked_reason_code ≡ some "approval_pending")
        ⊎ (v.blocked_reason_code ≡ some "merge_conflicted"))

parked-not_source : (v : TaskView) (now : ℕ) → IsParked v → is_ready_source v now ≡ false
unfolding is_ready_source
parked-not_source v now h = ground (
  arith,
  eq_iff "approval_pending" "approval_pending",
  eq_iff "merge_conflicted" "merge_conflicted",
)

module _ (opts : Options) (views : List TaskView) where
  -- A task that is parked for an approval or on a merge conflict is in neither list of an
  -- evaluation, whatever its edges and inputs say.
  pub parked_untouched :
      (tasks : List SpecTask) (id : String) (v : TaskView)
      → view_of views id ≡ some v
      → IsParked v
      → (¬ Memᴰ id (evaluate_ready opts views tasks).ready_task_ids)
        × ((reason : BlockedReason)
            → ¬ Memᴰ (id, reason) (evaluate_ready opts views tasks).blocked_tasks)
  parked_untouched tasks id v e p = (
    λ m.
        let l = evaluate_ready_sound opts views tasks id m in
        clash l.task l.named l.holds.view l.holds.found l.holds.source,
    λ reason m.
        let l = evaluate_ready-IsBlocked opts views tasks id reason m in
        clash l.task l.named l.holds.view l.holds.found l.holds.source,
  )
    where
      clash :
          (t : SpecTask)
          → t.id ≡ id
          → (w : TaskView) → view_of views t.id ≡ some w
          → is_ready_source w opts.now ≡ true
          → ⊥
      clash t named w found source =
          cc (parked-not_source v opts.now p, ap (λ i. view_of views i) named)
