-- ===== src/Ready/Listed.antt =====
-- The ready list of lib/ready-evaluator.js.
use mathlib.Core.List.{Memᴰ}
use dsh_dag_orchestrator.Prelude.{◌≡◌, ◌⊎◌, inl, inr, refl, sym, false, List, [], ◌∷◌, String}
use dsh_dag_orchestrator.Ready.{
  SpecTask, TaskView, Options, Outcome, skipped, is_ready, is_blocked_by, outcome_of,
  ReadyEvaluation, evaluate_ready, add_outcome,
}
use dsh_dag_orchestrator.Ready.Edges.{control_of-done, EdgeHolds-done}
use dsh_dag_orchestrator.Ready.Sound.{
  IsReady, inputs_block-none, InputsPresent-none, Way, unlisted, not_source, waits, blocked_edge,
  blocked_input, goes, outcome_of-Way,
}

module _ (opts : Options) (views : List TaskView) where
  Way-IsReady :
      (task : SpecTask) {o : Outcome}
      → Way opts views task o
      → o ≡ is_ready
      → IsReady opts views task
  Way-IsReady task (unlisted e) h = absurd (cc)
  Way-IsReady task (not_source v e s) h = absurd (cc)
  Way-IsReady task (waits v e s c) h = absurd (cc)
  Way-IsReady task (blocked_edge v r e s c) h = absurd (cc)
  Way-IsReady task (blocked_input v r e s c i) h = absurd (cc)
  Way-IsReady task (goes v e s c i) h = record {
    view = v;
    found = e;
    source = s;
    edges = (control_of-done opts views task.depends_on false c).1;
    inputs = inputs_block-none opts task.inputs i;
  }

  IsReady-outcome :
      (task : SpecTask) → IsReady opts views task → outcome_of opts views task ≡ is_ready
  unfolding outcome_of
  IsReady-outcome task r = rw (
    outcome_of,
    r.found,
    r.source,
    EdgeHolds-done opts views task.depends_on r.edges,
    InputsPresent-none opts task.inputs r.inputs,
  )

mem-add_outcome_ready :
    (id : String) (o : Outcome) (r : ReadyEvaluation) (x : String)
    → Memᴰ x (add_outcome id o r).ready_task_ids
    → ((o ≡ is_ready) × (x ≡ id)) ⊎ Memᴰ x r.ready_task_ids
mem-add_outcome_ready id skipped r x m = inr m
mem-add_outcome_ready id is_ready r x (Memᴰ.head e) = inl (refl, e)
mem-add_outcome_ready id is_ready r x (Memᴰ.tail m) = inr m
mem-add_outcome_ready id (is_blocked_by reason) r x m = inr m

ready_mem-add_outcome :
    (id : String) (o : Outcome) (r : ReadyEvaluation) (x : String)
    → Memᴰ x r.ready_task_ids
    → Memᴰ x (add_outcome id o r).ready_task_ids
ready_mem-add_outcome id skipped r x m = m
ready_mem-add_outcome id is_ready r x m = Memᴰ.tail m
ready_mem-add_outcome id (is_blocked_by reason) r x m = m

-- A listed task: where it stands in the spec, and what holds of it.
pub record Listed (P : SpecTask → Type 0) (tasks : List SpecTask) (id : String) : Type 0 where
  pub task : SpecTask
  pub planned : Memᴰ task tasks
  pub named : task.id ≡ id
  pub holds : P task

pub Listed-cons :
    {P : SpecTask → Type 0} (t : SpecTask) {tasks : List SpecTask} {id : String}
    → Listed P tasks id
    → Listed P (t ∷ tasks) id
Listed-cons t l = record {
  task = l.task;
  planned = Memᴰ.tail l.planned;
  named = l.named;
  holds = l.holds;
}

module _ (opts : Options) (views : List TaskView) where
  -- Every id in the ready list is a task of the spec that is an evaluation source, whose edges all
  -- hold, gates included, and whose inputs are all present.
  pub evaluate_ready_sound :
      (tasks : List SpecTask) (id : String)
      → Memᴰ id (evaluate_ready opts views tasks).ready_task_ids
      → Listed (IsReady opts views) tasks id
  unfolding evaluate_ready
  evaluate_ready_sound [] id m = elim m [ ]
  evaluate_ready_sound (t ∷ ts) id m =
      elim (mem-add_outcome_ready t.id (outcome_of opts views t) (evaluate_ready opts views ts) id
        m) [
          | inl (e, same) ↦ record {
            task = t;
            planned = Memᴰ.head refl;
            named = sym same;
            holds = Way-IsReady opts views t (outcome_of-Way opts views t) e;
          }
          | inr later ↦ Listed-cons t (evaluate_ready_sound ts id later)
        ]

  -- No task of the spec that is an evaluation source, whose edges all hold and whose inputs are all
  -- present is left out of the ready list.
  pub evaluate_ready_complete :
      (tasks : List SpecTask) (task : SpecTask)
      → Memᴰ task tasks
      → IsReady opts views task
      → Memᴰ task.id (evaluate_ready opts views tasks).ready_task_ids
  unfolding evaluate_ready
  evaluate_ready_complete [] task m r = elim m [ ]
  evaluate_ready_complete (t ∷ ts) task (Memᴰ.head e) r =
      let o : outcome_of opts views t ≡ is_ready = rw e at (IsReady-outcome opts views task r) in
      rw (evaluate_ready, o, e) (Memᴰ.head refl)
  evaluate_ready_complete (t ∷ ts) task (Memᴰ.tail m) r =
      ready_mem-add_outcome t.id (outcome_of opts views t) (evaluate_ready opts views ts) task.id
        (evaluate_ready_complete ts task m r)
