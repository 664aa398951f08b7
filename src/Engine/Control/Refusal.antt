-- ===== src/Engine/Control/Refusal.antt =====
-- When `control` of lib/engine.js refuses.
use dsh_dag_orchestrator.Prelude.{
  ◌≡◌, ◌⊎◌, inl, inr, refl, Bool, true, false, [], ◌∷◌, some, String, ◌==◌, find, Bool-cases,
  Option-cases,
}
use dsh_dag_orchestrator.Store.Rows.{RunState, RunRow, TaskRow, Store}
use dsh_dag_orchestrator.Store.Action.{
  Result, StoreError, Result-cases, ok, err, control_error, first_failure, need, store_closed,
}
use dsh_dag_orchestrator.Store.Runs.{find_run, run_at, run_is_terminal}
use dsh_dag_orchestrator.Store.Tasks.{find_tasks, tasks_of}
use dsh_dag_orchestrator.Store.Moves.{read_row}
use dsh_dag_orchestrator.Engine.Control.{
  ControlCall, ControlAction, TaskAction, on_run, on_task, require_run, require_task,
  unknown_action, validate_run_for_task_control,
}
use dsh_dag_orchestrator.Engine.Control.Entry.{control}

pub find_run-inv :
    (run_id : String) (s : Store)
    → ((e : StoreError) × (find_run run_id s ≡ (err e, s)))
      ⊎ (find_run run_id s ≡ (ok (find (run_at run_id) s.runs), s))
unfolding find_run
find_run-inv run_id s =
    let guards : Result (Unit {0}) =
      first_failure ((s.closed, store_closed) ∷ need run_id "runId" ∷ []) in
    elim (Result-cases guards) [
      | inr (x, e) ↦ inl (x, rw (find_run, e) refl)
      | inl (u, e) ↦ inr (rw (find_run, e) refl)
    ]

pub require_run-inv :
    (run_id : String) (s : Store)
    → ((e : StoreError) × (require_run run_id s ≡ (err e, s)))
      ⊎ ((r : RunRow) × (require_run run_id s ≡ (ok r, s)) × (find (run_at run_id) s.runs ≡ some r))
unfolding require_run
require_run-inv run_id s = elim (find_run-inv run_id s) [
  | inl (x, e) ↦ inl (x, rw (require_run, e) refl)
  | inr e ↦ elim (Option-cases (find (run_at run_id) s.runs)) [
    | inl n ↦ inl (control_error "dag.run_not_found", rw (require_run, e, n) refl)
    | inr (r, found) ↦ inr (r, rw (require_run, e, found) refl, found)
  ]
]

require_task-inv :
    (run_id task_id : String) (s : Store)
    → ((e : StoreError) × (require_task run_id task_id s ≡ (err e, s)))
      ⊎ ((r : TaskRow) × (require_task run_id task_id s ≡ (ok r, s)))
unfolding require_task find_tasks
require_task-inv run_id task_id s =
    let guards : Result (Unit {0}) =
      first_failure ((s.closed, store_closed) ∷ need run_id "runId" ∷ []) in
    elim (Result-cases guards) [
      | inr (x, e) ↦ inl (x, rw (require_task, e) refl)
      | inl (u, e) ↦ elim (Option-cases (read_row task_id (tasks_of run_id s.tasks))) [
        | inl n ↦ inl (control_error "dag.task_not_found", rw (require_task, e, n) refl)
        | inr (r, found) ↦ inr (r, rw (require_task, e, found) refl)
      ]
    ]

-- A run in this state is nothing for the action: over, or for a task's control, stopped or succeeded.
abbrev pub is_refused : ControlAction → RunState → Bool
is_refused (unknown_action name) state = true
is_refused (on_run action) state = run_is_terminal state
is_refused (on_task action) RunState.cancelling = true
is_refused (on_task action) RunState.cancelled = true
is_refused (on_task action) RunState.succeeded = true
is_refused (on_task action) _ = false

refuses :
    (action : TaskAction) (run : RunRow) (st : RunState)
    → run.state ≡ st
    → is_refused (on_task action) st ≡ true
    → (s : Store)
    → validate_run_for_task_control (some run) s ≡ (err (control_error "dag.invalid_run_state"), s)
unfolding validate_run_for_task_control
refuses action run RunState.cancelling e h s = rw (validate_run_for_task_control, e) refl
refuses action run RunState.cancelled e h s = rw (validate_run_for_task_control, e) refl
refuses action run RunState.succeeded e h s = rw (validate_run_for_task_control, e) refl
refuses action run RunState.running e h s = absurd (cc)
refuses action run RunState.pausing e h s = absurd (cc)
refuses action run RunState.paused e h s = absurd (cc)
refuses action run RunState.failed e h s = absurd (cc)
refuses action run (RunState.other t) e h s = absurd (cc)

module _ (sha256 : String → String) where
  -- A control throws and leaves the store as it was, where the action is none that there is, where a
  -- run is to be paused, resumed or stopped that is over, and where one task is to be retried or
  -- cancelled in a run that is being stopped, was stopped or succeeded.
  pub control-refused :
      (action : ControlAction) (c : ControlCall) (s : Store) (run : RunRow)
      → find (run_at c.run_id) s.runs ≡ some run
      → is_refused action run.state ≡ true
      → (e : StoreError) × (control sha256 action c s ≡ (err e, s))
  unfolding control
  control-refused (unknown_action name) c s run found over =
      (control_error "dag.invalid_action", refl)
  control-refused (on_run action) c s run found over = elim (require_run-inv c.run_id s) [
    | inl (x, e) ↦ (x, rw (control, e) refl)
    | inr (r, e, found') ↦
        let same : r ≡ run = cc in
        (control_error "dag.invalid_run_state", rw (control, e, same, over) refl)
  ]
  control-refused (on_task action) c s run found over = elim (require_run-inv c.run_id s) [
    | inl (x, e) ↦ (x, rw (control, e) refl)
    | inr (r, e, found') ↦ elim (Bool-cases (c.task_id == "")) [
      | inl y ↦ (control_error "dag.task_required", rw (control, e, y) refl)
      | inr n ↦ elim (require_task-inv c.run_id c.task_id s) [
        | inl (x, e') ↦ (x, rw (control, e, n, e, e') refl)
        | inr (t, e') ↦
            let same : r ≡ run = cc in
            let refusal = refuses action run run.state refl over in
            (control_error "dag.invalid_run_state", rw (control, e, n, e, e', same, refusal s) refl)
      ]
    ]
  ]
