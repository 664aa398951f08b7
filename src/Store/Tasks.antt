-- ===== src/Store/Tasks.antt =====
-- The methods of lib/dag-store.js on the table `tasks`.
pub mod Races
pub mod Keys
use mathlib.Core.Bool.{decide}
use dsh_dag_orchestrator.Prelude.{
  ℕ, suc, Bool, ◌&&◌, List, [], ◌∷◌, ◌++◌, Option, none, some, String, ◌==◌, nat_eq, if◌then◌else◌,
  filter, find, get_or, map,
}
use dsh_dag_orchestrator.Prelude.Texts.{text_le}
use dsh_dag_orchestrator.Prelude.Sort.{sort}
use dsh_dag_orchestrator.States.{TaskState, TaskState-discrete, ready}
use dsh_dag_orchestrator.Store.Rows.{ReasonText, TaskRow}
use dsh_dag_orchestrator.Store.Action.{
  Action, Cas, Current, check, constraint, done, gets, mismatch, modify, need, not_found, pure,
  throw, ◌>>=◌, ◌>>◌,
}
use dsh_dag_orchestrator.Store.Tables.{update_where, changes}

-- The columns that `casTaskState` may patch; an absent one is left alone.
pub record TaskPatch : Type 0 where
  pub blocked_reason : Option (Option ReasonText)
  pub retry_not_before : Option (Option ℕ)

abbrev pub no_task_patch : TaskPatch
no_task_patch = record { blocked_reason = none; retry_not_before = none }

abbrev pub task_at : String → String → TaskRow → Bool
task_at run_id task_id r = r.run_id == run_id && r.task_id == task_id

abbrev pub task_le : TaskRow → TaskRow → Bool
task_le a b = text_le a.task_id b.task_id

unfoldable pub tasks_of : String → List TaskRow → List TaskRow
unfolding sort text_le
tasks_of run_id rows = sort task_le (filter (λ r. r.run_id == run_id) rows)

unfoldable pub find_tasks : String → Action (List TaskRow)
unfolding tasks_of
find_tasks run_id = do check (need run_id "runId" ∷ []); gets (λ s. tasks_of run_id s.tasks)

unfoldable pub find_ready_tasks : String → Action (List TaskRow)
unfolding tasks_of TaskState-discrete
find_ready_tasks run_id = do
  check (need run_id "runId" ∷ [])
  gets (λ s. tasks_of run_id (filter (λ r. decide (TaskState-discrete r.state ready)) s.tasks))

-- The rows go in one by one; the first whose key is taken throws.
unfoldable pub insert_rows : List TaskRow → Action (Unit {0})
insert_rows [] = pure tt
insert_rows (row ∷ rows) = do
  check (need row.task_id "task_id" ∷ [])
  taken ← gets (λ s. changes (task_at row.run_id row.task_id) s.tasks)
  if nat_eq taken 0
      then modify (λ s. record s { tasks = s.tasks ++ row ∷ [] })
      else throw (constraint "tasks.run_id, tasks.task_id")
  insert_rows rows

unfoldable pub insert_tasks : String → List TaskRow → Action (List TaskRow)
unfolding insert_rows find_tasks
insert_tasks run_id rows = do
  check (need run_id "runId" ∷ [])
  insert_rows (map (λ (r : TaskRow). record r { run_id = run_id }) rows)
  find_tasks run_id

abbrev pub task_matches : String → String → TaskState → ℕ → TaskRow → Bool
task_matches run_id task_id from version r =
    task_at run_id task_id r
    && (decide (TaskState-discrete r.state from) && nat_eq r.version version)

abbrev pub set_task : TaskState → TaskPatch → ℕ → TaskRow → TaskRow
set_task to patch now r = record r {
  state = to;
  version = suc r.version;
  updated_at = now;
  blocked_reason = get_or patch.blocked_reason r.blocked_reason;
  retry_not_before = get_or patch.retry_not_before r.retry_not_before;
}

abbrev pub task_current : TaskRow → Current TaskState
task_current r = record { state = r.state; version = r.version }

abbrev pub task_lost : Option TaskRow → Cas TaskRow (Current TaskState)
task_lost none = not_found
task_lost (some r) = mismatch (task_current r)

-- The `UPDATE` and the answer that `changes` decides. The row that it set is there to be read back.
unfoldable pub cas_tasks :
    String
    → String
    → TaskState
    → ℕ
    → TaskState
    → TaskPatch
    → ℕ
    → List TaskRow
    → Cas TaskRow (Current TaskState) × List TaskRow
unfolding TaskState-discrete
cas_tasks run_id task_id from version to patch now rows =
    let m = task_matches run_id task_id from version in
    let rows' = update_where m (set_task to patch now) rows in
    if nat_eq (changes m rows) 1
    then (elim (find (task_at run_id task_id) rows') [ some r ↦ done r | none ↦ not_found ], rows')
    else (task_lost (find (task_at run_id task_id) rows), rows')

unfoldable pub cas_task_state :
    String
    → String
    → TaskState
    → ℕ
    → TaskState
    → TaskPatch
    → ℕ
    → Action (Cas TaskRow (Current TaskState))
unfolding cas_tasks
cas_task_state run_id task_id from version to patch now = do
  check (need run_id "runId" ∷ need task_id "taskId" ∷ [])
  answer ← gets (λ s. cas_tasks run_id task_id from version to patch now s.tasks)
  modify (λ s. record s { tasks = answer.1 })
  pure answer.0
