-- ===== src/Store/Outputs.antt =====
-- The methods of lib/dag-store.js on the table `outputs`.
use dsh_dag_orchestrator.Prelude.{
  Bool, not, ◌&&◌, List, [], ◌∷◌, Option, String, ◌==◌, if◌then◌else◌, filter, find,
}
use dsh_dag_orchestrator.Prelude.Texts.{text_le}
use dsh_dag_orchestrator.Prelude.Sort.{sort}
use dsh_dag_orchestrator.Store.Rows.{OutputRow}
use dsh_dag_orchestrator.Store.Action.{Action, check, gets, modify, need, ◌>>◌}

abbrev pub output_at : String → String → String → OutputRow → Bool
output_at run_id task_id name r = r.run_id == run_id && (r.task_id == task_id && r.name == name)

-- ORDER BY name, and ORDER BY run_id, task_id, name
abbrev name_le : OutputRow → OutputRow → Bool
name_le a b = text_le a.name b.name

abbrev key_le : OutputRow → OutputRow → Bool
key_le a b =
    if not (a.run_id == b.run_id)
    then text_le a.run_id b.run_id
    else if not (a.task_id == b.task_id)
    then text_le a.task_id b.task_id
    else text_le a.name b.name

unfoldable pub find_output : String → String → String → Action (Option OutputRow)
find_output run_id task_id name = do
  check (need run_id "runId" ∷ need task_id "taskId" ∷ need name "name" ∷ [])
  gets (λ s. find (output_at run_id task_id name) s.outputs)

-- `INSERT … ON CONFLICT DO UPDATE`: the row of that key keeps its place.
unfoldable pub upsert_row : OutputRow → List OutputRow → List OutputRow
upsert_row row [] = row ∷ []
upsert_row row (r ∷ rs) =
    if output_at row.run_id row.task_id row.name r then row ∷ rs else r ∷ upsert_row row rs

unfoldable pub upsert_output : OutputRow → Action (Option OutputRow)
unfolding upsert_row find_output
upsert_output row = do
  check (
      need row.run_id "runId"
      ∷ need row.task_id "taskId"
      ∷ need row.name "name"
      ∷ need row.produced_by_attempt "attemptId"
      ∷ [])
  modify (λ s. record s { outputs = upsert_row row s.outputs })
  find_output row.run_id row.task_id row.name

unfoldable pub find_outputs_by_task : String → String → Action (List OutputRow)
unfolding sort text_le
find_outputs_by_task run_id task_id = do
  check (need run_id "runId" ∷ need task_id "taskId" ∷ [])
  gets (λ s. sort name_le (filter (λ r. r.run_id == run_id && r.task_id == task_id) s.outputs))

unfoldable pub find_all_outputs : Action (List OutputRow)
unfolding sort text_le
find_all_outputs = do check ([]); gets (λ s. sort key_le s.outputs)
