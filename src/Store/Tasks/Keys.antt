-- ===== src/Store/Tasks/Keys.antt =====
-- The key of the table `tasks` of lib/dag-store.js.
use dsh_dag_orchestrator.Prelude.{
  ◌≡◌, inl, inr, List, [], ◌∷◌, ◌++◌, String, ◌==◌, eq_iff, nat_eq, nat_eq_iff, arith, Bool-cases,
  &&-true,
}
use dsh_dag_orchestrator.Store.Rows.{TaskRow, Store}
use dsh_dag_orchestrator.Store.Action.{Result, Result-cases, first_failure, store_closed, need}
use dsh_dag_orchestrator.Store.Tables.{changes}
use dsh_dag_orchestrator.Store.Tables.Keyed.{IsKeyed, changes-append}
use dsh_dag_orchestrator.Store.Tasks.{task_at, insert_rows}

-- Every key of the table holds at most one row.
unfoldable pub HasKeys : List TaskRow → Type 0
HasKeys rows = (run_id task_id : String) → IsKeyed (task_at run_id task_id) rows

add_row :
    (rows : List TaskRow) (row : TaskRow)
    → HasKeys rows
    → changes (task_at row.run_id row.task_id) rows ≡ 0
    → HasKeys (rows ++ row ∷ [])
unfolding HasKeys
add_row rows row keys free run_id task_id = elim (Bool-cases (task_at run_id task_id row)) [
  | inl e ↦
      let (er, et) = &&-true (row.run_id == run_id) (row.task_id == task_id) e in
      let same_run : row.run_id ≡ run_id = (eq_iff row.run_id run_id).0 er in
      let same_task : row.task_id ≡ task_id = (eq_iff row.task_id task_id).0 et in
      let free' : changes (task_at run_id task_id) rows ≡ 0 = rw (same_run, same_task) at free in
      rw (changes-append (task_at run_id task_id) rows (row ∷ []), free', e) (omega arith)
  | inr e ↦
      rw (changes-append (task_at run_id task_id) rows (row ∷ []), e)
        (omega (arith, keys run_id task_id))
]

-- Rows go into the table of tasks one after the other, up to the first that is refused: if no key
-- had two rows before, none has two after.
pub insert_rows-HasKeys :
    (rows : List TaskRow) (s : Store) → HasKeys s.tasks → HasKeys (insert_rows rows s).1.tasks
unfolding insert_rows
insert_rows-HasKeys [] s keys = keys
insert_rows-HasKeys (row ∷ rows) s keys =
    let guards : Result (Unit {0}) =
      first_failure ((s.closed, store_closed) ∷ need row.task_id "task_id" ∷ []) in
    elim (Result-cases guards) [
      | inr (x, e) ↦ rw (insert_rows, e) keys
      | inl (u, e) ↦
          elim (Bool-cases (nat_eq (changes (task_at row.run_id row.task_id) s.tasks) 0)) [
            | inr taken ↦ rw (insert_rows, e, taken) keys
            | inl free ↦
                let s' = record s { tasks = s.tasks ++ row ∷ [] } in
                let keys' = add_row s.tasks row keys ((nat_eq_iff _ 0).0 free) in
                rw (insert_rows, e, free) (insert_rows-HasKeys rows s' keys')
          ]
    ]
