-- ===== src/TerminalCommit/Paths.antt =====
-- The two paths of lib/terminal-commit.js, inside the transaction.
use dsh_dag_orchestrator.Prelude.{◌≡◌, Bool, some, String, find, arith}
use dsh_dag_orchestrator.States.{retry_wait}
use dsh_dag_orchestrator.Store.Rows.{AttemptState, TaskRow, Store}
use dsh_dag_orchestrator.Store.Action.{ok}
use dsh_dag_orchestrator.Store.Tables.Keyed.{IsKeyed}
use dsh_dag_orchestrator.Store.Outputs.{upsert_output}
use dsh_dag_orchestrator.TerminalCommit.{
  Settled, move_of, attempt_target, task_target, attempt_state, target_state, wait_patch, write,
  persist_output, retry_found, end_found,
}
use dsh_dag_orchestrator.Store.Tasks.{no_task_patch, task_at}
use dsh_dag_orchestrator.Store.Attempts.{attempt_at}
use dsh_dag_orchestrator.Store.Moves.Steps.{Quiet}
use dsh_dag_orchestrator.Store.Moves.Path.{
  Both, Moved, step-Through, sequence-Through, path_lem, write_event-Quiet,
}

module _ (sha256 : String → String) where
  persist_output-Quiet : (i : Settled) → Quiet (persist_output i)
  unfolding persist_output upsert_output
  persist_output-Quiet i s u h = ground arith

  pub retry_found_lem :
      (i : Settled) (row : TaskRow) (s : Store) (b : Bool)
      → IsKeyed (task_at i.run_id i.task_id) s.tasks
      → IsKeyed (attempt_at i.attempt_id) s.attempts
      → find (task_at i.run_id i.task_id) s.tasks ≡ some row
      → (retry_found sha256 i row s).0 ≡ ok b
      → Both
          (Moved (move_of i) AttemptState.failed retry_wait (wait_patch i) s)
          s
          b
          (retry_found sha256 i row s).1
  unfolding retry_found write
  retry_found_lem i row s b u v found h =
      path_lem (move_of i) _ (write_event-Quiet sha256 _ _ _) _
        (sequence-Through _ _ (step-Through _ (write_event-Quiet sha256 _ _ _))
          (step-Through _ (write_event-Quiet sha256 _ _ _)))
        AttemptState.failed retry_wait (wait_patch i) row s b u v found h

  pub end_found_lem :
      (i : Settled) (row : TaskRow) (s : Store) (b : Bool)
      → IsKeyed (task_at i.run_id i.task_id) s.tasks
      → IsKeyed (attempt_at i.attempt_id) s.attempts
      → find (task_at i.run_id i.task_id) s.tasks ≡ some row
      → (end_found sha256 i row s).0 ≡ ok b
      → Both
          (Moved
            (move_of i)
            (attempt_state (attempt_target i))
            (target_state (task_target i))
            no_task_patch
            s)
          s
          b
          (end_found sha256 i row s).1
  unfolding end_found write
  end_found_lem i row s b u v found h =
      path_lem (move_of i) _ (write_event-Quiet sha256 _ _ _) _
        (sequence-Through _ _ (step-Through _ (write_event-Quiet sha256 _ _ _))
          (step-Through _ (persist_output-Quiet i)))
        (attempt_state (attempt_target i)) (target_state (task_target i)) no_task_patch row s b u v
        found h
