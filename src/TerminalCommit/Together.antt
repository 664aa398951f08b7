-- ===== src/TerminalCommit/Together.antt =====
-- The transaction of lib/terminal-commit.js and its answer.
use dsh_dag_orchestrator.Prelude.{◌≡◌, refl, Bool, true, false, List, String, if◌then◌else◌}
use dsh_dag_orchestrator.States.{retry_wait}
use dsh_dag_orchestrator.Store.Rows.{AttemptState, AttemptRow, TaskRow, Store}
use dsh_dag_orchestrator.Store.Action.{Action, Result, ok, err, pure, tx, and_then}
use dsh_dag_orchestrator.Store.Tables.{update_where}
use dsh_dag_orchestrator.Store.Tables.Keyed.{IsKeyed}
use dsh_dag_orchestrator.TerminalCommit.{
  Settled, holds_bigint, move_of, attempt_patch, attempt_target, task_target, attempt_state,
  target_state, wait_patch, retry_found, end_found, settle, land, Disposition, retried, lost, ended,
}
use dsh_dag_orchestrator.Store.Tasks.{no_task_patch, task_at, set_task}
use dsh_dag_orchestrator.Store.Attempts.{attempt_at}
use dsh_dag_orchestrator.Store.Moves.Steps.{AttemptEnded}
use dsh_dag_orchestrator.Store.Moves.Path.{AllOrNone, Moved, tx-AllOrNone, with_row}
use dsh_dag_orchestrator.TerminalCommit.Paths.{retry_found_lem, end_found_lem}

-- What the caller is told, and what then holds of the tables.
abbrev pub Landed : Settled → Store → Result Disposition × Store → Type 0
Landed i s (err e, t) = (t ≡ s)
Landed i s (ok lost, t) = (t ≡ record s { active_tx = false })
Landed i s (ok retried, t) =
    AttemptEnded i.attempt_id i.owner_token AttemptState.failed (attempt_patch i) i.stamp s.attempts
      t.attempts
    × (t.tasks
        ≡ update_where (task_at i.run_id i.task_id) (set_task retry_wait (wait_patch i) i.stamp)
            s.tasks)
Landed i s (ok (ended x), t) =
    (x ≡ task_target i)
    × AttemptEnded i.attempt_id i.owner_token (attempt_state (attempt_target i)) (attempt_patch i)
        i.stamp s.attempts t.attempts
    × (t.tasks
        ≡ update_where (task_at i.run_id i.task_id)
            (set_task (target_state x) no_task_patch i.stamp) s.tasks)

-- The transaction's answer, told to the caller.
tell :
    (i : Settled) (s : Store) (All : List TaskRow → List AttemptRow → Type 0) (answer : Disposition)
    (r : Result Bool) (t : Store)
    → AllOrNone All s (r, t)
    → (All t.tasks t.attempts → Landed i s (ok answer, t))
    → Landed i s (and_then r (λ landed. pure (if landed then answer else lost)) t)
tell i s All answer (err e) t whole did = whole
tell i s All answer (ok false) t whole did = whole
tell i s All answer (ok true) t whole did = did whole

either :
    (i : Settled) (s : Store) (again : Bool) (m n : Action Disposition)
    → Landed i s (m s)
    → Landed i s (n s)
    → Landed i s ((if again then m else n) s)
either i s true m n a b = a
either i s false m n a b = b

module _ (sha256 : String → String) where
  -- Where at most one row has the key of the task and one the id of the attempt, ending an attempt
  -- does both of its moves or none: an exception leaves the store as it was, the answer lost leaves
  -- every table as it was, and after any other answer the attempt, which was in flight under the
  -- token of the caller, is ended and its task stands where the answer says.
  pub land-Landed :
      (i : Settled) (s : Store)
      → IsKeyed (task_at i.run_id i.task_id) s.tasks
      → IsKeyed (attempt_at i.attempt_id) s.attempts
      → Landed i s (land sha256 i s)
  unfolding land settle
  land-Landed i s u v =
      let inside : Store = record s { active_tx = true } in
      let again = settle (retry_found sha256) i in
      let over = settle (end_found sha256) i in
      let ends = attempt_state (attempt_target i) in
      let to = target_state (task_target i) in
      let m = move_of i in
      let waits = Moved m AttemptState.failed retry_wait (wait_patch i) inside in
      let rests = Moved m ends to no_task_patch inside in
      either i s (holds_bigint i.structured) _ _ refl (
        either i s i.retry _ _
          (tell i s waits retried (tx again s).0 (tx again s).1
            (tx-AllOrNone waits again s (λ b.
              with_row i.run_id i.task_id waits (retry_found sha256 i) inside b
                (λ row. retry_found_lem sha256 i row inside b u v) u))
            (λ whole. whole))
          (tell i s rests (ended (task_target i)) (tx over s).0 (tx over s).1
            (tx-AllOrNone rests over s (λ b.
              with_row i.run_id i.task_id rests (end_found sha256 i) inside b
                (λ row. end_found_lem sha256 i row inside b u v) u))
            (λ (x, y). (refl, x, y))))
