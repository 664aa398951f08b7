-- ===== src/Store/Moves.antt =====
-- Ending an attempt together with moving its task: what lib/terminal-commit.js and lib/recovery.js share.
pub mod Steps
pub mod Reading
pub mod Path
use dsh_dag_orchestrator.Prelude.{ℕ, List, Option, String, ◌==◌, find}
use dsh_dag_orchestrator.Store.Rows.{TaskRow}
use dsh_dag_orchestrator.Store.Attempts.{TerminalPatch}

-- Which attempt ends and which task moves, under whose token, with which columns and when.
pub record Move : Type 0 where
  pub run_id : String
  pub task_id : String
  pub attempt_id : String
  pub owner_token : Option String
  pub patch : TerminalPatch
  pub stamp : ℕ

-- `rows.find((t) => t.task_id === taskId)`
abbrev pub read_row : String → List TaskRow → Option TaskRow
read_row task_id rows = find (λ r. r.task_id == task_id) rows
