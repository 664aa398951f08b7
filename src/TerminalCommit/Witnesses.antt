-- ===== src/TerminalCommit/Witnesses.antt =====
-- The theorems on lib/terminal-commit.js at a concrete attempt.
use mathlib.Core.Bool.{decide}
use dsh_dag_orchestrator.Prelude.{◌≡◌, refl, false, [], ◌∷◌, none, some, String, arith}
use dsh_dag_orchestrator.Json.{canonical_json}
use dsh_dag_orchestrator.Store.Tasks.{find_tasks, cas_task_state}
use dsh_dag_orchestrator.Store.Attempts.{commit_terminal}
use dsh_dag_orchestrator.Store.Events.{event_guards, hashed_object, insert_event}
use dsh_dag_orchestrator.States.{running}
use dsh_dag_orchestrator.Store.Rows.{AttemptState, AttemptRow, TaskRow, Store}
use dsh_dag_orchestrator.Store.Action.{ok, tx}
use dsh_dag_orchestrator.Store.Payloads.{write_event}
use dsh_dag_orchestrator.TerminalCommit.{
  Settled, to_succeeded, ended, ending, persist_output, write, end_found, settle, land,
}
use dsh_dag_orchestrator.TerminalCommit.Together.{Landed, land-Landed}

abbrev build_row : TaskRow
build_row = record {
  run_id = "r1";
  task_id = "build";
  state = running;
  version = 3;
  blocked_reason = none;
  retry_not_before = none;
  updated_at = 0;
}

abbrev attempt_row : AttemptRow
attempt_row = record {
  attempt_id = "a1";
  run_id = "r1";
  task_id = "build";
  ordinal = 1;
  state = AttemptState.running;
  backend = "dsh";
  child_session = none;
  owner_token = some "me";
  started_at = 0;
  updated_at = 0;
  stop_reason = none;
  failure_json = none;
  result_json = none;
}

abbrev before : Store
before = record {
  runs = [];
  tasks = build_row ∷ [];
  attempts = attempt_row ∷ [];
  events = [];
  approvals = [];
  outputs = [];
  active_tx = false;
  closed = false;
}

abbrev settled : Settled
settled = record {
  run_id = "r1";
  task_id = "build";
  attempt_id = "a1";
  ordinal = 1;
  slot = none;
  session_key = none;
  owner_token = some "me";
  failure = none;
  structured = none;
  output_text = none;
  stop_reason = none;
  retry = false;
  backoff_ms = 0;
  forced_task_target = none;
  verify_status = none;
  verify_evidence = none;
  manual = false;
  declared_output = none;
  now = 7;
  stamp = 7;
  id₁ = "e1";
  id₂ = "e2";
  id₃ = "e3";
}

-- A hash function for the example.
abbrev same_text : String → String
same_text t = t

land-Landed_example : Landed settled before (land same_text settled before)
land-Landed_example = land-Landed same_text settled before (omega arith) (omega arith)

success_ends : (land same_text settled before).0 ≡ ok (ended to_succeeded)
unfolding land tx settle find_tasks end_found commit_terminal write write_event insert_event
    event_guards canonical_json ending hashed_object persist_output cas_task_state decide
success_ends = refl
