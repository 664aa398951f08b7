-- ===== src/Recovery/Witnesses.antt =====
-- The theorems on lib/recovery.js at a store that a crash left.
use mathlib.Core.Bool.{decide}
use dsh_dag_orchestrator.Prelude.{
  ◌≡◌, refl, true, false, [], ◌∷◌, none, some, String, arith, Option,
}
use dsh_dag_orchestrator.Json.{canonical_json}
use dsh_dag_orchestrator.States.{running, failed, retry_wait}
use dsh_dag_orchestrator.Store.Rows.{AttemptState, AttemptRow, Store}
use dsh_dag_orchestrator.Store.Action.{ok, tx}
use dsh_dag_orchestrator.Store.Tasks.{find_tasks, cas_task_state, no_task_patch}
use dsh_dag_orchestrator.Store.Attempts.{commit_terminal, find_attempt}
use dsh_dag_orchestrator.Store.Events.{event_guards, hashed_object, insert_event}
use dsh_dag_orchestrator.Store.Payloads.{write_event}
use dsh_dag_orchestrator.Store.Moves.Path.{AllOrNone}
use dsh_dag_orchestrator.Recovery.{
  Moment, is_running, never_dispatched, no_dispatch_patch, orphan_patch, recover_never_dispatched,
  recover_orphaned, retry_now, retry_row,
}
use dsh_dag_orchestrator.Recovery.Attempts.{
  Recovered, recover_never_dispatched-AllOrNone, recover_orphaned-AllOrNone,
}
use dsh_dag_orchestrator.Recovery.Again.{Refused, recover, recover-once}

abbrev crashed_row : Option String → AttemptRow
crashed_row child = record {
  attempt_id = "a1";
  run_id = "r1";
  task_id = "build";
  ordinal = 1;
  state = AttemptState.running;
  backend = "dsh";
  child_session = child;
  owner_token = some "old";
  started_at = 0;
  updated_at = 0;
  stop_reason = none;
  failure_json = none;
  result_json = none;
}

abbrev crashed : Option String → Store
crashed child = record {
  runs = [];
  tasks =
      record {
        run_id = "r1";
        task_id = "build";
        state = running;
        version = 3;
        blocked_reason = none;
        retry_not_before = none;
        updated_at = 0;
      }
      ∷ [];
  attempts = crashed_row child ∷ [];
  events = [];
  approvals = [];
  outputs = [];
  active_tx = false;
  closed = false;
}

abbrev moment : Moment
moment = record { now = 9; stamp = 9; id₁ = "e1"; id₂ = "e2"; id₃ = "e3" }

-- A hash function for the example.
abbrev same_text : String → String
same_text t = t

recover_never_dispatched-AllOrNone_example :
    AllOrNone
      (Recovered never_dispatched
        (crashed_row none)
        AttemptState.failed
        no_dispatch_patch
        retry_wait
        (retry_now moment)
        9
        (crashed none))
      (crashed none)
      (recover_never_dispatched same_text moment (crashed_row none) (crashed none))
recover_never_dispatched-AllOrNone_example =
    recover_never_dispatched-AllOrNone same_text moment (crashed_row none) (crashed none)
      (omega arith) (omega arith)

recover_orphaned-AllOrNone_example :
    AllOrNone
      (Recovered is_running
        (crashed_row (some "c1"))
        AttemptState.orphaned
        orphan_patch
        failed
        no_task_patch
        9
        (crashed (some "c1")))
      (crashed (some "c1"))
      (recover_orphaned same_text moment (crashed_row (some "c1")) (crashed (some "c1")))
recover_orphaned-AllOrNone_example =
    recover_orphaned-AllOrNone same_text moment (crashed_row (some "c1")) (crashed (some "c1"))
      (omega arith) (omega arith)

came_through : (recover same_text (crashed_row none) false moment (crashed none)).0 ≡ ok true
unfolding recover_never_dispatched retry_row tx find_tasks find_attempt commit_terminal write_event
    insert_event event_guards canonical_json hashed_object cas_task_state decide
came_through = refl

recover-once_example :
    Refused (recover same_text (crashed_row none) false moment (crashed none)).1 (
      recover same_text
        (crashed_row none)
        true
        moment
        (recover same_text (crashed_row none) false moment (crashed none)).1)
recover-once_example =
    recover-once same_text (crashed_row none) false true moment moment (crashed none) (omega arith)
      (omega arith) came_through
