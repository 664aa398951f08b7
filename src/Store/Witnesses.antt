-- ===== src/Store/Witnesses.antt =====
-- The theorems on lib/dag-store.js at concrete tables.
use mathlib.Core.Bool.{decide}
use dsh_dag_orchestrator.Prelude.{
  ◌≡◌, refl, true, false, List, [], ◌∷◌, Option, none, some, String, ◌==◌, if◌then◌else◌, find,
  arith,
}
use dsh_dag_orchestrator.States.{ready, queued, running}
use dsh_dag_orchestrator.Json.{
  Value, array, boolean, number, object, cons, hole, nil, field, end, text, canonical_json,
}
use dsh_dag_orchestrator.Store.Rows.{
  RunState, RunRow, AttemptState, AttemptRow, TaskRow, EventRow, Store,
}
use dsh_dag_orchestrator.Store.Action.{ok, mismatch}
use dsh_dag_orchestrator.Store.Tasks.{
  no_task_patch, task_at, set_task, task_current, insert_rows, cas_tasks,
}
use dsh_dag_orchestrator.Store.Tasks.Races.{cas_promise, cas_tasks_lem, cas_tasks-stale_loses}
use dsh_dag_orchestrator.Store.Tasks.Keys.{HasKeys, insert_rows-HasKeys}
use dsh_dag_orchestrator.Store.Runs.{no_run_patch, run_at, set_run, run_current, cas_runs}
use dsh_dag_orchestrator.Store.Runs.Races.{cas_run_promise, cas_runs_lem, cas_runs-stale_loses}
use dsh_dag_orchestrator.Store.Attempts.{
  TerminalPatch, attempt_at, set_attempt, commit_attempts, not_in_flight,
}
use dsh_dag_orchestrator.Store.Attempts.Races.{
  commit_promise, commit_attempts_lem, commit_attempts-first_wins,
}
use dsh_dag_orchestrator.Store.Events.{
  Event, event_guards, hashed_object, events_of, last_event, next_row, insert_event, verify_rows,
  verify_chain, chain_ok,
}
use dsh_dag_orchestrator.Store.Events.Append.{ReadsBack, insert_event-chain}
use dsh_dag_orchestrator.Store.Events.Printing.{Continues, insert_event_returns}

abbrev build_row : TaskRow
build_row = record {
  run_id = "r1";
  task_id = "build";
  state = ready;
  version = 3;
  blocked_reason = none;
  retry_not_before = none;
  updated_at = 0;
}

abbrev rows : List TaskRow
rows = build_row ∷ []

cas_tasks_lem_example :
    cas_tasks "r1" "build" ready 3 queued no_task_patch 9 rows
    ≡ cas_promise "r1" "build" ready 3 queued no_task_patch 9 rows
        (find (task_at "r1" "build") rows)
cas_tasks_lem_example = cas_tasks_lem "r1" "build" ready 3 queued no_task_patch 9 rows (omega arith)

cas_tasks-stale_loses_example :
    cas_tasks "r1" "build" ready 3 running no_task_patch 10
      (cas_tasks "r1" "build" ready 3 queued no_task_patch 9 rows).1
    ≡ (
      mismatch (task_current (set_task queued no_task_patch 9 build_row)),
      (cas_tasks "r1" "build" ready 3 queued no_task_patch 9 rows).1,
    )
unfolding cas_tasks decide
cas_tasks-stale_loses_example =
    cas_tasks-stale_loses "r1" "build" ready ready 3 3 queued running no_task_patch no_task_patch 9
      10 rows (set_task queued no_task_patch 9 build_row) (omega arith) refl (omega arith)

abbrev run_row : RunRow
run_row = record {
  run_id = "r1";
  name = none;
  spec_json = "{}";
  spec_hash = "h";
  state = RunState.running;
  control_intent = none;
  parent_session = none;
  planner_session = none;
  base_cwd = "/w";
  created_at = 0;
  updated_at = 0;
  version = 1;
}

cas_runs_lem_example :
    cas_runs "r1" RunState.running 1 RunState.succeeded no_run_patch 9 (run_row ∷ [])
    ≡ cas_run_promise "r1" RunState.running 1 RunState.succeeded no_run_patch 9
        (run_row ∷ [])
        (find (run_at "r1") (run_row ∷ []))
cas_runs_lem_example =
    cas_runs_lem "r1" RunState.running 1 RunState.succeeded no_run_patch 9 (run_row ∷ [])
      (omega arith)

cas_runs-stale_loses_example :
    cas_runs "r1" RunState.running 1 RunState.failed no_run_patch 10
      (cas_runs "r1" RunState.running 1 RunState.succeeded no_run_patch 9 (run_row ∷ [])).1
    ≡ (
      mismatch (run_current (set_run RunState.succeeded no_run_patch 9 run_row)),
      (cas_runs "r1" RunState.running 1 RunState.succeeded no_run_patch 9 (run_row ∷ [])).1,
    )
unfolding cas_runs decide
cas_runs-stale_loses_example =
    cas_runs-stale_loses "r1" RunState.running RunState.running 1 1 RunState.succeeded
      RunState.failed no_run_patch no_run_patch 9 10 (run_row ∷ [])
      (set_run RunState.succeeded no_run_patch 9 run_row) (omega arith) refl (omega arith)

abbrev attempt_row : AttemptRow
attempt_row = record {
  attempt_id = "a1";
  run_id = "r1";
  task_id = "build";
  ordinal = 1;
  state = AttemptState.running;
  backend = "dsh";
  child_session = none;
  owner_token = some "me";
  started_at = 0;
  updated_at = 0;
  stop_reason = none;
  failure_json = none;
  result_json = none;
}

abbrev no_patch : TerminalPatch
no_patch = record { stop_reason = none; failure_json = none; result_json = none }

commit_attempts_lem_example :
    commit_attempts "a1" (some "you") AttemptState.failed no_patch 9 (attempt_row ∷ [])
    ≡ commit_promise "a1"
        (some "you")
        AttemptState.failed
        no_patch
        9
        (attempt_row ∷ [])
        (find (attempt_at "a1") (attempt_row ∷ []))
commit_attempts_lem_example =
    commit_attempts_lem "a1" (some "you") AttemptState.failed no_patch 9 (attempt_row ∷ [])
      (omega arith)

commit_attempts-first_wins_example :
    commit_attempts "a1"
      (some "me")
      AttemptState.succeeded
      no_patch
      10
      (commit_attempts "a1" (some "me") AttemptState.failed no_patch 9 (attempt_row ∷ [])).1
    ≡ (
      not_in_flight (set_attempt AttemptState.failed no_patch 9 attempt_row),
      (commit_attempts "a1" (some "me") AttemptState.failed no_patch 9 (attempt_row ∷ [])).1,
    )
unfolding commit_attempts
commit_attempts-first_wins_example =
    commit_attempts-first_wins "a1" (some "me") (some "me") AttemptState.failed
      AttemptState.succeeded no_patch no_patch 9 10 (attempt_row ∷ [])
      (set_attempt AttemptState.failed no_patch 9 attempt_row) (omega arith) refl refl

abbrev in_tx : Store
in_tx = record {
  runs = [];
  tasks = [];
  attempts = [];
  events = [];
  approvals = [];
  outputs = [];
  active_tx = true;
  closed = false;
}

empty-HasKeys : HasKeys []
unfolding HasKeys
empty-HasKeys run_id task_id = omega arith

insert_rows-HasKeys_example : HasKeys (insert_rows (build_row ∷ build_row ∷ []) in_tx).1.tasks
insert_rows-HasKeys_example = insert_rows-HasKeys (build_row ∷ build_row ∷ []) in_tx empty-HasKeys

-- A hash function for the examples.
abbrev same_text : String → String
same_text t = t

abbrev flagged : Value
flagged = object (field "ok" (boolean true) end)

-- A parse for the examples.
abbrev parse_flagged : String → Option Value
parse_flagged t = if t == "{\"ok\":true}" then some flagged else none

abbrev planned : Event
planned = record {
  type = "run.planned";
  task_id = none;
  attempt_id = none;
  payload = flagged;
  at = 3;
}

flagged-ReadsBack : ReadsBack parse_flagged flagged
unfolding canonical_json
flagged-ReadsBack t h =
    let same : "{\"ok\":true}" ≡ t = cc in
    let parsed : parse_flagged t ≡ some flagged = rw (← same) refl in (flagged, parsed, h)

abbrev first_row : EventRow
first_row =
    next_row same_text "r1" planned "{\"ok\":true}"
      "{\"at\":3,\"payload\":{\"ok\":true},\"seq\":1,\"type\":\"run.planned\"}" none "e1"

insert_event-chain_example :
    (verify_chain same_text parse_flagged "r1" (insert_event same_text "e1" "r1" planned in_tx).1).0
    ≡ ok chain_ok
unfolding insert_event verify_chain event_guards canonical_json hashed_object last_event events_of
    verify_rows next_row
insert_event-chain_example =
    insert_event-chain same_text parse_flagged "e1" "r1" "r1" planned in_tx first_row
      flagged-ReadsBack refl refl

insert_event_returns_example :
    (row : EventRow) × (insert_event same_text "e1" "r1" planned in_tx
      ≡ (ok row, record in_tx { events = row ∷ [] }))
    × Continues same_text "r1" planned "{\"ok\":true}" none row
unfolding canonical_json last_event events_of
insert_event_returns_example =
    insert_event_returns same_text "e1" "r1" planned in_tx "{\"ok\":true}" refl refl refl refl tt tt
      refl

-- An array that lacks an element is printed as a text that is none of JSON.
abbrev sparse : Value
sparse = array (cons (number "1") (hole (cons (number "2") nil)))

sparse_text : canonical_json sparse ≡ text "[1,,2]"
unfolding canonical_json
sparse_text = refl
