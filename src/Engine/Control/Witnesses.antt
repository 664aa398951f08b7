-- ===== src/Engine/Control/Witnesses.antt =====
-- The theorems on `control` of lib/engine.js at concrete runs.
use mathlib.Core.Bool.{decide}
use dsh_dag_orchestrator.Prelude.{◌≡◌, refl, false, [], ◌∷◌, none, some, String, arith}
use dsh_dag_orchestrator.Json.{canonical_json}
use dsh_dag_orchestrator.Store.Rows.{RunState, RunRow, Store}
use dsh_dag_orchestrator.Store.Action.{StoreError, err, ok, tx}
use dsh_dag_orchestrator.Store.Runs.{cas_run_state, find_run}
use dsh_dag_orchestrator.Store.Events.{event_guards, hashed_object, insert_event}
use dsh_dag_orchestrator.Store.Payloads.{write_event}
use dsh_dag_orchestrator.Engine.Control.{
  ControlCall, Controlled, note_control, on_run, on_task, pause, require_run, retry_task,
}
use dsh_dag_orchestrator.Engine.Control.OnRun.{control_run, control_pause}
use dsh_dag_orchestrator.Engine.Control.Entry.{control}
use dsh_dag_orchestrator.Engine.Control.Refusal.{control-refused}
use dsh_dag_orchestrator.Engine.Control.Edges.{RunMoved, control-RunEdge}

abbrev run_in : RunState → RunRow
run_in state = record {
  run_id = "r1";
  name = none;
  spec_json = "{}";
  spec_hash = "h";
  state = state;
  control_intent = none;
  parent_session = none;
  planner_session = none;
  base_cwd = "/";
  created_at = 0;
  updated_at = 0;
  version = 1;
}

abbrev store_in : RunState → Store
store_in state = record {
  runs = run_in state ∷ [];
  tasks = [];
  attempts = [];
  events = [];
  approvals = [];
  outputs = [];
  active_tx = false;
  closed = false;
}

abbrev control_call : ControlCall
control_call = record {
  run_id = "r1";
  task_id = "build";
  reason = none;
  now = 5;
  stamp = 5;
  control_id = "e1";
  event_id = "e2";
  task_ids = λ k. "e3";
}

-- A hash function for the example.
abbrev same_text : String → String
same_text t = t

control-refused_example :
    (e : StoreError) × (control same_text
        (on_task retry_task)
        control_call
        (store_in RunState.cancelled)
      ≡ (err e, store_in RunState.cancelled))
control-refused_example =
    control-refused same_text (on_task retry_task) control_call (store_in RunState.cancelled)
      (run_in RunState.cancelled) refl refl

abbrev answer : Controlled
answer = record { run_state = some RunState.pausing; effected = [] }

pause_ran :
    (control same_text (on_run pause) control_call (store_in RunState.running)).0 ≡ ok answer
unfolding control require_run find_run tx control_run control_pause cas_run_state note_control
    write_event insert_event event_guards canonical_json hashed_object decide
pause_ran = refl

control-RunEdge_example :
    RunMoved pause control_call
      (store_in RunState.running)
      (control same_text (on_run pause) control_call (store_in RunState.running)).1
      (some RunState.pausing)
control-RunEdge_example =
    control-RunEdge same_text pause control_call (store_in RunState.running) answer (omega arith)
      pause_ran
