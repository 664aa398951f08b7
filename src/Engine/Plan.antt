-- ===== src/Engine/Plan.antt =====
-- `planRun` of lib/engine.js: a checked spec becomes a run with its tasks. That the engine also keeps the
-- id in a set of its own is left out.
pub mod Whole
mod Witnesses
use dsh_dag_orchestrator.Prelude.{ℕ, List, [], ◌∷◌, Option, none, some, String, length, map}
use dsh_dag_orchestrator.States.{pending}
use dsh_dag_orchestrator.Json.{Value, number, object, string, stringify}
use dsh_dag_orchestrator.Store.Rows.{RunState, RunRow, TaskRow}
use dsh_dag_orchestrator.Store.Action.{
  Action, control_error, plain_error, type_error, unprintable as no_text, pure, throw, tx, ◌>>=◌,
  ◌>>◌,
}
use dsh_dag_orchestrator.Store.Runs.{insert_run}
use dsh_dag_orchestrator.Store.Tasks.{insert_tasks}
use dsh_dag_orchestrator.Store.Events.{Event, decimal}
use dsh_dag_orchestrator.Store.Payloads.{fields, write_event}
use dsh_dag_orchestrator.Spec.{TaskSpec}
use dsh_dag_orchestrator.Spec.Validate.{
  ParseResult, Parsed, hash, invalid, invalid_spec, spec_hash, spec_type_error, throws_type_error,
  unprintable, valid, validate_spec,
}

-- What the caller hands over, with the id of the run and of its first event.
pub record PlanOptions : Type 0 where
  pub run_id : String
  pub parent_session : Option String
  pub planner_session : Option String
  pub base_cwd : String
  pub now : ℕ
  pub stamp : ℕ
  pub event_id : String

pub record Planned : Type 0 where
  pub run_id : String
  pub spec_hash : String
  pub task_count : ℕ

unfoldable pub planned_run : PlanOptions → Parsed → String → RunRow
unfolding stringify
planned_run o p hash_text = record {
  run_id = o.run_id;
  name = some p.name;
  spec_json = stringify p.value;
  spec_hash = hash_text;
  state = RunState.running;
  control_intent = none;
  parent_session = o.parent_session;
  planner_session = o.planner_session;
  base_cwd = o.base_cwd;
  created_at = o.now;
  updated_at = o.now;
  version = 1;
}

abbrev pub planned_task : PlanOptions → TaskSpec → TaskRow
planned_task o t = record {
  run_id = o.run_id;
  task_id = t.id;
  state = pending;
  version = 1;
  blocked_reason = none;
  retry_not_before = none;
  updated_at = o.stamp;
}

unfoldable pub created_event : PlanOptions → Parsed → String → Event
unfolding decimal
created_event o p hash_text = record {
  type = "run.created";
  task_id = none;
  attempt_id = none;
  payload = object (
      fields (
        ("name", string p.name)
        ∷ ("spec_hash", string hash_text)
        ∷ ("task_count", number (decimal (length p.tasks)))
        ∷ ("from", string "")
        ∷ ("to", string "running")
        ∷ []));
  at = o.now;
}

-- `parse` is what the schema of zod does, and `sha256` the hash function of node:crypto.
module _ (parse : Value → ParseResult) (sha256 : String → String) where
  unfoldable pub create_run : PlanOptions → Parsed → String → Action (Unit {0})
  create_run o p hash_text = do
    run ← insert_run (planned_run o p hash_text)
    rows ← insert_tasks o.run_id (map (planned_task o) p.tasks)
    write_event sha256 o.event_id o.run_id (created_event o p hash_text)

  unfoldable pub plan_valid : PlanOptions → Parsed → Action Planned
  plan_valid o p = elim (spec_hash parse sha256 p.value) [
    | invalid_spec codes ↦ throw (plain_error "specHash")
    | spec_type_error ↦ throw (type_error "version")
    | unprintable e ↦ throw (no_text e)
    | hash hash_text ↦ do
      tx (create_run o p hash_text)
      pure (record { run_id = o.run_id; spec_hash = hash_text; task_count = length p.tasks })
  ]

  unfoldable pub plan_run : PlanOptions → Value → Action Planned
  plan_run o spec = elim (validate_spec parse spec) [
    | invalid errors ↦ throw (control_error "dag.schema_invalid")
    | throws_type_error ↦ throw (type_error "version")
    | valid p ↦ plan_valid o p
  ]
