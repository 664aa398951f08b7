-- ===== src/Engine/Plan/Witnesses.antt =====
-- The theorem on `planRun` of lib/engine.js at a spec of one task.
use mathlib.Core.Bool.{decide}
use dsh_dag_orchestrator.Prelude.{◌≡◌, refl, false, [], ◌∷◌, none, some, String}
use dsh_dag_orchestrator.Json.{Value, string, object, field, end, canonical_json}
use dsh_dag_orchestrator.Store.Rows.{Store}
use dsh_dag_orchestrator.Store.Action.{ok, tx}
use dsh_dag_orchestrator.Store.Runs.{find_run, insert_run}
use dsh_dag_orchestrator.Store.Tasks.{find_tasks, insert_rows, insert_tasks}
use dsh_dag_orchestrator.Store.Events.{decimal, event_guards, hashed_object, insert_event}
use dsh_dag_orchestrator.Store.Payloads.{write_event}
use dsh_dag_orchestrator.Spec.{TaskSpec, agent}
use dsh_dag_orchestrator.Spec.Closure.{closure_loop, push_new, upstream_closure, visit}
use dsh_dag_orchestrator.Spec.Cycle.{detect_cycle, dfs, scan, search_from}
use dsh_dag_orchestrator.Spec.Tasks.{
  check_dependencies, dependency_errors, downstream_map, duplicate_ids, duplicate_slugs,
  outputs_map, upstream_map,
}
use dsh_dag_orchestrator.Spec.Inputs.{check_gates, check_inputs, gate_errors, input_errors}
use dsh_dag_orchestrator.Spec.Kinds.{agent_errors, check_kinds, is_blank, kind_errors}
use dsh_dag_orchestrator.Spec.Semantics.{cycle_errors, validate_semantics}
use dsh_dag_orchestrator.Spec.Validate.{
  ParseResult, parsed, spec_hash, validate_parsed, validate_spec,
}
use dsh_dag_orchestrator.Engine.Plan.{
  PlanOptions, Planned, create_run, created_event, plan_run, plan_valid, planned_run,
}
use dsh_dag_orchestrator.Engine.Plan.Whole.{PlanWhole, plan_run-PlanWhole}

abbrev build_task : TaskSpec
build_task = record {
  id = "build";
  kind = agent;
  prompt = some "go";
  depends_on = [];
  inputs = [];
  outputs = [];
  backend = none;
  model = none;
  provider = none;
  persona = none;
  tool_filter = none;
  cwd = none;
  max_tokens = none;
  max_depth = none;
  delegation = none;
  max_attempts = none;
  verify = none;
  approval_block = none;
  worktree = none;
}

abbrev raw_spec : Value
raw_spec = object (field "name" (string "demo") end)

-- A schema and a hash function for the example.
abbrev parse_demo : Value → ParseResult
parse_demo v = parsed (record { name = "demo"; value = v; tasks = build_task ∷ [] })

abbrev same_text : String → String
same_text t = t

abbrev plan_options : PlanOptions
plan_options = record {
  run_id = "r1";
  parent_session = none;
  planner_session = some "s1";
  base_cwd = "/";
  now = 5;
  stamp = 6;
  event_id = "e1";
}

abbrev empty_store : Store
empty_store = record {
  runs = [];
  tasks = [];
  attempts = [];
  events = [];
  approvals = [];
  outputs = [];
  active_tx = false;
  closed = false;
}

abbrev planned : Planned
planned = record { run_id = "r1"; spec_hash = "{\"name\":\"demo\"}"; task_count = 1 }

plan_ran : (plan_run parse_demo same_text plan_options raw_spec empty_store).0 ≡ ok planned
unfolding plan_run plan_valid create_run validate_spec validate_parsed spec_hash planned_run
    created_event decimal canonical_json hashed_object event_guards insert_event write_event tx
    insert_run find_run insert_tasks insert_rows find_tasks validate_semantics duplicate_ids
    duplicate_slugs check_dependencies dependency_errors cycle_errors detect_cycle search_from dfs
    scan downstream_map upstream_map outputs_map check_inputs input_errors upstream_closure
    closure_loop visit push_new check_gates gate_errors check_kinds kind_errors agent_errors
    is_blank decide
plan_ran = refl

plan_run-PlanWhole_example :
    PlanWhole parse_demo same_text plan_options raw_spec empty_store
      (plan_run parse_demo same_text plan_options raw_spec empty_store)
plan_run-PlanWhole_example =
    plan_run-PlanWhole parse_demo same_text plan_options raw_spec empty_store
