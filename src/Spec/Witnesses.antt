-- ===== src/Spec/Witnesses.antt =====
-- The theorems on lib/spec-validate.js at concrete specs.
use dsh_dag_orchestrator.Prelude.{
  ◌≡◌, ◌↔◌, refl, inl, inr, true, List, [], ◌∷◌, Option, none, some, String, ◌==◌, Bool-cases,
  arith,
}
use dsh_dag_orchestrator.Ready.{DependencyEdge, on_succeeded}
use dsh_dag_orchestrator.Spec.{TaskSpec, agent}
use dsh_dag_orchestrator.Spec.Graphs.{Edge, Graph, is_in}
use dsh_dag_orchestrator.Spec.Uris.{is_segment, make_uri, task_uri, task_uri_iff}
use dsh_dag_orchestrator.Spec.Closure.{closure_loop, push_new, upstream_closure, visit}
use dsh_dag_orchestrator.Spec.Closure.Reach.{Upstream, upstream_closure_iff}
use dsh_dag_orchestrator.Spec.Cycle.{detect_cycle, dfs, scan, search_from}
use dsh_dag_orchestrator.Spec.Cycle.Detect.{Decision, detect_cycle_decides}
use dsh_dag_orchestrator.Spec.Tasks.{
  check_dependencies, dependency_errors, downstream_map, duplicate_ids, duplicate_slugs,
  outputs_map, upstream_map,
}
use dsh_dag_orchestrator.Spec.Inputs.{check_gates, check_inputs, gate_errors, input_errors}
use dsh_dag_orchestrator.Spec.Kinds.{agent_errors, check_kinds, is_blank, kind_errors}
use dsh_dag_orchestrator.Spec.Semantics.{cycle_errors, validate_semantics}
use dsh_dag_orchestrator.Spec.Semantics.Sound.{IsSound, validate_semantics-IsSound}

-- a needs b and c, and c needs b.
abbrev needs : Graph
needs = ("a", "b" ∷ "c" ∷ []) ∷ ("c", "b" ∷ []) ∷ []

upstream_closure_iff_example :
    (found : List String) × (upstream_closure needs "a" ≡ some found)
    × ((v : String) → (is_in v found ≡ true) ↔ Upstream needs "a" v)
upstream_closure_iff_example = upstream_closure_iff needs "a"

-- a → b → a
abbrev circle : Graph
circle = ("a", "b" ∷ []) ∷ ("b", "a" ∷ []) ∷ []

abbrev circle_order : List String
circle_order = "a" ∷ "b" ∷ []

circle_leads : (u v : String) → Edge circle u v → is_in v circle_order ≡ true
circle_leads u v e = elim (Bool-cases ("a" == u)) [
  | inl y ↦ ground (arith, rw y at e)
  | inr n ↦ elim (Bool-cases ("b" == u)) [
    | inl y ↦ ground (arith, rw (n, y) at e)
    | inr n' ↦ absurd (cc (rw (n, n') at e))
  ]
]

detect_cycle_decides_example :
    (r : Option (List String)) × (detect_cycle circle_order circle ≡ some r) × Decision circle r
detect_cycle_decides_example = detect_cycle_decides circle_order circle circle_leads

circle_found : detect_cycle circle_order circle ≡ some (some ("a" ∷ "b" ∷ "a" ∷ []))
unfolding detect_cycle search_from dfs scan
circle_found = refl

task_uri_iff_example : (task_uri "task://build/report" ≡ some ("build", "report")) ↔ (
    ("task://build/report" ≡ make_uri "build" "report")
    × (is_segment "build" ≡ true)
    × (is_segment "report" ≡ true))
task_uri_iff_example = task_uri_iff "task://build/report" "build" "report"

abbrev agent_task : String → List DependencyEdge → List String → List String → TaskSpec
agent_task id deps inputs outputs = record {
  id = id;
  kind = agent;
  prompt = some "do it";
  depends_on = deps;
  inputs = inputs;
  outputs = outputs;
  backend = none;
  model = none;
  provider = none;
  persona = none;
  tool_filter = none;
  cwd = none;
  max_tokens = none;
  max_depth = none;
  delegation = none;
  max_attempts = none;
  verify = none;
  approval_block = none;
  worktree = none;
}

abbrev two_tasks : List TaskSpec
two_tasks =
    agent_task "build" [] [] ("report" ∷ [])
    ∷ agent_task "check" (record { task_id = "build"; condition = on_succeeded; gate = none } ∷ [])
        ("task://build/report" ∷ []) []
    ∷ []

two_tasks-valid : validate_semantics two_tasks ≡ []
unfolding validate_semantics duplicate_ids duplicate_slugs check_dependencies dependency_errors
    cycle_errors detect_cycle search_from dfs scan downstream_map upstream_map outputs_map
    check_inputs input_errors task_uri upstream_closure closure_loop visit push_new check_gates
    gate_errors check_kinds kind_errors agent_errors is_blank
two_tasks-valid = refl

validate_semantics-IsSound_example : IsSound two_tasks
validate_semantics-IsSound_example = validate_semantics-IsSound two_tasks two_tasks-valid
