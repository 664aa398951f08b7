-- ===== src/Spec/Inputs.antt =====
-- The checks of lib/spec-validate.js on inputs and dependency gates.
use Prim.Native.String.{◌++◌ as append}
use dsh_dag_orchestrator.Prelude.{
  ℕ, Bool, true, false, not, ◌&&◌, ◌||◌, List, [], ◌∷◌, ◌++◌, none, some, String, ◌==◌,
  if◌then◌else◌, get_or, is_some,
}
use dsh_dag_orchestrator.Ready.{
  DependencyEdge, DependencyGate, Expect, exists, not_exists, contains, not_contains, equals,
  unknown_operator,
}
use dsh_dag_orchestrator.Spec.{SpecError, TaskSpec, fault, indexed}
use dsh_dag_orchestrator.Spec.Graphs.{Graph, is_in, targets}
use dsh_dag_orchestrator.Spec.Uris.{task_uri}
use dsh_dag_orchestrator.Spec.Closure.{upstream_closure}
use dsh_dag_orchestrator.Spec.Tasks.{Index, each, knows}

-- The closure; its fuel never ends.
abbrev pub closure : Graph → String → List String
closure adj id = get_or (upstream_closure adj id) []

abbrev expect_name : Expect → String
expect_name exists = "exists"
expect_name not_exists = "not_exists"
expect_name contains = "contains"
expect_name not_contains = "not_contains"
expect_name equals = "equals"
expect_name (unknown_operator s) = s

-- GATE_VALUE_REQUIRED_EXPECTS and GATE_VALUE_FORBIDDEN_EXPECTS
abbrev value_required : Expect → Bool
value_required contains = true
value_required not_contains = true
value_required equals = true
value_required _ = false

abbrev value_forbidden : Expect → Bool
value_forbidden exists = true
value_forbidden not_exists = true
value_forbidden _ = false

-- Whether an operator has the value that it needs, and none that it must not have.
unfoldable pub value_errors : String → String → DependencyGate → List SpecError
value_errors id base gate =
    let head =
      "dependency gate on task '" ∷ id ∷ "' uses expect='" ∷ expect_name gate.expect ∷ [] in
    (if value_required gate.expect && get_or gate.value "" == ""
      then fault "dag.gate_value_required" (append base ".value")
          (head ++ "' but provides no 'value'" ∷ [])
        ∷ []
      else [])
    ++ (if value_forbidden gate.expect && is_some gate.value
        then fault "dag.gate_value_forbidden" (append base ".value")
            (head ++ "' but provides a 'value' (forbidden for existence checks)" ∷ [])
          ∷ []
        else [])

module _ (ids : Index) (outputs : Graph) (adj : Graph) where
  unfoldable pub input_errors : String → List String → ℕ → ℕ → String → List SpecError
  unfolding task_uri indexed
  input_errors id upstream ti ii uri =
      let path = indexed (indexed "tasks" ti ".inputs") ii "" in
      elim (task_uri uri) [
        | none ↦ []
        | some (producer, name) ↦
            if not (knows ids producer)
            then fault "dag.input_not_reachable" path (
                "task '" ∷ id ∷ "' references unknown producer '" ∷ producer ∷ "' in '" ∷ uri ∷ "'"
                ∷ [])
              ∷ []
            else if not (is_in name (targets outputs producer))
            then fault "dag.output_not_declared" path
                ("producer '" ∷ producer ∷ "' does not declare an output named '" ∷ name ∷ "'" ∷ [])
              ∷ []
            else if not (is_in producer upstream)
            then fault "dag.input_not_reachable" path (
                "producer '" ∷ producer ∷ "' is not a direct or transitive upstream of task '" ∷ id
                ∷ "'" ∷ [])
              ∷ []
            else []
      ]

  unfoldable pub check_inputs : List TaskSpec → List SpecError
  unfolding input_errors upstream_closure
  check_inputs =
      each
        (λ ti (task : TaskSpec). each (input_errors task.id (closure adj task.id) ti) 0 task.inputs)
        0

  -- What the gate's artifact must be: an output of the very upstream task of the edge.
  unfoldable pub artifact_errors :
      String → List String → String → String → DependencyGate → List SpecError
  unfolding task_uri
  artifact_errors id upstream edge_id base gate =
      let path = append base ".artifact" in
      elim (task_uri gate.artifact) [
        | none ↦ []
        | some (producer, name) ↦
            if not (knows ids producer)
            then fault "dag.gate_artifact_not_reachable" path (
                "dependency gate on task '" ∷ id ∷ "' references unknown producer '" ∷ producer
                ∷ "' in '" ∷ gate.artifact ∷ "'" ∷ [])
              ∷ []
            else if not (is_in name (targets outputs producer))
            then fault "dag.output_not_declared" path (
                "gate producer '" ∷ producer ∷ "' does not declare an output named '" ∷ name ∷ "'"
                ∷ [])
              ∷ []
            else if not (producer == edge_id) || not (is_in producer upstream)
            then fault "dag.gate_artifact_not_reachable" path (
                "gate artifact producer '" ∷ producer
                ∷ "' must be the dependency's own upstream task '" ∷ edge_id ∷ "' of task '" ∷ id
                ∷ "' (a gate reads the output of the edge it decorates)" ∷ [])
              ∷ []
            else []
      ]

  unfoldable pub gate_errors : String → List String → ℕ → ℕ → DependencyEdge → List SpecError
  unfolding artifact_errors value_errors indexed
  gate_errors id upstream ti di dep = elim dep.gate [
    | none ↦ []
    | some gate ↦
        let base = indexed (indexed "tasks" ti ".dependsOn") di ".gate" in
        value_errors id base gate ++ artifact_errors id upstream dep.task_id base gate
  ]

  unfoldable pub check_gates : List TaskSpec → List SpecError
  unfolding gate_errors upstream_closure
  check_gates =
      each
        (λ ti (task : TaskSpec).
          each (gate_errors task.id (closure adj task.id) ti) 0 task.depends_on)
        0
