-- ===== src/Spec/Semantics.antt =====
-- `validateSemantics` of lib/spec-validate.js: all the checks across tasks, in their order.
pub mod Sound
use Prim.Native.String.{◌++◌ as append}
use dsh_dag_orchestrator.Prelude.{ℕ, List, [], ◌∷◌, ◌++◌, Option, none, some, String, get_or, map}
use dsh_dag_orchestrator.Store.Events.{decimal}
use dsh_dag_orchestrator.Spec.{SpecError, TaskSpec, fault, indexed}
use dsh_dag_orchestrator.Spec.Graphs.{Graph}
use dsh_dag_orchestrator.Spec.Cycle.{detect_cycle}
use dsh_dag_orchestrator.Spec.Tasks.{
  Index, check_dependencies, downstream_map, duplicate_ids, duplicate_slugs, index_of, outputs_map,
  upstream_map,
}
use dsh_dag_orchestrator.Spec.Tasks.Ids.{ids_of}
use dsh_dag_orchestrator.Spec.Inputs.{check_gates, check_inputs}
use dsh_dag_orchestrator.Spec.Kinds.{check_kinds}

-- `ids.join(' → ')`
abbrev join_arrows : List String → String
join_arrows [] = ""
join_arrows (id ∷ []) = id
join_arrows (id ∷ next ∷ ids) = append id (append " → " (join_arrows (next ∷ ids)))

abbrev first_of : List String → String
first_of [] = ""
first_of (id ∷ ids) = id

abbrev place : Index → String → ℕ
place ids id = elim (index_of ids id) [ none ↦ 0 | some at ↦ at.0 ]

unfoldable pub cycle_errors : Index → List TaskSpec → List SpecError
unfolding detect_cycle downstream_map indexed
cycle_errors ids tasks =
    elim (get_or (detect_cycle (ids_of tasks) (downstream_map ids tasks [])) none) [
      | none ↦ []
      | some cycle ↦
          fault "dag.cycle_detected" (indexed "tasks" (place ids (first_of cycle)) "")
            ("dependency cycle detected: " ∷ join_arrows cycle ∷ [])
          ∷ []
    ]

unfoldable pub validate_semantics : List TaskSpec → List SpecError
unfolding duplicate_ids duplicate_slugs check_dependencies cycle_errors check_inputs check_gates
    check_kinds outputs_map upstream_map
validate_semantics tasks =
    let (duplicates, ids) = duplicate_ids 0 tasks [] in
    let adj = upstream_map ids tasks [] in
    let outputs = outputs_map tasks [] in
    duplicates
    ++ (duplicate_slugs 0 tasks []
        ++ (check_dependencies ids tasks
            ++ (cycle_errors ids tasks
                ++ (check_inputs ids outputs adj tasks
                    ++ (check_gates ids outputs adj tasks ++ check_kinds tasks)))))
