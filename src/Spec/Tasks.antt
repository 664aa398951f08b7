-- ===== src/Spec/Tasks.antt =====
-- The checks of lib/spec-validate.js on ids, worktree slugs and dependencies, and the maps of the edges.
pub mod Ids
pub mod Maps
use dsh_dag_orchestrator.Prelude.{
  ℕ, suc, Bool, true, false, not, ◌&&◌, List, [], ◌∷◌, ◌++◌, Option, none, some, String, ◌==◌,
  if◌then◌else◌, filter, is_some, map,
}
use dsh_dag_orchestrator.Store.Events.{decimal}
use dsh_dag_orchestrator.Ready.{DependencyEdge}
use dsh_dag_orchestrator.Spec.{SpecError, TaskSpec, Worktree, fault, indexed}
use dsh_dag_orchestrator.Spec.Graphs.{Graph, is_in, put, targets}

-- A map from a text to the index of its first declaration, and to the id that declares it.
abbrev pub Index : Type 0
Index = List (String × (ℕ × String))

abbrev pub index_of : Index → String → Option (ℕ × String)
index_of [] k = none
index_of ((key, at) ∷ rest) k = if key == k then some at else index_of rest k

-- `forEach((task, i) => …)` where each call gives errors.
abbrev pub each {ℓ} : {A : Type ℓ} → (ℕ → A → List SpecError) → ℕ → List A → List SpecError
each f i [] = []
each f i (x ∷ xs) = f i x ++ each f (suc i) xs

-- The errors of duplicate ids, and the index of the first ones.
unfoldable pub duplicate_ids : ℕ → List TaskSpec → Index → List SpecError × Index
unfolding decimal indexed
duplicate_ids i [] index = ([], index)
duplicate_ids i (task ∷ tasks) index = elim (index_of index task.id) [
  | none ↦ duplicate_ids (suc i) tasks ((task.id, (i, task.id)) ∷ index)
  | some first ↦
      let (errors, last) = duplicate_ids (suc i) tasks index in
      (
        fault "dag.duplicate_task_id" (indexed "tasks" i ".id") (
              "duplicate task id '"
              ∷ task.id
              ∷ "' (first declared at tasks["
              ∷ decimal first.0
              ∷ "])"
              ∷ [])
            ∷ errors,
        last,
      )
]

unfoldable pub duplicate_slugs : ℕ → List TaskSpec → Index → List SpecError
unfolding decimal indexed
duplicate_slugs i [] index = []
duplicate_slugs i (task ∷ tasks) index = elim task.worktree [
  | none ↦ duplicate_slugs (suc i) tasks index
  | some w ↦ elim (index_of index w.task) [
    | none ↦ duplicate_slugs (suc i) tasks ((w.task, (i, task.id)) ∷ index)
    | some first ↦
        fault "dag.worktree_slug_conflict" (indexed "tasks" i ".worktree.task") (
          "duplicate worktree slug '"
          ∷ w.task
          ∷ "' (first declared by task '"
          ∷ first.1
          ∷ "' at tasks["
          ∷ decimal first.0
          ∷ "]) — the slug names ONE task's worktree (reuse is same-task retry semantics, DESIGN §11.3); give each worktree task a unique slug"
          ∷ [])
        ∷ duplicate_slugs (suc i) tasks index
  ]
]

abbrev pub knows : Index → String → Bool
knows ids id = is_some (index_of ids id)

unfoldable pub dependency_errors : Index → String → ℕ → ℕ → DependencyEdge → List SpecError
unfolding indexed
dependency_errors ids id ti di dep =
    let path = indexed (indexed "tasks" ti ".dependsOn") di ".taskId" in
    if dep.task_id == id
    then fault "dag.self_dependency" path ("task '" ∷ id ∷ "' depends on itself" ∷ []) ∷ []
    else if not (knows ids dep.task_id)
    then fault "dag.unknown_dependency" path
        ("task '" ∷ id ∷ "' depends on unknown task '" ∷ dep.task_id ∷ "'" ∷ [])
      ∷ []
    else []

unfoldable pub check_dependencies : Index → List TaskSpec → List SpecError
unfolding dependency_errors
check_dependencies ids =
    each (λ ti (task : TaskSpec). each (dependency_errors ids task.id ti) 0 task.depends_on) 0

-- Which edges count: to a task of the spec, and not to the task itself.
abbrev pub counts : Index → String → DependencyEdge → Bool
counts ids id dep = knows ids dep.task_id && not (dep.task_id == id)

abbrev add_downstreams : Index → String → List DependencyEdge → Graph → Graph
add_downstreams ids id [] g = g
add_downstreams ids id (dep ∷ deps) g =
    add_downstreams ids id deps
      (if counts ids id dep then put dep.task_id (targets g dep.task_id ++ id ∷ []) g else g)

unfoldable pub downstream_map : Index → List TaskSpec → Graph → Graph
downstream_map ids [] g = g
downstream_map ids (task ∷ tasks) g =
    downstream_map ids tasks (add_downstreams ids task.id task.depends_on g)

unfoldable pub upstream_map : Index → List TaskSpec → Graph → Graph
upstream_map ids [] g = g
upstream_map ids (task ∷ tasks) g = upstream_map ids tasks (
    put task.id
      (map (λ (d : DependencyEdge). d.task_id) (filter (counts ids task.id) task.depends_on)) g)

-- `outputsByTask`
unfoldable pub outputs_map : List TaskSpec → Graph → Graph
outputs_map [] g = g
outputs_map (task ∷ tasks) g = outputs_map tasks (put task.id task.outputs g)
