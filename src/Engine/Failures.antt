-- ===== src/Engine/Failures.antt =====
-- `propagateDownstream` of lib/engine.js: what failed blocks the tasks that wanted its success. The
-- clock, which the code reads once for a transaction, and the random ids come as one argument.
use dsh_dag_orchestrator.Prelude.{
  ℕ, suc, ◌+◌, Bool, true, false, not, ◌||◌, List, [], ◌∷◌, ◌++◌, Option, none, some, String, ◌==◌,
  if◌then◌else◌, find, get_or,
}
use dsh_dag_orchestrator.States.{pending, failed, retry_wait, blocked}
use dsh_dag_orchestrator.Json.{Value, string, object}
use dsh_dag_orchestrator.Store.Rows.{TaskRow, coded}
use dsh_dag_orchestrator.Store.Action.{Action, pure, tx, ◌>>=◌}
use dsh_dag_orchestrator.Store.Tasks.{TaskPatch, find_tasks, cas_task_state}
use dsh_dag_orchestrator.Store.Events.{insert_event}
use dsh_dag_orchestrator.Store.Payloads.{fields, task_state_name, change, on_done, Ambient}
use dsh_dag_orchestrator.Ready.{Condition, on_succeeded, on_completed, DependencyEdge, SpecTask}
use dsh_dag_orchestrator.Engine.{is_state}

-- What the step reads of a task of the spec.
pub record PolicyTask : Type 0 where
  pub task : SpecTask
  pub failure_policy : Option String

pub record Downstream : Type 0 where
  pub task_id : String
  pub condition : Condition

abbrev edges_from : String → String → List DependencyEdge → List Downstream
edges_from failed_id id [] = []
edges_from failed_id id (dep ∷ deps) =
    if dep.task_id == failed_id
    then record { task_id = id; condition = dep.condition } ∷ edges_from failed_id id deps
    else edges_from failed_id id deps

unfoldable pub downstreams_of : String → List PolicyTask → List Downstream
downstreams_of failed_id [] = []
downstreams_of failed_id (s ∷ ss) =
    edges_from failed_id s.task.id s.task.depends_on ++ downstreams_of failed_id ss

-- `specTask?.failurePolicy ?? 'block_downstream'`
unfoldable pub policy_of : String → List PolicyTask → String
policy_of id spec = elim (find (λ s. s.task.id == id) spec) [
  | none ↦ "block_downstream"
  | some s ↦ get_or s.failure_policy "block_downstream"
]

-- `byId.get(id)`: a later row of the same id replaces an earlier one.
unfoldable pub row_of : String → List TaskRow → Option TaskRow
row_of id [] = none
row_of id (r ∷ rs) = elim (row_of id rs) [
  | some q ↦ some q
  | none ↦ if r.task_id == id then some r else none
]

abbrev wants_success : Condition → Bool
wants_success on_succeeded = true
wants_success on_completed = false

abbrev block_patch : String → TaskPatch
block_patch failed_id = record {
  blocked_reason = some (some (coded "upstream_failed" failed_id));
  retry_not_before = none;
}

abbrev reason_value : String → String → Value
reason_value id failed_id = object (
    fields (
      ("code", string "upstream_failed")
      ∷ (
        "details",
        object (
            fields (
              ("taskId", string id)
              ∷ ("upstreamTaskId", string failed_id)
              ∷ ("upstreamState", string "failed")
              ∷ [])),
      )
      ∷ []))

module _ (sha256 : String → String) where
  unfoldable pub block_row : String → String → Downstream → Ambient → TaskRow → Action Bool
  block_row run_id failed_id edge a ds = do
    cas ←
        cas_task_state run_id edge.task_id ds.state ds.version blocked (block_patch failed_id) a.now
    on_done cas false (do
      written ← insert_event sha256 a.event_id run_id (record {
        type = "task.blocked";
        task_id = some edge.task_id;
        attempt_id = none;
        at = a.now;
        payload =
            change (task_state_name ds.state) "blocked"
              (("reason", reason_value edge.task_id failed_id) ∷ []);
      })
      pure true)

  -- One edge, against the rows as they were read at the start of the transaction.
  unfoldable pub block_edge : String → String → List TaskRow → Ambient → Downstream → Action Bool
  unfolding row_of block_row
  block_edge run_id failed_id rows a edge =
      if not (wants_success edge.condition) then pure false else elim (row_of edge.task_id rows) [
        | none ↦ pure false
        | some ds ↦
            if is_state pending ds || is_state retry_wait ds
            then block_row run_id failed_id edge a ds
            else pure false
      ]

  unfoldable pub block_edges :
      String → String → List TaskRow → (Downstream → Ambient) → List Downstream → Action ℕ
  block_edges run_id failed_id rows ambient [] = pure 0
  block_edges run_id failed_id rows ambient (edge ∷ edges) = do
    hit ← block_edge run_id failed_id rows (ambient edge) edge
    more ← block_edges run_id failed_id rows ambient edges
    pure (if hit then suc more else more)

  -- The transaction for one failed task.
  unfoldable pub block_downstream :
      String → String → (Downstream → Ambient) → List Downstream → Action ℕ
  block_downstream run_id failed_id ambient edges = do
    rows ← find_tasks run_id
    block_edges run_id failed_id rows ambient edges

  unfoldable pub propagate_one :
      String → List PolicyTask → (Downstream → Ambient) → TaskRow → Action ℕ
  unfolding policy_of downstreams_of
  propagate_one run_id spec ambient t =
      if not (is_state failed t)
      then pure 0
      else if not (policy_of t.task_id spec == "block_downstream")
      then pure 0
      else elim (downstreams_of t.task_id spec) [
        | [] ↦ pure 0
        | e ∷ es ↦ tx (block_downstream run_id t.task_id ambient (e ∷ es))
      ]

  unfoldable pub propagate_rows :
      String → List PolicyTask → (TaskRow → Downstream → Ambient) → List TaskRow → Action ℕ
  propagate_rows run_id spec ambient [] = pure 0
  propagate_rows run_id spec ambient (t ∷ ts) = do
    here ← propagate_one run_id spec (ambient t) t
    more ← propagate_rows run_id spec ambient ts
    pure (here + more)

  unfoldable pub propagate_downstream :
      String → List PolicyTask → (TaskRow → Downstream → Ambient) → Action ℕ
  propagate_downstream run_id spec ambient = do
    tasks ← find_tasks run_id
    propagate_rows run_id spec ambient tasks
