-- ===== src/Store/Payloads.antt =====
-- What the steps of lib/engine.js and lib/terminal-commit.js put into the payloads of their events.
use dsh_dag_orchestrator.Prelude.{ℕ, List, [], ◌∷◌, Option, none, some, String}
use dsh_dag_orchestrator.States.{
  TaskState, pending, ready, queued, running, succeeded, failed, retry_wait, blocked, cancelled,
  other,
}
use dsh_dag_orchestrator.Json.{Value, null, string, object, Fields, end, field}
use dsh_dag_orchestrator.Store.Rows.{RunState}
use dsh_dag_orchestrator.Store.Events.{Event, insert_event}
use dsh_dag_orchestrator.Store.Action.{◌>>=◌, Action, pure, Cas, done, not_found, mismatch}

abbrev pub fields : List (String × Value) → Fields
fields [] = end
fields ((k, v) ∷ fs) = field k v (fields fs)

abbrev pub run_state_name : RunState → String
run_state_name RunState.running = "running"
run_state_name RunState.pausing = "pausing"
run_state_name RunState.paused = "paused"
run_state_name RunState.cancelling = "cancelling"
run_state_name RunState.succeeded = "succeeded"
run_state_name RunState.failed = "failed"
run_state_name RunState.cancelled = "cancelled"
run_state_name (RunState.other s) = s

abbrev pub task_state_name : TaskState → String
task_state_name pending = "pending"
task_state_name ready = "ready"
task_state_name queued = "queued"
task_state_name running = "running"
task_state_name succeeded = "succeeded"
task_state_name failed = "failed"
task_state_name retry_wait = "retry_wait"
task_state_name blocked = "blocked"
task_state_name cancelled = "cancelled"
task_state_name (other s) = s

abbrev pub change : String → String → List (String × Value) → Value
change from to more = object (fields (("from", string from) ∷ ("to", string to) ∷ more))

abbrev pub on_done : {R C A : Type 0} → Cas R C → A → Action A → Action A
on_done (done r) lost next = next
on_done not_found lost next = pure lost
on_done (mismatch r) lost next = pure lost

-- `x ?? null`
abbrev pub or_null : Option String → Value
or_null none = null
or_null (some s) = string s

-- `...(x !== undefined ? { k: x } : {})`
abbrev pub given : String → Option String → List (String × Value)
given k none = []
given k (some s) = (k, string s) ∷ []

-- What a step reads of the clock and of `randomUUID`.
pub record Ambient : Type 0 where
  pub now : ℕ
  pub event_id : String

-- `store.insertEvent(...)`, whose row nobody reads.
unfoldable pub write_event : (String → String) → String → String → Event → Action (Unit {0})
write_event sha256 id run_id event = do row ← insert_event sha256 id run_id event; pure tt
