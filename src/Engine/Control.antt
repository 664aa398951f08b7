-- ===== src/Engine/Control.antt =====
-- `control` of lib/engine.js: what a person may do to a run, or to one task of it.
pub mod OnRun
pub mod OnTask
pub mod Entry
pub mod Refusal
pub mod Frames
pub mod Edges
mod Witnesses
use dsh_dag_orchestrator.Prelude.{
  ℕ, suc, Bool, true, false, not, ◌&&◌, ◌||◌, List, [], ◌∷◌, ◌++◌, Option, none, some, String, ◌==◌,
  if◌then◌else◌,
}
use dsh_dag_orchestrator.States.{
  TaskState, pending, ready, queued, running, failed, retry_wait, blocked, cancelled,
}
use dsh_dag_orchestrator.Json.{Value, boolean, number, object, string}
use dsh_dag_orchestrator.Store.Rows.{RunState, RunRow, TaskRow}
use dsh_dag_orchestrator.Store.Action.{
  Action, Cas, control_error, done, mismatch, not_found, pure, throw, tx, ◌>>=◌, ◌>>◌,
}
use dsh_dag_orchestrator.Store.Runs.{
  RunPatch, cas_run_state, find_run, run_is_terminal, set_control_intent,
}
use dsh_dag_orchestrator.Store.Tables.{is_same}
use dsh_dag_orchestrator.Store.Tasks.{TaskPatch, cas_task_state, find_tasks}
use dsh_dag_orchestrator.Store.Events.{decimal}
use dsh_dag_orchestrator.Store.Moves.{read_row}
use dsh_dag_orchestrator.Store.Payloads.{
  fields, or_null, run_state_name, task_state_name, write_event,
}
use dsh_dag_orchestrator.Engine.{is_state, parse_blocked_reason_code, task_is_terminal}

pub data RunAction : Type 0 where
  pause resume stop : RunAction

pub data TaskAction : Type 0 where
  retry_task cancel_task : TaskAction

pub data ControlAction : Type 0 where
  on_run : RunAction → ControlAction
  on_task : TaskAction → ControlAction
  unknown_action : String → ControlAction

-- The call, with what it reads of the clocks and of `randomUUID`: `task_ids` are for the events of the
-- tasks that a stop cancels.
pub record ControlCall : Type 0 where
  pub run_id : String
  pub task_id : String
  pub reason : Option String
  pub now : ℕ
  pub stamp : ℕ
  pub control_id : String
  pub event_id : String
  pub task_ids : ℕ → String

pub record Effect : Type 0 where
  pub task_id : String
  pub from : TaskState
  pub to : TaskState

-- `run_state` is absent where the run is gone.
pub record Controlled : Type 0 where
  pub run_state : Option RunState
  pub effected : List Effect

abbrev action_name : RunAction → String
action_name pause = "pause"
action_name resume = "resume"
action_name stop = "stop"

abbrev pub intent_patch : Option String → RunPatch
intent_patch intent = record {
  control_intent = some intent;
  parent_session = none;
  base_cwd = none;
  name = none;
}

-- Neither a reason to be blocked nor a time to wait for.
abbrev pub fresh_patch : TaskPatch
fresh_patch = record { blocked_reason = some none; retry_not_before = some none }

abbrev pub must : {R C A : Type 0} → Cas R C → String → Action A → Action A
must (done r) code next = next
must not_found code next = throw (control_error code)
must (mismatch r) code next = throw (control_error code)

-- `validateRunForTaskControl`
unfoldable pub validate_run_for_task_control : Option RunRow → Action (Unit {0})
validate_run_for_task_control none = throw (control_error "dag.run_not_found")
validate_run_for_task_control (some run) = elim run.state [
  | RunState.cancelling ↦ throw (control_error "dag.invalid_run_state")
  | RunState.cancelled ↦ throw (control_error "dag.invalid_run_state")
  | RunState.succeeded ↦ throw (control_error "dag.invalid_run_state")
  | _ ↦ pure tt
]

-- What a retry may start from: failed, or blocked on a failure or a conflict.
abbrev pub retryable : TaskRow → Bool
retryable row = elim row.state [
  | failed ↦ true
  | blocked ↦ elim (parse_blocked_reason_code row.blocked_reason) [
    | none ↦ false
    | some code ↦ code == "upstream_failed" || code == "merge_conflicted"
  ]
  | _ ↦ false
]

abbrev pub cancellable : TaskState → Bool
cancellable pending = true
cancellable blocked = true
cancellable ready = true
cancellable queued = true
cancellable _ = false

abbrev pub takes : TaskAction → TaskRow → Bool
takes retry_task row = retryable row
takes cancel_task row = cancellable row.state

-- `validateTaskForControl`
unfoldable pub validate_task_for_control : TaskAction → TaskRow → Action (Unit {0})
validate_task_for_control action row =
    if takes action row then pure tt else throw (control_error "dag.invalid_task_state")

unfoldable pub require_run : String → Action RunRow
unfolding find_run
require_run run_id = do
  run ← find_run run_id
  elim run [ none ↦ throw (control_error "dag.run_not_found") | some r ↦ pure r ]

unfoldable pub require_task : String → String → Action TaskRow
unfolding find_tasks
require_task run_id task_id = do
  rows ← find_tasks run_id
  elim (read_row task_id rows) [
    | none ↦ throw (control_error "dag.task_not_found")
    | some row ↦ pure row
  ]

module _ (sha256 : String → String) where
  unfoldable pub note_control :
      ControlCall → String → String → String → List (String × Value) → Action (Unit {0})
  note_control c action from to more = write_event sha256 c.control_id c.run_id (record {
    type = "run.control";
    task_id = none;
    attempt_id = none;
    payload = object (
        fields (
          ("action", string action)
          ∷ ("reason", or_null c.reason)
          ∷ ("from", string from)
          ∷ ("to", string to)
          ∷ more));
    at = c.now;
  })
