-- ===== src/Engine/Control/OnTask.antt =====
-- `control` of lib/engine.js on one task: retry and cancel.
use dsh_dag_orchestrator.Prelude.{true, [], ◌∷◌, Option, none, some, String}
use dsh_dag_orchestrator.States.{retry_wait, cancelled}
use dsh_dag_orchestrator.Json.{boolean, number, object, string}
use dsh_dag_orchestrator.Store.Rows.{RunState, RunRow, TaskRow}
use dsh_dag_orchestrator.Store.Action.{Action, done, mismatch, not_found, pure, ◌>>=◌, ◌>>◌}
use dsh_dag_orchestrator.Store.Runs.{cas_run_state, find_run}
use dsh_dag_orchestrator.Store.Tasks.{cas_task_state}
use dsh_dag_orchestrator.Store.Events.{decimal}
use dsh_dag_orchestrator.Store.Payloads.{fields, or_null, task_state_name, write_event}
use dsh_dag_orchestrator.Engine.Control.{
  ControlCall, Effect, TaskAction, cancel_task, fresh_patch, intent_patch, must, note_control,
  require_task, retry_task, validate_run_for_task_control, validate_task_for_control,
}

module _ (sha256 : String → String) where
  -- A failed run runs again; where another writer was first, the task is still set to retry.
  unfoldable pub revive_run : ControlCall → Option RunRow → Action (Unit {0})
  revive_run c none = pure tt
  revive_run c (some run) = elim run.state [
    | RunState.failed ↦ do
      cas ←
          cas_run_state c.run_id RunState.failed run.version RunState.running (intent_patch none)
            c.stamp
      elim cas [
        | done r ↦
            note_control sha256 c "retry_task" "failed" "running"
              (("taskId", string c.task_id) ∷ [])
        | not_found ↦ pure tt
        | mismatch r ↦ pure tt
      ]
    | _ ↦ pure tt
  ]

  unfoldable pub retry_one : ControlCall → TaskRow → Action Effect
  unfolding decimal
  retry_one c row = do
    run ← find_run c.run_id
    revive_run c run
    cas ←
        cas_task_state c.run_id c.task_id row.state row.version retry_wait
          (record { blocked_reason = some none; retry_not_before = some (some c.now) }) c.stamp
    must cas "dag.invalid_task_state" (do
      write_event sha256 c.event_id c.run_id (record {
        type = "task.retry_requested";
        task_id = some c.task_id;
        attempt_id = none;
        payload = object (
            fields (
              ("taskId", string c.task_id)
              ∷ ("manual", boolean true)
              ∷ ("reason", or_null c.reason)
              ∷ ("from", string (task_state_name row.state))
              ∷ ("to", string "retry_wait")
              ∷ ("retryNotBeforeMs", number (decimal c.now))
              ∷ []));
        at = c.now;
      })
      pure (record { task_id = c.task_id; from = row.state; to = retry_wait }))

  unfoldable pub cancel_row : ControlCall → TaskRow → Action Effect
  cancel_row c row = do
    cas ← cas_task_state c.run_id c.task_id row.state row.version cancelled fresh_patch c.stamp
    must cas "dag.invalid_task_state" (do
      write_event sha256 c.event_id c.run_id (record {
        type = "task.cancelled";
        task_id = some c.task_id;
        attempt_id = none;
        payload = object (
            fields (
              ("from", string (task_state_name row.state))
              ∷ ("to", string "cancelled")
              ∷ ("reason", string "cancel_task")
              ∷ ("manual", boolean true)
              ∷ ("note", or_null c.reason)
              ∷ []));
        at = c.now;
      })
      pure (record { task_id = c.task_id; from = row.state; to = cancelled }))

  unfoldable pub control_task : TaskAction → ControlCall → Action Effect
  control_task action c = do
    row ← require_task c.run_id c.task_id
    run ← find_run c.run_id
    validate_run_for_task_control run
    validate_task_for_control action row
    elim action [ retry_task ↦ retry_one c row | cancel_task ↦ cancel_row c row ]
