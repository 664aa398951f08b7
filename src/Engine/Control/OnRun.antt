-- ===== src/Engine/Control/OnRun.antt =====
-- `control` of lib/engine.js on a run: pause, resume and stop.
use dsh_dag_orchestrator.Prelude.{
  ℕ, suc, true, ◌||◌, List, [], ◌∷◌, ◌++◌, none, some, String, if◌then◌else◌,
}
use dsh_dag_orchestrator.States.{running, cancelled}
use dsh_dag_orchestrator.Json.{boolean, object, string}
use dsh_dag_orchestrator.Store.Rows.{RunState, RunRow, TaskRow}
use dsh_dag_orchestrator.Store.Action.{Action, control_error, pure, throw, ◌>>=◌, ◌>>◌}
use dsh_dag_orchestrator.Store.Runs.{cas_run_state, run_is_terminal, set_control_intent}
use dsh_dag_orchestrator.Store.Tables.{is_same}
use dsh_dag_orchestrator.Store.Tasks.{cas_task_state, find_tasks}
use dsh_dag_orchestrator.Store.Payloads.{
  fields, on_done, or_null, run_state_name, task_state_name, write_event,
}
use dsh_dag_orchestrator.Engine.{is_state, task_is_terminal}
use dsh_dag_orchestrator.Engine.Control.{
  ControlCall, Effect, RunAction, fresh_patch, intent_patch, must, note_control, pause, resume,
  stop,
}

module _ (sha256 : String → String) where
  -- The intent is written again where it is another one.
  abbrev pub affirm_intent : ControlCall → RunRow → String → Action (Unit {0})
  affirm_intent c run intent =
      if is_same run.control_intent (some intent)
      then pure tt
      else (do answer ← set_control_intent c.run_id (some intent) c.stamp; pure tt)

  unfoldable pub control_pause : ControlCall → RunRow → Action (List Effect)
  control_pause c run = elim run.state [
    | RunState.running ↦ do
      cas ←
          cas_run_state c.run_id RunState.running run.version RunState.pausing
            (intent_patch (some "pause")) c.stamp
      must cas "dag.invalid_run_state"
          (do note_control sha256 c "pause" "running" "pausing" []; pure [])
    | RunState.pausing ↦ do
      affirm_intent c run "pause"
      note_control sha256 c "pause" "pausing" "pausing" []
      pure []
    | RunState.paused ↦ do
      affirm_intent c run "pause"
      note_control sha256 c "pause" "paused" "paused" []
      pure []
    | _ ↦ throw (control_error "dag.invalid_run_state")
  ]

  unfoldable pub control_resume : ControlCall → RunRow → Action (List Effect)
  control_resume c run = elim run.state [
    | RunState.paused ↦ do
      cas ←
          cas_run_state c.run_id RunState.paused run.version RunState.running (intent_patch none)
            c.stamp
      must cas "dag.invalid_run_state"
          (do note_control sha256 c "resume" "paused" "running" []; pure [])
    | _ ↦ throw (control_error "dag.invalid_run_state")
  ]

  -- One task that a stop cancels, unless it runs, is over, or another writer was first.
  unfoldable pub cancel_one : ControlCall → String → TaskRow → Action (List Effect)
  cancel_one c event_id t = if is_state running t || task_is_terminal t.state then pure [] else do
    cas ← cas_task_state c.run_id t.task_id t.state t.version cancelled fresh_patch c.stamp
    on_done cas [] (do
      write_event sha256 event_id c.run_id (record {
        type = "task.cancelled";
        task_id = some t.task_id;
        attempt_id = none;
        payload = object (
            fields (
              ("from", string (task_state_name t.state))
              ∷ ("to", string "cancelled")
              ∷ ("reason", string "stop")
              ∷ ("manual", boolean true)
              ∷ ("note", or_null c.reason)
              ∷ []));
        at = c.now;
      })
      pure (record { task_id = t.task_id; from = t.state; to = cancelled } ∷ []))

  unfoldable pub cancel_each : ControlCall → ℕ → List TaskRow → Action (List Effect)
  cancel_each c k [] = pure []
  cancel_each c k (t ∷ ts) = do
    here ← cancel_one c (c.task_ids k) t
    rest ← cancel_each c (suc k) ts
    pure (here ++ rest)

  -- The run's own move, from the state that was read.
  abbrev pub begin_stop :
      RunState → ControlCall → RunRow → Action (List Effect) → Action (List Effect)
  begin_stop RunState.cancelling c run next = affirm_intent c run "stop" >> next
  begin_stop from c run next = do
    cas ←
        cas_run_state c.run_id from run.version RunState.cancelling (intent_patch (some "stop"))
          c.stamp
    must cas "dag.invalid_run_state" next

  -- The tasks behind the run's own move.
  unfoldable pub stop_tasks : ControlCall → RunRow → Action (List Effect)
  stop_tasks c run = do
    tasks ← find_tasks c.run_id
    effected ← cancel_each c 0 tasks
    note_control sha256 c "stop" (run_state_name run.state) "cancelling" []
    pure effected

  unfoldable pub control_stop : ControlCall → RunRow → Action (List Effect)
  control_stop c run =
      if run_is_terminal run.state
      then throw (control_error "dag.invalid_run_state")
      else begin_stop run.state c run (stop_tasks c run)

  unfoldable pub control_run : RunAction → ControlCall → RunRow → Action (List Effect)
  control_run pause c run = control_pause c run
  control_run resume c run = control_resume c run
  control_run stop c run = control_stop c run
