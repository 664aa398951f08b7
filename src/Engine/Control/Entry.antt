-- ===== src/Engine/Control/Entry.antt =====
-- `control` of lib/engine.js itself. That a stop has the executor abort the attempts in flight is left
-- out: it touches no table.
use dsh_dag_orchestrator.Prelude.{List, [], ◌∷◌, none, some, String, ◌==◌, if◌then◌else◌}
use dsh_dag_orchestrator.Store.Action.{Action, control_error, pure, throw, tx, ◌>>=◌, ◌>>◌}
use dsh_dag_orchestrator.Store.Runs.{find_run, run_is_terminal}
use dsh_dag_orchestrator.Engine.Control.{
  ControlCall, ControlAction, Controlled, Effect, on_run, on_task, require_run, require_task,
  unknown_action, validate_run_for_task_control,
}
use dsh_dag_orchestrator.Engine.Control.OnRun.{control_run}
use dsh_dag_orchestrator.Engine.Control.OnTask.{control_task}

module _ (sha256 : String → String) where
  abbrev pub tell_state : ControlCall → List Effect → Action Controlled
  tell_state c effected = do
    run ← find_run c.run_id
    pure (record {
      run_state = elim run [ none ↦ none | some r ↦ some r.state ];
      effected = effected;
    })

  -- The run is looked up once in front, and inside the transaction again.
  unfoldable pub control : ControlAction → ControlCall → Action Controlled
  control (unknown_action name) c = throw (control_error "dag.invalid_action")
  control (on_run action) c = do
    before ← require_run c.run_id
    if run_is_terminal before.state then throw (control_error "dag.invalid_run_state") else do
      effected ← tx (do run ← require_run c.run_id; control_run sha256 action c run)
      tell_state c effected
  control (on_task action) c = do
    before ← require_run c.run_id
    if c.task_id == "" then throw (control_error "dag.task_required") else do
      again ← require_run c.run_id
      row ← require_task c.run_id c.task_id
      validate_run_for_task_control (some again)
      landed ← tx (control_task sha256 action c)
      tell_state c (landed ∷ [])
