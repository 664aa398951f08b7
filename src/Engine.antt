-- ===== src/Engine.antt =====
-- lib/engine.js, as far as its steps change runs and tasks by themselves: which failures block whom,
-- when a run is finished, and when a pausing run is paused.
pub mod Finish
pub mod Retry
pub mod Approvals
pub mod Failures
pub mod Control
pub mod Plan
mod Witnesses
use mathlib.Core.Bool.{decide}
use dsh_dag_orchestrator.Prelude.{
  ℕ, zero, suc, Bool, true, false, not, ◌&&◌, ◌||◌, List, [], ◌∷◌, ◌++◌, Option, none, some, String,
  ◌==◌, if◌then◌else◌, find, any, every, filter, map,
}
use dsh_dag_orchestrator.States.{
  TaskState, TaskState-discrete, pending, ready, queued, running, succeeded, failed, retry_wait,
  blocked, cancelled, other,
}
use dsh_dag_orchestrator.Json.{Value, null, string, number, object, Fields, end, field}
use dsh_dag_orchestrator.Ready.{Condition, on_succeeded, on_completed, includes}
use dsh_dag_orchestrator.Store.Rows.{
  ReasonText, coded, raw, RunState, RunState-discrete, RunRow, TaskRow, EventRow,
}
use dsh_dag_orchestrator.Store.Action.{
  Action, pure, throw, gets, tx, Cas, done, not_found, mismatch, ◌>>=◌,
}
use dsh_dag_orchestrator.Store.Runs.{run_is_terminal, no_run_patch, find_run, cas_run_state}
use dsh_dag_orchestrator.Store.Tasks.{TaskPatch, no_task_patch, find_tasks, cas_task_state}
use dsh_dag_orchestrator.Store.Attempts.{has_non_terminal_attempt}
use dsh_dag_orchestrator.Store.Events.{Event, insert_event}
use dsh_dag_orchestrator.Store.Payloads.{
  fields, run_state_name, task_state_name, change, on_done, Ambient,
}

abbrev pub is_state : TaskState → TaskRow → Bool
is_state s r = decide (TaskState-discrete r.state s)

-- TASK_TERMINAL_STATES
abbrev pub task_is_terminal : TaskState → Bool
task_is_terminal succeeded = true
task_is_terminal failed = true
task_is_terminal cancelled = true
task_is_terminal _ = false

unfoldable pub failure_type_to_policy_key : String → String
failure_type_to_policy_key t =
    if t == "transient"
    then "transient_network"
    else if t == "timeout"
    then "transient_network"
    else t

-- The code of a reason that is the text of an object with one.
abbrev pub parse_blocked_reason_code : Option ReasonText → Option String
parse_blocked_reason_code none = none
parse_blocked_reason_code (some (coded code about)) = some code
parse_blocked_reason_code (some (raw t)) = none

unfoldable pub is_soft_blocked : Option ReasonText → Bool
is_soft_blocked none = false
is_soft_blocked (some (coded code about)) =
    code == "approval_pending" || (code == "merge_conflicted" || code == "dag.output_missing")
is_soft_blocked (some (raw t)) =
    includes t "approval_pending"
    || (includes t "merge_conflicted" || includes t "dag.output_missing")

-- A task that can still move without a new decision about the run: `hasLiveWork`.
unfoldable pub is_live : TaskRow → Bool
unfolding is_soft_blocked
is_live r = live_in r.state
  where
    live_in : TaskState → Bool
    live_in pending = true
    live_in ready = true
    live_in queued = true
    live_in running = true
    live_in retry_wait = true
    live_in blocked = is_soft_blocked r.blocked_reason
    live_in _ = false

-- A task that is over, or blocked for good.
unfoldable pub is_settled : TaskRow → Bool
unfolding is_soft_blocked
is_settled r = settled_in r.state
  where
    settled_in : TaskState → Bool
    settled_in succeeded = true
    settled_in failed = true
    settled_in cancelled = true
    settled_in blocked = not (is_soft_blocked r.blocked_reason)
    settled_in _ = false

-- The terminal state that the tasks give a run, if it has one now; `cancelling` says that the run was
-- stopped.
unfoldable pub finish_target : Bool → List TaskRow → Option RunState
unfolding is_live is_settled TaskState-discrete
finish_target cancelling [] = none
finish_target cancelling (t ∷ ts) =
    let tasks = t ∷ ts in
    let all_terminal = every (λ (r : TaskRow). task_is_terminal r.state) tasks in
    let only_dead_blocked =
      not all_terminal && (not (any is_live tasks) && every is_settled tasks) in
    if not all_terminal && not only_dead_blocked
    then none
    else if cancelling
    then some RunState.cancelled
    else if any (is_state failed) tasks || only_dead_blocked
    then some RunState.failed
    else if every (is_state cancelled) tasks
    then some RunState.cancelled
    else some RunState.succeeded

abbrev pub run_type : RunState → String
run_type RunState.succeeded = "run.succeeded"
run_type RunState.failed = "run.failed"
run_type RunState.cancelled = "run.cancelled"
run_type _ = "run."

-- `FINALIZE_BLOCKING_INTENTS`
abbrev pub pause_intent : Option String → Bool
pause_intent none = false
pause_intent (some i) = i == "pause"

module _ (sha256 : String → String) where
  -- The transaction of `finalizeRunIfDone`.
  unfoldable pub land_run : String → RunState → Ambient → Action Bool
  land_run run_id target a = do
    current ← find_run run_id
    elim current [
      | none ↦ pure false
      | some run ↦ if run_is_terminal run.state then pure false else do
        cas ← cas_run_state run_id run.state run.version target no_run_patch a.now
        on_done cas false (do
          event ← insert_event sha256 a.event_id run_id (record {
            type = run_type target;
            task_id = none;
            attempt_id = none;
            at = a.now;
            payload =
                change (run_state_name run.state) (run_state_name target)
                  (("reason", string (run_state_name target)) ∷ []);
          })
          pure true)
    ]

  unfoldable pub finalize_run_if_done : String → Ambient → Action Bool
  unfolding RunState-discrete
  finalize_run_if_done run_id a = do
    found ← find_run run_id
    elim found [
      | none ↦ pure false
      | some run ↦
          if run_is_terminal run.state
          then pure true
          else if pause_intent run.control_intent
          then pure false
          else do
            tasks ← find_tasks run_id
            elim (finish_target (decide (RunState-discrete run.state RunState.cancelling)) tasks) [
              | none ↦ pure false
              | some target ↦ tx (land_run run_id target a)
            ]
    ]

  -- Whether any of the tasks still has an attempt in flight, each looked up in turn.
  unfoldable pub any_in_flight : String → List TaskRow → Action Bool
  any_in_flight run_id [] = pure false
  any_in_flight run_id (t ∷ ts) = do
    busy ← has_non_terminal_attempt run_id t.task_id
    if busy then pure true else any_in_flight run_id ts

  unfoldable pub pause_run : String → Ambient → Action (Unit {0})
  unfolding RunState-discrete
  pause_run run_id a = do
    found ← find_run run_id
    elim found [
      | none ↦ pure tt
      | some run ↦
          if not (decide (RunState-discrete run.state RunState.pausing))
            || not (pause_intent run.control_intent)
          then pure tt
          else do
            tasks ← find_tasks run_id
            busy ← any_in_flight run_id tasks
            if busy then pure tt else do
              cas ←
                  cas_run_state run_id RunState.pausing run.version RunState.paused no_run_patch
                    a.now
              on_done cas tt (do
                event ← insert_event sha256 a.event_id run_id (record {
                  type = "run.paused";
                  task_id = none;
                  attempt_id = none;
                  at = a.now;
                  payload = change "pausing" "paused" (("reason", string "pause-drain") ∷ []);
                })
                pure tt)
    ]

  unfoldable pub drain_to_paused : String → Ambient → Action (Unit {0})
  drain_to_paused run_id a = tx (pause_run run_id a)
