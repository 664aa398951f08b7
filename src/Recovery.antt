-- ===== src/Recovery.antt =====
-- lib/recovery.js: what is put right when the host starts again after a crash. The lines it logs are
-- left out.
pub mod Attempts
pub mod Again
pub mod Reconcile
mod Witnesses
use dsh_dag_orchestrator.Prelude.{
  ℕ, zero, suc, ◌+◌, Bool, true, false, not, List, [], ◌∷◌, ◌++◌, Option, none, some, String, ◌==◌,
  if◌then◌else◌, any, filter,
}
use dsh_dag_orchestrator.States.{failed, retry_wait}
use dsh_dag_orchestrator.Json.{Value, boolean, number, object, string, stringify}
use dsh_dag_orchestrator.Store.Rows.{RunState, AttemptState, AttemptRow, OutputRow, RunRow, TaskRow}
use dsh_dag_orchestrator.Store.Action.{Action, pure, tx, ◌>>=◌, ◌>>◌}
use dsh_dag_orchestrator.Store.Runs.{
  cas_run_state, find_all_runs, find_run, no_run_patch, run_is_terminal,
}
use dsh_dag_orchestrator.Store.Tasks.{TaskPatch, cas_task_state, find_tasks, no_task_patch}
use dsh_dag_orchestrator.Store.Attempts.{
  TerminalPatch, attempt_is_terminal, commit_ok, commit_terminal, find_attempt,
  find_non_terminal_attempts,
}
use dsh_dag_orchestrator.Store.Events.{Verdict, chain_ok, first_bad, decimal, verify_chain}
use dsh_dag_orchestrator.Store.Outputs.{find_all_outputs}
use dsh_dag_orchestrator.Store.Moves.{Move, read_row}
use dsh_dag_orchestrator.Store.Payloads.{
  change, fields, on_done, or_null, run_state_name, task_state_name, write_event,
}

-- What one recovery reads of the clocks and of `randomUUID`: `stamp` is the store's own clock.
pub record Moment : Type 0 where
  pub now : ℕ
  pub stamp : ℕ
  pub id₁ : String
  pub id₂ : String
  pub id₃ : String

abbrev attempt_state_name : AttemptState → String
attempt_state_name AttemptState.claimed = "claimed"
attempt_state_name AttemptState.running = "running"
attempt_state_name AttemptState.succeeded = "succeeded"
attempt_state_name AttemptState.failed = "failed"
attempt_state_name AttemptState.cancelled = "cancelled"
attempt_state_name AttemptState.orphaned = "orphaned"

-- Claimed, or running without a child session: nothing ever ran.
abbrev pub never_dispatched : AttemptRow → Bool
never_dispatched a = elim a.state [
  | AttemptState.claimed ↦ true
  | AttemptState.running ↦ elim a.child_session [ none ↦ true | some c ↦ false ]
  | _ ↦ false
]

abbrev pub is_running : AttemptRow → Bool
is_running a = elim a.state [ AttemptState.running ↦ true | _ ↦ false ]

-- The columns of an attempt that ended with the host.
unfoldable pub crash_patch : String → String → TerminalPatch
unfolding stringify
crash_patch code message = record {
  stop_reason = some (some "internal");
  failure_json = some (
      some (
        stringify (
          object (
            fields (
              ("failureType", string "internal")
              ∷ ("code", string code)
              ∷ ("message", string message)
              ∷ [])))));
  result_json = some none;
}

unfoldable pub no_dispatch_patch : TerminalPatch
unfolding crash_patch
no_dispatch_patch =
    crash_patch "recovery.no_dispatch"
      "host crashed before the attempt was dispatched; nothing ever ran"

unfoldable pub orphan_patch : TerminalPatch
unfolding crash_patch
orphan_patch =
    crash_patch "recovery.orphaned"
      "host crashed while the subagent was in flight; success cannot be inferred — manual reconciliation required"

-- A retry at once.
abbrev pub retry_now : Moment → TaskPatch
retry_now m = record { blocked_reason = none; retry_not_before = some (some m.now) }

-- What the transaction of either recovery starts with: the attempt is read again, and then its task.
abbrev pub with_fresh :
    (AttemptRow → Bool) → (AttemptRow → TaskRow → Action Bool) → AttemptRow → Action Bool
with_fresh fits path attempt = do
  fresh ← find_attempt attempt.attempt_id
  elim fresh [
    | none ↦ pure false
    | some a ↦
        if fits a
        then (do
          rows ← find_tasks attempt.run_id
          elim (read_row attempt.task_id rows) [ none ↦ pure false | some row ↦ path a row ])
        else pure false
  ]

module _ (sha256 : String → String) where
  abbrev pub write :
      String → ℕ → AttemptRow → String → Bool → List (String × Value) → Action (Unit {0})
  write id now attempt type about_attempt payload = write_event sha256 id attempt.run_id (record {
    type = type;
    task_id = some attempt.task_id;
    attempt_id = if about_attempt then some attempt.attempt_id else none;
    payload = object (fields payload);
    at = now;
  })

  unfoldable pub retry_row : Moment → AttemptRow → AttemptRow → TaskRow → Action Bool
  unfolding decimal
  retry_row m attempt fresh row = do
    commit ←
        commit_terminal attempt.attempt_id fresh.owner_token AttemptState.failed no_dispatch_patch
          m.stamp
    if not (commit_ok commit) then pure false else do
      write m.id₁ m.now attempt "recovery.no_dispatch" true (
          ("attemptId", string attempt.attempt_id)
          ∷ (
            "reason",
            string "claimed-but-never-dispatched (host crash between claim and dispatch)",
          )
          ∷ ("attemptState", string (attempt_state_name fresh.state))
          ∷ [])
      write m.id₂ m.now attempt "attempt.retry_scheduled" true (
          ("failedAttemptId", string attempt.attempt_id)
          ∷ ("nextAttemptNumber", number (decimal (suc attempt.ordinal)))
          ∷ ("retryNotBeforeMs", number (decimal m.now))
          ∷ ("backoffMs", number "0")
          ∷ ("recovery", boolean true)
          ∷ [])
      cas ←
          cas_task_state attempt.run_id attempt.task_id row.state row.version retry_wait
            (retry_now m) m.stamp
      on_done cas false (do
        write m.id₃ m.now attempt "task.retry_wait" false (
            ("from", string (task_state_name row.state))
            ∷ ("to", string "retry_wait")
            ∷ ("reason", string "retry_wait")
            ∷ ("retryNotBeforeMs", number (decimal m.now))
            ∷ ("attemptNumber", number (decimal attempt.ordinal))
            ∷ ("recovery", boolean true)
            ∷ [])
        pure true)

  unfoldable pub recover_never_dispatched : Moment → AttemptRow → Action Bool
  recover_never_dispatched m attempt =
      tx (with_fresh never_dispatched (retry_row m attempt) attempt)

  -- The two events behind the move of the task: that it failed, and that a human is asked.
  unfoldable pub ask_for_action : Moment → AttemptRow → AttemptRow → TaskRow → Action (Unit {0})
  unfolding decimal
  ask_for_action m attempt fresh row = do
    write m.id₂ m.now attempt "task.failed" false (
        ("from", string (task_state_name row.state))
        ∷ ("to", string "failed")
        ∷ ("reason", string "recovery.orphaned")
        ∷ ("failureType", string "internal")
        ∷ ("code", string "recovery.orphaned")
        ∷ ("attemptNumber", number (decimal attempt.ordinal))
        ∷ [])
    write m.id₃ m.now attempt "recovery.action_requested" true (
        ("attemptId", string attempt.attempt_id)
        ∷ ("childSession", or_null fresh.child_session)
        ∷ ("action", string "retry_task")
        ∷ (
          "reason",
          string
              "in-flight attempt orphaned by a host crash — inspect the child session for partial work, then dag_control retry_task",
        )
        ∷ [])

  unfoldable pub orphan_row : Moment → AttemptRow → AttemptRow → TaskRow → Action Bool
  orphan_row m attempt fresh row = do
    commit ←
        commit_terminal attempt.attempt_id fresh.owner_token AttemptState.orphaned orphan_patch
          m.stamp
    if not (commit_ok commit) then pure false else do
      write m.id₁ m.now attempt "attempt.orphaned" true (
          ("from", string "running")
          ∷ ("to", string "orphaned")
          ∷ ("childSession", or_null fresh.child_session)
          ∷ ("code", string "recovery.orphaned")
          ∷ [])
      cas ←
          cas_task_state attempt.run_id attempt.task_id row.state row.version failed no_task_patch
            m.stamp
      on_done cas false (do ask_for_action m attempt fresh row; pure true)

  unfoldable pub recover_orphaned : Moment → AttemptRow → Action Bool
  recover_orphaned m attempt = tx (with_fresh is_running (orphan_row m attempt) attempt)
