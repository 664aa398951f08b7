-- ===== src/Engine/Approvals.antt =====
-- `reconcileApprovals` of lib/engine.js: what people decided moves the tasks that were parked for it.
use dsh_dag_orchestrator.Prelude.{
  ℕ, suc, Bool, true, false, not, List, [], ◌∷◌, none, some, String, ◌==◌, if◌then◌else◌, find,
  length,
}
use dsh_dag_orchestrator.States.{succeeded, failed, blocked}
use dsh_dag_orchestrator.Json.{string}
use dsh_dag_orchestrator.Store.Rows.{ApprovalState, ApprovalRow, TaskRow}
use dsh_dag_orchestrator.Store.Action.{Action, pure, tx, ◌>>=◌}
use dsh_dag_orchestrator.Store.Tasks.{TaskPatch, find_tasks, cas_task_state}
use dsh_dag_orchestrator.Store.Approvals.{find_pending_approvals, find_decided_approvals}
use dsh_dag_orchestrator.Store.Events.{Event, insert_event}
use dsh_dag_orchestrator.Store.Payloads.{change, on_done, Ambient}
use dsh_dag_orchestrator.Ready.{code_is}
use dsh_dag_orchestrator.Engine.{is_state, parse_blocked_reason_code}

pub record Reconciled : Type 0 where
  pub promoted : ℕ
  pub pending : ℕ

-- Both columns are cleared.
abbrev pub clear_patch : TaskPatch
clear_patch = record { blocked_reason = some none; retry_not_before = some none }

abbrev is_approved : ApprovalState → Bool
is_approved ApprovalState.approved = true
is_approved _ = false

abbrev pub is_parked : TaskRow → Bool
is_parked r = code_is (parse_blocked_reason_code r.blocked_reason) "approval_pending"

abbrev approved_event : ApprovalRow → ℕ → Event
approved_event approval now = record {
  type = "task.succeeded";
  task_id = some approval.task_id;
  attempt_id = none;
  at = now;
  payload =
      change "blocked" "succeeded"
        (("reason", string "approval_approved") ∷ ("approvalId", string approval.approval_id) ∷ []);
}

abbrev rejected_event : ApprovalRow → ℕ → Event
rejected_event approval now = record {
  type = "task.failed";
  task_id = some approval.task_id;
  attempt_id = none;
  at = now;
  payload = change "blocked" "failed" (
      ("reason", string "approval_rejected")
      ∷ ("failureType", string "permanent")
      ∷ ("code", string "dag.policy_denied")
      ∷ ("approvalId", string approval.approval_id)
      ∷ []);
}

module _ (sha256 : String → String) where
  unfoldable pub promote_row : String → ApprovalRow → Ambient → TaskRow → Action Bool
  promote_row run_id approval a row =
      let to = if is_approved approval.state then succeeded else failed in
      let event =
        if is_approved approval.state
        then approved_event approval a.now
        else rejected_event approval a.now in
      do
        cas ← cas_task_state run_id approval.task_id row.state row.version to clear_patch a.now
        on_done cas false (do written ← insert_event sha256 a.event_id run_id event; pure true)

  -- The transaction for one approval: only a task that is still parked for an approval moves.
  unfoldable pub promote_parked : String → ApprovalRow → Ambient → Action Bool
  unfolding promote_row
  promote_parked run_id approval a = do
    tasks ← find_tasks run_id
    elim (find (λ r. r.task_id == approval.task_id) tasks) [
      | none ↦ pure false
      | some row ↦
          if not (is_state blocked row)
          then pure false
          else if not (is_parked row)
          then pure false
          else promote_row run_id approval a row
    ]

  -- The loop over the decided approvals; each reads the clock and an id of its own.
  unfoldable pub promote_each : String → (ApprovalRow → Ambient) → List ApprovalRow → Action ℕ
  promote_each run_id ambient [] = pure 0
  promote_each run_id ambient (approval ∷ approvals) = do
    moved ← tx (promote_parked run_id approval (ambient approval))
    more ← promote_each run_id ambient approvals
    pure (if moved then suc more else more)

  unfoldable pub reconcile_approvals : String → (ApprovalRow → Ambient) → Action Reconciled
  reconcile_approvals run_id ambient = do
    decided ← find_decided_approvals run_id
    waiting ← find_pending_approvals run_id
    promoted ← promote_each run_id ambient decided
    pure (record { promoted = promoted; pending = length waiting })
