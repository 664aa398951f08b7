-- ===== src/TerminalCommit.antt =====
-- lib/terminal-commit.js: one attempt ends, its task moves and their events are written in one
-- transaction; then the slot and the session key are given back.
pub mod Paths
pub mod Together
mod Witnesses
use dsh_dag_orchestrator.Prelude.{
  ℕ, suc, ◌+◌, Bool, true, false, not, ◌&&◌, List, [], ◌∷◌, ◌++◌, Option, none, some, String, ◌==◌,
  if◌then◌else◌, find, is_some, get_or,
}
use dsh_dag_orchestrator.States.{TaskState, succeeded, failed, retry_wait, cancelled}
use dsh_dag_orchestrator.Json.{
  Value, null, boolean, string, number, object, Fields, end, field, has_bigint, stringify,
}
use dsh_dag_orchestrator.Store.Rows.{AttemptState, TaskRow, OutputRow, Store}
use dsh_dag_orchestrator.Store.Action.{
  Action, Result, ok, err, pure, gets, throw, type_error, tx, Cas, done, not_found, mismatch, ◌>>=◌,
  ◌>>◌,
}
use dsh_dag_orchestrator.Store.Tasks.{TaskPatch, no_task_patch, find_tasks, cas_task_state}
use dsh_dag_orchestrator.Store.Attempts.{TerminalPatch, commit_ok, commit_terminal}
use dsh_dag_orchestrator.Store.Events.{Event, decimal, insert_event}
use dsh_dag_orchestrator.Store.Outputs.{upsert_output}
use dsh_dag_orchestrator.Store.Moves.{Move, read_row}
use dsh_dag_orchestrator.Store.Payloads.{
  write_event, fields, task_state_name, change, on_done, or_null, given,
}
use dsh_dag_orchestrator.Admission.{
  Admission, SlotHandle, handle, release_slot, release_session_key,
}

pub record Failure : Type 0 where
  pub failure_type : String
  pub code : String
  pub message : String

-- `forcedTaskTarget`
pub data Target : Type 0 where
  to_succeeded to_failed to_cancelled : Target

-- What the caller hands over. `stamp` is the clock that the store reads, and the three ids are what
-- `randomUUID` gives the events in their order.
pub record Settled : Type 0 where
  pub run_id : String
  pub task_id : String
  pub attempt_id : String
  pub ordinal : ℕ
  pub slot : Option SlotHandle
  pub session_key : Option String
  pub owner_token : Option String
  pub failure : Option Failure
  pub structured : Option Value
  pub output_text : Option String
  pub stop_reason : Option String
  pub retry : Bool
  pub backoff_ms : ℕ
  pub forced_task_target : Option Target
  pub verify_status : Option String
  pub verify_evidence : Option String
  pub manual : Bool
  pub declared_output : Option String
  pub now : ℕ
  pub stamp : ℕ
  pub id₁ : String
  pub id₂ : String
  pub id₃ : String

pub data Disposition : Type 0 where
  retried lost : Disposition
  ended : Target → Disposition

abbrev pub target_state : Target → TaskState
target_state to_succeeded = succeeded
target_state to_failed = failed
target_state to_cancelled = cancelled

abbrev target_name : Target → String
target_name t = task_state_name (target_state t)

abbrev pub attempt_state : Target → AttemptState
attempt_state to_succeeded = AttemptState.succeeded
attempt_state to_failed = AttemptState.failed
attempt_state to_cancelled = AttemptState.cancelled

abbrev attempt_type : Target → String
attempt_type to_succeeded = "attempt.succeeded"
attempt_type to_failed = "attempt.failed"
attempt_type to_cancelled = "attempt.cancelled"

abbrev task_type : Target → String
task_type to_succeeded = "task.succeeded"
task_type to_failed = "task.failed"
task_type to_cancelled = "task.cancelled"

abbrev failure_type : Settled → Value
failure_type i = elim i.failure [ none ↦ null | some f ↦ string f.failure_type ]

abbrev failure_code : Settled → Value
failure_code i = elim i.failure [ none ↦ null | some f ↦ string f.code ]

abbrev failure_message : Settled → Value
failure_message i = elim i.failure [ none ↦ null | some f ↦ string f.message ]

abbrev given_value : String → Option Value → List (String × Value)
given_value k none = []
given_value k (some v) = (k, v) ∷ []

abbrev none_if_empty : String → Option String
none_if_empty t = if t == "{}" then none else some t

abbrev failure_value : Failure → Value
failure_value f = object (
    fields (
      ("failureType", string f.failure_type)
      ∷ ("code", string f.code)
      ∷ ("message", string f.message)
      ∷ []))

-- `attemptPatch`: all three columns are written, and an empty result is no result.
unfoldable pub attempt_patch : Settled → TerminalPatch
unfolding stringify
attempt_patch i = record {
  stop_reason = some i.stop_reason;
  failure_json =
      some (elim i.failure [ none ↦ none | some f ↦ some (stringify (failure_value f)) ]);
  result_json = some (
      none_if_empty (
        stringify (
          object (
            fields (
              given_value "structured" i.structured
              ++ (given "outputText" i.output_text ++ given "stopReason" i.stop_reason))))));
}

-- `attemptTarget` and `taskTarget`.
abbrev outcome : Option Failure → Target
outcome none = to_succeeded
outcome (some f) = to_failed

abbrev pub attempt_target : Settled → Target
attempt_target i = elim i.forced_task_target [
  | some to_cancelled ↦ to_cancelled
  | _ ↦ outcome i.failure
]

abbrev pub task_target : Settled → Target
task_target i = elim i.forced_task_target [ some t ↦ t | none ↦ outcome i.failure ]

-- The part of the payload of the attempt's event that depends on how it ended.
unfoldable pub ending : Settled → Target → List (String × Value)
ending i to_succeeded =
    ("evidence", string (if is_some i.structured then "structured" else "output_text_or_none"))
    ∷ (given "verifyStatus" i.verify_status ++ given "verifyEvidence" i.verify_evidence)
ending i _ = ("message", failure_message i) ∷ []

-- Where the attempt succeeded, its task declares an output and there is one, it is written.
unfoldable pub persist_output : Settled → Action (Unit {0})
unfolding stringify
persist_output i = elim (attempt_target i) [
  | to_succeeded ↦ elim i.declared_output [
    | none ↦ pure tt
    | some name ↦ elim i.structured [
      | none ↦ pure tt
      | some v ↦ do
        row ← upsert_output (record {
          run_id = i.run_id;
          task_id = i.task_id;
          name = name;
          value_json = stringify v;
          produced_by_attempt = i.attempt_id;
          created_at = i.stamp;
        })
        pure tt
    ]
  ]
  | _ ↦ pure tt
]

-- The only column that the retry path patches.
abbrev pub wait_patch : Settled → TaskPatch
wait_patch i = record {
  blocked_reason = none;
  retry_not_before = some (some (i.now + i.backoff_ms));
}

-- The attempt and the task that this is about.
abbrev pub move_of : Settled → Move
move_of i = record {
  run_id = i.run_id;
  task_id = i.task_id;
  attempt_id = i.attempt_id;
  owner_token = i.owner_token;
  patch = attempt_patch i;
  stamp = i.stamp;
}

abbrev give_slot : Option SlotHandle → Admission → Admission
give_slot none a = a
give_slot (some h) a = (release_slot (handle h) a).1

abbrev give_key : Option String → String → Admission → Admission
give_key none attempt_id a = a
give_key (some k) attempt_id a = (release_session_key k attempt_id a).1

-- What is given back behind the transaction, whatever its answer.
unfoldable pub release : Settled → Admission → Admission
release i a = give_key i.session_key i.attempt_id (give_slot i.slot a)

-- The transaction of either path; a task that the store does not have leaves it at once.
unfoldable pub settle : (Settled → TaskRow → Action Bool) → Settled → Action Bool
settle path i = do
  rows ← find_tasks i.run_id
  elim (read_row i.task_id rows) [ none ↦ pure false | some row ↦ path i row ]

-- Whether `JSON.stringify` throws on the structured output.
abbrev pub holds_bigint : Option Value → Bool
holds_bigint none = false
holds_bigint (some v) = has_bigint v

module _ (sha256 : String → String) where
  unfoldable pub write : String → Settled → String → Bool → Value → Action (Unit {0})
  write id i type about_attempt payload = write_event sha256 id i.run_id (record {
    type = type;
    task_id = some i.task_id;
    attempt_id = if about_attempt then some i.attempt_id else none;
    payload = payload;
    at = i.now;
  })

  unfoldable pub retry_found : Settled → TaskRow → Action Bool
  unfolding decimal
  retry_found i row = do
    commit ←
        commit_terminal i.attempt_id i.owner_token AttemptState.failed (attempt_patch i) i.stamp
    if not (commit_ok commit) then pure false else do
      write i.id₁ i "attempt.failed" true (
          change "running" "failed" (
            ("failureType", failure_type i)
            ∷ ("code", failure_code i)
            ∷ ("message", failure_message i)
            ∷ []))
      write i.id₂ i "attempt.retry_scheduled" true (
          object (
            fields (
              ("failedAttemptId", string i.attempt_id)
              ∷ ("nextAttemptNumber", number (decimal (suc i.ordinal)))
              ∷ ("retryNotBeforeMs", number (decimal (i.now + i.backoff_ms)))
              ∷ ("backoffMs", number (decimal i.backoff_ms))
              ∷ ("failureType", failure_type i)
              ∷ ("code", failure_code i)
              ∷ (if i.manual then ("manual", boolean true) ∷ [] else []))))
      cas ←
          cas_task_state i.run_id i.task_id row.state row.version retry_wait (wait_patch i) i.stamp
      on_done cas false (do
        write i.id₃ i "task.retry_wait" false (
            change (task_state_name row.state) "retry_wait" (
              ("reason", string "retry_wait")
              ∷ ("retryNotBeforeMs", number (decimal (i.now + i.backoff_ms)))
              ∷ ("attemptNumber", number (decimal i.ordinal))
              ∷ []))
        pure true)

  unfoldable pub end_found : Settled → TaskRow → Action Bool
  unfolding decimal
  end_found i row = do
    commit ←
        commit_terminal i.attempt_id i.owner_token (attempt_state (attempt_target i))
          (attempt_patch i) i.stamp
    if not (commit_ok commit) then pure false else do
      write i.id₁ i (attempt_type (attempt_target i)) true (
          change "running" (target_name (attempt_target i)) (
            ("failureType", failure_type i)
            ∷ ("code", failure_code i)
            ∷ ending i (attempt_target i)))
      persist_output i
      cas ←
          cas_task_state i.run_id i.task_id row.state row.version (target_state (task_target i))
            no_task_patch i.stamp
      on_done cas false (do
        write i.id₂ i (task_type (task_target i)) false (
            change (task_state_name row.state) (target_name (task_target i)) (
              ("reason", string (target_name (task_target i)))
              ∷ ("failureType", failure_type i)
              ∷ ("attemptNumber", number (decimal i.ordinal))
              ∷ []))
        pure true)

  -- The text of the result is made before the transaction opens.
  unfoldable pub land : Settled → Action Disposition
  unfolding has_bigint
  land i =
      if holds_bigint i.structured
      then throw (type_error "structured")
      else if i.retry
      then (do landed ← tx (settle retry_found i); pure (if landed then retried else lost))
      else (do
        landed ← tx (settle end_found i)
        pure (if landed then ended (task_target i) else lost))

  -- An exception of the transaction leaves before anything is given back.
  unfoldable pub commit_terminal_and_release :
      Settled → Store → Admission → Result Disposition × (Store × Admission)
  commit_terminal_and_release i s a =
      let (r, s') = land i s in
      elim r [ ok d ↦ (ok d, (s', release i a)) | err e ↦ (err e, (s', a)) ]
