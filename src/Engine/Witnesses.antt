-- ===== src/Engine/Witnesses.antt =====
-- The theorems on lib/engine.js at concrete runs.
use mathlib.Core.Bool.{decide}
use dsh_dag_orchestrator.Prelude.{◌≡◌, refl, false, List, [], ◌∷◌, none, Option, some, String, All}
use dsh_dag_orchestrator.States.{TaskState, succeeded, failed, blocked, cancelled}
use dsh_dag_orchestrator.Json.{Value}
use dsh_dag_orchestrator.Store.Rows.{TaskRow, coded}
use dsh_dag_orchestrator.Prelude.{ℕ, ◌<◌, ◌↔◌, true}
use dsh_dag_orchestrator.Prelude.Int.{ℤ, pos}
use dsh_dag_orchestrator.Store.Rows.{EventRow}
use dsh_dag_orchestrator.TerminalCommit.{Failure}
use dsh_dag_orchestrator.Engine.Retry.{
  RetryPolicy, is_execution_retry, execution_retries, decide_retry,
}
use dsh_dag_orchestrator.Engine.Retry.Budget.{
  Covers, decide_retry_iff, decide_retry-execution_retries,
}
use dsh_dag_orchestrator.Engine.{failure_type_to_policy_key, finish_target}
use dsh_dag_orchestrator.Engine.Finish.{IsOver, finish_target-succeeded}

abbrev row_in : String → TaskState → TaskRow
row_in id s = record {
  run_id = "r1";
  task_id = id;
  state = s;
  version = 1;
  blocked_reason = some (coded "upstream_failed" "build");
  retry_not_before = none;
  updated_at = 0;
}

abbrev dead_end : List TaskRow
dead_end = row_in "build" failed ∷ row_in "ship" blocked ∷ []

abbrev well : List TaskRow
well = row_in "build" succeeded ∷ row_in "docs" cancelled ∷ []

finish_target-succeeded_example : (false ≡ false) × All (λ r. IsOver r.state) well
unfolding finish_target decide
finish_target-succeeded_example = finish_target-succeeded false well refl

abbrev three_tries : RetryPolicy
three_tries = record {
  max_attempts = some 3;
  retry_on = some ("transient_network" ∷ []);
  backoff_ms = none;
  max_backoff_ms = none;
  jitter_ratio = none;
}

abbrev timed_out : Failure
timed_out = record { failure_type = "timeout"; code = "dag.timeout"; message = "too slow" }

abbrev no_jitter : ℕ → String → ℤ
no_jitter delay ratio = pos 0

-- A parse for the example, at which every text throws.
abbrev no_parse : String → Option Value
no_parse t = none

abbrev scheduled : EventRow
scheduled = record {
  event_id = "e1";
  run_id = "r1";
  seq = 1;
  type = "attempt.retry_scheduled";
  at = 3;
  task_id = some "build";
  attempt_id = some "a1";
  payload_json = "{}";
  prev_hash = "";
  hash = "";
}

decide_retry_iff_example :
    ((decide_retry no_jitter three_tries timed_out 1).retry ≡ true)
    ↔ ((2 < 3) × Covers ("transient_network" ∷ []) "timeout")
decide_retry_iff_example = decide_retry_iff no_jitter three_tries timed_out 1

decide_retry-execution_retries_example :
    execution_retries no_parse "build" (scheduled ∷ scheduled ∷ []) < 3
unfolding decide_retry execution_retries failure_type_to_policy_key is_execution_retry
decide_retry-execution_retries_example =
    decide_retry-execution_retries no_jitter no_parse three_tries timed_out "build" (scheduled ∷ [])
      scheduled refl
