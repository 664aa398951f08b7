-- ===== src/Engine/Retry.antt =====
-- `shouldRetry` of lib/engine.js: whether a failed attempt is tried again, and after how long. `jitter`
-- is the rounded product of floating-point numbers that the code draws from its random source, given
-- the delay that it varies and the ratio's text.
pub mod Budget
use dsh_dag_orchestrator.Prelude.{
  ℕ, zero, suc, ◌+◌, ◌-◌, ◌*◌, Bool, true, false, not, ◌&&◌, List, [], ◌∷◌, Option, none, some,
  String, ◌==◌, leb, ltb, if◌then◌else◌, find, filter, length, any, get_or,
}
use dsh_dag_orchestrator.Prelude.Int.{ℤ, pos, negsuc}
use dsh_dag_orchestrator.Json.{
  Value, null, boolean, number, string, array, object, undefined, bigint, function, symbol, Fields,
  end, field,
}
use dsh_dag_orchestrator.Store.Rows.{EventRow}
use dsh_dag_orchestrator.Store.Action.{Action, pure, ◌>>=◌}
use dsh_dag_orchestrator.Store.Tables.{is_same}
use dsh_dag_orchestrator.Store.Events.{find_events}
use dsh_dag_orchestrator.TerminalCommit.{Failure}
use dsh_dag_orchestrator.Engine.{failure_type_to_policy_key}

pub record RetryPolicy : Type 0 where
  pub max_attempts : Option ℕ
  pub retry_on : Option (List String)
  pub backoff_ms : Option ℕ
  pub max_backoff_ms : Option ℕ
  pub jitter_ratio : Option String

pub record RetryDecision : Type 0 where
  pub retry : Bool
  pub backoff_ms : ℕ

abbrev pub no_retry : RetryDecision
no_retry = record { retry = false; backoff_ms = 0 }

abbrev is_true : Value → Bool
is_true (boolean b) = b
is_true _ = false

-- `payload[k] === true`, where a later field of the same name replaces an earlier one.
abbrev flag_in : String → Fields → Bool → Bool
flag_in k end b = b
flag_in k (field j v fs) b = flag_in k fs (if j == k then is_true v else b)

abbrev flag : String → Value → Bool
flag k (object fs) = flag_in k fs false
flag k _ = false

-- A payload that cannot be parsed counts.
abbrev is_billed : Option Value → Bool
is_billed none = true
is_billed (some v) = not (flag "recovery" v) && not (flag "manual" v)

-- `parse_json` is what `JSON.parse` makes of a text, `none` where that throws.
module _ (parse_json : String → Option Value) where
  -- A retry that the policy's allowance pays for.
  unfoldable pub is_execution_retry : String → EventRow → Bool
  is_execution_retry task_id e =
      is_same e.task_id (some task_id)
      && (e.type == "attempt.retry_scheduled" && is_billed (parse_json e.payload_json))

  unfoldable pub execution_retries : String → List EventRow → ℕ
  execution_retries task_id events = length (filter (is_execution_retry task_id) events)

pow2 : ℕ → ℕ
pow2 zero = 1
pow2 (suc n) = 2 * pow2 n

abbrev least : ℕ → ℕ → ℕ
least a b = if leb a b then a else b

-- `Math.max(0, exp + jitter)`
abbrev shifted : ℕ → ℤ → ℕ
shifted exp (pos n) = exp + n
shifted exp (negsuc n) = exp - suc n

-- An empty list names every kind of failure.
abbrev pub is_named : List String → String → Bool
is_named [] key = true
is_named (k ∷ ks) key = any (λ j. j == key) (k ∷ ks)

module _ (jitter : ℕ → String → ℤ) where
  unfoldable pub backoff : RetryPolicy → ℕ → ℕ
  unfolding pow2
  backoff p retries =
      let exp = least (get_or p.backoff_ms 1000 * pow2 retries) (get_or p.max_backoff_ms 60000) in
      shifted exp (jitter exp (get_or p.jitter_ratio "0.25"))

  -- The decision, once the retries so far are counted.
  unfoldable pub decide_retry : RetryPolicy → Failure → ℕ → RetryDecision
  unfolding backoff
  decide_retry p failure retries =
      if leb (get_or p.max_attempts 1) (suc retries)
      then no_retry
      else if not
          (is_named (get_or p.retry_on []) (failure_type_to_policy_key failure.failure_type))
      then no_retry
      else record { retry = true; backoff_ms = backoff p retries }

  -- `policy` is the `retry` block of the spec's task.
  unfoldable pub should_retry :
      (String → Option Value)
      → Option RetryPolicy
      → String
      → String
      → Option Failure
      → Action RetryDecision
  unfolding decide_retry execution_retries
  should_retry parse_json policy run_id task_id none = pure no_retry
  should_retry parse_json none run_id task_id (some failure) = pure no_retry
  should_retry parse_json (some p) run_id task_id (some failure) = do
    events ← find_events run_id 0 none
    pure (decide_retry p failure (execution_retries parse_json task_id events))
