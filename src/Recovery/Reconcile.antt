-- ===== src/Recovery/Reconcile.antt =====
-- `reconcile` of lib/recovery.js: the chains, the attempts in flight, and the outputs.
use dsh_dag_orchestrator.Prelude.{
  ℕ, suc, ◌+◌, Bool, true, false, not, List, [], ◌∷◌, ◌++◌, Option, none, some, String, ◌==◌,
  if◌then◌else◌, any, filter, length,
}
use dsh_dag_orchestrator.Json.{Value, number, object, string}
use dsh_dag_orchestrator.Store.Rows.{RunState, AttemptRow, OutputRow, RunRow}
use dsh_dag_orchestrator.Store.Action.{Action, pure, tx, ◌>>=◌, ◌>>◌}
use dsh_dag_orchestrator.Store.Runs.{
  cas_run_state, find_all_runs, find_run, no_run_patch, run_is_terminal,
}
use dsh_dag_orchestrator.Store.Attempts.{
  attempt_is_terminal, find_attempt, find_non_terminal_attempts,
}
use dsh_dag_orchestrator.Store.Events.{chain_ok, first_bad, decimal, verify_chain}
use dsh_dag_orchestrator.Store.Outputs.{find_all_outputs}
use dsh_dag_orchestrator.Store.Payloads.{fields, on_done, run_state_name, write_event}
use dsh_dag_orchestrator.Recovery.{
  Moment, never_dispatched, is_running, recover_never_dispatched, recover_orphaned,
}

-- The set of the runs that were recovered, and the counters.
pub record Tally : Type 0 where
  pub recovered_runs : List String
  pub auto_retried : ℕ
  pub orphaned : ℕ
  pub chain_broken : ℕ
  pub orphan_outputs : ℕ

pub record Summary : Type 0 where
  pub recovered_runs : ℕ
  pub auto_retried : ℕ
  pub orphaned : ℕ
  pub chain_broken : ℕ
  pub orphan_outputs : ℕ

-- Of the set, its size.
abbrev summary : Tally → Summary
summary t = record {
  recovered_runs = length t.recovered_runs;
  auto_retried = t.auto_retried;
  orphaned = t.orphaned;
  chain_broken = t.chain_broken;
  orphan_outputs = t.orphan_outputs;
}

-- `recoveredRuns.add(runId)`
abbrev pub add_run : String → List String → List String
add_run run_id runs = if any (λ r. r == run_id) runs then runs else runs ++ run_id ∷ []

abbrev pub no_tally : Tally
no_tally = record {
  recovered_runs = [];
  auto_retried = 0;
  orphaned = 0;
  chain_broken = 0;
  orphan_outputs = 0;
}

-- An output is cited by an attempt that ended, or it is counted.
abbrev uncited : Option AttemptRow → ℕ
uncited none = 1
uncited (some a) = if attempt_is_terminal a.state then 0 else 1

unfoldable pub count_outputs : List OutputRow → Tally → Action Tally
unfolding find_attempt
count_outputs [] n = pure n
count_outputs (o ∷ os) n = do
  attempt ← find_attempt o.produced_by_attempt
  count_outputs os (record n { orphan_outputs = n.orphan_outputs + uncited attempt })

-- `moment n` is what the n-th recovery reads of the clocks.
module _ (sha256 : String → String) (parse_json : String → Option Value) (moment : ℕ → Moment) where
  unfoldable pub park_run : Moment → String → ℕ → Action Bool
  unfolding decimal
  park_run m run_id bad = do
    fresh ← find_run run_id
    elim fresh [
      | none ↦ pure false
      | some run ↦ if run_is_terminal run.state then pure false else do
        cas ← cas_run_state run_id run.state run.version RunState.failed no_run_patch m.stamp
        on_done cas false (do
          write_event sha256 m.id₁ run_id (record {
            type = "recovery.chain_broken";
            task_id = none;
            attempt_id = none;
            payload = object (
                fields (
                  ("firstBadSeq", number (decimal bad))
                  ∷ ("from", string (run_state_name run.state))
                  ∷ ("to", string "failed")
                  ∷ []));
            at = m.now;
          })
          pure true)
    ]

  abbrev broken_parked : String → Tally → Bool → Tally
  broken_parked run_id n landed =
      if landed
      then record n {
        chain_broken = suc n.chain_broken;
        recovered_runs = add_run run_id n.recovered_runs;
      }
      else n

  -- A broken chain of a run that ended stays an audit finding.
  unfoldable pub check_chain : ℕ → RunRow → Tally → Action Tally
  unfolding park_run
  check_chain k run n = do
    verdict ← verify_chain sha256 parse_json run.run_id
    elim verdict [
      | chain_ok ↦ pure n
      | first_bad bad ↦ if run_is_terminal run.state then pure n else do
        landed ← tx (park_run (moment k) run.run_id bad)
        pure (broken_parked run.run_id n landed)
    ]

  unfoldable pub check_chains : ℕ → List RunRow → Tally → Action Tally
  check_chains k [] n = pure n
  check_chains k (run ∷ runs) n = check_chain k run n >>= check_chains (suc k) runs

  abbrev retried : String → Tally → Bool → Tally
  retried run_id n landed =
      if landed
      then record n {
        auto_retried = suc n.auto_retried;
        recovered_runs = add_run run_id n.recovered_runs;
      }
      else n

  abbrev parked_orphan : String → Tally → Bool → Tally
  parked_orphan run_id n landed =
      if landed
      then record n { orphaned = suc n.orphaned; recovered_runs = add_run run_id n.recovered_runs }
      else n

  unfoldable pub recover_attempt : ℕ → String → AttemptRow → Tally → Action Tally
  recover_attempt k run_id a n =
      if never_dispatched a
      then (do
        landed ← recover_never_dispatched sha256 (moment k) a
        pure (retried run_id n landed))
      else if is_running a
      then (do landed ← recover_orphaned sha256 (moment k) a; pure (parked_orphan run_id n landed))
      else pure n

  unfoldable pub recover_attempts : ℕ → String → List AttemptRow → Tally → Action Tally
  recover_attempts k run_id [] n = pure n
  recover_attempts k run_id (a ∷ attempts) n =
      recover_attempt k run_id a n >>= recover_attempts (suc k) run_id attempts

  -- The moments are numbered by run and by attempt.
  unfoldable pub recover_runs : ℕ → List RunRow → Tally → Action Tally
  recover_runs k [] n = pure n
  recover_runs k (run ∷ runs) n = do
    attempts ← find_non_terminal_attempts run.run_id
    m ← recover_attempts k run.run_id attempts n
    recover_runs (k + length attempts) runs m

  unfoldable pub reconcile : Action Summary
  reconcile = do
    runs ← find_all_runs
    n ← check_chains 0 runs no_tally
    after ← find_all_runs
    m ← recover_runs (length runs) (filter (λ r. not (run_is_terminal r.state)) after) n
    outputs ← find_all_outputs
    t ← count_outputs outputs m
    pure (summary t)
