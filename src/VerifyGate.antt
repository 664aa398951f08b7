-- ===== src/VerifyGate.antt =====
-- lib/verify-gate.js: whether an attempt that succeeded may count as a success. `outputs_reader` is the
-- reader of the table of outputs, `none` where the caller wired none, and `parse_json` what `JSON.parse`
-- makes of a text, `none` where that throws.
pub mod Binding
mod Witnesses
use Prim.Native.String.{◌++◌ as append}
use dsh_dag_orchestrator.Prelude.{
  Bool, true, false, not, Option, none, some, String, ◌==◌, if◌then◌else◌,
}
use dsh_dag_orchestrator.Json.{Value, string, object, get_field}
use dsh_dag_orchestrator.Store.Rows.{OutputRow}
use dsh_dag_orchestrator.TerminalCommit.{Failure}

pub record VerifyBlock : Type 0 where
  pub expect_output : String
  pub expect_status : String

pub record VerifyReceipt : Type 0 where
  pub status : String
  pub produced_by_attempt : String

pub record VerifyGateResult : Type 0 where
  pub effective_failure : Option Failure
  pub receipt : Option VerifyReceipt
  pub evidence : Option String

abbrev pub receipt_of : OutputRow → Option String → Option VerifyReceipt
receipt_of row none = none
receipt_of row (some status) =
    some (record { status = status; produced_by_attempt = row.produced_by_attempt })

abbrev pub string_of : Value → Option String
string_of (string s) = some s
string_of _ = none

-- `value.status`, where the value is an object and the status a string.
abbrev pub status_of : Value → Option String
status_of (object fs) = elim (get_field "status" fs) [ some v ↦ string_of v | none ↦ none ]
status_of _ = none

abbrev pub reason_of : Option VerifyReceipt → String
reason_of none = "missing"
reason_of (some r) = r.status

-- The message of the failure, whose two ends depend on whether the reason is "missing".
abbrev pub gate_message : String → VerifyBlock → String
gate_message reason v = append "verify receipt " (
    append reason (
      append ": task declares verify {expectOutput: \"" (
        append v.expect_output (
          append "\", expectStatus: \"" (
            append v.expect_status (
              append "\"} but no passing receipt is bound to this attempt (" (
                append
                  (if reason == "missing"
                    then "no matching output produced by this attempt"
                    else append "actual status \"" (append reason "\""))
                  ")")))))))

abbrev pub gate_failure : String → VerifyBlock → Failure
gate_failure reason v = record {
  failure_type = "permanent";
  code = "dag.verify_gate_failed";
  message = gate_message reason v;
}

abbrev pub status_is : Option VerifyReceipt → String → Bool
status_is none status = false
status_is (some r) status = r.status == status

module _ (outputs_reader : Option (String → String → String → Option OutputRow))
    (parse_json : String → Option Value) where
  unfoldable pub find_verify_receipt : String → String → String → String → Option VerifyReceipt
  find_verify_receipt run_id task_id attempt_id expect_output = elim outputs_reader [
    | none ↦ none
    | some read_output ↦ elim (read_output run_id task_id expect_output) [
      | none ↦ none
      | some row ↦
          if not (row.produced_by_attempt == attempt_id)
          then none
          else elim (parse_json row.value_json) [
            | none ↦ none
            | some value ↦ receipt_of row (status_of value)
          ]
    ]
  ]

  unfoldable pub evaluate_verify_gate :
      Option VerifyBlock → String → String → String → Option Failure → VerifyGateResult
  evaluate_verify_gate verify run_id task_id attempt_id (some failure) = record {
    effective_failure = some failure;
    receipt = none;
    evidence = none;
  }
  evaluate_verify_gate none run_id task_id attempt_id none = record {
    effective_failure = none;
    receipt = none;
    evidence = some "none_declared";
  }
  evaluate_verify_gate (some v) run_id task_id attempt_id none =
      let receipt = find_verify_receipt run_id task_id attempt_id v.expect_output in
      if status_is receipt v.expect_status
      then record { effective_failure = none; receipt = receipt; evidence = none }
      else record {
        effective_failure = some (gate_failure (reason_of receipt) v);
        receipt = none;
        evidence = none;
      }
