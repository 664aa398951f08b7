-- ===== src/VerifyGate/Witnesses.antt =====
-- The theorem on lib/verify-gate.js at a concrete output.
use dsh_dag_orchestrator.Prelude.{◌≡◌, ◌↔◌, refl, Option, none, some, String}
use dsh_dag_orchestrator.Json.{Value, string, object, field, end, get_field}
use dsh_dag_orchestrator.Store.Rows.{OutputRow}
use dsh_dag_orchestrator.VerifyGate.{VerifyBlock, evaluate_verify_gate}
use dsh_dag_orchestrator.VerifyGate.Binding.{Passes, evaluate_verify_gate_iff}

abbrev report : OutputRow
report = record {
  run_id = "r1";
  task_id = "check";
  name = "report";
  value_json = "{\"status\":\"pass\"}";
  produced_by_attempt = "a1";
  created_at = 4;
}

abbrev one_row : String → String → String → Option OutputRow
one_row run_id task_id name = some report

-- A parse for the example.
abbrev parse_report : String → Option Value
parse_report t = some (object (field "status" (string "pass") end))

abbrev wants_pass : VerifyBlock
wants_pass = record { expect_output = "report"; expect_status = "pass" }

report-Passes : Passes (some one_row) parse_report (some wants_pass) "r1" "check" "a1" none
unfolding get_field
report-Passes = record {
  read_output = one_row;
  wired = refl;
  row = report;
  stored = refl;
  own = refl;
  fields = field "status" (string "pass") end;
  parsed = refl;
  passes = refl;
}

evaluate_verify_gate_iff_example :
    ((evaluate_verify_gate
        (some one_row)
        parse_report
        (some wants_pass)
        "r1"
        "check"
        "a1"
        none).effective_failure
      ≡ none)
    ↔ Passes (some one_row) parse_report (some wants_pass) "r1" "check" "a1" none
evaluate_verify_gate_iff_example =
    evaluate_verify_gate_iff (some one_row) parse_report (some wants_pass) "r1" "check" "a1" none
