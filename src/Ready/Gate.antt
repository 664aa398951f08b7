-- ===== src/Ready/Gate.antt =====
-- `evaluateGate` of lib/ready-evaluator.js: five tests of an upstream output's printed content.
use dsh_dag_orchestrator.Prelude.{Bool, true, false, not, Option, String, ◌==◌, get_or, is_some}
use text.Mathlib.Text.{find?}
use dsh_dag_orchestrator.Json.{Value, null, stringify}

pub data Expect : Type 0 where
  exists not_exists contains not_contains equals : Expect
  unknown_operator : String → Expect

pub record DependencyGate : Type 0 where
  pub artifact : String
  pub expect : Expect
  pub value : Option String

abbrev pub is_null : Value → Bool
is_null null = true
is_null _ = false

-- `s.includes(t)`
abbrev pub includes : String → String → Bool
includes s t = is_some (find? s t)

gate_passes : Expect → Value → String → Bool
unfolding stringify
gate_passes exists payload value = not (is_null payload)
gate_passes not_exists payload value = is_null payload
gate_passes contains null value = false
gate_passes contains payload value = includes (stringify payload) value
gate_passes not_contains null value = true
gate_passes not_contains payload value = not (includes (stringify payload) value)
gate_passes equals null value = false
gate_passes equals payload value = stringify payload == value
gate_passes (unknown_operator _) payload value = false

-- `read_payload` returns `null` for a row that is missing.
unfoldable pub evaluate_gate : DependencyGate → (String → Value) → Bool
unfolding gate_passes
evaluate_gate gate read_payload =
    gate_passes gate.expect (read_payload gate.artifact) (get_or gate.value "")
