-- ===== src/Spec/Validate.antt =====
-- `validateSpec` and `specHash` of lib/spec-validate.js.
use Prim.Native.String.{◌++◌ as append}
use dsh_dag_orchestrator.Prelude.{
  Bool, false, List, [], ◌∷◌, Option, none, some, String, ◌==◌, if◌then◌else◌,
}
use dsh_dag_orchestrator.Json.{
  Value, number, object, undefined, function, symbol, Fields, end, field, JsonError, text, throws,
  canonical_json, has_bigint, stringify,
}
use dsh_dag_orchestrator.Spec.{SpecError, TaskSpec}
use dsh_dag_orchestrator.Spec.Issues.{Issue, map_zod_issues}
use dsh_dag_orchestrator.Spec.Semantics.{validate_semantics}

-- A spec that zod parsed: the value with its defaults, its name, and its tasks as the checks read them.
pub record Parsed : Type 0 where
  pub name : String
  pub value : Value
  pub tasks : List TaskSpec

pub data ParseResult : Type 0 where
  parsed : Parsed → ParseResult
  refused : List Issue → ParseResult

pub data Validation : Type 0 where
  valid : Parsed → Validation
  throws_type_error : Validation
  invalid : List SpecError → Validation

-- `'version' in spec && spec.version !== 1`, with the version.
abbrev bad_version : Value → Option Value
bad_version (object fs) = in_fields fs
  where
    is_one : Value → Bool
    is_one (number n) = n == "1"
    is_one _ = false

    in_fields : Fields → Option Value
    in_fields end = none
    in_fields (field k v fs) =
        if k == "version" then (if is_one v then none else some v) else in_fields fs
bad_version _ = none

-- `${JSON.stringify(v)}` of any other value.
abbrev shown : Value → String
shown undefined = "undefined"
shown function = "undefined"
shown symbol = "undefined"
shown v = stringify v

unfoldable pub version_error : Value → SpecError
unfolding stringify
version_error v = record {
  code = "dag.unsupported_version";
  path = some "version";
  message =
      append "unsupported spec version " (append (shown v) "; this plugin supports version 1 only");
}

abbrev pub codes_of : List SpecError → List String
codes_of [] = []
codes_of (e ∷ es) = e.code ∷ codes_of es

-- The text of the hash, the codes that the spec was refused with, or what was thrown on the way.
pub data SpecHash : Type 0 where
  hash : String → SpecHash
  spec_type_error : SpecHash
  invalid_spec : List String → SpecHash
  unprintable : JsonError → SpecHash

-- `parse` is what the schema of zod does, and `sha256` the hash function of node:crypto.
module _ (parse : Value → ParseResult) where
  unfoldable pub validate_parsed : ParseResult → Validation
  unfolding map_zod_issues validate_semantics
  validate_parsed (refused issues) = invalid (map_zod_issues issues)
  validate_parsed (parsed p) = elim (validate_semantics p.tasks) [
    | [] ↦ valid p
    | e ∷ es ↦ invalid (e ∷ es)
  ]

  unfoldable pub validate_spec : Value → Validation
  unfolding validate_parsed version_error has_bigint
  validate_spec spec = elim (bad_version spec) [
    | some v ↦ if has_bigint v then throws_type_error else invalid (version_error v ∷ [])
    | none ↦ validate_parsed (parse spec)
  ]

  unfoldable pub spec_hash : (String → String) → Value → SpecHash
  unfolding validate_spec
  spec_hash sha256 spec = elim (validate_spec spec) [
    | invalid errors ↦ invalid_spec (codes_of errors)
    | throws_type_error ↦ spec_type_error
    | valid p ↦ elim (canonical_json p.value) [
      | text t ↦ hash (sha256 t)
      | throws e ↦ unprintable e
    ]
  ]
