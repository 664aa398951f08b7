-- ===== src/VerifyGate/Binding.antt =====
-- What it takes to pass the gate of lib/verify-gate.js.
use dsh_dag_orchestrator.Prelude.{
  ◌≡◌, ◌↔◌, inl, inr, refl, ap, ◌∙◌, true, Option, none, some, String, ◌==◌, eq_iff, Bool-cases,
  Option-cases,
}
use dsh_dag_orchestrator.Json.{
  Value, null, boolean, number, string, array, object, undefined, bigint, function, symbol, Fields,
  get_field,
}
use dsh_dag_orchestrator.Store.Rows.{OutputRow}
use dsh_dag_orchestrator.TerminalCommit.{Failure}
use dsh_dag_orchestrator.VerifyGate.{
  VerifyBlock, string_of, status_of, status_is, find_verify_receipt, evaluate_verify_gate,
}

-- A status that was read is the string in the field of an object.
status_of-inv :
    (value : Value) (t : String)
    → status_of value ≡ some t
    → (fields : Fields) × (value ≡ object fields) × (get_field "status" fields ≡ some (string t))
status_of-inv (object fs) t h = elim (Option-cases (get_field "status" fs)) [
  | inl e ↦ absurd (cc (rw (status_of, e) at h))
  | inr (v, e) ↦ (fs, refl, e ∙ ap some (string_of-inv v t (rw (status_of, e) at h)))
]
  where
    string_of-inv : (v : Value) (t : String) → string_of v ≡ some t → v ≡ string t
    string_of-inv (string s) t h = (let same : s ≡ t = cc in ap string same)
    string_of-inv null t h = absurd (cc)
    string_of-inv (boolean b) t h = absurd (cc)
    string_of-inv (number n) t h = absurd (cc)
    string_of-inv (array xs) t h = absurd (cc)
    string_of-inv (object fs) t h = absurd (cc)
    string_of-inv undefined t h = absurd (cc)
    string_of-inv bigint t h = absurd (cc)
    string_of-inv function t h = absurd (cc)
    string_of-inv symbol t h = absurd (cc)
status_of-inv null t h = absurd (cc)
status_of-inv (boolean b) t h = absurd (cc)
status_of-inv (number n) t h = absurd (cc)
status_of-inv (string s) t h = absurd (cc)
status_of-inv (array xs) t h = absurd (cc)
status_of-inv undefined t h = absurd (cc)
status_of-inv bigint t h = absurd (cc)
status_of-inv function t h = absurd (cc)
status_of-inv symbol t h = absurd (cc)

module _ (outputs_reader : Option (String → String → String → Option OutputRow))
    (parse_json : String → Option Value) where
  -- An output of this very attempt that is the text of an object with the declared status.
  pub record Proven (v : VerifyBlock) (run_id task_id attempt_id : String) : Type 0 where
    pub read_output : String → String → String → Option OutputRow
    pub wired : outputs_reader ≡ some read_output
    pub row : OutputRow
    pub stored : read_output run_id task_id v.expect_output ≡ some row
    pub own : row.produced_by_attempt ≡ attempt_id
    pub fields : Fields
    pub parsed : parse_json row.value_json ≡ some (object fields)
    pub passes : get_field "status" fields ≡ some (string v.expect_status)

  status-Proven :
      (v : VerifyBlock) (run_id task_id attempt_id : String)
      → status_is
          (find_verify_receipt outputs_reader parse_json run_id task_id attempt_id v.expect_output)
          v.expect_status
        ≡ true
      → Proven v run_id task_id attempt_id
  unfolding find_verify_receipt
  status-Proven v run_id task_id attempt_id h = elim (Option-cases outputs_reader) [
    | inl e ↦ absurd (cc (rw (find_verify_receipt, e) at h))
    | inr (read, w) ↦ elim (Option-cases (read run_id task_id v.expect_output)) [
      | inl e ↦ absurd (cc (rw (find_verify_receipt, w, e) at h))
      | inr (row, e) ↦ elim (Bool-cases (row.produced_by_attempt == attempt_id)) [
        | inr n ↦ absurd (cc (rw (find_verify_receipt, w, e, n) at h))
        | inl y ↦ elim (Option-cases (parse_json row.value_json)) [
          | inl e' ↦ absurd (cc (rw (find_verify_receipt, w, e, y, e') at h))
          | inr (value, e') ↦ elim (Option-cases (status_of value)) [
            | inl e'' ↦ absurd (cc (rw (find_verify_receipt, w, e, y, e', e'') at h))
            | inr (status, e'') ↦
                let same : status == v.expect_status ≡ true =
                  rw (find_verify_receipt, w, e, y, e', e'') at h in
                let (fields, is_object, has) = status_of-inv value status e'' in
                record {
                  read_output = read;
                  wired = w;
                  row = row;
                  stored = e;
                  own = (eq_iff row.produced_by_attempt attempt_id).0 y;
                  fields = fields;
                  parsed = e' ∙ ap some is_object;
                  passes = has ∙ ap (λ t. some (string t)) ((eq_iff status v.expect_status).0 same);
                }
          ]
        ]
      ]
    ]
  ]

  Proven-status :
      (v : VerifyBlock) (run_id task_id attempt_id : String)
      → Proven v run_id task_id attempt_id
      → status_is
          (find_verify_receipt outputs_reader parse_json run_id task_id attempt_id v.expect_output)
          v.expect_status
        ≡ true
  unfolding find_verify_receipt
  Proven-status v run_id task_id attempt_id p =
      rw
        (
          find_verify_receipt,
          p.wired,
          p.stored,
          (eq_iff p.row.produced_by_attempt attempt_id).1 p.own,
          p.parsed,
          status_of,
          p.passes,
        )
        ((eq_iff v.expect_status v.expect_status).1 refl)

  -- What passing the gate needs, on every branch.
  abbrev pub Passes : Option VerifyBlock → String → String → String → Option Failure → Type 0
  Passes verify run_id task_id attempt_id (some f) = ⊥
  Passes none run_id task_id attempt_id none = Unit
  Passes (some v) run_id task_id attempt_id none = Proven v run_id task_id attempt_id

  -- The gate lets an attempt count as a success exactly where it had not failed and its task either
  -- declares no verification, or has a reader of outputs, and by it under the declared name an
  -- output of this very attempt that parses to an object with the declared status.
  pub evaluate_verify_gate_iff :
      (verify : Option VerifyBlock) (run_id task_id attempt_id : String) (failure : Option Failure)
      → ((evaluate_verify_gate outputs_reader parse_json verify run_id task_id attempt_id
            failure).effective_failure
          ≡ none)
        ↔ Passes verify run_id task_id attempt_id failure
  unfolding evaluate_verify_gate
  evaluate_verify_gate_iff verify run_id task_id attempt_id (some f) =
      (λ h. absurd (cc h), λ p. absurd p)
  evaluate_verify_gate_iff none run_id task_id attempt_id none = (λ h. tt, λ p. refl)
  evaluate_verify_gate_iff (some v) run_id task_id attempt_id none = (
    λ h.
        elim (Bool-cases (
          status_is
            (find_verify_receipt outputs_reader parse_json run_id task_id attempt_id
              v.expect_output)
            v.expect_status)) [
              | inl y ↦ status-Proven v run_id task_id attempt_id y
              | inr n ↦ absurd (cc (rw n at h))
            ],
    λ p. rw (Proven-status v run_id task_id attempt_id p) refl,
  )
