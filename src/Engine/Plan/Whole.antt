-- ===== src/Engine/Plan/Whole.antt =====
-- What `planRun` of lib/engine.js leaves.
use mathlib.Core.List.{append_assoc, append-nil}
use mathlib.Core.Path.{subst}
use dsh_dag_orchestrator.Prelude.{
  ◌≡◌, ◌∙◌, ap, length, sym, refl, inl, inr, true, List, [], ◌∷◌, ◌++◌, Option, String, map, nat_eq,
  Bool-cases,
}
use dsh_dag_orchestrator.Json.{Value}
use dsh_dag_orchestrator.Store.Rows.{RunRow, TaskRow, EventRow, Store}
use dsh_dag_orchestrator.Store.Action.{
  Action, Result, Result-cases, ok, err, first_failure, need, pure, store_closed, tx, tx-eq-ok,
  tx-eq-err, ◌>>=◌, ◌>>◌, >>=-eq-ok,
}
use dsh_dag_orchestrator.Store.Tables.{changes}
use dsh_dag_orchestrator.Store.Runs.{insert_run, run_at}
use dsh_dag_orchestrator.Store.Tasks.{find_tasks, insert_rows, insert_tasks, task_at}
use dsh_dag_orchestrator.Store.Events.{insert_event, next_row}
use dsh_dag_orchestrator.Store.Events.Chain.{insert_event-inv}
use dsh_dag_orchestrator.Store.Moves.Steps.{find_tasks-inv}
use dsh_dag_orchestrator.Store.Payloads.{write_event}
use dsh_dag_orchestrator.Spec.{TaskSpec}
use dsh_dag_orchestrator.Spec.Validate.{
  ParseResult, Parsed, SpecHash, Validation, hash, invalid, invalid_spec, spec_hash,
  spec_type_error, throws_type_error, unprintable, valid, validate_spec,
}
use dsh_dag_orchestrator.Engine.Control.Refusal.{find_run-inv}
use dsh_dag_orchestrator.Engine.Plan.{
  PlanOptions, Planned, create_run, created_event, plan_run, plan_valid, planned_run, planned_task,
}

insert_run-inv :
    (row : RunRow) (s : Store) (a : Option RunRow)
    → (insert_run row s).0 ≡ ok a
    → (insert_run row s).1 ≡ record s { runs = s.runs ++ row ∷ [] }
unfolding insert_run
insert_run-inv row s a h =
    let guards : Result (Unit {0}) = first_failure (
      (s.closed, store_closed)
      ∷ need row.run_id "run_id"
      ∷ need row.spec_json "spec_json"
      ∷ need row.spec_hash "spec_hash"
      ∷ need row.base_cwd "base_cwd"
      ∷ []) in
    let s' : Store = record s { runs = s.runs ++ row ∷ [] } in
    elim (Result-cases guards) [
      | inr (x, e) ↦ absurd (cc (rw (insert_run, e) at h))
      | inl (u, e) ↦ elim (Bool-cases (nat_eq (changes (run_at row.run_id) s.runs) 0)) [
        | inr n ↦ absurd (cc (rw (insert_run, e, n) at h))
        | inl y ↦ elim (find_run-inv row.run_id s') [
          | inl (x, e') ↦ absurd (cc (rw (insert_run, e, y, e') at h))
          | inr e' ↦ rw (insert_run, e, y, e') refl
        ]
      ]
    ]

insert_rows-inv :
    (rows : List TaskRow) (s : Store) (a : Unit {0})
    → (insert_rows rows s).0 ≡ ok a
    → (insert_rows rows s).1 ≡ record s { tasks = s.tasks ++ rows }
unfolding insert_rows
insert_rows-inv [] s a h = rw (append-nil s.tasks) refl
insert_rows-inv (row ∷ rows) s a h =
    let guards : Result (Unit {0}) =
      first_failure ((s.closed, store_closed) ∷ need row.task_id "task_id" ∷ []) in
    let s' : Store = record s { tasks = s.tasks ++ row ∷ [] } in
    elim (Result-cases guards) [
      | inr (x, e) ↦ absurd (cc (rw (insert_rows, e) at h))
      | inl (u, e) ↦
          elim (Bool-cases (nat_eq (changes (task_at row.run_id row.task_id) s.tasks) 0)) [
            | inr n ↦ absurd (cc (rw (insert_rows, e, n) at h))
            | inl y ↦
                let rest = insert_rows-inv rows s' a (rw (insert_rows, e, y) at h) in
                let more : (s.tasks ++ row ∷ []) ++ rows ≡ s.tasks ++ row ∷ rows =
                  append_assoc s.tasks (row ∷ []) rows in
                let first : (insert_rows (row ∷ rows) s).1 ≡ (insert_rows rows s').1 =
                  rw (insert_rows, e, y) refl in
                first ∙ (rest ∙ ap (λ ts. record s { tasks = ts }) more)
          ]
    ]

-- The rows carry the id of the run already.
run_ids :
    (o : PlanOptions) (ts : List TaskSpec)
    → map (λ (r : TaskRow). record r { run_id = o.run_id }) (map (planned_task o) ts)
      ≡ map (planned_task o) ts
run_ids o [] = refl
run_ids o (t ∷ ts) = ap (planned_task o t ∷◌) (run_ids o ts)

insert_tasks-inv :
    (o : PlanOptions) (ts : List TaskSpec) (s : Store) (a : List TaskRow)
    → (insert_tasks o.run_id (map (planned_task o) ts) s).0 ≡ ok a
    → (insert_tasks o.run_id (map (planned_task o) ts) s).1
      ≡ record s { tasks = s.tasks ++ map (planned_task o) ts }
unfolding insert_tasks
insert_tasks-inv o ts s a h =
    let guards : Result (Unit {0}) =
      first_failure ((s.closed, store_closed) ∷ need o.run_id "runId" ∷ []) in
    let rows = map (planned_task o) ts in
    elim (Result-cases guards) [
      | inr (x, e) ↦ absurd (cc (rw (insert_tasks, e) at h))
      | inl (u, e) ↦
          let next : Action (List TaskRow) = insert_rows rows >> find_tasks o.run_id in
          let opened : insert_tasks o.run_id rows s ≡ next s =
            rw (insert_tasks, e, run_ids o ts) refl in
          let (v, ran, went, left) =
            >>=-eq-ok (insert_rows rows) (λ _. find_tasks o.run_id) s (rw opened at h) in
          let (read, stays) = find_tasks-inv o.run_id (insert_rows rows s).1 a went in
          ap (λ p. p.1) opened ∙ (left ∙ (stays ∙ insert_rows-inv rows s v ran))
    ]

-- One row for the run, one for each task of the spec, and one event.
abbrev pub PlanLanded : PlanOptions → Parsed → String → Store → Store → Type 0
PlanLanded o p hash_text s t =
    (t.runs ≡ s.runs ++ planned_run o p hash_text ∷ [])
    × (t.tasks ≡ s.tasks ++ map (planned_task o) p.tasks)
    × (t.attempts ≡ s.attempts)
    × ((e : EventRow) × (t.events ≡ s.events ++ e ∷ []) × (e.type ≡ "run.created"))

abbrev pub PlanWhole :
    (Value → ParseResult)
    → (String → String)
    → PlanOptions
    → Value
    → Store
    → Result Planned × Store
    → Type 0
PlanWhole parse sha256 o spec s (err e, t) = (t ≡ s)
PlanWhole parse sha256 o spec s (ok x, t) =
    (p : Parsed) × (validate_spec parse spec ≡ valid p)
    × (spec_hash parse sha256 p.value ≡ hash x.spec_hash)
    × ((x.run_id ≡ o.run_id) × (x.task_count ≡ length p.tasks))
    × PlanLanded o p x.spec_hash s t

module _ (parse : Value → ParseResult) (sha256 : String → String) (o : PlanOptions) where
  create_run-PlanLanded :
      (p : Parsed) (hash_text : String) (s : Store) (u : Unit {0})
      → (create_run parse sha256 o p hash_text s).0 ≡ ok u
      → PlanLanded o p hash_text s (create_run parse sha256 o p hash_text s).1
  unfolding create_run write_event created_event next_row
  create_run-PlanLanded p hash_text s u h =
      let first = insert_run (planned_run o p hash_text) in
      let event = created_event o p hash_text in
      let last : Action (Unit {0}) = write_event sha256 o.event_id o.run_id event in
      let second = insert_tasks o.run_id (map (planned_task o) p.tasks) in
      let (a, ran, went, left) = >>=-eq-ok first (λ _. second >>= λ _. last) s h in
      let s₁ = (first s).1 in
      let (b, ran', went', left') = >>=-eq-ok second (λ _. last) s₁ went in
      let s₂ = (second s₁).1 in
      let (row, ran'', went'', left'') =
        >>=-eq-ok (insert_event sha256 o.event_id o.run_id event) (λ _. pure tt) s₂ went' in
      let (payload_json, canonical, shown, printed, made, after) =
        insert_event-inv sha256 o.event_id o.run_id event s₂ row ran'' in
      let at₁ = insert_run-inv (planned_run o p hash_text) s a ran in
      let at₂ = insert_tasks-inv o p.tasks s₁ b ran' in
      let end_ = left ∙ (left' ∙ (left'' ∙ after)) in
      (
        ap (λ t. t.runs) end_ ∙ (ap (λ t. t.runs) at₂ ∙ ap (λ t. t.runs) at₁),
        ap (λ t. t.tasks) end_
            ∙ (ap (λ t. t.tasks) at₂
                ∙ ap (λ (t : Store). t.tasks ++ map (planned_task o) p.tasks) at₁),
        ap (λ t. t.attempts) end_ ∙ (ap (λ t. t.attempts) at₂ ∙ ap (λ t. t.attempts) at₁),
        (
          row,
          ap (λ t. t.events) end_
              ∙ ap (λ es. es ++ row ∷ []) (ap (λ t. t.events) at₂ ∙ ap (λ t. t.events) at₁),
          ap (λ (r : EventRow). r.type) made,
        ),
      )

  plan_valid-PlanWhole :
      (spec : Value) (p : Parsed) (s : Store)
      → validate_spec parse spec ≡ valid p
      → PlanWhole parse sha256 o spec s (plan_valid parse sha256 o p s)
  unfolding plan_valid
  plan_valid-PlanWhole spec p s checked = by_hash (spec_hash parse sha256 p.value) refl
    where
      by_hash :
          (h : SpecHash)
          → spec_hash parse sha256 p.value ≡ h
          → PlanWhole parse sha256 o spec s (plan_valid parse sha256 o p s)
      by_hash (invalid_spec codes) eq = rw (plan_valid, eq) refl
      by_hash spec_type_error eq = rw (plan_valid, eq) refl
      by_hash (unprintable e) eq = rw (plan_valid, eq) refl
      by_hash (hash t) eq =
          let fn = create_run parse sha256 o p t in
          elim (Result-cases (tx fn s).0) [
            | inr (x, e) ↦
                let ran : plan_valid parse sha256 o p s ≡ (err x, (tx fn s).1) =
                  rw (plan_valid, eq, e) refl in
                subst (PlanWhole parse sha256 o spec s) (sym ran) (tx-eq-err fn s x e)
            | inl (u, e) ↦
                let (inside, after) = tx-eq-ok fn s u e in
                let (runs, tasks, attempts, (row, events, kind)) =
                  create_run-PlanLanded p t (record s { active_tx = true }) u inside in
                let planned : Planned = record {
                  run_id = o.run_id;
                  spec_hash = t;
                  task_count = length p.tasks;
                } in
                let ran : plan_valid parse sha256 o p s ≡ (ok planned, (tx fn s).1) =
                  rw (plan_valid, eq, e) refl in
                subst (PlanWhole parse sha256 o spec s) (sym ran) (
                  p,
                  checked,
                  eq,
                  (refl, refl),
                  (
                    ap (λ t. t.runs) after ∙ runs,
                    ap (λ t. t.tasks) after ∙ tasks,
                    ap (λ t. t.attempts) after ∙ attempts,
                    (row, ap (λ t. t.events) after ∙ events, kind),
                  ),
                )
          ]

  -- A call of planRun that threw leaves the store as it was; one that returned was given a spec that
  -- the validation takes, answers with the id of the run, the hash of the spec and the number of its
  -- tasks, and added one row for the run, a pending one for each task in the order of the spec, no
  -- attempt, and one event, run.created.
  pub plan_run-PlanWhole :
      (spec : Value) (s : Store) → PlanWhole parse sha256 o spec s (plan_run parse sha256 o spec s)
  unfolding plan_run
  plan_run-PlanWhole spec s = by_check (validate_spec parse spec) refl
    where
      by_check :
          (v : Validation)
          → validate_spec parse spec ≡ v
          → PlanWhole parse sha256 o spec s (plan_run parse sha256 o spec s)
      by_check (invalid errors) eq = rw (plan_run, eq) refl
      by_check throws_type_error eq = rw (plan_run, eq) refl
      by_check (valid p) eq =
          let ran : plan_run parse sha256 o spec s ≡ plan_valid parse sha256 o p s =
            rw (plan_run, eq) refl in
          subst (PlanWhole parse sha256 o spec s) (sym ran) (plan_valid-PlanWhole spec p s eq)
