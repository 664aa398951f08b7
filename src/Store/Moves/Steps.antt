-- ===== src/Store/Moves/Steps.antt =====
-- What the calls of the store leave that an attempt's end is made of, where they returned.
use mathlib.Core.Bool.{decide, decide_iff}
use dsh_dag_orchestrator.Prelude.{
  ℕ, ◌≡◌, ◌⊎◌, inl, inr, refl, ap, ◌∙◌, Bool, true, false, not, List, [], ◌∷◌, Option, some, String,
  find, nat_eq, nat_eq_iff, Bool-cases, Option-cases,
}
use dsh_dag_orchestrator.States.{TaskState, TaskState-discrete}
use dsh_dag_orchestrator.Store.Rows.{AttemptState, AttemptRow, TaskRow, Store}
use dsh_dag_orchestrator.Store.Action.{
  Action, Result, ok, pure, Cas, Current, done, first_failure, store_closed, need, need_if_given,
  type_error, Result-cases, ◌>>=◌, ◌>>◌, >>=-eq-ok,
}
use dsh_dag_orchestrator.Store.Tables.{update_where, is_same}
use dsh_dag_orchestrator.Store.Tables.Keyed.{IsKeyed}
use dsh_dag_orchestrator.Store.Tasks.Races.{cas_tasks_lem}
use dsh_dag_orchestrator.Store.Attempts.Races.{commit_attempts_lem}
use dsh_dag_orchestrator.Store.Payloads.{on_done}
use dsh_dag_orchestrator.Store.Tasks.{
  TaskPatch, task_at, tasks_of, set_task, find_tasks, cas_tasks, cas_task_state,
}
use dsh_dag_orchestrator.Store.Attempts.{
  TerminalPatch, attempt_at, in_flight, set_attempt, attempt_is_terminal, Commit, commit_ok,
  commit_attempts, commit_terminal,
}

pub commit_terminal-inv :
    (attempt_id : String) (owner : Option String) (target : AttemptState) (patch : TerminalPatch)
    (now : ℕ) (s : Store) (c : Commit)
    → (commit_terminal attempt_id owner target patch now s).0 ≡ ok c
    → let (answer, rows) = commit_attempts attempt_id owner target patch now s.attempts in
      (c ≡ answer)
      × ((commit_terminal attempt_id owner target patch now s).1 ≡ record s { attempts = rows })
unfolding commit_terminal
commit_terminal-inv attempt_id owner target patch now s c h =
    let guards : Result (Unit {0}) = first_failure (
      (s.closed, store_closed)
      ∷ need attempt_id "attemptId"
      ∷ need_if_given owner "ownerId"
      ∷ (not (attempt_is_terminal target), type_error "target")
      ∷ []) in
    elim (Result-cases guards) [
      | inr (x, e) ↦ absurd (cc (rw (commit_terminal, e) at h))
      | inl (u, e) ↦ (cc (rw (commit_terminal, e) at h), rw (commit_terminal, e))
    ]

pub cas_task_state-inv :
    (run_id task_id : String) (from : TaskState) (version : ℕ) (to : TaskState) (patch : TaskPatch)
    (now : ℕ) (s : Store) (c : Cas TaskRow (Current TaskState))
    → (cas_task_state run_id task_id from version to patch now s).0 ≡ ok c
    → let (answer, rows) = cas_tasks run_id task_id from version to patch now s.tasks in
      (c ≡ answer)
      × ((cas_task_state run_id task_id from version to patch now s).1 ≡ record s { tasks = rows })
unfolding cas_task_state
cas_task_state-inv run_id task_id from version to patch now s c h =
    let guards : Result (Unit {0}) =
      first_failure ((s.closed, store_closed) ∷ need run_id "runId" ∷ need task_id "taskId" ∷ []) in
    elim (Result-cases guards) [
      | inr (x, e) ↦ absurd (cc (rw (cas_task_state, e) at h))
      | inl (u, e) ↦ (cc (rw (cas_task_state, e) at h), rw (cas_task_state, e))
    ]

pub find_tasks-inv :
    (run_id : String) (s : Store) (rows : List TaskRow)
    → (find_tasks run_id s).0 ≡ ok rows
    → (rows ≡ tasks_of run_id s.tasks) × ((find_tasks run_id s).1 ≡ s)
unfolding find_tasks
find_tasks-inv run_id s rows h =
    let guards : Result (Unit {0}) =
      first_failure ((s.closed, store_closed) ∷ need run_id "runId" ∷ []) in
    elim (Result-cases guards) [
      | inr (x, e) ↦ absurd (cc (rw (find_tasks, e) at h))
      | inl (u, e) ↦ (cc (rw (find_tasks, e) at h), rw (find_tasks, e))
    ]

-- The rows are changed as a compare-and-set and an end of the attempt change them.
abbrev pub AttemptEnded :
    String
    → Option String
    → AttemptState
    → TerminalPatch
    → ℕ
    → List AttemptRow
    → List AttemptRow
    → Type 0
AttemptEnded attempt_id owner target patch now before after =
    (r : AttemptRow) × (find (attempt_at attempt_id) before ≡ some r)
    × (in_flight r.state ≡ true)
    × (is_same r.owner_token owner ≡ true)
    × (after ≡ update_where (attempt_at attempt_id) (set_attempt target patch now) before)

pub commit_attempts-cases :
    (attempt_id : String) (owner : Option String) (target : AttemptState) (patch : TerminalPatch)
    (now : ℕ) (rows : List AttemptRow)
    → IsKeyed (attempt_at attempt_id) rows
    → let (answer, rows') = commit_attempts attempt_id owner target patch now rows in
      ((commit_ok answer ≡ false) × (rows' ≡ rows))
      ⊎ ((commit_ok answer ≡ true) × AttemptEnded attempt_id owner target patch now rows rows')
commit_attempts-cases attempt_id owner target patch now rows u =
    let lem = commit_attempts_lem attempt_id owner target patch now rows u in
    elim (Option-cases (find (attempt_at attempt_id) rows)) [
      | inl e ↦ inl (rw (lem, e) refl, rw (lem, e) refl)
      | inr (r, e) ↦ elim (Bool-cases (in_flight r.state)) [
        | inr n ↦ inl (rw (lem, e, n) refl, rw (lem, e, n) refl)
        | inl y ↦ elim (Bool-cases (is_same r.owner_token owner)) [
          | inr n ↦ inl (rw (lem, e, y, n) refl, rw (lem, e, y, n) refl)
          | inl z ↦ inr (rw (lem, e, y, z) refl, (r, e, y, z, rw (lem, e, y, z) refl))
        ]
      ]
    ]

-- A step that touches neither tasks nor attempts.
abbrev pub Same : Store → Store → Type 0
Same s s' = (s'.tasks ≡ s.tasks) × (s'.attempts ≡ s.attempts)

abbrev pub Quiet : {A : Type 0} → Action A → Type 0
Quiet {A} m = (s : Store) (a : A) → (m s).0 ≡ ok a → Same s (m s).1

-- The compare-and-set on the row as it was read cannot be lost; the task ends where it was to go.
cas_read :
    (run_id task_id : String) (to : TaskState) (patch : TaskPatch) (now : ℕ) (row : TaskRow)
    (rows : List TaskRow)
    → IsKeyed (task_at run_id task_id) rows
    → find (task_at run_id task_id) rows ≡ some row
    → cas_tasks run_id task_id row.state row.version to patch now rows ≡ (
      done (set_task to patch now row),
      update_where (task_at run_id task_id) (set_task to patch now) rows,
    )
cas_read run_id task_id to patch now row rows u found =
    let same_state : decide (TaskState-discrete row.state row.state) ≡ true =
      (decide_iff (TaskState-discrete row.state row.state)).1 refl in
    let same_version : nat_eq row.version row.version ≡ true =
      (nat_eq_iff row.version row.version).1 refl in
    rw (
      cas_tasks_lem run_id task_id row.state row.version to patch now rows u,
      found,
      same_state,
      same_version,
    )

-- The last part of either path.
module _ (last : Action (Unit {0})) (quiet : Quiet last) where
  pub move_task :
      (run_id task_id : String) (to : TaskState) (patch : TaskPatch) (now : ℕ) (row : TaskRow)
      (s : Store) (b : Bool)
      → IsKeyed (task_at run_id task_id) s.tasks
      → find (task_at run_id task_id) s.tasks ≡ some row
      → let m : Action Bool =
          cas_task_state run_id task_id row.state row.version to patch now >>= λ c.
          on_done c false (last >> pure true) in
        (m s).0 ≡ ok b
        → (b ≡ true)
          × ((m s).1.tasks ≡ update_where (task_at run_id task_id) (set_task to patch now) s.tasks)
          × ((m s).1.attempts ≡ s.attempts)
  move_task run_id task_id to patch now row s b u found h =
      let next : Cas TaskRow (Current TaskState) → Action Bool =
        λ c. on_done c false (last >> pure true) in
      let cas = cas_task_state run_id task_id row.state row.version to patch now in
      let (c, ran, went, left) = >>=-eq-ok cas next s h in
      let (answer, after) =
        cas_task_state-inv run_id task_id row.state row.version to patch now s c ran in
      let read = cas_read run_id task_id to patch now row s.tasks u found in
      let won : c ≡ done (set_task to patch now row) = answer ∙ ap (λ p. p.0) read in
      let went' : ((last >> pure true) (cas s).1).0 ≡ ok b = rw won at went in
      let (x, ran', went'', left') = >>=-eq-ok last (λ _. pure true) (cas s).1 went' in
      let (tasks, attempts) = quiet (cas s).1 x ran' in
      let end_state : ((cas >>= next) s).1 ≡ (last (cas s).1).1 = left ∙ (rw won refl ∙ left') in
      (
        cc went'',
        ap (λ t. t.tasks) end_state ∙ (tasks ∙ (ap (λ t. t.tasks) after ∙ ap (λ p. p.1) read)),
        ap (λ t. t.attempts) end_state ∙ (attempts ∙ ap (λ t. t.attempts) after),
      )
