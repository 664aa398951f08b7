-- ===== src/Store/Moves/Path.antt =====
-- The shape of a path: the attempt ends, and only then its task moves.
use dsh_dag_orchestrator.Prelude.{
  ◌≡◌, ◌⊎◌, inl, inr, refl, ap, ◌∙◌, Bool, true, false, not, List, none, some, String,
  if◌then◌else◌, find, Option-cases,
}
use dsh_dag_orchestrator.States.{TaskState}
use dsh_dag_orchestrator.Store.Rows.{AttemptState, TaskRow, AttemptRow, Store}
use dsh_dag_orchestrator.Store.Action.{
  Action, Result, StoreError, ok, err, pure, ◌>>=◌, ◌>>◌, >>=-eq-ok, tx, tx-eq-ok, tx-eq-err,
}
use dsh_dag_orchestrator.Store.Tables.{update_where}
use dsh_dag_orchestrator.Store.Tables.Keyed.{IsKeyed}
use dsh_dag_orchestrator.Store.Payloads.{on_done, write_event}
use dsh_dag_orchestrator.Store.Tasks.{TaskPatch, task_at, set_task, cas_task_state, find_tasks}
use dsh_dag_orchestrator.Store.Attempts.{
  attempt_at, Commit, commit_ok, commit_attempts, commit_terminal,
}
use dsh_dag_orchestrator.Store.Events.{Event, insert_event}
use dsh_dag_orchestrator.Store.Events.Chain.{insert_event-inv}
use dsh_dag_orchestrator.Store.Moves.{Move, read_row}
use dsh_dag_orchestrator.Store.Moves.Steps.{
  commit_terminal-inv, commit_attempts-cases, AttemptEnded, Same, Quiet, move_task, find_tasks-inv,
}
use dsh_dag_orchestrator.Store.Moves.Reading.{read_row-found}

-- A part of a path that returns only through what stands behind it, and touches neither table.
abbrev pub Through : (Action Bool → Action Bool) → Type 0
Through pre =
    (k : Action Bool) (s : Store) (b : Bool)
    → (pre k s).0 ≡ ok b
    → (t : Store) × Same s t × ((k t).0 ≡ ok b) × ((pre k s).1 ≡ (k t).1)

pub step-Through : (m : Action (Unit {0})) → Quiet m → Through (λ k. m >> k)
step-Through m quiet k s b h =
    let (u, ran, went, left) = >>=-eq-ok m (λ _. k) s h in ((m s).1, quiet s u ran, went, left)

pub sequence-Through :
    (pre post : Action Bool → Action Bool)
    → Through pre
    → Through post
    → Through (λ k. pre (post k))
sequence-Through pre post p q k s b h =
    let (t, (st, sa), went, left) = p (post k) s b h in
    let (t', (st', sa'), went', left') = q k t b went in
    (t', (st' ∙ st, sa' ∙ sa), went', left ∙ left')

-- What both moves leave in the two tables.
abbrev pub Moved :
    Move → AttemptState → TaskState → TaskPatch → Store → List TaskRow → List AttemptRow → Type 0
Moved i ends to patch s tasks attempts =
    AttemptEnded i.attempt_id i.owner_token ends i.patch i.stamp s.attempts attempts
    × (tasks ≡ update_where (task_at i.run_id i.task_id) (set_task to patch i.stamp) s.tasks)

-- What a path is to do: nothing, or what is asked for.
abbrev pub Both : (List TaskRow → List AttemptRow → Type 0) → Store → Bool → Store → Type 0
Both All s b t = ((b ≡ false) × (t ≡ s)) ⊎ ((b ≡ true) × All t.tasks t.attempts)

module _ (i : Move) (last : Action (Unit {0})) (quiet : Quiet last)
    (pre : Action Bool → Action Bool) (goes : Through pre) where
  pub path_lem :
      (ends : AttemptState) (to : TaskState) (patch : TaskPatch) (row : TaskRow) (s : Store)
      (b : Bool)
      → IsKeyed (task_at i.run_id i.task_id) s.tasks
      → IsKeyed (attempt_at i.attempt_id) s.attempts
      → find (task_at i.run_id i.task_id) s.tasks ≡ some row
      → let move : Action Bool =
          cas_task_state i.run_id i.task_id row.state row.version to patch i.stamp >>= λ c.
          on_done c false (last >> pure true) in
        let m : Action Bool =
          commit_terminal i.attempt_id i.owner_token ends i.patch i.stamp >>= λ c.
          if not (commit_ok c) then pure false else pre move in
        (m s).0 ≡ ok b → Both (Moved i ends to patch s) s b (m s).1
  path_lem ends to patch row s b u v found h =
      let move : Action Bool =
        cas_task_state i.run_id i.task_id row.state row.version to patch i.stamp >>= λ c.
        on_done c false (last >> pure true) in
      let commit = commit_terminal i.attempt_id i.owner_token ends i.patch i.stamp in
      let next : Commit → Action Bool = λ c. if not (commit_ok c) then pure false else pre move in
      let (c, ran, went, left) = >>=-eq-ok commit next s h in
      let (answer, after) =
        commit_terminal-inv i.attempt_id i.owner_token ends i.patch i.stamp s c ran in
      elim (commit_attempts-cases i.attempt_id i.owner_token ends i.patch i.stamp s.attempts v) [
        | inl (refused, rows) ↦
            let no : commit_ok c ≡ false = rw answer refused in
            let stays : (next c (commit s).1).1 ≡ (commit s).1 = rw no refl in
            inl (
              cc (rw no at went),
              left ∙ (stays ∙ (after ∙ ap (λ rs. record s { attempts = rs }) rows)),
            )
        | inr (won, shown) ↦
            let yes : commit_ok c ≡ true = rw answer won in
            let (t, (st, sa), went', left') = goes move (commit s).1 b (rw yes at went) in
            let tasks : t.tasks ≡ s.tasks = st ∙ ap (λ x. x.tasks) after in
            let attempts : t.attempts
                ≡ (commit_attempts i.attempt_id i.owner_token ends i.patch i.stamp s.attempts).1 =
              sa ∙ ap (λ x. x.attempts) after in
            let (true_, moved, kept) =
              move_task last quiet i.run_id i.task_id to patch i.stamp row t b (rw tasks u)
                (rw tasks found) went' in
            let stays : (next c (commit s).1).1 ≡ (pre move (commit s).1).1 = rw yes refl in
            let end_state = left ∙ (stays ∙ left') in
            let (r, e, y, z, rows) = shown in
            inr (
              true_,
              (
                (r, e, y, z, ap (λ x. x.attempts) end_state ∙ (kept ∙ (attempts ∙ rows))),
                ap (λ x. x.tasks) end_state ∙ (moved ∙ rw tasks refl),
              ),
            )
      ]

pub write_event-Quiet :
    (sha256 : String → String) (id run_id : String) (event : Event)
    → Quiet (write_event sha256 id run_id event)
unfolding write_event
write_event-Quiet sha256 id run_id event s u h =
    let insert = insert_event sha256 id run_id event in
    let (row, ran, went, left) = >>=-eq-ok insert (λ _. pure tt) s h in
    let (payload_json, canonical, shown, printed, made, after) =
      insert_event-inv sha256 id run_id event s row ran in
    let end_state = left ∙ after in (ap (λ t. t.tasks) end_state, ap (λ t. t.attempts) end_state)

-- A path behind the reading of its task.
pub with_row :
    (run_id task_id : String) (All : List TaskRow → List AttemptRow → Type 0)
    (path : TaskRow → Action Bool) (s : Store) (b : Bool)
    → ((row : TaskRow)
        → find (task_at run_id task_id) s.tasks ≡ some row
        → (path row s).0 ≡ ok b
        → Both All s b (path row s).1)
    → IsKeyed (task_at run_id task_id) s.tasks
    → let m : Action Bool = find_tasks run_id >>= λ rows. elim (read_row task_id rows) [
      | none ↦ pure false
      | some row ↦ path row
    ] in
      (m s).0 ≡ ok b → Both All s b (m s).1
with_row run_id task_id All path s b moves u h =
    let next : List TaskRow → Action Bool =
      λ rows. elim (read_row task_id rows) [ none ↦ pure false | some row ↦ path row ] in
    let (rows, ran, went, left) = >>=-eq-ok (find_tasks run_id) next s h in
    let (read, kept) = find_tasks-inv run_id s rows ran in
    let went' : (next rows s).0 ≡ ok b = rw kept at went in
    let left' : ((find_tasks run_id >>= next) s).1 ≡ (next rows s).1 = left ∙ rw kept refl in
    rw left' (elim (Option-cases (read_row task_id rows)) [
      | inl e ↦ rw e (inl (cc (rw e at went'), refl))
      | inr (row, e) ↦
          let found = read_row-found run_id task_id s.tasks row u (rw read at e) in
          rw e (moves row found (rw e at went'))
    ])

-- What a transaction around a path is to do: all of it or nothing.
abbrev pub AllOrNone :
    (List TaskRow → List AttemptRow → Type 0) → Store → Result Bool × Store → Type 0
AllOrNone All s (err e, t) = (t ≡ s)
AllOrNone All s (ok false, t) = (t ≡ record s { active_tx = false })
AllOrNone All s (ok true, t) = All t.tasks t.attempts

pub tx-AllOrNone :
    (All : List TaskRow → List AttemptRow → Type 0) (fn : Action Bool) (s : Store)
    → ((b : Bool)
        → (fn (record s { active_tx = true })).0 ≡ ok b
        → Both All (record s { active_tx = true }) b (fn (record s { active_tx = true })).1)
    → AllOrNone All s (tx fn s)
tx-AllOrNone All fn s both = split (tx fn s).0 (tx fn s).1 (tx-eq-err fn s) (λ b. tx-eq-ok fn s b)
  where
    split :
        (r : Result Bool) (t : Store)
        → ((e : StoreError) → r ≡ err e → t ≡ s)
        → ((b : Bool)
            → r ≡ ok b
            → ((fn (record s { active_tx = true })).0 ≡ ok b)
              × (t ≡ record ((fn (record s { active_tx = true })).1) { active_tx = false }))
        → AllOrNone All s (r, t)
    split (err e) t threw did = threw e refl
    split (ok false) t threw did =
        let (ran, left) = did false refl in
        elim (both false ran) [
          | inl (e, same) ↦ left ∙ ap (λ (x : Store). record x { active_tx = false }) same
          | inr (e, whole) ↦ absurd (cc)
        ]
    split (ok true) t threw did =
        let (ran, left) = did true refl in
        elim (both true ran) [ inl (e, same) ↦ absurd (cc) | inr (e, whole) ↦ rw left whole ]

pub sequence-Quiet :
    (m : Action (Unit {0})) → Quiet m → (n : Action (Unit {0})) → Quiet n → Quiet (m >> n)
sequence-Quiet m p n q s u h =
    let (x, ran, went, left) = >>=-eq-ok m (λ _. n) s h in
    let (st, sa) = p s x ran in
    let (st', sa') = q (m s).1 u went in
    (ap (λ t. t.tasks) left ∙ (st' ∙ st), ap (λ t. t.attempts) left ∙ (sa' ∙ sa))
