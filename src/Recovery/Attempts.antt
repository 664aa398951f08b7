-- ===== src/Recovery/Attempts.antt =====
-- The two recoveries of an attempt in lib/recovery.js.
use dsh_dag_orchestrator.Prelude.{
  ℕ, ◌≡◌, inl, inr, refl, ◌∙◌, Bool, true, false, List, [], ◌∷◌, none, some, String, if◌then◌else◌,
  find, Bool-cases, Option-cases, Option,
}
use dsh_dag_orchestrator.States.{TaskState, failed, retry_wait}
use dsh_dag_orchestrator.Store.Rows.{AttemptState, AttemptRow, TaskRow, Store}
use dsh_dag_orchestrator.Store.Action.{
  Action, Result, ok, pure, first_failure, store_closed, need, Result-cases, ◌>>=◌, >>=-eq-ok,
}
use dsh_dag_orchestrator.Store.Tables.{update_where}
use dsh_dag_orchestrator.Store.Tables.Keyed.{IsKeyed}
use dsh_dag_orchestrator.Store.Tasks.{TaskPatch, no_task_patch, task_at, set_task, find_tasks}
use dsh_dag_orchestrator.Store.Attempts.{TerminalPatch, attempt_at, set_attempt, find_attempt}
use dsh_dag_orchestrator.Store.Moves.{Move, read_row}
use dsh_dag_orchestrator.Store.Moves.Steps.{Quiet}
use dsh_dag_orchestrator.Store.Moves.Path.{
  AllOrNone, Both, Moved, path_lem, sequence-Quiet, sequence-Through, step-Through, tx-AllOrNone,
  with_row, write_event-Quiet,
}
use dsh_dag_orchestrator.Recovery.{
  Moment, ask_for_action, is_running, never_dispatched, no_dispatch_patch, orphan_patch, orphan_row,
  recover_never_dispatched, recover_orphaned, retry_now, retry_row, with_fresh,
}

pub find_attempt-inv :
    (attempt_id : String) (s : Store) (r : Option AttemptRow)
    → (find_attempt attempt_id s).0 ≡ ok r
    → (r ≡ find (attempt_at attempt_id) s.attempts) × ((find_attempt attempt_id s).1 ≡ s)
unfolding find_attempt
find_attempt-inv attempt_id s r h =
    let guards : Result (Unit {0}) =
      first_failure ((s.closed, store_closed) ∷ need attempt_id "attemptId" ∷ []) in
    elim (Result-cases guards) [
      | inr (x, e) ↦ absurd (cc (rw (find_attempt, e) at h))
      | inl (u, e) ↦ (cc (rw (find_attempt, e) at h), rw (find_attempt, e))
    ]

-- What a recovery leaves that came through: the row of the attempt still fitted, it is ended, and its
-- task is moved.
abbrev pub Recovered :
    (AttemptRow → Bool)
    → AttemptRow
    → AttemptState
    → TerminalPatch
    → TaskState
    → TaskPatch
    → ℕ
    → Store
    → List TaskRow
    → List AttemptRow
    → Type 0
Recovered fits a ends columns to patch now s tasks attempts =
    (r : AttemptRow) × (find (attempt_at a.attempt_id) s.attempts ≡ some r)
    × (fits r ≡ true)
    × (attempts ≡ update_where (attempt_at a.attempt_id) (set_attempt ends columns now) s.attempts)
    × (tasks ≡ update_where (task_at a.run_id a.task_id) (set_task to patch now) s.tasks)

module _ (fits : AttemptRow → Bool) (path : AttemptRow → TaskRow → Action Bool)
    (attempt : AttemptRow) (All : List TaskRow → List AttemptRow → Type 0) where
  with_fresh-Both :
      (s : Store) (b : Bool)
      → ((a : AttemptRow) (row : TaskRow)
          → find (attempt_at attempt.attempt_id) s.attempts ≡ some a
          → fits a ≡ true
          → find (task_at attempt.run_id attempt.task_id) s.tasks ≡ some row
          → (path a row s).0 ≡ ok b
          → Both All s b (path a row s).1)
      → IsKeyed (task_at attempt.run_id attempt.task_id) s.tasks
      → (with_fresh fits path attempt s).0 ≡ ok b
      → Both All s b (with_fresh fits path attempt s).1
  with_fresh-Both s b moves u h =
      let reads : AttemptRow → Action Bool = λ a. find_tasks attempt.run_id >>= λ rows.
      elim (read_row attempt.task_id rows) [ none ↦ pure false | some row ↦ path a row ] in
      let next : Option AttemptRow → Action Bool = λ fresh. elim fresh [
        | none ↦ pure false
        | some a ↦ if fits a then reads a else pure false
      ] in
      let (fresh, ran, went, left) = >>=-eq-ok (find_attempt attempt.attempt_id) next s h in
      let (read, kept) = find_attempt-inv attempt.attempt_id s fresh ran in
      let went' : (next fresh s).0 ≡ ok b = rw kept at went in
      let left' : (with_fresh fits path attempt s).1 ≡ (next fresh s).1 = left ∙ rw kept refl in
      rw left' (elim (Option-cases fresh) [
        | inl e ↦ rw e (inl (cc (rw e at went'), refl))
        | inr (a, e) ↦ elim (Bool-cases (fits a)) [
          | inr n ↦ rw (e, n) (inl (cc (rw (e, n) at went'), refl))
          | inl y ↦
              rw (e, y)
                (with_row attempt.run_id attempt.task_id All (path a) s b
                  (λ row found. moves a row (cc) y found) u (rw (e, y) at went'))
        ]
      ])

module _ (sha256 : String → String) (m : Moment) (attempt : AttemptRow) where
  abbrev crash_move : TerminalPatch → AttemptRow → Move
  crash_move columns fresh = record {
    run_id = attempt.run_id;
    task_id = attempt.task_id;
    attempt_id = attempt.attempt_id;
    owner_token = fresh.owner_token;
    patch = columns;
    stamp = m.stamp;
  }

  -- The end of the attempt, under the token that its row was just read with.
  recovered :
      (fits : AttemptRow → Bool) (fresh : AttemptRow) (ends : AttemptState)
      (columns : TerminalPatch) (to : TaskState) (patch : TaskPatch) (s : Store) (b : Bool)
      (t : Store)
      → find (attempt_at attempt.attempt_id) s.attempts ≡ some fresh
      → fits fresh ≡ true
      → Both (Moved (crash_move columns fresh) ends to patch s) s b t
      → Both (Recovered fits attempt ends columns to patch m.stamp s) s b t
  recovered fits fresh ends columns to patch s b t found y (inl same) = inl same
  recovered fits fresh ends columns to patch s b t found y
        (inr (e, ((r, at, live, own, rows), tasks))) =
      inr (e, (fresh, found, y, rows, tasks))

  retry_row_lem :
      (fresh : AttemptRow) (row : TaskRow) (s : Store) (b : Bool)
      → IsKeyed (task_at attempt.run_id attempt.task_id) s.tasks
      → IsKeyed (attempt_at attempt.attempt_id) s.attempts
      → find (task_at attempt.run_id attempt.task_id) s.tasks ≡ some row
      → (retry_row sha256 m attempt fresh row s).0 ≡ ok b
      → Both
          (Moved
            (crash_move no_dispatch_patch fresh)
            AttemptState.failed
            retry_wait
            (retry_now m)
            s)
          s
          b
          (retry_row sha256 m attempt fresh row s).1
  unfolding retry_row
  retry_row_lem fresh row s b u v found h =
      path_lem (crash_move no_dispatch_patch fresh) _ (write_event-Quiet sha256 _ _ _) _
        (sequence-Through _ _ (step-Through _ (write_event-Quiet sha256 _ _ _))
          (step-Through _ (write_event-Quiet sha256 _ _ _)))
        AttemptState.failed retry_wait (retry_now m) row s b u v found h

  ask_for_action-Quiet :
      (fresh : AttemptRow) (row : TaskRow) → Quiet (ask_for_action sha256 m attempt fresh row)
  unfolding ask_for_action
  ask_for_action-Quiet fresh row =
      sequence-Quiet _ (write_event-Quiet sha256 _ _ _) _ (write_event-Quiet sha256 _ _ _)

  orphan_row_lem :
      (fresh : AttemptRow) (row : TaskRow) (s : Store) (b : Bool)
      → IsKeyed (task_at attempt.run_id attempt.task_id) s.tasks
      → IsKeyed (attempt_at attempt.attempt_id) s.attempts
      → find (task_at attempt.run_id attempt.task_id) s.tasks ≡ some row
      → (orphan_row sha256 m attempt fresh row s).0 ≡ ok b
      → Both
          (Moved (crash_move orphan_patch fresh) AttemptState.orphaned failed no_task_patch s)
          s
          b
          (orphan_row sha256 m attempt fresh row s).1
  unfolding orphan_row
  orphan_row_lem fresh row s b u v found h =
      path_lem (crash_move orphan_patch fresh) _ (ask_for_action-Quiet fresh row) _
        (step-Through _ (write_event-Quiet sha256 _ _ _)) AttemptState.orphaned failed no_task_patch
        row s b u v found h

  -- Where at most one row has the key of the task and one the id of the attempt, the recovery of an
  -- attempt that was never dispatched does all or nothing: an exception leaves the store as it was,
  -- the answer false leaves every table as it was, and behind the answer true the row of the
  -- attempt, which still was claimed or running without a child session, is ended as failed and its
  -- task waits for a retry at once.
  pub recover_never_dispatched-AllOrNone :
      (s : Store)
      → IsKeyed (task_at attempt.run_id attempt.task_id) s.tasks
      → IsKeyed (attempt_at attempt.attempt_id) s.attempts
      → AllOrNone
          (Recovered never_dispatched attempt AttemptState.failed no_dispatch_patch retry_wait
            (retry_now m)
            m.stamp
            s)
          s
          (recover_never_dispatched sha256 m attempt s)
  unfolding recover_never_dispatched
  recover_never_dispatched-AllOrNone s u v =
      let inside : Store = record s { active_tx = true } in
      let All =
        Recovered never_dispatched attempt AttemptState.failed no_dispatch_patch retry_wait
          (retry_now m) m.stamp inside in
      tx-AllOrNone All (with_fresh never_dispatched (retry_row sha256 m attempt) attempt) s (λ b.
        with_fresh-Both never_dispatched (retry_row sha256 m attempt) attempt All inside b
          (λ a row found y there h.
            recovered never_dispatched a AttemptState.failed no_dispatch_patch retry_wait
              (retry_now m) inside b _ found y (retry_row_lem a row inside b u v there h))
          u)

  -- Where at most one row has the key of the task and one the id of the attempt, the recovery of an
  -- attempt in flight does all or nothing: an exception leaves the store as it was, the answer false
  -- leaves every table as it was, and behind the answer true the row of the attempt, which still was
  -- running, is ended as orphaned and its task has failed.
  pub recover_orphaned-AllOrNone :
      (s : Store)
      → IsKeyed (task_at attempt.run_id attempt.task_id) s.tasks
      → IsKeyed (attempt_at attempt.attempt_id) s.attempts
      → AllOrNone
          (Recovered is_running attempt AttemptState.orphaned orphan_patch failed no_task_patch
            m.stamp s)
          s
          (recover_orphaned sha256 m attempt s)
  unfolding recover_orphaned
  recover_orphaned-AllOrNone s u v =
      let inside : Store = record s { active_tx = true } in
      let All =
        Recovered is_running attempt AttemptState.orphaned orphan_patch failed no_task_patch m.stamp
          inside in
      tx-AllOrNone All (with_fresh is_running (orphan_row sha256 m attempt) attempt) s (λ b.
        with_fresh-Both is_running (orphan_row sha256 m attempt) attempt All inside b
          (λ a row found y there h.
            recovered is_running a AttemptState.orphaned orphan_patch failed no_task_patch inside b
              _ found y (orphan_row_lem a row inside b u v there h))
          u)
