-- ===== src/Recovery/Again.antt =====
-- Whether lib/recovery.js recovers one attempt twice.
use dsh_dag_orchestrator.Prelude.{ℕ, ◌≡◌, refl, Bool, true, false, some, String, List, find, arith}
use dsh_dag_orchestrator.States.{TaskState, failed, retry_wait}
use dsh_dag_orchestrator.Store.Rows.{AttemptState, AttemptRow, TaskRow, Store}
use dsh_dag_orchestrator.Store.Action.{Action, Result, ok, err}
use dsh_dag_orchestrator.Store.Tables.Keyed.{IsKeyed, guard-holds, changes-update}
use dsh_dag_orchestrator.Store.Tasks.{TaskPatch, no_task_patch, task_at, set_task}
use dsh_dag_orchestrator.Store.Attempts.{
  TerminalPatch, attempt_at, attempt_is_terminal, set_attempt,
}
use dsh_dag_orchestrator.Store.Moves.Path.{AllOrNone}
use dsh_dag_orchestrator.Recovery.{
  Moment, is_running, never_dispatched, no_dispatch_patch, orphan_patch, recover_never_dispatched,
  recover_orphaned, retry_now,
}
use dsh_dag_orchestrator.Recovery.Attempts.{
  Recovered, recover_never_dispatched-AllOrNone, recover_orphaned-AllOrNone,
}

-- A recovery that does not come through, and leaves the tables as they are.
abbrev pub Refused : Store → Result Bool × Store → Type 0
Refused s (err e, t) = (t ≡ s)
Refused s (ok b, t) = (b ≡ false) × (t ≡ record s { active_tx = false })

-- Where the row no longer fits, nothing of it comes through.
no_longer :
    (fits : AttemptRow → Bool) (a : AttemptRow) (ends : AttemptState) (columns : TerminalPatch)
    (to : TaskState) (patch : TaskPatch) (now : ℕ) (s : Store) (r : AttemptRow)
    → find (attempt_at a.attempt_id) s.attempts ≡ some r
    → fits r ≡ false
    → (p : Result Bool × Store) → AllOrNone (Recovered fits a ends columns to patch now s) s p
    → Refused s p
no_longer fits a ends columns to patch now s r found n (err e, t) whole = whole
no_longer fits a ends columns to patch now s r found n (ok false, t) whole = (refl, whole)
no_longer fits a ends columns to patch now s r found n (ok true, t) (x, found', y, rest, more) =
    absurd (cc)

-- Who ended is neither running nor claimed.
ended_fits :
    (ends : AttemptState) (columns : TerminalPatch) (now : ℕ) (r : AttemptRow)
    → attempt_is_terminal ends ≡ true
    → (never_dispatched (set_attempt ends columns now r) ≡ false)
      × (is_running (set_attempt ends columns now r) ≡ false)
ended_fits AttemptState.claimed columns now r h = absurd (cc)
ended_fits AttemptState.running columns now r h = absurd (cc)
ended_fits AttemptState.succeeded columns now r h = (refl, refl)
ended_fits AttemptState.failed columns now r h = (refl, refl)
ended_fits AttemptState.cancelled columns now r h = (refl, refl)
ended_fits AttemptState.orphaned columns now r h = (refl, refl)

came_through :
    (All : List TaskRow → List AttemptRow → Type 0) (s : Store) (p : Result Bool × Store)
    → p.0 ≡ ok true
    → AllOrNone All s p
    → All p.1.tasks p.1.attempts
came_through All s (err e, t) h whole = absurd (cc)
came_through All s (ok false, t) h whole = absurd (cc)
came_through All s (ok true, t) h whole = whole

module _ (sha256 : String → String) (a : AttemptRow) where
  -- Either recovery.
  abbrev pub recover : Bool → Moment → Action Bool
  recover false m = recover_never_dispatched sha256 m a
  recover true m = recover_orphaned sha256 m a

  refused :
      (flew : Bool) (m : Moment) (t : Store) (r : AttemptRow)
      → IsKeyed (task_at a.run_id a.task_id) t.tasks
      → IsKeyed (attempt_at a.attempt_id) t.attempts
      → find (attempt_at a.attempt_id) t.attempts ≡ some r
      → (never_dispatched r ≡ false) × (is_running r ≡ false)
      → Refused t (recover flew m t)
  refused false m t r u v found (n, n') =
      no_longer never_dispatched a AttemptState.failed no_dispatch_patch retry_wait (retry_now m)
        m.stamp t r found n (recover_never_dispatched sha256 m a t)
        (recover_never_dispatched-AllOrNone sha256 m a t u v)
  refused true m t r u v found (n, n') =
      no_longer is_running a AttemptState.orphaned orphan_patch failed no_task_patch m.stamp t r
        found n' (recover_orphaned sha256 m a t) (recover_orphaned-AllOrNone sha256 m a t u v)

  -- Behind a recovery that came through, neither comes through.
  behind :
      (fits : AttemptRow → Bool) (ends : AttemptState) (columns : TerminalPatch) (to : TaskState)
      (patch : TaskPatch) (now : ℕ) (flew : Bool) (m : Moment) (s t : Store)
      → IsKeyed (task_at a.run_id a.task_id) s.tasks
      → IsKeyed (attempt_at a.attempt_id) s.attempts
      → attempt_is_terminal ends ≡ true
      → Recovered fits a ends columns to patch now s t.tasks t.attempts
      → Refused t (recover flew m t)
  behind fits ends columns to patch now flew m s t u v over (r, found, y, rows, tasks) =
      let k = attempt_at a.attempt_id in
      let f = set_attempt ends columns now in
      let q = task_at a.run_id a.task_id in
      let g = set_task to patch now in
      let (one, same, there) = guard-holds k (λ x. true) f (λ w. refl) s.attempts r v found refl in
      let found' : find k t.attempts ≡ some (f r) = rw rows there in
      let v' : IsKeyed k t.attempts =
        rw rows (omega (arith, changes-update k k f (λ w. refl) s.attempts, v)) in
      let u' : IsKeyed q t.tasks =
        rw tasks (omega (arith, changes-update q q g (λ w. refl) s.tasks, u)) in
      refused flew m t (f r) u' v' found' (ended_fits ends columns now r over)

  -- Where at most one row has the key of the task and one the id of the attempt, an attempt that one
  -- of the two recoveries brought through is not recovered again, by neither of them and at no later
  -- moment: the second call answers false or throws, and leaves every table as it is.
  pub recover-once :
      (flew flew' : Bool) (m m' : Moment) (s : Store)
      → IsKeyed (task_at a.run_id a.task_id) s.tasks
      → IsKeyed (attempt_at a.attempt_id) s.attempts
      → (recover flew m s).0 ≡ ok true
      → Refused (recover flew m s).1 (recover flew' m' (recover flew m s).1)
  recover-once false flew' m m' s u v through =
      behind never_dispatched AttemptState.failed no_dispatch_patch retry_wait (retry_now m) m.stamp
        flew' m' s (recover false m s).1 u v refl
        (came_through
          (Recovered never_dispatched a AttemptState.failed no_dispatch_patch retry_wait
            (retry_now m) m.stamp s)
          s (recover false m s) through (recover_never_dispatched-AllOrNone sha256 m a s u v))
  recover-once true flew' m m' s u v through =
      behind is_running AttemptState.orphaned orphan_patch failed no_task_patch m.stamp flew' m' s
        (recover true m s).1 u v refl
        (came_through
          (Recovered is_running a AttemptState.orphaned orphan_patch failed no_task_patch m.stamp s)
          s (recover true m s) through (recover_orphaned-AllOrNone sha256 m a s u v))
