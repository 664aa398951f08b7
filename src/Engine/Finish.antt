-- ===== src/Engine/Finish.antt =====
-- The terminal state that lib/engine.js derives for a run.
use mathlib.Core.Bool.{decide, decide_iff}
use dsh_dag_orchestrator.Prelude.{
  ◌≡◌, ◌⊎◌, inl, inr, refl, Bool, true, false, not, ◌&&◌, List, [], ◌∷◌, some, any, every, All,
  every-All, Bool-cases, ||-false,
}
use dsh_dag_orchestrator.States.{
  TaskState, TaskState-discrete, pending, ready, queued, running, succeeded, failed, retry_wait,
  blocked, cancelled, other,
}
use dsh_dag_orchestrator.Store.Rows.{RunState, TaskRow}
use dsh_dag_orchestrator.Engine.{is_state, task_is_terminal, is_live, is_settled, finish_target}

any-none : (p : TaskRow → Bool) (rs : List TaskRow) → any p rs ≡ false → All (λ r. p r ≡ false) rs
any-none p [] h = tt
any-none p (r ∷ rs) h = (let (a, b) = ||-false (p r) (any p rs) h in (a, any-none p rs b))

-- The state is one of those that the program writes.
abbrev pub is_known : TaskState → Bool
is_known (other s) = false
is_known _ = true

-- The task did its work, or was called off.
abbrev pub IsOver : TaskState → Type 0
IsOver s = (s ≡ succeeded) ⊎ (s ≡ cancelled)

state-IsOver :
    (s : TaskState)
    → task_is_terminal s ≡ true
    → decide (TaskState-discrete s failed) ≡ false
    → IsOver s
state-IsOver pending h n = absurd (cc)
state-IsOver ready h n = absurd (cc)
state-IsOver queued h n = absurd (cc)
state-IsOver running h n = absurd (cc)
state-IsOver succeeded h n = inl refl
state-IsOver failed h n =
    let same : decide (TaskState-discrete failed failed) ≡ true =
      (decide_iff (TaskState-discrete failed failed)).1 refl in
    absurd (cc)
state-IsOver retry_wait h n = absurd (cc)
state-IsOver blocked h n = absurd (cc)
state-IsOver cancelled h n = inr refl
state-IsOver (other x) h n = absurd (cc)

All-IsOver :
    (rs : List TaskRow)
    → All (λ r. task_is_terminal r.state ≡ true) rs
    → All (λ r. is_state failed r ≡ false) rs
    → All (λ r. IsOver r.state) rs
All-IsOver [] h n = tt
All-IsOver (r ∷ rs) h n = (state-IsOver r.state h.0 n.0, All-IsOver rs h.1 n.1)

-- A run is called succeeded only where nobody stopped it and every task of it succeeded or was
-- cancelled.
pub finish_target-succeeded :
    (cancelling : Bool) (tasks : List TaskRow)
    → finish_target cancelling tasks ≡ some RunState.succeeded
    → (cancelling ≡ false) × All (λ r. IsOver r.state) tasks
unfolding finish_target
finish_target-succeeded cancelling [] h = absurd (cc)
finish_target-succeeded cancelling (t ∷ ts) h =
    let tasks = t ∷ ts in
    let terminal = λ (r : TaskRow). task_is_terminal r.state in
    let dead = not (any is_live tasks) && every is_settled tasks in
    elim (Bool-cases (every terminal tasks)) [
      | inr e ↦ elim (Bool-cases dead) [
        | inr d ↦ absurd (cc (rw (finish_target, e, d) at h))
        | inl d ↦ elim (Bool-cases cancelling) [
          | inl c ↦ absurd (cc (rw (finish_target, e, d, c) at h))
          | inr c ↦ elim (Bool-cases (any (is_state failed) tasks)) [
            | inl f ↦ absurd (cc (rw (finish_target, e, d, c, f) at h))
            | inr f ↦ absurd (cc (rw (finish_target, e, d, c, f) at h))
          ]
        ]
      ]
      | inl e ↦ elim (Bool-cases cancelling) [
        | inl c ↦ absurd (cc (rw (finish_target, e, c) at h))
        | inr c ↦ elim (Bool-cases (any (is_state failed) tasks)) [
          | inl f ↦ absurd (cc (rw (finish_target, e, c, f) at h))
          | inr f ↦ (
            c,
            All-IsOver tasks (every-All terminal tasks e) (any-none (is_state failed) tasks f),
          )
        ]
      ]
    ]
