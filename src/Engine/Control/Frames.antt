-- ===== src/Engine/Control/Frames.antt =====
-- What the steps of `control` of lib/engine.js leave of the table of runs.
use dsh_dag_orchestrator.Prelude.{
  ℕ, ◌≡◌, ◌∙◌, ap, inl, inr, refl, true, List, [], ◌∷◌, Option, some, String, find, nat_eq,
  nat_eq_iff,
}
use mathlib.Core.Bool.{decide, decide_iff}
use dsh_dag_orchestrator.Store.Rows.{RunState, RunState-discrete, RunRow, Store}
use dsh_dag_orchestrator.Store.Action.{
  Action, Cas, Current, Result, Result-cases, ok, done, first_failure, mismatch, need,
  need_if_given, not_found, pure, store_closed, ◌>>=◌, >>=-eq-ok,
}
use dsh_dag_orchestrator.Store.Tables.{update_where}
use dsh_dag_orchestrator.Store.Tables.Keyed.{IsKeyed, guard-holds}
use dsh_dag_orchestrator.Store.Runs.{
  RunPatch, cas_run_state, cas_runs, run_at, set_control_intent, set_run,
}
use dsh_dag_orchestrator.Store.Runs.Races.{cas_runs_lem}
use dsh_dag_orchestrator.Store.Events.{Event, insert_event}
use dsh_dag_orchestrator.Store.Events.Chain.{insert_event-inv}
use dsh_dag_orchestrator.Store.Payloads.{on_done, write_event}
use dsh_dag_orchestrator.Engine.Control.{ControlCall, Effect, must}

-- A run with this state.
abbrev pub At : String → RunState → Store → Type 0
At run_id st s = (r : RunRow) × (find (run_at run_id) s.runs ≡ some r) × (r.state ≡ st)

-- A step that leaves the runs alone.
abbrev pub KeepsRuns : {A : Type 0} → Action A → Type 0
KeepsRuns {A} m = (s : Store) (a : A) → (m s).0 ≡ ok a → (m s).1.runs ≡ s.runs

pub >>=-KeepsRuns :
    {A B : Type 0} (m : Action A) (f : A → Action B)
    → KeepsRuns m
    → ((a : A) → KeepsRuns (f a))
    → KeepsRuns (m >>= f)
>>=-KeepsRuns m f p q s b h =
    let (a, ran, went, left) = >>=-eq-ok m f s h in
    ap (λ t. t.runs) left ∙ (q a (m s).1 b went ∙ p s a ran)

pub on_done-KeepsRuns :
    {R C A : Type 0} (cas : Cas R C) (lost : A) (next : Action A)
    → KeepsRuns next
    → KeepsRuns (on_done cas lost next)
on_done-KeepsRuns (done r) lost next keeps = keeps
on_done-KeepsRuns not_found lost next keeps = λ s a h. refl
on_done-KeepsRuns (mismatch r) lost next keeps = λ s a h. refl

pub write_event-KeepsRuns :
    (sha256 : String → String) (id run_id : String) (event : Event)
    → KeepsRuns (write_event sha256 id run_id event)
unfolding write_event
write_event-KeepsRuns sha256 id run_id event =
    >>=-KeepsRuns (insert_event sha256 id run_id event) (λ _. pure tt)
      (λ s row ran.
        let (payload_json, canonical, shown, printed, made, after) =
          insert_event-inv sha256 id run_id event s row ran in
        ap (λ t. t.runs) after)
      (λ row s u h. refl)

cas_run_state-inv :
    (run_id : String) (from : RunState) (version : ℕ) (to : RunState) (patch : RunPatch) (now : ℕ)
    (s : Store) (c : Cas RunRow (Current RunState))
    → (cas_run_state run_id from version to patch now s).0 ≡ ok c
    → let (answer, rows) = cas_runs run_id from version to patch now s.runs in
      (c ≡ answer)
      × ((cas_run_state run_id from version to patch now s).1 ≡ record s { runs = rows })
unfolding cas_run_state
cas_run_state-inv run_id from version to patch now s c h =
    let guards : Result (Unit {0}) =
      first_failure ((s.closed, store_closed) ∷ need run_id "runId" ∷ []) in
    elim (Result-cases guards) [
      | inr (x, e) ↦ absurd (cc (rw (cas_run_state, e) at h))
      | inl (u, e) ↦ (cc (rw (cas_run_state, e) at h), rw (cas_run_state, e))
    ]

-- The move of a run as it was read, and what follows it.
module _ (c : ControlCall) (run : RunRow) (to : RunState) (patch : RunPatch) (code : String)
    (next : Action (List Effect)) (keeps : KeepsRuns next) where
  pub move_run :
      (from : RunState) (s : Store) (x : List Effect)
      → run.state ≡ from
      → IsKeyed (run_at c.run_id) s.runs
      → find (run_at c.run_id) s.runs ≡ some run
      → let m : Action (List Effect) =
          cas_run_state c.run_id from run.version to patch c.stamp >>= λ cas. must cas code next in
        (m s).0 ≡ ok x → At c.run_id to (m s).1
  move_run from s x at_from u found h =
      let then_ : Cas RunRow (Current RunState) → Action (List Effect) =
        λ cas. must cas code next in
      let m = cas_run_state c.run_id from run.version to patch c.stamp in
      let (cas, ran, went, left) = >>=-eq-ok m then_ s h in
      let (answer, after) =
        cas_run_state-inv c.run_id from run.version to patch c.stamp s cas ran in
      let same_state : decide (RunState-discrete run.state from) ≡ true =
        (decide_iff (RunState-discrete run.state from)).1 at_from in
      let same_version : nat_eq run.version run.version ≡ true =
        (nat_eq_iff run.version run.version).1 refl in
      let read : cas_runs c.run_id from run.version to patch c.stamp s.runs ≡ (
        done (set_run to patch c.stamp run),
        update_where (run_at c.run_id) (set_run to patch c.stamp) s.runs,
      ) =
        rw
          (
            cas_runs_lem c.run_id from run.version to patch c.stamp s.runs u,
            found,
            same_state,
            same_version,
          )
          refl in
      let won : cas ≡ done (set_run to patch c.stamp run) = answer ∙ ap (λ p. p.0) read in
      let went' : (next (m s).1).0 ≡ ok x = rw won at went in
      let rows : ((m >>= then_) s).1.runs
          ≡ update_where (run_at c.run_id) (set_run to patch c.stamp) s.runs =
        ap (λ t. t.runs) left
        ∙ (rw won refl ∙ (keeps (m s).1 x went' ∙ (ap (λ t. t.runs) after ∙ ap (λ p. p.1) read))) in
      let (one, same, there) =
        guard-holds (run_at c.run_id) (λ r. true) (set_run to patch c.stamp) (λ r. refl) s.runs run
          u found refl in
      (set_run to patch c.stamp run, rw rows there, refl)

-- Writing an intent leaves the state.
pub set_control_intent-At :
    (run_id : String) (intent : Option String) (now : ℕ) (run : RunRow) (s : Store)
    (a : Cas RunRow (Current RunState))
    → IsKeyed (run_at run_id) s.runs
    → find (run_at run_id) s.runs ≡ some run
    → (set_control_intent run_id intent now s).0 ≡ ok a
    → At run_id run.state (set_control_intent run_id intent now s).1
unfolding set_control_intent
set_control_intent-At run_id intent now run s a u found h =
    let guards : Result (Unit {0}) =
      first_failure
        ((s.closed, store_closed) ∷ need run_id "runId" ∷ need_if_given intent "intent" ∷ []) in
    let f : RunRow → RunRow = λ r. record r { control_intent = intent; updated_at = now } in
    elim (Result-cases guards) [
      | inr (x, e) ↦ absurd (cc (rw (set_control_intent, e) at h))
      | inl (v, e) ↦
          let (one, same, there) =
            guard-holds (run_at run_id) (λ r. true) f (λ r. refl) s.runs run u found refl in
          rw (set_control_intent, e) (f run, there, refl)
    ]
