-- ===== src/Engine/Control/Edges.antt =====
-- Which moves of a run `control` of lib/engine.js makes.
use dsh_dag_orchestrator.Prelude.{
  ℕ, suc, ◌≡◌, ◌∙◌, ap, sym, inl, inr, refl, true, false, ◌||◌, List, [], ◌∷◌, ◌++◌, Option, none,
  some, String, find, if◌then◌else◌, Bool-cases,
}
use dsh_dag_orchestrator.States.{running, cancelled}
use dsh_dag_orchestrator.Json.{Value}
use dsh_dag_orchestrator.Store.Rows.{RunState, RunRow, TaskRow, Store}
use dsh_dag_orchestrator.Store.Action.{
  Action, Result, ok, err, control_error, pure, throw, tx, tx-eq-ok, ◌>>=◌, ◌>>◌, >>=-eq-ok,
}
use dsh_dag_orchestrator.Store.Tables.{is_same}
use dsh_dag_orchestrator.Store.Tables.Keyed.{IsKeyed}
use dsh_dag_orchestrator.Store.Runs.{cas_run_state, run_at, run_is_terminal, set_control_intent}
use dsh_dag_orchestrator.Store.Tasks.{cas_task_state, find_tasks}
use dsh_dag_orchestrator.Store.Moves.Steps.{cas_task_state-inv, find_tasks-inv}
use dsh_dag_orchestrator.Store.Payloads.{write_event}
use dsh_dag_orchestrator.Engine.{is_state, task_is_terminal}
use dsh_dag_orchestrator.Engine.Control.{
  ControlCall, Controlled, Effect, RunAction, intent_patch, must, note_control, on_run, pause,
  require_run, resume, stop, fresh_patch,
}
use dsh_dag_orchestrator.Engine.Control.OnRun.{
  affirm_intent, begin_stop, cancel_each, cancel_one, control_run, control_pause, control_resume,
  control_stop, stop_tasks,
}
use dsh_dag_orchestrator.Engine.Control.Entry.{control, tell_state}
use dsh_dag_orchestrator.Engine.Control.Refusal.{find_run-inv, require_run-inv}
use dsh_dag_orchestrator.Engine.Control.Frames.{
  At, KeepsRuns, >>=-KeepsRuns, on_done-KeepsRuns, write_event-KeepsRuns, move_run,
  set_control_intent-At,
}

-- The diagram of a run, as far as a person moves it.
pub data RunEdge : RunAction → RunState → RunState → Type 0 where
  pauses : RunEdge pause RunState.running RunState.pausing
  still_pausing : RunEdge pause RunState.pausing RunState.pausing
  still_paused : RunEdge pause RunState.paused RunState.paused
  resumes : RunEdge resume RunState.paused RunState.running
  stops : {s : RunState} → run_is_terminal s ≡ false → RunEdge stop s RunState.cancelling

module _ (sha256 : String → String) (c : ControlCall) (run : RunRow) where
  note_control-KeepsRuns :
      (action from to : String) (more : List (String × Value))
      → KeepsRuns (note_control sha256 c action from to more)
  unfolding note_control
  note_control-KeepsRuns action from to more =
      write_event-KeepsRuns sha256 c.control_id c.run_id (record {
        type = "run.control";
        task_id = none;
        attempt_id = none;
        payload = _;
        at = c.now;
      })

  affirm_intent-At :
      (intent : String) (s : Store) (v : Unit {0})
      → IsKeyed (run_at c.run_id) s.runs
      → find (run_at c.run_id) s.runs ≡ some run
      → (affirm_intent sha256 c run intent s).0 ≡ ok v
      → At c.run_id run.state (affirm_intent sha256 c run intent s).1
  affirm_intent-At intent s v u found h =
      elim (Bool-cases (is_same run.control_intent (some intent))) [
        | inl y ↦ rw y (run, found, refl)
        | inr n ↦
            let set = set_control_intent c.run_id (some intent) c.stamp in
            let (a, ran, went, left) = >>=-eq-ok set (λ answer. pure tt) s (rw n at h) in
            rw (n, left) (set_control_intent-At c.run_id (some intent) c.stamp run s a u found ran)
      ]

  -- An affirmed intent, and what follows it.
  affirmed :
      (intent : String) (next : Action (List Effect))
      → KeepsRuns next
      → (s : Store) (x : List Effect) → IsKeyed (run_at c.run_id) s.runs
      → find (run_at c.run_id) s.runs ≡ some run
      → ((affirm_intent sha256 c run intent >> next) s).0 ≡ ok x
      → At c.run_id run.state ((affirm_intent sha256 c run intent >> next) s).1
  affirmed intent next keeps s x u found h =
      let first = affirm_intent sha256 c run intent in
      let (v, ran, went, left) = >>=-eq-ok first (λ _. next) s h in
      let (r, there, state) = affirm_intent-At intent s v u found ran in
      let rows : ((first >> next) s).1.runs ≡ (first s).1.runs =
        ap (λ t. t.runs) left ∙ keeps (first s).1 x went in
      (r, rw rows there, state)

  noted :
      (action from to : String)
      → KeepsRuns {A = List Effect} (note_control sha256 c action from to [] >> pure [])
  noted action from to =
      >>=-KeepsRuns (note_control sha256 c action from to []) (λ _. pure [])
        (note_control-KeepsRuns action from to []) (λ _ s a h. refl)

  control_pause-RunEdge :
      (st : RunState) (s : Store) (x : List Effect)
      → run.state ≡ st
      → IsKeyed (run_at c.run_id) s.runs
      → find (run_at c.run_id) s.runs ≡ some run
      → (control_pause sha256 c run s).0 ≡ ok x
      → (to : RunState) × RunEdge pause st to × At c.run_id to (control_pause sha256 c run s).1
  unfolding control_pause
  control_pause-RunEdge RunState.running s x e u found h =
      rw (control_pause, e)
        (
          RunState.pausing,
          pauses,
          move_run c run RunState.pausing (intent_patch (some "pause")) "dag.invalid_run_state" _
              (noted "pause" "running" "pausing") RunState.running s x e u found
              (rw (control_pause, e) at h),
        )
  control_pause-RunEdge RunState.pausing s x e u found h =
      let (r, there, state) =
        affirmed "pause" _ (noted "pause" "pausing" "pausing") s x u found
          (rw (control_pause, e) at h) in
      rw (control_pause, e) (RunState.pausing, still_pausing, (r, there, state ∙ e))
  control_pause-RunEdge RunState.paused s x e u found h =
      let (r, there, state) =
        affirmed "pause" _ (noted "pause" "paused" "paused") s x u found
          (rw (control_pause, e) at h) in
      rw (control_pause, e) (RunState.paused, still_paused, (r, there, state ∙ e))
  control_pause-RunEdge RunState.cancelling s x e u found h =
      absurd (cc (rw (control_pause, e) at h))
  control_pause-RunEdge RunState.succeeded s x e u found h =
      absurd (cc (rw (control_pause, e) at h))
  control_pause-RunEdge RunState.failed s x e u found h = absurd (cc (rw (control_pause, e) at h))
  control_pause-RunEdge RunState.cancelled s x e u found h =
      absurd (cc (rw (control_pause, e) at h))
  control_pause-RunEdge (RunState.other t) s x e u found h =
      absurd (cc (rw (control_pause, e) at h))

  control_resume-RunEdge :
      (st : RunState) (s : Store) (x : List Effect)
      → run.state ≡ st
      → IsKeyed (run_at c.run_id) s.runs
      → find (run_at c.run_id) s.runs ≡ some run
      → (control_resume sha256 c run s).0 ≡ ok x
      → (to : RunState) × RunEdge resume st to × At c.run_id to (control_resume sha256 c run s).1
  unfolding control_resume
  control_resume-RunEdge RunState.paused s x e u found h =
      rw (control_resume, e)
        (
          RunState.running,
          resumes,
          move_run c run RunState.running (intent_patch none) "dag.invalid_run_state" _
              (noted "resume" "paused" "running") RunState.paused s x e u found
              (rw (control_resume, e) at h),
        )
  control_resume-RunEdge RunState.running s x e u found h =
      absurd (cc (rw (control_resume, e) at h))
  control_resume-RunEdge RunState.pausing s x e u found h =
      absurd (cc (rw (control_resume, e) at h))
  control_resume-RunEdge RunState.cancelling s x e u found h =
      absurd (cc (rw (control_resume, e) at h))
  control_resume-RunEdge RunState.succeeded s x e u found h =
      absurd (cc (rw (control_resume, e) at h))
  control_resume-RunEdge RunState.failed s x e u found h = absurd (cc (rw (control_resume, e) at h))
  control_resume-RunEdge RunState.cancelled s x e u found h =
      absurd (cc (rw (control_resume, e) at h))
  control_resume-RunEdge (RunState.other t) s x e u found h =
      absurd (cc (rw (control_resume, e) at h))

  cancel_one-KeepsRuns :
      (event_id : String) (t : TaskRow) → KeepsRuns (cancel_one sha256 c event_id t)
  unfolding cancel_one
  cancel_one-KeepsRuns event_id t s a h =
      elim (Bool-cases (is_state running t || task_is_terminal t.state)) [
        | inl y ↦ rw (cancel_one, y) refl
        | inr n ↦
            rw (cancel_one, n)
              (>>=-KeepsRuns
                (cas_task_state c.run_id t.task_id t.state t.version cancelled fresh_patch c.stamp)
                _
                (λ s cas ran.
                  ap (λ t. t.runs)
                    (cas_task_state-inv c.run_id t.task_id t.state t.version cancelled fresh_patch
                      c.stamp s cas ran).1)
                (λ cas. on_done-KeepsRuns cas [] _ (
                  >>=-KeepsRuns (write_event sha256 event_id c.run_id _) (λ v. pure _)
                    (write_event-KeepsRuns sha256 event_id c.run_id _) (λ v s a h. refl)))
                s a (rw (cancel_one, n) at h))
      ]

  cancel_each-KeepsRuns : (k : ℕ) (ts : List TaskRow) → KeepsRuns (cancel_each sha256 c k ts)
  unfolding cancel_each
  cancel_each-KeepsRuns k [] = λ s a h. refl
  cancel_each-KeepsRuns k (t ∷ ts) =
      >>=-KeepsRuns (cancel_one sha256 c (c.task_ids k) t) _ (cancel_one-KeepsRuns (c.task_ids k) t)
        (λ here.
          >>=-KeepsRuns (cancel_each sha256 c (suc k) ts) (λ rest. pure (here ++ rest))
            (cancel_each-KeepsRuns (suc k) ts) (λ rest s a h. refl))

  stop_tasks-KeepsRuns : KeepsRuns (stop_tasks sha256 c run)
  unfolding stop_tasks
  stop_tasks-KeepsRuns =
      >>=-KeepsRuns (find_tasks c.run_id) _
        (λ s rows ran. ap (λ t. t.runs) (find_tasks-inv c.run_id s rows ran).1)
        (λ tasks.
          >>=-KeepsRuns (cancel_each sha256 c 0 tasks) _ (cancel_each-KeepsRuns 0 tasks)
            (λ effected.
              >>=-KeepsRuns (note_control sha256 c "stop" _ "cancelling" []) _
                (note_control-KeepsRuns "stop" _ "cancelling" []) (λ v s a h. refl)))

  cancelling :
      (st : RunState) (s : Store) (x : List Effect)
      → run.state ≡ st
      → IsKeyed (run_at c.run_id) s.runs
      → find (run_at c.run_id) s.runs ≡ some run
      → let m : Action (List Effect) =
          cas_run_state c.run_id st run.version RunState.cancelling
            (intent_patch (some "stop"))
            c.stamp
          >>= λ cas. must cas "dag.invalid_run_state" (stop_tasks sha256 c run) in
        (m s).0 ≡ ok x → At c.run_id RunState.cancelling (m s).1
  cancelling =
      move_run c run RunState.cancelling (intent_patch (some "stop")) "dag.invalid_run_state"
        (stop_tasks sha256 c run) stop_tasks-KeepsRuns

  stop_from :
      (st : RunState) (s : Store) (x : List Effect)
      → run.state ≡ st
      → IsKeyed (run_at c.run_id) s.runs
      → find (run_at c.run_id) s.runs ≡ some run
      → let m : Action (List Effect) =
          if run_is_terminal st
          then throw (control_error "dag.invalid_run_state")
          else begin_stop sha256 st c run (stop_tasks sha256 c run) in
        (m s).0 ≡ ok x → (to : RunState) × RunEdge stop st to × At c.run_id to (m s).1
  stop_from RunState.cancelling s x e u found h =
      let (r, there, state) =
        affirmed "stop" (stop_tasks sha256 c run) stop_tasks-KeepsRuns s x u found h in
      (RunState.cancelling, stops refl, (r, there, state ∙ e))
  stop_from RunState.running s x e u found h =
      (RunState.cancelling, stops refl, cancelling RunState.running s x e u found h)
  stop_from RunState.pausing s x e u found h =
      (RunState.cancelling, stops refl, cancelling RunState.pausing s x e u found h)
  stop_from RunState.paused s x e u found h =
      (RunState.cancelling, stops refl, cancelling RunState.paused s x e u found h)
  stop_from (RunState.other t) s x e u found h =
      (RunState.cancelling, stops refl, cancelling (RunState.other t) s x e u found h)
  stop_from RunState.succeeded s x e u found h = absurd (cc)
  stop_from RunState.failed s x e u found h = absurd (cc)
  stop_from RunState.cancelled s x e u found h = absurd (cc)

  -- The whole of it on a run as it was read.
  control_run-RunEdge :
      (action : RunAction) (s : Store) (x : List Effect)
      → IsKeyed (run_at c.run_id) s.runs
      → find (run_at c.run_id) s.runs ≡ some run
      → (control_run sha256 action c run s).0 ≡ ok x
      → (to : RunState) × RunEdge action run.state to
        × At c.run_id to (control_run sha256 action c run s).1
  unfolding control_run control_stop
  control_run-RunEdge pause s x u found h = control_pause-RunEdge run.state s x refl u found h
  control_run-RunEdge resume s x u found h = control_resume-RunEdge run.state s x refl u found h
  control_run-RunEdge stop s x u found h = stop_from run.state s x refl u found h

abbrev state_told : Result Controlled → Option RunState
state_told (ok x) = x.run_state
state_told (err e) = none

-- The run moved along an edge of the diagram, and its new state is told.
abbrev pub RunMoved : RunAction → ControlCall → Store → Store → Option RunState → Type 0
RunMoved action c s t told =
    (run : RunRow) × (run' : RunRow) × (find (run_at c.run_id) s.runs ≡ some run)
    × (find (run_at c.run_id) t.runs ≡ some run')
    × RunEdge action run.state run'.state
    × (told ≡ some run'.state)

module _ (sha256 : String → String) (action : RunAction) (c : ControlCall) where
  abbrev body : Action (List Effect)
  body = require_run c.run_id >>= control_run sha256 action c

  body-RunEdge :
      (s : Store) (x : List Effect)
      → IsKeyed (run_at c.run_id) s.runs
      → (body s).0 ≡ ok x
      → (run : RunRow) × (find (run_at c.run_id) s.runs ≡ some run)
        × ((to : RunState) × RunEdge action run.state to × At c.run_id to (body s).1)
  body-RunEdge s x u h = elim (require_run-inv c.run_id s) [
    | inl (e, same) ↦ absurd (cc (rw same at h))
    | inr (run, same, found) ↦
        (run, found, rw same (control_run-RunEdge sha256 c run action s x u found (rw same at h)))
  ]

  -- The report tells the state that the run has.
  report_lem :
      (effected : List Effect) (st : RunState) (s : Store) (x : Controlled)
      → At c.run_id st s
      → (tell_state sha256 c effected s).0 ≡ ok x
      → ((tell_state sha256 c effected s).1 ≡ s) × (x.run_state ≡ some st)
  report_lem effected st s x (r, found, state) h = elim (find_run-inv c.run_id s) [
    | inl (e, same) ↦ absurd (cc (rw same at h))
    | inr same ↦
        let told : ok (record { run_state = some r.state; effected = effected }) ≡ ok x =
          rw (same, found) at h in
        (rw same refl, sym (ap state_told told) ∙ ap some state)
  ]

  -- Where at most one row has the id of the run, a control of a run that returned found the run,
  -- moved it along an edge of the diagram: running to pausing by a pause, which also leaves a
  -- pausing or paused run where it is, paused to running by a resume, any state that is not terminal
  -- to cancelling by a stop; and it tells the state that the run then has.
  pub control-RunEdge :
      (s : Store) (x : Controlled)
      → IsKeyed (run_at c.run_id) s.runs
      → (control sha256 (on_run action) c s).0 ≡ ok x
      → RunMoved action c s (control sha256 (on_run action) c s).1 x.run_state
  unfolding control
  control-RunEdge s x u h = elim (require_run-inv c.run_id s) [
    | inl (e, same) ↦ absurd (cc (rw (control, same) at h))
    | inr (r, same, found) ↦ elim (Bool-cases (run_is_terminal r.state)) [
      | inl y ↦ absurd (cc (rw (control, same, y) at h))
      | inr n ↦
          let all : Action Controlled = tx body >>= tell_state sha256 c in
          let h' : (all s).0 ≡ ok x = rw (control, same, n) at h in
          let end_ : (control sha256 (on_run action) c s).1 ≡ (all s).1 =
            rw (control, same, n) refl in
          let (effected, ran, went, left) = >>=-eq-ok (tx body) (tell_state sha256 c) s h' in
          let (inner, tx_left) = tx-eq-ok body s effected ran in
          let (run, found', (to, edge, (r', there, state))) =
            body-RunEdge (record s { active_tx = true }) effected u inner in
          let t = (tx body s).1 in
          let there' : find (run_at c.run_id) t.runs ≡ some r' = rw tx_left there in
          let (stays, told) = report_lem effected to t x (r', there', state) went in
          let last : (control sha256 (on_run action) c s).1 ≡ t = end_ ∙ (left ∙ stays) in
          rw last (run, r', found', there', rw (← state) at edge, told ∙ ap some (sym state))
    ]
  ]
