-- ===== src/Ready.antt =====
-- lib/ready-evaluator.js: which tasks of a run may start now, and why the others may not. The
-- evaluation is a pure function of a snapshot, the spec and the seams that the caller wires.
pub mod Gate
pub mod Edges
pub mod Sound
pub mod Listed
pub mod Blocked
mod Witnesses
pub use Gate.*
use dsh_dag_orchestrator.Prelude.{
  ℕ, Bool, true, false, not, ◌&&◌, ◌||◌, List, [], ◌∷◌, ◌++◌, Option, none, some, String, ◌==◌, leb,
  if◌then◌else◌, find, filter,
}
use dsh_dag_orchestrator.States.{
  TaskState, pending, ready, queued, running, succeeded, failed, retry_wait, blocked, cancelled,
  other,
}

pub data Condition : Type 0 where
  on_succeeded on_completed : Condition

pub record DependencyEdge : Type 0 where
  pub task_id : String
  pub condition : Condition
  pub gate : Option DependencyGate

-- What the evaluator reads of a spec's task. Absent lists are empty ones.
pub record SpecTask : Type 0 where
  pub id : String
  pub depends_on : List DependencyEdge
  pub inputs : List String

pub record TaskView : Type 0 where
  pub task_id : String
  pub state : TaskState
  pub retry_not_before_ms : Option ℕ
  pub blocked_reason_code : Option String

pub record Options : Type 0 where
  pub now : ℕ
  pub output_resolver : Option (String → Bool)
  pub gate_evaluator : Option (DependencyGate → Bool)

-- READY_BLOCKED_CODES
pub data BlockedCode : Type 0 where
  upstream_blocked upstream_failed upstream_cancelled upstream_not_succeeded : BlockedCode
  output_missing dependency_gate_not_met dependency_gate_evaluator_unavailable : BlockedCode

-- The code, with the part of its details that a later decision could read.
pub data BlockedReason : Type 0 where
  on_upstream : BlockedCode → String → BlockedReason
  on_inputs : BlockedCode → List String → BlockedReason

unfoldable pub reason_code : BlockedReason → BlockedCode
reason_code (on_upstream c u) = c
reason_code (on_inputs c refs) = c

pub data DepVerdict : Type 0 where
  satisfied waiting : DepVerdict
  blocks : BlockedCode → DepVerdict

abbrev pub in_progress : TaskState → Bool
in_progress pending = true
in_progress ready = true
in_progress queued = true
in_progress running = true
in_progress retry_wait = true
in_progress _ = false

abbrev pub completed_set : TaskState → Bool
completed_set succeeded = true
completed_set failed = true
completed_set cancelled = true
completed_set _ = false

abbrev pub is_succeeded : TaskState → Bool
is_succeeded succeeded = true
is_succeeded _ = false

abbrev pub is_blocked : TaskState → Bool
is_blocked blocked = true
is_blocked _ = false

abbrev pub is_failed : TaskState → Bool
is_failed failed = true
is_failed _ = false

abbrev pub is_cancelled : TaskState → Bool
is_cancelled cancelled = true
is_cancelled _ = false

unfoldable pub upstream_satisfies : TaskState → Condition → DepVerdict
upstream_satisfies s on_succeeded =
    if is_succeeded s
    then satisfied
    else if in_progress s
    then waiting
    else if is_blocked s
    then blocks upstream_blocked
    else if is_failed s
    then blocks upstream_failed
    else if is_cancelled s
    then blocks upstream_cancelled
    else blocks upstream_not_succeeded
upstream_satisfies s on_completed =
    if completed_set s
    then satisfied
    else if in_progress s
    then waiting
    else if is_blocked s
    then blocks upstream_blocked
    else blocks upstream_not_succeeded

abbrev pub code_is : Option String → String → Bool
code_is none c = false
code_is (some d) c = d == c

source_in : TaskState → TaskView → ℕ → Bool
source_in pending v now = true
source_in blocked v now =
    not (code_is v.blocked_reason_code "approval_pending")
    && not (code_is v.blocked_reason_code "merge_conflicted")
source_in retry_wait v now = elim v.retry_not_before_ms [ none ↦ false | some t ↦ leb t now ]
source_in _ v now = false

unfoldable pub is_ready_source : TaskView → ℕ → Bool
unfolding source_in
is_ready_source v now = source_in v.state v now

-- `viewById.get(id)`: a later row of the same id replaces an earlier one.
unfoldable pub view_of : List TaskView → String → Option TaskView
view_of [] id = none
view_of (v ∷ vs) id = elim (view_of vs id) [
  | some w ↦ some w
  | none ↦ if v.task_id == id then some v else none
]

-- `stateById.get(id)`
abbrev pub state_of : Option TaskView → Option TaskState
state_of none = none
state_of (some v) = some v.state

-- Where the loop over the edges ends: blocked at an edge, or past the last one, with or without an
-- edge that still waits.
pub data Control : Type 0 where
  control_blocked : BlockedReason → Control
  control_done : Bool → Control

-- What one round of the loop over the tasks adds.
pub data Outcome : Type 0 where
  skipped is_ready : Outcome
  is_blocked_by : BlockedReason → Outcome

pub record ReadyEvaluation : Type 0 where
  pub ready_task_ids : List String
  pub blocked_tasks : List (String × BlockedReason)

abbrev pub add_outcome : String → Outcome → ReadyEvaluation → ReadyEvaluation
add_outcome id skipped r = r
add_outcome id is_ready r = record r { ready_task_ids = id ∷ r.ready_task_ids }
add_outcome id (is_blocked_by reason) r = record r {
  blocked_tasks = (id, reason) ∷ r.blocked_tasks;
}

module _ (opts : Options) where
  -- A satisfied edge's gate: `none` lets the edge pass.
  unfoldable pub gate_block : Option DependencyGate → Option BlockedCode
  gate_block none = none
  gate_block (some g) = elim opts.gate_evaluator [
    | none ↦ some dependency_gate_evaluator_unavailable
    | some evaluate ↦ if evaluate g then none else some dependency_gate_not_met
  ]

  -- One edge, `none` for an upstream task that the snapshot does not have.
  unfoldable pub edge_verdict : Option TaskState → DependencyEdge → DepVerdict
  unfolding gate_block upstream_satisfies
  edge_verdict none dep = blocks upstream_not_succeeded
  edge_verdict (some s) dep = elim (upstream_satisfies s dep.condition) [
    | satisfied ↦ elim (gate_block dep.gate) [ none ↦ satisfied | some c ↦ blocks c ]
    | waiting ↦ waiting
    | blocks c ↦ blocks c
  ]

  -- The loop over `dependsOn`; the flag is `controlWaiting`.
  unfoldable pub control_of : List TaskView → List DependencyEdge → Bool → Control
  control_of views [] w = control_done w
  control_of views (dep ∷ deps) w = elim (edge_verdict (state_of (view_of views dep.task_id)) dep) [
    | blocks c ↦ control_blocked (on_upstream c dep.task_id)
    | waiting ↦ control_of views deps true
    | satisfied ↦ control_of views deps w
  ]

  -- The data gate: the reason to block, if any.
  unfoldable pub inputs_block : List String → Option BlockedReason
  inputs_block [] = none
  inputs_block (r ∷ rs) = elim opts.output_resolver [
    | none ↦ some (on_inputs output_missing (r ∷ rs))
    | some present ↦ elim (filter (λ ref. not (present ref)) (r ∷ rs)) [
      | [] ↦ none
      | m ∷ ms ↦ some (on_inputs output_missing (m ∷ ms))
    ]
  ]

  -- One task of the spec: not an evaluation source, or waiting, is in neither list.
  unfoldable pub outcome_of : List TaskView → SpecTask → Outcome
  unfolding is_ready_source control_of inputs_block
  outcome_of views task = elim (view_of views task.id) [
    | none ↦ skipped
    | some v ↦
        if not (is_ready_source v opts.now)
        then skipped
        else elim (control_of views task.depends_on false) [
          | control_blocked reason ↦ is_blocked_by reason
          | control_done w ↦ if w then skipped else elim (inputs_block task.inputs) [
            | some reason ↦ is_blocked_by reason
            | none ↦ is_ready
          ]
        ]
  ]

  -- The loop over the spec's tasks, in their order.
  unfoldable pub evaluate_ready : List TaskView → List SpecTask → ReadyEvaluation
  unfolding outcome_of
  evaluate_ready views [] = record { ready_task_ids = []; blocked_tasks = [] }
  evaluate_ready views (task ∷ tasks) =
      add_outcome task.id (outcome_of views task) (evaluate_ready views tasks)
