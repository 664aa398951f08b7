-- ===== src/Ready/Witnesses.antt =====
-- The theorems on lib/ready-evaluator.js at a concrete snapshot.
use mathlib.Core.List.{Memᴰ}
use dsh_dag_orchestrator.Prelude.{◌≡◌, refl, ◌↔◌, inl, List, [], ◌∷◌, none, some}
use dsh_dag_orchestrator.States.{pending, failed, blocked}
use dsh_dag_orchestrator.Ready.{
  on_succeeded, on_completed, DependencyEdge, SpecTask, TaskView, Options, BlockedReason,
  on_upstream, upstream_failed, satisfied, upstream_satisfies, view_of, edge_verdict,
  is_ready_source, evaluate_ready,
}
use dsh_dag_orchestrator.Ready.Edges.{Satisfies, upstream_satisfies_iff}
use dsh_dag_orchestrator.Ready.Sound.{IsReady}
use dsh_dag_orchestrator.Ready.Listed.{Listed, evaluate_ready_sound, evaluate_ready_complete}
use dsh_dag_orchestrator.Ready.Blocked.{
  IsBlocked, evaluate_ready-IsBlocked, IsParked, parked_untouched,
}

abbrev plain_options : Options
plain_options = record { now = 10; output_resolver = none; gate_evaluator = none }

abbrev build_task : SpecTask
build_task = record { id = "build"; depends_on = []; inputs = [] }

abbrev on_build : DependencyEdge
on_build = record { task_id = "build"; condition = on_succeeded; gate = none }

abbrev ship_task : SpecTask
ship_task = record { id = "ship"; depends_on = on_build ∷ []; inputs = [] }

abbrev build_failed : TaskView
build_failed = record {
  task_id = "build";
  state = failed;
  retry_not_before_ms = none;
  blocked_reason_code = none;
}

abbrev build_pending : TaskView
build_pending = record {
  task_id = "build";
  state = pending;
  retry_not_before_ms = none;
  blocked_reason_code = none;
}

abbrev ship_pending : TaskView
ship_pending = record {
  task_id = "ship";
  state = pending;
  retry_not_before_ms = none;
  blocked_reason_code = none;
}

abbrev ship_parked : TaskView
ship_parked = record {
  task_id = "ship";
  state = blocked;
  retry_not_before_ms = none;
  blocked_reason_code = some "approval_pending";
}

abbrev tasks : List SpecTask
tasks = build_task ∷ ship_task ∷ []

abbrev at_start : List TaskView
at_start = build_pending ∷ ship_pending ∷ []

abbrev after_failure : List TaskView
after_failure = build_failed ∷ ship_pending ∷ []

abbrev parked : List TaskView
parked = build_failed ∷ ship_parked ∷ []

upstream_satisfies_iff_example :
    (upstream_satisfies failed on_completed ≡ satisfied) ↔ Satisfies failed on_completed
upstream_satisfies_iff_example = upstream_satisfies_iff failed on_completed

evaluate_ready_sound_example : Listed (IsReady plain_options at_start) tasks "build"
unfolding evaluate_ready view_of
evaluate_ready_sound_example =
    evaluate_ready_sound plain_options at_start tasks "build" (Memᴰ.head refl)

build-IsReady : IsReady plain_options at_start build_task
unfolding view_of is_ready_source
build-IsReady = record {
  view = build_pending;
  found = refl;
  source = refl;
  edges = tt;
  inputs = tt;
}

evaluate_ready_complete_example :
    Memᴰ "build" (evaluate_ready plain_options at_start tasks).ready_task_ids
evaluate_ready_complete_example =
    evaluate_ready_complete plain_options at_start tasks build_task (Memᴰ.head refl) build-IsReady

evaluate_ready-IsBlocked_example :
    Listed
      (IsBlocked plain_options after_failure (on_upstream upstream_failed "build"))
      tasks
      "ship"
unfolding evaluate_ready view_of edge_verdict
evaluate_ready-IsBlocked_example =
    evaluate_ready-IsBlocked plain_options after_failure tasks "ship"
      (on_upstream upstream_failed "build") (Memᴰ.head refl)

ship-IsParked : IsParked ship_parked
ship-IsParked = (refl, inl refl)

parked_untouched_example :
    (¬ Memᴰ "ship" (evaluate_ready plain_options parked tasks).ready_task_ids)
    × ((reason : BlockedReason)
        → ¬ Memᴰ ("ship", reason) (evaluate_ready plain_options parked tasks).blocked_tasks)
unfolding view_of
parked_untouched_example =
    parked_untouched plain_options parked tasks "ship" ship_parked refl ship-IsParked
