-- ===== src/Queue/Witnesses.antt =====
-- The theorems on lib/bounded-queue.js at concrete queues.
use mathlib.Core.List.{Perm}
use mathlib.Core.List.Perm
use dsh_dag_orchestrator.Prelude.{◌≡◌, refl, true, false, [], ◌∷◌}
use dsh_dag_orchestrator.Prelude.Int.{pos}
use dsh_dag_orchestrator.Prelude.Sort.{IsSorted}
use dsh_dag_orchestrator.Prelude.Texts.{text_le}
use dsh_dag_orchestrator.Queue.{QueueEntry, BoundedQueue, new_queue, drain, remove, ranks_le}
use dsh_dag_orchestrator.Queue.Order.{ranks_le_anti, drain_lem, drain-eq_of_perm}
use dsh_dag_orchestrator.Queue.Bounds.{
  IsBounded, enqueue, withdraw, calls, made-IsBounded, RemoveOutcome, remove_lem,
}

abbrev build : QueueEntry
build = record {
  task_id = "build";
  human_unblocked = false;
  critical_path_depth = 2;
  priority = pos 0;
  ready_at = 5;
}

abbrev docs : QueueEntry
docs = record {
  task_id = "docs";
  human_unblocked = true;
  critical_path_depth = 0;
  priority = pos 1;
  ready_at = 7;
}

abbrev one_way : BoundedQueue
one_way = record { entries = build ∷ docs ∷ []; cap = 2 }

abbrev other_way : BoundedQueue
other_way = record { entries = docs ∷ build ∷ []; cap = 2 }

abbrev fresh : BoundedQueue
fresh = record { entries = []; cap = 2 }

drain_lem_example :
    ((drain one_way).0.entries ≡ [])
    × ((drain one_way).0.cap ≡ one_way.cap)
    × Perm (drain one_way).1 one_way.entries
    × IsSorted ranks_le (drain one_way).1
drain_lem_example = drain_lem one_way

drain-eq_of_perm_example : (drain one_way).1 ≡ (drain other_way).1
drain-eq_of_perm_example = drain-eq_of_perm one_way other_way (Perm.swap docs build [])

-- The human-unblocked entry goes first.
drained : (drain one_way).1 ≡ docs ∷ build ∷ []
unfolding drain
drained = refl

ranks_le_anti_example : build ≡ build
unfolding ranks_le text_le
ranks_le_anti_example = ranks_le_anti build build refl refl

made-IsBounded_example :
    IsBounded (calls (enqueue build ∷ enqueue docs ∷ enqueue build ∷ withdraw "docs" ∷ []) fresh)
unfolding new_queue
made-IsBounded_example =
    made-IsBounded 2 fresh (enqueue build ∷ enqueue docs ∷ enqueue build ∷ withdraw "docs" ∷ [])
      refl

remove_lem_example :
    RemoveOutcome "docs" one_way.entries
      ((remove "docs" one_way).0.entries, (remove "docs" one_way).1)
remove_lem_example = remove_lem "docs" one_way
