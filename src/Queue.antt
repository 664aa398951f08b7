-- ===== src/Queue.antt =====
-- lib/bounded-queue.js: the ready queue of one tick, bounded by the run's `queueCapacity`.
-- The private fields `#entries` and `#cap` are the fields of the record; a method that changes them
-- returns the new queue.
pub mod Order
pub mod Bounds
mod Witnesses
use dsh_dag_orchestrator.Prelude.{
  ℕ, ◌+◌, ◌-◌, ◌≤◌, Bool, true, false, not, ◌&&◌, List, [], ◌∷◌, ◌++◌, Option, none, some, String,
  ◌==◌, ltb, leb, nat_eq, if◌then◌else◌, length,
}
use dsh_dag_orchestrator.Prelude.Int.{ℤ, pos, negsuc, sub_ℕ, ◌-ℤ◌, int_eq, at_most_zero}
use dsh_dag_orchestrator.Prelude.Texts.{text_le}
use dsh_dag_orchestrator.Prelude.Sort.{sort}

pub record QueueEntry : Type 0 where
  pub task_id : String
  pub human_unblocked : Bool
  pub critical_path_depth : ℕ
  pub priority : ℤ
  pub ready_at : ℕ

abbrev bool_eq : Bool → Bool → Bool
bool_eq true b = b
bool_eq false b = not b

-- Negative where `a` ranks before `b`. `s < t` on texts is "not t <= s".
unfoldable pub compare_queue_entries : QueueEntry → QueueEntry → ℤ
compare_queue_entries a b =
    if not (bool_eq a.human_unblocked b.human_unblocked)
    then (if a.human_unblocked then negsuc 0 else pos 1)
    else if not (nat_eq a.critical_path_depth b.critical_path_depth)
    then sub_ℕ b.critical_path_depth a.critical_path_depth
    else if not (int_eq a.priority b.priority)
    then b.priority -ℤ a.priority
    else if not (nat_eq a.ready_at b.ready_at)
    then sub_ℕ a.ready_at b.ready_at
    else if not (text_le b.task_id a.task_id)
    then negsuc 0
    else if not (text_le a.task_id b.task_id)
    then pos 1
    else pos 0

-- The test by which the sort keeps `a` in front of `b`.
unfoldable pub ranks_le : QueueEntry → QueueEntry → Bool
unfolding compare_queue_entries
ranks_le a b = at_most_zero (compare_queue_entries a b)

pub record BoundedQueue : Type 0 where
  pub entries : List QueueEntry
  pub cap : ℕ

pub data QueueError : Type 0 where
  capacity_not_positive : ℕ → QueueError

pub data Constructed : Type 0 where
  made : BoundedQueue → Constructed
  threw : QueueError → Constructed

-- The constructor throws below 1. That the capacity is an integer is its type here.
unfoldable pub new_queue : ℕ → Constructed
new_queue capacity =
    if ltb capacity 1
    then threw (capacity_not_positive capacity)
    else made (record { entries = []; cap = capacity })

unfoldable pub size : BoundedQueue → ℕ
size q = length q.entries

unfoldable pub is_empty : BoundedQueue → Bool
is_empty q = nat_eq (length q.entries) 0

unfoldable pub try_enqueue : QueueEntry → BoundedQueue → BoundedQueue × Bool
try_enqueue entry q =
    if leb q.cap (length q.entries)
    then (q, false)
    else (record q { entries = q.entries ++ entry ∷ [] }, true)

abbrev head? : List QueueEntry → Option QueueEntry
head? [] = none
head? (e ∷ es) = some e

unfoldable pub peek : BoundedQueue → Option QueueEntry
unfolding sort ranks_le
peek q = if nat_eq (length q.entries) 0 then none else head? (sort ranks_le q.entries)

unfoldable pub drain : BoundedQueue → BoundedQueue × List QueueEntry
unfolding sort ranks_le
drain q = (record q { entries = [] }, sort ranks_le q.entries)

-- `findIndex` and `splice`: the first entry of that task goes.
unfoldable pub remove_first : String → List QueueEntry → List QueueEntry × Bool
remove_first id [] = ([], false)
remove_first id (e ∷ es) =
    let rest = remove_first id es in if e.task_id == id then (es, true) else (e ∷ rest.0, rest.1)

unfoldable pub remove : String → BoundedQueue → BoundedQueue × Bool
unfolding remove_first
remove id q = let (kept, found) = remove_first id q.entries in (record q { entries = kept }, found)
