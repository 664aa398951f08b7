-- ===== src/Queue/Bounds.antt =====
-- The capacity and the removals of the queue of lib/bounded-queue.js.
use dsh_dag_orchestrator.Prelude.{
  ℕ, ◌+◌, ◌≤◌, ◌≡◌, refl, Bool, true, false, List, [], ◌∷◌, ◌++◌, String, arith, length,
  length-append, ◌==◌, eq_iff, All, if◌then◌else◌, Bool-cases, inl, inr, ap,
}
use dsh_dag_orchestrator.Queue.{
  QueueEntry, BoundedQueue, new_queue, made, try_enqueue, drain, remove_first, remove,
}

-- What every queue that the constructor made keeps: a positive capacity, and no more entries.
pub record IsBounded (q : BoundedQueue) : Type 0 where
  pub positive : 1 ≤ q.cap
  pub within : length q.entries ≤ q.cap

pub new_queue-IsBounded : (n : ℕ) (q : BoundedQueue) → new_queue n ≡ made q → IsBounded q
unfolding new_queue
new_queue-IsBounded n q h = ground arith

pub try_enqueue-IsBounded :
    (e : QueueEntry) (q : BoundedQueue) → IsBounded q → IsBounded (try_enqueue e q).0
unfolding try_enqueue
try_enqueue-IsBounded e q v = ground (arith, length-append q.entries (e ∷ []))

length-remove_first :
    (id : String) (es : List QueueEntry)
    → length (remove_first id es).0 + (if (remove_first id es).1 then 1 else 0) ≡ length es
unfolding remove_first
length-remove_first id [] = omega arith
length-remove_first id (e ∷ es) = ground (arith, length-remove_first id es)

pub remove-IsBounded : (id : String) (q : BoundedQueue) → IsBounded q → IsBounded (remove id q).0
unfolding remove
remove-IsBounded id q v = ground (arith, length-remove_first id q.entries)

pub drain-IsBounded : (q : BoundedQueue) → IsBounded q → IsBounded (drain q).0
unfolding drain
drain-IsBounded q v = ground arith

-- The calls that a scheduler makes of one queue.
pub data Call : Type 0 where
  enqueue : QueueEntry → Call
  withdraw : String → Call
  take_all : Call

unfoldable pub call : Call → BoundedQueue → BoundedQueue
call (enqueue e) q = (try_enqueue e q).0
call (withdraw id) q = (remove id q).0
call take_all q = (drain q).0

unfoldable pub calls : List Call → BoundedQueue → BoundedQueue
calls [] q = q
calls (c ∷ cs) q = calls cs (call c q)

call-IsBounded : (c : Call) (q : BoundedQueue) → IsBounded q → IsBounded (call c q)
unfolding call
call-IsBounded (enqueue e) q v = try_enqueue-IsBounded e q v
call-IsBounded (withdraw id) q v = remove-IsBounded id q v
call-IsBounded take_all q v = drain-IsBounded q v

calls-IsBounded : (cs : List Call) (q : BoundedQueue) → IsBounded q → IsBounded (calls cs q)
unfolding calls
calls-IsBounded [] q v = v
calls-IsBounded (c ∷ cs) q v = calls-IsBounded cs (call c q) (call-IsBounded c q v)

-- After any calls at all, a queue that the constructor made holds no more entries than its capacity,
-- which is positive.
pub made-IsBounded :
    (n : ℕ) (q : BoundedQueue) (cs : List Call) → new_queue n ≡ made q → IsBounded (calls cs q)
made-IsBounded n q cs h = calls-IsBounded cs q (new_queue-IsBounded n q h)

-- How `remove` took the list apart: `x` is the first entry of the task.
pub record Removed (id : String) (es kept : List QueueEntry) : Type 0 where
  pub before : List QueueEntry
  pub entry : QueueEntry
  pub after : List QueueEntry
  pub split : es ≡ before ++ entry ∷ after
  pub named : entry.task_id ≡ id
  pub first : All (λ e. e.task_id == id ≡ false) before
  pub left : kept ≡ before ++ after

abbrev pub RemoveOutcome : String → List QueueEntry → List QueueEntry × Bool → Type 0
RemoveOutcome id es (kept, true) = Removed id es kept
RemoveOutcome id es (kept, false) = All (λ e. e.task_id == id ≡ false) es × (kept ≡ es)

Removed-cons :
    (id : String) (e : QueueEntry) {es kept : List QueueEntry}
    → e.task_id == id ≡ false
    → Removed id es kept
    → Removed id (e ∷ es) (e ∷ kept)
Removed-cons id e other r = record {
  before = e ∷ r.before;
  entry = r.entry;
  after = r.after;
  split = ap (λ l. e ∷ l) r.split;
  named = r.named;
  first = (other, r.first);
  left = ap (λ l. e ∷ l) r.left;
}

outcome-cons :
    (id : String) (e : QueueEntry) (es : List QueueEntry) (r : List QueueEntry × Bool)
    → e.task_id == id ≡ false
    → RemoveOutcome id es r
    → RemoveOutcome id (e ∷ es) (e ∷ r.0, r.1)
outcome-cons id e es (kept, true) other r = Removed-cons id e other r
outcome-cons id e es (kept, false) other r = ((other, r.0), ap (λ l. e ∷ l) r.1)

remove_first-outcome :
    (id : String) (es : List QueueEntry) → RemoveOutcome id es (remove_first id es)
unfolding remove_first
remove_first-outcome id [] = (tt, refl)
remove_first-outcome id (e ∷ es) = elim (Bool-cases (e.task_id == id)) [
  | inl same ↦ rw same (record {
    before = [];
    entry = e;
    after = es;
    split = refl;
    named = (eq_iff e.task_id id).0 same;
    first = tt;
    left = refl;
  })
  | inr other ↦
      rw other (outcome-cons id e es (remove_first id es) other (remove_first-outcome id es))
]

-- A removal answers true exactly where it took out the first entry of the task, and false where no
-- entry has that task and the entries are unchanged.
pub remove_lem :
    (id : String) (q : BoundedQueue)
    → RemoveOutcome id q.entries ((remove id q).0.entries, (remove id q).1)
unfolding remove
remove_lem id q = remove_first-outcome id q.entries
