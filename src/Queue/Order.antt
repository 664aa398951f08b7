-- ===== src/Queue/Order.antt =====
-- The order of the queue of lib/bounded-queue.js, as a composition of its five levels.
use mathlib.Core.List.{Perm}
use dsh_dag_orchestrator.Prelude.{
  ℕ, [], ◌≡◌, refl, ◌∙◌, ap, sym, Bool, true, not, arith, if◌then◌else◌, String-set,
}
use dsh_dag_orchestrator.Prelude.Int.{ℤ, pos, negsuc, sub_ℕ, ◌-ℤ◌, at_most_zero}
use dsh_dag_orchestrator.Prelude.Comparators.{
  IsComparator, is_zero, or_else, or_else-IsComparator, or_else_tie, comparator-IsOrder,
}
use dsh_dag_orchestrator.Prelude.Sort.{IsOrder, IsSorted, sort-perm, sort-IsSorted, sort-eq_of_perm}
use dsh_dag_orchestrator.Prelude.Texts.{text_le, text_le-IsOrder, text_le_anti}
use dsh_dag_orchestrator.Queue.{
  QueueEntry, BoundedQueue, compare_queue_entries, ranks_le, drain, bool_eq,
}

-- The five levels, each as a comparator of its own.
abbrev by_human : QueueEntry → QueueEntry → ℤ
by_human a b =
    if bool_eq a.human_unblocked b.human_unblocked
    then pos 0
    else if a.human_unblocked
    then negsuc 0
    else pos 1

abbrev by_depth : QueueEntry → QueueEntry → ℤ
by_depth a b = sub_ℕ b.critical_path_depth a.critical_path_depth

abbrev by_priority : QueueEntry → QueueEntry → ℤ
by_priority a b = b.priority -ℤ a.priority

abbrev by_ready_at : QueueEntry → QueueEntry → ℤ
by_ready_at a b = sub_ℕ a.ready_at b.ready_at

abbrev by_task_id : QueueEntry → QueueEntry → ℤ
by_task_id a b =
    if not (text_le b.task_id a.task_id)
    then negsuc 0
    else if not (text_le a.task_id b.task_id)
    then pos 1
    else pos 0

by_human-IsComparator : IsComparator by_human
by_human-IsComparator = record { flip = λ a b. ground arith; trans = λ a b c h k. ground arith }

by_depth-IsComparator : IsComparator by_depth
by_depth-IsComparator = record { flip = λ a b. ground arith; trans = λ a b c h k. ground arith }

by_priority-IsComparator : IsComparator by_priority
by_priority-IsComparator = record { flip = λ a b. ground arith; trans = λ a b c h k. ground arith }

by_ready_at-IsComparator : IsComparator by_ready_at
by_ready_at-IsComparator = record { flip = λ a b. ground arith; trans = λ a b c h k. ground arith }

by_task_id-IsComparator : IsComparator by_task_id
by_task_id-IsComparator = record {
  flip = λ a b. ground (arith, text_le-IsOrder.total a.task_id b.task_id);
  trans = λ a b c h k. ground (
    arith,
    text_le-IsOrder.trans a.task_id b.task_id c.task_id,
    text_le-IsOrder.total a.task_id b.task_id,
    text_le-IsOrder.total b.task_id c.task_id,
  );
}

abbrev levels₄ : QueueEntry → QueueEntry → ℤ
levels₄ a b = or_else (by_ready_at a b) (by_task_id a b)

abbrev levels₃ : QueueEntry → QueueEntry → ℤ
levels₃ a b = or_else (by_priority a b) (levels₄ a b)

abbrev levels₂ : QueueEntry → QueueEntry → ℤ
levels₂ a b = or_else (by_depth a b) (levels₃ a b)

abbrev levels : QueueEntry → QueueEntry → ℤ
levels a b = or_else (by_human a b) (levels₂ a b)

levels₄-IsComparator : IsComparator levels₄
levels₄-IsComparator = or_else-IsComparator by_ready_at-IsComparator by_task_id-IsComparator

levels₃-IsComparator : IsComparator levels₃
levels₃-IsComparator = or_else-IsComparator by_priority-IsComparator levels₄-IsComparator

levels₂-IsComparator : IsComparator levels₂
levels₂-IsComparator = or_else-IsComparator by_depth-IsComparator levels₃-IsComparator

levels-IsComparator : IsComparator levels
levels-IsComparator = or_else-IsComparator by_human-IsComparator levels₂-IsComparator

-- A level that is skipped exactly where its difference is zero.
guarded :
    (t : Bool) (d : ℤ) {rest rest' : ℤ}
    → t ≡ is_zero d
    → rest ≡ rest'
    → (if not t then d else rest) ≡ or_else d rest'
unfolding or_else
guarded t d h e = ground arith

human_guarded :
    (a b : QueueEntry) {rest rest' : ℤ}
    → rest ≡ rest'
    → (if not (bool_eq a.human_unblocked b.human_unblocked)
        then (if a.human_unblocked then negsuc 0 else pos 1)
        else rest)
      ≡ or_else (by_human a b) rest'
unfolding or_else
human_guarded a b e = ground arith

compare_queue_entries-levels : (a b : QueueEntry) → compare_queue_entries a b ≡ levels a b
unfolding compare_queue_entries
compare_queue_entries-levels a b = human_guarded a b (
    guarded _ (by_depth a b) (ground arith) (
      guarded _ (by_priority a b) (ground arith)
        (guarded _ (by_ready_at a b) (ground arith) task_id_level)))
  where
    task_id_level :
        (if not (text_le b.task_id a.task_id)
          then negsuc 0
          else if not (text_le a.task_id b.task_id)
          then pos 1
          else pos 0)
        ≡ by_task_id a b
    task_id_level = refl

ranks_le-levels : (a b : QueueEntry) → ranks_le a b ≡ at_most_zero (levels a b)
unfolding ranks_le
ranks_le-levels a b = ap at_most_zero (compare_queue_entries-levels a b)

-- `ranks_le` is a total preorder on the entries.
pub ranks_le-IsOrder : IsOrder ranks_le
ranks_le-IsOrder = record {
  total = λ a b h. ranks_le-levels b a ∙ levels-IsOrder.total a b (sym (ranks_le-levels a b) ∙ h);
  trans = λ a b c h k.
      ranks_le-levels a c
      ∙ levels-IsOrder.trans a b c (sym (ranks_le-levels a b) ∙ h) (sym (ranks_le-levels b c) ∙ k);
}
  where
    levels-IsOrder : IsOrder (λ a b. at_most_zero (levels a b))
    levels-IsOrder = comparator-IsOrder levels-IsComparator

-- Two entries that rank neither behind the other agree in all five keys, so that the order of a
-- drain is total.
pub ranks_le_anti : (a b : QueueEntry) → ranks_le a b ≡ true → ranks_le b a ≡ true → a ≡ b
ranks_le_anti a b h k =
    let t₁ = or_else_tie by_human-IsComparator levels₂-IsComparator a b (at a b h) (at b a k) in
    let t₂ = or_else_tie by_depth-IsComparator levels₃-IsComparator a b t₁.2 t₁.3 in
    let t₃ = or_else_tie by_priority-IsComparator levels₄-IsComparator a b t₂.2 t₂.3 in
    let t₄ = or_else_tie by_ready_at-IsComparator by_task_id-IsComparator a b t₃.2 t₃.3 in
    keys_equal a b t₁.0 t₁.1 (sub_zero _ _ t₂.0 t₂.1) (int_zero a.priority b.priority t₃.0 t₃.1)
      (sub_zero _ _ t₄.0 t₄.1) t₄.2 t₄.3
  where
    at : (x y : QueueEntry) → ranks_le x y ≡ true → at_most_zero (levels x y) ≡ true
    at x y e = sym (ranks_le-levels x y) ∙ e

    sub_zero : (m n : ℕ) → at_most_zero (sub_ℕ m n) ≡ true → at_most_zero (sub_ℕ n m) ≡ true → m ≡ n
    sub_zero m n p q = ground arith

    int_zero : (m n : ℤ) → at_most_zero (n -ℤ m) ≡ true → at_most_zero (m -ℤ n) ≡ true → m ≡ n
    int_zero m n p q = ground arith

    keys_equal :
        (x y : QueueEntry)
        → at_most_zero (by_human x y) ≡ true
        → at_most_zero (by_human y x) ≡ true
        → y.critical_path_depth ≡ x.critical_path_depth
        → x.priority ≡ y.priority
        → x.ready_at ≡ y.ready_at
        → at_most_zero (by_task_id x y) ≡ true
        → at_most_zero (by_task_id y x) ≡ true
        → x ≡ y
    keys_equal x y h h' d p r t t' = ground (
      arith,
      text_le_anti x.task_id y.task_id,
      text_le-IsOrder.total x.task_id y.task_id,
      text_le-IsOrder.total y.task_id x.task_id,
    )

-- A drain empties the queue and keeps its capacity, and hands over every entry exactly once, each in
-- front of all those that it does not rank behind.
pub drain_lem :
    (q : BoundedQueue)
    → ((drain q).0.entries ≡ [])
      × ((drain q).0.cap ≡ q.cap)
      × Perm (drain q).1 q.entries
      × IsSorted ranks_le (drain q).1
unfolding drain
drain_lem q =
    (refl, refl, sort-perm ranks_le q.entries, sort-IsSorted ranks_le ranks_le-IsOrder q.entries)

QueueEntry-set : IsSet QueueEntry
QueueEntry-set = hlevel String-set

-- Two queues that hold the same entries, in whatever order they were enqueued, drain alike.
pub drain-eq_of_perm : (q r : BoundedQueue) → Perm q.entries r.entries → (drain q).1 ≡ (drain r).1
unfolding drain
drain-eq_of_perm q r p =
    sort-eq_of_perm ranks_le ranks_le-IsOrder ranks_le_anti QueueEntry-set q.entries r.entries p
