-- ===== src/Store/Moves/Reading.antt =====
-- The row of a task that is looked up among those of its run.
use mathlib.Core.Path.{subst}
use dsh_dag_orchestrator.Prelude.{
  ◌≡◌, inl, inr, Bool, true, false, List, [], ◌∷◌, some, String, ◌==◌, find, filter, All,
  filter-All, All-weaken, Bool-cases,
}
use dsh_dag_orchestrator.Prelude.Sort.{sort-All}
use dsh_dag_orchestrator.Store.Rows.{TaskRow}
use dsh_dag_orchestrator.Store.Tables.{changes}
use dsh_dag_orchestrator.Store.Tables.Keyed.{IsKeyed, find-holds, rest-none, suc-not-zero}
use dsh_dag_orchestrator.Store.Tasks.{task_at, task_le, tasks_of}
use dsh_dag_orchestrator.Store.Moves.{read_row}

module _ {ℓ} {A : Type ℓ} where
  none-All : (k : A → Bool) (xs : List A) → changes k xs ≡ 0 → All (λ x. k x ≡ false) xs
  none-All k [] h = tt
  none-All k (x ∷ xs) h = elim (Bool-cases (k x)) [
    | inl e ↦ absurd (suc-not-zero (changes k xs) (rw e at h))
    | inr e ↦ (e, none-All k xs (rw e at h))
  ]

  -- Every row with the key is the one that is found under it.
  only_one :
      (k : A → Bool) (xs : List A) → IsKeyed k xs → All (λ x. k x ≡ true → find k xs ≡ some x) xs
  only_one k [] u = tt
  only_one k (x ∷ xs) u = elim (Bool-cases (k x)) [
    | inl e ↦ (
      λ y. rw e,
      All-weaken (λ r n y. absurd (cc)) xs (none-All k xs (rest-none (changes k xs) (rw e at u))),
    )
    | inr e ↦ (λ y. absurd (cc), All-weaken (λ r f y. rw e (f y)) xs (only_one k xs (rw e at u)))
  ]

  All-filter {κ} : (P : A → Type κ) (q : A → Bool) (xs : List A) → All P xs → All P (filter q xs)
  All-filter P q [] a = tt
  All-filter P q (x ∷ xs) a = elim (Bool-cases (q x)) [
    | inl e ↦ rw e (a.0, All-filter P q xs a.1)
    | inr e ↦ rw e (All-filter P q xs a.1)
  ]

  find-All {κ} :
      (P : A → Type κ) (p : A → Bool) (xs : List A) (r : A) → All P xs → find p xs ≡ some r → P r
  find-All P p [] r a h = absurd (cc)
  find-All P p (x ∷ xs) r a h = elim (Bool-cases (p x)) [
    | inl e ↦ (let same : x ≡ r = cc (rw e at h) in subst P same a.0)
    | inr e ↦ find-All P p xs r a.1 (rw e at h)
  ]

-- `store.findTasks(runId).find((t) => t.task_id === taskId)` is the row under the key.
pub read_row-found :
    (run_id task_id : String) (rows : List TaskRow) (row : TaskRow)
    → IsKeyed (task_at run_id task_id) rows
    → read_row task_id (tasks_of run_id rows) ≡ some row
    → find (task_at run_id task_id) rows ≡ some row
unfolding tasks_of
read_row-found run_id task_id rows row u h =
    let ofrun : TaskRow → Bool = λ r. r.run_id == run_id in
    let mine = sort-All task_le _ (filter ofrun rows) (filter-All ofrun rows) in
    let unique =
      sort-All task_le _ (filter ofrun rows)
        (All-filter _ ofrun rows (only_one (task_at run_id task_id) rows u)) in
    let p : TaskRow → Bool = λ r. r.task_id == task_id in
    let found = tasks_of run_id rows in
    let named : row.task_id == task_id ≡ true = find-holds p found row h in
    let run_ : row.run_id == run_id ≡ true = find-All _ p found row mine h in
    find-All _ p found row unique h (rw run_ named)
