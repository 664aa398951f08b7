-- ===== src/Spec/Tasks/Ids.antt =====
-- The ids of a spec that lib/spec-validate.js has nothing against.
use dsh_dag_orchestrator.Prelude.{
  ℕ, suc, ◌≡◌, refl, inl, inr, true, false, ◌||◌, List, [], ◌∷◌, none, some, String, ◌==◌, eq_iff,
  map, Bool-cases, Option-cases, All, All-weaken, append-eq-nil, arith,
}
use dsh_dag_orchestrator.Ready.{DependencyEdge}
use dsh_dag_orchestrator.Spec.{SpecError, TaskSpec}
use dsh_dag_orchestrator.Spec.Graphs.{is_in}
use dsh_dag_orchestrator.Spec.Tasks.{
  Index, check_dependencies, dependency_errors, duplicate_ids, each, index_of, knows,
}

abbrev pub ids_of : List TaskSpec → List String
ids_of = map (λ (t : TaskSpec). t.id)

abbrev pub IsDistinct : List String → Type 0
IsDistinct [] = Unit
IsDistinct (x ∷ xs) = (is_in x xs ≡ false) × IsDistinct xs

-- No error, and no error of any later element.
pub each-All {ℓ} :
    {A : Type ℓ} (f : ℕ → A → List SpecError) (i : ℕ) (xs : List A)
    → each f i xs ≡ []
    → All (λ x. (j : ℕ) × (f j x ≡ [])) xs
each-All f i [] h = tt
each-All f i (x ∷ xs) h =
    let (here, rest) = append-eq-nil (f i x) (each f (suc i) xs) h in
    ((i, here), each-All f (suc i) xs rest)

-- The index knows exactly the ids of the tasks.
pub knows-duplicate_ids :
    (i : ℕ) (tasks : List TaskSpec) (index : Index) (v : String)
    → knows (duplicate_ids i tasks index).1 v ≡ (knows index v || is_in v (ids_of tasks))
unfolding duplicate_ids
knows-duplicate_ids i [] index v = ground arith
knows-duplicate_ids i (t ∷ tasks) index v = elim (Option-cases (index_of index t.id)) [
  | inl e ↦
      let ih = knows-duplicate_ids (suc i) tasks ((t.id, (i, t.id)) ∷ index) v in
      rw (duplicate_ids, e)
        (elim (Bool-cases (t.id == v)) [
          | inl y ↦ rw (ih, y) (ground arith)
          | inr n ↦ rw (ih, n) refl
        ])
  | inr (first, e) ↦
      let ih = knows-duplicate_ids (suc i) tasks index v in
      rw (duplicate_ids, e)
        (elim (Bool-cases (t.id == v)) [
          | inl y ↦
              let same : t.id ≡ v = (eq_iff t.id v).0 y in
              let there : index_of index v ≡ some first = rw (← same) e in rw (ih, there) refl
          | inr n ↦ rw (ih, n) refl
        ])
]

-- Without an error no id was known before, and none comes twice.
pub duplicate_ids-IsDistinct :
    (i : ℕ) (tasks : List TaskSpec) (index : Index)
    → (duplicate_ids i tasks index).0 ≡ []
    → ((v : String) → knows index v ≡ true → is_in v (ids_of tasks) ≡ false)
      × IsDistinct (ids_of tasks)
unfolding duplicate_ids
duplicate_ids-IsDistinct i [] index h = (λ v k. refl, tt)
duplicate_ids-IsDistinct i (t ∷ tasks) index h = elim (Option-cases (index_of index t.id)) [
  | inr (first, e) ↦ absurd (cc (rw (duplicate_ids, e) at h))
  | inl e ↦
      let self : t.id == t.id ≡ true = (eq_iff t.id t.id).1 refl in
      let (fresh, rest) =
        duplicate_ids-IsDistinct (suc i) tasks ((t.id, (i, t.id)) ∷ index)
          (rw (duplicate_ids, e) at h) in
      (
        λ v k. elim (Bool-cases (t.id == v)) [
          | inl y ↦
              let same : t.id ≡ v = (eq_iff t.id v).0 y in
              let gone : index_of index v ≡ none = rw (← same) e in absurd (cc (rw gone at k))
          | inr n ↦ rw n (fresh v (rw n k))
        ],
        (fresh t.id (rw self refl), rest),
      )
]

-- A dependency on a known task that is another one.
abbrev pub IsKnownEdge : Index → String → DependencyEdge → Type 0
IsKnownEdge ids id d = (knows ids d.task_id ≡ true) × (d.task_id == id ≡ false)

dependency_errors-nil :
    (ids : Index) (id : String) (ti di : ℕ) (d : DependencyEdge)
    → dependency_errors ids id ti di d ≡ []
    → IsKnownEdge ids id d
unfolding dependency_errors
dependency_errors-nil ids id ti di d h = elim (Bool-cases (d.task_id == id)) [
  | inl y ↦ absurd (cc (rw (dependency_errors, y) at h))
  | inr n ↦ elim (Bool-cases (knows ids d.task_id)) [
    | inl k ↦ (k, n)
    | inr k ↦ absurd (cc (rw (dependency_errors, n, k) at h))
  ]
]

pub check_dependencies-nil :
    (ids : Index) (tasks : List TaskSpec)
    → check_dependencies ids tasks ≡ []
    → All (λ (t : TaskSpec). All (IsKnownEdge ids t.id) t.depends_on) tasks
unfolding check_dependencies
check_dependencies-nil ids tasks h =
    All-weaken
      (λ t (ti, e).
        All-weaken (λ d (di, e'). dependency_errors-nil ids t.id ti di d e') t.depends_on
          (each-All (dependency_errors ids t.id ti) 0 t.depends_on e))
      tasks (each-All _ 0 tasks h)
