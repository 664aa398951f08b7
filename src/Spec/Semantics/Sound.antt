-- ===== src/Spec/Semantics/Sound.antt =====
-- What a spec is that `validateSemantics` has no error for.
use mathlib.Core.List.{Memᴰ}
use dsh_dag_orchestrator.Prelude.{
  ℕ, ◌≡◌, inl, inr, true, List, [], none, some, String, Bool-cases, Option-cases, All, All-mem,
  All-weaken, append-eq-nil,
}
use dsh_dag_orchestrator.Ready.{DependencyEdge}
use dsh_dag_orchestrator.Spec.{SpecError, TaskSpec}
use dsh_dag_orchestrator.Spec.Graphs.{Edge, Graph, is_in, targets}
use dsh_dag_orchestrator.Spec.Uris.{task_uri}
use dsh_dag_orchestrator.Spec.Closure.Reach.{Upstream, direct, further, upstream_closure_iff}
use dsh_dag_orchestrator.Spec.Cycle.Detect.{Decision, detect_cycle_decides}
use dsh_dag_orchestrator.Spec.Tasks.{
  Index, check_dependencies, downstream_map, duplicate_ids, duplicate_slugs, each, knows,
  outputs_map, upstream_map,
}
use dsh_dag_orchestrator.Spec.Tasks.Ids.{
  IsDistinct, IsKnownEdge, check_dependencies-nil, duplicate_ids-IsDistinct, each-All, ids_of,
  knows-duplicate_ids,
}
use dsh_dag_orchestrator.Spec.Tasks.Maps.{
  DependsOn, Needs, at_once, downstream_map-Edge, downstream_map-inv, outputs_map-inv, through,
  upstream_map-Needs,
}
use dsh_dag_orchestrator.Spec.Inputs.{check_inputs, closure, input_errors}
use dsh_dag_orchestrator.Spec.Semantics.{cycle_errors, validate_semantics}

-- A task declares the output, and the other task needs it.
abbrev pub Supplies : List TaskSpec → String → String × String → Type 0
Supplies tasks id (p, n) =
    Needs tasks id p × ((t : TaskSpec) × Memᴰ t tasks × (t.id ≡ p) × (is_in n t.outputs ≡ true))

abbrev pub IsSupplied : List TaskSpec → String → String → Type 0
IsSupplied tasks id uri = elim (task_uri uri) [ none ↦ Unit | some ref ↦ Supplies tasks id ref ]

pub record IsSound (tasks : List TaskSpec) : Type 0 where
  pub distinct : IsDistinct (ids_of tasks)
  pub known :
      All
        (λ (t : TaskSpec).
          All (λ (d : DependencyEdge). is_in d.task_id (ids_of tasks) ≡ true) t.depends_on)
        tasks
  pub acyclic : (a : String) → ¬ Needs tasks a a
  pub supplied : All (λ (t : TaskSpec). All (IsSupplied tasks t.id) t.inputs) tasks

-- A closure that has a task has what is upstream.
closure-Upstream : (g : Graph) (id v : String) → is_in v (closure g id) ≡ true → Upstream g id v
closure-Upstream g id v h =
    let (found, ends, reach) = upstream_closure_iff g id in
    let h' : is_in v found ≡ true = rw ends at h in (reach v).0 h'

input_errors-nil :
    (ids : Index) (tasks : List TaskSpec) (id : String) (ti ii : ℕ) (uri : String)
    → input_errors ids
        (outputs_map tasks [])
        (upstream_map ids tasks [])
        id
        (closure (upstream_map ids tasks []) id)
        ti
        ii
        uri
      ≡ []
    → IsSupplied tasks id uri
unfolding input_errors
input_errors-nil ids tasks id ti ii uri h = elim (Option-cases (task_uri uri)) [
  | inl e ↦ rw (IsSupplied, e) tt
  | inr ((p, n), e) ↦
      let outputs = outputs_map tasks [] in
      let adj = upstream_map ids tasks [] in
      elim (Bool-cases (knows ids p)) [
        | inr k ↦ absurd (cc (rw (input_errors, e, k) at h))
        | inl k ↦ elim (Bool-cases (is_in n (targets outputs p))) [
          | inr m ↦ absurd (cc (rw (input_errors, e, k, m) at h))
          | inl m ↦ elim (Bool-cases (is_in p (closure adj id))) [
            | inr c ↦ absurd (cc (rw (input_errors, e, k, m, c) at h))
            | inl c ↦ elim (outputs_map-inv tasks [] p n m) [
              | inl never ↦ absurd (cc)
              | inr declared ↦
                  rw (IsSupplied, e)
                    (upstream_map-Needs ids tasks id p (closure-Upstream adj id p c), declared)
            ]
          ]
        ]
      ]
]

check_inputs-nil :
    (ids : Index) (tasks ts : List TaskSpec)
    → check_inputs ids (outputs_map tasks []) (upstream_map ids tasks []) ts ≡ []
    → All (λ (t : TaskSpec). All (IsSupplied tasks t.id) t.inputs) ts
unfolding check_inputs
check_inputs-nil ids tasks ts h =
    let adj = upstream_map ids tasks [] in
    let errors : TaskSpec → ℕ → ℕ → String → List SpecError =
      λ t ti. input_errors ids (outputs_map tasks []) adj t.id (closure adj t.id) ti in
    let task_errors : ℕ → TaskSpec → List SpecError = λ ti t. each (errors t ti) 0 t.inputs in
    All-weaken {P = λ (t : TaskSpec). (ti : ℕ) × (task_errors ti t ≡ [])}
      (λ t (ti, e).
        All-weaken {P = λ uri. (ii : ℕ) × (errors t ti ii uri ≡ [])}
          (λ uri (ii, e'). input_errors-nil ids tasks t.id ti ii uri e') t.inputs
          (each-All (errors t ti) 0 t.inputs e))
      ts (each-All task_errors 0 ts h)

prepend : (g : Graph) (u w v : String) → Edge g u w → Upstream g w v → Upstream g u v
prepend g u w v e (direct e') = further (direct e) e'
prepend g u w v e (further {u = x} p e') = further (prepend g u w x e p) e'

-- The graph of the search for cycles runs against the dependencies.
Needs-Upstream :
    (ids : Index) (tasks : List TaskSpec)
    → All (λ (t : TaskSpec). All (IsKnownEdge ids t.id) t.depends_on) tasks
    → (a b : String) → Needs tasks a b
    → Upstream (downstream_map ids tasks []) b a
Needs-Upstream ids tasks known a b p = along a b p
  where
    edge : (a b : String) → DependsOn tasks a b → Edge (downstream_map ids tasks []) b a
    edge a b (t, d, m, at, m', to) =
        let is_known_edge =
          All-mem (IsKnownEdge ids t.id) m'
            (All-mem (λ (t : TaskSpec). All (IsKnownEdge ids t.id) t.depends_on) m known) in
        let here = downstream_map-Edge ids tasks [] t d m m' is_known_edge in rw (at, to) at here

    along : (a b : String) → Needs tasks a b → Upstream (downstream_map ids tasks []) b a
    along a b (at_once d) = direct (edge a b d)
    along a b (through {b = w} p d) = prepend _ b w a (edge w b d) (along a w p)

cycle_errors-nil :
    (ids : Index) (tasks : List TaskSpec)
    → All (λ (t : TaskSpec). All (IsKnownEdge ids t.id) t.depends_on) tasks
    → cycle_errors ids tasks ≡ []
    → (a : String) → ¬ Needs tasks a a
unfolding cycle_errors
cycle_errors-nil ids tasks known h a p =
    let g = downstream_map ids tasks [] in
    let leads : (u v : String) → Edge g u v → is_in v (ids_of tasks) ≡ true = λ u v e.
      elim (downstream_map-inv ids tasks [] u v e) [ inl never ↦ absurd (cc) | inr m ↦ m ] in
    let (r, ran, answer) = detect_cycle_decides (ids_of tasks) g leads in
    elim (Option-cases r) [
      | inl e ↦
          (let none_ : Decision g none = rw e at answer in
            none_ a (Needs-Upstream ids tasks known a a p))
      | inr (c, e) ↦ absurd (cc (rw (cycle_errors, ran, e) at h))
    ]

-- A spec that the checks across tasks have no error for is sound: no id comes twice, every
-- dependency is a task of the spec, no task needs itself, directly or through others, and every
-- input names an output that a task declares which the task needs.
pub validate_semantics-IsSound :
    (tasks : List TaskSpec) → validate_semantics tasks ≡ [] → IsSound tasks
unfolding validate_semantics check_inputs
validate_semantics-IsSound tasks h =
    let first = duplicate_ids 0 tasks [] in
    let ids = first.1 in
    let adj = upstream_map ids tasks [] in
    let outputs = outputs_map tasks [] in
    let (unique, h₁) = append-eq-nil first.0 _ h in
    let (slugs, h₂) = append-eq-nil (duplicate_slugs 0 tasks []) _ h₁ in
    let (deps, h₃) = append-eq-nil (check_dependencies ids tasks) _ h₂ in
    let (cycles, h₄) = append-eq-nil (cycle_errors ids tasks) _ h₃ in
    let (inputs, h₅) = append-eq-nil (check_inputs ids outputs adj tasks) _ h₄ in
    let edges = check_dependencies-nil ids tasks deps in
    record {
      distinct = (duplicate_ids-IsDistinct 0 tasks [] unique).1;
      known =
          All-weaken {P = λ (t : TaskSpec). All (IsKnownEdge ids t.id) t.depends_on}
            (λ t ds.
              All-weaken {P = IsKnownEdge ids t.id}
                (λ d (k, n). rw (knows-duplicate_ids 0 tasks [] d.task_id) at k) t.depends_on ds)
            tasks edges;
      acyclic = cycle_errors-nil ids tasks edges cycles;
      supplied = check_inputs-nil ids tasks tasks inputs;
    }
