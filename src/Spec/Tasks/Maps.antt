-- ===== src/Spec/Tasks/Maps.antt =====
-- What the maps of lib/spec-validate.js say of the dependencies that the tasks declare.
use mathlib.Core.List.{Memᴰ}
use dsh_dag_orchestrator.Prelude.{
  ◌≡◌, ◌⊎◌, refl, inl, inr, Bool, true, ◌||◌, List, [], ◌∷◌, ◌++◌, String, ◌==◌, eq_iff, filter,
  map, Bool-cases, arith,
}
use dsh_dag_orchestrator.Ready.{DependencyEdge}
use dsh_dag_orchestrator.Spec.{TaskSpec}
use dsh_dag_orchestrator.Spec.Graphs.{Edge, Graph, is_in, put, targets}
use dsh_dag_orchestrator.Spec.Closure.Reach.{Upstream, direct, further}
use dsh_dag_orchestrator.Spec.Tasks.{
  Index, add_downstreams, counts, downstream_map, outputs_map, upstream_map,
}
use dsh_dag_orchestrator.Spec.Tasks.Ids.{IsKnownEdge, ids_of}

-- A task of the spec declares a dependency.
abbrev pub DependsOn : List TaskSpec → String → String → Type 0
DependsOn tasks a b =
    (t : TaskSpec) × (d : DependencyEdge) × Memᴰ t tasks
    × (t.id ≡ a)
    × Memᴰ d t.depends_on
    × (d.task_id ≡ b)

-- Directly or through others.
pub data Needs (tasks : List TaskSpec) (a : String) : String → Type 0 where
  at_once : {b : String} → DependsOn tasks a b → Needs tasks a b
  through : {b c : String} → Needs tasks a b → DependsOn tasks b c → Needs tasks a c

is_in-append : (v : String) (xs ys : List String) → is_in v (xs ++ ys) ≡ (is_in v xs || is_in v ys)
is_in-append v [] ys = refl
is_in-append v (x ∷ xs) ys = ground (arith, is_in-append v xs ys)

-- One more target of one task.
abbrev push : Graph → String → String → Graph
push g k id = put k (targets g k ++ id ∷ []) g

Edge-push : (g : Graph) (k id u v : String) → Edge g u v → Edge (push g k id) u v
Edge-push g k id u v e = elim (Bool-cases (k == u)) [
  | inr n ↦ rw n e
  | inl y ↦
      let same : k ≡ u = (eq_iff k u).0 y in
      rw (y, same, is_in-append v (targets g u) (id ∷ []), e) refl
]

pushed : (g : Graph) (k id : String) → Edge (push g k id) k id
pushed g k id =
    let self : k == k ≡ true = (eq_iff k k).1 refl in
    let self' : id == id ≡ true = (eq_iff id id).1 refl in
    rw (self, is_in-append id (targets g k) (id ∷ []), self') (ground arith)

push-inv : (g : Graph) (k id u v : String) → Edge (push g k id) u v → Edge g u v ⊎ (id ≡ v)
push-inv g k id u v e = elim (Bool-cases (k == u)) [
  | inr n ↦ inl (rw n at e)
  | inl y ↦
      let same : k ≡ u = (eq_iff k u).0 y in
      ground (arith, rw (y, same, is_in-append v (targets g u) (id ∷ [])) at e, eq_iff id v)
]

module _ (ids : Index) where
  add_downstreams-keeps :
      (id : String) (deps : List DependencyEdge) (g : Graph) (u v : String)
      → Edge g u v
      → Edge (add_downstreams ids id deps g) u v
  add_downstreams-keeps id [] g u v e = e
  add_downstreams-keeps id (d ∷ deps) g u v e = elim (Bool-cases (counts ids id d)) [
    | inl y ↦ rw y (add_downstreams-keeps id deps _ u v (Edge-push g d.task_id id u v e))
    | inr n ↦ rw n (add_downstreams-keeps id deps g u v e)
  ]

  add_downstreams-adds :
      (id : String) (deps : List DependencyEdge) (g : Graph) (d : DependencyEdge)
      → Memᴰ d deps
      → IsKnownEdge ids id d
      → Edge (add_downstreams ids id deps g) d.task_id id
  add_downstreams-adds id [] g d m known = elim m [ ]
  add_downstreams-adds id (e ∷ deps) g d (Memᴰ.head same) (k, n) =
      let yes_ : counts ids id e ≡ true = rw (← same) (ground arith) in
      rw (yes_, same) (add_downstreams-keeps id deps _ e.task_id id (pushed g e.task_id id))
  add_downstreams-adds id (e ∷ deps) g d (Memᴰ.tail m) known =
      add_downstreams-adds id deps _ d m known

  add_downstreams-inv :
      (id : String) (deps : List DependencyEdge) (g : Graph) (u v : String)
      → Edge (add_downstreams ids id deps g) u v
      → Edge g u v ⊎ (id ≡ v)
  add_downstreams-inv id [] g u v e = inl e
  add_downstreams-inv id (d ∷ deps) g u v e = elim (Bool-cases (counts ids id d)) [
    | inl y ↦ elim (add_downstreams-inv id deps _ u v (rw y at e)) [
      | inl e' ↦ push-inv g d.task_id id u v e'
      | inr same ↦ inr same
    ]
    | inr n ↦ add_downstreams-inv id deps g u v (rw n at e)
  ]

  downstream_map-keeps :
      (tasks : List TaskSpec) (g : Graph) (u v : String)
      → Edge g u v
      → Edge (downstream_map ids tasks g) u v
  unfolding downstream_map
  downstream_map-keeps [] g u v e = e
  downstream_map-keeps (t ∷ tasks) g u v e =
      downstream_map-keeps tasks _ u v (add_downstreams-keeps t.id t.depends_on g u v e)

  -- Every declared dependency is an edge of the map.
  pub downstream_map-Edge :
      (tasks : List TaskSpec) (g : Graph) (t : TaskSpec) (d : DependencyEdge)
      → Memᴰ t tasks
      → Memᴰ d t.depends_on
      → IsKnownEdge ids t.id d
      → Edge (downstream_map ids tasks g) d.task_id t.id
  unfolding downstream_map
  downstream_map-Edge [] g t d m' m known = elim m' [ ]
  downstream_map-Edge (s ∷ tasks) g t d (Memᴰ.head same) m known =
      downstream_map-keeps tasks _ d.task_id t.id
        (rw (← same) (add_downstreams-adds t.id t.depends_on g d m known))
  downstream_map-Edge (s ∷ tasks) g t d (Memᴰ.tail m') m known =
      downstream_map-Edge tasks _ t d m' m known

  -- And every edge of the map leads to a task of the spec.
  pub downstream_map-inv :
      (tasks : List TaskSpec) (g : Graph) (u v : String)
      → Edge (downstream_map ids tasks g) u v
      → Edge g u v ⊎ (is_in v (ids_of tasks) ≡ true)
  unfolding downstream_map
  downstream_map-inv [] g u v e = inl e
  downstream_map-inv (t ∷ tasks) g u v e = elim (downstream_map-inv tasks _ u v e) [
    | inr h ↦ inr (ground arith)
    | inl e' ↦ elim (add_downstreams-inv t.id t.depends_on g u v e') [
      | inl e'' ↦ inl e''
      | inr same ↦ (let self : t.id == v ≡ true = (eq_iff t.id v).1 same in inr (rw self refl))
    ]
  ]

  listed :
      (p : DependencyEdge → Bool) (deps : List DependencyEdge) (v : String)
      → is_in v (map (λ (d : DependencyEdge). d.task_id) (filter p deps)) ≡ true
      → (d : DependencyEdge) × Memᴰ d deps × (d.task_id ≡ v)
  listed p [] v h = absurd (cc)
  listed p (d ∷ deps) v h = elim (Bool-cases (p d)) [
    | inr n ↦ let (e, m, same) = listed p deps v (rw n at h) in (e, Memᴰ.tail m, same)
    | inl y ↦ elim (Bool-cases (d.task_id == v)) [
      | inl here ↦ (d, Memᴰ.head refl, (eq_iff d.task_id v).0 here)
      | inr other ↦
          let (e, m, same) = listed p deps v (rw (y, other) at h) in (e, Memᴰ.tail m, same)
    ]
  ]

  -- An edge of the other map is a declared dependency.
  pub upstream_map-inv :
      (tasks : List TaskSpec) (g : Graph) (u v : String)
      → Edge (upstream_map ids tasks g) u v
      → Edge g u v ⊎ DependsOn tasks u v
  unfolding upstream_map
  upstream_map-inv [] g u v e = inl e
  upstream_map-inv (t ∷ tasks) g u v e = elim (upstream_map-inv tasks _ u v e) [
    | inr (t', d, m, at, m', to) ↦ inr (t', d, Memᴰ.tail m, at, m', to)
    | inl e' ↦ elim (Bool-cases (t.id == u)) [
      | inr n ↦ inl (rw n at e')
      | inl y ↦
          let (d, m, same) = listed (counts ids t.id) t.depends_on v (rw y at e') in
          inr (t, d, Memᴰ.head refl, (eq_iff t.id u).0 y, m, same)
    ]
  ]

  pub upstream_map-Needs :
      (tasks : List TaskSpec) (u v : String)
      → Upstream (upstream_map ids tasks []) u v
      → Needs tasks u v
  upstream_map-Needs tasks u v (direct e) = elim (upstream_map-inv tasks [] u v e) [
    | inl none_ ↦ absurd (cc)
    | inr d ↦ at_once d
  ]
  upstream_map-Needs tasks u v (further {u = w} p e) = elim (upstream_map-inv tasks [] w v e) [
    | inl none_ ↦ absurd (cc)
    | inr d ↦ through (upstream_map-Needs tasks u w p) d
  ]

-- What the map of outputs has, a task of that id declares.
pub outputs_map-inv :
    (tasks : List TaskSpec) (g : Graph) (p n : String)
    → is_in n (targets (outputs_map tasks g) p) ≡ true
    → (is_in n (targets g p) ≡ true)
      ⊎ ((t : TaskSpec) × Memᴰ t tasks × (t.id ≡ p) × (is_in n t.outputs ≡ true))
unfolding outputs_map
outputs_map-inv [] g p n h = inl h
outputs_map-inv (t ∷ tasks) g p n h = elim (outputs_map-inv tasks _ p n h) [
  | inr (t', m, at, out) ↦ inr (t', Memᴰ.tail m, at, out)
  | inl h' ↦ elim (Bool-cases (t.id == p)) [
    | inr n' ↦ inl (rw n' at h')
    | inl y ↦ inr (t, Memᴰ.head refl, (eq_iff t.id p).0 y, rw y at h')
  ]
]
