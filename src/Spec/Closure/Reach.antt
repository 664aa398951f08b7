-- ===== src/Spec/Closure/Reach.antt =====
-- What `upstreamClosure` finds.
use dsh_dag_orchestrator.Prelude.{
  ◌≡◌, ◌↔◌, refl, inl, inr, true, List, [], ◌∷◌, some, String, ◌==◌, eq_iff, length, arith,
  Bool-cases, ◌⊎◌, ◌+◌,
}
use dsh_dag_orchestrator.Spec.Graphs.{Graph, Edge, is_in, targets}
use dsh_dag_orchestrator.Spec.Closure.{push_new, visit, push_all, unseen_edges, upstream_closure}
use dsh_dag_orchestrator.Spec.Closure.Loop.{loop_rule, upstream_closure_returns}

-- One task depends on another, directly or through others.
pub data Upstream (g : Graph) (id : String) : String → Type 0 where
  direct : {v : String} → Edge g id v → Upstream g id v
  further : {u v : String} → Upstream g id u → Edge g u v → Upstream g id v

is_in-push_new :
    (v : String) (seen vs stack : List String)
    → is_in v (push_new seen vs stack) ≡ true
    → (is_in v vs ≡ true) ⊎ (is_in v stack ≡ true)
unfolding push_new
is_in-push_new v seen [] stack h = inr h
is_in-push_new v seen (w ∷ vs) stack h = elim (Bool-cases (is_in w seen)) [
  | inl e ↦ ground (arith, is_in-push_new v seen vs stack)
  | inr e ↦ ground (arith, is_in-push_new v seen vs (w ∷ stack))
]

kept-push_new :
    (v : String) (seen vs stack : List String)
    → is_in v stack ≡ true
    → is_in v (push_new seen vs stack) ≡ true
unfolding push_new
kept-push_new v seen [] stack h = h
kept-push_new v seen (w ∷ vs) stack h = elim (Bool-cases (is_in w seen)) [
  | inl e ↦ rw e (kept-push_new v seen vs stack h)
  | inr e ↦ rw e (kept-push_new v seen vs (w ∷ stack) (ground arith))
]

-- What was pushed is on the stack, or was seen before.
pushed-push_new :
    (v : String) (seen vs stack : List String)
    → is_in v vs ≡ true
    → (is_in v seen ≡ true) ⊎ (is_in v (push_new seen vs stack) ≡ true)
unfolding push_new
pushed-push_new v seen [] stack h = absurd (cc)
pushed-push_new v seen (w ∷ vs) stack h = elim (Bool-cases (w == v)) [
  | inr n ↦ pushed-push_new v seen vs _ (rw n at h)
  | inl y ↦
      let same : w ≡ v = (eq_iff w v).0 y in
      elim (Bool-cases (is_in w seen)) [
        | inl e ↦ inl (rw same at e)
        | inr e ↦ inr (rw e (kept-push_new v seen vs (w ∷ stack) (rw y refl)))
      ]
]

is_in-push_all :
    (v : String) (vs stack : List String)
    → (is_in v (push_all vs stack) ≡ true) ↔ ((is_in v vs ≡ true) ⊎ (is_in v stack ≡ true))
is_in-push_all v [] stack = ground arith
is_in-push_all v (w ∷ vs) stack = ground (arith, is_in-push_all v vs (w ∷ stack))

module _ (g : Graph) (id : String) where
  record Inv (seen stack : List String) : Type 0 where
    sound : (v : String) → is_in v seen ≡ true → Upstream g id v
    coming : (v : String) → is_in v stack ≡ true → Upstream g id v
    started : (v : String) → Edge g id v → (is_in v seen ≡ true) ⊎ (is_in v stack ≡ true)
    closed :
        (u v : String)
        → is_in u seen ≡ true
        → Edge g u v
        → (is_in v seen ≡ true) ⊎ (is_in v stack ≡ true)

  Inv-start : Inv [] (push_all (targets g id) [])
  Inv-start = record {
    sound = λ v h. absurd (cc);
    coming = λ v h. elim ((is_in-push_all v (targets g id) []).0 h) [
      | inl e ↦ direct e
      | inr n ↦ absurd (cc)
    ];
    started = λ v e. inr ((is_in-push_all v (targets g id) []).1 (inl e));
    closed = λ u v h e. absurd (cc);
  }

  -- What was popped is seen, whatever else moves.
  moved :
      (up v : String) (seen seen' rest rest' : List String)
      → is_in up seen' ≡ true
      → (is_in v seen ≡ true → is_in v seen' ≡ true)
      → (is_in v rest ≡ true → is_in v rest' ≡ true)
      → (is_in v seen ≡ true) ⊎ (is_in v (up ∷ rest) ≡ true)
      → (is_in v seen' ≡ true) ⊎ (is_in v rest' ≡ true)
  moved up v seen seen' rest rest' here grows keeps (inl s) = inl (grows s)
  moved up v seen seen' rest rest' here grows keeps (inr t) = elim (Bool-cases (up == v)) [
    | inl y ↦ (let same : up ≡ v = (eq_iff up v).0 y in inl (rw (← same) here))
    | inr n ↦ inr (keeps (rw n at t))
  ]

  Inv-visit :
      (up : String) (seen rest : List String)
      → Inv seen (up ∷ rest)
      → Inv (visit g up seen rest).seen (visit g up seen rest).stack
  unfolding visit
  Inv-visit up seen rest inv = elim (Bool-cases (is_in up seen)) [
    | inl e ↦ rw e (record {
      sound = sound;
      coming = λ v h. coming v (ground arith);
      started = λ v edge. moved up v seen seen rest rest e (λ s. s) (λ s. s) (started v edge);
      closed = λ u v s edge. moved up v seen seen rest rest e (λ s. s) (λ s. s) (closed u v s edge);
    })
    | inr e ↦ rw e (record {
      sound = λ v h. elim (Bool-cases (up == v)) [
        | inl y ↦ coming v (rw y refl)
        | inr n ↦ sound v (rw n at h)
      ];
      coming = λ v h. elim (is_in-push_new v (up ∷ seen) (targets g up) rest h) [
        | inl edge ↦ further (coming up (rw self refl)) edge
        | inr t ↦ coming v (ground arith)
      ];
      started = λ v edge.
          moved up v seen (up ∷ seen) rest _ (rw self refl) (λ s. ground arith)
            (kept-push_new v (up ∷ seen) (targets g up) rest) (started v edge);
      closed = λ u v s edge. elim (Bool-cases (up == u)) [
        | inl y ↦
            let same : up ≡ u = (eq_iff up u).0 y in
            pushed-push_new v (up ∷ seen) (targets g up) rest (rw same edge)
        | inr n ↦
            moved up v seen (up ∷ seen) rest _ (rw self refl) (λ t. ground arith)
              (kept-push_new v (up ∷ seen) (targets g up) rest) (closed u v (rw n at s) edge)
      ];
    })
  ]
    where
      open inv use {sound, coming, started, closed}

      self : up == up ≡ true
      self = (eq_iff up up).1 refl

  complete :
      (seen : List String) → Inv seen [] → {v : String} → Upstream g id v → is_in v seen ≡ true
  complete seen inv {v} (direct e) = ground (arith, inv.started v e)
  complete seen inv {v} (further {u} p e) = ground (arith, inv.closed u v (complete seen inv p) e)

-- The closure of any task in any map returns, and has exactly the tasks that are reached over one
-- edge or more.
pub upstream_closure_iff :
    (g : Graph) (id : String)
    → (found : List String) × (upstream_closure g id ≡ some found)
      × ((v : String) → (is_in v found ≡ true) ↔ Upstream g id v)
unfolding upstream_closure
upstream_closure_iff g id =
    let (found, ends) = upstream_closure_returns g id in
    let inv =
      loop_rule g (Inv g id) (Inv-visit g id) (length (targets g id) + unseen_edges g []) []
        (push_all (targets g id) []) found (Inv-start g id) ends in
    (found, ends, λ v. (inv.sound v, λ p. complete g id found inv p))
