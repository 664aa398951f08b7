-- ===== src/Spec/Cycle/Order.antt =====
-- The order in which the search of `detectCycle` leaves the tasks.
use dsh_dag_orchestrator.Prelude.{
  ◌≡◌, inl, inr, true, List, [], ◌∷◌, String, ◌==◌, eq_iff, Bool-cases, arith,
}
use dsh_dag_orchestrator.Spec.Graphs.{Graph, Edge, is_in}
use dsh_dag_orchestrator.Spec.Closure.Reach.{Upstream, direct, further}

module _ (order : List String) (g : Graph) where
  -- Every known target of a task was left before it.
  abbrev pub Left : List String → Type 0
  Left [] = Unit
  Left (u ∷ us) = ((v : String) → Edge g u v → is_in v order ≡ true → is_in v us ≡ true) × Left us

  module _ (known : (u v : String) → Edge g u v → is_in v order ≡ true) where
    Left-Edge :
        (us : List String) (u v : String)
        → Left us
        → is_in u us ≡ true
        → Edge g u v
        → is_in v us ≡ true
    Left-Edge [] u v l h e = absurd (cc)
    Left-Edge (w ∷ us) u v l h e = elim (Bool-cases (w == u)) [
      | inl y ↦
          let same : w ≡ u = (eq_iff w u).0 y in
          let e' : Edge g w v = rw same e in ground (arith, l.0 v e' (known u v e))
      | inr n ↦ ground (arith, Left-Edge us u v l.1 (rw n at h) e)
    ]

    leads_down :
        (u : String) (us : List String) (v : String)
        → Left (u ∷ us)
        → Upstream g u v
        → is_in v us ≡ true
    leads_down u us v l (direct e) = l.0 v e (known u v e)
    leads_down u us v l (further {u = w} p e) = Left-Edge us w v l.1 (leads_down u us w l p) e

    pub Left-acyclic :
        (us : List String) (u : String) → Left us → is_in u us ≡ true → ¬ Upstream g u u
    Left-acyclic [] u l h p = absurd (cc)
    Left-acyclic (w ∷ us) u l h p = elim (Bool-cases (w == u)) [
      | inl y ↦
          let same : w ≡ u = (eq_iff w u).0 y in
          Left-acyclic us u l.1 (leads_down u us u (rw same at l) p) p
      | inr n ↦ Left-acyclic us u l.1 (rw n at h) p
    ]
