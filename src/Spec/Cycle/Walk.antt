-- ===== src/Spec/Cycle/Walk.antt =====
-- The cycle that `detectCycle` of lib/spec-validate.js reads off its stack.
use dsh_dag_orchestrator.Prelude.{
  ◌≡◌, refl, inl, inr, true, List, [], ◌∷◌, String, ◌==◌, eq_iff, Bool-cases,
}
use dsh_dag_orchestrator.Spec.Graphs.{Graph, Edge, is_in}
use dsh_dag_orchestrator.Spec.Cycle.{slice_from}

-- Where a list that starts with `a` ends.
abbrev pub EndsIn : String → String → List String → Type 0
EndsIn v a [] = (a ≡ v)
EndsIn v a (b ∷ bs) = EndsIn v b bs

module _ (g : Graph) where
  -- Each is an edge's source, and the next its target.
  abbrev pub Walk : String → List String → Type 0
  Walk a [] = Unit
  Walk a (b ∷ bs) = Edge g a b × Walk b bs

  -- The same from the last to the first.
  abbrev pub StackWalk : String → List String → Type 0
  StackWalk a [] = Unit
  StackWalk a (b ∷ bs) = Edge g b a × StackWalk b bs

  -- A walk of one edge at least that ends where it starts.
  abbrev pub IsCycle : List String → Type 0
  IsCycle c =
      (v : String) × (w : String) × (rest : List String) × (c ≡ v ∷ w ∷ rest)
      × Walk v (w ∷ rest)
      × EndsIn v w rest

  pub slice_from-IsCycle :
      (v x : String) (xs : List String) (a : String) (rest : List String)
      → is_in v (x ∷ xs) ≡ true
      → StackWalk x xs
      → Edge g x a
      → Walk a rest
      → EndsIn v a rest
      → IsCycle (slice_from v (x ∷ xs) (a ∷ rest))
  slice_from-IsCycle v x [] a rest h p e w ends = elim (Bool-cases (x == v)) [
    | inl y ↦ let same : x ≡ v = (eq_iff x v).0 y in rw y (x, a, rest, refl, (e, w), rw same ends)
    | inr n ↦ absurd (cc (rw n at h))
  ]
  slice_from-IsCycle v x (z ∷ zs) a rest h p e w ends = elim (Bool-cases (x == v)) [
    | inl y ↦ let same : x ≡ v = (eq_iff x v).0 y in rw y (x, a, rest, refl, (e, w), rw same ends)
    | inr n ↦ rw n (slice_from-IsCycle v z zs x (a ∷ rest) (rw n at h) p.1 p.0 (e, w) ends)
  ]
