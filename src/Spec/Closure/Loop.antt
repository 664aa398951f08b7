-- ===== src/Spec/Closure/Loop.antt =====
-- The loop of `upstreamClosure` ends.
use mathlib.Core.Path.{subst}
use dsh_dag_orchestrator.Prelude.{
  ℕ, zero, suc, ◌+◌, ◌≤◌, ◌≡◌, refl, inl, inr, true, false, List, [], ◌∷◌, some, String, ◌==◌,
  eq_iff, length, arith, Bool-cases,
}
use dsh_dag_orchestrator.Spec.Graphs.{Graph, is_in, targets}
use dsh_dag_orchestrator.Spec.Closure.{
  push_new, visit, closure_loop, unseen_edges, push_all, upstream_closure,
}

length-push_new :
    (seen vs stack : List String) → length (push_new seen vs stack) ≤ length vs + length stack
unfolding push_new
length-push_new seen [] stack = omega arith
length-push_new seen (v ∷ vs) stack = elim (Bool-cases (is_in v seen)) [
  | inl e ↦ rw e (omega (arith, length-push_new seen vs stack))
  | inr e ↦ rw e (omega (arith, length-push_new seen vs (v ∷ stack)))
]

length-push_all : (vs stack : List String) → length (push_all vs stack) ≡ length vs + length stack
length-push_all [] stack = omega arith
length-push_all (v ∷ vs) stack = omega (arith, length-push_all vs (v ∷ stack))

unseen_edges_anti :
    (g : Graph) (u : String) (seen : List String) → unseen_edges g (u ∷ seen) ≤ unseen_edges g seen
unseen_edges_anti [] u seen = omega arith
unseen_edges_anti ((k, vs) ∷ g) u seen = ground (arith, unseen_edges_anti g u seen)

-- What a new node adds to the stack leaves the edges that are still to come.
unseen_edges-targets :
    (g : Graph) (u : String) (seen : List String)
    → is_in u seen ≡ false
    → length (targets g u) + unseen_edges g (u ∷ seen) ≤ unseen_edges g seen
unseen_edges-targets [] u seen h = omega arith
unseen_edges-targets ((k, vs) ∷ g) u seen h = elim (Bool-cases (k == u)) [
  | inl e ↦
      let same : k ≡ u = (eq_iff k u).0 e in
      let self : u == u ≡ true = (eq_iff u u).1 refl in
      rw (e, same, self, h) (omega (arith, unseen_edges_anti g u seen))
  | inr e ↦ rw e (ground (arith, unseen_edges-targets g u seen h))
]

-- A round takes one entry off the stack for good.
abbrev work : Graph → List String → List String → ℕ
work g seen stack = length stack + unseen_edges g seen

work-visit :
    (g : Graph) (u : String) (seen rest : List String)
    → work g (visit g u seen rest).seen (visit g u seen rest).stack ≤ work g seen rest
unfolding visit
work-visit g u seen rest = elim (Bool-cases (is_in u seen)) [
  | inl e ↦ rw e (omega arith)
  | inr e ↦ rw e (
      omega (arith, length-push_new (u ∷ seen) (targets g u) rest, unseen_edges-targets g u seen e))
]

pub closure_loop_returns :
    (g : Graph) (fuel : ℕ) (seen stack : List String)
    → work g seen stack ≤ fuel
    → (found : List String) × (closure_loop g fuel seen stack ≡ some found)
unfolding closure_loop
closure_loop_returns g fuel seen [] h = (seen, refl)
closure_loop_returns g zero seen (up ∷ rest) h = absurd (omega arith)
closure_loop_returns g (suc fuel) seen (up ∷ rest) h =
    closure_loop_returns g fuel (visit g up seen rest).seen (visit g up seen rest).stack
      (omega (arith, work-visit g up seen rest))

-- An invariant that one round keeps holds where the stack is empty.
pub loop_rule {ℓ} :
    (g : Graph) (P : List String → List String → Type ℓ)
    → ((up : String) (seen rest : List String)
        → P seen (up ∷ rest)
        → P (visit g up seen rest).seen (visit g up seen rest).stack)
    → (fuel : ℕ) (seen stack found : List String) → P seen stack
    → closure_loop g fuel seen stack ≡ some found
    → P found []
unfolding closure_loop
loop_rule g P keep fuel seen [] found p h =
    let same : seen ≡ found = cc in subst (λ xs. P xs []) same p
loop_rule g P keep zero seen (up ∷ rest) found p h = absurd (cc)
loop_rule g P keep (suc fuel) seen (up ∷ rest) found p h =
    loop_rule g P keep fuel (visit g up seen rest).seen (visit g up seen rest).stack found
      (keep up seen rest p) h

pub upstream_closure_returns :
    (g : Graph) (id : String) → (seen : List String) × (upstream_closure g id ≡ some seen)
unfolding upstream_closure
upstream_closure_returns g id =
    closure_loop_returns g (length (targets g id) + unseen_edges g []) []
      (push_all (targets g id) []) (omega (arith, length-push_all (targets g id) []))
