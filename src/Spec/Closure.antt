-- ===== src/Spec/Closure.antt =====
-- `upstreamClosure` of lib/spec-validate.js: all the tasks that one task depends on, at any distance.
pub mod Loop
pub mod Reach
use dsh_dag_orchestrator.Prelude.{
  ℕ, zero, suc, ◌+◌, Bool, true, false, not, List, [], ◌∷◌, ◌++◌, Option, none, some, String,
  if◌then◌else◌, length,
}
use dsh_dag_orchestrator.Spec.Graphs.{Graph, is_in, targets}

-- The set of what was seen, and the stack with its top first.
pub record Search : Type 0 where
  pub seen : List String
  pub stack : List String

-- `for (const next of …) if (!seen.has(next)) stack.push(next)`
unfoldable pub push_new : List String → List String → List String → List String
push_new seen [] stack = stack
push_new seen (v ∷ vs) stack = push_new seen vs (if is_in v seen then stack else v ∷ stack)

-- One round, on what was popped.
unfoldable pub visit : Graph → String → List String → List String → Search
unfolding push_new
visit g up seen rest =
    if is_in up seen
    then record { seen = seen; stack = rest }
    else record { seen = up ∷ seen; stack = push_new (up ∷ seen) (targets g up) rest }

unfoldable pub closure_loop : Graph → ℕ → List String → List String → Option (List String)
closure_loop g fuel seen [] = some seen
closure_loop g zero seen (up ∷ rest) = none
closure_loop g (suc fuel) seen (up ∷ rest) =
    let s = visit g up seen rest in closure_loop g fuel s.seen s.stack

-- The edges that start where the search has not been.
abbrev pub unseen_edges : Graph → List String → ℕ
unseen_edges [] seen = 0
unseen_edges ((k, vs) ∷ g) seen = (if is_in k seen then 0 else length vs) + unseen_edges g seen

-- `[...(adj.get(taskId) ?? [])]`, whose last element is the top.
abbrev pub push_all : List String → List String → List String
push_all [] stack = stack
push_all (v ∷ vs) stack = push_all vs (v ∷ stack)

-- A round for each edge, and for each of the start.
unfoldable pub upstream_closure : Graph → String → Option (List String)
upstream_closure g id =
    closure_loop g (length (targets g id) + unseen_edges g []) [] (push_all (targets g id) [])
