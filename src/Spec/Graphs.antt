-- ===== src/Spec/Graphs.antt =====
-- The maps from a task's id to other ids that lib/spec-validate.js builds: `Map.set` puts an entry in
-- front, and the first entry of a key is the one that counts.
use dsh_dag_orchestrator.Prelude.{
  ◌≡◌, Bool, true, false, ◌||◌, List, [], ◌∷◌, String, ◌==◌, if◌then◌else◌,
}

-- `xs.includes(x)`, and `has` of a set.
abbrev pub is_in : String → List String → Bool
is_in x [] = false
is_in x (y ∷ ys) = y == x || is_in x ys

abbrev pub Graph : Type 0
Graph = List (String × List String)

-- `adj.get(u) ?? []`
abbrev pub targets : Graph → String → List String
targets [] u = []
targets ((k, vs) ∷ g) u = if k == u then vs else targets g u

abbrev pub put : String → List String → Graph → Graph
put k vs g = (k, vs) ∷ g

abbrev pub Edge : Graph → String → String → Type 0
Edge g u v = (is_in v (targets g u) ≡ true)
