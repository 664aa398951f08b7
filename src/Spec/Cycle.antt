-- ===== src/Spec/Cycle.antt =====
-- `detectCycle` of lib/spec-validate.js: a search in depth that colours the tasks.
pub mod Walk
pub mod Order
pub mod Colors
pub mod Search
pub mod Detect
use dsh_dag_orchestrator.Prelude.{
  ℕ, zero, suc, ◌+◌, Bool, true, false, List, [], ◌∷◌, Option, none, some, String, ◌==◌,
  if◌then◌else◌, is_some, length,
}
use dsh_dag_orchestrator.Spec.Graphs.{Graph, targets}

pub data Color : Type 0 where
  white gray black : Color

-- `color`, a map: the entry that was set last stands in front.
abbrev pub Colors : Type 0
Colors = List (String × Color)

-- `color.get(id)`
abbrev pub color_of : Colors → String → Option Color
color_of [] v = none
color_of ((k, c) ∷ colors) v = if k == v then some c else color_of colors v

-- `new Map(order.map((id) => [id, WHITE]))`
abbrev pub all_white : List String → Colors
all_white [] = []
all_white (id ∷ ids) = (id, white) ∷ all_white ids

-- The stack has its top first.
pub record Dfs : Type 0 where
  pub color : Colors
  pub stack : List String
  pub found : Option (List String)

-- `[...stack.slice(stack.indexOf(v)), ...rest]`
abbrev pub slice_from : String → List String → List String → List String
slice_from v [] rest = rest
slice_from v (x ∷ xs) rest = if x == v then x ∷ rest else slice_from v xs (x ∷ rest)

abbrev tail : List String → List String
tail [] = []
tail (x ∷ xs) = xs

-- What is done with the search behind a call of `dfs`, unless it found a cycle.
abbrev pub unless_found : Dfs → (Dfs → Option Dfs) → Option Dfs
unless_found s next = elim s.found [ some c ↦ some s | none ↦ next s ]

abbrev pub then_next : Option Dfs → (Dfs → Option Dfs) → Option Dfs
then_next none next = none
then_next (some s) next = next s

-- The loop of `dfs`, over its calls of itself.
unfoldable pub scan : (String → Dfs → Option Dfs) → List String → Dfs → Option Dfs
scan dfs [] s = some s
scan dfs (v ∷ vs) s = elim (color_of s.color v) [
  | some gray ↦ some (record s { found = some (slice_from v s.stack (v ∷ [])) })
  | some white ↦ then_next (dfs v s) (λ t. unless_found t (scan dfs vs))
  | some black ↦ scan dfs vs s
  | none ↦ scan dfs vs s
]

abbrev pub enter : String → Dfs → Dfs
enter u s = record { color = (u, gray) ∷ s.color; stack = u ∷ s.stack; found = s.found }

abbrev pub leave : String → Dfs → Dfs
leave u s = record { color = (u, black) ∷ s.color; stack = tail s.stack; found = s.found }

-- The calls nest at most as deep as there are white tasks.
unfoldable pub dfs : Graph → ℕ → String → Dfs → Option Dfs
unfolding scan
dfs g zero u s = none
dfs g (suc fuel) u s = unless_found s (λ s.
    then_next (scan (dfs g fuel) (targets g u) (enter u s))
      (λ t. unless_found t (λ t. some (leave u t))))

unfoldable pub search_from : Graph → ℕ → List String → Dfs → Option Dfs
unfolding dfs
search_from g fuel [] s = some s
search_from g fuel (id ∷ ids) s = elim (color_of s.color id) [
  | some white ↦ then_next (dfs g fuel id s) (λ t. unless_found t (search_from g fuel ids))
  | _ ↦ search_from g fuel ids s
]

-- The outer `none` is the end of the fuel, which is never reached.
unfoldable pub detect_cycle : List String → Graph → Option (Option (List String))
unfolding search_from
detect_cycle order g =
    let s : Dfs = record { color = all_white order; stack = []; found = none } in
    elim (search_from g (length order) order s) [ none ↦ none | some t ↦ some t.found ]
