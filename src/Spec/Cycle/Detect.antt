-- ===== src/Spec/Cycle/Detect.antt =====
-- What `detectCycle` of lib/spec-validate.js answers.
use dsh_dag_orchestrator.Prelude.{
  ℕ, ◌≤◌, ◌≡◌, ◌∙◌, refl, inl, inr, true, List, [], ◌∷◌, Option, none, some, String, ◌==◌,
  if◌then◌else◌, Bool-cases, length, arith,
}
use dsh_dag_orchestrator.Spec.Graphs.{Graph, Edge, is_in}
use dsh_dag_orchestrator.Spec.Closure.Reach.{Upstream, direct, further}
use dsh_dag_orchestrator.Spec.Cycle.{
  Colors, Dfs, white, color_of, all_white, search_from, detect_cycle,
}
use dsh_dag_orchestrator.Spec.Cycle.Walk.{IsCycle, StackWalk}
use dsh_dag_orchestrator.Spec.Cycle.Order.{Left-acyclic}
use dsh_dag_orchestrator.Spec.Cycle.Colors.{Ok, whites}
use dsh_dag_orchestrator.Spec.Cycle.Search.{
  AllLeft, Returns, Color-cases, also, dfs_lem, widen, unless_found-none, unless_found-some,
}

module _ (order : List String) (g : Graph) where
  -- The loop over the tasks in the order of the spec.
  search_from_lem :
      (fuel : ℕ) (ids : List String) (s : Dfs) (fin : List String)
      → Ok order g s fin
      → s.found ≡ none
      → s.stack ≡ []
      → whites order s.color ≤ fuel
      → Returns order g (AllLeft order g ids) (search_from g fuel ids s) s fin
  unfolding search_from
  search_from_lem fuel [] s fin o none_ empty enough =
      (s, refl, omega arith, inr (none_, (fin, o, refl, λ v h. h, λ v h k. absurd (cc))))
  search_from_lem fuel (w ∷ ids) s fin o none_ empty enough =
      elim (Color-cases order g (color_of s.color w)) [
        | inr (inr (inl e)) ↦ absurd (cc (rw empty at ((o.grays w).0 e)))
        | inl e ↦
            let (t, ran, fewer, behind) = search_from_lem fuel ids s fin o none_ empty enough in
            (
              t,
              rw (search_from, e) ran,
              fewer,
              widen order g (AllLeft order g ids) (AllLeft order g (w ∷ ids)) s s fin fin t refl
                  (λ v h. h)
                  (λ last grows p. also order g w ids last (λ k. absurd (o.known w k e)) p) behind,
            )
        | inr (inr (inr e)) ↦
            let (t, ran, fewer, behind) = search_from_lem fuel ids s fin o none_ empty enough in
            (
              t,
              rw (search_from, e) ran,
              fewer,
              widen order g (AllLeft order g ids) (AllLeft order g (w ∷ ids)) s s fin fin t refl
                  (λ v h. h)
                  (λ last grows p. also order g w ids last (λ k. grows w ((o.blacks w).0 e)) p)
                  behind,
            )
        | inr (inl e) ↦
            let alone : StackWalk g w s.stack = rw empty tt in
            let (t, ran, fewer, behind) = dfs_lem order g fuel w s fin o none_ e alone enough in
            elim behind [
              | inl (c, found, cycle) ↦ (
                t,
                rw (search_from, e, ran) (unless_found-some t (search_from g fuel ids) c found),
                fewer,
                inl (c, found, cycle),
              )
              | inr (nothing, (fin', o', st, grows, inside)) ↦
                  let (t', ran', fewer', behind') =
                    search_from_lem fuel ids t fin' o' nothing (st ∙ empty)
                      (omega (arith, fewer, enough)) in
                  (
                    t',
                    rw (search_from, e, ran)
                        (unless_found-none t (search_from g fuel ids) nothing ∙ ran'),
                    omega (arith, fewer, fewer'),
                    widen order g (AllLeft order g ids) (AllLeft order g (w ∷ ids)) s t fin fin' t'
                        st grows (λ last grows' p. also order g w ids last (λ k. grows' w inside) p)
                        behind',
                  )
            ]
      ]

color_of-all_white :
    (order : List String) (v : String)
    → color_of (all_white order) v ≡ (if is_in v order then some white else none)
color_of-all_white [] v = refl
color_of-all_white (id ∷ ids) v = elim (Bool-cases (id == v)) [
  | inl y ↦ rw y refl
  | inr n ↦ rw n (color_of-all_white ids v)
]

whites-length : (ids : List String) (c : Colors) → whites ids c ≤ length ids
whites-length [] c = omega arith
whites-length (id ∷ ids) c = ground (arith, whites-length ids c)

abbrev start : List String → Dfs
start order = record { color = all_white order; stack = []; found = none }

Ok-start : (order : List String) (g : Graph) → Ok order g (start order) []
Ok-start order g = record {
  known = λ v h e. ground (arith, color_of-all_white order v);
  whites = λ v h. ground (arith, color_of-all_white order v);
  grays = λ v. ground (arith, color_of-all_white order v);
  blacks = λ v. ground (arith, color_of-all_white order v);
  left = tt;
}

-- A cycle, or that there is none: no task is upstream of itself.
abbrev pub Decision : Graph → Option (List String) → Type 0
Decision g none = (u : String) → ¬ Upstream g u u
Decision g (some c) = IsCycle g c

in_order :
    (order : List String) (g : Graph)
    → ((u v : String) → Edge g u v → is_in v order ≡ true)
    → (u v : String) → Upstream g u v
    → is_in v order ≡ true
in_order order g known u v (direct e) = known u v e
in_order order g known u v (further {u = w} p e) = known w v e

-- Where every edge leads to a task of the order, the detection of cycles returns: with a walk along
-- edges that ends where it starts, or without one, and then no task is upstream of itself.
pub detect_cycle_decides :
    (order : List String) (g : Graph)
    → ((u v : String) → Edge g u v → is_in v order ≡ true)
    → (r : Option (List String)) × (detect_cycle order g ≡ some r) × Decision g r
unfolding detect_cycle
detect_cycle_decides order g known =
    let (t, ran, fewer, behind) =
      search_from_lem order g (length order) order (start order) [] (Ok-start order g) refl refl
        (whites-length order (all_white order)) in
    elim behind [
      | inl (c, found, cycle) ↦ (some c, rw (detect_cycle, ran, found) refl, cycle)
      | inr (nothing, (fin, o, st, grows, all)) ↦ (
        none,
        rw (detect_cycle, ran, nothing) refl,
        λ u p.
            let k = in_order order g known u u p in
            Left-acyclic order g known fin u o.left (all u k k) p,
      )
    ]
