-- ===== src/Spec/Cycle/Search.antt =====
-- What the search of `detectCycle` keeps.
use dsh_dag_orchestrator.Prelude.{
  ℕ, zero, suc, ◌≤◌, ◌≡◌, ◌⊎◌, ◌∙◌, refl, inl, inr, true, false, List, [], ◌∷◌, Option, none, some,
  String, ◌==◌, eq_iff, Bool-cases, arith,
}
use dsh_dag_orchestrator.Spec.Graphs.{Graph, Edge, is_in, targets}
use dsh_dag_orchestrator.Spec.Cycle.{
  Color, Dfs, white, gray, black, color_of, slice_from, then_next, unless_found, scan, dfs, enter,
  leave,
}
use dsh_dag_orchestrator.Spec.Cycle.Walk.{IsCycle, StackWalk, slice_from-IsCycle}
use dsh_dag_orchestrator.Spec.Cycle.Colors.{
  Ok, Ok-enter, Ok-leave, whites, whites_anti, whites_less,
}

pub unless_found-none :
    (s : Dfs) (next : Dfs → Option Dfs) → s.found ≡ none → unless_found s next ≡ next s
unless_found-none s next h = split s.found h
  where
    split :
        (f : Option (List String))
        → f ≡ none
        → (let t : Dfs = record s { found = f } in unless_found t next ≡ next t)
    split none e = refl
    split (some c) e = absurd (cc)

pub unless_found-some :
    (s : Dfs) (next : Dfs → Option Dfs) (c : List String)
    → s.found ≡ some c
    → unless_found s next ≡ some s
unless_found-some s next c h = split s.found h
  where
    split :
        (f : Option (List String))
        → f ≡ some c
        → (let t : Dfs = record s { found = f } in unless_found t next ≡ some t)
    split none e = absurd (cc)
    split (some x) e = refl

module _ (order : List String) (g : Graph) where
  -- What is known behind a call: a cycle was found, or the stack is the old one and more was left.
  abbrev pub Behind : (List String → Type 0) → Dfs → List String → Dfs → Type 0
  Behind More s fin t =
      ((c : List String) × (t.found ≡ some c) × IsCycle g c)
      ⊎ ((t.found ≡ none)
          × ((fin' : List String) × Ok order g t fin'
              × (t.stack ≡ s.stack)
              × ((v : String) → is_in v fin ≡ true → is_in v fin' ≡ true)
              × More fin'))

  -- A call returns, makes nothing white, and is in order.
  abbrev pub Returns : (List String → Type 0) → Option Dfs → Dfs → List String → Type 0
  Returns More r s fin =
      (t : Dfs) × (r ≡ some t) × (whites order t.color ≤ whites order s.color) × Behind More s fin t

  -- What a call for a white task with its source on the stack does.
  abbrev pub Calls : ℕ → (String → Dfs → Option Dfs) → Type 0
  Calls fuel call =
      (u : String) (s : Dfs) (fin : List String)
      → Ok order g s fin
      → s.found ≡ none
      → color_of s.color u ≡ some white
      → StackWalk g u s.stack
      → whites order s.color ≤ fuel
      → Returns (λ fin'. is_in u fin' ≡ true) (call u s) s fin

  pub Color-cases :
      (o : Option Color) → (o ≡ none) ⊎ ((o ≡ some white) ⊎ ((o ≡ some gray) ⊎ (o ≡ some black)))
  Color-cases none = inl refl
  Color-cases (some white) = inr (inl refl)
  Color-cases (some gray) = inr (inr (inl refl))
  Color-cases (some black) = inr (inr (inr refl))

  abbrev pub Grows : List String → List String → Type 0
  Grows fin fin' = (v : String) → is_in v fin ≡ true → is_in v fin' ≡ true

  -- A later part of the search, seen from an earlier one.
  pub widen :
      (P Q : List String → Type 0) (s s' : Dfs) (fin fin' : List String) (t : Dfs)
      → s'.stack ≡ s.stack
      → Grows fin fin'
      → ((last : List String) → Grows fin' last → P last → Q last)
      → Behind P s' fin' t
      → Behind Q s fin t
  widen P Q s s' fin fin' t st grows more (inl found) = inl found
  widen P Q s s' fin fin' t st grows more (inr (nothing, (last, o, st', grows', p))) =
      inr (nothing, (last, o, st' ∙ st, λ v h. grows' v (grows v h), more last grows' p))

  abbrev pub AllLeft : List String → List String → Type 0
  AllLeft vs fin = (v : String) → is_in v vs ≡ true → is_in v order ≡ true → is_in v fin ≡ true

  pub also :
      (w : String) (vs fin : List String)
      → (is_in w order ≡ true → is_in w fin ≡ true)
      → AllLeft vs fin
      → AllLeft (w ∷ vs) fin
  also w vs fin here rest v h k = elim (Bool-cases (w == v)) [
    | inl y ↦ (let same : w ≡ v = (eq_iff w v).0 y in rw same at (here (rw same k)))
    | inr n ↦ rest v (rw n at h) k
  ]

  -- The loop over the targets of the task on top of the stack.
  scan_lem :
      (fuel : ℕ) (call : String → Dfs → Option Dfs)
      → Calls fuel call
      → (u : String) (rest vs : List String) (s : Dfs) (fin : List String) → Ok order g s fin
      → s.found ≡ none
      → s.stack ≡ u ∷ rest
      → StackWalk g u rest
      → ((v : String) → is_in v vs ≡ true → Edge g u v)
      → whites order s.color ≤ fuel
      → Returns (AllLeft vs) (scan call vs s) s fin
  unfolding scan
  scan_lem fuel call calls u rest [] s fin o none_ top path edges enough =
      (s, refl, omega arith, inr (none_, (fin, o, refl, λ v h. h, λ v h k. absurd (cc))))
  scan_lem fuel call calls u rest (w ∷ vs) s fin o none_ top path edges enough =
      let self : w == w ≡ true = (eq_iff w w).1 refl in
      let edge : Edge g u w = edges w (rw self refl) in
      let edges' : (v : String) → is_in v vs ≡ true → Edge g u v = λ v h. edges v (ground arith) in
      elim (Color-cases (color_of s.color w)) [
        | inr (inr (inl e)) ↦
            let on_stack : is_in w (u ∷ rest) ≡ true = rw top at ((o.grays w).0 e) in
            let cycle : IsCycle g (slice_from w s.stack (w ∷ [])) =
              rw top (slice_from-IsCycle g w u rest w [] on_stack path edge tt refl) in
            (
              record s { found = some (slice_from w s.stack (w ∷ [])) },
              rw (scan, e) refl,
              omega arith,
              inl (slice_from w s.stack (w ∷ []), refl, cycle),
            )
        | inl e ↦
            let (t, ran, fewer, behind) =
              scan_lem fuel call calls u rest vs s fin o none_ top path edges' enough in
            (
              t,
              rw (scan, e) ran,
              fewer,
              widen (AllLeft vs) (AllLeft (w ∷ vs)) s s fin fin t refl (λ v h. h)
                  (λ last grows p. also w vs last (λ k. absurd (o.known w k e)) p) behind,
            )
        | inr (inr (inr e)) ↦
            let (t, ran, fewer, behind) =
              scan_lem fuel call calls u rest vs s fin o none_ top path edges' enough in
            (
              t,
              rw (scan, e) ran,
              fewer,
              widen (AllLeft vs) (AllLeft (w ∷ vs)) s s fin fin t refl (λ v h. h)
                  (λ last grows p. also w vs last (λ k. grows w ((o.blacks w).0 e)) p) behind,
            )
        | inr (inl e) ↦
            let above : StackWalk g w s.stack = rw top (edge, path) in
            let (t, ran, fewer, behind) = calls w s fin o none_ e above enough in
            elim behind [
              | inl (c, found, cycle) ↦ (
                t,
                rw (scan, e, ran) (unless_found-some t (scan call vs) c found),
                fewer,
                inl (c, found, cycle),
              )
              | inr (nothing, (fin', o', st, grows, inside)) ↦
                  let (t', ran', fewer', behind') =
                    scan_lem fuel call calls u rest vs t fin' o' nothing (st ∙ top) path edges'
                      (omega (arith, fewer, enough)) in
                  (
                    t',
                    rw (scan, e, ran) (unless_found-none t (scan call vs) nothing ∙ ran'),
                    omega (arith, fewer, fewer'),
                    widen (AllLeft vs) (AllLeft (w ∷ vs)) s t fin fin' t' st grows
                        (λ last grows' p. also w vs last (λ k. grows' w inside) p) behind',
                  )
            ]
      ]

  pub dfs_lem : (fuel : ℕ) → Calls fuel (dfs g fuel)
  unfolding dfs
  dfs_lem zero u s fin o none_ w path enough =
      absurd (omega (arith, whites_less order u s.color (o.whites u w) w, enough))
  dfs_lem (suc fuel) u s fin o none_ w path enough =
      let less = whites_less order u s.color (o.whites u w) w in
      let off_stack : is_in u s.stack ≡ false = elim (Bool-cases (is_in u s.stack)) [
        | inl h ↦ absurd (cc ((o.grays u).1 h, w))
        | inr h ↦ h
      ] in
      let (t, ran, fewer, behind) =
        scan_lem fuel (dfs g fuel) (dfs_lem fuel) u s.stack (targets g u) (enter u s) fin
          (Ok-enter order g u s fin o w) none_ refl path (λ v h. h) (omega (arith, less, enough)) in
      let close : Dfs → Option Dfs = λ t. some (leave u t) in
      let body : Dfs → Option Dfs =
        λ s. then_next (scan (dfs g fuel) (targets g u) (enter u s)) (λ t. unless_found t close) in
      let entered : dfs g (suc fuel) u s ≡ body s = unless_found-none s body none_ in
      let went : body s ≡ unless_found t close = rw ran refl in
      elim behind [
        | inl (c, found, cycle) ↦ (
          t,
          entered ∙ (went ∙ unless_found-some t close c found),
          omega (arith, fewer, less),
          inl (c, found, cycle),
        )
        | inr (nothing, (fin', o', st, grows, below)) ↦
            let fewer' : whites order ((u, black) ∷ t.color) ≤ whites order t.color =
              whites_anti order u black t.color (λ e. cc) in
            (
              leave u t,
              entered ∙ (went ∙ unless_found-none t close nothing),
              omega (arith, fewer, less, fewer'),
              inr (
                nothing,
                (
                  u ∷ fin',
                  Ok-leave order g u s.stack t fin' o' st off_stack below,
                  rw st refl,
                  λ v h. ground (arith, grows v h),
                  rw ((eq_iff u u).1 refl) refl,
                ),
              ),
            )
      ]
