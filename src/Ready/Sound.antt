-- ===== src/Ready/Sound.antt =====
-- The ways in which lib/ready-evaluator.js judges one task.
use dsh_dag_orchestrator.Prelude.{
  ◌≡◌, ◌⊎◌, inl, inr, refl, sym, Bool, true, false, List, [], ◌∷◌, Option, none, some, String, All,
  Option-cases, Bool-cases, filter-nil, nil-filter,
}
use dsh_dag_orchestrator.Ready.{
  SpecTask, TaskView, Options, BlockedReason, on_inputs, output_missing, Control, control_blocked,
  control_done, control_of, view_of, is_ready_source, inputs_block, Outcome, skipped, is_ready,
  is_blocked_by, outcome_of,
}
use dsh_dag_orchestrator.Ready.Edges.{EdgeHolds}

-- Declared inputs need a resolver that finds each of them.
abbrev pub InputsPresent : Options → List String → Type 0
InputsPresent opts [] = Unit
InputsPresent opts (r ∷ rs) =
    (present : String → Bool) × (opts.output_resolver ≡ some present)
    × All (λ x. present x ≡ true) (r ∷ rs)

-- What it takes for a task to be ready.
pub record IsReady (opts : Options) (views : List TaskView) (task : SpecTask) : Type 0 where
  pub view : TaskView
  pub found : view_of views task.id ≡ some view
  pub source : is_ready_source view opts.now ≡ true
  pub edges : All (EdgeHolds opts views) task.depends_on
  pub inputs : InputsPresent opts task.inputs

module _ (opts : Options) where
  missing-none :
      (l rs : List String)
      → (elim l as (λ _. Option BlockedReason) [
        | [] ↦ none
        | m ∷ ms ↦ some (on_inputs output_missing (m ∷ ms))
      ])
        ≡ none
      → l ≡ []
  missing-none [] rs h = refl
  missing-none (m ∷ ms) rs h = absurd (cc (sym h))

  pub inputs_block-none :
      (refs : List String) → inputs_block opts refs ≡ none → InputsPresent opts refs
  unfolding inputs_block
  inputs_block-none [] h = tt
  inputs_block-none (r ∷ rs) h = elim (Option-cases opts.output_resolver) [
    | inl e ↦ absurd (cc (rw e at h))
    | inr (present, e) ↦ (present, e, filter-nil present (r ∷ rs) (missing-none _ rs (rw e at h)))
  ]

  pub InputsPresent-none :
      (refs : List String) → InputsPresent opts refs → inputs_block opts refs ≡ none
  unfolding inputs_block
  InputsPresent-none [] h = refl
  InputsPresent-none (r ∷ rs) (present, e, all) =
      rw (inputs_block, e, nil-filter present (r ∷ rs) all)

Control-cases :
    (c : Control)
    → (c ≡ control_done false)
      ⊎ ((c ≡ control_done true) ⊎ ((r : BlockedReason) × (c ≡ control_blocked r)))
Control-cases (control_done false) = inl refl
Control-cases (control_done true) = inr (inl refl)
Control-cases (control_blocked r) = inr (inr (r, refl))

module _ (opts : Options) (views : List TaskView) (task : SpecTask) where
  abbrev control_verdict : Control
  control_verdict = control_of opts views task.depends_on false

  -- Every way through `outcome_of`, with the tests that led there.
  pub data Way : Outcome → Type 0 where
    unlisted : view_of views task.id ≡ none → Way skipped
    not_source :
        (v : TaskView)
        → view_of views task.id ≡ some v
        → is_ready_source v opts.now ≡ false
        → Way skipped
    waits :
        (v : TaskView)
        → view_of views task.id ≡ some v
        → is_ready_source v opts.now ≡ true
        → control_verdict ≡ control_done true
        → Way skipped
    blocked_edge :
        (v : TaskView) (r : BlockedReason)
        → view_of views task.id ≡ some v
        → is_ready_source v opts.now ≡ true
        → control_verdict ≡ control_blocked r
        → Way (is_blocked_by r)
    blocked_input :
        (v : TaskView) (r : BlockedReason)
        → view_of views task.id ≡ some v
        → is_ready_source v opts.now ≡ true
        → control_verdict ≡ control_done false
        → inputs_block opts task.inputs ≡ some r
        → Way (is_blocked_by r)
    goes :
        (v : TaskView)
        → view_of views task.id ≡ some v
        → is_ready_source v opts.now ≡ true
        → control_verdict ≡ control_done false
        → inputs_block opts task.inputs ≡ none
        → Way is_ready

  pub outcome_of-Way : Way (outcome_of opts views task)
  unfolding outcome_of
  outcome_of-Way = elim (Option-cases (view_of views task.id)) [
    | inl e ↦ rw (outcome_of, e) (unlisted e)
    | inr (v, e) ↦ elim (Bool-cases (is_ready_source v opts.now)) [
      | inr s ↦ rw (outcome_of, e, s) (not_source v e s)
      | inl s ↦ elim (Control-cases control_verdict) [
        | inl c ↦ elim (Option-cases (inputs_block opts task.inputs)) [
          | inl i ↦ rw (outcome_of, e, s, c, i) (goes v e s c i)
          | inr (r, i) ↦ rw (outcome_of, e, s, c, i) (blocked_input v r e s c i)
        ]
        | inr (inl c) ↦ rw (outcome_of, e, s, c) (waits v e s c)
        | inr (inr (r, c)) ↦ rw (outcome_of, e, s, c) (blocked_edge v r e s c)
      ]
    ]
  ]
