-- ===== src/Engine/Retry/Budget.antt =====
-- The budget of `shouldRetry` in lib/engine.js.
use mathlib.Core.Path.{subst}
use dsh_dag_orchestrator.Prelude.{
  ℕ, suc, ◌<◌, ◌≡◌, ◌≢◌, ◌↔◌, ◌⊎◌, inl, inr, refl, sym, Option, true, false, ◌==◌, eq_iff, any,
  List, [], ◌∷◌, ◌++◌, String, filter, filter-append, length-append, get_or, arith, Bool-cases,
}
use dsh_dag_orchestrator.Prelude.Int.{ℤ}
use dsh_dag_orchestrator.Json.{Value}
use dsh_dag_orchestrator.Store.Rows.{EventRow}
use dsh_dag_orchestrator.TerminalCommit.{Failure}
use dsh_dag_orchestrator.Engine.{failure_type_to_policy_key}
use dsh_dag_orchestrator.Engine.Retry.{
  RetryPolicy, is_named, is_execution_retry, execution_retries, decide_retry,
}

-- The name under which a policy lists a kind of failure.
abbrev pub IsPolicyKey : String → String → Type 0
IsPolicyKey t key =
    ((t ≡ "transient") × (key ≡ "transient_network"))
    ⊎ (((t ≡ "timeout") × (key ≡ "transient_network"))
        ⊎ ((t ≢ "transient") × (t ≢ "timeout") × (key ≡ t)))

not_same : (a b : String) → a == b ≡ false → a ≢ b
not_same a b n = λ h. (let y = (eq_iff a b).1 h in absurd (cc))

same_not : (a b : String) → a ≢ b → a == b ≡ false
same_not a b n = elim (Bool-cases (a == b)) [ inl y ↦ absurd (n ((eq_iff a b).0 y)) | inr e ↦ e ]

failure_type_to_policy_key-IsPolicyKey : (t : String) → IsPolicyKey t (failure_type_to_policy_key t)
unfolding failure_type_to_policy_key
failure_type_to_policy_key-IsPolicyKey t = elim (Bool-cases (t == "transient")) [
  | inl y ↦
      let same : failure_type_to_policy_key t ≡ "transient_network" =
        rw (failure_type_to_policy_key, y) refl in
      inl ((eq_iff t "transient").0 y, same)
  | inr n ↦ elim (Bool-cases (t == "timeout")) [
    | inl y ↦
        let same : failure_type_to_policy_key t ≡ "transient_network" =
          rw (failure_type_to_policy_key, n, y) refl in
        inr (inl ((eq_iff t "timeout").0 y, same))
    | inr m ↦
        let same : failure_type_to_policy_key t ≡ t = rw (failure_type_to_policy_key, n, m) refl in
        inr (inr (not_same t "transient" n, not_same t "timeout" m, same))
  ]
]

IsPolicyKey-failure_type_to_policy_key :
    (t key : String) → IsPolicyKey t key → failure_type_to_policy_key t ≡ key
unfolding failure_type_to_policy_key
IsPolicyKey-failure_type_to_policy_key t key (inl (same, k)) = rw (same, k) refl
IsPolicyKey-failure_type_to_policy_key t key (inr (inl (same, k))) = rw (same, k) refl
IsPolicyKey-failure_type_to_policy_key t key (inr (inr (a, b, k))) =
    rw (failure_type_to_policy_key, same_not t "transient" a, same_not t "timeout" b, k) refl

-- The key is an entry of the list.
abbrev pub IsEntry : String → List String → Type 0
IsEntry key [] = ⊥
IsEntry key (k ∷ ks) = (k ≡ key) ⊎ IsEntry key ks

any-IsEntry : (key : String) (ks : List String) → any (λ j. j == key) ks ≡ true → IsEntry key ks
any-IsEntry key [] h = absurd (cc)
any-IsEntry key (k ∷ ks) h = elim (Bool-cases (k == key)) [
  | inl y ↦ inl ((eq_iff k key).0 y)
  | inr n ↦ inr (any-IsEntry key ks (rw n at h))
]

IsEntry-any : (key : String) (ks : List String) → IsEntry key ks → any (λ j. j == key) ks ≡ true
IsEntry-any key [] h = absurd h
IsEntry-any key (k ∷ ks) (inl same) = rw ((eq_iff k key).1 same) refl
IsEntry-any key (k ∷ ks) (inr more) = elim (Bool-cases (k == key)) [
  | inl y ↦ rw y refl
  | inr n ↦ rw n (IsEntry-any key ks more)
]

-- A policy that lists nothing covers every failure, one that lists kinds those alone.
abbrev pub Covers : List String → String → Type 0
Covers ks t = (ks ≡ []) ⊎ ((key : String) × IsPolicyKey t key × IsEntry key ks)

is_named-Covers :
    (ks : List String) (t : String)
    → is_named ks (failure_type_to_policy_key t) ≡ true
    → Covers ks t
is_named-Covers [] t h = inl refl
is_named-Covers (k ∷ ks) t h = inr (
  failure_type_to_policy_key t,
  failure_type_to_policy_key-IsPolicyKey t,
  any-IsEntry (failure_type_to_policy_key t) (k ∷ ks) h,
)

Covers-is_named :
    (ks : List String) (t : String)
    → Covers ks t
    → is_named ks (failure_type_to_policy_key t) ≡ true
Covers-is_named [] t c = refl
Covers-is_named (k ∷ ks) t (inl e) = absurd (cc)
Covers-is_named (k ∷ ks) t (inr (key, is_key, entry)) =
    let same : key ≡ failure_type_to_policy_key t =
      sym (IsPolicyKey-failure_type_to_policy_key t key is_key) in
    IsEntry-any (failure_type_to_policy_key t) (k ∷ ks) (subst (λ x. IsEntry x (k ∷ ks)) same entry)

module _ (jitter : ℕ → String → ℤ) where
  -- A retry is granted exactly where the retries so far, the first attempt and this one leave the
  -- allowed attempts unexceeded, and the policy lists the kind of failure, under transient_network
  -- where that is transient or timeout and by its own name otherwise, or lists none.
  pub decide_retry_iff :
      (p : RetryPolicy) (failure : Failure) (retries : ℕ)
      → ((decide_retry jitter p failure retries).retry ≡ true) ↔ (
          (suc retries < get_or p.max_attempts 1)
          × Covers (get_or p.retry_on []) failure.failure_type)
  unfolding decide_retry
  decide_retry_iff p failure retries =
      let key = failure_type_to_policy_key failure.failure_type in
      let granted : ((decide_retry jitter p failure retries).retry ≡ true) ↔ (
          (suc retries < get_or p.max_attempts 1) × (is_named (get_or p.retry_on []) key ≡ true)) =
        (λ h. ground arith, λ (lt, named). ground arith) in
      (
        λ h.
            let (lt, named) = granted.0 h in
            (lt, is_named-Covers (get_or p.retry_on []) failure.failure_type named),
        λ (lt, covers).
            granted.1 (lt, Covers-is_named (get_or p.retry_on []) failure.failure_type covers),
      )

  -- Where a retry is granted, the retries of the task that its policy pays for stay below the
  -- allowed attempts once any one event more is written.
  pub decide_retry-execution_retries :
      (parse_json : String → Option Value) (p : RetryPolicy) (failure : Failure) (task_id : String)
      (events : List EventRow) (e : EventRow)
      → (decide_retry jitter p failure (execution_retries parse_json task_id events)).retry ≡ true
      → execution_retries parse_json task_id (events ++ e ∷ []) < get_or p.max_attempts 1
  unfolding execution_retries
  decide_retry-execution_retries parse_json p failure task_id events e h =
      let lt = ((decide_retry_iff p failure (execution_retries parse_json task_id events)).0 h).0 in
      rw
        (
          execution_retries,
          filter-append (is_execution_retry parse_json task_id) events (e ∷ []),
          length-append (filter (is_execution_retry parse_json task_id) events)
              (filter (is_execution_retry parse_json task_id) (e ∷ [])),
        )
        (elim (Bool-cases (is_execution_retry parse_json task_id e)) [
          | inl y ↦ rw y (omega (arith, lt))
          | inr n ↦ rw n (omega (arith, lt))
        ])
