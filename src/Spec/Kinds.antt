-- ===== src/Spec/Kinds.antt =====
-- The kind matrix of lib/spec-validate.js: what a task of each kind must and must not declare.
use Prim.Native.Char.{code}
use Prim.Native.String.{◌++◌ as append}
use dsh_dag_orchestrator.Prelude.{
  ℕ, Bool, true, false, not, ◌&&◌, ◌||◌, List, [], ◌∷◌, ◌++◌, Option, none, some, String, ◌==◌,
  nat_eq, leb, ltb, if◌then◌else◌, any, filter, find, is_some,
}
use dsh_dag_orchestrator.Store.Events.{decimal}
use dsh_dag_orchestrator.Ready.{on_succeeded, on_completed, DependencyEdge}
use dsh_dag_orchestrator.Spec.{SpecError, TaskSpec, agent, approval, merge, fault, indexed}
use dsh_dag_orchestrator.Spec.Tasks.{each}

-- The white space that `trim` removes.
abbrev is_space : ℕ → Bool
is_space n =
    (leb 9 n && leb n 13)
    || any (nat_eq n) (32 ∷ 160 ∷ 5760 ∷ 8232 ∷ 8233 ∷ 8239 ∷ 8287 ∷ 12288 ∷ 65279 ∷ [])
    || (leb 8192 n && leb n 8202)

-- `s.trim().length === 0`
unfoldable pub is_blank : String → Bool
is_blank String.[] = true
is_blank (String.◌∷◌ c s) = is_space (code c) && is_blank s

abbrev when : Bool → SpecError → List SpecError
when b e = if b then e ∷ [] else []

abbrev task_path : ℕ → String → String
task_path ti field = indexed "tasks" ti (append "." field)

abbrev no_prompt : Option String → Bool
no_prompt none = true
no_prompt (some p) = is_blank p

unfoldable pub agent_errors : ℕ → TaskSpec → List SpecError
unfolding is_blank indexed
agent_errors ti task =
    when (no_prompt task.prompt) (
      fault "dag.prompt_required" (task_path ti "prompt")
        ("agent task '" ∷ task.id ∷ "' requires a non-empty 'prompt'" ∷ []))
    ++ when (is_some task.worktree && is_some task.cwd) (
        fault "dag.worktree_cwd_conflict" (task_path ti "cwd") (
          "task '" ∷ task.id
          ∷ "' declares both 'worktree' and 'cwd' — a worktree-declaring task's cwd is the engine-provided worktree path; drop the 'cwd' field"
          ∷ []))

-- APPROVAL_FORBIDDEN_FIELDS, each with whether the task declares it.
unfoldable pub forbidden_fields : TaskSpec → List (String × Bool)
forbidden_fields task =
    ("backend", is_some task.backend)
    ∷ ("model", is_some task.model)
    ∷ ("provider", is_some task.provider)
    ∷ ("persona", is_some task.persona)
    ∷ ("toolFilter", is_some task.tool_filter)
    ∷ ("cwd", is_some task.cwd)
    ∷ ("maxTokens", is_some task.max_tokens)
    ∷ ("maxDepth", is_some task.max_depth)
    ∷ ("delegation", is_some task.delegation)
    ∷ ("worktree", is_some task.worktree)
    ∷ ("verify", is_some task.verify)
    ∷ []

abbrev forbidden_errors : ℕ → String → List (String × Bool) → List SpecError
forbidden_errors ti id [] = []
forbidden_errors ti id ((field, set) ∷ fields) =
    when set (
      fault "dag.kind_field_mismatch" (task_path ti field) (
        "approval task '" ∷ id ∷ "' must not set '" ∷ field
        ∷ "' (approvals are not subagent delegations)" ∷ []))
    ++ forbidden_errors ti id fields

abbrev too_many_attempts : ℕ → String → Option ℕ → List SpecError
too_many_attempts ti id none = []
too_many_attempts ti id (some n) = when (ltb 1 n) (
    fault "dag.kind_field_mismatch" (task_path ti "retry.maxAttempts") (
      "approval task '" ∷ id ∷ "' must not set retry.maxAttempts > 1 (got " ∷ decimal n ∷ ")" ∷ []))

abbrev is_nil {ℓ} : {A : Type ℓ} → List A → Bool
is_nil [] = true
is_nil (x ∷ xs) = false

unfoldable pub approval_errors : ℕ → TaskSpec → List SpecError
unfolding forbidden_fields decimal indexed
approval_errors ti task =
    when (not (is_some task.approval_block)) (
      fault "dag.kind_field_mismatch" (task_path ti "approval")
        ("approval task '" ∷ task.id ∷ "' requires an 'approval' block" ∷ []))
    ++ (too_many_attempts ti task.id task.max_attempts
        ++ (forbidden_errors ti task.id (forbidden_fields task)
            ++ when (not (is_nil task.outputs)) (
                fault "dag.kind_field_mismatch" (task_path ti "outputs")
                  ("approval task '" ∷ task.id ∷ "' must not declare outputs" ∷ []))))

abbrev is_source_edge : DependencyEdge → Bool
is_source_edge dep = elim dep.condition [ on_succeeded ↦ true | on_completed ↦ false ]

abbrev has_worktree : List TaskSpec → DependencyEdge → Bool
has_worktree tasks dep = elim (find (λ (t : TaskSpec). t.id == dep.task_id) tasks) [
  | none ↦ false
  | some upstream ↦ is_some upstream.worktree
]

unfoldable pub merge_errors : List TaskSpec → ℕ → TaskSpec → List SpecError
unfolding indexed
merge_errors tasks ti task =
    let sources = filter is_source_edge task.depends_on in
    when (is_nil task.depends_on) (
      fault "dag.kind_field_mismatch" (task_path ti "dependsOn")
        ("merge task '" ∷ task.id ∷ "' requires at least one dependsOn upstream" ∷ []))
    ++ (when (not (is_nil sources) && not (any (has_worktree tasks) sources)) (
          fault "dag.merge_source_missing" (task_path ti "dependsOn") (
            "merge task '" ∷ task.id
            ∷ "' is_in no worktree-declaring task among its succeeded-condition upstreams — a merge integrates its upstreams' worktrees (declare worktree: {task} on at least one source task)"
            ∷ []))
        ++ when (is_nil sources) (
            fault "dag.merge_source_missing" (task_path ti "dependsOn") (
              "merge task '" ∷ task.id
              ∷ "' declares no succeeded-condition dependency — its sources are exactly the succeeded upstreams that declare a worktree"
              ∷ [])))

unfoldable pub kind_errors : List TaskSpec → ℕ → TaskSpec → List SpecError
unfolding agent_errors approval_errors merge_errors
kind_errors tasks ti task = elim task.kind [
  | agent ↦ agent_errors ti task
  | approval ↦ approval_errors ti task
  | merge ↦ merge_errors tasks ti task
]

unfoldable pub check_kinds : List TaskSpec → List SpecError
unfolding kind_errors
check_kinds tasks = each (kind_errors tasks) 0 tasks
