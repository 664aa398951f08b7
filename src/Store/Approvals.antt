-- ===== src/Store/Approvals.antt =====
-- The methods of lib/dag-store.js on the table `approvals`.
use dsh_dag_orchestrator.Prelude.{
  ℕ, Bool, true, false, not, ◌&&◌, List, [], ◌∷◌, ◌++◌, Option, none, some, String, ◌==◌, nat_eq,
  ltb, if◌then◌else◌, filter, find,
}
use dsh_dag_orchestrator.Prelude.Texts.{text_le}
use dsh_dag_orchestrator.Prelude.Sort.{sort}
use dsh_dag_orchestrator.Store.Rows.{ApprovalState, ApprovalRow}
use dsh_dag_orchestrator.Store.Action.{
  Action, Cas, check, constraint, done, gets, mismatch, modify, need, not_found, pure, throw,
  type_error, ◌>>=◌, ◌>>◌,
}
use dsh_dag_orchestrator.Store.Tables.{update_where, changes}

abbrev pub is_pending : ApprovalState → Bool
is_pending ApprovalState.pending = true
is_pending _ = false

abbrev pub is_decided : ApprovalState → Bool
is_decided ApprovalState.approved = true
is_decided ApprovalState.rejected = true
is_decided _ = false

abbrev pub approval_at : String → ApprovalRow → Bool
approval_at id r = r.approval_id == id

abbrev before_or : ℕ → ℕ → Bool → Bool
before_or a b tie = if ltb a b then true else if ltb b a then false else tie

-- ORDER BY created_at, approval_id
abbrev created_le : ApprovalRow → ApprovalRow → Bool
created_le a b = before_or a.created_at b.created_at (text_le a.approval_id b.approval_id)

-- ORDER BY decided_at, approval_id; a `NULL` comes first.
abbrev decided_le : ApprovalRow → ApprovalRow → Bool
decided_le a b = elim a.decided_at [
  | none ↦ elim b.decided_at [ none ↦ text_le a.approval_id b.approval_id | some t ↦ true ]
  | some t ↦ elim b.decided_at [
    | none ↦ false
    | some u ↦ before_or t u (text_le a.approval_id b.approval_id)
  ]
]

unfoldable pub insert_approval : ApprovalRow → Action (Option ApprovalRow)
insert_approval row = do
  check (
      need row.approval_id "approval_id"
      ∷ need row.run_id "run_id"
      ∷ need row.task_id "task_id"
      ∷ need row.action "action"
      ∷ [])
  taken ← gets (λ s. changes (approval_at row.approval_id) s.approvals)
  if nat_eq taken 0
      then modify (λ s. record s { approvals = s.approvals ++ row ∷ [] })
      else throw (constraint "approvals.approval_id")
  gets (λ s. find (approval_at row.approval_id) s.approvals)

unfoldable pub find_pending_approvals : String → Action (List ApprovalRow)
unfolding sort text_le
find_pending_approvals run_id = do
  check (need run_id "runId" ∷ [])
  gets (λ s. sort created_le (filter (λ r. r.run_id == run_id && is_pending r.state) s.approvals))

unfoldable pub find_approvals_by_task : String → String → Action (List ApprovalRow)
unfolding sort text_le
find_approvals_by_task run_id task_id = do
  check (need run_id "runId" ∷ need task_id "taskId" ∷ [])
  gets (λ s. sort created_le (filter (λ r. r.run_id == run_id && r.task_id == task_id) s.approvals))

unfoldable pub find_decided_approvals : String → Action (List ApprovalRow)
unfolding sort text_le
find_decided_approvals run_id = do
  check (need run_id "runId" ∷ [])
  gets (λ s. sort decided_le (filter (λ r. r.run_id == run_id && is_decided r.state) s.approvals))

abbrev pub pending_at : String → ApprovalRow → Bool
pending_at id r = approval_at id r && is_pending r.state

-- `COALESCE(?, note)`
abbrev coalesce : Option String → Option String → Option String
coalesce none old = old
coalesce (some n) old = some n

abbrev pub set_decision : ApprovalState → Option String → ℕ → ApprovalRow → ApprovalRow
set_decision decision note now r = record r {
  state = decision;
  note = coalesce note r.note;
  decided_at = some now;
}

unfoldable pub decide_rows :
    String
    → ApprovalState
    → Option String
    → ℕ
    → List ApprovalRow
    → Cas ApprovalRow ApprovalRow × List ApprovalRow
decide_rows id decision note now rows =
    let rows' = update_where (pending_at id) (set_decision decision note now) rows in
    if nat_eq (changes (pending_at id) rows) 1
    then (elim (find (approval_at id) rows') [ some r ↦ done r | none ↦ not_found ], rows')
    else (elim (find (approval_at id) rows) [ some r ↦ mismatch r | none ↦ not_found ], rows')

-- `mismatch` is the answer `already_decided`.
unfoldable pub decide_approval :
    String → ApprovalState → Option String → ℕ → Action (Cas ApprovalRow ApprovalRow)
unfolding decide_rows
decide_approval id decision note now = do
  check (need id "approvalId" ∷ (not (is_decided decision), type_error "decision") ∷ [])
  answer ← gets (λ s. decide_rows id decision note now s.approvals)
  modify (λ s. record s { approvals = answer.1 })
  pure answer.0
