-- ===== src/Store/Attempts.antt =====
-- The methods of lib/dag-store.js on the table `attempts`.
pub mod Races
use dsh_dag_orchestrator.Prelude.{
  ℕ, Bool, true, false, not, ◌&&◌, ◌||◌, List, [], ◌∷◌, ◌++◌, Option, none, some, String, ◌==◌,
  nat_eq, leb, ltb, if◌then◌else◌, filter, find, any, get_or,
}
use dsh_dag_orchestrator.Prelude.Texts.{text_le}
use dsh_dag_orchestrator.Prelude.Sort.{sort}
use dsh_dag_orchestrator.Store.Rows.{AttemptState, AttemptRow}
use dsh_dag_orchestrator.Store.Action.{
  Action, check, constraint, gets, modify, need, need_if_given, pure, throw, type_error, ◌>>=◌,
  ◌>>◌,
}
use dsh_dag_orchestrator.Store.Tables.{update_where, changes, is_same}

-- ATTEMPT_NON_TERMINAL_STATES
abbrev pub in_flight : AttemptState → Bool
in_flight AttemptState.claimed = true
in_flight AttemptState.running = true
in_flight _ = false

abbrev pub attempt_at : String → AttemptRow → Bool
attempt_at attempt_id r = r.attempt_id == attempt_id

abbrev pub attempt_of : String → String → AttemptRow → Bool
attempt_of run_id task_id r = r.run_id == run_id && r.task_id == task_id

-- ORDER BY ordinal
abbrev ordinal_le : AttemptRow → AttemptRow → Bool
ordinal_le a b = leb a.ordinal b.ordinal

-- ORDER BY started_at, attempt_id
abbrev started_le : AttemptRow → AttemptRow → Bool
started_le a b =
    if ltb a.started_at b.started_at
    then true
    else if ltb b.started_at a.started_at
    then false
    else text_le a.attempt_id b.attempt_id

unfoldable pub find_attempt : String → Action (Option AttemptRow)
find_attempt attempt_id = do
  check (need attempt_id "attemptId" ∷ [])
  gets (λ s. find (attempt_at attempt_id) s.attempts)

unfoldable pub find_attempts : String → String → Action (List AttemptRow)
unfolding sort
find_attempts run_id task_id = do
  check (need run_id "runId" ∷ need task_id "taskId" ∷ [])
  gets (λ s. sort ordinal_le (filter (attempt_of run_id task_id) s.attempts))

unfoldable pub find_non_terminal_attempts : String → Action (List AttemptRow)
unfolding sort text_le
find_non_terminal_attempts run_id = do
  check (need run_id "runId" ∷ [])
  gets (λ s. sort started_le (filter (λ r. r.run_id == run_id && in_flight r.state) s.attempts))

unfoldable pub has_non_terminal_attempt : String → String → Action Bool
has_non_terminal_attempt run_id task_id = do
  check (need run_id "runId" ∷ need task_id "taskId" ∷ [])
  gets (λ s. any (λ r. attempt_of run_id task_id r && in_flight r.state) s.attempts)

-- The two keys of the table: `attempt_id`, and `(run_id, task_id, ordinal)`.
abbrev pub attempt_clashes : AttemptRow → AttemptRow → Bool
attempt_clashes row r =
    attempt_at row.attempt_id r
    || (attempt_of row.run_id row.task_id r && nat_eq r.ordinal row.ordinal)

unfoldable pub insert_attempt : AttemptRow → Action (Option AttemptRow)
unfolding find_attempt
insert_attempt row = do
  check (
      need row.attempt_id "attempt_id"
      ∷ need row.run_id "run_id"
      ∷ need row.task_id "task_id"
      ∷ need row.backend "backend"
      ∷ [])
  taken ← gets (λ s. changes (attempt_clashes row) s.attempts)
  if nat_eq taken 0
      then modify (λ s. record s { attempts = s.attempts ++ row ∷ [] })
      else throw (constraint "attempts.attempt_id")
  find_attempt row.attempt_id

-- What `commitTerminal` and `updateAttemptChildSession` answer.
pub data Commit : Type 0 where
  committed : AttemptRow → Commit
  no_attempt : Commit
  not_in_flight owner_mismatch : AttemptRow → Commit

abbrev pub commit_ok : Commit → Bool
commit_ok (committed r) = true
commit_ok _ = false

abbrev live_at : String → AttemptRow → Bool
live_at attempt_id r = attempt_at attempt_id r && in_flight r.state

abbrev updated : Option AttemptRow → Commit
updated (some r) = committed r
updated none = no_attempt

abbrev not_updated : Option AttemptRow → Commit
not_updated none = no_attempt
not_updated (some r) = not_in_flight r

unfoldable pub update_attempt_child_session : String → String → ℕ → Action Commit
update_attempt_child_session attempt_id session now = do
  check (need attempt_id "attemptId" ∷ need session "childSession" ∷ [])
  before ← gets (λ s. s.attempts)
  let after =
      update_where (live_at attempt_id)
        (λ (r : AttemptRow). record r { child_session = some session; updated_at = now }) before
  modify (λ s. record s { attempts = after })
  pure (
      if nat_eq (changes (live_at attempt_id) before) 1
      then updated (find (attempt_at attempt_id) after)
      else not_updated (find (attempt_at attempt_id) after))

-- The columns that `commitTerminal` may patch; an absent one is left alone.
pub record TerminalPatch : Type 0 where
  pub stop_reason : Option (Option String)
  pub failure_json : Option (Option String)
  pub result_json : Option (Option String)

-- ATTEMPT_TERMINAL_STATES
abbrev pub attempt_is_terminal : AttemptState → Bool
attempt_is_terminal AttemptState.succeeded = true
attempt_is_terminal AttemptState.failed = true
attempt_is_terminal AttemptState.cancelled = true
attempt_is_terminal AttemptState.orphaned = true
attempt_is_terminal _ = false

-- The double guard: still in flight, and the caller's owner token is the row's.
abbrev pub commit_matches : String → Option String → AttemptRow → Bool
commit_matches attempt_id owner r =
    attempt_at attempt_id r && (in_flight r.state && is_same r.owner_token owner)

abbrev pub set_attempt : AttemptState → TerminalPatch → ℕ → AttemptRow → AttemptRow
set_attempt target patch now r = record r {
  state = target;
  updated_at = now;
  stop_reason = get_or patch.stop_reason r.stop_reason;
  failure_json = get_or patch.failure_json r.failure_json;
  result_json = get_or patch.result_json r.result_json;
}

abbrev pub commit_lost : Option AttemptRow → Commit
commit_lost none = no_attempt
commit_lost (some r) = if in_flight r.state then owner_mismatch r else not_in_flight r

unfoldable pub commit_attempts :
    String
    → Option String
    → AttemptState
    → TerminalPatch
    → ℕ
    → List AttemptRow
    → Commit × List AttemptRow
commit_attempts attempt_id owner target patch now rows =
    let m = commit_matches attempt_id owner in
    let rows' = update_where m (set_attempt target patch now) rows in
    if nat_eq (changes m rows) 1
    then (updated (find (attempt_at attempt_id) rows'), rows')
    else (commit_lost (find (attempt_at attempt_id) rows), rows')

unfoldable pub commit_terminal :
    String → Option String → AttemptState → TerminalPatch → ℕ → Action Commit
unfolding commit_attempts
commit_terminal attempt_id owner target patch now = do
  check (
      need attempt_id "attemptId"
      ∷ need_if_given owner "ownerId"
      ∷ (not (attempt_is_terminal target), type_error "target")
      ∷ [])
  answer ← gets (λ s. commit_attempts attempt_id owner target patch now s.attempts)
  modify (λ s. record s { attempts = answer.1 })
  pure answer.0
