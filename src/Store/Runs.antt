-- ===== src/Store/Runs.antt =====
-- The methods of lib/dag-store.js on the table `runs`.
pub mod Races
use mathlib.Core.Bool.{decide}
use dsh_dag_orchestrator.Prelude.{
  ℕ, suc, Bool, true, false, not, ◌&&◌, List, [], ◌∷◌, ◌++◌, Option, none, some, String, ◌==◌,
  nat_eq, ltb, if◌then◌else◌, filter, find, get_or,
}
use dsh_dag_orchestrator.Prelude.Texts.{text_le}
use dsh_dag_orchestrator.Prelude.Sort.{sort}
use dsh_dag_orchestrator.Store.Rows.{RunState, RunState-discrete, RunRow}
use dsh_dag_orchestrator.Store.Action.{
  Action, Cas, Current, check, constraint, done, gets, mismatch, modify, need, need_if_given,
  not_found, pure, throw, ◌>>=◌, ◌>>◌,
}
use dsh_dag_orchestrator.Store.Tables.{update_where, changes, is_same}

-- RUN_TERMINAL_STATES
abbrev pub run_is_terminal : RunState → Bool
run_is_terminal RunState.succeeded = true
run_is_terminal RunState.failed = true
run_is_terminal RunState.cancelled = true
run_is_terminal _ = false

-- The columns that `casRunState` may patch; an absent one is left alone.
pub record RunPatch : Type 0 where
  pub control_intent : Option (Option String)
  pub parent_session : Option (Option String)
  pub base_cwd : Option String
  pub name : Option (Option String)

abbrev pub no_run_patch : RunPatch
no_run_patch = record { control_intent = none; parent_session = none; base_cwd = none; name = none }

abbrev pub run_at : String → RunRow → Bool
run_at run_id r = r.run_id == run_id

-- ORDER BY created_at, run_id
abbrev run_le : RunRow → RunRow → Bool
run_le a b =
    if ltb a.created_at b.created_at
    then true
    else if ltb b.created_at a.created_at
    then false
    else text_le a.run_id b.run_id

unfoldable pub find_run : String → Action (Option RunRow)
find_run run_id = do check (need run_id "runId" ∷ []); gets (λ s. find (run_at run_id) s.runs)

unfoldable pub insert_run : RunRow → Action (Option RunRow)
unfolding find_run
insert_run row = do
  check (
      need row.run_id "run_id"
      ∷ need row.spec_json "spec_json"
      ∷ need row.spec_hash "spec_hash"
      ∷ need row.base_cwd "base_cwd"
      ∷ [])
  taken ← gets (λ s. changes (run_at row.run_id) s.runs)
  if nat_eq taken 0
      then modify (λ s. record s { runs = s.runs ++ row ∷ [] })
      else throw (constraint "runs.run_id")
  find_run row.run_id

unfoldable pub find_non_terminal_runs : Action (List RunRow)
unfolding sort text_le
find_non_terminal_runs = do
  check ([])
  gets (λ s. sort run_le (filter (λ r. not (run_is_terminal r.state)) s.runs))

unfoldable pub find_all_runs : Action (List RunRow)
unfolding sort text_le
find_all_runs = do check ([]); gets (λ s. sort run_le s.runs)

unfoldable pub find_runs_by_planner_session : String → Action (List RunRow)
unfolding sort text_le
find_runs_by_planner_session session = do
  check (need session "plannerSession" ∷ [])
  gets (λ s. sort run_le (filter (λ r. is_same r.planner_session (some session)) s.runs))

abbrev pub run_matches : String → RunState → ℕ → RunRow → Bool
run_matches run_id from version r =
    run_at run_id r && (decide (RunState-discrete r.state from) && nat_eq r.version version)

abbrev pub set_run : RunState → RunPatch → ℕ → RunRow → RunRow
set_run to patch now r = record r {
  state = to;
  version = suc r.version;
  updated_at = now;
  control_intent = get_or patch.control_intent r.control_intent;
  parent_session = get_or patch.parent_session r.parent_session;
  base_cwd = get_or patch.base_cwd r.base_cwd;
  name = get_or patch.name r.name;
}

abbrev pub run_current : RunRow → Current RunState
run_current r = record { state = r.state; version = r.version }

abbrev pub run_lost : Option RunRow → Cas RunRow (Current RunState)
run_lost none = not_found
run_lost (some r) = mismatch (run_current r)

-- The `UPDATE` and the answer that `changes` decides. The row that it set is there to be read back.
unfoldable pub cas_runs :
    String
    → RunState
    → ℕ
    → RunState
    → RunPatch
    → ℕ
    → List RunRow
    → Cas RunRow (Current RunState) × List RunRow
unfolding RunState-discrete
cas_runs run_id from version to patch now rows =
    let rows' = update_where (run_matches run_id from version) (set_run to patch now) rows in
    if nat_eq (changes (run_matches run_id from version) rows) 1
    then (elim (find (run_at run_id) rows') [ some r ↦ done r | none ↦ not_found ], rows')
    else (run_lost (find (run_at run_id) rows), rows')

unfoldable pub cas_run_state :
    String → RunState → ℕ → RunState → RunPatch → ℕ → Action (Cas RunRow (Current RunState))
unfolding cas_runs
cas_run_state run_id from version to patch now = do
  check (need run_id "runId" ∷ [])
  answer ← gets (λ s. cas_runs run_id from version to patch now s.runs)
  modify (λ s. record s { runs = answer.1 })
  pure answer.0

unfoldable pub set_control_intent :
    String → Option String → ℕ → Action (Cas RunRow (Current RunState))
set_control_intent run_id intent now = do
  check (need run_id "runId" ∷ need_if_given intent "intent" ∷ [])
  hit ← gets (λ s. changes (run_at run_id) s.runs)
  modify (λ s. record s {
    runs =
        update_where (run_at run_id) (λ r. record r { control_intent = intent; updated_at = now })
          s.runs;
  })
  row ← gets (λ s. find (run_at run_id) s.runs)
  pure (if nat_eq hit 0 then not_found else elim row [ some r ↦ done r | none ↦ not_found ])
