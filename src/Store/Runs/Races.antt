-- ===== src/Store/Runs/Races.antt =====
-- Who wins a compare-and-set on a run of lib/dag-store.js.
use mathlib.Core.Bool.{decide}
use dsh_dag_orchestrator.Prelude.{
  ℕ, suc, ◌≤◌, ◌≡◌, inl, inr, refl, Bool, true, false, ◌&&◌, List, Option, none, some, String,
  nat_eq, nat_eq_iff, if◌then◌else◌, find, arith, Bool-cases, Option-cases, &&-true,
}
use dsh_dag_orchestrator.Store.Rows.{RunState, RunState-discrete, RunRow}
use dsh_dag_orchestrator.Store.Action.{Cas, Current, done, not_found, mismatch}
use dsh_dag_orchestrator.Store.Tables.{update_where}
use dsh_dag_orchestrator.Store.Tables.Keyed.{
  IsKeyed, update-none, find-none, changes-and, guard-fails, guard-holds, changes-update,
}
use dsh_dag_orchestrator.Store.Runs.{RunPatch, run_at, set_run, run_current, cas_runs}

-- What a compare-and-set expects of the row it finds.
abbrev pub run_expected : RunState → ℕ → RunRow → Bool
run_expected from version r = decide (RunState-discrete r.state from) && nat_eq r.version version

-- What a compare-and-set is to answer and to leave, from the row under its key.
abbrev pub cas_run_promise :
    String
    → RunState
    → ℕ
    → RunState
    → RunPatch
    → ℕ
    → List RunRow
    → Option RunRow
    → Cas RunRow (Current RunState) × List RunRow
cas_run_promise run_id from version to patch now rows none = (not_found, rows)
cas_run_promise run_id from version to patch now rows (some r) =
    if run_expected from version r
    then (done (set_run to patch now r), update_where (run_at run_id) (set_run to patch now) rows)
    else (mismatch (run_current r), rows)

-- Where at most one row has the id, a compare-and-set on a run changes that row if its state and
-- version are the expected ones, and answers with the new row; otherwise it changes nothing, and
-- answers with the state and the version of the row that is there, or that there is none.
pub cas_runs_lem :
    (run_id : String) (from : RunState) (version : ℕ) (to : RunState) (patch : RunPatch) (now : ℕ)
    (rows : List RunRow)
    → IsKeyed (run_at run_id) rows
    → cas_runs run_id from version to patch now rows
      ≡ cas_run_promise run_id from version to patch now rows (find (run_at run_id) rows)
unfolding cas_runs
cas_runs_lem run_id from version to patch now rows u =
    let k = run_at run_id in
    let q = run_expected from version in
    let f = set_run to patch now in
    let m : RunRow → Bool = λ x. k x && q x in
    elim (Option-cases (find k rows)) [
      | inl e ↦
          let zero_hits = changes-and k q rows (find-none k rows e) in
          rw (cas_runs, zero_hits, e, update-none m f rows zero_hits)
      | inr (r, e) ↦ elim (Bool-cases (q r)) [
        | inl y ↦
            let (one, same, found) = guard-holds k q f (λ x. refl) rows r u e y in
            rw (cas_runs, one, e, y, same, found)
        | inr n ↦
            let zero_hits = guard-fails k q rows r u e n in
            rw (cas_runs, zero_hits, e, n, update-none m f rows zero_hits)
      ]
    ]

-- A winner raised the version.
later_run_version :
    (from from' : RunState) (version w : ℕ) (to : RunState) (patch : RunPatch) (now : ℕ)
    (r : RunRow)
    → run_expected from version r ≡ true
    → w ≤ version
    → run_expected from' w (set_run to patch now r) ≡ false
later_run_version from from' version w to patch now r y le =
    let same : r.version ≡ version =
      (nat_eq_iff r.version version).0 (&&-true _ (nat_eq r.version version) y).1 in
    elim (Bool-cases (run_expected from' w (set_run to patch now r))) [
      | inr n ↦ n
      | inl e ↦
          let again : suc r.version ≡ w =
            (nat_eq_iff (suc r.version) w).0 (&&-true _ (nat_eq (suc r.version) w) e).1 in
          absurd (omega (arith, same, again, le))
    ]

-- Where at most one row has the id, once a compare-and-set on a run won, one that expects no later a
-- version loses, is shown the state and the version that the winner left and changes nothing.
pub cas_runs-stale_loses :
    (run_id : String) (from from' : RunState) (version w : ℕ) (to to' : RunState)
    (patch patch' : RunPatch) (now now' : ℕ) (rows : List RunRow) (r : RunRow)
    → IsKeyed (run_at run_id) rows
    → (cas_runs run_id from version to patch now rows).0 ≡ done r
    → w ≤ version
    → cas_runs run_id from' w to' patch' now' (cas_runs run_id from version to patch now rows).1
      ≡ (mismatch (run_current r), (cas_runs run_id from version to patch now rows).1)
cas_runs-stale_loses run_id from from' version w to to' patch patch' now now' rows r u won le =
    let k = run_at run_id in
    let f = set_run to patch now in
    let q = run_expected from version in
    let first = cas_runs_lem run_id from version to patch now rows u in
    elim (Option-cases (find k rows)) [
      | inl e ↦ absurd (cc (rw (first, e) at won))
      | inr (x, e) ↦ elim (Bool-cases (q x)) [
        | inr n ↦ absurd (cc (rw (first, e, n) at won))
        | inl y ↦
            let (one, same, found) = guard-holds k q f (λ z. refl) rows x u e y in
            let new : f x ≡ r = cc (rw (first, e, y) at won) in
            let left = update_where k f rows in
            let u' : IsKeyed k left = omega (arith, changes-update k k f (λ z. refl) rows, u) in
            rw (first, e, y, ← new)
              (rw
                (
                  cas_runs_lem run_id from' w to' patch' now' left u',
                  found,
                  later_run_version from from' version w to patch now x y le,
                )
                refl)
      ]
    ]
