-- ===== src/Store/Attempts/Races.antt =====
-- Who ends an attempt: `commitTerminal` of lib/dag-store.js.
use dsh_dag_orchestrator.Prelude.{
  ℕ, ◌≡◌, inl, inr, refl, Bool, true, false, ◌&&◌, List, Option, none, some, String, if◌then◌else◌,
  find, arith, Bool-cases, Option-cases,
}
use dsh_dag_orchestrator.Store.Rows.{AttemptState, AttemptRow}
use dsh_dag_orchestrator.Store.Tables.{update_where, is_same}
use dsh_dag_orchestrator.Store.Tables.Keyed.{
  IsKeyed, update-none, find-none, changes-and, guard-fails, guard-holds, changes-update,
}
use dsh_dag_orchestrator.Store.Attempts.{
  TerminalPatch, attempt_at, in_flight, attempt_is_terminal, set_attempt, commit_attempts, Commit,
  committed, no_attempt, not_in_flight, owner_mismatch,
}

-- What ending an attempt is to answer and to leave, from the row under its id.
abbrev pub commit_promise :
    String
    → Option String
    → AttemptState
    → TerminalPatch
    → ℕ
    → List AttemptRow
    → Option AttemptRow
    → Commit × List AttemptRow
commit_promise attempt_id owner target patch now rows none = (no_attempt, rows)
commit_promise attempt_id owner target patch now rows (some r) =
    if in_flight r.state
    then (if is_same r.owner_token owner
        then (
          committed (set_attempt target patch now r),
          update_where (attempt_at attempt_id) (set_attempt target patch now) rows,
        )
        else (owner_mismatch r, rows))
    else (not_in_flight r, rows)

-- Where at most one row has the id, an attempt is ended only while it is in flight and by the owner
-- it names; in every other case nothing changes, and the answer names what stood against it.
pub commit_attempts_lem :
    (attempt_id : String) (owner : Option String) (target : AttemptState) (patch : TerminalPatch)
    (now : ℕ) (rows : List AttemptRow)
    → IsKeyed (attempt_at attempt_id) rows
    → commit_attempts attempt_id owner target patch now rows
      ≡ commit_promise attempt_id owner target patch now rows (find (attempt_at attempt_id) rows)
unfolding commit_attempts
commit_attempts_lem attempt_id owner target patch now rows u =
    let k = attempt_at attempt_id in
    let q : AttemptRow → Bool = λ r. in_flight r.state && is_same r.owner_token owner in
    let f = set_attempt target patch now in
    let m : AttemptRow → Bool = λ x. k x && q x in
    elim (Option-cases (find k rows)) [
      | inl e ↦
          let zero_hits = changes-and k q rows (find-none k rows e) in
          rw (commit_attempts, zero_hits, e, update-none m f rows zero_hits)
      | inr (r, e) ↦ elim (Bool-cases (in_flight r.state)) [
        | inr n ↦
            let zero_hits = guard-fails k q rows r u e (rw n refl) in
            rw (commit_attempts, zero_hits, e, n, update-none m f rows zero_hits)
        | inl y ↦ elim (Bool-cases (is_same r.owner_token owner)) [
          | inr n ↦
              let zero_hits = guard-fails k q rows r u e (rw (y, n) refl) in
              rw (commit_attempts, zero_hits, e, y, n, update-none m f rows zero_hits)
          | inl z ↦
              let (one, same, found) = guard-holds k q f (λ x. refl) rows r u e (rw (y, z) refl) in
              rw (commit_attempts, one, e, y, z, same, found)
        ]
      ]
    ]

terminal_not_in_flight : (s : AttemptState) → attempt_is_terminal s ≡ true → in_flight s ≡ false
terminal_not_in_flight AttemptState.claimed h = absurd (cc)
terminal_not_in_flight AttemptState.running h = absurd (cc)
terminal_not_in_flight AttemptState.succeeded h = refl
terminal_not_in_flight AttemptState.failed h = refl
terminal_not_in_flight AttemptState.cancelled h = refl
terminal_not_in_flight AttemptState.orphaned h = refl

-- Where at most one row has the id, the first to end an attempt with a terminal target decides:
-- whoever comes later, with whatever token and outcome, is shown the row that won and changes
-- nothing.
pub commit_attempts-first_wins :
    (attempt_id : String) (owner owner' : Option String) (target target' : AttemptState)
    (patch patch' : TerminalPatch) (now now' : ℕ) (rows : List AttemptRow) (r : AttemptRow)
    → IsKeyed (attempt_at attempt_id) rows
    → attempt_is_terminal target ≡ true
    → (commit_attempts attempt_id owner target patch now rows).0 ≡ committed r
    → commit_attempts attempt_id owner' target' patch' now'
        (commit_attempts attempt_id owner target patch now rows).1
      ≡ (not_in_flight r, (commit_attempts attempt_id owner target patch now rows).1)
commit_attempts-first_wins attempt_id owner owner' target target' patch patch' now now' rows r u
      ends won =
    let k = attempt_at attempt_id in
    let q : AttemptRow → Bool = λ r. in_flight r.state && is_same r.owner_token owner in
    let f = set_attempt target patch now in
    let first = commit_attempts_lem attempt_id owner target patch now rows u in
    elim (Option-cases (find k rows)) [
      | inl e ↦ absurd (cc (rw (first, e) at won))
      | inr (x, e) ↦ elim (Bool-cases (in_flight x.state)) [
        | inr n ↦ absurd (cc (rw (first, e, n) at won))
        | inl y ↦ elim (Bool-cases (is_same x.owner_token owner)) [
          | inr n ↦ absurd (cc (rw (first, e, y, n) at won))
          | inl z ↦
              let (one, same, found) = guard-holds k q f (λ w. refl) rows x u e (rw (y, z) refl) in
              let new : f x ≡ r = cc (rw (first, e, y, z) at won) in
              let left = update_where k f rows in
              let u' : IsKeyed k left = omega (arith, changes-update k k f (λ w. refl) rows, u) in
              rw (first, e, y, z)
                (rw
                  (
                    commit_attempts_lem attempt_id owner' target' patch' now' left u',
                    found,
                    terminal_not_in_flight target ends,
                    new,
                  )
                  refl)
        ]
      ]
    ]
