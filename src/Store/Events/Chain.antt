-- ===== src/Store/Events/Chain.antt =====
-- The event chain of lib/dag-store.js, row by row.
use native.Mathlib.Nat.{add-zero}
use dsh_dag_orchestrator.Prelude.{
  ℕ, suc, ◌+◌, ◌≤◌, ◌≡◌, ◌⊎◌, inl, inr, refl, sym, ◌∙◌, true, List, [], ◌∷◌, ◌++◌, Option, String,
  nat_eq, nat_eq_iff, arith, All, length, Bool-cases, &&-true,
}
use dsh_dag_orchestrator.Json.{Value, JsonError, Printed, text, throws, canonical_json}
use dsh_dag_orchestrator.Store.Rows.{EventRow, Store}
use dsh_dag_orchestrator.Store.Action.{ok, Result-cases}
use dsh_dag_orchestrator.Store.Events.{
  Event, hashed_object, events_of, last_event, last_seq, last_hash, event_guards, next_row,
  insert_event, row_holds, verify_rows, chain_ok,
}

-- The hash that the next row has to carry.
abbrev pub end_hash : String → List EventRow → String
end_hash prev [] = prev
end_hash prev (r ∷ rs) = end_hash r.hash rs

pub last_hash-end :
    (prev : String) (r : EventRow) (rs : List EventRow)
    → last_hash (last_event (r ∷ rs)) ≡ end_hash prev (r ∷ rs)
unfolding last_event
last_hash-end prev r [] = refl
last_hash-end prev r (q ∷ rs) = last_hash-end r.hash q rs

Printed-cases : (p : Printed) → ((t : String) × (p ≡ text t)) ⊎ ((e : JsonError) × (p ≡ throws e))
Printed-cases (text t) = inl (t, refl)
Printed-cases (throws e) = inr (e, refl)

module _ (sha256 : String → String) (parse_json : String → Option Value) where
  verify_rows-cons :
      (n : ℕ) (prev : String) (r : EventRow) (rs : List EventRow)
      → verify_rows sha256 parse_json n prev (r ∷ rs) ≡ chain_ok
      → (row_holds sha256 parse_json n prev r ≡ true)
        × (verify_rows sha256 parse_json (suc n) r.hash rs ≡ chain_ok)
  unfolding verify_rows
  verify_rows-cons n prev r rs h = elim (Bool-cases (row_holds sha256 parse_json n prev r)) [
    | inl e ↦ (e, rw (verify_rows, e) at h)
    | inr e ↦ absurd (cc (rw (verify_rows, e) at h))
  ]

  row_holds-seq :
      (n : ℕ) (prev : String) (r : EventRow)
      → row_holds sha256 parse_json n prev r ≡ true
      → r.seq ≡ n
  unfolding row_holds
  row_holds-seq n prev r h = (nat_eq_iff r.seq n).0 (&&-true (nat_eq r.seq n) _ h).0

  pub verify_rows-append :
      (n : ℕ) (prev : String) (rs : List EventRow) (row : EventRow)
      → verify_rows sha256 parse_json n prev rs ≡ chain_ok
      → row_holds sha256 parse_json (n + length rs) (end_hash prev rs) row ≡ true
      → verify_rows sha256 parse_json n prev (rs ++ row ∷ []) ≡ chain_ok
  unfolding verify_rows
  verify_rows-append n prev [] row h holds =
      let e : row_holds sha256 parse_json n prev row ≡ true = rw (add-zero) at holds in
      rw (verify_rows, e)
  verify_rows-append n prev (r ∷ rs) row h holds =
      let (here, later) = verify_rows-cons n prev r rs h in
      rw (verify_rows, here)
        (verify_rows-append (suc n) r.hash rs row later (rw (add_suc_lem n (length rs)) at holds))
    where
      add_suc_lem : (a b : ℕ) → a + suc b ≡ suc a + b
      add_suc_lem a b = omega arith

  pub verify_rows-seqs :
      (n : ℕ) (prev : String) (rs : List EventRow)
      → verify_rows sha256 parse_json n prev rs ≡ chain_ok
      → All (λ r. r.seq ≤ n + length rs) rs
  verify_rows-seqs n prev [] h = tt
  verify_rows-seqs n prev (r ∷ rs) h =
      let (here, later) = verify_rows-cons n prev r rs h in
      (
        omega (arith, row_holds-seq n prev r here),
        weaken rs (verify_rows-seqs (suc n) r.hash rs later),
      )
    where
      weaken :
          (qs : List EventRow)
          → All (λ q. q.seq ≤ suc n + length rs) qs
          → All (λ q. q.seq ≤ n + suc (length rs)) qs
      weaken [] a = tt
      weaken (q ∷ qs) a = (omega arith, weaken qs a.1)

  pub last_seq-length :
      (n : ℕ) (prev : String) (r : EventRow) (rs : List EventRow)
      → verify_rows sha256 parse_json n prev (r ∷ rs) ≡ chain_ok
      → last_seq (last_event (r ∷ rs)) ≡ n + length rs
  unfolding last_event
  last_seq-length n prev r [] h =
      row_holds-seq n prev r (verify_rows-cons n prev r [] h).0 ∙ omega arith
  last_seq-length n prev r (q ∷ rs) h =
      last_seq-length (suc n) r.hash q rs (verify_rows-cons n prev r (q ∷ rs) h).1 ∙ omega arith

module _ (sha256 : String → String) where
  abbrev pub last_of : String → Store → Option EventRow
  last_of run_id s = last_event (events_of run_id s.events)

  abbrev pub printed_next : String → Event → Store → Printed
  printed_next run_id event s = canonical_json (
      hashed_object (suc (last_seq (last_of run_id s))) event.type event.at event.task_id
        event.attempt_id event.payload)

  -- An insertion that returned appended one row, linked to the run's last one.
  pub insert_event-inv :
      (event_id run_id : String) (event : Event) (s : Store) (row : EventRow)
      → (insert_event sha256 event_id run_id event s).0 ≡ ok row
      → (payload_json canonical : String) × (canonical_json event.payload ≡ text payload_json)
        × (printed_next run_id event s ≡ text canonical)
        × (row ≡ next_row sha256 run_id event payload_json canonical (last_of run_id s) event_id)
        × ((insert_event sha256 event_id run_id event s).1
            ≡ record s { events = s.events ++ row ∷ [] })
  unfolding insert_event
  insert_event-inv event_id run_id event s row h =
      elim (Result-cases (event_guards run_id event s)) [
        | inr (x, e) ↦ absurd (cc (rw (insert_event, e) at h))
        | inl (u, e) ↦ elim (Printed-cases (canonical_json event.payload)) [
          | inr (x, e') ↦ absurd (cc (rw (insert_event, e, e') at h))
          | inl (t, e') ↦ elim (Printed-cases (printed_next run_id event s)) [
            | inr (x, e'') ↦ absurd (cc (rw (insert_event, e, e', e'') at h))
            | inl (c, e'') ↦
                let same : next_row sha256 run_id event t c (last_of run_id s) event_id ≡ row =
                  cc (rw (insert_event, e, e', e'') at h) in
                (t, c, e', e'', sym same, rw (insert_event, e, e', e'', same))
          ]
        ]
      ]
