-- ===== src/Store/Events/Append.antt =====
-- Insertions into the event chain of lib/dag-store.js.
use mathlib.Core.List.{append-nil}
use dsh_dag_orchestrator.Prelude.{
  ℕ, suc, ◌+◌, ◌≤◌, ◌≡◌, inl, inr, refl, ap, Bool, true, false, List, [], ◌∷◌, ◌++◌, Option, some,
  String, ◌==◌, eq_iff, eq_refl, nat_eq_iff, arith, filter, filter-append, All, length, Bool-cases,
}
use dsh_dag_orchestrator.Prelude.Sort.{sort-append_last, All-sort}
use dsh_dag_orchestrator.Json.{Value, text, canonical_json}
use dsh_dag_orchestrator.Store.Events.Printing.{hashed_object-same}
use dsh_dag_orchestrator.Store.Rows.{EventRow, Store}
use dsh_dag_orchestrator.Store.Action.{Result, ok, Result-cases, first_failure, store_closed, need}
use dsh_dag_orchestrator.Store.Events.{
  Event, hashed_object, hash_input, seq_le, events_of, last_event, last_seq, last_hash,
  genesis_prev_hash, next_row, insert_event, row_holds, verify_rows, verify_chain, chain_ok,
}
use dsh_dag_orchestrator.Store.Events.Chain.{
  end_hash, last_hash-end, verify_rows-append, verify_rows-seqs, last_seq-length, insert_event-inv,
}

events_of-append_other :
    (j : String) (es : List EventRow) (row : EventRow)
    → row.run_id == j ≡ false
    → events_of j (es ++ row ∷ []) ≡ events_of j es
unfolding events_of
events_of-append_other j es row h =
    rw
      (
        events_of,
        filter-append (λ (r : EventRow). r.run_id == j) es (row ∷ []),
        h,
        append-nil (filter (λ (r : EventRow). r.run_id == j) es),
      )
      refl

events_of-append :
    (j : String) (es : List EventRow) (row : EventRow)
    → row.run_id == j ≡ true
    → All (λ r. r.seq ≤ row.seq) (events_of j es)
    → events_of j (es ++ row ∷ []) ≡ events_of j es ++ row ∷ []
unfolding events_of
events_of-append j es row h below =
    rw (events_of, filter-append (λ (r : EventRow). r.run_id == j) es (row ∷ []), h)
      (sort-append_last seq_le mine row (tests mine (All-sort seq_le _ mine below)))
  where
    mine : List EventRow
    mine = filter (λ r. r.run_id == j) es

    tests : (rs : List EventRow) → All (λ r. r.seq ≤ row.seq) rs → All (λ r. seq_le r row ≡ true) rs
    tests [] a = tt
    tests (r ∷ rs) a = (ground arith, tests rs a.1)

-- What `JSON.parse` makes of the canonical text of the payload has that text again. An array without
-- an element at some index is no such payload: its text cannot be parsed.
abbrev pub ReadsBack : (String → Option Value) → Value → Type 0
ReadsBack parse_json payload =
    (t : String)
    → canonical_json payload ≡ text t
    → (v : Value) × (parse_json t ≡ some v) × (canonical_json v ≡ text t)

module _ (sha256 : String → String) (parse_json : String → Option Value) where
  abbrev chain_of : String → Store → List EventRow
  chain_of j s = events_of j s.events

  -- Where the chain ends, in the two ways of saying it.
  next_links :
      (rs : List EventRow)
      → verify_rows sha256 parse_json 1 genesis_prev_hash rs ≡ chain_ok
      → (suc (last_seq (last_event rs)) ≡ 1 + length rs)
        × (last_hash (last_event rs) ≡ end_hash genesis_prev_hash rs)
  unfolding last_event
  next_links [] h = (omega arith, refl)
  next_links (r ∷ rs) h = (
    omega (arith, last_seq-length sha256 parse_json 1 genesis_prev_hash r rs h),
    last_hash-end genesis_prev_hash r rs,
  )

  row_holds-next :
      (run_id : String) (event : Event) (payload_json canonical event_id : String)
      (last : Option EventRow)
      → ReadsBack parse_json event.payload
      → canonical_json event.payload ≡ text payload_json
      → canonical_json (
          hashed_object
            (suc (last_seq last))
            event.type
            event.at
            event.task_id
            event.attempt_id
            event.payload)
        ≡ text canonical
      → row_holds sha256 parse_json
          (suc (last_seq last))
          (last_hash last)
          (next_row sha256 run_id event payload_json canonical last event_id)
        ≡ true
  unfolding row_holds next_row
  row_holds-next run_id event payload_json canonical event_id last reads shown e =
      let (v, parsed, again) = reads payload_json shown in
      let same =
        hashed_object-same (suc (last_seq last)) event.type event.at event.task_id event.attempt_id
          v event.payload payload_json again shown in
      rw (
        row_holds,
        (nat_eq_iff (suc (last_seq last)) _).1 refl,
        eq_refl (last_hash last),
        parsed,
        same,
        e,
        eq_refl (sha256 (hash_input (last_hash last) canonical)),
      )

  seqs_below :
      (n : ℕ) (rs : List EventRow) (row : EventRow)
      → row.seq ≡ n
      → All (λ r. r.seq ≤ n) rs
      → All (λ r. r.seq ≤ row.seq) rs
  seqs_below n [] row e a = tt
  seqs_below n (r ∷ rs) row e a = (omega arith, seqs_below n rs row e a.1)

  extend :
      (run_id : String) (event : Event) (payload_json canonical event_id : String)
      (es : List EventRow)
      → ReadsBack parse_json event.payload
      → canonical_json event.payload ≡ text payload_json
      → let last = last_event (events_of run_id es) in
        canonical_json (
            hashed_object
              (suc (last_seq last))
              event.type
              event.at
              event.task_id
              event.attempt_id
              event.payload)
          ≡ text canonical
        → verify_rows sha256 parse_json 1 genesis_prev_hash (events_of run_id es) ≡ chain_ok
        → verify_rows sha256 parse_json 1 genesis_prev_hash (
            events_of run_id
              (es ++ next_row sha256 run_id event payload_json canonical last event_id ∷ []))
          ≡ chain_ok
  unfolding next_row
  extend run_id event payload_json canonical event_id es reads shown printed v =
      let rs = events_of run_id es in
      let row = next_row sha256 run_id event payload_json canonical (last_event rs) event_id in
      let (seqs, hashes) = next_links rs v in
      let holds : row_holds sha256 parse_json (1 + length rs) (end_hash genesis_prev_hash rs) row
          ≡ true =
        rw (← seqs, ← hashes)
          (row_holds-next run_id event payload_json canonical event_id (last_event rs) reads shown
            printed) in
      let below : All (λ r. r.seq ≤ row.seq) rs =
        seqs_below (1 + length rs) rs row seqs
          (verify_rows-seqs sha256 parse_json 1 genesis_prev_hash rs v) in
      rw (events_of-append run_id es row (eq_refl run_id) below)
        (verify_rows-append sha256 parse_json 1 genesis_prev_hash rs row v holds)

  insert_event-rows :
      (event_id run_id j : String) (event : Event) (s : Store) (row : EventRow)
      → ReadsBack parse_json event.payload
      → (insert_event sha256 event_id run_id event s).0 ≡ ok row
      → verify_rows sha256 parse_json 1 genesis_prev_hash (chain_of j s) ≡ chain_ok
      → verify_rows sha256 parse_json 1 genesis_prev_hash
          (chain_of j (insert_event sha256 event_id run_id event s).1)
        ≡ chain_ok
  unfolding next_row
  insert_event-rows event_id run_id j event s row reads h v =
      let (payload_json, canonical, shown, printed, made, after) =
        insert_event-inv sha256 event_id run_id event s row h in
      let named : row.run_id ≡ run_id = ap (λ r. r.run_id) made in
      rw after (elim (Bool-cases (run_id == j)) [
        | inr other ↦ rw (events_of-append_other j s.events row (rw named other)) v
        | inl same ↦
            let e : run_id ≡ j = (eq_iff run_id j).0 same in
            rw (made, ← e)
              (extend run_id event payload_json canonical event_id s.events reads shown printed
                (rw (← e) at v))
      ])

  abbrev guards : String → Bool → Result (Unit {0})
  guards j closed = first_failure ((closed, store_closed) ∷ need j "runId" ∷ [])

  verify_chain-inv :
      (j : String) (s : Store)
      → (verify_chain sha256 parse_json j s).0 ≡ ok chain_ok
      → (guards j s.closed ≡ ok tt)
        × (verify_rows sha256 parse_json 1 genesis_prev_hash (chain_of j s) ≡ chain_ok)
  unfolding verify_chain
  verify_chain-inv j s v = elim (Result-cases (guards j s.closed)) [
    | inl (u, e) ↦ (e, cc (rw (verify_chain, e) at v))
    | inr (x, e) ↦ absurd (cc (rw (verify_chain, e) at v))
  ]

  -- Where what JSON.parse makes of the canonical text of the payload has that text again, an
  -- insertion of the event that returned leaves the chain of every run that verified verifying.
  pub insert_event-chain :
      (event_id run_id j : String) (event : Event) (s : Store) (row : EventRow)
      → ReadsBack parse_json event.payload
      → (insert_event sha256 event_id run_id event s).0 ≡ ok row
      → (verify_chain sha256 parse_json j s).0 ≡ ok chain_ok
      → (verify_chain sha256 parse_json j (insert_event sha256 event_id run_id event s).1).0
        ≡ ok chain_ok
  unfolding verify_chain
  insert_event-chain event_id run_id j event s row reads h v =
      let (payload_json, canonical, shown, printed, made, after) =
        insert_event-inv sha256 event_id run_id event s row h in
      let (open_, holds) = verify_chain-inv j s v in
      let now = insert_event-rows event_id run_id j event s row reads h holds in
      rw after (rw (verify_chain, open_) (ap ok (rw after at now)))
