-- ===== src/Store/Events.antt =====
-- The event chain of lib/dag-store.js: each event carries the hash of the one before it. `sha256` is
-- the hash function of node:crypto, from a text to the hexadecimal text of its digest. The column of the
-- payload holds its canonical text, which the check of the chain parses and prints again.
pub mod Chain
pub mod Append
pub mod Printing
use Prim.Native.String.{◌++◌ as append}
use dsh_dag_orchestrator.Prelude.{
  ℕ, zero, suc, ◌/◌, ◌%◌, Bool, true, false, not, ◌&&◌, List, [], ◌∷◌, ◌++◌, Option, none, some,
  String, ◌==◌, nat_eq, leb, ltb, if◌then◌else◌, filter,
}
use dsh_dag_orchestrator.Prelude.Sort.{sort}
use dsh_dag_orchestrator.Json.{
  Value, number, string, object, Fields, end, field, Printed, text, throws, canonical_json,
  is_undefined,
}
use dsh_dag_orchestrator.Store.Rows.{EventRow, Store}
use dsh_dag_orchestrator.Store.Action.{
  Action, Result, check, err, first_failure, gets, modify, need, need_if_given, ok, pure,
  store_closed, tx_required, type_error, unprintable, ◌>>=◌, ◌>>◌,
}

-- A number in decimal, as the language prints a safe integer.
digit : ℕ → String
digit n =
    if nat_eq n 0
    then "0"
    else if nat_eq n 1
    then "1"
    else if nat_eq n 2
    then "2"
    else if nat_eq n 3
    then "3"
    else if nat_eq n 4
    then "4"
    else if nat_eq n 5
    then "5"
    else if nat_eq n 6
    then "6"
    else if nat_eq n 7
    then "7"
    else if nat_eq n 8
    then "8"
    else "9"

-- The digits from the last one on; a number has at most as many as its value and one.
decimal_from : ℕ → ℕ → String → String
unfolding digit
decimal_from zero n rest = rest
decimal_from (suc fuel) n rest =
    let here = append (digit (n % 10)) rest in
    let more = decimal_from fuel (n / 10) here in if nat_eq (n / 10) 0 then here else more

unfoldable pub decimal : ℕ → String
unfolding decimal_from
decimal n = decimal_from (suc n) n ""

-- `'0'.repeat(64)`
abbrev pub genesis_prev_hash : String
genesis_prev_hash = "0000000000000000000000000000000000000000000000000000000000000000"

-- What a caller hands to `insertEvent`.
pub record Event : Type 0 where
  pub type : String
  pub task_id : Option String
  pub attempt_id : Option String
  pub payload : Value
  pub at : ℕ

abbrev add_field : String → Option String → Fields → Fields
add_field k none fs = fs
add_field k (some v) fs = field k (string v) fs

-- The object that is hashed: `{seq, type, at, task_id?, attempt_id?, payload}`.
unfoldable pub hashed_object : ℕ → String → ℕ → Option String → Option String → Value → Value
unfolding decimal
hashed_object seq type at task_id attempt_id payload = object (
    field "seq" (number (decimal seq)) (
      field "type" (string type) (
        field "at" (number (decimal at)) (
          add_field "task_id" task_id
            (add_field "attempt_id" attempt_id (field "payload" payload end))))))

unfoldable pub hash_input : String → String → String
hash_input prev canonical = append prev (append "\n" canonical)

-- ORDER BY seq
abbrev pub seq_le : EventRow → EventRow → Bool
seq_le a b = leb a.seq b.seq

unfoldable pub events_of : String → List EventRow → List EventRow
unfolding sort
events_of run_id rows = sort seq_le (filter (λ r. r.run_id == run_id) rows)

-- ORDER BY seq DESC LIMIT 1
unfoldable pub last_event : List EventRow → Option EventRow
last_event [] = none
last_event (r ∷ []) = some r
last_event (r ∷ q ∷ rs) = last_event (q ∷ rs)

abbrev pub last_seq : Option EventRow → ℕ
last_seq none = 0
last_seq (some r) = r.seq

abbrev pub last_hash : Option EventRow → String
last_hash none = genesis_prev_hash
last_hash (some r) = r.hash

abbrev pub printed_result : Printed → Result String
printed_result (text t) = ok t
printed_result (throws e) = err (unprintable e)

abbrev pub from_printed : Printed → Action String
from_printed p s = (printed_result p, s)

-- What `verifyChain` answers: the chain holds, or the `seq` of the first row that does not.
pub data Verdict : Type 0 where
  chain_ok : Verdict
  first_bad : ℕ → Verdict

-- The guards of `insertEvent`, in their order.
unfoldable pub event_guards : String → Event → Store → Result (Unit {0})
event_guards run_id event s = first_failure (
    (s.closed, store_closed)
    ∷ (not s.active_tx, tx_required)
    ∷ need run_id "runId"
    ∷ need event.type "event.type"
    ∷ (is_undefined event.payload, type_error "event.payload")
    ∷ need_if_given event.task_id "event.taskId"
    ∷ need_if_given event.attempt_id "event.attemptId"
    ∷ [])

abbrev pub check_event : String → Event → Action (Unit {0})
check_event run_id event s = (event_guards run_id event s, s)

-- `LIMIT ?`, where a limit is given.
unfoldable pub limited : Option ℕ → List EventRow → List EventRow
limited none rows = rows
limited (some n) [] = []
limited (some zero) (r ∷ rs) = []
limited (some (suc n)) (r ∷ rs) = r ∷ limited (some n) rs

unfoldable pub find_events : String → ℕ → Option ℕ → Action (List EventRow)
unfolding limited events_of
find_events run_id after_seq limit = do
  check (need run_id "runId" ∷ [])
  gets (λ s. limited limit (filter (λ r. ltb after_seq r.seq) (events_of run_id s.events)))

module _ (sha256 : String → String) where
  -- The row that is appended behind the run's last event.
  unfoldable pub next_row : String → Event → String → String → Option EventRow → String → EventRow
  next_row run_id event payload_json canonical last event_id = record {
    event_id = event_id;
    run_id = run_id;
    seq = suc (last_seq last);
    type = event.type;
    at = event.at;
    task_id = event.task_id;
    attempt_id = event.attempt_id;
    payload_json = payload_json;
    prev_hash = last_hash last;
    hash = sha256 (hash_input (last_hash last) canonical);
  }

  -- `event_id` is what `randomUUID` gave, and is taken to be fresh; the other key of the table, the run
  -- with `seq`, is free since `seq` is one past the largest of the run. The payload is printed once for its column, where a value
  -- that has no text throws, and once inside the hashed object.
  unfoldable pub insert_event : String → String → Event → Action EventRow
  insert_event event_id run_id event = do
    check_event run_id event
    payload_json ← from_printed (canonical_json event.payload)
    last ← gets (λ s. last_event (events_of run_id s.events))
    canonical ← from_printed (
        canonical_json (
          hashed_object (suc (last_seq last)) event.type event.at event.task_id event.attempt_id
            event.payload))
    let row = next_row run_id event payload_json canonical last event_id
    modify (λ s. record s { events = s.events ++ row ∷ [] })
    pure row

-- `parse_json` is what `JSON.parse` makes of a text, `none` where that throws.
module _ (sha256 : String → String) (parse_json : String → Option Value) where
  -- Whether one row is what the chain expects at `seq` behind `prev`.
  unfoldable pub row_holds : ℕ → String → EventRow → Bool
  row_holds seq prev r =
      nat_eq r.seq seq
      && (r.prev_hash == prev && elim (parse_json r.payload_json) [
        | none ↦ false
        | some payload ↦
            elim (canonical_json (hashed_object r.seq r.type r.at r.task_id r.attempt_id payload)) [
              | text canonical ↦ sha256 (hash_input r.prev_hash canonical) == r.hash
              | throws e ↦ false
            ]
      ])

  unfoldable pub verify_rows : ℕ → String → List EventRow → Verdict
  verify_rows seq prev [] = chain_ok
  verify_rows seq prev (r ∷ rs) =
      let rest = verify_rows (suc seq) r.hash rs in
      if row_holds seq prev r then rest else first_bad r.seq

  unfoldable pub verify_chain : String → Action Verdict
  verify_chain run_id = do
    check (need run_id "runId" ∷ [])
    gets (λ s. verify_rows 1 genesis_prev_hash (events_of run_id s.events))
