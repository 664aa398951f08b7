-- ===== src/Store/Events/Printing.antt =====
-- The printing of the hashed object of an event of lib/dag-store.js.
use Prim.Native.String.{◌++◌ as append}
use dsh_dag_orchestrator.Prelude.{
  ℕ, suc, ◌≡◌, inl, inr, refl, sym, ap, ◌∙◌, true, false, List, [], ◌∷◌, ◌++◌, Option, none, some,
  String, ◌==◌, All, Bool-cases,
}
use dsh_dag_orchestrator.Prelude.Sort.{sort, sort-All}
use dsh_dag_orchestrator.Json.{
  Value, null, boolean, array, undefined, bigint, function, symbol, number, quote, string, object,
  Fields, end, field, Printed, text, throws, PrintedList, texts, list_throws, key_le, bodies,
  cons_text, map_text, joined, is_undefined, canonical_json, canonical_fields,
}
use dsh_dag_orchestrator.Store.Rows.{EventRow, Store}
use dsh_dag_orchestrator.Store.Action.{ok, need_if_given}
use dsh_dag_orchestrator.Store.Events.{
  Event, decimal, add_field, hash_input, hashed_object, last_hash, last_seq, last_event, events_of,
  event_guards, next_row, insert_event,
}

-- It has a text.
abbrev Prints : Printed → Type 0
Prints p = (t : String) × (p ≡ text t)

abbrev AllPrint : List (String × Printed) → Type 0
AllPrint ps = All (λ f. Prints f.1) ps

abbrev AllTexts : PrintedList → Type 0
AllTexts l = (ts : List String) × (l ≡ texts ts)

map_text-Prints : (f : String → String) (p : Printed) → Prints p → Prints (map_text f p)
map_text-Prints f (text t) h = (f t, refl)
map_text-Prints f (throws e) (t, h) = absurd (cc)

cons_text-AllTexts :
    (p : Printed) (l : PrintedList) → Prints p → AllTexts l → AllTexts (cons_text p l)
cons_text-AllTexts (throws e) l (t, h) (ts, g) = absurd (cc)
cons_text-AllTexts (text t) (texts ts) h g = (t ∷ ts, refl)
cons_text-AllTexts (text t) (list_throws e) h (ts, g) = absurd (cc)

joined-Prints : (f : String → String) (l : PrintedList) → AllTexts l → Prints (joined f l)
joined-Prints f (texts ts) h = (_, refl)
joined-Prints f (list_throws e) (ts, h) = absurd (cc)

bodies-AllTexts : (ps : List (String × Printed)) → AllPrint ps → AllTexts (bodies ps)
bodies-AllTexts [] a = ([], refl)
bodies-AllTexts ((k, p) ∷ ps) (here, more) =
    cons_text-AllTexts _ (bodies ps) (map_text-Prints _ p here) (bodies-AllTexts ps more)

object-Prints : (fs : Fields) → AllPrint (canonical_fields fs) → Prints (canonical_json (object fs))
unfolding canonical_json
object-Prints fs a =
    joined-Prints (λ t. append "{" (append t "}")) (bodies (sort key_le (canonical_fields fs)))
      (bodies-AllTexts (sort key_le (canonical_fields fs))
        (sort-All key_le _ (canonical_fields fs) a))

field-Prints :
    (k : String) (v : Value) (fs : Fields)
    → Prints (canonical_json v)
    → AllPrint (canonical_fields fs)
    → AllPrint (canonical_fields (field k v fs))
unfolding canonical_fields
field-Prints k v fs p a = elim (Bool-cases (is_undefined v)) [
  | inl e ↦ rw e a
  | inr e ↦ rw e (p, a)
]

add_field-Prints :
    (k : String) (v : Option String) (fs : Fields)
    → AllPrint (canonical_fields fs)
    → AllPrint (canonical_fields (add_field k v fs))
unfolding canonical_json
add_field-Prints k none fs a = a
add_field-Prints k (some v) fs a = field-Prints k (string v) fs (_, refl) a

hashed_object-Prints :
    (seq : ℕ) (type : String) (at : ℕ) (task_id attempt_id : Option String) (payload : Value)
    → Prints (canonical_json payload)
    → Prints (canonical_json (hashed_object seq type at task_id attempt_id payload))
unfolding hashed_object canonical_json
hashed_object-Prints seq type at task_id attempt_id payload p =
    let f₆ = field "payload" payload end in
    let f₅ = add_field "attempt_id" attempt_id f₆ in
    let f₄ = add_field "task_id" task_id f₅ in
    let f₃ = field "at" (number (decimal at)) f₄ in
    let f₂ = field "type" (string type) f₃ in
    let f₁ = field "seq" (number (decimal seq)) f₂ in
    object-Prints f₁ (
      field-Prints "seq" (number (decimal seq)) f₂ (decimal seq, refl)
        (field-Prints "type" (string type) f₃ (quote type, refl)
          (field-Prints "at" (number (decimal at)) f₄ (decimal at, refl)
            (add_field-Prints "task_id" task_id f₅ (
              add_field-Prints "attempt_id" attempt_id f₆
                (field-Prints "payload" payload end p tt))))))

prints-defined : (v : Value) (t : String) → canonical_json v ≡ text t → is_undefined v ≡ false
unfolding canonical_json
prints-defined undefined t h = absurd (cc)
prints-defined null t h = refl
prints-defined (boolean b) t h = refl
prints-defined (number n) t h = refl
prints-defined (string s) t h = refl
prints-defined (array xs) t h = refl
prints-defined (object fs) t h = refl
prints-defined bigint t h = refl
prints-defined function t h = refl
prints-defined symbol t h = refl

printed_field :
    (k : String) (v : Value) (fs : Fields) (t : String)
    → canonical_json v ≡ text t
    → canonical_fields (field k v fs) ≡ (k, text t) ∷ canonical_fields fs
unfolding canonical_fields
printed_field k v fs t h = rw (canonical_fields, prints-defined v t h, h) refl

-- Two lists of fields that print alike do so behind one field more.
field-same :
    (k : String) (v : Value) (fs gs : Fields)
    → canonical_fields fs ≡ canonical_fields gs
    → canonical_fields (field k v fs) ≡ canonical_fields (field k v gs)
unfolding canonical_fields
field-same k v fs gs h = elim (Bool-cases (is_undefined v)) [
  | inl e ↦ rw (canonical_fields, e) h
  | inr e ↦ rw (canonical_fields, e) (ap ((k, canonical_json v) ∷◌) h)
]

add_field-same :
    (k : String) (v : Option String) (fs gs : Fields)
    → canonical_fields fs ≡ canonical_fields gs
    → canonical_fields (add_field k v fs) ≡ canonical_fields (add_field k v gs)
add_field-same k none fs gs h = h
add_field-same k (some v) fs gs h = field-same k (string v) fs gs h

-- Of the payload, the text alone counts in what is hashed.
pub hashed_object-same :
    (seq : ℕ) (type : String) (at : ℕ) (task_id attempt_id : Option String) (v w : Value)
    (t : String)
    → canonical_json v ≡ text t
    → canonical_json w ≡ text t
    → canonical_json (hashed_object seq type at task_id attempt_id v)
      ≡ canonical_json (hashed_object seq type at task_id attempt_id w)
unfolding hashed_object canonical_json
hashed_object-same seq type at task_id attempt_id v w t pv pw =
    let f₅ : Value → Fields = λ x. add_field "attempt_id" attempt_id (field "payload" x end) in
    let f₄ : Value → Fields = λ x. add_field "task_id" task_id (f₅ x) in
    let f₃ : Value → Fields = λ x. field "at" (number (decimal at)) (f₄ x) in
    let f₂ : Value → Fields = λ x. field "type" (string type) (f₃ x) in
    let payloads = printed_field "payload" v end t pv ∙ sym (printed_field "payload" w end t pw) in
    let e₅ =
      add_field-same "attempt_id" attempt_id (field "payload" v end) (field "payload" w end)
        payloads in
    let e₄ = add_field-same "task_id" task_id (f₅ v) (f₅ w) e₅ in
    let e₃ = field-same "at" (number (decimal at)) (f₄ v) (f₄ w) e₄ in
    let e₂ = field-same "type" (string type) (f₃ v) (f₃ w) e₃ in
    ap (λ fs. joined (λ t. append "{" (append t "}")) (bodies (sort key_le fs)))
      (field-same "seq" (number (decimal seq)) (f₂ v) (f₂ w) e₂)

-- An id that is given is no empty text.
abbrev pub IsGiven : Option String → Type 0
IsGiven none = Unit
IsGiven (some id) = (id == "" ≡ false)

need_if_given-IsGiven :
    (id : Option String) (name : String) → IsGiven id → (need_if_given id name).0 ≡ false
need_if_given-IsGiven none name h = refl
need_if_given-IsGiven (some id) name h = h

event_guards-pass :
    (run_id : String) (event : Event) (s : Store)
    → s.closed ≡ false
    → s.active_tx ≡ true
    → run_id == "" ≡ false
    → event.type == "" ≡ false
    → is_undefined event.payload ≡ false
    → IsGiven event.task_id
    → IsGiven event.attempt_id
    → event_guards run_id event s ≡ ok tt
unfolding event_guards
event_guards-pass run_id event s open_ inside named typed defined task attempt =
    rw
      (
        event_guards,
        open_,
        inside,
        named,
        typed,
        defined,
        need_if_given-IsGiven event.task_id "event.taskId" task,
        need_if_given-IsGiven event.attempt_id "event.attemptId" attempt,
      )
      refl

module _ (sha256 : String → String) where
  -- The row that continues the chain of the run behind its last row.
  abbrev pub Continues : String → Event → String → Option EventRow → EventRow → Type 0
  Continues run_id event payload_json last row =
      (row.run_id ≡ run_id)
      × (row.seq ≡ suc (last_seq last))
      × ((row.type ≡ event.type) × (row.at ≡ event.at))
      × ((row.task_id ≡ event.task_id) × (row.attempt_id ≡ event.attempt_id))
      × (row.prev_hash ≡ last_hash last)
      × (row.payload_json ≡ payload_json)
      × ((canonical : String) × (canonical_json
              (hashed_object row.seq row.type row.at row.task_id row.attempt_id event.payload)
            ≡ text canonical)
          × (row.hash ≡ sha256 (hash_input row.prev_hash canonical)))

  -- In an open store, inside a transaction, an insertion of an event with an id of its run, a type,
  -- no empty id and a payload that has a canonical text returns: the object that is hashed has a
  -- text too. The row that it answers with is the one that was appended: it has what the event says,
  -- the next seq of the run, the hash of the last row of the run, the text of the payload, and the
  -- hash of that hash and of its own canonical text.
  pub insert_event_returns :
      (event_id run_id : String) (event : Event) (s : Store) (t : String)
      → s.closed ≡ false
      → s.active_tx ≡ true
      → run_id == "" ≡ false
      → event.type == "" ≡ false
      → IsGiven event.task_id
      → IsGiven event.attempt_id
      → canonical_json event.payload ≡ text t
      → (row : EventRow) × (insert_event sha256 event_id run_id event s
          ≡ (ok row, record s { events = s.events ++ row ∷ [] }))
        × Continues run_id event t (last_event (events_of run_id s.events)) row
  unfolding insert_event next_row
  insert_event_returns event_id run_id event s t open_ inside named typed task attempt printed =
      let last = last_event (events_of run_id s.events) in
      let passed =
        event_guards-pass run_id event s open_ inside named typed
          (prints-defined event.payload t printed) task attempt in
      let (c, e) =
        hashed_object-Prints (suc (last_seq last)) event.type event.at event.task_id
          event.attempt_id event.payload (t, printed) in
      let row = next_row sha256 run_id event t c last event_id in
      (
        row,
        rw (insert_event, passed, printed, e) refl,
        (refl, refl, (refl, refl), (refl, refl), refl, refl, (c, e, refl)),
      )
