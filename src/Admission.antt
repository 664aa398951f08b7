-- ===== src/Admission.antt =====
-- lib/admission.js: the agent slots of each run and the session keys of the process, all in memory.
-- A `Map` is a list of its entries in the order of insertion, and a `Set` of slots the list of them. A
-- slot number is a safe integer that is not negative, which the code checks when it is given one.
pub mod Slots
pub mod Keys
mod Witnesses
use dsh_dag_orchestrator.Prelude.{
  ℕ, zero, suc, ◌+◌, Bool, true, false, not, List, [], ◌∷◌, ◌++◌, Option, none, some, String, ◌==◌,
  nat_eq, leb, if◌then◌else◌, filter, any, length, is_some, get_or,
}

pub record Admission : Type 0 where
  pub slots_by_run : List (String × List ℕ)
  pub session_keys : List (String × String)

-- A call returns or throws a TypeError about the argument it names.
pub data Answer {ℓ} (A : Type ℓ) : Type ℓ where
  returns : A → Answer A
  throws : String → Answer A

-- The handle of a slot, and the bare number that older callers hand back.
pub record SlotHandle : Type 0 where
  pub slot : ℕ
  pub run_id : String

pub data Handle : Type 0 where
  handle : SlotHandle → Handle
  number : ℕ → Handle

unfoldable pub create_admission : Admission
create_admission = record { slots_by_run = []; session_keys = [] }

module _ {ℓ} {A : Type ℓ} where
  -- `map.get(k)`
  unfoldable pub get : String → List (String × A) → Option A
  get k [] = none
  get k ((j, a) ∷ es) = if j == k then some a else get k es

  -- `map.set(k, a)`: in the entry's place, or at the end.
  unfoldable pub set : String → A → List (String × A) → List (String × A)
  set k a [] = (k, a) ∷ []
  set k a ((j, b) ∷ es) = if j == k then (j, a) ∷ es else (j, b) ∷ set k a es

  -- `map.delete(k)`
  unfoldable pub delete : String → List (String × A) → List (String × A)
  delete k [] = []
  delete k ((j, a) ∷ es) = if j == k then es else (j, a) ∷ delete k es

-- `held.has(n)`, and `held` without it.
unfoldable pub has : ℕ → List ℕ → Bool
has n held = any (λ m. nat_eq m n) held

unfoldable pub without : ℕ → List ℕ → List ℕ
without n held = filter (λ m. not (nat_eq m n)) held

-- The loop over the slot numbers from `n` on, `tries` of them.
unfoldable pub lowest_free : ℕ → ℕ → List ℕ → Option ℕ
unfolding has
lowest_free zero n held = none
lowest_free (suc tries) n held =
    let later = lowest_free tries (suc n) held in if has n held then later else some n

unfoldable pub held_slots : String → Admission → List ℕ
unfolding get
held_slots run_id a = get_or (get run_id a.slots_by_run) []

-- What becomes of the bucket of a run once a slot was looked for.
unfoldable pub take_slot :
    String → List ℕ → Option ℕ → Admission → Answer (Option SlotHandle) × Admission
unfolding set
take_slot run_id held none a =
    (returns none, record a { slots_by_run = set run_id held a.slots_by_run })
take_slot run_id held (some n) a = (
  returns (some (record { slot = n; run_id = run_id })),
  record a { slots_by_run = set run_id (held ++ n ∷ []) a.slots_by_run },
)

unfoldable pub try_acquire_slot : ℕ → String → Admission → Answer (Option SlotHandle) × Admission
unfolding take_slot held_slots lowest_free
try_acquire_slot max_running run_id a =
    if nat_eq max_running 0
    then (throws "tryAcquireSlot: maxRunning", a)
    else if run_id == ""
    then (throws "tryAcquireSlot: runId", a)
    else let held = held_slots run_id a in
      if leb max_running (length held)
      then take_slot run_id held none a
      else take_slot run_id held (lowest_free max_running 0 held) a

-- A bucket that lost its last slot goes too.
unfoldable pub put_back : String → List ℕ → List (String × List ℕ) → List (String × List ℕ)
unfolding set delete
put_back run_id [] es = delete run_id es
put_back run_id (n ∷ held) es = set run_id (n ∷ held) es

-- A bare number frees the slot in the first bucket that has it.
unfoldable pub release_first : ℕ → List (String × List ℕ) → Bool × List (String × List ℕ)
unfolding has without
release_first n [] = (false, [])
release_first n ((run_id, held) ∷ es) =
    let (found, rest) = release_first n es in
    if has n held
    then (true, elim (without n held) [ [] ↦ es | m ∷ ms ↦ (run_id, m ∷ ms) ∷ es ])
    else (found, (run_id, held) ∷ rest)

unfoldable pub release_slot : Handle → Admission → Bool × Admission
unfolding has without put_back release_first held_slots
release_slot (handle h) a =
    let held = held_slots h.run_id a in
    if has h.slot held
    then (true, record a { slots_by_run = put_back h.run_id (without h.slot held) a.slots_by_run })
    else (false, a)
release_slot (number n) a =
    let (found, rest) = release_first n a.slots_by_run in (found, record a { slots_by_run = rest })

unfoldable pub try_acquire_session_key : String → String → Admission → Answer Bool × Admission
unfolding get set
try_acquire_session_key key attempt_id a =
    if key == ""
    then (throws "tryAcquireSessionKey: key", a)
    else if attempt_id == ""
    then (throws "tryAcquireSessionKey: attemptId", a)
    else if is_some (get key a.session_keys)
    then (returns false, a)
    else (returns true, record a { session_keys = set key attempt_id a.session_keys })

-- `sessionKeys.get(key) === attemptId`
abbrev pub holds : Option String → String → Bool
holds none attempt_id = false
holds (some holder) attempt_id = holder == attempt_id

unfoldable pub release_session_key : String → String → Admission → Answer Bool × Admission
unfolding get delete
release_session_key key attempt_id a =
    if key == ""
    then (throws "releaseSessionKey: key", a)
    else if attempt_id == ""
    then (throws "releaseSessionKey: attemptId", a)
    else if holds (get key a.session_keys) attempt_id
    then (returns true, record a { session_keys = delete key a.session_keys })
    else (returns false, a)

total : List (String × List ℕ) → ℕ
total [] = 0
total ((run_id, held) ∷ es) = length held + total es

unfoldable pub held_count : Admission → ℕ
unfolding total
held_count a = total a.slots_by_run

unfoldable pub held_count_for_run : String → Admission → Answer ℕ
unfolding held_slots
held_count_for_run run_id a =
    if run_id == "" then throws "heldCountForRun: runId" else returns (length (held_slots run_id a))

unfoldable pub is_session_key_held : String → Admission → Answer Bool
unfolding get
is_session_key_held key a =
    if key == "" then throws "isSessionKeyHeld: key" else returns (is_some (get key a.session_keys))
