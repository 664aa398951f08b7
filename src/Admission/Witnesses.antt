-- ===== src/Admission/Witnesses.antt =====
-- The theorems on lib/admission.js at a concrete state.
use dsh_dag_orchestrator.Prelude.{◌≡◌, refl, true, List, [], ◌∷◌}
use dsh_dag_orchestrator.Admission.{
  Admission, returns, get, held_slots, try_acquire_slot, try_acquire_session_key,
}
use dsh_dag_orchestrator.Admission.Slots.{SlotPromise, try_acquire_slot_lem, try_acquire_slot-other}
use dsh_dag_orchestrator.Admission.Keys.{
  Call, acquire_key, give_key, acquire_slot, run_calls, Holds, run_calls-Holds,
  session_key-exclusive,
}

abbrev busy : Admission
busy = record {
  slots_by_run = ("r1", 0 ∷ 2 ∷ []) ∷ ("r2", 0 ∷ []) ∷ [];
  session_keys = ("repo", "a1") ∷ [];
}

abbrev others_calls : List Call
others_calls = acquire_slot 3 "r1" ∷ give_key "repo" "a2" ∷ acquire_key "repo" "a2" ∷ []

try_acquire_slot_lem_example : SlotPromise 3 "r1" busy (try_acquire_slot 3 "r1" busy)
try_acquire_slot_lem_example = try_acquire_slot_lem 3 "r1" busy

try_acquire_slot-other_example :
    held_slots "r2" (try_acquire_slot 3 "r1" busy).1 ≡ held_slots "r2" busy
try_acquire_slot-other_example = try_acquire_slot-other 3 "r1" "r2" busy refl

run_calls-Holds_example : Holds "repo" "a1" (run_calls others_calls busy)
unfolding get
run_calls-Holds_example = run_calls-Holds "repo" "a1" others_calls busy (tt, (refl, (tt, tt))) refl

session_key-exclusive_example :
    ¬ (try_acquire_session_key "repo" "a1" (run_calls others_calls busy)).0 ≡ returns true
unfolding get
session_key-exclusive_example =
    session_key-exclusive "repo" "a1" "a1" others_calls busy (tt, (refl, (tt, tt))) refl
