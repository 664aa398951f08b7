-- ===== src/Admission/Keys.antt =====
-- The session keys of lib/admission.js, over sequences of calls.
use dsh_dag_orchestrator.Prelude.{
  ℕ, ◌≡◌, inl, inr, refl, ◌∙◌, true, false, List, [], ◌∷◌, some, String, ◌==◌, eq_refl, eq_iff,
  Bool-cases, Option-cases, All, ◌&&◌, arith,
}
use dsh_dag_orchestrator.Admission.{
  Admission, returns, Handle, get, delete, holds, take_slot, try_acquire_slot, release_slot,
  try_acquire_session_key, release_session_key,
}
use dsh_dag_orchestrator.Admission.Slots.{get-set_other}

-- A call of the controller, with the state it leaves.
pub data Call : Type 0 where
  acquire_slot : ℕ → String → Call
  give_slot : Handle → Call
  acquire_key give_key : String → String → Call

unfoldable pub after : Call → Admission → Admission
unfolding try_acquire_slot release_slot try_acquire_session_key release_session_key
after (acquire_slot max run_id) a = (try_acquire_slot max run_id a).1
after (give_slot h) a = (release_slot h a).1
after (acquire_key k x) a = (try_acquire_session_key k x a).1
after (give_key k x) a = (release_session_key k x a).1

unfoldable pub run_calls : List Call → Admission → Admission
unfolding after
run_calls [] a = a
run_calls (c ∷ cs) a = run_calls cs (after c a)

-- The call is not the holder's own release of the key.
abbrev pub Keeps : String → String → Call → Type 0
Keeps key holder (give_key k x) = (k == key && x == holder) ≡ false
Keeps key holder _ = Unit

abbrev pub Holds : String → String → Admission → Type 0
Holds key holder a = get key a.session_keys ≡ some holder

get-delete_other {ℓ} :
    {A : Type ℓ} (k j : String) (es : List (String × A))
    → k == j ≡ false
    → get j (delete k es) ≡ get j es
unfolding get delete
get-delete_other k j [] ne = refl
get-delete_other k j ((i, b) ∷ es) ne = elim (Bool-cases (i == k)) [
  | inl e ↦
      let same : i ≡ k = (eq_iff i k).0 e in
      let ne' : i == j ≡ false = rw same ne in rw (delete, e, get, ne')
  | inr e ↦ elim (Bool-cases (i == j)) [
    | inl e' ↦ rw (delete, e, get, e')
    | inr e' ↦ rw (delete, e, get, e') (get-delete_other k j es ne)
  ]
]

slots_apart :
    (max : ℕ) (run_id : String) (a : Admission)
    → (try_acquire_slot max run_id a).1.session_keys ≡ a.session_keys
unfolding try_acquire_slot take_slot
slots_apart max run_id a = ground arith

acquire-Holds :
    (key holder k x : String) (a : Admission)
    → Holds key holder a
    → Holds key holder (try_acquire_session_key k x a).1
unfolding try_acquire_session_key
acquire-Holds key holder k x a h = elim (Bool-cases (k == "")) [
  | inl e ↦ rw (try_acquire_session_key, e) h
  | inr e ↦ elim (Bool-cases (x == "")) [
    | inl e' ↦ rw (try_acquire_session_key, e, e') h
    | inr e' ↦ elim (Option-cases (get k a.session_keys)) [
      | inr (y, e'') ↦ rw (try_acquire_session_key, e, e', e'') h
      | inl e'' ↦ elim (Bool-cases (k == key)) [
        | inl same ↦ absurd (let s : k ≡ key = (eq_iff k key).0 same in cc (rw s at e''))
        | inr other ↦
            rw (try_acquire_session_key, e, e', e'')
              (get-set_other k key x a.session_keys other ∙ h)
      ]
    ]
  ]
]

release-Holds :
    (key holder k x : String) (a : Admission)
    → (k == key && x == holder) ≡ false
    → Holds key holder a
    → Holds key holder (release_session_key k x a).1
unfolding release_session_key
release-Holds key holder k x a ne h = elim (Bool-cases (k == "")) [
  | inl e ↦ rw (release_session_key, e) h
  | inr e ↦ elim (Bool-cases (x == "")) [
    | inl e' ↦ rw (release_session_key, e, e') h
    | inr e' ↦ elim (Bool-cases (holds (get k a.session_keys) x)) [
      | inr e'' ↦ rw (release_session_key, e, e', e'') h
      | inl e'' ↦ elim (Bool-cases (k == key)) [
        | inr other ↦
            rw (release_session_key, e, e', e'') (get-delete_other k key a.session_keys other ∙ h)
        | inl same ↦
            let s : k ≡ key = (eq_iff k key).0 same in
            let mine : holder == x ≡ true = rw (s, h) at e'' in
            let back : holder ≡ x = (eq_iff holder x).0 mine in
            absurd (cc (rw (same, ← back, eq_refl holder) at ne))
      ]
    ]
  ]
]

release_slot-keys :
    (h : Handle) (a : Admission) → (release_slot h a).1.session_keys ≡ a.session_keys
unfolding release_slot
release_slot-keys h a = ground arith

after-Holds :
    (key holder : String) (c : Call) (a : Admission)
    → Keeps key holder c
    → Holds key holder a
    → Holds key holder (after c a)
unfolding after
after-Holds key holder (acquire_slot max run_id) a k h = rw (slots_apart max run_id a) h
after-Holds key holder (give_slot s) a k h = rw (release_slot-keys s a) h
after-Holds key holder (acquire_key j x) a k h = acquire-Holds key holder j x a h
after-Holds key holder (give_key j x) a k h = release-Holds key holder j x a k h

-- A key stays with its holder through any calls but the holder's own release of it.
pub run_calls-Holds :
    (key holder : String) (cs : List Call) (a : Admission)
    → All (Keeps key holder) cs
    → Holds key holder a
    → Holds key holder (run_calls cs a)
unfolding run_calls
run_calls-Holds key holder [] a k h = h
run_calls-Holds key holder (c ∷ cs) a k h =
    run_calls-Holds key holder cs (after c a) k.1 (after-Holds key holder c a k.0 h)

-- While a holder has a session key, after any calls but its own release of that key nobody, the
-- holder included, gets the key.
pub session_key-exclusive :
    (key holder next : String) (cs : List Call) (a : Admission)
    → All (Keeps key holder) cs
    → Holds key holder a
    → ¬ (try_acquire_session_key key next (run_calls cs a)).0 ≡ returns true
unfolding try_acquire_session_key
session_key-exclusive key holder next cs a k h won =
    let held = run_calls-Holds key holder cs a k h in
    elim (Bool-cases (key == "")) [
      | inl e ↦ cc (rw (try_acquire_session_key, e) at won)
      | inr e ↦ elim (Bool-cases (next == "")) [
        | inl e' ↦ cc (rw (try_acquire_session_key, e, e') at won)
        | inr e' ↦ cc (rw (try_acquire_session_key, e, e', held) at won)
      ]
    ]
