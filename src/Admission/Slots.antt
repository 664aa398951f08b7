-- ===== src/Admission/Slots.antt =====
-- The slots of lib/admission.js and the bound of a run.
use dsh_dag_orchestrator.Prelude.{
  ℕ, zero, suc, ◌+◌, ◌≤◌, ◌<◌, ◌≡◌, inl, inr, refl, true, false, List, [], ◌∷◌, ◌++◌, Option, none,
  some, String, ◌==◌, eq_refl, eq_iff, nat_eq, nat_eq_iff, leb, arith, length, length-append,
  Bool-cases,
}
use dsh_dag_orchestrator.Admission.{
  Admission, Answer, returns, throws, SlotHandle, get, set, has, without, lowest_free, held_slots,
  take_slot, try_acquire_slot,
}

-- Every number below `m` is held.
abbrev Full : ℕ → List ℕ → Type 0
Full m held = (i : ℕ) → i < m → has i held ≡ true

without-shorter : (n : ℕ) (held : List ℕ) → length (without n held) ≤ length held
unfolding without
without-shorter n [] = omega arith
without-shorter n (m ∷ held) = elim (Bool-cases (nat_eq m n)) [
  | inl e ↦ rw (without, e) (omega (arith, without-shorter n held))
  | inr e ↦ rw (without, e) (omega (arith, without-shorter n held))
]

without-shorter_of_has :
    (n : ℕ) (held : List ℕ) → has n held ≡ true → suc (length (without n held)) ≤ length held
unfolding without has
without-shorter_of_has n [] h = absurd (cc)
without-shorter_of_has n (m ∷ held) h = elim (Bool-cases (nat_eq m n)) [
  | inl e ↦ rw (without, e) (omega (arith, without-shorter n held))
  | inr e ↦ rw (without, e) (omega (arith, without-shorter_of_has n held (rw (has, e) at h)))
]

has-without : (i n : ℕ) (held : List ℕ) → i < n → has i held ≡ true → has i (without n held) ≡ true
unfolding without has
has-without i n [] lt h = absurd (cc)
has-without i n (m ∷ held) lt h = elim (Bool-cases (nat_eq m n)) [
  | inl e ↦
      let same : m ≡ n = (nat_eq_iff m n).0 e in
      elim (Bool-cases (nat_eq m i)) [
        | inl e' ↦
            absurd (let same' : m ≡ i = (nat_eq_iff m i).0 e' in omega (arith, same, same', lt))
        | inr e' ↦ rw (without, has, e) (has-without i n held lt (rw (has, e') at h))
      ]
  | inr e ↦ elim (Bool-cases (nat_eq m i)) [
    | inl e' ↦ rw (without, e, has, e')
    | inr e' ↦ rw (without, e, has, e') (has-without i n held lt (rw (has, e') at h))
  ]
]

-- The pigeonhole: where all numbers below `m` are held, `m` of them are.
Full-long : (m : ℕ) (held : List ℕ) → Full m held → m ≤ length held
Full-long zero held full = omega arith
Full-long (suc m) held full =
    let fewer = without-shorter_of_has m held (full m (omega arith)) in
    let rest : Full m (without m held) = λ i lt. has-without i m held lt (full i (omega arith)) in
    omega (arith, Full-long m (without m held) rest, fewer)

-- What the loop answers: the first number from `n` on that is not held, if it is below `n + tries`.
abbrev Lowest : ℕ → ℕ → List ℕ → Option ℕ → Type 0
Lowest tries n held none = (i : ℕ) → n ≤ i → i < n + tries → has i held ≡ true
Lowest tries n held (some s) =
    (n ≤ s) × (s < n + tries) × (has s held ≡ false) × ((i : ℕ) → n ≤ i → i < s → has i held ≡ true)

here_or_later :
    (n i : ℕ) (held : List ℕ)
    → has n held ≡ true
    → (suc n ≤ i → has i held ≡ true)
    → n ≤ i
    → has i held ≡ true
here_or_later n i held here later le = elim (Bool-cases (nat_eq n i)) [
  | inl e ↦ (let same : n ≡ i = (nat_eq_iff n i).0 e in rw (← same) here)
  | inr e ↦ later (ground arith)
]

lowest_free_lem : (tries n : ℕ) (held : List ℕ) → Lowest tries n held (lowest_free tries n held)
unfolding lowest_free
lowest_free_lem zero n held = λ i le lt. absurd (omega (arith, le, lt))
lowest_free_lem (suc tries) n held = elim (Bool-cases (has n held)) [
  | inr e ↦
      rw (lowest_free, e) (omega arith, omega arith, e, λ i le lt. absurd (omega (arith, le, lt)))
  | inl e ↦
      rw (lowest_free, e)
        (shift (lowest_free tries (suc n) held) e (lowest_free_lem tries (suc n) held))
]
  where
    shift :
        (o : Option ℕ)
        → has n held ≡ true
        → Lowest tries (suc n) held o
        → Lowest (suc tries) n held o
    shift none e l = λ i le lt. here_or_later n i held e (λ le'. l i le' (omega (arith, lt))) le
    shift (some s) e (a, b, c, d) = (
      omega (arith, a),
      omega (arith, b),
      c,
      λ i le lt. here_or_later n i held e (λ le'. d i le' lt) le,
    )

pub get-set {ℓ} :
    {A : Type ℓ} (k : String) (a : A) (es : List (String × A)) → get k (set k a es) ≡ some a
unfolding get set
get-set k a [] = rw (set, get, eq_refl k)
get-set k a ((j, b) ∷ es) = elim (Bool-cases (j == k)) [
  | inl e ↦ rw (set, e, get, e)
  | inr e ↦ rw (set, e, get, e) (get-set k a es)
]

pub get-set_other {ℓ} :
    {A : Type ℓ} (k j : String) (a : A) (es : List (String × A))
    → k == j ≡ false
    → get j (set k a es) ≡ get j es
unfolding get set
get-set_other k j a [] ne = rw (set, get, ne)
get-set_other k j a ((i, b) ∷ es) ne = elim (Bool-cases (i == k)) [
  | inl e ↦
      let same : i ≡ k = (eq_iff i k).0 e in
      let ne' : i == j ≡ false = rw same ne in rw (set, e, get, ne')
  | inr e ↦ elim (Bool-cases (i == j)) [
    | inl e' ↦ rw (set, e, get, e')
    | inr e' ↦ rw (set, e, get, e') (get-set_other k j a es ne)
  ]
]

-- What a run that asks for a slot is promised.
abbrev pub SlotPromise : ℕ → String → Admission → Answer (Option SlotHandle) × Admission → Type 0
SlotPromise max run_id a (throws w, a') = (a' ≡ a)
SlotPromise max run_id a (returns none, a') =
    (max ≤ length (held_slots run_id a)) × (held_slots run_id a' ≡ held_slots run_id a)
SlotPromise max run_id a (returns (some h), a') =
    (length (held_slots run_id a) < max)
    × (h.run_id ≡ run_id)
    × (h.slot < max)
    × (has h.slot (held_slots run_id a) ≡ false)
    × ((i : ℕ) → i < h.slot → has i (held_slots run_id a) ≡ true)
    × (held_slots run_id a' ≡ held_slots run_id a ++ h.slot ∷ [])
    × (length (held_slots run_id a') ≤ max)

-- A run is refused a slot only when it holds as many as its bound; otherwise it gets the lowest
-- number that it does not hold, which is below the bound, and still holds no more than the bound. A
-- call that throws changes nothing.
pub try_acquire_slot_lem :
    (max : ℕ) (run_id : String) (a : Admission)
    → SlotPromise max run_id a (try_acquire_slot max run_id a)
unfolding try_acquire_slot take_slot held_slots
try_acquire_slot_lem max run_id a = elim (Bool-cases (nat_eq max 0)) [
  | inl e ↦ rw (try_acquire_slot, e) refl
  | inr positive ↦ elim (Bool-cases (run_id == "")) [
    | inl e ↦ rw (try_acquire_slot, positive, e) refl
    | inr named ↦ elim (Bool-cases (leb max (length held))) [
      | inl e ↦
          rw (try_acquire_slot, positive, named, e)
            (ground arith, rw (get-set run_id held a.slots_by_run))
      | inr e ↦
          rw (try_acquire_slot, positive, named, e)
            (found (lowest_free max 0 held) (ground arith) (lowest_free_lem max 0 held))
    ]
  ]
]
  where
    held : List ℕ
    held = held_slots run_id a

    found :
        (o : Option ℕ)
        → length held < max
        → Lowest max 0 held o
        → SlotPromise max run_id a (take_slot run_id held o a)
    found none lt full =
        absurd
          (omega (arith, lt, Full-long max held (λ i l. full i (omega arith) (omega (arith, l)))))
    found (some n) lt (x, below, free, least) =
        let now = get-set run_id (held ++ n ∷ []) a.slots_by_run in
        (
          lt,
          refl,
          omega (arith, below),
          free,
          (λ i l. least i (omega arith) l),
          rw now,
          rw now (omega (arith, length-append held (n ∷ []), lt)),
        )

-- A call for a slot of one run leaves the slots of every other run as they are.
pub try_acquire_slot-other :
    (max : ℕ) (run_id other : String) (a : Admission)
    → run_id == other ≡ false
    → held_slots other (try_acquire_slot max run_id a).1 ≡ held_slots other a
unfolding try_acquire_slot take_slot held_slots
try_acquire_slot-other max run_id other a ne = elim (Bool-cases (nat_eq max 0)) [
  | inl e ↦ rw (try_acquire_slot, e) refl
  | inr positive ↦ elim (Bool-cases (run_id == "")) [
    | inl e ↦ rw (try_acquire_slot, positive, e) refl
    | inr named ↦ elim (Bool-cases (leb max (length held))) [
      | inl e ↦
          rw (
            try_acquire_slot,
            positive,
            named,
            e,
            get-set_other run_id other held a.slots_by_run ne,
          )
      | inr e ↦ rw (try_acquire_slot, positive, named, e) (found (lowest_free max 0 held))
    ]
  ]
]
  where
    held : List ℕ
    held = held_slots run_id a

    found : (o : Option ℕ) → held_slots other (take_slot run_id held o a).1 ≡ held_slots other a
    found none = rw (get-set_other run_id other held a.slots_by_run ne)
    found (some n) = rw (get-set_other run_id other (held ++ n ∷ []) a.slots_by_run ne)
