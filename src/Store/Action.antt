-- ===== src/Store/Action.antt =====
-- A call of the store: it returns a value or throws, and leaves the store behind.
use dsh_dag_orchestrator.Prelude.{
  ℕ, ◌≡◌, refl, ◌⊎◌, inl, inr, Bool, true, false, List, [], ◌∷◌, Option, none, some, String, ◌==◌,
  if◌then◌else◌,
}
use dsh_dag_orchestrator.Json.{JsonError}
use dsh_dag_orchestrator.Store.Rows.{Store}

-- What a method throws: a TypeError about the argument it names, an error of the store's own codes, a
-- violated key, a value that `canonicalJson` refuses, an error of lib/engine.js with its
-- code, or one without.
pub data StoreError : Type 0 where
  type_error : String → StoreError
  store_closed tx_required nested_tx : StoreError
  constraint : String → StoreError
  unprintable : JsonError → StoreError
  control_error : String → StoreError
  plain_error : String → StoreError

pub data Result {ℓ} (A : Type ℓ) : Type ℓ where
  ok : A → Result A
  err : StoreError → Result A

abbrev pub Action : Type 0 → Type 0
Action A = Store → Result A × Store

abbrev pub pure : {A : Type 0} → A → Action A
pure a s = (ok a, s)

abbrev pub throw : {A : Type 0} → StoreError → Action A
throw e s = (err e, s)

abbrev pub and_then : {A B : Type 0} → Result A → (A → Action B) → Action B
and_then (ok a) f = f a
and_then (err e) f = throw e

infixl 5 ◌>>=◌ ◌>>◌
abbrev pub ◌>>=◌ : {A B : Type 0} → Action A → (A → Action B) → Action B
m >>= f = λ s. let (r, s') = m s in and_then r f s'

abbrev pub ◌>>◌ : {B : Type 0} → Action (Unit {0}) → Action B → Action B
m >> k = m >>= λ _. k

abbrev pub gets : {A : Type 0} → (Store → A) → Action A
gets f s = (ok (f s), s)

abbrev pub modify : (Store → Store) → Action (Unit {0})
modify f s = (ok tt, f s)

-- The guards at the head of a method, in their order: a test that must not hold, and what is thrown
-- where it does. The first is `assertOpen()`.
abbrev pub first_failure : List (Bool × StoreError) → Result (Unit {0})
first_failure [] = ok tt
first_failure ((fails, e) ∷ cs) = if fails then err e else first_failure cs

abbrev pub check : List (Bool × StoreError) → Action (Unit {0})
check cs s = (first_failure ((s.closed, store_closed) ∷ cs), s)

-- `requireString(value, name)`, and the same for a value that may be absent.
abbrev pub need : String → String → Bool × StoreError
need value name = (value == "", type_error name)

abbrev pub need_if_given : Option String → String → Bool × StoreError
need_if_given none name = (false, type_error name)
need_if_given (some value) name = (value == "", type_error name)

-- `tx(fn)`: what `fn` did to the tables stays only if it returns. That `fn` is synchronous is its type.
unfoldable pub tx : {A : Type 0} → Action A → Action A
tx fn s =
    if s.closed
    then (err store_closed, s)
    else if s.active_tx
    then (err nested_tx, s)
    else let (r, s') = fn (record s { active_tx = true }) in
      elim r [ ok a ↦ (ok a, record s' { active_tx = false }) | err e ↦ (err e, s) ]

-- `close()`
unfoldable pub close : Action (Unit {0})
close s = (ok tt, record s { closed = true })

-- `current`, what the loser of a compare-and-set is shown of the row.
pub record Current (S : Type 0) : Type 0 where
  pub state : S
  pub version : ℕ

-- What a compare-and-set answers: the row that it wrote, or what is shown of the row that is there.
pub data Cas (R C : Type 0) : Type 0 where
  done : R → Cas R C
  not_found : Cas R C
  mismatch : C → Cas R C

-- Inversion of a sequence that returned.
pub >>=-eq-ok :
    {A B : Type 0} (m : Action A) (f : A → Action B) (s : Store) {b : B}
    → ((m >>= f) s).0 ≡ ok b
    → (a : A) × ((m s).0 ≡ ok a) × ((f a (m s).1).0 ≡ ok b) × (((m >>= f) s).1 ≡ (f a (m s).1).1)
>>=-eq-ok {A} {B} m f s h = split (m s).0 (m s).1 h
  where
    split :
        (r : Result A) (t : Store) {b : B}
        → (and_then r f t).0 ≡ ok b
        → (a : A) × (r ≡ ok a) × ((f a t).0 ≡ ok b) × ((and_then r f t).1 ≡ (f a t).1)
    split (ok a) t k = (a, refl, k, refl)
    split (err e) t k = absurd (cc)

pub Result-cases {ℓ} :
    {A : Type ℓ} (r : Result A) → ((a : A) × (r ≡ ok a)) ⊎ ((e : StoreError) × (r ≡ err e))
Result-cases (ok a) = inl (a, refl)
Result-cases (err e) = inr (e, refl)

-- Inversion of a transaction that returned: its body did, on the store as it was.
pub tx-eq-ok :
    {A : Type 0} (fn : Action A) (s : Store) (a : A)
    → (tx fn s).0 ≡ ok a
    → ((fn (record s { active_tx = true })).0 ≡ ok a)
      × ((tx fn s).1 ≡ record ((fn (record s { active_tx = true })).1) { active_tx = false })
unfolding tx
tx-eq-ok {A} fn s a h =
    let inside = fn (record s { active_tx = true }) in
    split s.closed s.active_tx inside.0 inside.1 h
  where
    body : Bool → Bool → Result A → Store → Result A × Store
    body shut nested r s' =
        if shut
        then (err store_closed, s)
        else if nested
        then (err nested_tx, s)
        else elim r [ ok b ↦ (ok b, record s' { active_tx = false }) | err e ↦ (err e, s) ]

    split :
        (shut nested : Bool) (r : Result A) (s' : Store)
        → (body shut nested r s').0 ≡ ok a
        → (r ≡ ok a) × ((body shut nested r s').1 ≡ record s' { active_tx = false })
    split true nested r s' k = absurd (cc)
    split false true r s' k = absurd (cc)
    split false false (ok b) s' k = (k, refl)
    split false false (err e) s' k = absurd (cc)

-- One that threw left the store as it was.
pub tx-eq-err :
    {A : Type 0} (fn : Action A) (s : Store) (e : StoreError)
    → (tx fn s).0 ≡ err e
    → (tx fn s).1 ≡ s
unfolding tx
tx-eq-err {A} fn s e h =
    let inside = fn (record s { active_tx = true }) in
    split s.closed s.active_tx inside.0 inside.1 h
  where
    body : Bool → Bool → Result A → Store → Result A × Store
    body shut nested r s' =
        if shut
        then (err store_closed, s)
        else if nested
        then (err nested_tx, s)
        else elim r [ ok b ↦ (ok b, record s' { active_tx = false }) | err e ↦ (err e, s) ]

    split :
        (shut nested : Bool) (r : Result A) (s' : Store)
        → (body shut nested r s').0 ≡ err e
        → (body shut nested r s').1 ≡ s
    split true nested r s' k = refl
    split false true r s' k = refl
    split false false (ok b) s' k = absurd (cc)
    split false false (err e) s' k = refl
