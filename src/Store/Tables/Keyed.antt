-- ===== src/Store/Tables/Keyed.antt =====
-- Updates of the one row under a key of a table of lib/dag-store.js, guarded by a test on that row.
use dsh_dag_orchestrator.Prelude.{
  ℕ, suc, ◌+◌, ◌≤◌, ◌≡◌, inl, inr, refl, sym, ap, ◌∙◌, Bool, true, false, ◌&&◌, List, [], ◌∷◌, ◌++◌,
  none, some, arith, filter, find, Bool-cases, filter-append, length-append,
}
use dsh_dag_orchestrator.Store.Tables.{update_where, changes}

pub suc-not-zero : (n : ℕ) → ¬ suc n ≡ 0
suc-not-zero n e = omega arith

pub rest-none : (n : ℕ) → suc n ≤ 1 → n ≡ 0
rest-none n h = omega arith

module _ {ℓ} {A : Type ℓ} where
  -- At most one row has the key.
  abbrev pub IsKeyed : (A → Bool) → List A → Type 0
  IsKeyed k xs = changes k xs ≤ 1

  pub update-none :
      (p : A → Bool) (f : A → A) (xs : List A) → changes p xs ≡ 0 → update_where p f xs ≡ xs
  update-none p f [] h = refl
  update-none p f (x ∷ xs) h = elim (Bool-cases (p x)) [
    | inl e ↦ absurd (suc-not-zero (changes p xs) (rw e at h))
    | inr e ↦ rw e (ap (x ∷◌) (update-none p f xs (rw e at h)))
  ]

  pub changes-and :
      (k q : A → Bool) (xs : List A) → changes k xs ≡ 0 → changes (λ x. k x && q x) xs ≡ 0
  changes-and k q [] h = refl
  changes-and k q (x ∷ xs) h = elim (Bool-cases (k x)) [
    | inl e ↦ absurd (suc-not-zero (changes k xs) (rw e at h))
    | inr e ↦ rw e (changes-and k q xs (rw e at h))
  ]

  pub find-none : (k : A → Bool) (xs : List A) → find k xs ≡ none → changes k xs ≡ 0
  find-none k [] h = refl
  find-none k (x ∷ xs) h = elim (Bool-cases (k x)) [
    | inl e ↦ absurd (cc (rw e at h))
    | inr e ↦ rw e (find-none k xs (rw e at h))
  ]

  pub find-holds : (k : A → Bool) (xs : List A) (r : A) → find k xs ≡ some r → k r ≡ true
  find-holds k [] r h = absurd (cc)
  find-holds k (x ∷ xs) r h = elim (Bool-cases (k x)) [
    | inl e ↦ (let same : x ≡ r = cc (rw e at h) in rw (← same) e)
    | inr e ↦ find-holds k xs r (rw e at h)
  ]

  -- The guard fails on the row under the key: nothing changes.
  pub guard-fails :
      (k q : A → Bool) (xs : List A) (r : A)
      → IsKeyed k xs
      → find k xs ≡ some r
      → q r ≡ false
      → changes (λ x. k x && q x) xs ≡ 0
  guard-fails k q [] r u h n = refl
  guard-fails k q (x ∷ xs) r u h n = elim (Bool-cases (k x)) [
    | inl e ↦
        let same : x ≡ r = cc (rw e at h) in
        rw (e, same, n) (changes-and k q xs (rest-none (changes k xs) (rw e at u)))
    | inr e ↦ rw e (guard-fails k q xs r (rw e at u) (rw e at h) n)
  ]

  -- The guard holds on the row under the key: that row changes, and is found under the key again.
  pub guard-holds :
      (k q : A → Bool) (f : A → A)
      → ((x : A) → k (f x) ≡ k x)
      → (xs : List A) (r : A) → IsKeyed k xs
      → find k xs ≡ some r
      → q r ≡ true
      → (changes (λ x. k x && q x) xs ≡ 1)
        × (update_where (λ x. k x && q x) f xs ≡ update_where k f xs)
        × (find k (update_where k f xs) ≡ some (f r))
  guard-holds k q f keeps [] r u h y = absurd (cc)
  guard-holds k q f keeps (x ∷ xs) r u h y = elim (Bool-cases (k x)) [
    | inl e ↦
        let same : x ≡ r = cc (rw e at h) in
        let none_left = rest-none (changes k xs) (rw e at u) in
        let none_right = changes-and k q xs none_left in
        let here : q x ≡ true = rw same y in
        (
          rw (e, here) (ap suc none_right),
          rw (e, here)
              (ap (f x ∷◌) (
                update-none (λ x. k x && q x) f xs none_right
                ∙ sym (update-none k f xs none_left))),
          rw (e, keeps x, e, same),
        )
    | inr e ↦
        let (one, rows, found) = guard-holds k q f keeps xs r (rw e at u) (rw e at h) y in
        (rw e one, rw e (ap (x ∷◌) rows), rw (e, e) found)
  ]

  -- Neither an update that keeps the key nor a row under a free key makes it ambiguous.
  pub changes-update :
      (k p : A → Bool) (f : A → A)
      → ((x : A) → k (f x) ≡ k x)
      → (xs : List A) → changes k (update_where p f xs) ≡ changes k xs
  changes-update k p f keeps [] = refl
  changes-update k p f keeps (x ∷ xs) = elim (Bool-cases (p x)) [
    | inl e ↦ elim (Bool-cases (k x)) [
      | inl e' ↦ rw (e, keeps x, e') (ap suc (changes-update k p f keeps xs))
      | inr e' ↦ rw (e, keeps x, e') (changes-update k p f keeps xs)
    ]
    | inr e ↦ elim (Bool-cases (k x)) [
      | inl e' ↦ rw (e, e') (ap suc (changes-update k p f keeps xs))
      | inr e' ↦ rw (e, e') (changes-update k p f keeps xs)
    ]
  ]

  pub changes-append :
      (k : A → Bool) (xs ys : List A) → changes k (xs ++ ys) ≡ changes k xs + changes k ys
  changes-append k xs ys = rw (filter-append k xs ys, length-append (filter k xs) (filter k ys))
