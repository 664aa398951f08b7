-- ===== src/Prelude/Sort.antt =====
-- `Array.prototype.sort` as a stable insertion sort: `le a b` says that the comparator's result at
-- `a` and `b` is not positive, so that `a` may stay in front of `b`.
use mathlib.Core.Path.{◌≡◌, refl, ◌∙◌, ap}
use mathlib.Core.Logic.{inl, inr, ∥∥₁_elim}
use mathlib.Core.Bool.{Bool, true, false}
use mathlib.Core.List.{List, [], ◌∷◌, ◌++◌, Perm, Permᴰ, is_set}
use mathlib.Core.List.Perm
use native.Mathlib.Omega.{arith}
use dsh_dag_orchestrator.Prelude.Tests.{if◌then◌else◌, Bool-cases}
use dsh_dag_orchestrator.Prelude.Lists.{All}

-- What a comparator has to be for its order to be a total preorder.
pub record IsOrder {ℓ} {A : Type ℓ} (le : A → A → Bool) : Type ℓ where
  pub total : (a b : A) → le a b ≡ false → le b a ≡ true
  pub trans : (a b c : A) → le a b ≡ true → le b c ≡ true → le a c ≡ true

module _ {ℓ} {A : Type ℓ} (le : A → A → Bool) where
  unfoldable pub insert : A → List A → List A
  insert x [] = x ∷ []
  insert x (y ∷ ys) = if le x y then x ∷ y ∷ ys else y ∷ insert x ys

  unfoldable pub sort : List A → List A
  unfolding insert
  sort [] = []
  sort (x ∷ xs) = insert x (sort xs)

  -- Every element may stand in front of all that follow it.
  abbrev pub IsSorted : List A → Type 0
  IsSorted [] = Unit
  IsSorted (x ∷ xs) = All (λ y. le x y ≡ true) xs × IsSorted xs

module _ {ℓ} {A : Type ℓ} (le : A → A → Bool) where
  pub insert-perm : (x : A) (xs : List A) → Perm (insert le x xs) (x ∷ xs)
  unfolding insert
  insert-perm x [] = Perm.refl _
  insert-perm x (y ∷ ys) = elim (Bool-cases (le x y)) [
    | inl e ↦ rw (e, insert) (Perm.refl _)
    | inr e ↦ rw (e, insert) (Perm.trans (Perm.cons y (insert-perm x ys)) (Perm.swap x y ys))
  ]

  pub sort-perm : (xs : List A) → Perm (sort le xs) xs
  unfolding sort
  sort-perm [] = Perm.refl _
  sort-perm (x ∷ xs) = Perm.trans (insert-perm x (sort le xs)) (Perm.cons x (sort-perm xs))

  insert-All {κ} : (P : A → Type κ) (x : A) (xs : List A) → P x → All P xs → All P (insert le x xs)
  unfolding insert
  insert-All P x [] px h = (px, tt)
  insert-All P x (y ∷ ys) px h = elim (Bool-cases (le x y)) [
    | inl e ↦ rw e (px, h)
    | inr e ↦ rw e (h.0, insert-All P x ys px h.1)
  ]

  All-le :
      (o : IsOrder le) (x y : A) (ys : List A)
      → le x y ≡ true
      → All (λ z. le y z ≡ true) ys
      → All (λ z. le x z ≡ true) ys
  All-le o x y [] h a = tt
  All-le o x y (z ∷ zs) h a = (o.trans x y z h a.0, All-le o x y zs h a.1)

  insert-IsSorted :
      (o : IsOrder le) (x : A) (xs : List A) → IsSorted le xs → IsSorted le (insert le x xs)
  unfolding insert
  insert-IsSorted o x [] s = (tt, tt)
  insert-IsSorted o x (y ∷ ys) s = elim (Bool-cases (le x y)) [
    | inl e ↦ rw e ((e, All-le o x y ys e s.0), s)
    | inr e ↦
        rw e (insert-All (λ z. le y z ≡ true) x ys (o.total x y e) s.0, insert-IsSorted o x ys s.1)
  ]

  pub sort-IsSorted : (o : IsOrder le) (xs : List A) → IsSorted le (sort le xs)
  unfolding sort
  sort-IsSorted o [] = tt
  sort-IsSorted o (x ∷ xs) = insert-IsSorted o x (sort le xs) (sort-IsSorted o xs)

  module _ (o : IsOrder le) (anti : (a b : A) → le a b ≡ true → le b a ≡ true → a ≡ b) where
    insert_comm : (x y : A) (l : List A) → insert le x (insert le y l) ≡ insert le y (insert le x l)
    unfolding insert
    insert_comm x y [] = ground (arith, o.total x y, anti x y)
    insert_comm x y (z ∷ l) =
        ground (
          arith,
          o.total x y,
          anti x y,
          o.trans x y z,
          o.trans y x z,
          o.total y x,
          insert_comm x y l,
        )

    sort-permᴰ : {xs ys : List A} → Permᴰ xs ys → sort le xs ≡ sort le ys
    unfolding sort
    sort-permᴰ Permᴰ.nil = refl
    sort-permᴰ (Permᴰ.cons {b = b} e p) = rw e (ap (insert le b) (sort-permᴰ p))
    sort-permᴰ (Permᴰ.swap {a' = x} {b' = y} {l = l} e d) = rw (e, d) (insert_comm y x (sort le l))
    sort-permᴰ (Permᴰ.trans p q) = sort-permᴰ p ∙ sort-permᴰ q

    -- Sorting forgets the order in which the elements came.
    pub sort-eq_of_perm : IsSet A → (xs ys : List A) → Perm xs ys → sort le xs ≡ sort le ys
    sort-eq_of_perm Aset xs ys p = ∥∥₁_elim p (is_set Aset _ _) (λ d. sort-permᴰ d)

module _ {ℓ} {A : Type ℓ} (le : A → A → Bool) where
  insert-append_last :
      (x y : A) (l : List A) → le x y ≡ true → insert le x (l ++ y ∷ []) ≡ insert le x l ++ y ∷ []
  unfolding insert
  insert-append_last x y [] h = rw (insert, h)
  insert-append_last x y (z ∷ l) h = ground (arith, insert-append_last x y l h)

  -- An element that belongs behind all others stays there.
  pub sort-append_last :
      (xs : List A) (y : A)
      → All (λ x. le x y ≡ true) xs
      → sort le (xs ++ y ∷ []) ≡ sort le xs ++ y ∷ []
  unfolding sort
  sort-append_last [] y h = refl
  sort-append_last (x ∷ xs) y h =
      ap (insert le x) (sort-append_last xs y h.1) ∙ insert-append_last x y (sort le xs) h.0

  All-insert {κ} : (P : A → Type κ) (x : A) (l : List A) → All P (insert le x l) → P x × All P l
  unfolding insert
  All-insert P x [] h = h
  All-insert P x (y ∷ l) h = elim (Bool-cases (le x y)) [
    | inl e ↦ rw (insert, e) at h
    | inr e ↦
        let h' : P y × All P (insert le x l) = rw (insert, e) at h in
        let (px, pl) = All-insert P x l h'.1 in (px, (h'.0, pl))
  ]

  pub All-sort {κ} : (P : A → Type κ) (xs : List A) → All P (sort le xs) → All P xs
  unfolding sort
  All-sort P [] h = tt
  All-sort P (x ∷ xs) h = let (px, rest) = All-insert P x (sort le xs) h in (px, All-sort P xs rest)

-- What holds of every element holds of every element of the sorted list.
module _ {ℓ} {A : Type ℓ} (le : A → A → Bool) where
  pub sort-All {κ} : (P : A → Type κ) (xs : List A) → All P xs → All P (sort le xs)
  unfolding sort
  sort-All P [] a = tt
  sort-All P (x ∷ xs) a = insert-All le P x (sort le xs) a.0 (sort-All P xs a.1)
