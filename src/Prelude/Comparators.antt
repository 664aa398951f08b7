-- ===== src/Prelude/Comparators.antt =====
-- Comparators that return a signed number, and their lexicographic composition.
use mathlib.Core.Path.{◌≡◌}
use mathlib.Core.Bool.{Bool, true, false, not}
use native.Mathlib.Omega.{arith}
use dsh_dag_orchestrator.Prelude.Tests.{nat_eq, if◌then◌else◌}
use dsh_dag_orchestrator.Prelude.Int.{ℤ, pos, negsuc, at_most_zero, is_negative}
use dsh_dag_orchestrator.Prelude.Sort.{IsOrder}

abbrev pub is_zero : ℤ → Bool
is_zero (pos n) = nat_eq n 0
is_zero (negsuc n) = false

-- The second comparison decides where the first does not.
unfoldable pub or_else : ℤ → ℤ → ℤ
or_else d e = if is_zero d then e else d

pub record IsComparator {ℓ} {A : Type ℓ} (d : A → A → ℤ) : Type ℓ where
  pub flip : (a b : A) → is_negative (d a b) ≡ not (at_most_zero (d b a))
  pub trans :
      (a b c : A)
      → at_most_zero (d a b) ≡ true
      → at_most_zero (d b c) ≡ true
      → at_most_zero (d a c) ≡ true

module _ {ℓ} {A : Type ℓ} {d e : A → A → ℤ} where
  or_else-flip :
      (cd : IsComparator d) (ce : IsComparator e) (a b : A)
      → is_negative (or_else (d a b) (e a b)) ≡ not (at_most_zero (or_else (d b a) (e b a)))
  unfolding or_else
  or_else-flip cd ce a b = ground (arith, cd.flip a b, cd.flip b a, ce.flip a b)

  or_else_trans :
      (cd : IsComparator d) (ce : IsComparator e) (a b c : A)
      → at_most_zero (or_else (d a b) (e a b)) ≡ true
      → at_most_zero (or_else (d b c) (e b c)) ≡ true
      → at_most_zero (or_else (d a c) (e a c)) ≡ true
  unfolding or_else
  or_else_trans cd ce a b c h k = ground (
    arith,
    cd.trans a b c,
    cd.trans c a b,
    cd.trans b c a,
    ce.trans a b c,
    cd.flip a b,
    cd.flip b a,
    cd.flip b c,
    cd.flip c b,
    cd.flip a c,
    cd.flip c a,
  )

  pub or_else-IsComparator :
      IsComparator d → IsComparator e → IsComparator (λ a b. or_else (d a b) (e a b))
  or_else-IsComparator cd ce = record { flip = or_else-flip cd ce; trans = or_else_trans cd ce }

  -- Where neither of two elements ranks behind the other, both comparisons are zero.
  pub or_else_tie :
      (cd : IsComparator d) (ce : IsComparator e) (a b : A)
      → at_most_zero (or_else (d a b) (e a b)) ≡ true
      → at_most_zero (or_else (d b a) (e b a)) ≡ true
      → (at_most_zero (d a b) ≡ true)
        × (at_most_zero (d b a) ≡ true)
        × (at_most_zero (e a b) ≡ true)
        × (at_most_zero (e b a) ≡ true)
  unfolding or_else
  or_else_tie cd ce a b h k = ground (arith, cd.flip a b, cd.flip b a, ce.flip a b, ce.flip b a)

module _ {ℓ} {A : Type ℓ} {d : A → A → ℤ} where
  pub comparator-IsOrder : IsComparator d → IsOrder (λ a b. at_most_zero (d a b))
  comparator-IsOrder c = record {
    total = λ a b h. ground (arith, c.flip a b, c.flip b a);
    trans = c.trans;
  }
