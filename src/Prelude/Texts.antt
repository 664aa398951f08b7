-- ===== src/Prelude/Texts.antt =====
-- The order `<` of texts, by code point. It is that of JavaScript's strings on the basic plane.
use Prim.Native.Nat.{ℕ}
use Prim.Native.Char.{code}
use Prim.Native.String.{String}
use mathlib.Core.Path.{◌≡◌, refl, ap₂}
use mathlib.Core.HLevel.{hedberg}
use mathlib.Core.Logic.{inl, inr}
use mathlib.Core.Bool.{Bool, true, false}
use mathlib.Core.List.{List, [], ◌∷◌}
use native.Mathlib.Omega.{arith}
use text.Mathlib.TextEquality.{Char-path, eq_iff}
use text.Mathlib.Text.{◌==◌}
use dsh_dag_orchestrator.Prelude.Tests.{Bool-cases, ltb, if◌then◌else◌}
use dsh_dag_orchestrator.Prelude.Sort.{IsOrder}

unfoldable pub String-discrete : Discrete String
String-discrete s t = elim (Bool-cases (s == t)) [
  | inl e ↦ yes ((eq_iff s t).0 e)
  | inr e ↦ no (λ p. cc ((eq_iff s t).1 p))
]

pub String-set : IsSet String
String-set = hedberg String-discrete

abbrev codes : String → List ℕ
codes String.[] = []
codes (String.◌∷◌ c s) = code c ∷ codes s

lex_le : List ℕ → List ℕ → Bool
lex_le [] ys = true
lex_le (x ∷ xs) [] = false
lex_le (x ∷ xs) (y ∷ ys) = if ltb x y then true else if ltb y x then false else lex_le xs ys

lex_le_total : (xs ys : List ℕ) → lex_le xs ys ≡ false → lex_le ys xs ≡ true
unfolding lex_le
lex_le_total [] ys h = cc
lex_le_total (x ∷ xs) [] h = refl
lex_le_total (x ∷ xs) (y ∷ ys) h = ground (arith, lex_le_total xs ys)

lex_le_trans : (xs ys zs : List ℕ) → lex_le xs ys ≡ true → lex_le ys zs ≡ true → lex_le xs zs ≡ true
unfolding lex_le
lex_le_trans [] ys zs h k = refl
lex_le_trans (x ∷ xs) [] zs h k = cc
lex_le_trans (x ∷ xs) (y ∷ ys) [] h k = cc
lex_le_trans (x ∷ xs) (y ∷ ys) (z ∷ zs) h k = ground (arith, lex_le_trans xs ys zs)

lex_le_anti : (xs ys : List ℕ) → lex_le xs ys ≡ true → lex_le ys xs ≡ true → xs ≡ ys
unfolding lex_le
lex_le_anti [] [] h k = refl
lex_le_anti [] (y ∷ ys) h k = cc
lex_le_anti (x ∷ xs) [] h k = cc
lex_le_anti (x ∷ xs) (y ∷ ys) h k = ground (arith, lex_le_anti xs ys)

codes-injective : (s t : String) → codes s ≡ codes t → s ≡ t
codes-injective String.[] String.[] e = refl
codes-injective String.[] (String.◌∷◌ d t) e = cc
codes-injective (String.◌∷◌ c s) String.[] e = cc
codes-injective (String.◌∷◌ c s) (String.◌∷◌ d t) e =
    ap₂ String.◌∷◌ (Char-path c d (cc)) (codes-injective s t (cc))

-- `s <= t`
unfoldable pub text_le : String → String → Bool
unfolding lex_le
text_le s t = lex_le (codes s) (codes t)

pub text_le-IsOrder : IsOrder text_le
unfolding text_le
text_le-IsOrder = record {
  total = λ s t. lex_le_total (codes s) (codes t);
  trans = λ s t u. lex_le_trans (codes s) (codes t) (codes u);
}

pub text_le_anti : (s t : String) → text_le s t ≡ true → text_le t s ≡ true → s ≡ t
unfolding text_le
text_le_anti s t h k = codes-injective s t (lex_le_anti (codes s) (codes t) h k)
