-- ===== src/Store/Tables.antt =====
-- `SELECT`, `UPDATE … WHERE` and `INSERT` over one table, as functions on its list of rows.
pub mod Keyed
use dsh_dag_orchestrator.Prelude.{
  ℕ, Bool, true, false, List, [], ◌∷◌, Option, none, some, String, ◌==◌, if◌then◌else◌, filter,
  length,
}

module _ {ℓ} {A : Type ℓ} where
  -- `UPDATE … SET f WHERE p`
  abbrev pub update_where : (A → Bool) → (A → A) → List A → List A
  update_where p f [] = []
  update_where p f (x ∷ xs) = (if p x then f x else x) ∷ update_where p f xs

  -- The statement's `changes`.
  abbrev pub changes : (A → Bool) → List A → ℕ
  changes p xs = length (filter p xs)

-- `column IS ?`: `NULL` matches `NULL`.
abbrev pub is_same : Option String → Option String → Bool
is_same none none = true
is_same (some a) (some b) = a == b
is_same _ _ = false
