-- ===== src/Spec/Cycle/Colors.antt =====
-- The colours of `detectCycle`, and what they say of the stack and of the tasks that were left.
use dsh_dag_orchestrator.Prelude.{
  ℕ, suc, ◌+◌, ◌≤◌, ◌≡◌, ◌≢◌, ◌↔◌, refl, inl, inr, Bool, true, false, List, [], ◌∷◌, Option, none,
  some, String, ◌==◌, eq_iff, if◌then◌else◌, Bool-cases, arith,
}
use dsh_dag_orchestrator.Spec.Graphs.{Graph, Edge, is_in}
use dsh_dag_orchestrator.Spec.Cycle.{Color, Colors, Dfs, white, gray, black, color_of, enter, leave}
use dsh_dag_orchestrator.Spec.Cycle.Order.{Left}

abbrev is_white : Option Color → Bool
is_white (some white) = true
is_white _ = false

-- How many entries of the order are white.
abbrev pub whites : List String → Colors → ℕ
whites [] c = 0
whites (id ∷ ids) c = (if is_white (color_of c id) then 1 else 0) + whites ids c

pub whites_anti :
    (ids : List String) (u : String) (x : Color) (c : Colors)
    → x ≢ white
    → whites ids ((u, x) ∷ c) ≤ whites ids c
whites_anti [] u x c n = omega arith
whites_anti (id ∷ ids) u white c n = absurd (n refl)
whites_anti (id ∷ ids) u gray c n = ground (arith, whites_anti ids u gray c n)
whites_anti (id ∷ ids) u black c n = ground (arith, whites_anti ids u black c n)

pub whites_less :
    (ids : List String) (u : String) (c : Colors)
    → is_in u ids ≡ true
    → color_of c u ≡ some white
    → suc (whites ids ((u, gray) ∷ c)) ≤ whites ids c
whites_less [] u c h w = absurd (cc)
whites_less (id ∷ ids) u c h w = elim (Bool-cases (id == u)) [
  | inl y ↦
      let same : id ≡ u = (eq_iff id u).0 y in
      let self : u == u ≡ true = (eq_iff u u).1 refl in
      let rest : whites ids ((u, gray) ∷ c) ≤ whites ids c = whites_anti ids u gray c (λ e. cc) in
      rw (same, self, w) (omega (arith, rest))
  | inr n ↦
      let n' : u == id ≡ false = ground (arith, eq_iff u id, eq_iff id u) in
      rw n' (omega (arith, whites_less ids u c (rw n at h) w))
]

module _ (order : List String) (g : Graph) where
  -- `fin` holds the tasks that were left, the last in front.
  pub record Ok (s : Dfs) (fin : List String) : Type 0 where
    pub known : (v : String) → is_in v order ≡ true → color_of s.color v ≢ none
    pub whites : (v : String) → color_of s.color v ≡ some white → is_in v order ≡ true
    pub grays : (v : String) → (color_of s.color v ≡ some gray) ↔ (is_in v s.stack ≡ true)
    pub blacks : (v : String) → (color_of s.color v ≡ some black) ↔ (is_in v fin ≡ true)
    pub left : Left order g fin

  pub Ok-enter :
      (u : String) (s : Dfs) (fin : List String)
      → Ok s fin
      → color_of s.color u ≡ some white
      → Ok (enter u s) fin
  Ok-enter u s fin o w = record {
    known =
        λ v h. elim (Bool-cases (u == v)) [ inl y ↦ rw y (λ e. cc) | inr n ↦ rw n (o.known v h) ];
    whites = λ v h. elim (Bool-cases (u == v)) [
      | inl y ↦ absurd (cc (rw y at h))
      | inr n ↦ o.whites v (rw n at h)
    ];
    grays = λ v. elim (Bool-cases (u == v)) [
      | inl y ↦ rw y (λ e. refl, λ e. refl)
      | inr n ↦ rw n (o.grays v)
    ];
    blacks = λ v. elim (Bool-cases (u == v)) [
      | inl y ↦
          let same : u ≡ v = (eq_iff u v).0 y in
          let w' : color_of s.color v ≡ some white = rw (← same) w in
          rw y (λ e. absurd (cc), λ h. absurd (cc ((o.blacks v).1 h, w')))
      | inr n ↦ rw n (o.blacks v)
    ];
    left = o.left;
  }

  pub Ok-leave :
      (u : String) (rest : List String) (t : Dfs) (fin : List String)
      → Ok t fin
      → t.stack ≡ u ∷ rest
      → is_in u rest ≡ false
      → ((v : String) → Edge g u v → is_in v order ≡ true → is_in v fin ≡ true)
      → Ok (leave u t) (u ∷ fin)
  Ok-leave u rest t fin o top once below = record {
    known =
        λ v h. elim (Bool-cases (u == v)) [ inl y ↦ rw y (λ e. cc) | inr n ↦ rw n (o.known v h) ];
    whites = λ v h. elim (Bool-cases (u == v)) [
      | inl y ↦ absurd (cc (rw y at h))
      | inr n ↦ o.whites v (rw n at h)
    ];
    grays = λ v. elim (Bool-cases (u == v)) [
      | inl y ↦
          let same : u ≡ v = (eq_iff u v).0 y in
          let out : is_in v rest ≡ false = rw (← same) once in
          rw (top, y) (λ e. absurd (cc), λ h. absurd (cc (h, out)))
      | inr n ↦ rw (top, n) (rw (top, n) at (o.grays v))
    ];
    blacks = λ v. elim (Bool-cases (u == v)) [
      | inl y ↦ rw y (λ e. refl, λ h. refl)
      | inr n ↦ rw n (o.blacks v)
    ];
    left = (below, o.left);
  }
