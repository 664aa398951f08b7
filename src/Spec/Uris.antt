-- ===== src/Spec/Uris.antt =====
-- TASK_URI_RE of lib/spec-validate.js, `^task:\/\/([^/]+)\/([^/]+)$`, and its two groups.
use Prim.Native.Char.{Char, code}
use Prim.Native.String.{◌++◌ as append}
use Prim.Native.String.append
use text.Mathlib.TextEquality.{Char-path}
use mathlib.Core.Path.{ap₂, sym}
use dsh_dag_orchestrator.Prelude.{
  ◌≡◌, ◌↔◌, refl, inl, inr, ap, ◌∙◌, Bool, true, false, not, ◌&&◌, ◌||◌, Option, none, some, String,
  ◌==◌, nat_eq, nat_eq_iff, if◌then◌else◌, Bool-cases, Option-cases, &&-true, arith,
}

abbrev is_slash : Char → Bool
is_slash c = nat_eq (code c) 47

-- `[^/]+` on a whole text.
abbrev has_slash : String → Bool
has_slash String.[] = false
has_slash (String.◌∷◌ c s) = is_slash c || has_slash s

abbrev pub is_segment : String → Bool
is_segment s = not (s == "") && not (has_slash s)

-- The text in front of the first slash and the one behind it.
abbrev split_slash : String → Option (String × String)
split_slash String.[] = none
split_slash (String.◌∷◌ c s) =
    let rest = split_slash s in
    if is_slash c
    then some ("", s)
    else elim rest [ none ↦ none | some (p, n) ↦ some (String.◌∷◌ c p, n) ]

abbrev strip : String → String → Option String
strip String.[] s = some s
strip (String.◌∷◌ c p) String.[] = none
strip (String.◌∷◌ c p) (String.◌∷◌ d s) = if nat_eq (code c) (code d) then strip p s else none

abbrev both_segments : Option (String × String) → Option (String × String)
both_segments none = none
both_segments (some (p, n)) = if is_segment p && is_segment n then some (p, n) else none

unfoldable pub task_uri : String → Option (String × String)
task_uri uri = elim (strip "task://" uri) [
  | none ↦ none
  | some rest ↦ both_segments (split_slash rest)
]

-- What the two groups were cut out of.
abbrev pub make_uri : String → String → String
make_uri producer name = append "task://" (append producer (append "/" name))

strip-append : (p s : String) → strip p (append p s) ≡ some s
strip-append String.[] s = rw (append.nil s) refl
strip-append (String.◌∷◌ c p) s =
    let self : nat_eq (code c) (code c) ≡ true = (nat_eq_iff (code c) (code c)).1 refl in
    rw (append.cons c p s, self) (strip-append p s)

strip-inv : (p u s : String) → strip p u ≡ some s → u ≡ append p s
strip-inv String.[] u s h = (let same : u ≡ s = cc in rw (append.nil s) same)
strip-inv (String.◌∷◌ c p) String.[] s h = absurd (cc)
strip-inv (String.◌∷◌ c p) (String.◌∷◌ d u) s h = elim (Bool-cases (nat_eq (code c) (code d))) [
  | inr n ↦ absurd (cc (rw n at h))
  | inl y ↦
      let same : c ≡ d = Char-path c d ((nat_eq_iff (code c) (code d)).0 y) in
      rw (append.cons c p s) (ap₂ String.◌∷◌ (sym same) (strip-inv p u s (rw y at h)))
]

abbrev slash : Char
slash = "/"

slash-append : (n : String) → append "/" n ≡ String.◌∷◌ slash n
slash-append n = append.cons slash "" n ∙ ap (λ t. String.◌∷◌ slash t) (append.nil n)

split_slash-append :
    (p n : String) → has_slash p ≡ false → split_slash (append p (append "/" n)) ≡ some (p, n)
split_slash-append String.[] n h = rw (append.nil (append "/" n), slash-append n) refl
split_slash-append (String.◌∷◌ c p) n h = elim (Bool-cases (is_slash c)) [
  | inl y ↦ absurd (cc (rw y at h))
  | inr n' ↦
      let ih = split_slash-append p n (rw n' at h) in
      rw (append.cons c p (append "/" n), n', ih) refl
]

split_slash-inv :
    (r p n : String)
    → split_slash r ≡ some (p, n)
    → (r ≡ append p (append "/" n)) × (has_slash p ≡ false)
split_slash-inv String.[] p n h = absurd (cc)
split_slash-inv (String.◌∷◌ c r) p n h = elim (Bool-cases (is_slash c)) [
  | inl y ↦
      let pair : some ("", r) ≡ some (p, n) = rw y at h in
      let p_nil : "" ≡ p = cc in
      let n_rest : r ≡ n = cc in
      let same : c ≡ slash = Char-path c slash ((nat_eq_iff (code c) 47).0 y) in
      rw (← p_nil, ← n_rest, append.nil (append "/" r), slash-append r, same) (refl, refl)
  | inr n' ↦ elim (Option-cases (split_slash r)) [
    | inl e ↦ absurd (cc (rw (n', e) at h))
    | inr ((p', m), e) ↦
        let pair : some (String.◌∷◌ c p', m) ≡ some (p, n) = rw (n', e) at h in
        let p_more : String.◌∷◌ c p' ≡ p = cc in
        let n_same : m ≡ n = cc in
        let (rest, clean) = split_slash-inv r p' m e in
        rw (← p_more, ← n_same, append.cons c p' (append "/" m))
          (ap (λ t. String.◌∷◌ c t) rest, rw n' clean)
  ]
]

both_segments-inv :
    (o : Option (String × String)) (p n : String)
    → both_segments o ≡ some (p, n)
    → (o ≡ some (p, n)) × (is_segment p ≡ true) × (is_segment n ≡ true)
both_segments-inv none p n h = absurd (cc)
both_segments-inv (some (q, m)) p n h = elim (Bool-cases (is_segment q && is_segment m)) [
  | inr no_ ↦ absurd (cc (rw no_ at h))
  | inl both ↦
      let same : some (q, m) ≡ some (p, n) = rw both at h in
      let first : q ≡ p = cc in
      let second : m ≡ n = cc in
      let (left, right) = &&-true (is_segment q) (is_segment m) both in
      (same, rw first at left, rw second at right)
]

segment-clean : (p : String) → is_segment p ≡ true → has_slash p ≡ false
segment-clean p h = ground arith

-- A text is read as the reference to a producer and a name exactly where it is the text that the two
-- are written as, and neither of them is empty or has a slash.
pub task_uri_iff :
    (uri p n : String)
    → (task_uri uri ≡ some (p, n))
      ↔ ((uri ≡ make_uri p n) × (is_segment p ≡ true) × (is_segment n ≡ true))
unfolding task_uri
task_uri_iff uri p n = (
  λ h. elim (Option-cases (strip "task://" uri)) [
    | inl e ↦ absurd (cc (rw (task_uri, e) at h))
    | inr (rest, e) ↦
        let (cut, left, right) = both_segments-inv (split_slash rest) p n (rw (task_uri, e) at h) in
        let (behind, clean) = split_slash-inv rest p n cut in
        (strip-inv "task://" uri rest e ∙ ap (append "task://") behind, left, right)
  ],
  λ (same, left, right).
      let stripped = strip-append "task://" (append p (append "/" n)) in
      let cut = split_slash-append p n (segment-clean p left) in
      rw (same, task_uri, stripped, cut, left, right) refl,
)
