-- ===== src/Json.antt =====
-- JavaScript values as far as the program prints them: `JSON.stringify`, and `canonicalJson` of
-- lib/dag-store.js, the printing under the event chain and the spec hash. A number is the text that
-- the language prints for it, and a `hole` an index of a sparse array that has no element: `map` passes
-- over it, and `join` writes nothing there.
use Prim.Native.Char.{Char, code}
use Prim.Native.String.{◌++◌}
use dsh_dag_orchestrator.Prelude.{
  ℕ, ◌/◌, ◌%◌, Bool, true, false, ◌||◌, List, [], ◌∷◌, Option, none, some, String, ◌==◌, ltb,
  nat_eq, if◌then◌else◌,
}
use dsh_dag_orchestrator.Prelude.Texts.{text_le}
use dsh_dag_orchestrator.Prelude.Sort.{sort}

mutual
  pub data Value : Type 0 where
    null : Value
    boolean : Bool → Value
    number : String → Value
    string : String → Value
    array : Items → Value
    object : Fields → Value
    undefined bigint function symbol : Value

  pub data Items : Type 0 where
    nil : Items
    cons : Value → Items → Items
    hole : Items → Items

  pub data Fields : Type 0 where
    end : Fields
    field : String → Value → Fields → Fields

one_char : Char → String
one_char c = String.◌∷◌ c String.[]

hex_digit : ℕ → String
hex_digit n =
    if nat_eq n 10
    then "a"
    else if nat_eq n 11
    then "b"
    else if nat_eq n 12
    then "c"
    else if nat_eq n 13
    then "d"
    else if nat_eq n 14
    then "e"
    else if nat_eq n 15
    then "f"
    else if nat_eq n 0
    then "0"
    else if nat_eq n 1
    then "1"
    else if nat_eq n 2
    then "2"
    else if nat_eq n 3
    then "3"
    else if nat_eq n 4
    then "4"
    else if nat_eq n 5
    then "5"
    else if nat_eq n 6
    then "6"
    else if nat_eq n 7
    then "7"
    else if nat_eq n 8
    then "8"
    else "9"

-- How a character is written inside quotes.
escape : Char → String
unfolding one_char hex_digit
escape c =
    if nat_eq (code c) 34
    then "\\\""
    else if nat_eq (code c) 92
    then "\\\\"
    else if nat_eq (code c) 8
    then "\\b"
    else if nat_eq (code c) 9
    then "\\t"
    else if nat_eq (code c) 10
    then "\\n"
    else if nat_eq (code c) 12
    then "\\f"
    else if nat_eq (code c) 13
    then "\\r"
    else if ltb (code c) 32
    then "\\u00" ++ (hex_digit (code c / 16) ++ hex_digit (code c % 16))
    else one_char c

escape_all : String → String
unfolding escape
escape_all String.[] = ""
escape_all (String.◌∷◌ c s) = escape c ++ escape_all s

unfoldable pub quote : String → String
unfolding escape_all
quote s = "\"" ++ (escape_all s ++ "\"")

abbrev bool_text : Bool → String
bool_text true = "true"
bool_text false = "false"

-- `parts.join(',')`
unfoldable pub join_commas : List String → String
join_commas [] = ""
join_commas (p ∷ []) = p
join_commas (p ∷ q ∷ ps) = p ++ ("," ++ join_commas (q ∷ ps))

-- Why `canonicalJson` throws a TypeError.
pub data JsonError : Type 0 where
  undefined_value bigint_value function_value symbol_value : JsonError

pub data Printed : Type 0 where
  text : String → Printed
  throws : JsonError → Printed

abbrev pub map_text : (String → String) → Printed → Printed
map_text f (text t) = text (f t)
map_text f (throws e) = throws e

pub data PrintedList : Type 0 where
  texts : List String → PrintedList
  list_throws : JsonError → PrintedList

abbrev pub cons_text : Printed → PrintedList → PrintedList
cons_text (throws e) ps = list_throws e
cons_text (text t) (texts ts) = texts (t ∷ ts)
cons_text (text t) (list_throws e) = list_throws e

abbrev pub joined : (String → String) → PrintedList → Printed
joined f (texts ts) = text (f (join_commas ts))
joined f (list_throws e) = throws e

abbrev pub is_undefined : Value → Bool
is_undefined undefined = true
is_undefined _ = false

abbrev pub key_le : String × Printed → String × Printed → Bool
key_le a b = text_le a.0 b.0

abbrev pub bodies : List (String × Printed) → PrintedList
bodies [] = texts []
bodies ((k, p) ∷ ps) = cons_text (map_text (λ t. quote k ++ (":" ++ t)) p) (bodies ps)

unfoldable mutual
  unfolding quote join_commas sort text_le

  pub canonical_json : Value → Printed
  canonical_json undefined = throws undefined_value
  canonical_json null = text "null"
  canonical_json (number n) = text n
  canonical_json (boolean b) = text (bool_text b)
  canonical_json (string s) = text (quote s)
  canonical_json bigint = throws bigint_value
  canonical_json function = throws function_value
  canonical_json symbol = throws symbol_value
  canonical_json (array xs) = joined (λ t. "[" ++ (t ++ "]")) (canonical_items xs)
  canonical_json (object fs) =
      joined (λ t. "{" ++ (t ++ "}")) (bodies (sort key_le (canonical_fields fs)))

  pub canonical_items : Items → PrintedList
  canonical_items nil = texts []
  canonical_items (hole xs) = cons_text (text "") (canonical_items xs)
  canonical_items (cons x xs) = cons_text (canonical_json x) (canonical_items xs)

  -- The printed fields, without those whose value is `undefined`.
  pub canonical_fields : Fields → List (String × Printed)
  canonical_fields end = []
  canonical_fields (field k v fs) =
      if is_undefined v then canonical_fields fs else (k, canonical_json v) ∷ canonical_fields fs

-- `value[k]` of an object, where a later field of the same name replaces an earlier one.
unfoldable pub get_field : String → Fields → Option Value
get_field k end = none
get_field k (field j v fs) = elim (get_field k fs) [
  | some w ↦ some w
  | none ↦ if j == k then some v else none
]

abbrev is_dropped : Value → Bool
is_dropped undefined = true
is_dropped function = true
is_dropped symbol = true
is_dropped _ = false

-- `JSON.stringify` throws on a value that holds a bigint.
unfoldable mutual
  pub has_bigint : Value → Bool
  has_bigint bigint = true
  has_bigint (array xs) = item_has_bigint xs
  has_bigint (object fs) = field_has_bigint fs
  has_bigint _ = false

  pub item_has_bigint : Items → Bool
  item_has_bigint nil = false
  item_has_bigint (hole xs) = item_has_bigint xs
  item_has_bigint (cons x xs) = has_bigint x || item_has_bigint xs

  pub field_has_bigint : Fields → Bool
  field_has_bigint end = false
  field_has_bigint (field k v fs) = has_bigint v || field_has_bigint fs

-- `JSON.stringify` of a value without a bigint, with the language's treatment of the three kinds that it
-- leaves out. Where a value may hold a bigint, `has_bigint` is asked first.
unfoldable mutual
  unfolding quote join_commas

  pub stringify : Value → String
  stringify (boolean b) = bool_text b
  stringify (number n) = n
  stringify (string s) = quote s
  stringify (array xs) = "[" ++ (join_commas (stringify_items xs) ++ "]")
  stringify (object fs) = "{" ++ (join_commas (stringify_fields fs) ++ "}")
  stringify _ = "null"

  pub stringify_items : Items → List String
  stringify_items nil = []
  stringify_items (hole xs) = "null" ∷ stringify_items xs
  stringify_items (cons x xs) = stringify x ∷ stringify_items xs

  pub stringify_fields : Fields → List String
  stringify_fields end = []
  stringify_fields (field k v fs) =
      if is_dropped v
      then stringify_fields fs
      else (quote k ++ (":" ++ stringify v)) ∷ stringify_fields fs
