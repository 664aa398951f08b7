-- ===== src/Spec/Issues.antt =====
-- How lib/spec-validate.js renders what zod reports: `formatPath`, `appendKey` and `mapZodIssues`.
use Prim.Native.String.{◌++◌ as append}
use dsh_dag_orchestrator.Prelude.{
  ℕ, List, [], ◌∷◌, ◌++◌, Option, none, some, String, ◌==◌, if◌then◌else◌, get_or,
}
use dsh_dag_orchestrator.Spec.{SpecError, indexed}
use dsh_dag_orchestrator.Spec.Graphs.{is_in}

pub data Segment : Type 0 where
  key : String → Segment
  index : ℕ → Segment

-- One issue of zod: its code and path, the keys that it did not recognize, and the code that a
-- refinement of this program tagged it with.
pub record Issue : Type 0 where
  pub code : String
  pub path : List Segment
  pub keys : List String
  pub dag_code : Option String
  pub message : String

unfoldable pub join_path : String → List Segment → String
unfolding indexed
join_path out [] = out
join_path out (index i ∷ rest) = join_path (indexed out i "") rest
join_path out (key k ∷ rest) = join_path (if out == "" then k else append out (append "." k)) rest

unfoldable pub format_path : List Segment → Option String
unfolding join_path
format_path [] = none
format_path (s ∷ rest) = some (join_path "" (s ∷ rest))

abbrev append_key : Option String → String → String
append_key none k = k
append_key (some base) k = append base (append "." k)

abbrev bridge_only_keys : List String
bridge_only_keys = "permission_mode" ∷ "reasoning_effort" ∷ []

unfoldable pub key_error : Option String → String → SpecError
key_error base k =
    if is_in k bridge_only_keys
    then record {
      code = "dag.bridge_unsupported";
      path = some (append_key base k);
      message = append "field '" (
          append k
            "' targets the bridge delegation surface and is not supported; this plugin binds native subagents only");
    }
    else record {
      code = "dag.unknown_field";
      path = some (append_key base k);
      message = append "unknown field '" (append k "'");
    }

abbrev key_errors : Option String → List String → List SpecError
key_errors base [] = []
key_errors base (k ∷ ks) = key_error base k ∷ key_errors base ks

unfoldable pub issue_errors : Issue → List SpecError
unfolding format_path key_error
issue_errors i =
    if i.code == "unrecognized_keys"
    then key_errors (format_path i.path) i.keys
    else record {
      code = get_or i.dag_code "dag.schema_invalid";
      path = format_path i.path;
      message = i.message;
    }
      ∷ []

unfoldable pub map_zod_issues : List Issue → List SpecError
unfolding issue_errors
map_zod_issues [] = []
map_zod_issues (i ∷ is) = issue_errors i ++ map_zod_issues is
