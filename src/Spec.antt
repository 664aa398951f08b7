-- ===== src/Spec.antt =====
-- lib/spec-validate.js: the checks of a spec, over the value that the shape check of zod returns.
pub mod Graphs
pub mod Closure
pub mod Cycle
pub mod Uris
pub mod Issues
pub mod Tasks
pub mod Inputs
pub mod Kinds
pub mod Semantics
pub mod Validate
mod Witnesses
use Prim.Native.String.{◌++◌ as append}
use dsh_dag_orchestrator.Prelude.{ℕ, Bool, List, [], ◌∷◌, Option, none, some, String}
use dsh_dag_orchestrator.Json.{Value}
use dsh_dag_orchestrator.Store.Events.{decimal}
use dsh_dag_orchestrator.Ready.{Condition, DependencyEdge}

pub data Kind : Type 0 where
  agent approval merge : Kind

pub record Worktree : Type 0 where
  pub task : String
  pub base_ref : Option String

-- One task of a parsed spec, with its defaults filled. What no check reads is left out, and of a block
-- whose presence alone is read, a value.
pub record TaskSpec : Type 0 where
  pub id : String
  pub kind : Kind
  pub prompt : Option String
  pub depends_on : List DependencyEdge
  pub inputs : List String
  pub outputs : List String
  pub backend : Option String
  pub model : Option String
  pub provider : Option String
  pub persona : Option String
  pub tool_filter : Option Value
  pub cwd : Option String
  pub max_tokens : Option ℕ
  pub max_depth : Option ℕ
  pub delegation : Option Bool
  pub max_attempts : Option ℕ
  pub verify : Option Value
  pub approval_block : Option Value
  pub worktree : Option Worktree

pub record SpecError : Type 0 where
  pub code : String
  pub path : Option String
  pub message : String

abbrev pub fault : String → String → List String → SpecError
fault code path message = record { code = code; path = some path; message = concat message }
  where
    concat : List String → String
    concat [] = ""
    concat (t ∷ ts) = append t (concat ts)

-- `${before}[${i}]${after}`
unfoldable pub indexed : String → ℕ → String → String
unfolding decimal
indexed before i after = append before (append "[" (append (decimal i) (append "]" after)))
