-- ===== src/Store/Rows.antt =====
-- The DDL of lib/dag-store.js: one record for a row of each table, with the columns in their order. A
-- nullable column is an `Option`.
use dsh_dag_orchestrator.Prelude.{ℕ, Bool, List, Option, String, String-discrete}
use dsh_dag_orchestrator.States.{TaskState}

pub data RunState : Type 0 where
  running pausing paused cancelling succeeded failed cancelled : RunState
  other : String → RunState

pub data AttemptState : Type 0 where
  claimed running succeeded failed cancelled orphaned : AttemptState

pub data ApprovalState : Type 0 where
  pending approved rejected : ApprovalState

unfoldable pub RunState-discrete : Discrete RunState
unfolding String-discrete
RunState-discrete = hlevel String-discrete

-- `blocked_reason`: the JSON text of an object with a code, and what the code is about (an upstream
-- task, an approval), or a text that is no such object.
pub data ReasonText : Type 0 where
  coded : (code about : String) → ReasonText
  raw : String → ReasonText

pub record RunRow : Type 0 where
  pub run_id : String
  pub name : Option String
  pub spec_json : String
  pub spec_hash : String
  pub state : RunState
  pub control_intent : Option String
  pub parent_session : Option String
  pub planner_session : Option String
  pub base_cwd : String
  pub created_at : ℕ
  pub updated_at : ℕ
  pub version : ℕ

pub record TaskRow : Type 0 where
  pub run_id : String
  pub task_id : String
  pub state : TaskState
  pub version : ℕ
  pub blocked_reason : Option ReasonText
  pub retry_not_before : Option ℕ
  pub updated_at : ℕ

pub record AttemptRow : Type 0 where
  pub attempt_id : String
  pub run_id : String
  pub task_id : String
  pub ordinal : ℕ
  pub state : AttemptState
  pub backend : String
  pub child_session : Option String
  pub owner_token : Option String
  pub started_at : ℕ
  pub updated_at : ℕ
  pub stop_reason : Option String
  pub failure_json : Option String
  pub result_json : Option String

pub record EventRow : Type 0 where
  pub event_id : String
  pub run_id : String
  pub seq : ℕ
  pub type : String
  pub at : ℕ
  pub task_id : Option String
  pub attempt_id : Option String
  pub payload_json : String
  pub prev_hash : String
  pub hash : String

pub record ApprovalRow : Type 0 where
  pub approval_id : String
  pub run_id : String
  pub task_id : String
  pub action : String
  pub state : ApprovalState
  pub note : Option String
  pub created_at : ℕ
  pub decided_at : Option ℕ

pub record OutputRow : Type 0 where
  pub run_id : String
  pub task_id : String
  pub name : String
  pub value_json : String
  pub produced_by_attempt : String
  pub created_at : ℕ

pub record Store : Type 0 where
  pub runs : List RunRow
  pub tasks : List TaskRow
  pub attempts : List AttemptRow
  pub events : List EventRow
  pub approvals : List ApprovalRow
  pub outputs : List OutputRow
  pub active_tx : Bool
  pub closed : Bool
