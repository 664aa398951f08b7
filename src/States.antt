-- ===== src/States.antt =====
-- The lifecycle vocabularies of the state columns (lib/types.js and the DDL of lib/dag-store.js).
use dsh_dag_orchestrator.Prelude.{String, String-discrete}

-- `other` is any text that the column could hold besides.
pub data TaskState : Type 0 where
  pending ready queued running succeeded failed retry_wait blocked cancelled : TaskState
  other : String → TaskState

unfoldable pub TaskState-discrete : Discrete TaskState
unfolding String-discrete
TaskState-discrete = hlevel String-discrete
