-- ===== src/Tools/Types.antt =====
-- Calls and their results: backend/agent/types.py, backend/tools/base.py and backend/run.py. The texts
-- for the model are kept as what they say; error texts are left out.
use travel_agent_pro.Prelude.{ℤ, Bool, Option, List, String}
use travel_agent_pro.Python.Dict.{Value, Fields}
use travel_agent_pro.Python.Exec.{Exec}

pub record ToolCall : Type 0 where
  pub id : String
  pub name : String
  pub arguments : Fields

pub data Status : Type 0 where
  success error skipped : Status

-- `suggestion`, by the branch that wrote it; those that repeat a text carry it.
pub data Suggestion : Type 0 where
  other_query already_moved unexpected check_arguments of_tool : Suggestion
  available give : List String → Suggestion
  rejected warned failed_quality : String → Suggestion

-- `content` is the field `data`.
pub record ToolResult : Type 0 where
  pub tool_call_id : String
  pub status : Status
  pub content : Value
  pub metadata : Option Fields
  pub error_code : Option String
  pub suggestion : Option Suggestion

-- A tool acts on the shared objects `W`. `required` is the entry of that name in its parameters,
-- `writes` is side_effect == "write", and `run` is `_fn`.
pub record ToolDef (W : Type 0) : Type 0 where
  pub name : String
  pub phases : List ℤ
  pub required : List String
  pub writes : Bool
  pub run : Fields → Exec W Value

pub data IterationProgress : Type 0 where
  no_output partial_text partial_tool_call tools_read_only tools_with_writes : IterationProgress

-- The ids that calls and results carry.
abbrev pub call_id : ToolCall → String
call_id c = c.id

abbrev pub answered_id : ToolResult → String
answered_id r = r.tool_call_id
