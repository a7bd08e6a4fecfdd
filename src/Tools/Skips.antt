-- ===== src/Tools/Skips.antt =====
-- The functions of backend/agent/execution/tool_invocation.py around one call.
use travel_agent_pro.Prelude.{
  ◌≡◌, Bool, true, false, not, ◌&&◌, ◌||◌, Option, none, some, List, String, str_eq, ◌≤◌, length,
  arith, if◌then◌else◌, Option-cases, inl, inr,
}
use travel_agent_pro.Python.{truthy}
use travel_agent_pro.Python.Dict.{Value, null, dict}
use travel_agent_pro.Python.Builtins.{Builtins, get_null}
use travel_agent_pro.Tools.Types.{
  ToolCall, ToolResult, success, error, skipped, Suggestion, other_query, rejected, warned,
  failed_quality, answered_id,
}
use travel_agent_pro.Tools.History.{should_skip_redundant_update, skip_again, history_size}

-- `GuardrailResult` and the two methods of `ToolGuardrail` that calls go through.
pub record GuardrailResult : Type 0 where
  pub allowed : Bool
  pub reason : String
  pub level : String

pub record Guardrail : Type 0 where
  pub validate_input : ToolCall → GuardrailResult
  pub validate_output : String → Value → GuardrailResult

unfoldable pub is_success : ToolResult → Bool
is_success r = elim r.status [ success ↦ true | error ↦ false | skipped ↦ false ]

unfoldable pub is_backtrack_result : ToolResult → Bool
unfolding is_success
is_backtrack_result r =
    is_success r && (elim r.content [ dict d ↦ truthy (get_null "backtracked" d) | _ ↦ false ])

unfoldable pub build_skipped_tool_result : String → String → Suggestion → ToolResult
build_skipped_tool_result id code hint = record {
  tool_call_id = id;
  status = skipped;
  content = null;
  metadata = none;
  error_code = some code;
  suggestion = some hint;
}

abbrev pub is_some_result : Option ToolResult → Bool
is_some_result none = false
is_some_result (some r) = true

module _ (py : Builtins) (guardrail : Option Guardrail) where
  -- What the guardrail says of a call.
  checked_input : ToolCall → Option ToolResult
  unfolding build_skipped_tool_result
  checked_input call = elim guardrail [
    | none ↦ none
    | some g ↦
        if (g.validate_input call).allowed
        then none
        else some (
            build_skipped_tool_result call.id "GUARDRAIL_REJECTED"
              (rejected (g.validate_input call).reason))
  ]

  -- Whether a call is skipped, and the history after the question.
  unfoldable pub pre_execution_skip_result :
      ToolCall → List String → Option ToolResult × List String
  unfolding checked_input build_skipped_tool_result
  pre_execution_skip_result call queries =
      let (redundant, queries') = should_skip_redundant_update py call queries in
      (
        if redundant
            then some (build_skipped_tool_result call.id "REDUNDANT_SEARCH" other_query)
            else checked_input call,
        queries',
      )

  pub skip-answered :
      (call : ToolCall) (queries : List String) (r : ToolResult)
      → (pre_execution_skip_result call queries).0 ≡ some r
      → answered_id r ≡ call.id
  unfolding pre_execution_skip_result
  skip-answered call queries r e = elim (Option-cases guardrail) [
    | inl g ↦ ground (arith, g)
    | inr (g, f) ↦ ground (arith, f)
  ]

  -- A call that is to be skipped is to be skipped too when it is asked about again right after.
  pub skip-stays :
      (call : ToolCall) (queries : List String) (r : ToolResult)
      → length queries ≤ 20
      → (pre_execution_skip_result call queries).0 ≡ some r
      → is_some_result (pre_execution_skip_result call (pre_execution_skip_result call queries).1).0
        ≡ true
  unfolding pre_execution_skip_result
  skip-stays call queries r h e = ground (arith, skip_again py call queries h, e)

  pub skip-size :
      (call : ToolCall) (queries : List String)
      → length queries ≤ 20
      → length (pre_execution_skip_result call queries).1 ≤ 20
  unfolding pre_execution_skip_result
  skip-size call queries h = history_size py call queries h

  -- A result of a tool that succeeded is given the guardrail's reason as a suggestion.
  unfoldable pub validate_tool_output : ToolCall → ToolResult → ToolResult
  validate_tool_output call r = if not (is_success r) then r else elim guardrail [
    | none ↦ r
    | some g ↦
        let check = g.validate_output call.name r.content in
        if not (str_eq check.level "warn" || str_eq check.level "error") || str_eq check.reason ""
        then r
        else record r {
          error_code = none;
          suggestion = some (
              if str_eq check.level "error"
              then failed_quality check.reason
              else warned check.reason);
        }
  ]

  pub validate_tool_output-answered :
      (call : ToolCall) (r : ToolResult) → answered_id (validate_tool_output call r) ≡ answered_id r
  unfolding validate_tool_output
  validate_tool_output-answered call r = elim (Option-cases guardrail) [
    | inl g ↦ ground (arith, g)
    | inr (g, f) ↦ ground (arith, f)
  ]
