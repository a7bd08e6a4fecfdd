-- ===== src/Tools/Outcome.antt =====
-- The outcome of `execute_tool_batch` of backend/agent/execution/tool_batches.py.
use travel_agent_pro.Prelude.{
  ◌≡◌, ◌≤◌, Bool, true, Option, none, some, List, [], length, String, ◌++◌,
}
use travel_agent_pro.Python.Exec.{Result}
use travel_agent_pro.Python.Builtins.{Builtins}
use travel_agent_pro.Tools.Types.{ToolCall, ToolResult, tools_with_writes}
use travel_agent_pro.Tools.Engine.{Toolbox, execute}
use travel_agent_pro.Tools.EngineOrder.{Gathered}
use travel_agent_pro.Tools.Skips.{Guardrail}
use travel_agent_pro.Tools.Batches.{
  Batch, Next, go_on, ended, cancelled, failed, ToolHooks, execute_tool_batch,
}
use travel_agent_pro.Tools.Answers.{ids, call_ids, HookRaised, Tally, batch-Tally}
use travel_agent_pro.Tools.Fuel.{IsStopped, batch_terminates}

-- How the generator ends: with an outcome after one chunk for each call, in their order, and a message
-- for each of them if no backtrack ended it early; by a cancellation that was asked for; or by an exception
-- that a hook raised, after one message for each of the first calls.
abbrev pub Answered : {W : Type 0} → (W → Bool) → ToolHooks W → List ToolCall → Next W → Type 0
Answered is_cancelled tool_hooks calls (go_on cs s) = ⊥
Answered is_cancelled tool_hooks calls (ended none s) =
    (ids s.chunks ≡ call_ids calls) × (ids s.messages ≡ call_ids calls)
Answered is_cancelled tool_hooks calls (ended (some r) s) = ids s.chunks ≡ call_ids calls
Answered is_cancelled tool_hooks calls (cancelled s) = is_cancelled s.world ≡ true
Answered is_cancelled tool_hooks calls (failed x s) =
    HookRaised tool_hooks x × ((rest : List String) × (ids s.messages ++ rest ≡ call_ids calls))

Answered-Tally :
    {W : Type 0} (is_cancelled : W → Bool) (tool_hooks : ToolHooks W) (calls : List ToolCall)
    (n : Next W)
    → IsStopped n
    → Tally is_cancelled tool_hooks (call_ids calls) n
    → Answered is_cancelled tool_hooks calls n
Answered-Tally is_cancelled tool_hooks calls (go_on cs s) stop h = absurd stop
Answered-Tally is_cancelled tool_hooks calls (ended none s) stop h = (h.0, rw h.1 h.0)
Answered-Tally is_cancelled tool_hooks calls (ended (some r) s) stop h = h
Answered-Tally is_cancelled tool_hooks calls (cancelled s) stop h = h
Answered-Tally is_cancelled tool_hooks calls (failed x s) stop h = h

module _ {W : Type 0} (py : Builtins) (guardrail : Option Guardrail) (parallel : Bool)
    (names_argument : ToolCall → W → Bool) (tools : Toolbox W)
    (gather : List ToolCall → W → List (Result ToolResult) × W) (is_cancelled : W → Bool)
    (tool_hooks : ToolHooks W) where
  pub batch_answers :
      (gathers : (cs : List ToolCall) (w : W)
        → Gathered (execute names_argument tools) cs (gather cs w).0)
      (calls : List ToolCall) (s : Batch W)
      → length s.queries ≤ 20
      → s.chunks ≡ []
      → s.messages ≡ []
      → Answered is_cancelled tool_hooks calls (
          execute_tool_batch py guardrail parallel names_argument tools gather is_cancelled
            tool_hooks calls s)
  batch_answers gathers calls s size no_chunk no_message =
      Answered-Tally is_cancelled tool_hooks calls
        (execute_tool_batch py guardrail parallel names_argument tools gather is_cancelled
          tool_hooks calls s)
        (batch_terminates py guardrail parallel names_argument tools gather is_cancelled tool_hooks
          calls s size)
        (batch-Tally py guardrail parallel names_argument tools gather is_cancelled tool_hooks
          gathers calls s no_chunk no_message)

-- Where the progress stands at writes.
abbrev pub HasWritten : {W : Type 0} → Next W → Type 0
HasWritten (go_on cs s) = s.progress ≡ tools_with_writes
HasWritten (ended r s) = s.progress ≡ tools_with_writes
HasWritten (cancelled s) = Unit
HasWritten (failed x s) = s.progress ≡ tools_with_writes
