-- ===== src/Tests/Prompts.antt =====
-- Sample prompts for backend/agent/compaction.py and backend/api/orchestration/agent/hooks.py.
use travel_agent_pro.Prelude.{
  ◌≡◌, refl, ℕ, true, false, none, some, List, [], ◌∷◌, ◌++◌, map, length, String,
}
use travel_agent_pro.Python.Text.{codes, contains_text}
use travel_agent_pro.Python.Dict.{str, entry, empty}
use travel_agent_pro.Tools.Types.{ToolCall, ToolResult, success}
use travel_agent_pro.Loop.Messages.{Message, system, user, assistant, tool}
use travel_agent_pro.Loop.Pairing.{IsPaired}
use travel_agent_pro.Context.Compaction.{
  Estimates, mode_for, largest_tool, has_tools, compact_in, compact_messages_for_prompt,
}
use travel_agent_pro.Context.Summary.{
  fits, must_keep, summary_source, summarized, summarize, on_before_llm,
}
use travel_agent_pro.Context.Pairs.{Alike, before_llm-IsPaired}

-- A message is an unit.
abbrev budget_of : ℕ → Estimates
budget_of n = record {
  prompt_tokens = λ ms. length ms;
  message_tokens = λ m. 1;
  prompt_budget = n;
  is_light = λ n. true;
  is_heavy = λ n. false;
  oversized_tool = 600;
  aggressive_tool = 1200;
}

abbrev whole : String → String
whole s = s

abbrev summary_of : List Message → String
summary_of ms = "summary"

abbrev call : String → ToolCall
call id = record { id = id; name = "web_search"; arguments = entry "query" (str "Kyoto") empty }

abbrev answer : String → ToolResult
answer id = record {
  tool_call_id = id;
  status = success;
  content = str "found";
  metadata = none;
  error_code = none;
  suggestion = none;
}

abbrev asked : List Message
asked =
    user "Kyoto?"
    ∷ assistant (some "Yes.") []
    ∷ assistant none (call "1" ∷ call "2" ∷ call "3" ∷ call "4" ∷ [])
    ∷ tool (answer "1")
    ∷ tool (answer "2")
    ∷ tool (answer "3")
    ∷ tool (answer "4")
    ∷ []

in_budget :
    fits whole
      (budget_of 20)
      summary_of
      (compact_messages_for_prompt whole
        (budget_of 20)
        ((system "Plan." ∷ asked) ++ map user ("note" ∷ []))).0
    ≡ true
unfolding compact_messages_for_prompt compact_in mode_for largest_tool has_tools
in_budget = refl

before_llm-IsPaired_example :
    Alike
      ((system "Plan." ∷ asked) ++ map user ("note" ∷ []))
      (on_before_llm whole (budget_of 20) summary_of ("note" ∷ []) (system "Plan." ∷ asked))
    × (IsPaired (system "Plan." ∷ asked)
        → IsPaired
            (on_before_llm whole (budget_of 20) summary_of ("note" ∷ []) (system "Plan." ∷ asked)))
before_llm-IsPaired_example =
    before_llm-IsPaired whole (budget_of 20) summary_of ("note" ∷ []) (system "Plan.") asked
      in_budget

-- Beyond the budget the latest four messages may be answers to calls that are not kept.
answers_alone :
    on_before_llm whole (budget_of 4) summary_of [] (system "Plan." ∷ asked)
    ≡ system "Plan."
      ∷ user "summary"
      ∷ tool (answer "1")
      ∷ tool (answer "2")
      ∷ tool (answer "3")
      ∷ tool (answer "4")
      ∷ []
unfolding on_before_llm summarize summarized summary_source must_keep compact_messages_for_prompt
    compact_in mode_for largest_tool has_tools contains_text codes
answers_alone = refl
