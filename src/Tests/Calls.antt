-- ===== src/Tests/Calls.antt =====
-- Sample batches of calls: backend/agent/execution/tool_batches.py and backend/tools/engine.py.
use travel_agent_pro.Prelude.{
  ◌≡◌, refl, ℕ, ◌≤◌, Bool, true, false, none, some, List, [], ◌∷◌, map, keep, not, length, any,
  String, str_eq, pos, inl, arith,
}
use travel_agent_pro.Python.Dict.{str, dict, entry, empty, get, contains, put, pop}
use travel_agent_pro.Python.{truthy}
use travel_agent_pro.Python.Text.{strip, lower}
use travel_agent_pro.Python.Exec.{Result, ok}
use travel_agent_pro.Tools.Types.{
  ToolCall, ToolResult, ToolDef, Status, success, skipped, no_output,
}
use travel_agent_pro.Tools.Engine.{
  gathered, Toolbox, execute, execute_each, execute_batch, get_tool, is_write, split_metadata,
  sort_items, insert_item,
}
use travel_agent_pro.Tools.Sorting.{in_order}
use travel_agent_pro.Tools.EngineOrder.{
  in_turn, Executed, Gathered-in_turn, batch-in_order, batch-Executed,
}
use travel_agent_pro.Tools.Phases.{
  get_tools_for_phase, phase2_tool_names, phase2_builtin_tool_names, tools_grow,
}
use travel_agent_pro.Tools.History.{should_skip_redundant_update, trimmed, query_of, history_size}
use travel_agent_pro.Tools.Skips.{
  is_success, is_backtrack_result, build_skipped_tool_result, pre_execution_skip_result,
  validate_tool_output,
}
use travel_agent_pro.Tools.Batches.{
  Batch, Next, go_on, ended, cancelled, failed, ToolHooks, shown, proceed, with_metadata, advance,
  is_parallel_read_call, scan, deliver, deliver_all, read_group, skip_rest, after_one, single,
  round, rounds, execute_tool_batch,
}
use travel_agent_pro.Tests.Samples.{plain}

-- Searches count how often they ran; the other tool goes back.
abbrev search : ToolDef ℕ
search = record {
  name = "web_search";
  phases = pos 1 ∷ pos 2 ∷ [];
  required = "query" ∷ [];
  writes = false;
  run = λ arguments w. (ok (str "found"), w);
}

abbrev back : ToolDef ℕ
back = record {
  name = "request_backtrack";
  phases = pos 2 ∷ [];
  required = [];
  writes = true;
  run = λ arguments w. (ok (dict (entry "backtracked" (str "yes") empty)), w);
}

abbrev toolbox : Toolbox ℕ
toolbox = search ∷ back ∷ []

abbrev no_argument : ToolCall → ℕ → Bool
no_argument c w = false

abbrev one_by_one : List ToolCall → ℕ → List (Result ToolResult) × ℕ
one_by_one = in_turn no_argument toolbox

-- Hooks that do nothing.
abbrev quiet : ToolHooks ℕ
quiet = record { after_tool_call = λ c r w. (ok tt, w); after_tool_result = λ c r w. (ok tt, w) }

abbrev call : String → String → ToolCall
call id name = record { id = id; name = name; arguments = entry "query" (str "Kyoto") empty }

abbrev calls : List ToolCall
calls =
    call "1" "web_search"
    ∷ call "2" "web_search"
    ∷ call "3" "request_backtrack"
    ∷ call "4" "web_search"
    ∷ []

abbrev fresh : Batch ℕ
fresh = record {
  world = 0;
  queries = [];
  progress = no_output;
  saw_state_update = false;
  group = 0;
  messages = [];
  chunks = [];
}

abbrev ran : Bool → Next ℕ
ran parallel =
    execute_tool_batch plain none parallel no_argument toolbox one_by_one (λ w. false) quiet calls
      fresh

abbrev statuses : Next ℕ → List Status
statuses (go_on cs s) = []
statuses (ended r s) = map (λ (r : ToolResult). r.status) s.chunks
statuses (cancelled s) = []
statuses (failed x s) = []

-- The same search twice: in parallel the second one is skipped, in sequence it is not.
statuses_parallel : statuses (ran true) ≡ success ∷ skipped ∷ success ∷ skipped ∷ []
unfolding execute_tool_batch rounds round read_group scan single after_one skip_rest deliver shown
    proceed gathered deliver_all with_metadata advance is_parallel_read_call is_write get_tool
    execute execute_batch execute_each split_metadata pre_execution_skip_result
    should_skip_redundant_update trimmed query_of strip lower get contains put pop truthy is_success
    is_backtrack_result build_skipped_tool_result validate_tool_output sort_items insert_item
statuses_parallel = refl

statuses_sequential : statuses (ran false) ≡ success ∷ success ∷ success ∷ skipped ∷ []
unfolding execute_tool_batch rounds round read_group scan single after_one skip_rest deliver shown
    proceed gathered deliver_all with_metadata advance is_parallel_read_call is_write get_tool
    execute execute_batch execute_each split_metadata pre_execution_skip_result
    should_skip_redundant_update trimmed query_of strip lower get contains put pop truthy is_success
    is_backtrack_result build_skipped_tool_result validate_tool_output sort_items insert_item
statuses_sequential = refl

batch-Executed_example :
    Executed
      (execute no_argument toolbox)
      calls
      (execute_batch no_argument toolbox one_by_one calls 0).0
batch-Executed_example =
    batch-Executed no_argument toolbox one_by_one (Gathered-in_turn no_argument toolbox) calls 0

brief_search :
    any
      (λ (t : ToolDef ℕ). str_eq t.name "web_search")
      (get_tools_for_phase (pos 2) (some "brief") toolbox)
    ≡ true
unfolding get_tools_for_phase phase2_tool_names phase2_builtin_tool_names
brief_search = refl

tools_grow_example :
    any
      (λ (t : ToolDef ℕ). str_eq t.name "web_search")
      (get_tools_for_phase (pos 2) (some "candidate") toolbox)
    ≡ true
tools_grow_example =
    tools_grow "brief" "candidate" (inl (refl, refl)) "web_search" toolbox brief_search

history_size_example :
    length (should_skip_redundant_update plain (call "1" "web_search") ("kyoto" ∷ [])).1 ≤ 20
history_size_example = history_size plain (call "1" "web_search") ("kyoto" ∷ []) (omega arith)

abbrev is_back : ToolCall → Bool
is_back = is_write no_argument toolbox

batch-in_order_example : execute_batch no_argument toolbox one_by_one calls 0 ≡ (
    let read = one_by_one (keep (λ x. not (is_back x)) calls) 0 in
    let written = execute_each no_argument toolbox (keep is_back calls) read.1 in
    (
      in_order is_back calls
          (gathered no_argument toolbox (keep (λ x. not (is_back x)) calls) read.0)
          written.0,
      written.1,
    ))
batch-in_order_example =
    batch-in_order no_argument toolbox one_by_one (call "1" "web_search") (call "2" "web_search")
      (call "3" "request_backtrack" ∷ call "4" "web_search" ∷ []) 0
