-- ===== src/Tests/Loop.antt =====
-- A sample run of backend/agent/loop.py: the model searches once, then answers.
use travel_agent_pro.Prelude.{
  ◌≡◌, refl, ℕ, Bool, true, false, Option, none, List, [], ◌∷◌, pos, arith, zero, suc, length,
}
use mathlib.Core.Path.{subst}
use travel_agent_pro.Python.Dict.{null, str, entry, empty, get, contains, put, pop}
use travel_agent_pro.Python.Exec.{ok, ok-same}
use travel_agent_pro.Tools.Types.{ToolCall, ToolDef, no_output}
use travel_agent_pro.Tools.Engine.{
  Toolbox, execute_each, execute, execute_batch, get_tool, is_write, split_metadata, sort_items,
  insert_item,
}
use travel_agent_pro.Tools.History.{should_skip_redundant_update, trimmed, query_of}
use travel_agent_pro.Tools.Skips.{
  is_success, is_backtrack_result, build_skipped_tool_result, pre_execution_skip_result,
  validate_tool_output,
}
use travel_agent_pro.Tools.Batches.{
  with_metadata, advance, is_parallel_read_call, scan, deliver, shown, proceed, deliver_all,
  read_group, skip_rest, after_one, single, round, rounds, execute_tool_batch,
}
use travel_agent_pro.Python.Text.{strip, lower}
use travel_agent_pro.Python.{truthy, py_eq}
use travel_agent_pro.Tools.EngineOrder.{in_turn, Gathered-in_turn}
use travel_agent_pro.Loop.Messages.{
  system, user, Texts, strip_non_initial_system_messages, extract_original_user_message, last_user,
}
use travel_agent_pro.Loop.Pairing.{IsPaired}
use travel_agent_pro.Loop.Transition.{Tells, detect_phase_transition, detect_exact, ask_router}
use travel_agent_pro.Loop.Turn.{
  Model, prompt, ask_model, check_and_inject, trigger_key, stream, stream_all, run_llm_turn,
  LlmChunk, text_delta, tool_call_start,
}
use travel_agent_pro.Loop.Run.{
  Session, Agent, Outcome, continues, finishes, fails, Parts, run, iterations, iterate, after_turn,
  respond, act, conclude, transit, enter, settle, same_phase, answer, hinted,
}
use travel_agent_pro.Loop.Repair.{repair_hint, phase2_state_hint, phase3_daily_hint}
use travel_agent_pro.Loop.Protocol.{Kept, run-IsPaired}
use travel_agent_pro.Tests.Samples.{plain, trip}
use travel_agent_pro.Tests.Plans.{trip-IsReadable, trip_rules}

-- The number of times that the model was asked.
abbrev search : ToolDef (Session ℕ)
search = record {
  name = "web_search";
  phases = pos 1 ∷ pos 2 ∷ [];
  required = "query" ∷ [];
  writes = false;
  run = λ arguments w. (ok (str "found"), w);
}

abbrev toolbox : Toolbox (Session ℕ)
toolbox = search ∷ []

abbrev no_argument : ToolCall → Session ℕ → Bool
no_argument c w = false

abbrev call : ToolCall
call = record { id = "1"; name = "web_search"; arguments = entry "query" (str "Kyoto") empty }

abbrev reply : ℕ → List (Bool × LlmChunk)
reply zero = (false, text_delta "Let me look.") ∷ (false, tool_call_start call) ∷ []
reply (suc n) = (false, text_delta "Kyoto it is.") ∷ []

abbrev model : Model (Session ℕ)
model = record {
  before_llm_call = λ ms s. (ok ms, s);
  reflection_text = λ key s. key;
  chat = λ ms s. (ok (reply s.rest), record s { rest = suc s.rest });
}

abbrev texts : Texts (Session ℕ)
texts = record {
  static_prompt = λ s. "You plan trips.";
  backtrack_notice = λ s from_phase to_phase. "back";
  handoff_note = λ s from_phase to_phase. "on";
  turn_context = λ s phase. "context";
}

abbrev parts : Parts ℕ
parts = record {
  guardrail = none;
  parallel = false;
  names_argument = no_argument;
  tools = toolbox;
  gather = in_turn no_argument toolbox;
  is_cancelled = λ s. false;
  tool_hooks = record {
    after_tool_call = λ c r s. (ok tt, s);
    after_tool_result = λ c r s. (ok tt, s);
  };
  hooks = none;
  texts = texts;
  model = model;
  steering = λ s. ([], s);
  repair_text = λ key. key;
}

abbrev agent : Agent ℕ
agent = record {
  session = record { plan = trip; rest = 0 };
  messages = system "You plan trips." ∷ user "Kyoto?" ∷ [];
  current_phase = pos 1;
  progress = no_output;
  queries = [];
  group = 0;
  repair_hints_used = [];
  prev_phase2_step = null;
  triggered = [];
  sent = [];
}

abbrev ended_after : Outcome ℕ → ℕ
ended_after (continues a) = 0
ended_after (finishes a) = length a.sent
ended_after (fails x a) = 0

-- The model is asked twice, and the second answer ends the run.
asked_twice : ended_after (run plain parts 3 agent) ≡ 2
unfolding run iterations extract_original_user_message last_user iterate after_turn respond act
    conclude transit enter settle same_phase answer hinted run_llm_turn prompt ask_model
    check_and_inject trigger_key stream stream_all strip_non_initial_system_messages
    detect_phase_transition ask_router execute_tool_batch rounds round read_group scan single
    after_one skip_rest deliver shown proceed deliver_all with_metadata advance
    is_parallel_read_call is_write get_tool execute execute_batch execute_each split_metadata
    pre_execution_skip_result should_skip_redundant_update trimmed query_of strip lower get contains
    put pop truthy is_success is_backtrack_result build_skipped_tool_result validate_tool_output
    sort_items insert_item repair_hint phase2_state_hint phase3_daily_hint py_eq
asked_twice = refl

run-IsPaired_example : Kept (run plain parts 3 agent)
run-IsPaired_example =
    run-IsPaired plain parts (Gathered-in_turn no_argument toolbox)
      (λ ms ns s h e. subst IsPaired (ok-same e) h) 3 agent (tt, tt, omega arith)

detect_exact_example :
    (o : Option _) × ((detect_phase_transition plain none none true (pos 1) trip).0 ≡ ok o)
    × Tells (pos 1) (detect_phase_transition plain none none true (pos 1) trip).1 o
detect_exact_example = detect_exact plain trip trip-IsReadable trip_rules true (pos 1)
