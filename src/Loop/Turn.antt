-- ===== src/Loop/Turn.antt =====
-- `run_llm_turn` of backend/agent/execution/llm_turn.py and backend/agent/reflection.py. Traces, status
-- chunks, token counts and the choice of a tool are left out.
use travel_agent_pro.Prelude.{
  Bool, ◌&&◌, Option, none, some, List, [], ◌∷◌, ◌++◌, length, String, pos, eq_ℤ, ltb_ℤ, leb_ℤ,
  if◌then◌else◌,
}
use travel_agent_pro.Python.{is_text}
use travel_agent_pro.Python.Text.{one_of}
use travel_agent_pro.Python.Dict.{Value}
use travel_agent_pro.Python.Exec.{Result, ok, raise, llm_error, and_then, Exec, lift, gets, ◌>>=◌}
use travel_agent_pro.Plan.Model.{TravelPlanState}
use travel_agent_pro.Plan.Days.{total_days}
use travel_agent_pro.Tools.Types.{
  ToolCall, IterationProgress, no_output, partial_text, partial_tool_call,
}
use travel_agent_pro.Loop.Messages.{Message, user, strip_non_initial_system_messages}

-- `_compute_trigger_key`
unfoldable pub trigger_key : TravelPlanState → Value → Result (Option String)
trigger_key plan prev_step =
    if eq_ℤ plan.phase (pos 2) && (is_text prev_step "skeleton" && is_text plan.phase2_step "lock")
    then ok (some "phase2_lock")
    else if eq_ℤ plan.phase (pos 3)
    then (elim plan.dates [
      | none ↦ ok none
      | some d ↦
          (and_then (total_days d) λ n. ok (
            if ltb_ℤ (pos 0) n && leb_ℤ n (pos (length plan.daily_plans))
            then some "phase3_complete"
            else none))
    ])
    else ok none

-- `ReflectionInjector.check_and_inject`: each key is used once.
unfoldable pub check_and_inject :
    TravelPlanState → Value → List String → Result (Option String × List String)
unfolding trigger_key
check_and_inject plan prev_step triggered = and_then (trigger_key plan prev_step) λ key. elim key [
  | none ↦ ok (none, triggered)
  | some k ↦ if one_of triggered k then ok (none, triggered) else ok (some k, k ∷ triggered)
]

-- What the model streams.
pub data LlmChunk : Type 0 where
  text_delta : String → LlmChunk
  tool_call_start : ToolCall → LlmChunk
  other_chunk : LlmChunk

-- The part of `LlmTurnOutcome` that the stream decides.
pub record Streamed : Type 0 where
  pub text_chunks : List String
  pub tool_calls : List ToolCall
  pub progress : IterationProgress

abbrev pub nothing_streamed : Streamed
nothing_streamed = record { text_chunks = []; tool_calls = []; progress = no_output }

abbrev first_text : IterationProgress → IterationProgress
first_text no_output = partial_text
first_text p = p

unfoldable pub stream : LlmChunk → Streamed → Streamed
stream (text_delta s) o = record o {
  text_chunks = o.text_chunks ++ s ∷ [];
  progress = first_text o.progress;
}
stream (tool_call_start c) o = record o {
  tool_calls = o.tool_calls ++ c ∷ [];
  progress = partial_tool_call;
}
stream other_chunk o = o

-- The run may be cancelled while the model streams: it stops at the next chunk.
unfoldable pub stream_all : List (Bool × LlmChunk) → Streamed → Result Streamed
unfolding stream
stream_all [] o = ok o
stream_all ((cancelled, c) ∷ cs) o =
    if cancelled then raise llm_error else stream_all cs (stream c o)

-- What stands between a turn and the model: the hooks of "before_llm_call", which may replace the
-- history, the texts of the reflection, and the call of the model, whose chunks come with whether the
-- run is cancelled by then.
pub record Model (S : Type 0) : Type 0 where
  pub before_llm_call : List Message → S → Result (List Message) × S
  pub reflection_text : String → S → String
  pub chat : List Message → S → Result (List (Bool × LlmChunk)) × S

pub record TurnOutcome : Type 0 where
  pub messages : List Message
  pub streamed : Streamed
  pub triggered : List String
  pub previous_phase2_step : Value

module _ {S : Type 0} (model : Model S) (plan_of : S → TravelPlanState) where
  -- The history that the model is sent, with the reflection behind it.
  unfoldable pub prompt : List Message → Option String → S → List Message
  prompt ms none s = strip_non_initial_system_messages ms
  prompt ms (some key) s =
      strip_non_initial_system_messages (ms ++ user (model.reflection_text key s) ∷ [])

  -- The call of the model with a prompt.
  unfoldable pub ask_model : List Message → List String → Exec S TurnOutcome
  ask_model sent triggered s =
      let (reply, s') = model.chat sent s in
      (
        and_then reply λ chunks. and_then (stream_all chunks nothing_streamed) λ o. ok (record {
          messages = sent;
          streamed = o;
          triggered = triggered;
          previous_phase2_step = (plan_of s).phase2_step;
        }),
        s',
      )

  unfoldable pub run_llm_turn : List Message → Value → List String → Exec S TurnOutcome
  unfolding prompt ask_model
  run_llm_turn messages previous_step triggered = do
    ms ← model.before_llm_call messages
    reflected ← gets (λ s. check_and_inject (plan_of s) previous_step triggered)
    found ← lift reflected
    sent ← gets (prompt ms found.0)
    ask_model sent found.1
