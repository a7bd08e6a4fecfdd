-- ===== src/Loop/Run.antt =====
-- `AgentLoop.run` of backend/agent/loop.py, with a plan, a router and no phase 3 in parallel. What it
-- yields to its caller is left out.
use travel_agent_pro.Prelude.{
  ℕ, zero, suc, Bool, false, Option, none, some, List, [], ◌∷◌, ◌++◌, map, String, str_eq, ℤ,
  if◌then◌else◌,
}
use travel_agent_pro.Python.{py_eq}
use travel_agent_pro.Python.Text.{text_append}
use travel_agent_pro.Python.Dict.{Value}
use travel_agent_pro.Python.Exec.{Exception, Result, ok, raise, llm_error, assertion_error}
use travel_agent_pro.Python.Builtins.{Builtins}
use travel_agent_pro.Plan.Model.{TravelPlanState}
use travel_agent_pro.Phase.Hooks.{HookManager}
use travel_agent_pro.Phase.Router.{PhaseChange}
use travel_agent_pro.Tools.Types.{ToolCall, ToolResult, IterationProgress, no_output}
use travel_agent_pro.Tools.Engine.{Toolbox}
use travel_agent_pro.Tools.Skips.{Guardrail}
use travel_agent_pro.Tools.Batches.{
  Batch, Next, go_on, ended, cancelled, failed, ToolHooks, execute_tool_batch,
}
use travel_agent_pro.Loop.Messages.{
  Message, user, assistant, tool, Texts, rebuild_for_phase_change, rebuild_for_step_change,
  extract_original_user_message,
}
use travel_agent_pro.Loop.Transition.{Request, detect_phase_transition}
use travel_agent_pro.Loop.Repair.{repair_hint}
use travel_agent_pro.Loop.Turn.{Model, TurnOutcome, run_llm_turn}

-- The shared objects: the plan, and the rest that tools, hooks and the model may change.
pub record Session (R : Type 0) : Type 0 where
  pub plan : TravelPlanState
  pub rest : R

-- The fields of the loop and the variables of `run`; `sent` are the histories that the model was asked
-- with, the latest first.
pub record Agent (R : Type 0) : Type 0 where
  pub session : Session R
  pub messages : List Message
  pub current_phase : ℤ
  pub progress : IterationProgress
  pub queries : List String
  pub group : ℕ
  pub repair_hints_used : List String
  pub prev_phase2_step : Value
  pub triggered : List String
  pub sent : List (List Message)

-- The next iteration, the end of the run, or an exception.
pub data Outcome (R : Type 0) : Type 0 where
  continues : Agent R → Outcome R
  finishes : Agent R → Outcome R
  fails : Exception → Agent R → Outcome R

-- `"".join(parts)`
abbrev pub joined : List String → String
joined [] = ""
joined (p ∷ ps) = text_append p (joined ps)

abbrev pub content_of : String → Option String
content_of s = if str_eq s "" then none else some s

-- What the loop is made of.
pub record Parts (R : Type 0) : Type 0 where
  pub guardrail : Option Guardrail
  pub parallel : Bool
  pub names_argument : ToolCall → Session R → Bool
  pub tools : Toolbox (Session R)
  pub gather : List ToolCall → Session R → List (Result ToolResult) × Session R
  pub is_cancelled : Session R → Bool
  pub tool_hooks : ToolHooks (Session R)
  pub hooks : Option (HookManager TravelPlanState PhaseChange)
  pub texts : Texts (Session R)
  pub model : Model (Session R)
  -- the texts of steering that wait in the queue, which is emptied
  pub steering : Session R → List String × Session R
  -- the text of a hint
  pub repair_text : String → String

module _ {R : Type 0} (py : Builtins) (parts : Parts R) (original : Message) where
  abbrev pub batch_of : List ToolCall → Agent R → Next (Session R)
  batch_of calls a =
      execute_tool_batch py parts.guardrail parts.parallel parts.names_argument parts.tools
        parts.gather parts.is_cancelled parts.tool_hooks calls
        (record {
          world = a.session;
          queries = a.queries;
          progress = a.progress;
          saw_state_update = false;
          group = a.group;
          messages = [];
          chunks = [];
        })

  -- The loop with what a batch has changed.
  abbrev pub after_batch : Agent R → Batch (Session R) → Agent R
  after_batch a b = record a {
    session = b.world;
    messages = a.messages ++ map tool b.messages;
    progress = b.progress;
    queries = b.queries;
    group = b.group;
  }

  -- Without a request: a new step of phase 2 starts a new history, too.
  unfoldable pub same_phase : Value → Agent R → Agent R
  same_phase step_before a = if py_eq a.session.plan.phase2_step step_before then a else record a {
    messages = rebuild_for_step_change parts.texts a.session a.session.plan.phase original;
  }

  unfoldable pub settle : Value → Option Request → Agent R → Agent R
  unfolding same_phase
  settle step_before none a = same_phase step_before a
  settle step_before (some q) a = record a {
    messages = rebuild_for_phase_change parts.texts a.session q.from_phase q.to_phase original;
    current_phase = q.to_phase;
  }

  unfoldable pub enter : Value → Agent R → Result (Option Request) → Outcome R
  enter step_before a (raise x) = fails x a
  enter step_before a (ok o) = continues (settle step_before o a)

  -- Behind a batch, one transition at most.
  unfoldable pub transit : TravelPlanState → Option ToolResult → Bool → Agent R → Outcome R
  unfolding enter
  transit before rebuild saw_state_update a =
      let (found, plan) =
        detect_phase_transition py parts.hooks rebuild saw_state_update before.phase
          a.session.plan in
      enter before.phase2_step (record a { session = record a.session { plan = plan } }) found

  unfoldable pub conclude : Agent R → Next (Session R) → Outcome R
  conclude a (go_on cs b) = fails assertion_error (after_batch a b)
  conclude a (cancelled b) = fails llm_error (after_batch a b)
  conclude a (failed x b) = fails x (after_batch a b)
  conclude a (ended rebuild b) = transit a.session.plan rebuild b.saw_state_update (after_batch a b)

  -- The calls of a turn.
  unfoldable pub act : Option String → List ToolCall → Agent R → Outcome R
  unfolding conclude
  act content calls a =
      conclude (record a { messages = a.messages ++ assistant content calls ∷ [] })
        (batch_of calls (record a { messages = a.messages ++ assistant content calls ∷ [] }))

  abbrev pub with_text : String → Agent R → Agent R
  with_text text a =
      if str_eq text ""
      then a
      else record a { messages = a.messages ++ assistant (some text) [] ∷ [] }

  unfoldable pub hinted : Agent R → Option String → Outcome R
  hinted a none = finishes a
  hinted a (some key) = continues (record a {
    messages = a.messages ++ user (parts.repair_text key) ∷ [];
    repair_hints_used = key ∷ a.repair_hints_used;
  })

  -- A final text ends the run but for a hint to repair the plan.
  unfoldable pub answer : String → Agent R → Outcome R
  unfolding hinted
  answer text a = elim (repair_hint py a.session.plan a.current_phase text a.repair_hints_used) [
    | raise x ↦ fails x a
    | ok o ↦ hinted (with_text text a) o
  ]

  unfoldable pub respond : String → List ToolCall → Agent R → Outcome R
  unfolding answer act
  respond text [] a = answer text a
  respond text (c ∷ cs) a = act (content_of text) (c ∷ cs) a

  -- What a turn leaves.
  unfoldable pub after_turn : Agent R → Result TurnOutcome → Outcome R
  unfolding respond
  after_turn a (raise x) = fails x a
  after_turn a (ok t) = respond (joined t.streamed.text_chunks) t.streamed.tool_calls (record a {
    messages = t.messages;
    progress = t.streamed.progress;
    prev_phase2_step = t.previous_phase2_step;
    triggered = t.triggered;
    sent = t.messages ∷ a.sent;
  })

  abbrev pub steered : Agent R → Agent R
  steered a =
      let (notes, s) = parts.steering a.session in
      record a { session = s; messages = a.messages ++ map user notes; progress = no_output }

  unfoldable pub iterate : Agent R → Outcome R
  unfolding after_turn
  iterate a =
      if parts.is_cancelled a.session
      then fails llm_error a
      else (let b = steered a in
          let (result, s) =
            run_llm_turn parts.model (λ (s : Session R). s.plan) b.messages b.prev_phase2_step
              b.triggered b.session in
          after_turn (record b { session = s }) result)

  -- At most `n` iterations; then the safety limit ends the run.
  unfoldable pub iterations : ℕ → Agent R → Outcome R
  iterations zero a = finishes a
  iterations (suc n) a = elim (iterate a) [
    | continues a' ↦ iterations n a'
    | finishes a' ↦ finishes a'
    | fails x a' ↦ fails x a'
  ]

-- A run with the fields of the loop: the message that it is about and the hints used are its own.
unfoldable pub run : {R : Type 0} → Builtins → Parts R → ℕ → Agent R → Outcome R
run py parts max_iterations a =
    iterations py parts (extract_original_user_message a.messages) max_iterations
      (record a { current_phase = a.session.plan.phase; repair_hints_used = [] })
