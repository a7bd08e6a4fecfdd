-- ===== src/Loop/Protocol.antt =====
-- What the histories are that `AgentLoop.run` of backend/agent/loop.py sends to the model.
use travel_agent_pro.Prelude.{
  ◌≡◌, refl, ap, sym, ℕ, zero, suc, ◌≤◌, Bool, true, false, Option, none, some, List, [], ◌∷◌, ◌++◌,
  map, length, String, str_eq, All, Bool-cases, inl, inr, arith, if◌then◌else◌,
}
use mathlib.Core.Path.{subst}
use travel_agent_pro.Python.{py_eq}
use travel_agent_pro.Python.Dict.{Value}
use travel_agent_pro.Python.Exec.{
  Result, ok, raise, llm_error, Result-cases, and_then-eq-ok, ok-same,
}
use travel_agent_pro.Python.Builtins.{Builtins}
use travel_agent_pro.Plan.Model.{TravelPlanState}
use travel_agent_pro.Tools.Types.{ToolCall, ToolResult}
use travel_agent_pro.Tools.Engine.{execute}
use travel_agent_pro.Tools.EngineOrder.{Gathered}
use travel_agent_pro.Tools.Batches.{Batch, Next, go_on, ended, cancelled, failed}
use travel_agent_pro.Tools.Fuel.{IsStopped, batch_terminates}
use travel_agent_pro.Tools.Outcome.{Answered, batch_answers}
use travel_agent_pro.Loop.Messages.{Message, user, assistant, tool, extract_original_user_message}
use travel_agent_pro.Loop.Pairing.{
  IsPaired, users-IsPaired, Pending-append, IsPaired-batch, strip-IsPaired, IsUser,
  phase_change-IsPaired, step_change-IsPaired, extract-IsUser,
}
use travel_agent_pro.Loop.Transition.{Request, detect_phase_transition}
use travel_agent_pro.Loop.Repair.{repair_hint}
use travel_agent_pro.Loop.Turn.{
  nothing_streamed, stream_all, check_and_inject, TurnOutcome, prompt, ask_model, run_llm_turn,
}
use travel_agent_pro.Loop.Run.{
  Session, Agent, Outcome, continues, finishes, fails, Parts, batch_of, after_batch, same_phase,
  settle, enter, transit, conclude, act, answer, respond, after_turn, iterate, iterations, run,
  hinted, with_text, content_of, steered,
}

append_one :
    {A : Type 0} (xs : List A) (x : A) (ys : List A) → (xs ++ x ∷ []) ++ ys ≡ xs ++ (x ∷ ys)
append_one [] x ys = refl
append_one (y ∷ xs) x ys = ap (λ (l : List _). y ∷ l) (append_one xs x ys)

module _ {R : Type 0} where
  -- Between two iterations: a paired history, paired ones sent so far, and a bounded memory of searches.
  abbrev pub IsGood : Agent R → Type 0
  IsGood a = IsPaired a.messages × All IsPaired a.sent × (length a.queries ≤ 20)

  -- An exception may leave calls without answers, but they were not sent.
  abbrev pub Kept : Outcome R → Type 0
  Kept (continues a) = IsGood a
  Kept (finishes a) = IsGood a
  Kept (fails x a) = All IsPaired a.sent

Kept-if : {R : Type 0} (b : Bool) (x y : Outcome R) → Kept x → Kept y → Kept (if b then x else y)
Kept-if true x y h k = h
Kept-if false x y h k = k

module _ {R : Type 0} (py : Builtins) (parts : Parts R) (original : Message)
    (asks : IsUser original) where
  settle-request :
      (v : Value) (q : Request) (a : Agent R)
      → All IsPaired a.sent
      → length a.queries ≤ 20
      → IsGood (settle py parts original v (some q) a)
  unfolding settle
  settle-request v q a sent size = (
    phase_change-IsPaired parts.texts a.session original asks q.from_phase q.to_phase,
    sent,
    size,
  )

  settle-none : (v : Value) (a : Agent R) → IsGood a → IsGood (settle py parts original v none a)
  unfolding settle same_phase
  settle-none v a good = elim (Bool-cases (py_eq a.session.plan.phase2_step v)) [
    | inl e ↦ rw e good
    | inr e ↦ rw e (
      step_change-IsPaired parts.texts a.session original asks a.session.plan.phase,
      good.1,
      good.2,
    )
  ]

  settle-IsGood :
      (v : Value) (o : Option Request) (a : Agent R)
      → IsGood a
      → IsGood (settle py parts original v o a)
  settle-IsGood v none a good = settle-none v a good
  settle-IsGood v (some q) a good = settle-request v q a good.1 good.2

  -- A backtrack is always followed by a new history.
  transit_rebuild :
      (before : TravelPlanState) (r : ToolResult) (saw : Bool) (a : Agent R)
      → All IsPaired a.sent
      → length a.queries ≤ 20
      → Kept (transit py parts original before (some r) saw a)
  unfolding transit enter detect_phase_transition
  transit_rebuild before r saw a sent size =
      settle-request before.phase2_step _
        (record a { session = record a.session { plan = a.session.plan } }) sent size

  enter-Kept :
      (v : Value) (a : Agent R) (r : Result (Option Request))
      → IsGood a
      → Kept (enter py parts original v a r)
  unfolding enter
  enter-Kept v a (raise x) good = good.1
  enter-Kept v a (ok o) good = settle-IsGood v o a good

  transit-Kept :
      (before : TravelPlanState) (saw : Bool) (a : Agent R)
      → IsGood a
      → Kept (transit py parts original before none saw a)
  unfolding transit
  transit-Kept before saw a good =
      let (found, plan) =
        detect_phase_transition py parts.hooks none saw before.phase a.session.plan in
      enter-Kept before.phase2_step (record a { session = record a.session { plan = plan } }) found
        good

  module _ (content : Option String) (calls : List ToolCall) (a : Agent R) (good : IsGood a) where
    abbrev asking : Agent R
    asking = record a { messages = a.messages ++ assistant content calls ∷ [] }

    conclude-Kept :
        (n : Next (Session R))
        → Answered parts.is_cancelled parts.tool_hooks calls n
        → IsStopped n
        → Kept (conclude py parts original asking n)
    unfolding conclude
    conclude-Kept (go_on cs b) answered stopped = absurd answered
    conclude-Kept (cancelled b) answered stopped = good.1
    conclude-Kept (failed x b) answered stopped = good.1
    conclude-Kept (ended (some r) b) answered stopped =
        transit_rebuild a.session.plan r b.saw_state_update (after_batch py parts original asking b)
          good.1 stopped
    conclude-Kept (ended none b) answered stopped =
        transit-Kept a.session.plan b.saw_state_update (after_batch py parts original asking b) (
          subst IsPaired
              (sym (append_one a.messages (assistant content calls) (map tool b.messages)))
              (Pending-append [] a.messages (assistant content calls ∷ map tool b.messages) good.0
                (IsPaired-batch content calls b.messages answered.1)),
          good.1,
          stopped,
        )

    -- What `batch_answers` and the end of the rounds give for a batch of the loop.
    module _
        (gathers : (cs : List ToolCall) (w : Session R)
          → Gathered (execute parts.names_argument parts.tools) cs (parts.gather cs w).0) where
      act-Kept : Kept (act py parts original content calls a)
      unfolding act
      act-Kept =
          let start : Batch (Session R) = record {
            world = a.session;
            queries = a.queries;
            progress = a.progress;
            saw_state_update = false;
            group = a.group;
            messages = [];
            chunks = [];
          } in
          conclude-Kept (batch_of py parts original calls asking)
            (batch_answers py parts.guardrail parts.parallel parts.names_argument parts.tools
              parts.gather parts.is_cancelled parts.tool_hooks gathers calls start good.2 refl refl)
            (batch_terminates py parts.guardrail parts.parallel parts.names_argument parts.tools
              parts.gather parts.is_cancelled parts.tool_hooks calls start good.2)

  text-IsGood :
      (text : String) (a : Agent R) → IsGood a → IsGood (with_text py parts original text a)
  text-IsGood text a good = elim (Bool-cases (str_eq text "")) [
    | inl e ↦ rw e good
    | inr e ↦
        rw e
          (Pending-append [] a.messages (assistant (some text) [] ∷ []) good.0 tt, good.1, good.2)
  ]

  hinted-Kept : (a : Agent R) (o : Option String) → IsGood a → Kept (hinted py parts original a o)
  unfolding hinted
  hinted-Kept a none good = good
  hinted-Kept a (some key) good =
      (Pending-append [] a.messages (user (parts.repair_text key) ∷ []) good.0 tt, good.1, good.2)

  answer-Kept : (text : String) (a : Agent R) → IsGood a → Kept (answer py parts original text a)
  unfolding answer
  answer-Kept text a good =
      elim (repair_hint py a.session.plan a.current_phase text a.repair_hints_used)
        as (λ r. Kept (elim r [
          | raise x ↦ fails x a
          | ok o ↦ hinted py parts original (with_text py parts original text a) o
        ])) [
          | raise x ↦ good.1
          | ok o ↦ hinted-Kept (with_text py parts original text a) o (text-IsGood text a good)
        ]

  -- A hook of "before_llm_call" that compacts a history keeps its answers.
  module _
      (gathers : (cs : List ToolCall) (w : Session R)
        → Gathered (execute parts.names_argument parts.tools) cs (parts.gather cs w).0)
      (compacts : (ms ns : List Message) (s : Session R)
        → IsPaired ms
        → (parts.model.before_llm_call ms s).0 ≡ ok ns
        → IsPaired ns) where
    respond-Kept :
        (text : String) (calls : List ToolCall) (a : Agent R)
        → IsGood a
        → Kept (respond py parts original text calls a)
    unfolding respond
    respond-Kept text [] a good = answer-Kept text a good
    respond-Kept text (c ∷ cs) a good = act-Kept (content_of text) (c ∷ cs) a good gathers

    prompt-IsPaired :
        (ms : List Message) (o : Option String) (s : Session R)
        → IsPaired ms
        → IsPaired (prompt parts.model (λ (s : Session R). s.plan) ms o s)
    unfolding prompt
    prompt-IsPaired ms none s h = strip-IsPaired ms h
    prompt-IsPaired ms (some key) s h = strip-IsPaired _ (Pending-append [] ms (user _ ∷ []) h tt)

    ask_model-IsPaired :
        (sent : List Message) (triggered : List String) (s : Session R) (t : TurnOutcome)
        → IsPaired sent
        → (ask_model parts.model (λ (s : Session R). s.plan) sent triggered s).0 ≡ ok t
        → IsPaired t.messages
    unfolding ask_model
    ask_model-IsPaired sent triggered s t h e =
        let (chunks, f, e₁) = and_then-eq-ok (parts.model.chat sent s).0 _ e in
        let (o, g, e₂) = and_then-eq-ok (stream_all chunks nothing_streamed) _ e₁ in
        subst IsPaired (ap (λ (t : TurnOutcome). t.messages) (ok-same e₂)) h

    turn-IsPaired :
        (ms : List Message) (v : Value) (triggered : List String) (s : Session R) (t : TurnOutcome)
        → IsPaired ms
        → (run_llm_turn parts.model (λ (s : Session R). s.plan) ms v triggered s).0 ≡ ok t
        → IsPaired t.messages
    unfolding run_llm_turn
    turn-IsPaired ms v triggered s t h e =
        let (reply, s₁) = parts.model.before_llm_call ms s in
        elim (Result-cases reply) [
          | inr (x, f) ↦ absurd (ground (arith, e, f))
          | inl (ns, f) ↦ elim (Result-cases (check_and_inject s₁.plan v triggered)) [
            | inr (x, g) ↦ absurd (ground (arith, e, f, g))
            | inl (found, g) ↦
                ask_model-IsPaired (prompt parts.model (λ (s : Session R). s.plan) ns found.0 s₁)
                  found.1 s₁ t (prompt-IsPaired ns found.0 s₁ (compacts ms ns s h f))
                  (ground (arith, e, f, g))
          ]
        ]

    after_turn-Kept :
        (a : Agent R) (r : Result TurnOutcome)
        → All IsPaired a.sent
        → length a.queries ≤ 20
        → ((t : TurnOutcome) → r ≡ ok t → IsPaired t.messages)
        → Kept (after_turn py parts original a r)
    unfolding after_turn
    after_turn-Kept a (raise x) sent size turn = sent
    after_turn-Kept a (ok t) sent size turn =
        respond-Kept _ t.streamed.tool_calls _ (turn t refl, (turn t refl, sent), size)

    iterate-Kept : (a : Agent R) → IsGood a → Kept (iterate py parts original a)
    unfolding iterate
    iterate-Kept a good =
        let b = steered py parts original a in
        let turn =
          run_llm_turn parts.model (λ (s : Session R). s.plan) b.messages b.prev_phase2_step
            b.triggered b.session in
        let paired =
          Pending-append [] a.messages _ good.0 (users-IsPaired (parts.steering a.session).0) in
        Kept-if (parts.is_cancelled a.session) (fails llm_error a) _ good.1 (
          after_turn-Kept (record b { session = turn.1 }) turn.0 good.1 good.2
            (λ t e. turn-IsPaired b.messages b.prev_phase2_step b.triggered b.session t paired e))

    iterations-Kept : (n : ℕ) (a : Agent R) → IsGood a → Kept (iterations py parts original n a)
    unfolding iterations
    iterations-Kept zero a good = good
    iterations-Kept (suc n) a good =
        elim (iterate py parts original a)
            as (λ o.
              Kept o
              → Kept (elim o [
                | continues a' ↦ iterations py parts original n a'
                | finishes a' ↦ finishes a'
                | fails x a' ↦ fails x a'
              ])) [
                | continues a' ↦ λ k. iterations-Kept n a' k
                | finishes a' ↦ λ k. k
                | fails x a' ↦ λ k. k
              ]
          (iterate-Kept a good)

-- Where asyncio.gather gives the result of an execution for each call, in their order, and the hooks before
-- a call of the model keep a history in which calls are answered as follows: a run that starts from a history in which
-- each assistant message with calls is followed at once by one TOOL message for each of its calls, in
-- their order, and nowhere else stands a TOOL message, and with at most 20 remembered searches, sends the
-- model such histories only, in every iteration and whatever the tools, hooks and the model answer; the
-- history that it ends with is such a history, too, unless an exception ends it. Steering, repair hints,
-- reflections, backtracks, transitions of the phase and new steps of phase 2 are included.
pub run-IsPaired :
    {R : Type 0}
    → (py : Builtins) (parts : Parts R)
    → ((cs : List ToolCall) (w : Session R)
        → Gathered (execute parts.names_argument parts.tools) cs (parts.gather cs w).0)
    → ((ms ns : List Message) (s : Session R)
        → IsPaired ms
        → (parts.model.before_llm_call ms s).0 ≡ ok ns
        → IsPaired ns)
    → (max_iterations : ℕ) (a : Agent R) → IsGood a
    → Kept (run py parts max_iterations a)
unfolding run
run-IsPaired py parts gathers compacts n a good =
    iterations-Kept py parts (extract_original_user_message a.messages) (extract-IsUser a.messages)
      gathers compacts n (record a { current_phase = a.session.plan.phase; repair_hints_used = [] })
      good
