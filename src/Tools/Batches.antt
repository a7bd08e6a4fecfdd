-- ===== src/Tools/Batches.antt =====
-- `execute_tool_batch` of backend/agent/execution/tool_batches.py. Traces, keep-alive chunks and the
-- duration in the metadata are left out.
use travel_agent_pro.Prelude.{
  ℕ, zero, suc, pos, Bool, true, false, not, ◌&&◌, ◌||◌, Option, none, some, List, [], ◌∷◌, ◌++◌,
  map, length, String, if◌then◌else◌,
}
use travel_agent_pro.Python.Text.{one_of}
use travel_agent_pro.Python.Dict.{int, Fields, empty, put}
use travel_agent_pro.Python.Exec.{Exception, Result, ok, raise, Exec}
use travel_agent_pro.Python.Builtins.{Builtins}
use travel_agent_pro.Tools.Types.{
  ToolCall, ToolResult, already_moved, IterationProgress, no_output, partial_text,
  partial_tool_call, tools_read_only, tools_with_writes,
}
use travel_agent_pro.Tools.Engine.{Toolbox, execute, is_write, execute_batch}
use travel_agent_pro.Tools.Skips.{
  Guardrail, is_success, is_backtrack_result, build_skipped_tool_result, pre_execution_skip_result,
  validate_tool_output, is_some_result,
}

abbrev pub plan_writer_tool_names : List String
plan_writer_tool_names =
    "update_trip_basics" ∷ "set_trip_brief" ∷ "set_candidate_pool" ∷ "set_shortlist"
    ∷ "set_excluded_candidates" ∷ "set_skeleton_plans" ∷ "select_skeleton" ∷ "set_transport_options"
    ∷ "select_transport" ∷ "set_accommodation_options" ∷ "set_accommodation" ∷ "set_risks"
    ∷ "set_alternatives" ∷ "add_preferences" ∷ "add_constraints" ∷ "save_day_plan"
    ∷ "replace_all_day_plans" ∷ "request_backtrack" ∷ []

-- The local variables of the generator with what it has yielded: `chunks` are the TOOL_RESULT chunks,
-- `messages` the TOOL messages that it appended, `world` the shared objects.
pub record Batch (W : Type 0) : Type 0 where
  pub world : W
  pub queries : List String
  pub progress : IterationProgress
  pub saw_state_update : Bool
  pub group : ℕ
  pub messages : List ToolResult
  pub chunks : List ToolResult

-- The generator goes on with the calls that are left, ends with an outcome, or a cancellation is
-- raised in it. `rebuild` is `rebuild_result`, and `needs_rebuild` says that there is one.
pub data Next (W : Type 0) : Type 0 where
  go_on : List ToolCall → Batch W → Next W
  ended : Option ToolResult → Batch W → Next W
  cancelled : Batch W → Next W
  -- an exception of a hook is raised in it
  failed : Exception → Batch W → Next W

-- The hooks of "after_tool_call" and "after_tool_result".
pub record ToolHooks (W : Type 0) : Type 0 where
  pub after_tool_call : ToolCall → ToolResult → Exec W (Unit {0})
  pub after_tool_result : ToolCall → ToolResult → Exec W (Unit {0})

unfoldable pub with_metadata : (Fields → Fields) → ToolResult → ToolResult
with_metadata f r = record r { metadata = some (f (elim r.metadata [ none ↦ empty | some m ↦ m ])) }

abbrev pub twice : ℕ → ℕ
twice zero = zero
twice (suc n) = suc (suc (twice n))

-- After a call: writes are never forgotten.
unfoldable pub advance : Bool → IterationProgress → IterationProgress
advance false p = tools_with_writes
advance true tools_with_writes = tools_with_writes
advance true no_output = tools_read_only
advance true partial_text = tools_read_only
advance true partial_tool_call = tools_read_only
advance true tools_read_only = tools_read_only

module _ {W : Type 0} where
  -- What comes later, where nothing was raised before.
  abbrev pub unless_raised :
      Result (Unit {0}) → Batch W → Result (Unit {0}) × Batch W → Result (Unit {0}) × Batch W
  unless_raised (raise x) s later = (raise x, s)
  unless_raised (ok u) s later = later

  abbrev pub after_group : List ToolCall → Result (Unit {0}) → Batch W → Next W
  after_group rest (ok u) s = go_on rest s
  after_group rest (raise x) s = failed x s

module _ {W : Type 0} (py : Builtins) (guardrail : Option Guardrail) (parallel : Bool)
    (names_argument : ToolCall → W → Bool) (tools : Toolbox W)
    (gather : List ToolCall → W → List (Result ToolResult) × W) (is_cancelled : W → Bool)
    (tool_hooks : ToolHooks W) where
  unfoldable pub is_parallel_read_call : ToolCall → Bool
  is_parallel_read_call call = parallel && not (is_write names_argument tools call)

  -- The group of reads at the front, the calls behind it, and the history.
  unfoldable pub scan : List ToolCall → List String → List ToolCall × List ToolCall × List String
  scan [] queries = ([], [], queries)
  scan (c ∷ cs) queries =
      let (skip, queries') = pre_execution_skip_result py guardrail c queries in
      let (group, rest, last) = scan cs queries' in
      if is_some_result skip || not (is_parallel_read_call c)
      then ([], c ∷ cs, queries')
      else (c ∷ group, rest, last)

  -- What follows a result: first the progress and the message.
  abbrev pub noted : ToolCall → ToolResult → Batch W → Batch W
  noted c r s = record s {
    progress = advance (is_parallel_read_call c) s.progress;
    saw_state_update = s.saw_state_update || one_of plan_writer_tool_names c.name && is_success r;
    messages = s.messages ++ r ∷ [];
  }

  -- The chunk and the second hook, behind the first one.
  unfoldable pub shown : ToolCall → ToolResult → Result (Unit {0}) → W → Exec (Batch W) (Unit {0})
  shown c r (raise x) w s = (raise x, record s { world = w })
  shown c r (ok u) w s =
      let (y, v) = tool_hooks.after_tool_result c r w in
      (y, record s { world = v; chunks = s.chunks ++ r ∷ [] })

  unfoldable pub deliver : ToolCall → ToolResult → Exec (Batch W) (Unit {0})
  unfolding shown
  deliver c r s = let (y, w) = tool_hooks.after_tool_call c r s.world in shown c r y w (noted c r s)

  -- The results of a group, each marked with the number of the group and checked.
  unfoldable pub deliver_all : List ToolCall → List ToolResult → Exec (Batch W) (Unit {0})
  unfolding deliver
  deliver_all [] rs s = (ok tt, s)
  deliver_all (c ∷ cs) [] s = (ok tt, s)
  deliver_all (c ∷ cs) (r ∷ rs) s =
      let (y, t) =
        deliver c
          (validate_tool_output py guardrail c
            (with_metadata (put "parallel_group" (int (pos s.group))) r))
          s in
      let later = deliver_all cs rs t in unless_raised y t later

  unfoldable pub read_group : List ToolCall → List String → Batch W → Next W
  read_group cs queries s =
      let (group, rest, last) = scan cs queries in
      let (rs, w) = execute_batch names_argument tools gather group s.world in
      let (y, t) =
        deliver_all group rs (record s { world = w; queries = last; group = suc s.group }) in
      after_group rest y t

  -- Behind a backtrack the other calls are reported as skipped.
  unfoldable pub skip_rest : List ToolCall → Batch W → Batch W
  skip_rest cs s = record s {
    chunks =
        s.chunks
        ++ map (λ (c : ToolCall). build_skipped_tool_result c.id "BACKTRACK_CHANGED" already_moved)
            cs;
  }

  -- Behind a delivered result of a single call.
  unfoldable pub proceed : List ToolCall → ToolResult → Result (Unit {0}) → Batch W → Next W
  unfolding skip_rest
  proceed cs r (raise x) s = failed x s
  proceed cs r (ok u) s =
      if is_backtrack_result r then ended (some r) (skip_rest cs s) else go_on cs s

  unfoldable pub after_one : ToolCall → List ToolCall → ToolResult → Batch W → Next W
  unfolding proceed deliver with_metadata
  after_one c cs r s =
      let r' = with_metadata (λ m. m) r in let (y, t) = deliver c r' s in proceed cs r' y t

  -- One call by itself, with the result of the check before it.
  unfoldable pub single : ToolCall → List ToolCall → Option ToolResult → Batch W → Next W
  unfolding after_one
  single c cs (some r) s = after_one c cs r s
  single c cs none s =
      let (r, w) = execute names_argument tools c s.world in
      if is_cancelled s.world
      then cancelled s
      else after_one c cs (validate_tool_output py guardrail c r) (record s { world = w })

  -- One round of the `while`.
  unfoldable pub round : List ToolCall → Batch W → Next W
  round [] s = ended none s
  round (c ∷ cs) s =
      let (skip, queries') = pre_execution_skip_result py guardrail c s.queries in
      if not (is_some_result skip) && is_parallel_read_call c
      then read_group (c ∷ cs) queries' s
      else single c cs skip (record s { queries = queries' })

  -- The `while`, for a number of rounds; `go_on` where they were too few.
  unfoldable pub rounds : ℕ → Next W → Next W
  rounds zero n = n
  rounds (suc f) (ended r s) = ended r s
  rounds (suc f) (cancelled s) = cancelled s
  rounds (suc f) (failed x s) = failed x s
  rounds (suc f) (go_on cs s) = rounds f (round cs s)

  -- Two rounds for each call are enough, and one to see that none is left.
  unfoldable pub execute_tool_batch : List ToolCall → Batch W → Next W
  execute_tool_batch calls s = rounds (suc (twice (length calls))) (go_on calls s)
