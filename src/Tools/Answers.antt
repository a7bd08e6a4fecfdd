-- ===== src/Tools/Answers.antt =====
-- What `execute_tool_batch` of backend/agent/execution/tool_batches.py answers to each call.
use travel_agent_pro.Prelude.{
  ◌≡◌, refl, ap, sym, ◌∙◌, ℕ, zero, suc, Bool, true, not, ◌&&◌, Option, none, some, List, [], ◌∷◌,
  ◌++◌, map, length, String, Bool-cases, ◌⊎◌, inl, inr, arith,
}
use travel_agent_pro.Python.Dict.{Fields, put, int}
use travel_agent_pro.Prelude.{pos}
use travel_agent_pro.Python.Exec.{Exception, Result, ok, raise, Exec, Result-cases}
use travel_agent_pro.Python.Builtins.{Builtins}
use travel_agent_pro.Tools.Types.{
  ToolCall, ToolResult, Suggestion, already_moved, call_id, answered_id,
}
use travel_agent_pro.Tools.Engine.{Toolbox, execute, execute_batch}
use travel_agent_pro.Tools.EngineOrder.{Executed, Gathered, execute-answered, batch-Executed}
use travel_agent_pro.Tools.Skips.{
  Guardrail, is_some_result, is_backtrack_result, build_skipped_tool_result,
  pre_execution_skip_result, skip-answered, validate_tool_output, validate_tool_output-answered,
}
use travel_agent_pro.Tools.Batches.{
  Batch, Next, go_on, ended, cancelled, failed, ToolHooks, with_metadata, is_parallel_read_call,
  scan, deliver, deliver_all, shown, noted, proceed, unless_raised, after_group, read_group,
  after_one, single, round, rounds, execute_tool_batch, twice,
}

abbrev pub ids : List ToolResult → List String
ids rs = map answered_id rs

abbrev pub call_ids : List ToolCall → List String
call_ids cs = map call_id cs

with_metadata-answered :
    (f : Fields → Fields) (r : ToolResult) → answered_id (with_metadata f r) ≡ answered_id r
unfolding with_metadata
with_metadata-answered f r = refl

ids-append :
    (xs : List ToolResult) (r : ToolResult) (cs : List ToolCall) (c : ToolCall)
    → answered_id r ≡ c.id
    → ids (xs ++ r ∷ []) ++ call_ids cs ≡ ids xs ++ call_ids (c ∷ cs)
ids-append [] r cs c e = ap (λ (i : String). i ∷ call_ids cs) e
ids-append (x ∷ xs) r cs c e = ap (λ (l : List String). answered_id x ∷ l) (ids-append xs r cs c e)

ids-snoc :
    (xs : List ToolResult) (r : ToolResult) → ids (xs ++ r ∷ []) ≡ ids xs ++ answered_id r ∷ []
ids-snoc [] r = refl
ids-snoc (x ∷ xs) r = ap (λ (l : List String). answered_id x ∷ l) (ids-snoc xs r)

ids-skipped :
    (cs : List ToolCall) (code : String) (hint : Suggestion)
    → ids (map (λ (c : ToolCall). build_skipped_tool_result c.id code hint) cs) ≡ call_ids cs
unfolding build_skipped_tool_result
ids-skipped [] code hint = refl
ids-skipped (c ∷ cs) code hint = ap (λ (l : List String). c.id ∷ l) (ids-skipped cs code hint)

ids-append_all : (xs ys : List ToolResult) → ids (xs ++ ys) ≡ ids xs ++ ids ys
ids-append_all [] ys = refl
ids-append_all (x ∷ xs) ys = ap (λ (l : List String). answered_id x ∷ l) (ids-append_all xs ys)

append_nothing : (xs : List String) → xs ++ [] ≡ xs
append_nothing [] = refl
append_nothing (x ∷ xs) = ap (λ (l : List String). x ∷ l) (append_nothing xs)

-- An exception that a hook raises in some state.
abbrev pub HookRaised : {W : Type 0} → ToolHooks W → Exception → Type 0
HookRaised {W} hooks x =
    (c : ToolCall) × (r : ToolResult) × (w : W) × (((hooks.after_tool_call c r w).0 ≡ raise x)
      ⊎ ((hooks.after_tool_result c r w).0 ≡ raise x))

-- Of the generator at some point: what was answered, with what is left, are the ids `all`, and as
-- long as no backtrack has ended it there is a message for each chunk; it is cancelled only when told so,
-- and where a hook raised, the calls at the front have their messages.
abbrev pub Tally : {W : Type 0} → (W → Bool) → ToolHooks W → List String → Next W → Type 0
Tally is_cancelled tool_hooks all (go_on cs s) =
    (ids s.chunks ++ call_ids cs ≡ all) × (ids s.messages ≡ ids s.chunks)
Tally is_cancelled tool_hooks all (ended none s) =
    (ids s.chunks ≡ all) × (ids s.messages ≡ ids s.chunks)
Tally is_cancelled tool_hooks all (ended (some r) s) = ids s.chunks ≡ all
Tally is_cancelled tool_hooks all (cancelled s) = is_cancelled s.world ≡ true
Tally is_cancelled tool_hooks all (failed x s) =
    HookRaised tool_hooks x × ((rest : List String) × (ids s.messages ++ rest ≡ all))

module _ {W : Type 0} (py : Builtins) (guardrail : Option Guardrail) (parallel : Bool)
    (names_argument : ToolCall → W → Bool) (tools : Toolbox W)
    (gather : List ToolCall → W → List (Result ToolResult) × W) (is_cancelled : W → Bool)
    (tool_hooks : ToolHooks W) where
  abbrev ran : ToolCall → W → ToolResult × W
  ran = execute names_argument tools

  abbrev scanned : List ToolCall → List String → List ToolCall × List ToolCall × List String
  scanned = scan py guardrail parallel names_argument tools gather is_cancelled tool_hooks

  abbrev delivered : ToolCall → ToolResult → Exec (Batch W) (Unit {0})
  delivered = deliver py guardrail parallel names_argument tools gather is_cancelled tool_hooks

  scan-append : (cs : List ToolCall) (q : List String) → (scanned cs q).0 ++ (scanned cs q).1 ≡ cs
  unfolding scan
  scan-append [] q = refl
  scan-append (c ∷ cs) q =
      ground (arith, scan-append cs (pre_execution_skip_result py guardrail c q).1)

  messages_with :
      (all : List String) (c : ToolCall) (cs : List ToolCall) (r : ToolResult) (s : Batch W)
      → answered_id r ≡ c.id
      → Tally is_cancelled tool_hooks all (go_on (c ∷ cs) s)
      → ids (s.messages ++ r ∷ []) ++ call_ids cs ≡ all
  messages_with all c cs r s e h =
      ids-append s.messages r cs c e ∙ ap (λ (l : List String). l ++ call_ids (c ∷ cs)) h.1 ∙ h.0

  -- A message more, and with it a chunk or an exception of a hook.
  shown-Tally :
      (all : List String) (c : ToolCall) (cs : List ToolCall) (r : ToolResult)
      (y : Result (Unit {0})) (w : W) (s : Batch W)
      → answered_id r ≡ c.id
      → ((x : Exception) → y ≡ raise x → HookRaised tool_hooks x)
      → Tally is_cancelled tool_hooks all (go_on (c ∷ cs) s)
      → let (z, t) =
          shown py guardrail parallel names_argument tools gather is_cancelled tool_hooks c r y w (
            noted py guardrail parallel names_argument tools gather is_cancelled tool_hooks c r
              s) in
        Tally is_cancelled tool_hooks all (after_group cs z t)
  unfolding shown
  shown-Tally all c cs r (raise x) w s e raised h =
      (raised x refl, (call_ids cs, messages_with all c cs r s e h))
  shown-Tally all c cs r (ok u) w s e raised h =
      elim (Result-cases (tool_hooks.after_tool_result c r w).0) [
        | inl (v, f) ↦ rw f (
          ids-append s.chunks r cs c e ∙ h.0,
          ids-snoc s.messages r
              ∙ ap (λ (l : List String). l ++ answered_id r ∷ []) h.1
              ∙ sym (ids-snoc s.chunks r),
        )
        | inr (x, f) ↦ rw f ((c, r, w, inr f), (call_ids cs, messages_with all c cs r s e h))
      ]

  deliver-Tally :
      (all : List String) (c : ToolCall) (cs : List ToolCall) (r : ToolResult) (s : Batch W)
      → answered_id r ≡ c.id
      → Tally is_cancelled tool_hooks all (go_on (c ∷ cs) s)
      → Tally is_cancelled tool_hooks all (after_group cs (delivered c r s).0 (delivered c r s).1)
  unfolding deliver
  deliver-Tally all c cs r s e h =
      let (y, w) = tool_hooks.after_tool_call c r s.world in
      shown-Tally all c cs r y w s e (λ x f. (c, r, s.world, inl f)) h

  -- What comes later, for the calls behind a delivered one.
  unless_raised-Tally :
      (all : List String) (cs rest : List ToolCall) (y : Result (Unit {0})) (s : Batch W)
      (later : Result (Unit {0}) × Batch W)
      → Tally is_cancelled tool_hooks all (after_group cs y s)
      → (Tally is_cancelled tool_hooks all (go_on cs s)
          → Tally is_cancelled tool_hooks all (after_group rest later.0 later.1))
      → Tally is_cancelled tool_hooks all
          (after_group rest (unless_raised y s later).0 (unless_raised y s later).1)
  unless_raised-Tally all cs rest (ok u) s later h k = k h
  unless_raised-Tally all cs rest (raise x) s later h k = h

  deliver_all-Tally :
      (all : List String) (cs rest : List ToolCall) (rs : List ToolResult) (s : Batch W)
      → Executed ran cs rs
      → Tally is_cancelled tool_hooks all (go_on (cs ++ rest) s)
      → Tally is_cancelled tool_hooks all (
          after_group rest
            (deliver_all py guardrail parallel names_argument tools gather is_cancelled tool_hooks
              cs rs s).0
            (deliver_all py guardrail parallel names_argument tools gather is_cancelled tool_hooks
              cs rs s).1)
  unfolding deliver_all
  deliver_all-Tally all [] rest [] s x h = h
  deliver_all-Tally all [] rest (r ∷ rs) s x h = absurd x
  deliver_all-Tally all (c ∷ cs) rest [] s x h = absurd x
  deliver_all-Tally all (c ∷ cs) rest (r ∷ rs) s ((w, e), xs) h =
      let marked = with_metadata (put "parallel_group" (int (pos s.group))) r in
      let checked = validate_tool_output py guardrail c marked in
      let (y, t) = delivered c checked s in
      unless_raised-Tally all (cs ++ rest) rest y t
        (deliver_all py guardrail parallel names_argument tools gather is_cancelled tool_hooks cs rs
          t)
        (deliver-Tally all c (cs ++ rest) checked s
          (validate_tool_output-answered py guardrail c marked
            ∙ with_metadata-answered (put "parallel_group" (int (pos s.group))) r
            ∙ ap answered_id e
            ∙ execute-answered names_argument tools c w)
          h)
        (deliver_all-Tally all cs rest rs t xs)

  proceed-Tally :
      (all : List String) (cs : List ToolCall) (r : ToolResult) (y : Result (Unit {0}))
      (s : Batch W)
      → Tally is_cancelled tool_hooks all (after_group cs y s)
      → Tally is_cancelled tool_hooks all (
          proceed py guardrail parallel names_argument tools gather is_cancelled tool_hooks cs r y
            s)
  unfolding proceed
  proceed-Tally all cs r (raise x) s h = h
  proceed-Tally all cs r (ok u) s h = elim (Bool-cases (is_backtrack_result r)) [
    | inl b ↦ rw b (
        ids-append_all s.chunks (
          map (λ (c : ToolCall). build_skipped_tool_result c.id "BACKTRACK_CHANGED" already_moved)
            cs)
        ∙ ap (λ (l : List String). ids s.chunks ++ l)
            (ids-skipped cs "BACKTRACK_CHANGED" already_moved)
        ∙ h.0)
    | inr b ↦ rw b h
  ]

  after_one-Tally :
      (all : List String) (c : ToolCall) (cs : List ToolCall) (r : ToolResult) (s : Batch W)
      → answered_id r ≡ c.id
      → Tally is_cancelled tool_hooks all (go_on (c ∷ cs) s)
      → Tally is_cancelled tool_hooks all (
          after_one py guardrail parallel names_argument tools gather is_cancelled tool_hooks c cs r
            s)
  unfolding after_one
  after_one-Tally all c cs r s e h =
      let r' = with_metadata (λ m. m) r in
      let (y, t) = delivered c r' s in proceed-Tally all cs r' y t (deliver-Tally all c cs r' s e h)

  single-Tally :
      (all : List String) (c : ToolCall) (cs : List ToolCall) (skip : Option ToolResult)
      (s : Batch W)
      → ((r : ToolResult) → skip ≡ some r → answered_id r ≡ c.id)
      → Tally is_cancelled tool_hooks all (go_on (c ∷ cs) s)
      → Tally is_cancelled tool_hooks all (
          single py guardrail parallel names_argument tools gather is_cancelled tool_hooks c cs skip
            s)
  unfolding single
  single-Tally all c cs (some r) s answers h = after_one-Tally all c cs r s (answers r refl) h
  single-Tally all c cs none s answers h = elim (Bool-cases (is_cancelled s.world)) [
    | inl b ↦ rw b b
    | inr b ↦ rw b (
        after_one-Tally all c cs (validate_tool_output py guardrail c (ran c s.world).0)
          (record s { world = (ran c s.world).1 })
          (validate_tool_output-answered py guardrail c (ran c s.world).0
            ∙ execute-answered names_argument tools c s.world)
          h)
  ]

  module _ (gathers : (cs : List ToolCall) (w : W) → Gathered ran cs (gather cs w).0) where
    read_group-Tally :
        (all : List String) (cs : List ToolCall) (q : List String) (s : Batch W)
        → Tally is_cancelled tool_hooks all (go_on cs s)
        → Tally is_cancelled tool_hooks all (
            read_group py guardrail parallel names_argument tools gather is_cancelled tool_hooks cs
              q s)
    unfolding read_group
    read_group-Tally all cs q s h =
        let found = scanned cs q in
        let run = execute_batch names_argument tools gather found.0 s.world in
        deliver_all-Tally all found.0 found.1 run.0
          (record s { world = run.1; queries = found.2; group = suc s.group })
          (batch-Executed names_argument tools gather gathers found.0 s.world)
          (rw (scan-append cs q) h)

    round-Tally :
        (all : List String) (cs : List ToolCall) (s : Batch W)
        → Tally is_cancelled tool_hooks all (go_on cs s)
        → Tally is_cancelled tool_hooks all
            (round py guardrail parallel names_argument tools gather is_cancelled tool_hooks cs s)
    unfolding round
    round-Tally all [] s h = (sym (append_nothing (ids s.chunks)) ∙ h.0, h.1)
    round-Tally all (c ∷ cs) s h =
        let (skip, q) = pre_execution_skip_result py guardrail c s.queries in
        elim (Bool-cases (
          not (is_some_result skip)
          && is_parallel_read_call py guardrail parallel names_argument tools gather is_cancelled
              tool_hooks c)) [
                | inl b ↦ rw b (read_group-Tally all (c ∷ cs) q s h)
                | inr b ↦ rw b (
                    single-Tally all c cs skip (record s { queries = q })
                      (skip-answered py guardrail c s.queries) h)
              ]

    rounds-Tally :
        (all : List String) (f : ℕ) (n : Next W)
        → Tally is_cancelled tool_hooks all n
        → Tally is_cancelled tool_hooks all
            (rounds py guardrail parallel names_argument tools gather is_cancelled tool_hooks f n)
    unfolding rounds
    rounds-Tally all zero n h = h
    rounds-Tally all (suc f) (ended none s) h = h
    rounds-Tally all (suc f) (ended (some r) s) h = h
    rounds-Tally all (suc f) (cancelled s) h = h
    rounds-Tally all (suc f) (failed x s) h = h
    rounds-Tally all (suc f) (go_on cs s) h =
        rounds-Tally all f
          (round py guardrail parallel names_argument tools gather is_cancelled tool_hooks cs s)
          (round-Tally all cs s h)

    pub batch-Tally :
        (calls : List ToolCall) (s : Batch W)
        → s.chunks ≡ []
        → s.messages ≡ []
        → Tally is_cancelled tool_hooks (call_ids calls) (
            execute_tool_batch py guardrail parallel names_argument tools gather is_cancelled
              tool_hooks calls s)
    unfolding execute_tool_batch
    batch-Tally calls s none_yet no_message =
        rounds-Tally (call_ids calls) (suc (twice (length calls))) (go_on calls s)
          (rw none_yet refl, rw none_yet (rw no_message refl))
