-- ===== src/Context/Summary.antt =====
-- `_on_before_llm_impl` of backend/api/orchestration/agent/hooks.py, with classify_messages and
-- should_compress of backend/context/manager.py.
use travel_agent_pro.Prelude.{
  Bool, false, not, leb, ltb, List, [], ◌∷◌, ◌++◌, map, keep, any, length, last_n, take, ◌-◌,
  String, str_eq, if◌then◌else◌,
}
use travel_agent_pro.Python.Text.{codes, contains_text}
use travel_agent_pro.Loop.Messages.{Message, system, user}
use travel_agent_pro.Context.Compaction.{Estimates, compact_messages_for_prompt}

abbrev preference_signals : List String
preference_signals =
    "不要" ∷ "不想" ∷ "不坐" ∷ "不住" ∷ "不去" ∷ "不吃" ∷ "必须" ∷ "一定要" ∷ "偏好" ∷ "喜欢" ∷ "讨厌" ∷ "预算" ∷ "上限" ∷ "最多"
    ∷ "至少" ∷ "过敏" ∷ "素食" ∷ "忌口" ∷ []

-- `classify_messages` keeps what the user says about preferences.
unfoldable pub must_keep : Message → Bool
must_keep (user s) = any (λ signal. contains_text (codes signal) (codes s)) preference_signals
must_keep _ = false

abbrev compressible : Message → Bool
compressible m = not (must_keep m)

-- The messages but the last four.
abbrev older : List Message → List Message
older ms = take (length ms - 4) ms

-- What the summary is made of: the older messages if they are more than two, else all.
unfoldable pub summary_source : List Message → List Message
summary_source ms =
    let some_older = keep compressible (older ms) in
    if ltb 2 (length some_older) then some_older else keep compressible ms

-- The messages that are kept, the summary, and the latest four, none of them twice.
abbrev summarized_rest : String → List Message → List Message
summarized_rest summary ms = keep must_keep ms ++ (user summary ∷ keep compressible (last_n 4 ms))

-- A first message of the system stays the first.
unfoldable pub summarized : String → List Message → List Message
summarized summary [] = user summary ∷ []
summarized summary (system s ∷ ms) = system s ∷ summarized_rest summary ms
summarized summary (m ∷ ms) = summarized_rest summary (m ∷ ms)

module _ (without_query : String → String) (e : Estimates)
    (compress_for_transition : List Message → String) where
  unfoldable pub summarize : List Message → List Message
  unfolding summary_source summarized
  summarize ms =
      let summary = compress_for_transition (summary_source ms) in
      if leb (length (summary_source ms)) 2
      then ms
      else if str_eq summary ""
      then ms
      else summarized summary ms

  -- Whether the summary is left out: the prompt fits the budget.
  abbrev pub fits : List Message → Bool
  fits ms = leb (e.prompt_tokens ms) e.prompt_budget

  -- The history that the model is sent, with the notes that waited for it.
  unfoldable pub on_before_llm : List String → List Message → List Message
  unfolding summarize
  on_before_llm notes [] = []
  on_before_llm notes (m ∷ ms) =
      let (compacted, changed) =
        compact_messages_for_prompt without_query e ((m ∷ ms) ++ map user notes) in
      if fits compacted then compacted else summarize compacted
