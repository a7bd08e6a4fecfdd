-- ===== src/Context/Compaction.antt =====
-- backend/agent/compaction.py: shorter results of searches for a prompt.
use travel_agent_pro.Prelude.{
  ℕ, suc, ◌-◌, Bool, true, false, not, ◌&&◌, ◌||◌, leb, ltb, Option, none, some, List, [], ◌∷◌, map,
  length, take, String, str_eq, pos, if◌then◌else◌,
}
use travel_agent_pro.Python.{truthy, py_eq, is_text}
use travel_agent_pro.Python.Text.{text_length, text_append, text_take, rstrip, one_of}
use travel_agent_pro.Python.Dict.{
  Value, int, str, list, dict, Fields, entry, empty, get, get_or, put, of_values, to_values,
}
use travel_agent_pro.Python.Builtins.{get_null}
use travel_agent_pro.Tools.Types.{ToolCall, ToolResult, Status, success, error, skipped}
use travel_agent_pro.Loop.Messages.{Message, assistant, tool}

pub data Mode : Type 0 where
  moderate aggressive : Mode

abbrev by_mode : Mode → ℕ → ℕ → ℕ
by_mode moderate m a = m
by_mode aggressive m a = a

-- `_truncate_text`
unfoldable pub truncate_text : ℕ → Value → Value
truncate_text limit (str s) =
    if leb (text_length s) limit then str s else str (text_append (rstrip (text_take limit s)) "…")
truncate_text limit v = v

-- A list under a key keeps its first items, each of them shortened, and says how many are left out.
unfoldable pub shorten_list : String → String → (Value → Value) → ℕ → Fields → Fields
shorten_list key count_key f limit d = elim (get_null key d) [
  | list vs ↦
      let items = of_values vs in
      let kept = put key (list (to_values (map f (take limit items)))) d in
      if ltb limit (length items)
      then put count_key (int (pos (length items - limit))) kept
      else kept
  | _ ↦ d
]

abbrev text_at : String → Fields → Value
text_at k d = get_or k (str "") d

-- A result of a web search.
unfoldable pub compact_item : ℕ → Value → Value
compact_item limit (dict d) = dict (
    entry "title" (text_at "title" d) (
      entry "url" (text_at "url" d) (
        entry "content" (truncate_text limit (text_at "content" d))
          (entry "score" (get_null "score" d) empty))))
compact_item limit v = v

unfoldable pub shorten_answer : ℕ → Fields → Fields
shorten_answer limit d = elim (get "answer" d) [
  | none ↦ d
  | some v ↦ put "answer" (truncate_text limit v) d
]

unfoldable pub compact_web_search_data : Mode → Fields → Fields
unfolding shorten_answer
compact_web_search_data mode d =
    shorten_list "results" "results_omitted_count" (compact_item (by_mode mode 300 200))
      (by_mode mode 8 5) (shorten_answer (by_mode mode 600 400) d)

-- The operation that a tool stands for.
abbrev operation_of : String → Option String
operation_of name =
    if str_eq name "xiaohongshu_search_notes"
    then some "search_notes"
    else if str_eq name "xiaohongshu_read_note"
    then some "read_note"
    else if str_eq name "xiaohongshu_get_comments"
    then some "get_comments"
    else none

-- `urlunsplit` of the parts of an address without its query and fragment.
module _ (without_query : String → String) where
  strip_url_query : Value → Value
  strip_url_query (str s) = if str_eq s "" then str s else str (without_query s)
  strip_url_query v = v

  unfoldable pub compact_xhs_search_item : Value → Value
  unfolding strip_url_query
  compact_xhs_search_item (dict d) = dict (
      entry "note_id" (text_at "note_id" d) (
        entry "title" (text_at "title" d) (
          entry "liked_count" (text_at "liked_count" d) (
            entry "note_type" (text_at "note_type" d)
              (entry "url" (strip_url_query (text_at "url" d)) empty)))))
  compact_xhs_search_item v = v

  unfoldable pub compact_xhs_comment : ℕ → Value → Value
  compact_xhs_comment limit (dict d) = dict (
      entry "nickname" (text_at "nickname" d) (
        entry "content" (truncate_text limit (text_at "content" d))
          (entry "like_count" (text_at "like_count" d) empty)))
  compact_xhs_comment limit v = v

  unfoldable pub compact_note : ℕ → Fields → Fields
  compact_note limit d = elim (get_null "note" d) [
    | dict n ↦
        put "note"
          (dict (
            entry "note_id" (text_at "note_id" n) (
              entry "title" (text_at "title" n) (
                entry "desc" (truncate_text limit (text_at "desc" n)) (
                  entry "liked_count" (text_at "liked_count" n) (
                    entry "collected_count" (text_at "collected_count" n) (
                      entry "comment_count" (text_at "comment_count" n) (
                        entry "tags" (get_or "tags" (list (to_values [])) n) (
                          entry "note_type" (text_at "note_type" n)
                            (entry "url" (text_at "url" n) empty))))))))))
          d
    | _ ↦ d
  ]

  unfoldable pub compact_operation : Mode → Value → Fields → Fields
  unfolding compact_note
  compact_operation mode operation d =
      if is_text operation "search_notes"
      then shorten_list "items" "items_omitted_count" compact_xhs_search_item (by_mode mode 12 8) d
      else if is_text operation "read_note"
      then compact_note (by_mode mode 400 300) d
      else if is_text operation "get_comments"
      then shorten_list "comments" "comments_omitted_count"
          (compact_xhs_comment (by_mode mode 260 200)) (by_mode mode 12 8) d
      else d

  unfoldable pub compact_xiaohongshu_data : Mode → String → Fields → Fields
  unfolding compact_operation
  compact_xiaohongshu_data mode name d =
      let given = get_null "operation" d in
      let operation =
        if truthy given
        then given
        else (elim (operation_of name) [ none ↦ given | some o ↦ str o ]) in
      compact_operation mode operation d

  abbrev xiaohongshu_tools : List String
  xiaohongshu_tools =
      "xiaohongshu_search" ∷ "xiaohongshu_search_notes" ∷ "xiaohongshu_read_note"
      ∷ "xiaohongshu_get_comments" ∷ []

  -- The shorter data for a tool of this name, if it is one with long results.
  unfoldable pub compact_data : Mode → String → Fields → Option Fields
  compact_data mode name d =
      if str_eq name "web_search"
      then some (compact_web_search_data mode d)
      else if one_of xiaohongshu_tools name
      then some (compact_xiaohongshu_data mode name d)
      else none

  abbrev differing : Fields → Option Fields → Option Fields
  differing d none = none
  differing d (some c) = if py_eq (dict c) (dict d) then none else some c

  abbrev of_success : Status → Option Fields → Option Fields
  of_success success o = o
  of_success error o = none
  of_success skipped o = none

  abbrev of_dict : Mode → String → Value → Option Fields
  of_dict mode name (dict d) = differing d (compact_data mode name d)
  of_dict mode name _ = none

  -- The data that `compact_tool_result_for_prompt` puts in a new result; none where it gives the result back.
  unfoldable pub shorter : Mode → Option String → ToolResult → Option Fields
  unfolding compact_data
  shorter mode none r = none
  shorter mode (some name) r = of_success r.status (of_dict mode name r.content)

  abbrev with_data : ToolResult → Option Fields → ToolResult
  with_data r none = r
  with_data r (some d) = record r { content = dict d }

  unfoldable pub compact_tool_result_for_prompt : Mode → Option String → ToolResult → ToolResult
  compact_tool_result_for_prompt mode name r = with_data r (shorter mode name r)

  -- The names of the calls so far, by their ids: a later call replaces an earlier one.
  unfoldable pub pending_name : String → List (String × String) → Option String
  pending_name id [] = none
  pending_name id ((i, n) ∷ pending) = if str_eq i id then some n else pending_name id pending

  unfoldable pub pending_after : List ToolCall → List (String × String) → List (String × String)
  pending_after [] pending = pending
  pending_after (c ∷ cs) pending = pending_after cs ((c.id, c.name) ∷ pending)

  -- The messages with shorter results, and how many results became shorter.
  unfoldable pub compact_each : Mode → List (String × String) → List Message → List Message × ℕ
  compact_each mode pending [] = ([], 0)
  compact_each mode pending (tool r ∷ ms) =
      let name = pending_name r.tool_call_id pending in
      let (ns, n) = compact_each mode pending ms in
      (
        tool (compact_tool_result_for_prompt mode name r) ∷ ns,
        (elim (shorter mode name r) [ none ↦ n | some d ↦ suc n ]),
      )
  compact_each mode pending (assistant s cs ∷ ms) =
      let (ns, n) = compact_each mode (pending_after cs pending) ms in (assistant s cs ∷ ns, n)
  compact_each mode pending (m ∷ ms) = let (ns, n) = compact_each mode pending ms in (m ∷ ns, n)

-- What the code reads off a prompt: estimates of tokens, and their comparisons with shares of the budget.
pub record Estimates : Type 0 where
  pub prompt_tokens : List Message → ℕ
  pub message_tokens : Message → ℕ
  pub prompt_budget : ℕ
  -- `estimated / prompt_budget`, or 0.0 without a budget, below 0.6; and at least 0.85
  pub is_light : ℕ → Bool
  pub is_heavy : ℕ → Bool
  -- the sizes from which a single result is too long
  pub oversized_tool : ℕ
  pub aggressive_tool : ℕ

abbrev greater : ℕ → ℕ → ℕ
greater m n = if ltb m n then n else m

unfoldable pub largest_tool : Estimates → List Message → ℕ
largest_tool e [] = 0
largest_tool e (tool r ∷ ms) = greater (e.message_tokens (tool r)) (largest_tool e ms)
largest_tool e (_ ∷ ms) = largest_tool e ms

unfoldable pub has_tools : List Message → Bool
has_tools [] = false
has_tools (tool r ∷ ms) = true
has_tools (_ ∷ ms) = has_tools ms

-- The mode of compaction, if one is needed.
unfoldable pub mode_for : Estimates → List Message → Option Mode
unfolding largest_tool has_tools
mode_for e ms =
    let largest = largest_tool e ms in
    let before = e.prompt_tokens ms in
    let oversized = has_tools ms && (ltb 0 e.prompt_budget && leb e.oversized_tool largest) in
    if e.is_light before && not oversized
    then none
    else if e.is_heavy before || leb e.aggressive_tool largest
    then some aggressive
    else some moderate

unfoldable pub compact_in : (String → String) → Option Mode → List Message → List Message × ℕ
compact_in without_query none ms = (ms, 0)
compact_in without_query (some mode) ms = compact_each without_query mode [] ms

-- The messages for the prompt, and how many of them have changed.
unfoldable pub compact_messages_for_prompt :
    (String → String) → Estimates → List Message → List Message × ℕ
unfolding compact_in
compact_messages_for_prompt without_query e ms = compact_in without_query (mode_for e ms) ms
