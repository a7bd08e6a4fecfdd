-- ===== src/Tools/History.antt =====
-- `SearchHistoryTracker` of backend/agent/execution/tool_invocation.py with its default size.
use travel_agent_pro.Prelude.{
  ◌≡◌, ℕ, zero, suc, ◌+◌, ◌-◌, ◌≤◌, ltb, leb, Bool, true, false, not, List, [], ◌∷◌, ◌++◌, String,
  str_eq, eq_refl, length, drop, last_n, arith, length-append, length-drop, if◌then◌else◌,
}
use travel_agent_pro.Python.Text.{strip, lower}
use travel_agent_pro.Python.Dict.{str, get_or}
use travel_agent_pro.Python.Builtins.{Builtins}
use travel_agent_pro.Tools.Types.{ToolCall}
use travel_agent_pro.Python.Text.{one_of}

abbrev pub max_size : ℕ
max_size = 20

abbrev pub search_tools : List String
search_tools =
    "web_search" ∷ "xiaohongshu_search" ∷ "xiaohongshu_search_notes" ∷ "quick_travel_search" ∷ []

abbrev pub occurrences : String → List String → ℕ
occurrences q [] = 0
occurrences q (x ∷ xs) = (if str_eq x q then 1 else 0) + occurrences q xs

-- `del queries[:-max_size]` where the list is longer
unfoldable pub trimmed : List String → List String
trimmed queries = if ltb max_size (length queries) then last_n max_size queries else queries

-- What a search asks for, "" where that is no text.
unfoldable pub query_of : ToolCall → String
query_of call =
    let key : String = if str_eq call.name "xiaohongshu_search_notes" then "keyword" else "query" in
    elim (get_or key (str "") call.arguments) [ str s ↦ s | _ ↦ "" ]

-- A search that was seen twice before is to be skipped; every search is remembered.
unfoldable pub should_skip_redundant_update : Builtins → ToolCall → List String → Bool × List String
should_skip_redundant_update py call queries =
    if not (one_of search_tools call.name)
    then (false, queries)
    else if str_eq (strip (query_of call)) ""
    then (false, queries)
    else (
      leb 2 (occurrences (lower py.lowered (strip (query_of call))) queries),
      trimmed (queries ++ lower py.lowered (strip (query_of call)) ∷ []),
    )

length-trimmed : (xs : List String) → length (trimmed xs) ≤ length xs
unfolding trimmed
length-trimmed xs = ground (arith, length-drop (length xs - 20) xs)

-- If the search history has at most 20 queries, it still has at most 20 after a call was looked at,
-- whether the call searches or not.
pub history_size :
    (py : Builtins) (call : ToolCall) (queries : List String)
    → length queries ≤ 20
    → length (should_skip_redundant_update py call queries).1 ≤ 20
unfolding should_skip_redundant_update trimmed
history_size py call queries h =
    let q = lower py.lowered (strip (query_of call)) in
    ground (
      arith,
      length-append queries (q ∷ []),
      length-drop (length (queries ++ q ∷ []) - 20) (queries ++ q ∷ []),
    )

pub occurrences-append :
    (q : String) (xs ys : List String)
    → occurrences q (xs ++ ys) ≡ occurrences q xs + occurrences q ys
occurrences-append q [] ys = omega arith
occurrences-append q (x ∷ xs) ys = ground (arith, occurrences-append q xs ys)

occurrences-drop :
    (q : String) (n : ℕ) (xs : List String) → occurrences q xs ≤ occurrences q (drop n xs) + n
occurrences-drop q zero xs = omega arith
occurrences-drop q (suc n) [] = omega arith
occurrences-drop q (suc n) (x ∷ xs) = ground (arith, occurrences-drop q n xs)

-- A search that is skipped once is skipped when it is asked for again at once.
pub skip_again :
    (py : Builtins) (call : ToolCall) (queries : List String)
    → length queries ≤ 20
    → (should_skip_redundant_update py call queries).0 ≡ true
    → (should_skip_redundant_update py call (should_skip_redundant_update py call queries).1).0
      ≡ true
unfolding should_skip_redundant_update trimmed
skip_again py call queries h e =
    let q = lower py.lowered (strip (query_of call)) in
    ground (
      arith,
      length-append queries (q ∷ []),
      occurrences-append q queries (q ∷ []),
      eq_refl q,
      occurrences-drop q (length (queries ++ q ∷ []) - 20) (queries ++ q ∷ []),
    )
