-- ===== src/Tools/Engine.antt =====
-- `ToolEngine` of backend/tools/engine.py: the registry, one call, and a batch of calls. The duration
-- that is put into the metadata is left out.
use travel_agent_pro.Prelude.{
  ℕ, suc, leb, Bool, true, false, not, Option, none, some, List, [], ◌∷◌, ◌++◌, map, keep, String,
  str_eq, if◌then◌else◌,
}
use travel_agent_pro.Python.Dict.{Value, null, dict, Fields, empty, contains, pop, get_or}
use travel_agent_pro.Python.Exec.{
  value_error, type_error, key_error, attribute_error, overflow_error, assertion_error, index_error,
  llm_error, tool_error, Result, ok, raise,
}
use travel_agent_pro.Tools.Types.{
  ToolCall, ToolResult, ToolDef, success, error, Suggestion, unexpected, check_arguments, of_tool,
  available, give,
}

-- The tools in the order of their registration.
abbrev pub Toolbox : Type 0 → Type 0
Toolbox W = List (ToolDef W)

module _ {W : Type 0} where
  unfoldable pub register : ToolDef W → Toolbox W → Toolbox W
  register t [] = t ∷ []
  register t (u ∷ us) = if str_eq u.name t.name then t ∷ us else u ∷ register t us

  unfoldable pub get_tool : String → Toolbox W → Option (ToolDef W)
  get_tool name [] = none
  get_tool name (t ∷ ts) = if str_eq t.name name then some t else get_tool name ts

failure : ToolCall → String → Suggestion → ToolResult
failure call code hint = record {
  tool_call_id = call.id;
  status = error;
  content = null;
  metadata = some empty;
  error_code = some code;
  suggestion = some hint;
}

-- Before a tool has run there is no metadata.
refused : ToolCall → String → Suggestion → ToolResult
unfolding failure
refused call code hint = record (failure call code hint) { metadata = none }

succeeded : ToolCall → Value → Fields → ToolResult
succeeded call content metadata = record {
  tool_call_id = call.id;
  status = success;
  content = content;
  metadata = some metadata;
  error_code = none;
  suggestion = none;
}

-- A dict with a key "_metadata" is split; metadata that are no dict cannot take the duration.
unfoldable pub split_metadata : ToolCall → Value → ToolResult
unfolding succeeded failure
split_metadata call (dict d) =
    if contains "_metadata" d
    then elim (get_or "_metadata" null d) [
      | dict m ↦ succeeded call (dict (pop "_metadata" d)) m
      | null ↦ succeeded call (dict (pop "_metadata" d)) empty
      | _ ↦ failure call "INTERNAL_ERROR" unexpected
    ]
    else succeeded call (dict d) empty
split_metadata call v = succeeded call v empty

abbrev pub is_empty {ℓ} : {A : Type ℓ} → List A → Bool
is_empty [] = true
is_empty (x ∷ xs) = false

-- The required parameters that a call does not give.
abbrev pub missing_arguments : {W : Type 0} → ToolDef W → ToolCall → List String
missing_arguments t call = keep (λ p. not (contains p call.arguments)) t.required

-- Calls under their positions.
abbrev pub Indexed : Type 0 → Type 0
Indexed A = List (ℕ × A)

abbrev pub items : {A : Type 0} → Indexed A → List A
items {A} xs = map (λ (p : ℕ × A). p.1) xs

abbrev pub enumerate : {A : Type 0} → ℕ → List A → Indexed A
enumerate n [] = []
enumerate n (x ∷ xs) = (n, x) ∷ enumerate (suc n) xs

-- The positions of some calls with the results of these.
abbrev pub positioned : {A B : Type 0} → Indexed A → List B → Indexed B
positioned [] rs = []
positioned (x ∷ xs) [] = []
positioned (x ∷ xs) (r ∷ rs) = (x.0, r) ∷ positioned xs rs

-- `sort(key=lambda item: item[0])`
unfoldable pub insert_item : {A : Type 0} → ℕ × A → Indexed A → Indexed A
insert_item x [] = x ∷ []
insert_item x (y ∷ ys) =
    let later = insert_item x ys in if leb x.0 y.0 then x ∷ y ∷ ys else y ∷ later

unfoldable pub sort_items : {A : Type 0} → Indexed A → Indexed A
unfolding insert_item
sort_items [] = []
sort_items (x ∷ xs) = insert_item x (sort_items xs)

-- `names_argument` tells whether the text of a TypeError that a call ends with speaks of an argument.
module _ {W : Type 0} (names_argument : ToolCall → W → Bool) (tools : Toolbox W) where
  -- What a tool returned or raised.
  settled : ToolCall → W → Result Value → ToolResult
  unfolding failure
  settled call w (ok v) = split_metadata call v
  settled call w (raise (tool_error code)) = failure call code of_tool
  settled call w (raise type_error) =
      if names_argument call w
      then failure call "INVALID_ARGUMENTS" check_arguments
      else failure call "INTERNAL_ERROR" unexpected
  settled call w (raise value_error) = failure call "INTERNAL_ERROR" unexpected
  settled call w (raise key_error) = failure call "INTERNAL_ERROR" unexpected
  settled call w (raise attribute_error) = failure call "INTERNAL_ERROR" unexpected
  settled call w (raise overflow_error) = failure call "INTERNAL_ERROR" unexpected
  settled call w (raise assertion_error) = failure call "INTERNAL_ERROR" unexpected
  settled call w (raise index_error) = failure call "INTERNAL_ERROR" unexpected
  settled call w (raise llm_error) = failure call "INTERNAL_ERROR" unexpected

  run_tool : ToolDef W → ToolCall → W → ToolResult × W
  unfolding settled
  run_tool t call w = let (r, w') = t.run call.arguments w in (settled call w' r, w')

  unfoldable pub execute : ToolCall → W → ToolResult × W
  unfolding run_tool refused
  execute call w = elim (get_tool call.name tools) [
    | none ↦ (refused call "UNKNOWN_TOOL" (available (map (λ (t : ToolDef W). t.name) tools)), w)
    | some t ↦
        if is_empty (missing_arguments t call)
        then run_tool t call w
        else (refused call "INVALID_ARGUMENTS" (give (missing_arguments t call)), w)
  ]

  -- A call of a tool that writes.
  unfoldable pub is_write : ToolCall → Bool
  is_write call = elim (get_tool call.name tools) [ none ↦ false | some t ↦ t.writes ]

  -- One after the other.
  unfoldable pub execute_each : List ToolCall → W → List ToolResult × W
  execute_each [] w = ([], w)
  execute_each (c ∷ cs) w =
      let (r, v) = execute c w in let (rs, u) = execute_each cs v in (r ∷ rs, u)

  -- An exception among gathered results becomes an internal error of its call.
  returned : ToolCall → Result ToolResult → ToolResult
  unfolding refused
  returned call (ok r) = r
  returned call (raise x) = refused call "INTERNAL_ERROR" unexpected

  unfoldable pub gathered : List ToolCall → List (Result ToolResult) → List ToolResult
  unfolding returned
  gathered [] rs = []
  gathered (c ∷ cs) [] = []
  gathered (c ∷ cs) (r ∷ rs) = returned c r ∷ gathered cs rs

  -- `gather` is asyncio.gather over `execute` of the calls that only read, with return_exceptions.
  module _ (gather : List ToolCall → W → List (Result ToolResult) × W) where
    execute_many : List ToolCall → W → List ToolResult × W
    execute_many calls w =
        let reads = keep (λ (p : ℕ × ToolCall). not (is_write p.1)) (enumerate 0 calls) in
        let writes = keep (λ (p : ℕ × ToolCall). is_write p.1) (enumerate 0 calls) in
        let (read, v) = gather (items reads) w in
        let (written, u) = execute_each (items writes) v in
        (
          items (
              sort_items
                (positioned reads (gathered (items reads) read) ++ positioned writes written)),
          u,
        )

    unfoldable pub execute_batch : List ToolCall → W → List ToolResult × W
    unfolding execute_many
    execute_batch [] w = ([], w)
    execute_batch (c ∷ []) w = let (r, v) = execute c w in (r ∷ [], v)
    execute_batch (c ∷ d ∷ cs) w = execute_many (c ∷ d ∷ cs) w
