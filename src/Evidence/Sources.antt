-- ===== src/Evidence/Sources.antt =====
-- `SourceRegistry` of backend/tools/source_registry.py. The file of a session is its text; the time stamp
-- is an argument.
use travel_agent_pro.Prelude.{
  ◌≡◌, map, Bool, true, false, ◌&&◌, ◌||◌, Option, none, some, List, [], ◌∷◌, String, str_eq, ℕ,
  leb, ◌==◌, if◌then◌else◌,
}
use travel_agent_pro.Python.{is_text}
use travel_agent_pro.Python.Dict.{Value, str, dict, Fields}
use travel_agent_pro.Python.Exec.{Result, ok, raise, value_error, Exec}
use travel_agent_pro.Python.Builtins.{get_null}
use travel_agent_pro.Python.Text.{codes, strip, starts_with, text_append}
use travel_agent_pro.Evidence.Lines.{split_lines, is_one_line, is_closed}
use travel_agent_pro.Plan.Encode.{fields}

-- A directory of texts by the session's id.
abbrev pub Files : Type 0
Files = List (String × String)

-- `json.dumps(d, ensure_ascii=False)`, and `json.loads`, which gives none where the text is no JSON.
pub record Json : Type 0 where
  pub dumps : Fields → String
  pub loads : String → Option Value

-- `[A-Za-z0-9_-]`
abbrev is_safe_char : ℕ → Bool
is_safe_char c =
    leb b'A' c && leb c b'Z'
    || leb b'a' c && leb c b'z'
    || leb b'0' c && leb c b'9'
    || c == b'_'
    || c == b'-'

-- `^[A-Za-z0-9_-]+$` with `re.match`: a line feed at the end is let through.
safe_codes : List ℕ → Bool
safe_codes [] = false
safe_codes (c ∷ []) = is_safe_char c
safe_codes (c ∷ d ∷ []) = is_safe_char c && (is_safe_char d || d == 10)
safe_codes (c ∷ d ∷ e ∷ cs) = is_safe_char c && safe_codes (d ∷ e ∷ cs)

unfoldable pub is_safe_segment : String → Bool
unfolding safe_codes
is_safe_segment s = safe_codes (codes s)

-- `path.read_text()`; a file that is not there has no lines either.
unfoldable pub text_of : String → Files → String
text_of session [] = ""
text_of session ((s, t) ∷ files) = if str_eq s session then t else text_of session files

-- Opening with "a" makes the file where it is not there.
unfoldable pub append_line : String → String → Files → Files
append_line session l [] = (session, text_append "" (text_append l "\n")) ∷ []
append_line session l ((s, t) ∷ files) =
    if str_eq s session
    then (s, text_append t (text_append l "\n")) ∷ files
    else (s, t) ∷ append_line session l files

-- A line without the blanks around it, as JSON; an empty one is skipped like one that is no JSON.
abbrev pub parsed : Json → String → Option Value
parsed json l = if str_eq (strip l) "" then none else json.loads (strip l)

abbrev pub lines_of : Json → String → Files → List (Option Value)
lines_of json session files = map (parsed json) (split_lines (text_of session files))

-- The first line that is a record of this source.
unfoldable pub find_source : String → List (Option Value) → Option Fields
find_source id [] = none
find_source id (some (dict d) ∷ ls) =
    if is_text (get_null "source_id" d) id then some d else find_source id ls
find_source id (_ ∷ ls) = find_source id ls

unfoldable pub lookup : Json → Files → String → String → Result (Option Fields)
lookup json files session id =
    if is_safe_segment session
    then ok (find_source id (lines_of json session files))
    else raise value_error

unfoldable pub is_http : String → Bool
is_http url = starts_with "http://" url || starts_with "https://" url

-- `source_id_for` is a hash.
module _ (json : Json) (source_id_for : String → String → String) where
  abbrev pub source_record : String → String → String → String → String → Fields
  source_record now session url title tool_name = fields (
      ("source_id", str (source_id_for session url))
      ∷ ("url", str url)
      ∷ ("title", str title)
      ∷ ("tool_name", str tool_name)
      ∷ ("registered_at", str now)
      ∷ [])

  -- A text for an address.
  registered : String → String → String → String → String → Exec Files String
  registered now session url title tool_name files =
      elim (lookup json files session (source_id_for session url)) [
        | raise e ↦ (raise e, files)
        | ok (some d) ↦ (ok (source_id_for session url), files)
        | ok none ↦ (
          ok (source_id_for session url),
          append_line session (json.dumps (source_record now session url title tool_name)) files,
        )
      ]

  unfoldable pub register : String → String → String → String → String → Exec Files String
  unfolding registered
  register now session url title tool_name files =
      if is_http (strip url)
      then registered now session (strip url) title tool_name files
      else (raise value_error, files)

  module _ (now session url title tool_name : String) (files : Files)
      (http : is_http (strip url) ≡ true) (safe : is_safe_segment session ≡ true)
      (reads_back : parsed json (json.dumps (source_record now session (strip url) title tool_name))
        ≡ some (dict (source_record now session (strip url) title tool_name)))
      (one_line : is_one_line (json.dumps (source_record now session (strip url) title tool_name))
        ≡ true)
      (closed : is_closed (text_of session files) ≡ true) where
    abbrev source_id : String
    source_id = source_id_for session (strip url)

    abbrev after : Result String × Files
    after = register now session url title tool_name files

    abbrev fresh_record : Fields
    fresh_record = source_record now session (strip url) title tool_name

    abbrev appended : Files
    appended = append_line session (json.dumps fresh_record) files
