-- ===== src/Python/Builtins.antt =====
-- Conversions of Python whose tables and number formats are the interpreter's: each is a parameter
-- beyond the values at which it is plain.
use travel_agent_pro.Prelude.{
  ℕ, true, false, Option, none, some, List, [], ◌∷◌, String, ℤ, pos, leb, ◌-◌, ◌&&◌, if◌then◌else◌,
}
use travel_agent_pro.Python.{truthy}
use travel_agent_pro.Python.Dict.{
  Float, Value, null, bool, int, float, str, list, dict, Fields, entry, empty, get, get_or,
  of_values,
}
use travel_agent_pro.Python.Exec.{Result, ok, raise, key_error, type_error, attribute_error}

pub record Builtins : Type 0 where
  -- `str(v)` of what is no text
  pub shown : Value → String
  -- `int(v)` of what is no integer and no Boolean
  pub parsed_int : Value → Result ℤ
  -- `float(v)` of what is no float
  pub parsed_float : Value → Result Float
  -- `s.lower()` of a text that is not all ASCII
  pub lowered : String → String
  -- `dict(v)` of what is no dict
  pub dict_from : Value → Result Fields
  -- the characters of a text, each a text
  pub characters : String → List Value
  -- the value of a decimal digit beyond ASCII, which `\d` matches too
  pub other_digit : ℕ → Option ℕ

abbrev pub py_str : Builtins → Value → String
py_str py (str s) = s
py_str py v = py.shown v

abbrev pub py_int : Builtins → Value → Result ℤ
py_int py (int i) = ok i
py_int py (bool true) = ok (pos 1)
py_int py (bool false) = ok (pos 0)
py_int py v = py.parsed_int v

abbrev pub py_float : Builtins → Value → Result Float
py_float py (float x) = ok x
py_float py v = py.parsed_float v

abbrev pub py_dict : Builtins → Value → Result Fields
py_dict py (dict d) = ok d
py_dict py v = py.dict_from v

-- `a or b`
unfoldable pub or_else : Value → Value → Value
or_else a b = if truthy a then a else b

-- `d.get(k)`
abbrev pub get_null : String → Fields → Value
get_null k d = get_or k null d

-- `v[k]` for a text key
abbrev pub subscript : Value → String → Result Value
subscript (dict d) k = elim (get k d) [ none ↦ raise key_error | some v ↦ ok v ]
subscript _ k = raise type_error

-- `for x in v`
abbrev keys : Fields → List Value
keys empty = []
keys (entry k v d) = str k ∷ keys d

abbrev pub iterate : Builtins → Value → Result (List Value)
iterate py (list xs) = ok (of_values xs)
iterate py (dict d) = ok (keys d)
iterate py (str s) = ok (py.characters s)
iterate py v = raise type_error

-- `v.get` of what may be no dict
abbrev pub as_dict : Value → Result Fields
as_dict (dict d) = ok d
as_dict _ = raise attribute_error

-- The value of a character that `\d` matches.
unfoldable pub digit_value : Builtins → ℕ → Option ℕ
digit_value py c =
    if leb 48 c && leb c 57 then some (c - 48) else if leb c 127 then none else py.other_digit c
