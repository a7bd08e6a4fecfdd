-- ===== src/Writers/Appends.antt =====
-- The writers that append in backend/state/plan_writers.py.
use travel_agent_pro.Prelude.{List, [], ◌∷◌, ◌++◌, map, String, str_eq, if◌then◌else◌}
use travel_agent_pro.Python.Dict.{
  Value, null, bool, int, float, str, list, dict, Values, nil, cons, Fields, empty, entry, get_or,
  contains, of_values,
}
use travel_agent_pro.Python.Exec.{
  Result, ok, raise, assertion_error, and_then, Exec, lift, modify, pure, ◌>>=◌, ◌>>◌,
}
use travel_agent_pro.Python.Builtins.{Builtins, py_str, or_else, get_null}
use travel_agent_pro.Plan.Model.{TravelPlanState, Constraint, Preference}
use travel_agent_pro.Plan.Decode.{preference_from_dict}

text_append : String → String → String
text_append String.[] t = t
text_append (String.◌∷◌ c s) t = String.◌∷◌ c (text_append s t)

-- `sep.join(parts)`
join : String → List String → String
unfolding text_append
join sep [] = ""
join sep (p ∷ []) = p
join sep (p ∷ q ∷ qs) = text_append p (text_append sep (join sep (q ∷ qs)))

module _ (py : Builtins) where
  mutual
    unfolding text_append join

    -- `_stringify_preference_value`
    pub stringify : Value → String
    stringify null = ""
    stringify (str s) = s
    stringify (list vs) = join " · " (stringify_items vs)
    stringify (dict d) = join "；" (stringify_entries d)
    stringify (bool b) = py_str py (bool b)
    stringify (int i) = py_str py (int i)
    stringify (float x) = py_str py (float x)

    pub stringify_items : Values → List String
    stringify_items nil = []
    stringify_items (cons v vs) =
        let text = stringify v in
        let rest = stringify_items vs in if str_eq text "" then rest else text ∷ rest

    pub stringify_entries : Fields → List String
    stringify_entries empty = []
    stringify_entries (entry k v d) =
        let text = stringify v in
        let rest = stringify_entries d in
        if str_eq text "" then rest else text_append k (text_append ": " text) ∷ rest

-- What a caller may give: a value of JSON, or another iterable, such as a tuple.
pub data Items : Type 0 where
  json : Value → Items
  iterable : Items

-- `_normalize_append_items`: of the values of JSON only a list is taken apart.
abbrev pub append_items : Items → Result (List Value)
append_items (json (list vs)) = ok (of_values vs)
append_items (json v) = ok (v ∷ [])
append_items iterable = raise assertion_error

module _ (py : Builtins) where
  plain_preference : String → String → Preference
  plain_preference key value = record { key = key; value = str value; source = str "" }

  entry_preferences : Fields → List Preference
  entry_preferences empty = []
  entry_preferences (entry k v d) = plain_preference k (stringify py v) ∷ entry_preferences d

  -- One item; a dict without a key "key" is one preference for each of its entries.
  unfoldable pub preferences_of : Value → Result (List Preference)
  unfolding plain_preference entry_preferences
  preferences_of (dict d) =
      if contains "key" d
      then (and_then (preference_from_dict py (dict d)) λ p. ok (p ∷ []))
      else ok (entry_preferences d)
  preferences_of v = ok (plain_preference (py_str py v) "" ∷ [])

  -- Each item is appended before the next one is looked at.
  unfoldable pub append_each : List Value → Exec TravelPlanState (Unit {0})
  append_each [] = pure tt
  append_each (v ∷ vs) = do
    ps ← lift (preferences_of v)
    modify (λ plan. record plan { preferences = plan.preferences ++ ps })
    append_each vs

  unfoldable pub append_preferences : Items → Exec TravelPlanState (Unit {0})
  append_preferences given = lift (append_items given) >>= append_each

  unfoldable pub constraint_of : Value → Constraint
  constraint_of (dict d) = record {
    type = str (py_str py (get_or "type" (str "soft") d));
    description =
        str (
          py_str py (or_else (or_else (get_null "description" d) (get_null "summary" d)) (dict d)));
    source = str "";
  }
  constraint_of v = record { type = str "soft"; description = str (py_str py v); source = str "" }

  unfoldable pub append_constraints : Items → Exec TravelPlanState (Unit {0})
  append_constraints given = do
    items ← lift (append_items given)
    modify (λ plan. record plan { constraints = plan.constraints ++ map constraint_of items })
