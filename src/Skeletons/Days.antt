-- ===== src/Skeletons/Days.antt =====
-- The checks on the days of skeletons in backend/tools/plan_tools/phase2_tools.py.
use travel_agent_pro.Prelude.{
  Bool, true, false, not, ◌&&◌, ◌||◌, Option, none, some, List, [], ◌∷◌, length, all, String, ltb,
  pos, eq_ℤ, if◌then◌else◌,
}
use travel_agent_pro.Python.{is_text}
use travel_agent_pro.Python.Text.{one_of}
use travel_agent_pro.Python.Dict.{Value, str, list, nil, cons, Fields, of_values}
use travel_agent_pro.Python.Exec.{Exception, Result, ok, raise, tool_error, and_then, reject_if}
use travel_agent_pro.Python.Builtins.{get_null}
use travel_agent_pro.Plan.Model.{DateRange}
use travel_agent_pro.Plan.Days.{total_days}
use travel_agent_pro.Plan.Step.{dict_items}
use travel_agent_pro.Daily.Checks.{is_filled}

abbrev pub invalid : Exception
invalid = tool_error "INVALID_VALUE"

-- Days that are no list are not compared.
unfoldable pub count_days : DateRange → Value → Result (Unit {0})
count_days d (list vs) = and_then (total_days d) λ n.
    reject_if (not (eq_ℤ (pos (length (of_values vs))) n))
      (tool_error "SKELETON_DAY_COUNT_MISMATCH")
count_days d _ = ok tt

-- And without dates, none are.
unfoldable pub validate_skeleton_day_count : Option DateRange → Fields → Result (Unit {0})
validate_skeleton_day_count none s = ok tt
validate_skeleton_day_count (some d) s = count_days d (get_null "days" s)

-- `isinstance(v, list) and len(v) > 2`
unfoldable pub is_crowded : Value → Bool
is_crowded (list vs) = ltb 2 (length (of_values vs))
is_crowded _ = false

abbrev pub role_of : Fields → Value
role_of day = get_null "date_role" day

abbrev is_edge : Value → Bool
is_edge role = is_text role "arrival_day" || is_text role "departure_day"

unfoldable pub validate_date_role : Fields → Result (Unit {0})
validate_date_role day = and_then (reject_if (not (is_filled (role_of day))) invalid) λ _.
    and_then (reject_if (not (is_edge (role_of day) || is_text (role_of day) "full_day")) invalid)
      λ _.
        and_then
          (reject_if (is_edge (role_of day) && is_crowded (get_null "core_activities" day)) invalid)
          λ _. reject_if (is_edge (role_of day) && is_crowded (get_null "locked_pois" day)) invalid

unfoldable pub validate_date_roles : List Fields → Result (Unit {0})
validate_date_roles [] = ok tt
validate_date_roles (d ∷ ds) =
    let later = validate_date_roles ds in and_then (validate_date_role d) λ _. later

-- The days behind the first: departure at the end and full days before it.
unfoldable pub ends_with_departure : List Fields → Bool
ends_with_departure [] = true
ends_with_departure (d ∷ []) = is_text (role_of d) "departure_day"
ends_with_departure (d ∷ e ∷ ds) = is_text (role_of d) "full_day" && ends_with_departure (e ∷ ds)

-- One day may have any role.
unfoldable pub validate_positions : List Fields → Result (Unit {0})
validate_positions [] = ok tt
validate_positions (d ∷ []) = ok tt
validate_positions (d ∷ e ∷ ds) =
    and_then (reject_if (not (is_text (role_of d) "arrival_day")) invalid)
      λ _. reject_if (not (ends_with_departure (e ∷ ds))) invalid

unfoldable pub validate_date_role_and_light_packing : List Fields → Result (Unit {0})
validate_date_role_and_light_packing days =
    and_then (validate_date_roles days) λ _. validate_positions days

-- `register_poi`: the owners are the places that were seen before.
unfoldable pub register_poi : Value → List String → Result (List String)
register_poi (str s) owners = if one_of owners s then raise invalid else ok (s ∷ owners)
register_poi _ owners = ok owners

unfoldable pub register_pois : List Value → List String → Result (List String)
register_pois [] owners = ok owners
register_pois (v ∷ vs) owners = and_then (register_poi v owners) λ o. register_pois vs o

abbrev is_str : Value → Bool
is_str (str s) = true
is_str _ = false

-- A list with something in it, of texts where that is asked.
abbrev is_texts : Value → Bool
is_texts (list (cons v vs)) = all is_str (v ∷ of_values vs)
is_texts _ = false

abbrev is_some_list : Value → Bool
is_some_list (list (cons v vs)) = true
is_some_list _ = false

abbrev is_list : Value → Bool
is_list (list vs) = true
is_list _ = false

abbrev pub items_in : Value → List Value
items_in (list vs) = of_values vs
items_in _ = []

unfoldable pub check_day : Fields → Result (Unit {0})
check_day day = and_then (reject_if (not (is_texts (get_null "area_cluster" day))) invalid) λ _.
    and_then (reject_if (not (is_list (get_null "locked_pois" day))) invalid)
      λ _. reject_if (not (is_some_list (get_null "candidate_pois" day))) invalid

-- The places of a day: those locked, then the candidates.
unfoldable pub register_day : Fields → List String → Result (List String)
register_day day owners = and_then (check_day day) λ _.
    and_then (register_pois (items_in (get_null "locked_pois" day)) owners)
      λ o. register_pois (items_in (get_null "candidate_pois" day)) o

-- Over the days that are dicts.
unfoldable pub register_days : List Fields → List String → Result (List String)
register_days [] owners = ok owners
register_days (d ∷ ds) owners = and_then (register_day d owners) λ o. register_days ds o

unfoldable pub validate_days : Value → Result (Unit {0})
validate_days (list nil) = raise invalid
validate_days (list (cons v vs)) =
    and_then (register_days (dict_items (cons v vs)) [])
      λ _. validate_date_role_and_light_packing (dict_items (cons v vs))
validate_days _ = ok tt

abbrev pub validate_skeleton : Fields → Result (Unit {0})
validate_skeleton s = validate_days (get_null "days" s)

unfoldable pub validate_skeleton_days : List Fields → Result (Unit {0})
validate_skeleton_days [] = ok tt
validate_skeleton_days (s ∷ ss) =
    let later = validate_skeleton_days ss in and_then (validate_skeleton s) λ _. later

unfoldable pub validate_day_counts : Option DateRange → List Fields → Result (Unit {0})
validate_day_counts dates [] = ok tt
validate_day_counts dates (s ∷ ss) =
    let later = validate_day_counts dates ss in
    and_then (validate_skeleton_day_count dates s) λ _. later
