-- ===== src/Plan/Step.antt =====
-- `infer_phase2_step_from_state` of backend/state/models.py.
use travel_agent_pro.Prelude.{
  Bool, not, ◌&&◌, ◌||◌, Option, List, [], ◌∷◌, String, ℤ, pos, ltb_ℤ, any, if◌then◌else◌,
}
use travel_agent_pro.Python.{truthy, is_some, py_eq}
use travel_agent_pro.Python.Dict.{Value, list, dict, str, Values, nil, cons, Fields}
use travel_agent_pro.Python.Exec.{Result, ok, raise, type_error, and_then}
use travel_agent_pro.Python.Builtins.{get_null, as_dict}
use travel_agent_pro.Plan.Model.{DateRange, Accommodation, TravelPlanState}

abbrev pub dict_items : Values → List Fields
dict_items nil = []
dict_items (cons (dict d) vs) = d ∷ dict_items vs
dict_items (cons _ vs) = dict_items vs

-- `s for s in v if isinstance(s, dict)`: the keys of a dict and the characters of a text are none.
unfoldable pub dicts_of : Value → Result (List Fields)
dicts_of (list vs) = ok (dict_items vs)
dicts_of (dict d) = ok []
dicts_of (str s) = ok []
dicts_of _ = raise type_error

-- Whether a skeleton goes by the selected id, or by it as a name.
unfoldable pub names_skeleton : Value → Fields → Bool
names_skeleton selected s = py_eq (get_null "id" s) selected || py_eq (get_null "name" s) selected

-- The step while no skeleton is selected.
step_unselected : Value → Value → Value → Value → Result String
step_unselected trip_brief pool shortlist skeletons =
    if truthy skeletons
    then ok "skeleton"
    else if truthy shortlist || truthy pool
    then ok "candidate"
    else (and_then (as_dict trip_brief) λ brief. ok (
        if truthy (get_null "goal" brief) && truthy (get_null "pace" brief)
        then "candidate"
        else "brief"))

-- A selected id that no skeleton has keeps the step at "skeleton".
step_selected : Value → Value → Result String
step_selected skeletons selected =
    if truthy skeletons
    then (and_then (dicts_of skeletons)
        λ plans. ok (if any (names_skeleton selected) plans then "lock" else "skeleton"))
    else ok "lock"

unfoldable pub infer_phase2_step :
    ℤ
    → Option DateRange
    → Value
    → Value
    → Value
    → Value
    → Value
    → Option Accommodation
    → Result String
unfolding step_unselected step_selected
infer_phase2_step phase dates trip_brief pool shortlist skeletons selected accommodation =
    if ltb_ℤ phase (pos 2)
    then ok "brief"
    else if ltb_ℤ (pos 2) phase
    then ok "lock"
    else if not (is_some dates) || not (truthy trip_brief)
    then ok "brief"
    else if not (truthy selected)
    then step_unselected trip_brief pool shortlist skeletons
    else step_selected skeletons selected

-- The call that the router and the loader make.
abbrev pub infer_of : TravelPlanState → Result String
infer_of s =
    infer_phase2_step s.phase s.dates s.trip_brief s.candidate_pool s.shortlist s.skeleton_plans
      s.selected_skeleton_id s.accommodation
