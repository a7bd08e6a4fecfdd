-- ===== src/Writers/Single.antt =====
-- The writers of one field in backend/state/plan_writers.py.
use travel_agent_pro.Prelude.{Bool, true, false, not, some, [], ◌∷◌, ◌++◌, map, String}
use travel_agent_pro.Python.Dict.{Value, null, str, list, dict, get_or, put, of_values}
use travel_agent_pro.Python.Exec.{
  Result, ok, raise, type_error, assertion_error, Exec, throw, lift, gets, modify, raise_if, ◌>>=◌,
  ◌>>◌,
}
use travel_agent_pro.Python.Builtins.{Builtins, py_str, or_else, get_null}
use travel_agent_pro.Plan.Model.{TravelPlanState, Accommodation}
use travel_agent_pro.Plan.Encode.{fields, accommodation_to_dict}
use travel_agent_pro.Plan.Decode.{excluded_from_dict}
use travel_agent_pro.Daily.Writers.{append_decision_event}

abbrev is_list : Value → Bool
is_list (list vs) = true
is_list _ = false

abbrev is_dict : Value → Bool
is_dict (dict d) = true
is_dict _ = false

abbrev is_str : Value → Bool
is_str (str s) = true
is_str _ = false

-- `assert`
abbrev expect : Bool → Exec TravelPlanState (Unit {0})
expect b = raise_if (not b) assertion_error

unfoldable pub write_skeleton_plans : Value → Exec TravelPlanState (Unit {0})
write_skeleton_plans v = do expect (is_list v); modify (λ plan. record plan { skeleton_plans = v })

-- The decision is recorded with an empty time stamp.
unfoldable pub write_selected_skeleton_id : Value → Exec TravelPlanState (Unit {0})
write_selected_skeleton_id v = do
  expect (is_str v)
  modify (λ plan. record plan { selected_skeleton_id = v })
  modify (
      append_decision_event "" "skeleton" (dict (fields (("id", v) ∷ [])))
        "selected_skeleton_id updated in plan state")

unfoldable pub clear_selected_skeleton_id : TravelPlanState → TravelPlanState
clear_selected_skeleton_id plan = record plan { selected_skeleton_id = null }

unfoldable pub write_candidate_pool : Value → Exec TravelPlanState (Unit {0})
write_candidate_pool v = do expect (is_list v); modify (λ plan. record plan { candidate_pool = v })

unfoldable pub write_shortlist : Value → Exec TravelPlanState (Unit {0})
write_shortlist v = do expect (is_list v); modify (λ plan. record plan { shortlist = v })

unfoldable pub write_excluded_candidates : Builtins → Value → Exec TravelPlanState (Unit {0})
write_excluded_candidates py (list vs) =
    modify
      (λ plan. record plan { excluded_candidates = map (excluded_from_dict py) (of_values vs) })
write_excluded_candidates py _ = throw assertion_error

unfoldable pub write_transport_options : Value → Exec TravelPlanState (Unit {0})
write_transport_options v = do
  expect (is_list v)
  modify (λ plan. record plan { transport_options = v })

unfoldable pub write_selected_transport : Value → Exec TravelPlanState (Unit {0})
write_selected_transport v = do
  expect (is_dict v)
  modify (λ plan. record plan { selected_transport = v })
  modify (append_decision_event "" "transport" v "selected_transport updated in plan state")

unfoldable pub write_accommodation_options : Value → Exec TravelPlanState (Unit {0})
write_accommodation_options v = do
  expect (is_list v)
  modify (λ plan. record plan { accommodation_options = v })

unfoldable pub write_accommodation : Value → Value → Exec TravelPlanState (Unit {0})
write_accommodation area hotel = do
  expect (is_str area)
  let a : Accommodation = record { area = area; hotel = hotel }
  modify (λ plan. record plan { accommodation = some a })
  modify (
      append_decision_event "" "accommodation" (accommodation_to_dict a)
        "accommodation updated in plan state")

unfoldable pub write_risks : Value → Exec TravelPlanState (Unit {0})
write_risks v = do expect (is_list v); modify (λ plan. record plan { risks = v })

unfoldable pub write_alternatives : Value → Exec TravelPlanState (Unit {0})
write_alternatives v = do expect (is_list v); modify (λ plan. record plan { alternatives = v })

unfoldable pub write_destination : Builtins → Value → TravelPlanState → TravelPlanState
write_destination py (dict d) plan = record plan {
  destination = str (py_str py (get_or "name" (dict d) d));
}
write_destination py v plan = record plan { destination = str (py_str py v) }

-- The city in a dict, under one of four keys, and the dict itself where there is none.
unfoldable pub departure_city : Value → Value
departure_city (dict d) =
    or_else
      (or_else
        (or_else (or_else (get_null "name" d) (get_null "city" d)) (get_null "departure_city" d))
        (get_null "from" d))
      (dict d)
departure_city v = v

-- `plan.trip_brief["departure_city"] = text`
put_city : Value → String → Result Value
put_city (dict b) text = ok (dict (put "departure_city" (str text) b))
put_city _ text = raise type_error

unfoldable pub write_departure_city : Builtins → Value → Exec TravelPlanState (Unit {0})
unfolding put_city
write_departure_city py v = do
  brief ← gets (λ plan. plan.trip_brief)
  brief' ← lift (put_city brief (py_str py (departure_city v)))
  modify (λ plan. record plan { trip_brief = brief' })

unfoldable pub record_phase4_lesson : String → String → String → TravelPlanState → TravelPlanState
record_phase4_lesson kind note now plan = record plan {
  lesson_events =
      plan.lesson_events
      ++ fields (("kind", str kind) ∷ ("content", str note) ∷ ("timestamp", str now) ∷ []) ∷ [];
}
