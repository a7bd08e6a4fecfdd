-- ===== src/Plan/Load.antt =====
-- `TravelPlanState.from_dict` of backend/state/models.py.
use travel_agent_pro.Prelude.{
  Bool, ◌&&◌, not, Option, none, some, List, map, String, ℤ, pos, leb_ℤ, ltb_ℤ, if◌then◌else◌,
}
use travel_agent_pro.Python.{truthy}
use travel_agent_pro.Python.Dict.{Value, int, str, list, dict, nil, empty, Fields, get_or}
use travel_agent_pro.Python.Exec.{
  Result, ok, raise, value_error, type_error, and_then, map_result, reject_if,
}
use travel_agent_pro.Python.Builtins.{
  Builtins, py_int, py_dict, or_else, get_null, subscript, iterate,
}
use travel_agent_pro.Plan.Model.{TravelPlanState, current_state_version}
use travel_agent_pro.Plan.Decode.{
  dates_from_dict, travelers_from_dict, budget_from_dict, accommodation_from_dict,
  constraint_from_dict, backtrack_event_from_dict, excluded_from_dict, day_plan_from_dict,
  preference_from_dict,
}
use travel_agent_pro.Plan.Step.{infer_phase2_step}

-- `phase in SUPPORTED_PHASES`
abbrev pub supported_phase : ℤ → Bool
supported_phase p = leb_ℤ (pos 1) p && leb_ℤ p (pos 4)

-- `X.from_dict(d[k]) if d.get(k) else None`
abbrev pub optional_value : {A : Type 0} → (Value → Result A) → Value → Result (Option A)
optional_value f v = if truthy v then and_then (f v) (λ a. ok (some a)) else ok none

abbrev optional_at : {A : Type 0} → String → (Value → Result A) → Fields → Result (Option A)
optional_at k f d = optional_value f (get_null k d)

-- A conversion error of the phase is a ValueError of its own.
abbrev as_value_error : Result ℤ → Result ℤ
as_value_error (raise type_error) = raise value_error
as_value_error r = r

-- `max(a, b)`
abbrev pub max_ℤ : ℤ → ℤ → ℤ
max_ℤ a b = if ltb_ℤ a b then b else a

module _ (py : Builtins) where
  -- `[X.from_dict(e) for e in d.get(k, [])]`
  abbrev list_at : {A : Type 0} → String → (Value → Result A) → Fields → Result (List A)
  list_at k f d = and_then (iterate py (get_or k (list nil) d)) (map_result f)

  abbrev step_at : Fields → Result String → Result Value
  step_at d inferred =
      let v = get_null "phase2_step" d in
      if truthy v then ok v else and_then inferred (λ s. ok (str s))

  unfoldable pub plan_from_dict : Fields → Result TravelPlanState
  plan_from_dict d =
      and_then (py_int py (or_else (get_or "version" (int (pos 1)) d) (int (pos 1)))) λ raw_version.
        and_then (as_value_error (py_int py (get_or "phase" (int (pos 1)) d))) λ phase.
          and_then (reject_if (not (supported_phase phase)) value_error) λ _.
            and_then (optional_at "dates" dates_from_dict d) λ dates.
              and_then (optional_at "accommodation" accommodation_from_dict d) λ accommodation.
                let trip_brief = get_or "trip_brief" (dict empty) d in
                let candidate_pool = get_or "candidate_pool" (list nil) d in
                let shortlist = get_or "shortlist" (list nil) d in
                let skeleton_plans = get_or "skeleton_plans" (list nil) d in
                let selected_skeleton_id = get_null "selected_skeleton_id" d in
                and_then (subscript (dict d) "session_id") λ session_id.
                  and_then
                    (step_at d (
                      infer_phase2_step phase dates trip_brief candidate_pool shortlist
                        skeleton_plans selected_skeleton_id accommodation))
                    λ phase2_step.
                      and_then
                        (iterate py
                          (or_else (get_or "excluded_candidates" (list nil) d) (list nil)))
                        λ excluded.
                          and_then (optional_at "travelers" travelers_from_dict d) λ travelers.
                            and_then (optional_at "budget" budget_from_dict d) λ budget.
                              and_then (list_at "daily_plans" (day_plan_from_dict py) d)
                                λ daily_plans.
                                  and_then (list_at "constraints" constraint_from_dict d)
                                    λ constraints.
                                      and_then (list_at "preferences" (preference_from_dict py) d)
                                        λ preferences.
                                          and_then (list_at "decision_events" (py_dict py) d)
                                            λ decision_events.
                                              and_then (list_at "lesson_events" (py_dict py) d)
                                                λ lesson_events.
                                                  and_then
                                                    (list_at "backtrack_history"
                                                      backtrack_event_from_dict d)
                                                    λ backtrack_history. ok (record {
                                                      session_id = session_id;
                                                      trip_id = get_null "trip_id" d;
                                                      phase = phase;
                                                      destination = get_null "destination" d;
                                                      dates = dates;
                                                      phase2_step = phase2_step;
                                                      trip_brief = trip_brief;
                                                      candidate_pool = candidate_pool;
                                                      shortlist = shortlist;
                                                      excluded_candidates =
                                                          map (excluded_from_dict py) excluded;
                                                      skeleton_plans = skeleton_plans;
                                                      selected_skeleton_id = selected_skeleton_id;
                                                      transport_options =
                                                          get_or "transport_options" (list nil) d;
                                                      selected_transport =
                                                          get_null "selected_transport" d;
                                                      accommodation_options =
                                                          get_or "accommodation_options" (list nil)
                                                            d;
                                                      travelers = travelers;
                                                      budget = budget;
                                                      accommodation = accommodation;
                                                      risks = get_or "risks" (list nil) d;
                                                      alternatives =
                                                          get_or "alternatives" (list nil) d;
                                                      daily_plans = daily_plans;
                                                      deliverables = get_null "deliverables" d;
                                                      constraints = constraints;
                                                      preferences = preferences;
                                                      decision_events = decision_events;
                                                      lesson_events = lesson_events;
                                                      backtrack_history = backtrack_history;
                                                      created_at = get_or "created_at" (str "") d;
                                                      last_updated =
                                                          get_or "last_updated" (str "") d;
                                                      version =
                                                          max_ℤ raw_version current_state_version;
                                                    })
