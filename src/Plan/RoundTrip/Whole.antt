-- ===== src/Plan/RoundTrip/Whole.antt =====
-- `TravelPlanState.from_dict` after `to_dict`.
use travel_agent_pro.Prelude.{◌≡◌, refl, true, false, Option, none, some, map, All, pos}
use travel_agent_pro.Python.{truthy}
use travel_agent_pro.Python.Dict.{int, dict, of_values, get, to_values, of_values-to_values}
use travel_agent_pro.Python.Exec.{ok, raise, value_error, map_result}
use travel_agent_pro.Python.Builtins.{Builtins, py_dict, or_else}
use travel_agent_pro.Plan.Model.{
  DateRange, Travelers, Budget, Accommodation, BacktrackEvent, TravelPlanState,
  current_state_version,
}
use travel_agent_pro.Plan.Encode.{
  optional, dates_to_dict, travelers_to_dict, budget_to_dict, accommodation_to_dict,
  excluded_to_dict, day_plan_to_dict, constraint_to_dict, preference_to_dict,
  backtrack_event_to_dict, plan_to_dict,
}
use travel_agent_pro.Plan.Decode.{
  dates_from_dict, travelers_from_dict, budget_from_dict, accommodation_from_dict,
  constraint_from_dict, backtrack_event_from_dict, excluded_from_dict, day_plan_from_dict,
  preference_from_dict,
}
use travel_agent_pro.Plan.Load.{supported_phase, plan_from_dict, optional_value}
use travel_agent_pro.Plan.RoundTrip.Texts.{
  map-inverse, map_result-inverse, map_result-decode, or_else-list,
}
use travel_agent_pro.Plan.RoundTrip.Parts.{
  ExcludedIsNormal, DayPlanIsNormal, ConstraintIsNormal, PreferenceIsNormal, excluded_round_trip,
  day_plan_round_trip, constraint_round_trip, preference_round_trip,
}

-- A state as the program's own writers leave it: what `from_dict` would replace by a default is
-- that default already.
pub record PlanIsNormal (s : TravelPlanState) : Type 0 where
  pub phase : supported_phase s.phase ≡ true
  pub phase2_step : truthy s.phase2_step ≡ true
  pub excluded_candidates : All ExcludedIsNormal s.excluded_candidates
  pub daily_plans : All DayPlanIsNormal s.daily_plans
  pub constraints : All ConstraintIsNormal s.constraints
  pub preferences : All PreferenceIsNormal s.preferences

dates_kept :
    (o : Option DateRange) → optional_value dates_from_dict (optional dates_to_dict o) ≡ ok o
unfolding dates_from_dict dates_to_dict get truthy
dates_kept none = refl
dates_kept (some x) = refl

travelers_kept :
    (o : Option Travelers)
    → optional_value travelers_from_dict (optional travelers_to_dict o) ≡ ok o
unfolding travelers_from_dict travelers_to_dict get truthy
travelers_kept none = refl
travelers_kept (some x) = refl

budget_kept :
    (o : Option Budget) → optional_value budget_from_dict (optional budget_to_dict o) ≡ ok o
unfolding budget_from_dict budget_to_dict get truthy
budget_kept none = refl
budget_kept (some x) = refl

accommodation_kept :
    (o : Option Accommodation)
    → optional_value accommodation_from_dict (optional accommodation_to_dict o) ≡ ok o
unfolding accommodation_from_dict accommodation_to_dict get truthy
accommodation_kept none = refl
accommodation_kept (some x) = refl

version_kept : or_else (int current_state_version) (int (pos 1)) ≡ int current_state_version
unfolding or_else truthy
version_kept = refl

backtrack_event_round_trip :
    (b : BacktrackEvent) → backtrack_event_from_dict (backtrack_event_to_dict b) ≡ ok b
unfolding backtrack_event_from_dict backtrack_event_to_dict get
backtrack_event_round_trip b = refl

-- The lists under a normal state, decoded.
module _ (py : Builtins) (s : TravelPlanState) (h : PlanIsNormal s) where
  excluded_kept :
      map
        (excluded_from_dict py)
        (of_values (to_values (map excluded_to_dict s.excluded_candidates)))
      ≡ s.excluded_candidates
  excluded_kept = rw of_values-to_values (
      map-inverse ExcludedIsNormal excluded_to_dict (excluded_from_dict py) (excluded_round_trip py)
        s.excluded_candidates h.excluded_candidates)

  daily_plans_kept :
      map_result
        (day_plan_from_dict py)
        (of_values (to_values (map day_plan_to_dict s.daily_plans)))
      ≡ ok s.daily_plans
  daily_plans_kept = rw of_values-to_values (
      map_result-inverse DayPlanIsNormal day_plan_to_dict (day_plan_from_dict py)
        (day_plan_round_trip py) s.daily_plans h.daily_plans)

  constraints_kept :
      map_result constraint_from_dict (of_values (to_values (map constraint_to_dict s.constraints)))
      ≡ ok s.constraints
  constraints_kept = rw of_values-to_values (
      map_result-inverse ConstraintIsNormal constraint_to_dict constraint_from_dict
        constraint_round_trip s.constraints h.constraints)

  preferences_kept :
      map_result
        (preference_from_dict py)
        (of_values (to_values (map preference_to_dict s.preferences)))
      ≡ ok s.preferences
  preferences_kept = rw of_values-to_values (
      map_result-inverse PreferenceIsNormal preference_to_dict (preference_from_dict py)
        (preference_round_trip py) s.preferences h.preferences)

  -- For a state of a supported phase with a step, in which each value that `from_dict` would replace
  -- by a default is that default already: reading back what `to_dict` writes gives that state, except
  -- that its version is the current one.
  pub plan_round_trip :
      plan_from_dict py (plan_to_dict s) ≡ ok (record s { version = current_state_version })
  unfolding plan_from_dict plan_to_dict get
  plan_round_trip = rw version_kept (
      rw h.phase (
        rw (dates_kept s.dates) (
          rw (accommodation_kept s.accommodation) (
            rw h.phase2_step (
              rw (or_else-list (to_values (map excluded_to_dict s.excluded_candidates))) (
                rw excluded_kept (
                  rw (travelers_kept s.travelers) (
                    rw (budget_kept s.budget) (
                      rw daily_plans_kept (
                        rw constraints_kept (
                          rw preferences_kept (
                            rw (map_result-decode dict (py_dict py) (λ d. refl) s.decision_events) (
                              rw (map_result-decode dict (py_dict py) (λ d. refl) s.lesson_events) (
                                rw (
                                  map_result-decode backtrack_event_to_dict
                                    backtrack_event_from_dict backtrack_event_round_trip
                                    s.backtrack_history)))))))))))))))

-- A written state of no supported phase is refused by the reader.
pub unsupported_refused :
    (py : Builtins) (s : TravelPlanState)
    → supported_phase s.phase ≡ false
    → plan_from_dict py (plan_to_dict s) ≡ raise value_error
unfolding plan_from_dict plan_to_dict get
unsupported_refused py s h = rw (version_kept, h)
