-- ===== src/Daily/Writers.antt =====
-- The writers of daily plans in backend/state/plan_writers.py.
use travel_agent_pro.Prelude.{List, [], ◌∷◌, ◌++◌, map, String, ℤ, leb_ℤ, eq_ℤ, if◌then◌else◌}
use travel_agent_pro.Python.Dict.{Value, int, str, list, dict, to_values}
use travel_agent_pro.Python.Exec.{
  Result, ok, and_then, map_result, Exec, lift, modify, gets, ◌>>=◌, ◌>>◌,
}
use travel_agent_pro.Python.Builtins.{Builtins}
use travel_agent_pro.Plan.Model.{DayPlan, TravelPlanState}
use travel_agent_pro.Plan.Encode.{fields}
use travel_agent_pro.Plan.Decode.{day_plan_from_dict}

-- `sort(key=lambda day: day.day)`, which keeps days of one number in their order.
unfoldable pub insert_day : DayPlan → List DayPlan → List DayPlan
insert_day d [] = d ∷ []
insert_day d (e ∷ es) =
    let later = insert_day d es in if leb_ℤ d.day e.day then d ∷ e ∷ es else e ∷ later

unfoldable pub sort_days : List DayPlan → List DayPlan
unfolding insert_day
sort_days [] = []
sort_days (d ∷ ds) = insert_day d (sort_days ds)

-- `_append_decision_event`
unfoldable pub append_decision_event :
    String → String → Value → String → TravelPlanState → TravelPlanState
append_decision_event now category value reason plan = record plan {
  decision_events =
      plan.decision_events
      ++ fields (
          ("type", str "accepted")
          ∷ ("category", str category)
          ∷ ("value", value)
          ∷ ("reason", str reason)
          ∷ ("timestamp", str now)
          ∷ [])
        ∷ [];
}

-- One day in the place of every day of its number.
unfoldable pub put_day : DayPlan → List DayPlan → List DayPlan
put_day d [] = []
put_day d (e ∷ es) = (if eq_ℤ e.day d.day then d else e) ∷ put_day d es

module _ (py : Builtins) where
  unfoldable pub append_one_day_plan : Value → Exec TravelPlanState (Unit {0})
  append_one_day_plan day_dict = do
    d ← lift (day_plan_from_dict py day_dict)
    modify (λ plan. record plan { daily_plans = sort_days (plan.daily_plans ++ d ∷ []) })

  -- The whole list is replaced and the decision is recorded, with an empty time stamp.
  unfoldable pub replace_all_daily_plans : List Value → Exec TravelPlanState (Unit {0})
  replace_all_daily_plans days = do
    ds ← lift (map_result (day_plan_from_dict py) days)
    modify (λ plan. record plan { daily_plans = sort_days ds })
    modify (λ plan.
        append_decision_event "" "daily_plan"
          (dict (
            fields (
              ("days", list (to_values (map (λ (d : DayPlan). int d.day) plan.daily_plans))) ∷ [])))
          "daily_plans replaced in plan state" plan)

  -- The dict is decoded once for every day of its number; `day_number` is its entry "day".
  unfoldable pub replaced : Value → ℤ → List DayPlan → Result (List DayPlan)
  replaced day_dict day_number [] = ok []
  replaced day_dict day_number (e ∷ es) =
      let rest = replaced day_dict day_number es in
      and_then (if eq_ℤ e.day day_number then day_plan_from_dict py day_dict else ok e)
        λ d. and_then rest λ ds. ok (d ∷ ds)

  unfoldable pub replace_one_day_plan : ℤ → Value → Exec TravelPlanState (Unit {0})
  replace_one_day_plan day_number day_dict = do
    days ← gets (λ plan. plan.daily_plans)
    ds ← lift (replaced day_dict day_number days)
    modify (λ plan. record plan { daily_plans = sort_days ds })
