-- ===== src/Daily/Tools.antt =====
-- The tools `save_day_plan` and `replace_all_day_plans` of backend/tools/plan_tools/daily_plans.py.
use travel_agent_pro.Prelude.{
  ℕ, Bool, not, Option, none, some, List, [], ◌∷◌, map, length, String, ℤ, eq_ℤ, any, all, keep,
}
use travel_agent_pro.Python.Dict.{Value, int, str, list, dict, contains, to_values, of_values}
use travel_agent_pro.Python.Exec.{
  Result, ok, raise, tool_error, and_then, map_result, reject_if, Exec, pure, throw, lift, gets,
  ◌>>=◌, ◌>>◌,
}
use travel_agent_pro.Python.Builtins.{Builtins, py_str, or_else, get_null}
use travel_agent_pro.Plan.Model.{TravelPlanState, DayPlan, DateRange}
use travel_agent_pro.Plan.Encode.{fields}
use travel_agent_pro.Plan.Days.{total_days}
use travel_agent_pro.Harness.Conflicts.{Measures, Conflict, validate_day_conflicts}
use travel_agent_pro.Daily.Writers.{
  append_one_day_plan, replace_all_daily_plans, replace_one_day_plan,
}
use travel_agent_pro.Daily.Checks.{
  Mode, create, replace_existing, validate_mode, validate_day, validate_day_in_range,
  validate_unique, day_range, validate_coverage, validate_date_format, validate_activities,
}

-- What both tools report, beside the texts that repeat their arguments.
pub record SaveReport : Type 0 where
  pub covered_days : List ℤ
  pub missing_days : List ℤ
  pub total_days : ℕ
  pub previous_days : ℕ
  pub conflicts : List Conflict

-- `_existing_day_numbers`: the days are kept sorted, so their numbers are.
abbrev pub day_numbers : List DayPlan → List ℤ
day_numbers days = map (λ (d : DayPlan). d.day) days

unfoldable pub missing_day_numbers : TravelPlanState → Result (List ℤ)
missing_day_numbers plan = elim plan.dates [
  | none ↦ ok []
  | some d ↦
      and_then (total_days d)
        λ n. ok (keep (λ k. not (any (eq_ℤ k) (day_numbers plan.daily_plans))) (day_range n))
]

unfoldable pub day_exists : ℤ → List DayPlan → Bool
day_exists n days = any (λ d. eq_ℤ d.day n) days

module _ (py : Builtins) (by : Measures) (validate_visit_info : Value → Result (Unit {0})) where
  -- The report after a write.
  unfoldable pub report : ℕ → List ℤ → Exec TravelPlanState SaveReport
  report previous_count numbers = do
    days ← gets (λ plan. plan.daily_plans)
    conflicts ← lift (validate_day_conflicts py by days numbers)
    missing ← gets missing_day_numbers
    missing' ← lift missing
    pure (record {
      covered_days = day_numbers days;
      missing_days = missing';
      total_days = length days;
      previous_days = previous_count;
      conflicts = conflicts;
    })

  -- The dict that is written; its number and its list have been checked.
  unfoldable pub day_payload : ℤ → String → Value → List Value → Value
  day_payload day date tips activities = dict (
      fields (
        ("day", int day)
        ∷ ("date", str date)
        ∷ ("tips", str (py_str py (or_else tips (str ""))))
        ∷ ("activities", list (to_values activities))
        ∷ []))

  unfoldable pub write_day : Mode → ℤ → Value → Exec TravelPlanState (Unit {0})
  write_day create day payload = append_one_day_plan py payload
  write_day replace_existing day payload = replace_one_day_plan py day payload

  -- `create` wants a new number, `replace_existing` one that is there.
  check_exists : Mode → Bool → Result (Unit {0})
  check_exists create found = reject_if found (tool_error "DAY_ALREADY_EXISTS")
  check_exists replace_existing found = reject_if (not found) (tool_error "DAY_NOT_FOUND")

  unfoldable pub save_day_plan :
      Value → Value → Value → Value → Value → Exec TravelPlanState SaveReport
  unfolding check_exists
  save_day_plan mode day date activities tips = do
    m ← lift (validate_mode mode)
    n ← lift (validate_day day)
    dates ← gets (λ plan. plan.dates)
    lift (validate_day_in_range dates n)
    date' ← lift (validate_date_format py validate_visit_info date)
    items ← lift (validate_activities py validate_visit_info activities)
    days ← gets (λ plan. plan.daily_plans)
    lift (check_exists m (day_exists n days))
    write_day m n (day_payload n date' tips items)
    report (length days) (n ∷ [])

  -- One entry of `days`, before anything is written; its number.
  unfoldable pub check_day : Option DateRange → Value → Result ℤ
  check_day dates (dict d) =
      and_then
        (reject_if (not (all (λ k. contains k d) ("day" ∷ "date" ∷ "activities" ∷ [])))
          (tool_error "INVALID_VALUE"))
        λ _. and_then (validate_day (get_null "day" d)) λ n.
          and_then (validate_day_in_range dates n) λ _.
            and_then (validate_date_format py validate_visit_info (get_null "date" d)) λ _.
              and_then (validate_activities py validate_visit_info (get_null "activities" d))
                λ _. ok n
  check_day dates _ = raise (tool_error "INVALID_VALUE")

  unfoldable pub checked_days : Option DateRange → List Value → Result (List ℤ)
  unfolding check_day
  checked_days dates days = and_then (map_result (check_day dates) days) λ numbers.
      and_then (validate_unique [] numbers)
        λ _. and_then (validate_coverage dates numbers) λ _. ok numbers

  unfoldable pub replace_all_day_plans : Value → Exec TravelPlanState SaveReport
  replace_all_day_plans (list vs) = do
    dates ← gets (λ plan. plan.dates)
    numbers ← lift (checked_days dates (of_values vs))
    before ← gets (λ plan. plan.daily_plans)
    replace_all_daily_plans py (of_values vs)
    report (length before) numbers
  replace_all_day_plans _ = throw (tool_error "INVALID_VALUE")

  -- The two tools of an earlier interface.
  unfoldable pub append_day_plan : Value → Value → Value → Value → Exec TravelPlanState SaveReport
  append_day_plan day date activities tips = save_day_plan (str "create") day date activities tips

  unfoldable pub replace_daily_plans : Value → Exec TravelPlanState SaveReport
  replace_daily_plans days = replace_all_day_plans days
