-- ===== src/Daily/Calendar.antt =====
-- The days of a plan under `save_day_plan` of backend/tools/plan_tools/daily_plans.py.
use travel_agent_pro.Prelude.{
  ◌≡◌, List, ℤ, pos, eq_ℤ, ◌≤ℤ◌, ◌⊎◌, inl, inr, length, arith, some, if◌then◌else◌, ℕ, suc,
}
use travel_agent_pro.Python.Dict.{Value}
use travel_agent_pro.Python.Exec.{Result}
use travel_agent_pro.Python.Builtins.{Builtins}
use travel_agent_pro.Plan.Model.{DayPlan, TravelPlanState}
use travel_agent_pro.Harness.Conflicts.{Measures}
use travel_agent_pro.Daily.Checks.{Mode, create, replace_existing}
use travel_agent_pro.Daily.Tools.{day_exists, save_day_plan}
use travel_agent_pro.Daily.Order.{
  IsCalendar, Above-insert_day, Above-put_day, find_day, find_day-insert_day, find_day-put_day,
  length-insert_day, length-put_day,
}
use travel_agent_pro.Daily.Saves.{placed, wants_day}
use travel_agent_pro.Daily.Outcome.{Saved, save_outcome}

placed-IsCalendar :
    (m : Mode) (d : DayPlan) (days : List DayPlan)
    → IsCalendar days
    → pos 1 ≤ℤ d.day
    → day_exists d.day days ≡ wants_day m
    → IsCalendar (placed m d days)
placed-IsCalendar create d days h low new = Above-insert_day (pos 0) d days h (omega arith) new
placed-IsCalendar replace_existing d days h low there = Above-put_day (pos 0) d days h

find_day-placed :
    (n : ℤ) (m : Mode) (d : DayPlan) (days : List DayPlan)
    → day_exists d.day days ≡ wants_day m
    → find_day n (placed m d days) ≡ (if eq_ℤ d.day n then some d else find_day n days)
find_day-placed n create d days new = find_day-insert_day n d days new
find_day-placed n replace_existing d days there = ground (arith, find_day-put_day n d days)

-- The number of days after a call of either mode.
abbrev pub grown : Mode → ℕ → ℕ
grown create n = suc n
grown replace_existing n = n

length-placed :
    (m : Mode) (d : DayPlan) (days : List DayPlan)
    → length (placed m d days) ≡ grown m (length days)
length-placed create d days = length-insert_day d days
length-placed replace_existing d days = length-put_day d days

module _ (py : Builtins) (by : Measures) (validate_visit_info : Value → Result (Unit {0}))
    (mode day date activities tips : Value) (s : TravelPlanState)
    (h : IsCalendar s.daily_plans) where
  abbrev after : TravelPlanState
  after = (save_day_plan py by validate_visit_info mode day date activities tips s).1

  -- Whatever its arguments are, a call of `save_day_plan` keeps the days of the plan in the order of
  -- their numbers, from 1 on and each number once, if they were so before.
  pub save-IsCalendar : IsCalendar after.daily_plans
  save-IsCalendar =
      elim (save_outcome py by validate_visit_info mode day date activities tips s h) [
        | inl same ↦ rw same h
        | inr w ↦ rw w.state (placed-IsCalendar w.m w.d s.daily_plans h w.low w.found)
      ]

  -- On days in order, a call of `save_day_plan` either leaves the plan as it was, or there is a day
  -- that each lookup by number finds under its own number, every other number is looked up as
  -- before, and the number of days is one more with the mode `create`, the same with the mode
  -- `replace_existing`.
  pub save-find_day :
      (after ≡ s)
      ⊎ ((w : Saved mode day s after) × ((n : ℤ)
            → find_day n after.daily_plans
              ≡ (if eq_ℤ w.d.day n then some w.d else find_day n s.daily_plans))
          × (length after.daily_plans ≡ grown w.m (length s.daily_plans)))
  save-find_day = elim (save_outcome py by validate_visit_info mode day date activities tips s h) [
    | inl same ↦ inl same
    | inr w ↦ inr (
      w,
      (λ n. rw w.state (find_day-placed n w.m w.d s.daily_plans w.found)),
      rw w.state (length-placed w.m w.d s.daily_plans),
    )
  ]
