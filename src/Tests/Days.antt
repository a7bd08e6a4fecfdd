-- ===== src/Tests/Days.antt =====
-- A sample day that is saved: backend/tools/plan_tools/daily_plans.py.
use travel_agent_pro.Prelude.{◌≡◌, ℤ, pos, eq_ℤ, ◌⊎◌, some, length, arith, if◌then◌else◌}
use travel_agent_pro.Python.Dict.{int, str, list, nil}
use travel_agent_pro.Plan.Model.{TravelPlanState}
use travel_agent_pro.Daily.Tools.{save_day_plan}
use travel_agent_pro.Daily.Order.{IsCalendar, find_day}
use travel_agent_pro.Daily.Outcome.{Saved}
use travel_agent_pro.Daily.Calendar.{grown, save-IsCalendar, save-find_day}
use travel_agent_pro.Tests.Samples.{plain, no_commute, any_visit_info, planned}

abbrev saved_plan : TravelPlanState
saved_plan =
    (save_day_plan plain no_commute any_visit_info (str "create") (int (pos 1)) (str "2026-05-01")
      (list nil) (str "") planned).1

planned-IsCalendar : IsCalendar planned.daily_plans
planned-IsCalendar = (omega arith, tt)

save-IsCalendar_example : IsCalendar saved_plan.daily_plans
save-IsCalendar_example =
    save-IsCalendar plain no_commute any_visit_info (str "create") (int (pos 1)) (str "2026-05-01")
      (list nil) (str "") planned planned-IsCalendar

save-find_day_example :
    (saved_plan ≡ planned)
    ⊎ ((w : Saved (str "create") (int (pos 1)) planned saved_plan) × ((n : ℤ)
          → find_day n saved_plan.daily_plans
            ≡ (if eq_ℤ w.d.day n then some w.d else find_day n planned.daily_plans))
        × (length saved_plan.daily_plans ≡ grown w.m 1))
save-find_day_example =
    save-find_day plain no_commute any_visit_info (str "create") (int (pos 1)) (str "2026-05-01")
      (list nil) (str "") planned planned-IsCalendar
