-- ===== src/Daily/Saves.antt =====
-- What `save_day_plan` of backend/tools/plan_tools/daily_plans.py does to the days of a plan.
use travel_agent_pro.Prelude.{
  ◌≡◌, refl, Bool, true, false, List, [], ◌∷◌, ℤ, pos, ◌≤ℤ◌, ℕ, String, arith,
}
use travel_agent_pro.Python.Dict.{Value, get}
use travel_agent_pro.Python.Exec.{Result, ok, raise, Exception}
use travel_agent_pro.Python.Builtins.{Builtins}
use travel_agent_pro.Plan.Model.{DayPlan, TravelPlanState}
use travel_agent_pro.Plan.Decode.{day_plan_from_dict}
use travel_agent_pro.Harness.Conflicts.{Measures}
use travel_agent_pro.Daily.Writers.{
  insert_day, put_day, append_one_day_plan, replaced, replace_one_day_plan,
}
use travel_agent_pro.Daily.Checks.{Mode, create, replace_existing}
use travel_agent_pro.Daily.Tools.{day_exists, report, day_payload, write_day}
use travel_agent_pro.Daily.Order.{IsCalendar, Above-put_day, sort_days-append, sort_days-sorted}

-- The days after a day was created or replaced.
abbrev pub placed : Mode → DayPlan → List DayPlan → List DayPlan
placed create d days = insert_day d days
placed replace_existing d days = put_day d days

-- Whether the mode wants the number to be there.
abbrev pub wants_day : Mode → Bool
wants_day create = false
wants_day replace_existing = true

-- The number of a day that is decoded from a payload.
abbrev pub DecodesTo : Builtins → Value → ℤ → Type 0
DecodesTo py payload n = (d : DayPlan) → day_plan_from_dict py payload ≡ ok d → d.day ≡ n

-- With a payload of its number, `replaced` puts the decoded day there.
replaced-put_day :
    (py : Builtins) (payload : Value) (n : ℤ) (d : DayPlan)
    → day_plan_from_dict py payload ≡ ok d
    → d.day ≡ n
    → (days : List DayPlan) → replaced py payload n days ≡ ok (put_day d days)
unfolding replaced put_day
replaced-put_day py payload n d e same [] = refl
replaced-put_day py payload n d e same (x ∷ xs) =
    ground (arith, replaced-put_day py payload n d e same xs)

-- A payload that cannot be decoded ends the replacement of a day that is there.
replaced-raise :
    (py : Builtins) (payload : Value) (n : ℤ) (x : Exception)
    → day_plan_from_dict py payload ≡ raise x
    → (days : List DayPlan) → day_exists n days ≡ true
    → replaced py payload n days ≡ raise x
unfolding replaced day_exists
replaced-raise py payload n x e [] there = cc
replaced-raise py payload n x e (d ∷ ds) there = ground (arith, replaced-raise py payload n x e ds)

module _ (py : Builtins) (by : Measures) (validate_visit_info : Value → Result (Unit {0})) where
  pub DecodesTo-payload :
      (n : ℤ) (date : String) (tips : Value) (items : List Value)
      → DecodesTo py (day_payload py by validate_visit_info n date tips items) n
  unfolding day_payload day_plan_from_dict get
  DecodesTo-payload n date tips items d e = ground (arith, e)

  pub state-report :
      (k : ℕ) (numbers : List ℤ) (s : TravelPlanState)
      → (report py by validate_visit_info k numbers s).1 ≡ s
  unfolding report
  state-report k numbers s = ground arith

  module _ (n : ℤ) (payload : Value) (s : TravelPlanState) (number : DecodesTo py payload n) where
    abbrev pub written : Mode → Result (Unit {0}) × TravelPlanState
    written m = write_day py by validate_visit_info m n payload s

    pub write_fails :
        (m : Mode) (x : Exception)
        → day_plan_from_dict py payload ≡ raise x
        → day_exists n s.daily_plans ≡ wants_day m
        → written m ≡ (raise x, s)
    unfolding write_day append_one_day_plan replace_one_day_plan
    write_fails create x e there = ground (arith, e)
    write_fails replace_existing x e there =
        ground (arith, replaced-raise py payload n x e s.daily_plans there)

    pub write_places :
        (m : Mode) (d : DayPlan)
        → day_plan_from_dict py payload ≡ ok d
        → IsCalendar s.daily_plans
        → pos 1 ≤ℤ n
        → day_exists n s.daily_plans ≡ wants_day m
        → written m ≡ (ok tt, record s { daily_plans = placed m d s.daily_plans })
    unfolding write_day append_one_day_plan replace_one_day_plan
    write_places create d e sorted low there =
        ground (arith, e, number d e, sort_days-append (pos 0) d s.daily_plans sorted)
    write_places replace_existing d e sorted low there = ground (
      arith,
      replaced-put_day py payload n d e (number d e) s.daily_plans,
      sort_days-sorted (pos 0) (put_day d s.daily_plans)
          (Above-put_day (pos 0) d s.daily_plans sorted),
    )
