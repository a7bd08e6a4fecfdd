-- ===== src/Tests/Samples.antt =====
-- Sample values of the models of backend/state/models.py and of what they leave to the interpreter.
use travel_agent_pro.Prelude.{◌≡◌, refl, pos, none, some, [], ◌∷◌, false}
use travel_agent_pro.Python.Dict.{Value, str}
use travel_agent_pro.Python.Exec.{Result, ok, raise, value_error, type_error}
use travel_agent_pro.Python.Builtins.{Builtins}
use travel_agent_pro.Plan.Model.{TravelPlanState, DateRange, DayPlan, new_plan}
use travel_agent_pro.Plan.Days.{total_days}
use travel_agent_pro.Dates.{fromisoformat}
use travel_agent_pro.Harness.Conflicts.{Measures}

-- An interpreter that converts no text.
abbrev pub plain : Builtins
plain = record {
  shown = λ v. "";
  parsed_int = λ v. raise value_error;
  parsed_float = λ v. raise value_error;
  lowered = λ s. s;
  dict_from = λ v. raise type_error;
  characters = λ s. [];
  other_digit = λ c. none;
}

-- No commute is estimated, and no time is a fraction.
abbrev pub no_commute : Measures
no_commute = record {
  int_of = λ cs. none;
  estimated_commute_min = λ a b. pos 0;
  float_overruns = λ a x b. false;
}

abbrev pub any_visit_info : Value → Result (Unit {0})
any_visit_info v = ok tt

abbrev pub three_days : DateRange
three_days = record { start = str "2026-05-01"; finish = str "2026-05-03" }

-- A new plan with a destination and dates.
abbrev pub trip : TravelPlanState
trip = record (new_plan "sess_0123456789ab" "2026-04-01T09:00:00") {
  destination = str "Kyoto";
  dates = some three_days;
}

abbrev pub first_day : DayPlan
first_day = record { day = pos 1; date = "2026-05-01"; activities = []; tips = "" }

abbrev pub second_day : DayPlan
second_day = record { day = pos 2; date = "2026-05-02"; activities = []; tips = "" }

-- The trip with a plan for its second day.
abbrev pub planned : TravelPlanState
planned = record trip { phase = pos 3; daily_plans = second_day ∷ [] }

pub three_days_total : total_days three_days ≡ ok (pos 3)
unfolding total_days fromisoformat
three_days_total = refl

pub same_some : (d : DateRange) → some three_days ≡ some d → d ≡ three_days
same_some d e = cc
