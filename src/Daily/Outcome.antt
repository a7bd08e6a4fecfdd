-- ===== src/Daily/Outcome.antt =====
-- The outcomes of a call of `save_day_plan` of backend/tools/plan_tools/daily_plans.py.
use travel_agent_pro.Prelude.{
  ◌≡◌, ◌≢◌, refl, ap, Bool, true, false, List, [], ◌∷◌, ℤ, pos, ◌≤ℤ◌, ◌⊎◌, inl, inr, length, String,
  arith,
}
use travel_agent_pro.Python.Dict.{Value}
use travel_agent_pro.Python.Exec.{Exception, Result, ok, raise, Result-cases}
use travel_agent_pro.Python.Builtins.{Builtins}
use travel_agent_pro.Plan.Model.{DayPlan, TravelPlanState}
use travel_agent_pro.Plan.Decode.{day_plan_from_dict}
use travel_agent_pro.Harness.Conflicts.{Measures}
use travel_agent_pro.Daily.Checks.{
  Mode, validate_mode, validate_day, validate_day_in_range, validate_date_format,
  validate_activities,
}
use travel_agent_pro.Daily.Tools.{SaveReport, day_exists, day_payload, save_day_plan}
use travel_agent_pro.Daily.Order.{IsCalendar}
use travel_agent_pro.Daily.Saves.{
  placed, wants_day, DecodesTo-payload, state-report, write_fails, write_places,
}

-- A day was written: one decoded from the arguments, of their number, which was new or there as the
-- mode wants it, and it stands in its place.
pub record Saved (mode day : Value) (s t : TravelPlanState) : Type 0 where
  pub m : Mode
  pub d : DayPlan
  pub mode_is : validate_mode mode ≡ ok m
  pub day_is : validate_day day ≡ ok d.day
  pub low : pos 1 ≤ℤ d.day
  pub found : day_exists d.day s.daily_plans ≡ wants_day m
  pub state : t ≡ record s { daily_plans = placed m d s.daily_plans }

validate_day-low : (v : Value) (n : ℤ) → validate_day v ≡ ok n → pos 1 ≤ℤ n
unfolding validate_day
validate_day-low v n e = ground arith

same_or_not : (a b : Bool) → (a ≡ b) ⊎ (a ≢ b)
same_or_not true true = inl refl
same_or_not true false = inr (λ e. cc e)
same_or_not false true = inr (λ e. cc e)
same_or_not false false = inl refl

module _ (py : Builtins) (by : Measures) (validate_visit_info : Value → Result (Unit {0}))
    (mode day date activities tips : Value) (s : TravelPlanState)
    (h : IsCalendar s.daily_plans) where
  abbrev saved : Result SaveReport × TravelPlanState
  saved = save_day_plan py by validate_visit_info mode day date activities tips s

  -- All that is checked before the days are looked at has passed.
  module _ (m : Mode) (n : ℤ) (text : String) (items : List Value) (em : validate_mode mode ≡ ok m)
      (en : validate_day day ≡ ok n) (er : validate_day_in_range s.dates n ≡ ok tt)
      (et : validate_date_format py validate_visit_info date ≡ ok text)
      (ei : validate_activities py validate_visit_info activities ≡ ok items) where
    abbrev payload : Value
    payload = day_payload py by validate_visit_info n text tips items

    number : (d : DayPlan) → day_plan_from_dict py payload ≡ ok d → d.day ≡ n
    number = DecodesTo-payload py by validate_visit_info n text tips items

    -- Where the number is not as the mode wants it, nothing is written.
    outcome_refused : (b : Bool) → day_exists n s.daily_plans ≡ b → b ≢ wants_day m → saved.1 ≡ s
    unfolding save_day_plan
    outcome_refused b e differs = ground (arith, em, en, er, et, ei, e)

    outcome_failed :
        (x : Exception)
        → day_plan_from_dict py payload ≡ raise x
        → day_exists n s.daily_plans ≡ wants_day m
        → saved ≡ (raise x, s)
    unfolding save_day_plan
    outcome_failed x e there = ground (
      arith,
      em,
      en,
      er,
      et,
      ei,
      there,
      write_fails py by validate_visit_info n payload s number m x e there,
    )

    outcome_state :
        (d : DayPlan)
        → day_plan_from_dict py payload ≡ ok d
        → day_exists n s.daily_plans ≡ wants_day m
        → saved.1 ≡ record s { daily_plans = placed m d s.daily_plans }
    unfolding save_day_plan
    outcome_state d e there = ground (
      arith,
      em,
      en,
      er,
      et,
      ei,
      there,
      write_places py by validate_visit_info n payload s number m d e h (validate_day-low day n en)
          there,
      state-report py by validate_visit_info (length s.daily_plans) (n ∷ [])
          (record s { daily_plans = placed m d s.daily_plans }),
    )

    outcome_written :
        (d : DayPlan)
        → day_plan_from_dict py payload ≡ ok d
        → day_exists n s.daily_plans ≡ wants_day m
        → Saved mode day s saved.1
    outcome_written d e there = record {
      m = m;
      d = d;
      mode_is = em;
      day_is = rw (number d e) en;
      low = rw (number d e) (validate_day-low day n en);
      found = rw (number d e) there;
      state = outcome_state d e there;
    }

    outcome_passed : (saved.1 ≡ s) ⊎ Saved mode day s saved.1
    outcome_passed = elim (same_or_not (day_exists n s.daily_plans) (wants_day m)) [
      | inr differs ↦ inl (outcome_refused (day_exists n s.daily_plans) refl differs)
      | inl there ↦ elim (Result-cases (day_plan_from_dict py payload)) [
        | inr (x, e) ↦
            inl (ap (λ (r : Result SaveReport × TravelPlanState). r.1) (outcome_failed x e there))
        | inl (d, e) ↦ inr (outcome_written d e there)
      ]
    ]

  -- A call leaves the plan as it was, or it has written one day.
  pub save_outcome : (saved.1 ≡ s) ⊎ Saved mode day s saved.1
  unfolding save_day_plan
  save_outcome = elim (Result-cases (validate_mode mode)) [
    | inr (x, e) ↦ inl (ground (arith, e))
    | inl (m, em) ↦ elim (Result-cases (validate_day day)) [
      | inr (x, e) ↦ inl (ground (arith, em, e))
      | inl (n, en) ↦ elim (Result-cases (validate_day_in_range s.dates n)) [
        | inr (x, e) ↦ inl (ground (arith, em, en, e))
        | inl (u, er) ↦ elim (Result-cases (validate_date_format py validate_visit_info date)) [
          | inr (x, e) ↦ inl (ground (arith, em, en, er, e))
          | inl (text, et) ↦
              elim (Result-cases (validate_activities py validate_visit_info activities)) [
                | inr (x, e) ↦ inl (ground (arith, em, en, er, et, e))
                | inl (items, ei) ↦ outcome_passed m n text items em en er et ei
              ]
        ]
      ]
    ]
  ]
