-- ===== src/Harness/Conflicts.antt =====
-- `_validate_time_conflicts` and `validate_day_conflicts` of backend/harness/validator.py.
use travel_agent_pro.Prelude.{
  ℕ, Bool, true, false, Option, none, some, List, [], ◌∷◌, ◌++◌, ℤ, pos, ◌+ℤ◌, ◌-ℤ◌, ltb_ℤ, keep,
  any, if◌then◌else◌,
}
use travel_agent_pro.Python.{truthy}
use travel_agent_pro.Python.Dict.{Float, Value, bool, int, float}
use travel_agent_pro.Python.Exec.{Result, ok, raise, type_error, and_then}
use travel_agent_pro.Python.Text.{codes, show_ℤ, contains_text}
use travel_agent_pro.Python.Builtins.{Builtins, py_str}
use travel_agent_pro.Plan.Model.{Activity, DayPlan}
use travel_agent_pro.Harness.Times.{time_to_minutes}

-- What the check does with floats and texts, kept apart from its structure.
pub record Measures : Type 0 where
  -- `int(text)`, none for its ValueError
  pub int_of : List ℕ → Option ℤ
  -- `_estimated_commute_min`: minutes from the great-circle distance of two coordinates
  pub estimated_commute_min : Activity → Activity → ℤ
  -- `end + travel > start` for a float `travel`
  pub float_overruns : ℤ → Float → ℤ → Bool

-- What one message of the check says: the day, the two activities, the travel time and the gap.
pub record Conflict : Type 0 where
  pub day : ℤ
  pub previous : Activity
  pub current : Activity
  pub travel : Value
  pub gap : ℤ

module _ (py : Builtins) (by : Measures) where
  -- `prev_end + travel > curr_start`; adding a text, a list, a dict or None is a TypeError.
  overruns : ℤ → Value → ℤ → Result Bool
  overruns prev_end (int travel) start = ok (ltb_ℤ start (prev_end +ℤ travel))
  overruns prev_end (bool true) start = ok (ltb_ℤ start (prev_end +ℤ pos 1))
  overruns prev_end (bool false) start = ok (ltb_ℤ start prev_end)
  overruns prev_end (float x) start = ok (by.float_overruns prev_end x start)
  overruns prev_end _ start = raise type_error

  -- No travel time, or 0, is replaced by an estimate.
  travel_time : Activity → Activity → Value
  travel_time previous current =
      if truthy current.transport_duration_min
      then current.transport_duration_min
      else int (by.estimated_commute_min previous current)

  -- The check of two neighbours; a time that cannot be read skips it.
  pair_conflicts : ℤ → Activity → Activity → Result (List Conflict)
  pair_conflicts day previous current = elim (time_to_minutes py by.int_of previous.end_time) [
    | none ↦ ok []
    | some prev_end ↦ elim (time_to_minutes py by.int_of current.start_time) [
      | none ↦ ok []
      | some start ↦
          (and_then (overruns prev_end (travel_time previous current) start) λ late. ok (
            if late
            then (record {
              day = day;
              previous = previous;
              current = current;
              travel = travel_time previous current;
              gap = start -ℤ prev_end;
            })
              ∷ []
            else []))
    ]
  ]

  unfoldable pub activity_conflicts : ℤ → List Activity → Result (List Conflict)
  unfolding pair_conflicts overruns travel_time ◌+ℤ◌ ◌-ℤ◌
  activity_conflicts day [] = ok []
  activity_conflicts day (a ∷ []) = ok []
  activity_conflicts day (a ∷ b ∷ rest) =
      let later = activity_conflicts day (b ∷ rest) in
      and_then (pair_conflicts day a b) λ here. and_then later λ others. ok (here ++ others)

  unfoldable pub time_conflicts : List DayPlan → Result (List Conflict)
  unfolding activity_conflicts
  time_conflicts [] = ok []
  time_conflicts (d ∷ ds) =
      let later = time_conflicts ds in
      and_then (activity_conflicts d.day d.activities)
        λ here. and_then later λ others. ok (here ++ others)

  -- A travel time in a message.
  shown_travel : Value → List ℕ
  shown_travel (int i) = show_ℤ i
  shown_travel v = codes (py_str py v)

  -- The message, by code points.
  message : Conflict → List ℕ
  message c =
      codes "Day "
      ++ (show_ℤ c.day
          ++ (codes ": "
              ++ (codes c.previous.name
                  ++ (codes "→"
                      ++ (codes c.current.name
                          ++ (codes " 时间冲突（"
                              ++ (codes c.previous.name
                                  ++ (codes " "
                                      ++ (codes c.previous.end_time
                                          ++ (codes " 结束，交通需 "
                                              ++ (shown_travel c.travel
                                                  ++ (codes "min，但 "
                                                      ++ (codes c.current.name
                                                          ++ (codes " "
                                                            ++ (codes c.current.start_time
                                                            ++ (codes " 开始，间隔仅 "
                                                            ++ (show_ℤ c.gap
                                                            ++ codes "min）")))))))))))))))))

  unfoldable pub names_day : Conflict → ℤ → Bool
  unfolding message shown_travel
  names_day c d = contains_text (codes "Day " ++ (show_ℤ d ++ codes ":")) (message c)

  -- The conflicts whose message holds the text "Day {d}:" of one of the days.
  unfoldable pub validate_day_conflicts : List DayPlan → List ℤ → Result (List Conflict)
  validate_day_conflicts days numbers =
      and_then (time_conflicts days) λ found. ok (keep (λ c. any (names_day c) numbers) found)
