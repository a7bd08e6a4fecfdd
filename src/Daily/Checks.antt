-- ===== src/Daily/Checks.antt =====
-- The checks of backend/tools/plan_tools/daily_plans.py before a write.
use travel_agent_pro.Prelude.{
  ℕ, zero, suc, Bool, true, false, not, ◌&&◌, Option, none, some, List, [], ◌∷◌, String, str_eq,
  ◌==◌, ℤ, pos, negsuc, ltb_ℤ, eq_ℤ, any, all, if◌then◌else◌,
}
use travel_agent_pro.Python.Dict.{
  Value, null, bool, int, float, str, list, dict, contains, of_values,
}
use travel_agent_pro.Python.Exec.{
  Exception, Result, ok, raise, type_error, tool_error, and_then, reject_if,
}
use travel_agent_pro.Python.Text.{codes, strip}
use travel_agent_pro.Python.Builtins.{Builtins, get_null, digit_value}
use travel_agent_pro.Plan.Model.{DateRange}
use travel_agent_pro.Plan.Days.{total_days}
use travel_agent_pro.Harness.Times.{clock_time}

abbrev invalid_value : Exception
invalid_value = tool_error "INVALID_VALUE"

pub data Mode : Type 0 where
  create replace_existing : Mode

-- A list or a dict cannot be looked up in a set.
unfoldable pub validate_mode : Value → Result Mode
validate_mode (str s) =
    if str_eq s "create"
    then ok create
    else if str_eq s "replace_existing"
    then ok replace_existing
    else raise invalid_value
validate_mode (list vs) = raise type_error
validate_mode (dict d) = raise type_error
validate_mode _ = raise invalid_value

-- A whole number from 1 on; a Boolean is none.
unfoldable pub validate_day : Value → Result ℤ
validate_day (int i) = if ltb_ℤ i (pos 1) then raise invalid_value else ok i
validate_day _ = raise invalid_value

unfoldable pub validate_day_in_range : Option DateRange → ℤ → Result (Unit {0})
validate_day_in_range none day = ok tt
validate_day_in_range (some d) day =
    and_then (total_days d) λ n. reject_if (ltb_ℤ n day) invalid_value

-- `seen` holds the numbers before.
unfoldable pub validate_unique : List ℤ → List ℤ → Result (Unit {0})
validate_unique seen [] = ok tt
validate_unique seen (d ∷ ds) =
    let rest = validate_unique (d ∷ seen) ds in
    if any (eq_ℤ d) seen then raise invalid_value else rest

abbrev count_from : ℕ → ℕ → List ℤ
count_from k zero = []
count_from k (suc n) = pos k ∷ count_from (suc k) n

-- `range(1, n + 1)`
abbrev pub day_range : ℤ → List ℤ
day_range (pos n) = count_from 1 n
day_range (negsuc n) = []

unfoldable pub validate_coverage : Option DateRange → List ℤ → Result (Unit {0})
validate_coverage none numbers = ok tt
validate_coverage (some d) numbers = and_then (total_days d) λ n.
    if any (λ k. not (any (eq_ℤ k) numbers)) (day_range n)
    then raise (tool_error "INCOMPLETE_DAILY_PLANS")
    else reject_if (any (λ k. not (any (eq_ℤ k) (day_range n))) numbers) invalid_value

abbrev is_some_digit : Option ℕ → Bool
is_some_digit none = false
is_some_digit (some d) = true

abbrev required_activity_fields : List String
required_activity_fields =
    "name" ∷ "location" ∷ "start_time" ∷ "end_time" ∷ "category" ∷ "cost" ∷ []

-- `isinstance(v, (int, float))` and no Boolean.
abbrev pub is_number : Value → Bool
is_number (int i) = true
is_number (float x) = true
is_number _ = false

abbrev is_bool : Value → Bool
is_bool (bool b) = true
is_bool _ = false

-- A text with more than white space in it.
abbrev pub is_filled : Value → Bool
is_filled (str s) = not (str_eq (strip s) "")
is_filled _ = false

-- `validate_visit_info` of evidence.py is a parameter: the tools hand it the value as it is.
module _ (py : Builtins) (validate_visit_info : Value → Result (Unit {0})) where
  date_pattern : List ℕ → Bool
  date_pattern (a ∷ b ∷ c ∷ d ∷ s ∷ m ∷ n ∷ t ∷ e ∷ f ∷ []) =
      all (λ x. is_some_digit (digit_value py x)) (a ∷ b ∷ c ∷ d ∷ m ∷ n ∷ e ∷ f ∷ [])
      && (s == b'-' && t == b'-')
  date_pattern _ = false

  -- `re.fullmatch(r"\d{4}-\d{2}-\d{2}", date)`
  unfoldable pub validate_date_format : Value → Result String
  unfolding date_pattern
  validate_date_format (str s) = if date_pattern (codes s) then ok s else raise invalid_value
  validate_date_format _ = raise invalid_value

  is_clock : Value → Bool
  is_clock (str s) = is_some_digit (clock_time py (codes s))
  is_clock _ = false

  check_location : Value → Result (Unit {0})
  check_location (dict l) =
      and_then
        (reject_if (not (all (λ k. contains k l) ("name" ∷ "lat" ∷ "lng" ∷ []))) invalid_value)
        λ _. and_then (reject_if (not (is_filled (get_null "name" l))) invalid_value) λ _.
          reject_if (not (is_number (get_null "lat" l) && is_number (get_null "lng" l)))
            invalid_value
  check_location _ = raise invalid_value

  -- `activity.get("visit_info") is not None`
  check_visit_info : Value → Result (Unit {0})
  check_visit_info null = ok tt
  check_visit_info v = validate_visit_info v

  check_activity : Value → Result (Unit {0})
  unfolding check_location is_clock check_visit_info
  check_activity (dict a) =
      and_then (reject_if (not (all (λ k. contains k a) required_activity_fields)) invalid_value)
        λ _. and_then (check_location (get_null "location" a)) λ _.
          and_then
            (reject_if
              (not (is_clock (get_null "start_time" a) && is_clock (get_null "end_time" a)))
              invalid_value)
            λ _. and_then (reject_if (not (is_number (get_null "cost" a))) invalid_value) λ _.
              and_then
                (reject_if
                  (contains "transport_estimated" a
                    && not (is_bool (get_null "transport_estimated" a)))
                  invalid_value)
                λ _. check_visit_info (get_null "visit_info" a)
  check_activity _ = raise invalid_value

  check_activities : List Value → Result (Unit {0})
  unfolding check_activity
  check_activities [] = ok tt
  check_activities (a ∷ rest) =
      let later = check_activities rest in and_then (check_activity a) λ _. later

  unfoldable pub validate_activities : Value → Result (List Value)
  unfolding check_activities
  validate_activities (list vs) = and_then (check_activities (of_values vs)) λ _. ok (of_values vs)
  validate_activities _ = raise invalid_value
