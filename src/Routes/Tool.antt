-- ===== src/Routes/Tool.antt =====
-- The tool `optimize_day_route` of backend/tools/optimize_day_route.py.
use travel_agent_pro.Prelude.{
  ℕ, Bool, false, not, ◌&&◌, leb, Option, none, some, List, [], ◌∷◌, ◌++◌, length, String, ℤ, pos,
  ◌+ℤ◌, ◌-ℤ◌, leb_ℤ, if◌then◌else◌,
}
use travel_agent_pro.Python.{truthy}
use travel_agent_pro.Python.Text.{codes}
use travel_agent_pro.Python.Dict.{
  Float, finite, Value, bool, float, str, list, dict, Fields, get_or, contains, of_values,
}
use travel_agent_pro.Python.Exec.{
  Exception, Result, ok, raise, tool_error, and_then, reject_if, map_result,
}
use travel_agent_pro.Python.Builtins.{Builtins, py_float, get_null, or_else}
use travel_agent_pro.Harness.Times.{clock_time}
use travel_agent_pro.Daily.Checks.{is_filled, is_number}
use travel_agent_pro.Evidence.Rules.{in_set}
use travel_agent_pro.Routes.Distance.{Distances, distance_between}
use travel_agent_pro.Routes.Stops.{order_pois}

abbrev pub invalid : Exception
invalid = tool_error "INVALID_VALUE"

abbrev pub modes : List String
modes = "walking" ∷ "transit" ∷ "driving" ∷ []

unfoldable pub validate_location : Value → Result Fields
validate_location (dict l) =
    and_then (reject_if (not (contains "name" l && contains "lat" l && contains "lng" l)) invalid)
      λ _. and_then (reject_if (not (is_filled (get_null "name" l))) invalid) λ _.
        and_then
          (reject_if (not (is_number (get_null "lat" l) && is_number (get_null "lng" l))) invalid)
          λ _. ok l
validate_location _ = raise invalid

-- `_validate_location(v) if v else None`
unfoldable pub validate_optional : Value → Result (Option Fields)
validate_optional v =
    if truthy v then and_then (validate_location v) (λ l. ok (some l)) else ok none

pub data Warning : Type 0 where
  only_one : Warning
  exceeds : ℤ → ℤ → Warning

-- The reply, with the distance before it is rounded.
pub record Route (L : Type 0) : Type 0 where
  pub ordered_pois : List Fields
  pub total_distance : L
  pub travel_minutes : ℤ
  pub activity_minutes : ℤ
  pub total_minutes : ℤ
  pub can_fit_in_day : Bool
  pub warnings : List Warning

-- A mode that passed the check is a text.
abbrev pub mode_text : Value → String
mode_text (str s) = s
mode_text _ = ""

-- `travel` is `int(round(distance / speed * 60))` for a mode, and `activity` is
-- `int(round(sum(hours) * 60))`: both raise for infinities and NaN.
module _ (py : Builtins) (by : Distances) (travel : by.Length → String → Result ℤ)
    (activity : List Float → Result ℤ) where
  unfoldable pub parse_minutes : Value → Result ℕ
  parse_minutes (str s) = elim (clock_time py (codes s)) [ none ↦ raise invalid | some m ↦ ok m ]
  parse_minutes _ = raise invalid

  -- The hours a stop takes: 1.0 where the value is a Boolean.
  hours_of : Value → Result Float
  hours_of (bool b) = ok (finite false 1 (pos 0))
  hours_of v = py_float py v

  unfoldable pub duration_hours : Fields → Result Float
  unfolding hours_of
  duration_hours p = hours_of (get_or "duration_hours" (float (finite false 1 (pos 0))) p)

  -- Fewer than two stops need no order.
  unfoldable pub ordered_stops : List Fields → Option Fields → Result (List Fields × by.Length)
  ordered_stops [] start = ok ([], by.no_length)
  ordered_stops (p ∷ []) start = ok (p ∷ [], by.no_length)
  ordered_stops (p ∷ q ∷ ps) start = order_pois by (p ∷ q ∷ ps) start

  -- The way from the last stop to the end.
  unfoldable pub with_end : Option Fields → List Fields → by.Length → Result by.Length
  with_end none ordered total = ok total
  with_end (some e) [] total = ok total
  with_end (some e) (p ∷ []) total = and_then (distance_between by p e) λ x. ok (by.sum total x)
  with_end (some e) (p ∷ q ∷ ps) total = with_end (some e) (q ∷ ps) total

  abbrev warnings_of : ℕ → ℤ → ℤ → List Warning
  warnings_of count minutes available =
      (if leb 1 count && leb count 1 then only_one ∷ [] else [])
      ++ (if leb_ℤ minutes available then [] else exceeds minutes available ∷ [])

  abbrev pub route_of : ℕ → List Fields → by.Length → ℤ → ℤ → ℤ → Route by.Length
  route_of count ordered total moving staying available = record {
    ordered_pois = ordered;
    total_distance = total;
    travel_minutes = moving;
    activity_minutes = staying;
    total_minutes = moving +ℤ staying;
    can_fit_in_day = leb_ℤ (moving +ℤ staying) available;
    warnings = warnings_of count (moving +ℤ staying) available;
  }

  -- What follows the checks of the arguments.
  unfoldable pub estimate :
      List Fields → Option Fields → Option Fields → String → ℤ → Result (Route by.Length)
  estimate pois start end mode available = and_then (ordered_stops pois start) λ route.
      and_then (with_end end route.0 route.1) λ total. and_then (travel total mode) λ moving.
        and_then (map_result duration_hours route.0) λ hours.
          and_then (activity hours)
            λ staying. ok (route_of (length pois) route.0 total moving staying available)

  unfoldable pub optimize_day_route :
      Value → Value → Value → Value → Value → Value → Result (Route by.Length)
  optimize_day_route (list pois) start_location end_location day_start day_end transport_mode =
      let mode = or_else transport_mode (str "transit") in
      and_then (in_set modes mode) λ known. and_then (reject_if (not known) invalid) λ _.
        and_then (parse_minutes day_start) λ from. and_then (parse_minutes day_end) λ until.
          and_then (reject_if (leb until from) invalid) λ _.
            and_then (map_result validate_location (of_values pois)) λ stops.
              and_then (validate_optional start_location) λ start.
                and_then (validate_optional end_location)
                  λ end. estimate stops start end (mode_text mode) (pos until -ℤ pos from)
  optimize_day_route _ start_location end_location day_start day_end transport_mode = raise invalid
