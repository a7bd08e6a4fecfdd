-- ===== src/Tests/Stops.antt =====
-- Sample routes for backend/tools/optimize_day_route.py: the places lie on a line.
use travel_agent_pro.Prelude.{
  ◌≡◌, refl, ℕ, ◌+◌, ◌-◌, ltb, Bool, true, false, Option, none, some, List, [], ◌∷◌, map, String, ℤ,
  pos, ◌⊎◌, arith, ◌+ℤ◌, ◌-ℤ◌,
}
use mathlib.Core.List.{Perm}
use travel_agent_pro.Python.{truthy}
use travel_agent_pro.Python.Text.{codes, strip, is_space}
use travel_agent_pro.Python.Dict.{
  Float, Value, Values, null, int, str, list, dict, Fields, entry, empty, of_values, nil, cons, get,
  contains,
}
use travel_agent_pro.Python.Exec.{Exception, Result, ok, raise, type_error, map_result}
use travel_agent_pro.Python.Builtins.{get_null, digit_value, or_else}
use travel_agent_pro.Harness.Times.{clock_time}
use travel_agent_pro.Evidence.Rules.{in_set}
use travel_agent_pro.Routes.Distance.{Distances, distance_between, haversine_km}
use travel_agent_pro.Routes.Stops.{pop_at, closest, visit, order_from, order_pois}
use travel_agent_pro.Routes.Greedy.{GreedyRoute, order_pois_lem}
use travel_agent_pro.Routes.Tool.{
  Route, validate_location, validate_optional, parse_minutes, duration_hours, ordered_stops,
  with_end, estimate, optimize_day_route,
}
use travel_agent_pro.Routes.Reply.{Fits, optimize_outcome}
use travel_agent_pro.Tests.Samples.{plain}

abbrev shorter : Option ℕ → Option ℕ → Bool
shorter (some x) (some y) = ltb x y
shorter (some x) none = true
shorter none y = false

abbrev longer_by : Option ℕ → Option ℕ → Option ℕ
longer_by (some x) (some y) = some (x + y)
longer_by (some x) none = none
longer_by none y = none

-- The floats are whole numbers, and a distance is the sum of the differences of both coordinates.
abbrev number_of : Value → Result (Option ℕ)
number_of (int (pos n)) = ok (some n)
number_of _ = raise type_error

abbrev apart : Option ℕ → Option ℕ → Option ℕ
apart (some x) (some y) = some ((x - y) + (y - x))
apart (some x) none = none
apart none y = none

abbrev line : Distances
line = record {
  Length = Option ℕ;
  no_length = some 0;
  infinity = none;
  constant = λ n. some n;
  number = number_of;
  sum = longer_by;
  minus = apart;
  times = λ x y. y;
  half = λ x. x;
  square = λ x. x;
  radians = λ x. x;
  sin = λ x. ok x;
  cos = λ x. ok x;
  sqrt = λ x. ok x;
  atan2 = λ y x. y;
  lt = shorter;
}

abbrev length_of : Result (Option ℕ) → Option ℕ
length_of (ok x) = x
length_of (raise e) = none

abbrev between : Fields → Fields → Option ℕ
between a b = length_of (distance_between line a b)

abbrev place : String → ℕ → Fields
place name n = entry "name" (str name) (entry "lat" (int (pos n)) (entry "lng" (int (pos 0)) empty))

abbrev stops : List Fields
stops = place "Gion" 1 ∷ place "Arashiyama" 9 ∷ place "Nishiki" 3 ∷ []

abbrev IsPlace : Fields → Type 0
IsPlace p = (name : String) × (n : ℕ) × (p ≡ place name n)

measured : (a b : Fields) → IsPlace a → IsPlace b → distance_between line a b ≡ ok (between a b)
unfolding distance_between haversine_km get
measured a b (s, n, e) (t, m, f) = rw e (rw f refl)

finite : (a b : Fields) → IsPlace a → IsPlace b → shorter (between a b) none ≡ true
unfolding distance_between haversine_km get
finite a b (s, n, e) (t, m, f) = rw e (rw f refl)

asymmetric : (x y : Option ℕ) → shorter x y ≡ true → shorter y x ≡ false
asymmetric (some x) (some y) h = ground arith
asymmetric (some x) none h = refl
asymmetric none y h = absurd (cc)

comparable :
    (x y z : Option ℕ)
    → shorter y none ≡ true
    → shorter x y ≡ false
    → shorter y z ≡ false
    → shorter x z ≡ false
comparable (some x) (some y) (some z) f h k = ground arith
comparable (some x) (some y) none f h k = absurd (cc)
comparable (some x) none z f h k = absurd (cc)
comparable none y z f h k = refl

order_pois_lem_example :
    (ordered : List Fields) × (total : Option ℕ) × (order_pois line stops none
      ≡ ok (ordered, total))
    × Perm ordered stops
    × GreedyRoute line between none stops ordered total
order_pois_lem_example =
    order_pois_lem line between IsPlace measured finite asymmetric comparable stops none
      (("Gion", 1, refl), (("Arashiyama", 9, refl), (("Nishiki", 3, refl), tt))) tt

-- A minute for each unit of the line, an hour for each stop.
abbrev minutes_of : Option ℕ → String → Result ℤ
minutes_of none mode = ok (pos 0)
minutes_of (some x) mode = ok (pos x)

abbrev hours : List Float → Result ℤ
hours [] = ok (pos 0)
hours (h ∷ hs) = ok (pos 60)

abbrev given : Value
given = list (
    cons (dict (place "Gion" 1))
      (cons (dict (place "Arashiyama" 9)) (cons (dict (place "Nishiki" 3)) nil)))

abbrev reply : Result (Route (Option ℕ))
reply =
    optimize_day_route plain line minutes_of hours given null null (str "09:00") (str "21:00") null

optimize_outcome_example :
    ((x : Exception) × (reply ≡ raise x))
    ⊎ ((r : Route (Option ℕ)) × (reply ≡ ok r)
        × ((vs : Values) × (stops : List Fields) × (given ≡ list vs)
            × (map_result validate_location (of_values vs) ≡ ok stops)
            × Fits plain line minutes_of hours stops r))
optimize_outcome_example =
    optimize_outcome plain line minutes_of hours given null null (str "09:00") (str "21:00") null

abbrev names_in : Result (Route (Option ℕ)) → List Value
names_in (ok r) = map (get_null "name") r.ordered_pois
names_in (raise x) = []

reply_order : names_in reply ≡ str "Gion" ∷ str "Nishiki" ∷ str "Arashiyama" ∷ []
unfolding optimize_day_route in_set or_else truthy parse_minutes clock_time digit_value codes
    validate_location strip is_space get contains validate_optional estimate ordered_stops
    order_pois order_from distance_between haversine_km visit closest pop_at with_end duration_hours
    ◌+ℤ◌ ◌-ℤ◌
reply_order = refl
