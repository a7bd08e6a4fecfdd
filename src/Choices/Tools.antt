-- ===== src/Choices/Tools.antt =====
-- The tools of backend/tools/plan_tools/phase2_tools.py that replace a list or record a choice.
use travel_agent_pro.Prelude.{ℕ, Bool, true, false, not, all, Option, none, some, length}
use travel_agent_pro.Python.Dict.{Value, null, str, list, dict, of_values}
use travel_agent_pro.Python.Exec.{
  Result, ok, raise, and_then, reject_if, Exec, pure, lift, gets, ◌>>=◌, ◌>>◌,
}
use travel_agent_pro.Python.Builtins.{Builtins, iterate, py_dict}
use travel_agent_pro.Plan.Model.{TravelPlanState, Accommodation}
use travel_agent_pro.Plan.Encode.{accommodation_to_dict}
use travel_agent_pro.Daily.Checks.{is_filled}
use travel_agent_pro.Skeletons.Days.{invalid}
use travel_agent_pro.Skeletons.Tools.{stripped}
use travel_agent_pro.Writers.Single.{
  write_candidate_pool, write_shortlist, write_transport_options, write_accommodation_options,
  write_risks, write_alternatives, write_selected_transport, write_accommodation,
}
use travel_agent_pro.Writers.Brief.{write_trip_brief}

abbrev is_dict : Value → Bool
is_dict (dict d) = true
is_dict _ = false

-- `isinstance(v, list)` and each item a dict.
unfoldable pub require_dicts : Value → Result (Unit {0})
require_dicts (list vs) = reject_if (not (all is_dict (of_values vs))) invalid
require_dicts _ = raise invalid

unfoldable pub require_dict : Value → Result (Unit {0})
require_dict v = reject_if (not (is_dict v)) invalid

-- `len` of what can be iterated over.
unfoldable pub py_len : Builtins → Value → Result ℕ
py_len py v = and_then (iterate py v) λ items. ok (length items)

-- The reply of a tool that replaces a list: how many items are written, and how many there were.
abbrev pub Counts : Type 0
Counts = ℕ × ℕ

module _ (py : Builtins) where
  unfoldable pub set_candidate_pool : Value → Exec TravelPlanState Counts
  set_candidate_pool pool = do
    lift (require_dicts pool)
    old ← gets (λ plan. plan.candidate_pool)
    before ← lift (py_len py old)
    write_candidate_pool pool
    count ← lift (py_len py pool)
    pure (count, before)

  unfoldable pub set_shortlist : Value → Exec TravelPlanState Counts
  set_shortlist items = do
    lift (require_dicts items)
    old ← gets (λ plan. plan.shortlist)
    before ← lift (py_len py old)
    write_shortlist items
    count ← lift (py_len py items)
    pure (count, before)

  unfoldable pub set_transport_options : Value → Exec TravelPlanState Counts
  set_transport_options options = do
    lift (require_dicts options)
    old ← gets (λ plan. plan.transport_options)
    before ← lift (py_len py old)
    write_transport_options options
    count ← lift (py_len py options)
    pure (count, before)

  unfoldable pub set_accommodation_options : Value → Exec TravelPlanState Counts
  set_accommodation_options options = do
    lift (require_dicts options)
    old ← gets (λ plan. plan.accommodation_options)
    before ← lift (py_len py old)
    write_accommodation_options options
    count ← lift (py_len py options)
    pure (count, before)

  unfoldable pub set_risks : Value → Exec TravelPlanState Counts
  set_risks items = do
    lift (require_dicts items)
    old ← gets (λ plan. plan.risks)
    before ← lift (py_len py old)
    write_risks items
    count ← lift (py_len py items)
    pure (count, before)

  unfoldable pub set_alternatives : Value → Exec TravelPlanState Counts
  set_alternatives items = do
    lift (require_dicts items)
    old ← gets (λ plan. plan.alternatives)
    before ← lift (py_len py old)
    write_alternatives items
    count ← lift (py_len py items)
    pure (count, before)

  -- The reply: the value before.
  unfoldable pub select_transport : Value → Exec TravelPlanState Value
  select_transport choice = do
    lift (require_dict choice)
    prev ← gets (λ plan. plan.selected_transport)
    write_selected_transport choice
    pure prev

  -- The reply: the brief before, as a dict.
  unfoldable pub set_trip_brief : Value → Exec TravelPlanState Value
  set_trip_brief given = do
    lift (require_dict given)
    old ← gets (λ plan. plan.trip_brief)
    prev ← lift (py_dict py old)
    write_trip_brief py given
    pure (dict prev)

abbrev dict_or_null : Option Accommodation → Value
dict_or_null none = null
dict_or_null (some a) = accommodation_to_dict a

-- The reply: the accommodation before.
unfoldable pub set_accommodation : Value → Value → Exec TravelPlanState Value
set_accommodation area hotel = do
  lift (reject_if (not (is_filled area)) invalid)
  prev ← gets (λ plan. plan.accommodation)
  write_accommodation (str (stripped area)) hotel
  pure (dict_or_null prev)
