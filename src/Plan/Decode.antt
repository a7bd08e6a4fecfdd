-- ===== src/Plan/Decode.antt =====
-- The `from_dict` class methods of backend/state/models.py, except the one of the whole state.
use travel_agent_pro.Prelude.{
  false, Option, none, some, List, [], ◌∷◌, map, String, pos, if◌then◌else◌,
}
use travel_agent_pro.Python.{truthy}
use travel_agent_pro.Python.Dict.{
  Float, finite, Value, null, bool, int, str, list, dict, nil, Fields, get_or, of_values,
}
use travel_agent_pro.Python.Exec.{Result, ok, raise, type_error, and_then, caught, map_result}
use travel_agent_pro.Python.Text.{strip, lower, one_of}
use travel_agent_pro.Python.Builtins.{
  Builtins, py_str, py_int, py_float, or_else, get_null, subscript, iterate, as_dict,
}
use travel_agent_pro.Plan.Model.{
  EvidenceRecord, VisitInfo, ExcludedCandidate, Location, DateRange, Travelers, Budget,
  Accommodation, Activity, DayPlan, Constraint, Preference, BacktrackEvent,
}

abbrev pub evidence_source_types : List String
evidence_source_types = "official" ∷ "web" ∷ "xiaohongshu" ∷ "user" ∷ []

abbrev pub evidence_claim_types : List String
evidence_claim_types = "fact" ∷ "experience" ∷ "warning" ∷ []

abbrev pub evidence_confidence_levels : List String
evidence_confidence_levels = "confirmed" ∷ "unverified" ∷ []

abbrev pub visit_roles : List String
visit_roles = "anchor" ∷ "normal" ∷ "backup" ∷ []

abbrev pub excluded_categories : List String
excluded_categories =
    "distance" ∷ "schedule" ∷ "weather" ∷ "preference" ∷ "duplicate" ∷ "evidence" ∷ []

abbrev pub zero_float : Float
zero_float = finite false 0 (pos 0)

module _ (py : Builtins) where
  unfoldable pub normalize_enum : Value → List String → String → String
  normalize_enum (str s) allowed fallback =
      let text = lower py.lowered (strip s) in if one_of allowed text then text else fallback
  normalize_enum _ allowed fallback = fallback

  -- `str(d.get(k, "") or "")`
  abbrev pub text_at : String → Fields → String
  text_at k d = py_str py (or_else (get_or k (str "") d) (str ""))

  -- `d.get(k) or None`
  abbrev pub value_at : String → Fields → Value
  value_at k d = or_else (get_null k d) null

  unfoldable pub evidence_from_dict : Value → EvidenceRecord
  evidence_from_dict (dict d) = record {
    source_type = normalize_enum (get_null "source_type" d) evidence_source_types "web";
    title = text_at "title" d;
    summary = text_at "summary" d;
    claim_type = normalize_enum (get_null "claim_type" d) evidence_claim_types "experience";
    confidence = normalize_enum (get_null "confidence" d) evidence_confidence_levels "unverified";
    source_url = value_at "source_url" d;
    observed_at = value_at "observed_at" d;
    source_ref = value_at "source_ref" d;
  }
  evidence_from_dict v = record {
    source_type = "web";
    title = "";
    summary = py_str py (or_else v (str ""));
    claim_type = "experience";
    confidence = "unverified";
    source_url = null;
    observed_at = null;
    source_ref = null;
  }

  -- `[… for e in v] if isinstance(v, list) else []`
  evidence_list : Value → List EvidenceRecord
  evidence_list (list vs) = map evidence_from_dict (of_values vs)
  evidence_list _ = []

  unfoldable pub visit_info_from_dict : Value → VisitInfo
  unfolding evidence_list
  visit_info_from_dict (dict d) = record {
    role = normalize_enum (get_null "role" d) visit_roles "normal";
    recommendation_reason = text_at "recommendation_reason" d;
    needs_recheck = truthy (get_or "needs_recheck" (bool false) d);
    evidence = evidence_list (get_null "evidence" d);
  }
  visit_info_from_dict _ = record {
    role = "normal";
    recommendation_reason = "";
    needs_recheck = false;
    evidence = [];
  }

  unfoldable pub excluded_from_dict : Value → ExcludedCandidate
  excluded_from_dict (dict d) = record {
    name = text_at "name" d;
    reason = text_at "reason" d;
    category = normalize_enum (get_null "category" d) excluded_categories "preference";
    reconsider_when = value_at "reconsider_when" d;
    source_candidate_id = value_at "source_candidate_id" d;
  }
  excluded_from_dict v = record {
    name = py_str py (or_else v (str ""));
    reason = "";
    category = "preference";
    reconsider_when = null;
    source_candidate_id = null;
  }

  -- `try: float(d.get(k, 0) or 0)`; the float of the integer 0 is 0.0.
  coordinate : String → Fields → Result Float
  coordinate k d =
      let v = get_or k (int (pos 0)) d in
      if truthy v then caught (py_float py v) zero_float else ok zero_float

  abbrev named_place : String → Location
  named_place name = record { lat = zero_float; lng = zero_float; name = name }

  unfoldable pub location_from_dict : Value → Result Location
  unfolding coordinate
  location_from_dict null = ok (named_place "")
  location_from_dict (str s) = ok (named_place s)
  location_from_dict (dict d) = and_then (coordinate "lat" d) λ x.
      and_then (coordinate "lng" d) λ y.
        let name = or_else (or_else (get_null "name" d) (get_null "address" d)) (str "") in
        ok (record { lat = x; lng = y; name = py_str py name })
  location_from_dict v = ok (named_place (py.shown v))

  unfoldable pub optional_visit_info : Value → Option VisitInfo
  optional_visit_info (dict d) = some (visit_info_from_dict (dict d))
  optional_visit_info _ = none

  unfoldable pub activity_from_dict : Value → Result Activity
  activity_from_dict (dict d) = and_then (location_from_dict (get_null "location" d)) λ place.
      ok (record {
        name = py_str py (get_or "name" (str "") d);
        location = place;
        start_time = py_str py (get_or "start_time" (str "") d);
        end_time = py_str py (get_or "end_time" (str "") d);
        category = py_str py (or_else (get_null "category" d) (str "activity"));
        cost = or_else (get_or "cost" (int (pos 0)) d) (int (pos 0));
        transport_from_prev = get_null "transport_from_prev" d;
        transport_duration_min =
            or_else (get_or "transport_duration_min" (int (pos 0)) d) (int (pos 0));
        transport_estimated = truthy (get_or "transport_estimated" (bool false) d);
        notes = text_at "notes" d;
        visit_info = optional_visit_info (get_null "visit_info" d);
      })
  activity_from_dict _ = raise type_error

  unfoldable pub day_plan_from_dict : Value → Result DayPlan
  day_plan_from_dict (dict d) =
      and_then (caught (py_int py (get_or "day" (int (pos 0)) d)) (pos 0)) λ n.
        and_then (iterate py (or_else (get_or "activities" (list nil) d) (list nil))) λ items.
          and_then (map_result activity_from_dict items) λ activities. ok (record {
            day = n;
            date = py_str py (get_or "date" (str "") d);
            activities = activities;
            tips =
                py_str py (
                  or_else (or_else (get_or "tips" (str "") d) (get_or "notes" (str "") d))
                    (str ""));
          })
  day_plan_from_dict _ = raise type_error

  -- `key if key is not None else ""`, as a text.
  key_text : Value → String
  key_text null = ""
  key_text v = py_str py v

  unfoldable pub preference_from_dict : Value → Result Preference
  unfolding key_text
  preference_from_dict v = and_then (as_dict v) λ d. ok (record {
    key = key_text (or_else (get_null "key" d) (get_null "category" d));
    value = get_or "value" (str "") d;
    source = get_or "source" (str "") d;
  })

unfoldable pub dates_from_dict : Value → Result DateRange
dates_from_dict v =
    and_then (subscript v "start")
      λ start. and_then (subscript v "end") λ finish. ok (record { start = start; finish = finish })

unfoldable pub travelers_from_dict : Value → Result Travelers
travelers_from_dict v = and_then (as_dict v) λ d. ok (record {
  adults = get_or "adults" (int (pos 1)) d;
  children = get_or "children" (int (pos 0)) d;
})

unfoldable pub budget_from_dict : Value → Result Budget
budget_from_dict v = and_then (subscript v "total") λ total.
    and_then (as_dict v)
      λ d. ok (record { total = total; currency = get_or "currency" (str "CNY") d })

unfoldable pub accommodation_from_dict : Value → Result Accommodation
accommodation_from_dict v =
    and_then (subscript v "area")
      λ area. and_then (as_dict v) λ d. ok (record { area = area; hotel = get_null "hotel" d })

unfoldable pub constraint_from_dict : Value → Result Constraint
constraint_from_dict v = and_then (subscript v "type") λ type.
    and_then (subscript v "description") λ description. and_then (as_dict v) λ d.
      ok (record { type = type; description = description; source = get_or "source" (str "") d })

unfoldable pub backtrack_event_from_dict : Value → Result BacktrackEvent
backtrack_event_from_dict v = and_then (subscript v "from_phase") λ from_phase.
    and_then (subscript v "to_phase") λ to_phase. and_then (subscript v "reason") λ reason.
      and_then (subscript v "snapshot_path") λ snapshot_path. and_then (as_dict v) λ d. ok (record {
        from_phase = from_phase;
        to_phase = to_phase;
        reason = reason;
        snapshot_path = snapshot_path;
        timestamp = get_or "timestamp" (str "") d;
      })
