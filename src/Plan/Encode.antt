-- ===== src/Plan/Encode.antt =====
-- The `to_dict` methods of backend/state/models.py.
use travel_agent_pro.Prelude.{Option, none, some, List, [], ◌∷◌, map, String, if◌then◌else◌}
use travel_agent_pro.Python.{truthy}
use travel_agent_pro.Python.Dict.{
  Value, null, bool, int, float, str, list, dict, Fields, entry, empty, to_values,
}
use travel_agent_pro.Plan.Model.{
  EvidenceRecord, VisitInfo, ExcludedCandidate, Location, DateRange, Travelers, Budget,
  Accommodation, Activity, DayPlan, Constraint, Preference, BacktrackEvent, TravelPlanState,
  current_state_version,
}

abbrev pub fields : List (String × Value) → Fields
fields [] = empty
fields ((k, v) ∷ kvs) = entry k v (fields kvs)

abbrev pub list_of : {A : Type 0} → (A → Value) → List A → Value
list_of f xs = list (to_values (map f xs))

-- `x.to_dict() if x else None`
abbrev pub optional : {A : Type 0} → (A → Value) → Option A → Value
optional f none = null
optional f (some a) = f a

unfoldable pub evidence_to_dict : EvidenceRecord → Value
evidence_to_dict e = dict (
    fields (
      ("source_type", str e.source_type)
      ∷ ("title", str e.title)
      ∷ ("summary", str e.summary)
      ∷ ("claim_type", str e.claim_type)
      ∷ ("confidence", str e.confidence)
      ∷ ("source_url", e.source_url)
      ∷ ("observed_at", e.observed_at)
      ∷ ("source_ref", e.source_ref)
      ∷ []))

unfoldable pub visit_info_to_dict : VisitInfo → Value
unfolding evidence_to_dict
visit_info_to_dict v = dict (
    fields (
      ("role", str v.role)
      ∷ ("recommendation_reason", str v.recommendation_reason)
      ∷ ("needs_recheck", bool v.needs_recheck)
      ∷ ("evidence", list_of evidence_to_dict v.evidence)
      ∷ []))

unfoldable pub excluded_to_dict : ExcludedCandidate → Value
excluded_to_dict e = dict (
    fields (
      ("name", str e.name)
      ∷ ("reason", str e.reason)
      ∷ ("category", str e.category)
      ∷ ("reconsider_when", e.reconsider_when)
      ∷ ("source_candidate_id", e.source_candidate_id)
      ∷ []))

unfoldable pub location_to_dict : Location → Value
location_to_dict l =
    dict (fields (("lat", float l.lat) ∷ ("lng", float l.lng) ∷ ("name", str l.name) ∷ []))

unfoldable pub dates_to_dict : DateRange → Value
dates_to_dict d = dict (fields (("start", d.start) ∷ ("end", d.finish) ∷ []))

unfoldable pub travelers_to_dict : Travelers → Value
travelers_to_dict t = dict (fields (("adults", t.adults) ∷ ("children", t.children) ∷ []))

unfoldable pub budget_to_dict : Budget → Value
budget_to_dict b = dict (fields (("total", b.total) ∷ ("currency", b.currency) ∷ []))

unfoldable pub accommodation_to_dict : Accommodation → Value
accommodation_to_dict a = dict (fields (("area", a.area) ∷ ("hotel", a.hotel) ∷ []))

-- `visit_info` is written only where there is one.
unfoldable pub visit_info_entry : Option VisitInfo → List (String × Value)
visit_info_entry none = []
visit_info_entry (some v) = ("visit_info", visit_info_to_dict v) ∷ []

unfoldable pub activity_to_dict : Activity → Value
unfolding visit_info_entry
activity_to_dict a = dict (
    fields (
      ("name", str a.name)
      ∷ ("location", location_to_dict a.location)
      ∷ ("start_time", str a.start_time)
      ∷ ("end_time", str a.end_time)
      ∷ ("category", str a.category)
      ∷ ("cost", a.cost)
      ∷ ("transport_from_prev", a.transport_from_prev)
      ∷ ("transport_duration_min", a.transport_duration_min)
      ∷ ("transport_estimated", bool a.transport_estimated)
      ∷ ("notes", str a.notes)
      ∷ visit_info_entry a.visit_info))

unfoldable pub day_plan_to_dict : DayPlan → Value
day_plan_to_dict d = dict (
    fields (
      ("day", int d.day)
      ∷ ("date", str d.date)
      ∷ ("activities", list_of activity_to_dict d.activities)
      ∷ ("tips", str d.tips)
      ∷ []))

-- `source` is written only where it is true.
unfoldable pub source_entry : Value → List (String × Value)
source_entry source = if truthy source then ("source", source) ∷ [] else []

unfoldable pub constraint_to_dict : Constraint → Value
unfolding source_entry
constraint_to_dict c =
    dict (fields (("type", c.type) ∷ ("description", c.description) ∷ source_entry c.source))

unfoldable pub preference_to_dict : Preference → Value
unfolding source_entry
preference_to_dict p =
    dict (fields (("key", str p.key) ∷ ("value", p.value) ∷ source_entry p.source))

unfoldable pub backtrack_event_to_dict : BacktrackEvent → Value
backtrack_event_to_dict b = dict (
    fields (
      ("from_phase", b.from_phase)
      ∷ ("to_phase", b.to_phase)
      ∷ ("reason", b.reason)
      ∷ ("snapshot_path", b.snapshot_path)
      ∷ ("timestamp", b.timestamp)
      ∷ []))

-- The whole state; the version written is always the current one.
unfoldable pub plan_to_dict : TravelPlanState → Fields
plan_to_dict s = fields (
    ("session_id", s.session_id)
    ∷ ("trip_id", s.trip_id)
    ∷ ("phase", int s.phase)
    ∷ ("destination", s.destination)
    ∷ ("dates", optional dates_to_dict s.dates)
    ∷ ("phase2_step", s.phase2_step)
    ∷ ("trip_brief", s.trip_brief)
    ∷ ("candidate_pool", s.candidate_pool)
    ∷ ("shortlist", s.shortlist)
    ∷ ("excluded_candidates", list_of excluded_to_dict s.excluded_candidates)
    ∷ ("skeleton_plans", s.skeleton_plans)
    ∷ ("selected_skeleton_id", s.selected_skeleton_id)
    ∷ ("transport_options", s.transport_options)
    ∷ ("selected_transport", s.selected_transport)
    ∷ ("accommodation_options", s.accommodation_options)
    ∷ ("travelers", optional travelers_to_dict s.travelers)
    ∷ ("budget", optional budget_to_dict s.budget)
    ∷ ("accommodation", optional accommodation_to_dict s.accommodation)
    ∷ ("risks", s.risks)
    ∷ ("alternatives", s.alternatives)
    ∷ ("daily_plans", list_of day_plan_to_dict s.daily_plans)
    ∷ ("deliverables", s.deliverables)
    ∷ ("constraints", list_of constraint_to_dict s.constraints)
    ∷ ("preferences", list_of preference_to_dict s.preferences)
    ∷ ("decision_events", list_of dict s.decision_events)
    ∷ ("lesson_events", list_of dict s.lesson_events)
    ∷ ("backtrack_history", list_of backtrack_event_to_dict s.backtrack_history)
    ∷ ("created_at", s.created_at)
    ∷ ("last_updated", s.last_updated)
    ∷ ("version", int current_state_version)
    ∷ [])
