-- ===== src/Plan/RoundTrip/Parts.antt =====
-- The dataclasses below the state: what `from_dict` reads back from `to_dict`.
use travel_agent_pro.Prelude.{
  ◌≡◌, refl, ap, ◌≢◌, inl, inr, true, map, Option, none, some, String, eq_iff, arith, All, pos,
}
use travel_agent_pro.Python.{truthy}
use travel_agent_pro.Python.Dict.{Value, null, str, int, float, get, to_values, of_values-to_values}
use travel_agent_pro.Python.Exec.{ok}
use travel_agent_pro.Python.Text.{one_of}
use travel_agent_pro.Python.Builtins.{Builtins, or_else, get_null}
use travel_agent_pro.Plan.Model.{
  EvidenceRecord, VisitInfo, ExcludedCandidate, Location, Activity, DayPlan, Constraint, Preference,
}
use travel_agent_pro.Plan.Encode.{
  fields, visit_info_entry, source_entry, evidence_to_dict, visit_info_to_dict, excluded_to_dict,
  location_to_dict, activity_to_dict, day_plan_to_dict, constraint_to_dict, preference_to_dict,
}
use travel_agent_pro.Plan.Decode.{
  evidence_source_types, evidence_claim_types, evidence_confidence_levels, visit_roles,
  excluded_categories, zero_float, evidence_from_dict, visit_info_from_dict, excluded_from_dict,
  location_from_dict, activity_from_dict, day_plan_from_dict, preference_from_dict,
  constraint_from_dict, optional_visit_info,
}
use travel_agent_pro.Plan.RoundTrip.Texts.{
  IsKept, or_else-IsKept, or_else-text_null, or_else-list, or_else-nonempty, coordinate_kept,
  or_else-text, normalize_enum_stable, source_types-IsStable, claim_types-IsStable,
  confidence-IsStable, roles-IsStable, categories-IsStable, map-inverse, map_result-inverse,
}

pub record EvidenceIsNormal (e : EvidenceRecord) : Type 0 where
  pub source_type : one_of evidence_source_types e.source_type ≡ true
  pub claim_type : one_of evidence_claim_types e.claim_type ≡ true
  pub confidence : one_of evidence_confidence_levels e.confidence ≡ true
  pub source_url : IsKept null e.source_url
  pub observed_at : IsKept null e.observed_at
  pub source_ref : IsKept null e.source_ref

pub record VisitInfoIsNormal (v : VisitInfo) : Type 0 where
  pub role : one_of visit_roles v.role ≡ true
  pub evidence : All EvidenceIsNormal v.evidence

pub record ExcludedIsNormal (e : ExcludedCandidate) : Type 0 where
  pub category : one_of excluded_categories e.category ≡ true
  pub reconsider_when : IsKept null e.reconsider_when
  pub source_candidate_id : IsKept null e.source_candidate_id

-- A coordinate that is 0.0 in another shape, such as -0.0, is read back as 0.0.
pub record LocationIsNormal (l : Location) : Type 0 where
  pub lat : IsKept (float zero_float) (float l.lat)
  pub lng : IsKept (float zero_float) (float l.lng)

-- What an optional part has to satisfy.
abbrev pub OptionAll : {A : Type 0} → (A → Type 0) → Option A → Type 0
OptionAll P none = Unit
OptionAll P (some a) = P a

pub record ActivityIsNormal (a : Activity) : Type 0 where
  pub location : LocationIsNormal a.location
  pub category : a.category ≢ ""
  pub cost : IsKept (int (pos 0)) a.cost
  pub transport_duration_min : IsKept (int (pos 0)) a.transport_duration_min
  pub visit_info : OptionAll VisitInfoIsNormal a.visit_info

pub record DayPlanIsNormal (d : DayPlan) : Type 0 where
  pub activities : All ActivityIsNormal d.activities

-- A source is written only where it is true, and read back as "" where it is not there.
pub record ConstraintIsNormal (c : Constraint) : Type 0 where
  pub source : IsKept (str "") c.source

pub record PreferenceIsNormal (p : Preference) : Type 0 where
  pub source : IsKept (str "") p.source

module _ (py : Builtins) where
  evidence_round_trip :
      (e : EvidenceRecord) → EvidenceIsNormal e → evidence_from_dict py (evidence_to_dict e) ≡ e
  unfolding evidence_from_dict evidence_to_dict get
  evidence_round_trip e h = ground (
    arith,
    normalize_enum_stable py evidence_source_types e.source_type "web" (source_types-IsStable py)
        h.source_type,
    normalize_enum_stable py evidence_claim_types e.claim_type "experience"
        (claim_types-IsStable py) h.claim_type,
    normalize_enum_stable py evidence_confidence_levels e.confidence "unverified"
        (confidence-IsStable py) h.confidence,
    or_else-text e.title,
    or_else-text e.summary,
    or_else-IsKept e.source_url null h.source_url,
    or_else-IsKept e.observed_at null h.observed_at,
    or_else-IsKept e.source_ref null h.source_ref,
  )

  visit_info_round_trip :
      (v : VisitInfo) → VisitInfoIsNormal v → visit_info_from_dict py (visit_info_to_dict v) ≡ v
  unfolding visit_info_from_dict visit_info_to_dict get truthy
  visit_info_round_trip v h = ground (
    arith,
    normalize_enum_stable py visit_roles v.role "normal" (roles-IsStable py) h.role,
    or_else-text v.recommendation_reason,
    of_values-to_values (map evidence_to_dict v.evidence),
    map-inverse EvidenceIsNormal evidence_to_dict (evidence_from_dict py) evidence_round_trip
        v.evidence h.evidence,
  )

  pub excluded_round_trip :
      (e : ExcludedCandidate) → ExcludedIsNormal e → excluded_from_dict py (excluded_to_dict e) ≡ e
  unfolding excluded_from_dict excluded_to_dict get
  excluded_round_trip e h = ground (
    arith,
    normalize_enum_stable py excluded_categories e.category "preference" (categories-IsStable py)
        h.category,
    or_else-text e.name,
    or_else-text e.reason,
    or_else-IsKept e.reconsider_when null h.reconsider_when,
    or_else-IsKept e.source_candidate_id null h.source_candidate_id,
  )

  location_round_trip :
      (l : Location) → LocationIsNormal l → location_from_dict py (location_to_dict l) ≡ ok l
  unfolding location_from_dict location_to_dict get truthy
  location_round_trip l h =
      rw (coordinate_kept l.lat zero_float h.lat)
        (rw (coordinate_kept l.lng zero_float h.lng) (rw (or_else-text_null l.name null refl)))

  optional_visit_info_round_trip :
      (o : Option VisitInfo)
      → OptionAll VisitInfoIsNormal o
      → optional_visit_info py (get_null "visit_info" (fields (visit_info_entry o))) ≡ o
  unfolding optional_visit_info visit_info_entry visit_info_to_dict get
  optional_visit_info_round_trip none h = refl
  optional_visit_info_round_trip (some v) h =
      ap {B = Option VisitInfo} some (visit_info_round_trip v h)

  activity_round_trip :
      (a : Activity) → ActivityIsNormal a → activity_from_dict py (activity_to_dict a) ≡ ok a
  unfolding activity_from_dict activity_to_dict get truthy
  activity_round_trip a h = rw (location_round_trip a.location h.location) (
      ground (
        arith,
        or_else-nonempty a.category "activity" h.category,
        or_else-IsKept a.cost (int (pos 0)) h.cost,
        or_else-IsKept a.transport_duration_min (int (pos 0)) h.transport_duration_min,
        or_else-text a.notes,
        optional_visit_info_round_trip a.visit_info h.visit_info,
      ))

  pub day_plan_round_trip :
      (d : DayPlan) → DayPlanIsNormal d → day_plan_from_dict py (day_plan_to_dict d) ≡ ok d
  unfolding day_plan_from_dict day_plan_to_dict get truthy
  day_plan_round_trip d h = rw (or_else-list (to_values (map activity_to_dict d.activities))) (
      rw (of_values-to_values (map activity_to_dict d.activities)) (
        rw
          (map_result-inverse ActivityIsNormal activity_to_dict (activity_from_dict py)
            activity_round_trip d.activities h.activities)
          (rw (or_else-text_null d.tips (str "") refl))))

  preference_with :
      (k : String) (v source : Value)
      → IsKept (str "") source
      → preference_from_dict py
          (preference_to_dict (record { key = k; value = v; source = source }))
        ≡ ok (record { key = k; value = v; source = source })
  unfolding preference_from_dict preference_to_dict get source_entry or_else truthy
  preference_with k v source (inl h) = ground (arith, h, eq_iff k "")
  preference_with k v source (inr h) = ground (arith, h, eq_iff k "")

  pub preference_round_trip :
      (p : Preference)
      → PreferenceIsNormal p
      → preference_from_dict py (preference_to_dict p) ≡ ok p
  preference_round_trip p h = preference_with p.key p.value p.source h.source

constraint_with :
    (t d source : Value)
    → IsKept (str "") source
    → constraint_from_dict
        (constraint_to_dict (record { type = t; description = d; source = source }))
      ≡ ok (record { type = t; description = d; source = source })
unfolding constraint_from_dict constraint_to_dict get source_entry truthy
constraint_with t d source (inl h) = ground (arith, h)
constraint_with t d source (inr h) = ground (arith, h)

pub constraint_round_trip :
    (c : Constraint) → ConstraintIsNormal c → constraint_from_dict (constraint_to_dict c) ≡ ok c
constraint_round_trip c h = constraint_with c.type c.description c.source h.source
