-- ===== src/Plan/Model.antt =====
-- The dataclasses of backend/state/models.py. A field that the code fills with whatever a JSON
-- document holds is a `Value`.
use travel_agent_pro.Prelude.{Bool, Option, none, List, [], String, ℤ, pos}
use travel_agent_pro.Python.Dict.{Float, Value, null, str, list, dict, nil, Fields, empty}

pub record EvidenceRecord : Type 0 where
  pub source_type : String
  pub title : String
  pub summary : String
  pub claim_type : String
  pub confidence : String
  pub source_url : Value
  pub observed_at : Value
  pub source_ref : Value

pub record VisitInfo : Type 0 where
  pub role : String
  pub recommendation_reason : String
  pub needs_recheck : Bool
  pub evidence : List EvidenceRecord

pub record ExcludedCandidate : Type 0 where
  pub name : String
  pub reason : String
  pub category : String
  pub reconsider_when : Value
  pub source_candidate_id : Value

pub record Location : Type 0 where
  pub lat : Float
  pub lng : Float
  pub name : String

pub record DateRange : Type 0 where
  pub start : Value
  pub finish : Value

pub record Travelers : Type 0 where
  pub adults : Value
  pub children : Value

pub record Budget : Type 0 where
  pub total : Value
  pub currency : Value

pub record Accommodation : Type 0 where
  pub area : Value
  pub hotel : Value

pub record Activity : Type 0 where
  pub name : String
  pub location : Location
  pub start_time : String
  pub end_time : String
  pub category : String
  pub cost : Value
  pub transport_from_prev : Value
  pub transport_duration_min : Value
  pub transport_estimated : Bool
  pub notes : String
  pub visit_info : Option VisitInfo

pub record DayPlan : Type 0 where
  pub day : ℤ
  pub date : String
  pub activities : List Activity
  pub tips : String

pub record Constraint : Type 0 where
  pub type : Value
  pub description : Value
  pub source : Value

pub record Preference : Type 0 where
  pub key : String
  pub value : Value
  pub source : Value

pub record BacktrackEvent : Type 0 where
  pub from_phase : Value
  pub to_phase : Value
  pub reason : Value
  pub snapshot_path : Value
  pub timestamp : Value

pub record TravelPlanState : Type 0 where
  pub session_id : Value
  pub trip_id : Value
  pub phase : ℤ
  pub destination : Value
  pub dates : Option DateRange
  pub phase2_step : Value
  pub trip_brief : Value
  pub candidate_pool : Value
  pub shortlist : Value
  pub excluded_candidates : List ExcludedCandidate
  pub skeleton_plans : Value
  pub selected_skeleton_id : Value
  pub transport_options : Value
  pub selected_transport : Value
  pub accommodation_options : Value
  pub travelers : Option Travelers
  pub budget : Option Budget
  pub accommodation : Option Accommodation
  pub risks : Value
  pub alternatives : Value
  pub daily_plans : List DayPlan
  pub deliverables : Value
  pub constraints : List Constraint
  pub preferences : List Preference
  pub decision_events : List Fields
  pub lesson_events : List Fields
  pub backtrack_history : List BacktrackEvent
  pub created_at : Value
  pub last_updated : Value
  pub version : ℤ

-- CURRENT_STATE_VERSION
abbrev pub current_state_version : ℤ
current_state_version = pos 2

-- A new plan of a session, created at a time.
abbrev pub new_plan : String → String → TravelPlanState
new_plan session_id now = record {
  session_id = str session_id;
  trip_id = null;
  phase = pos 1;
  destination = null;
  dates = none;
  phase2_step = str "brief";
  trip_brief = dict empty;
  candidate_pool = list nil;
  shortlist = list nil;
  excluded_candidates = [];
  skeleton_plans = list nil;
  selected_skeleton_id = null;
  transport_options = list nil;
  selected_transport = null;
  accommodation_options = list nil;
  travelers = none;
  budget = none;
  accommodation = none;
  risks = list nil;
  alternatives = list nil;
  daily_plans = [];
  deliverables = null;
  constraints = [];
  preferences = [];
  decision_events = [];
  lesson_events = [];
  backtrack_history = [];
  created_at = str now;
  last_updated = str now;
  version = current_state_version;
}
