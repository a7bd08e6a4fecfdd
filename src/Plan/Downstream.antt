-- ===== src/Plan/Downstream.antt =====
-- `_PHASE_DOWNSTREAM`, `_FIELD_DEFAULTS` and `clear_downstream` of backend/state/models.py.
use travel_agent_pro.Prelude.{none, List, [], ◌∷◌, ℤ, pos, leb_ℤ, if◌then◌else◌}
use travel_agent_pro.Python.Dict.{null, str, list, dict, nil, empty}
use travel_agent_pro.Plan.Model.{TravelPlanState}

-- The attributes that a phase produces.
pub data Attribute : Type 0 where
  destination dates phase2_step trip_brief candidate_pool shortlist : Attribute
  excluded_candidates skeleton_plans selected_skeleton_id transport_options : Attribute
  selected_transport accommodation_options accommodation risks alternatives : Attribute
  daily_plans deliverables : Attribute

-- `_PHASE_DOWNSTREAM` at 1, 2 and 3.
abbrev pub phase1_downstream : List Attribute
phase1_downstream =
    destination ∷ dates ∷ phase2_step ∷ trip_brief ∷ candidate_pool ∷ shortlist
    ∷ excluded_candidates ∷ skeleton_plans ∷ selected_skeleton_id ∷ transport_options
    ∷ selected_transport ∷ accommodation_options ∷ accommodation ∷ risks ∷ alternatives
    ∷ daily_plans ∷ deliverables ∷ []

abbrev pub phase2_downstream : List Attribute
phase2_downstream =
    phase2_step ∷ skeleton_plans ∷ selected_skeleton_id ∷ transport_options ∷ selected_transport
    ∷ accommodation_options ∷ accommodation ∷ risks ∷ alternatives ∷ daily_plans ∷ deliverables ∷ []

abbrev pub phase3_downstream : List Attribute
phase3_downstream = daily_plans ∷ deliverables ∷ []

-- `setattr(self, attr, deepcopy(_FIELD_DEFAULTS[attr]))`
unfoldable pub reset : Attribute → TravelPlanState → TravelPlanState
reset destination s = record s { destination = null }
reset dates s = record s { dates = none }
reset phase2_step s = record s { phase2_step = str "brief" }
reset trip_brief s = record s { trip_brief = dict empty }
reset candidate_pool s = record s { candidate_pool = list nil }
reset shortlist s = record s { shortlist = list nil }
reset excluded_candidates s = record s { excluded_candidates = [] }
reset skeleton_plans s = record s { skeleton_plans = list nil }
reset selected_skeleton_id s = record s { selected_skeleton_id = null }
reset transport_options s = record s { transport_options = list nil }
reset selected_transport s = record s { selected_transport = null }
reset accommodation_options s = record s { accommodation_options = list nil }
reset accommodation s = record s { accommodation = none }
reset risks s = record s { risks = list nil }
reset alternatives s = record s { alternatives = list nil }
reset daily_plans s = record s { daily_plans = [] }
reset deliverables s = record s { deliverables = null }

unfoldable pub reset_all : List Attribute → TravelPlanState → TravelPlanState
unfolding reset
reset_all [] s = s
reset_all (a ∷ rest) s = reset_all rest (reset a s)

-- The phases 1, 2 and 3 in order, those from `from_phase` on.
unfoldable pub clear_downstream : ℤ → TravelPlanState → TravelPlanState
unfolding reset_all
clear_downstream from_phase s =
    let after1 = if leb_ℤ from_phase (pos 1) then reset_all phase1_downstream s else s in
    let after2 = if leb_ℤ from_phase (pos 2) then reset_all phase2_downstream after1 else after1 in
    if leb_ℤ from_phase (pos 3) then reset_all phase3_downstream after2 else after2
