-- ===== src/Tests/Plans.antt =====
-- Sample plans in the router and in the store: backend/phase/router.py and backend/state/models.py.
use travel_agent_pro.Prelude.{◌≡◌, ◌≢◌, refl, pos, none, some, [], true, false, ℕ, ◌+◌}
use travel_agent_pro.Python.{truthy}
use travel_agent_pro.Python.Dict.{nil, empty}
use travel_agent_pro.Python.Exec.{ok, Exec}
use travel_agent_pro.Plan.Model.{current_state_version}
use travel_agent_pro.Plan.Days.{total_days}
use travel_agent_pro.Plan.Encode.{plan_to_dict}
use travel_agent_pro.Plan.Load.{plan_from_dict}
use travel_agent_pro.Plan.Step.{dicts_of}
use travel_agent_pro.Plan.RoundTrip.Whole.{PlanIsNormal, plan_round_trip}
use travel_agent_pro.Dates.{fromisoformat}
use travel_agent_pro.Phase.Hooks.{GateResult, HookManager}
use travel_agent_pro.Phase.Router.{
  phase_of, skeleton_days_match, infer_phase, check_and_apply_transition,
}
use travel_agent_pro.Phase.Inference.{IsReadable, infer_phase_total}
use travel_agent_pro.Phase.Advance.{transition_lem, transition_settles, changed_phase}
use travel_agent_pro.Tests.Samples.{plain, three_days_total, same_some, trip, planned}

-- 1 May 2026 is a Friday.
may_day : fromisoformat "2026-05-01" ≡ some 739737
unfolding fromisoformat
may_day = refl

same_day : fromisoformat "2026-W18-5" ≡ fromisoformat "20260501"
unfolding fromisoformat
same_day = refl

-- There is no 29 February 2026.
not_a_day : fromisoformat "2026-02-29" ≡ none
unfolding fromisoformat
not_a_day = refl

pub trip_rules : phase_of trip ≡ ok (pos 2)
unfolding phase_of skeleton_days_match dicts_of truthy total_days fromisoformat
trip_rules = refl

pub trip-IsReadable : IsReadable trip
trip-IsReadable = record {
  brief = (empty, refl);
  skeletons = (nil, refl);
  days = λ d e. (pos 3, rw (same_some d e) three_days_total);
}

transition_lem_example :
    ((check_and_apply_transition plain none trip).0 ≡ ok true)
    × ((check_and_apply_transition plain none trip).1.phase ≡ pos 2)
transition_lem_example = transition_lem plain trip trip-IsReadable trip_rules

transition_settles_example :
    (check_and_apply_transition plain none (check_and_apply_transition plain none trip).1).0
    ≡ ok false
transition_settles_example = transition_settles plain trip trip-IsReadable trip_rules

changed_phase_example :
    ((check_and_apply_transition plain none trip).1.phase ≡ pos 2) × (pos 2 ≢ pos 1)
changed_phase_example =
    changed_phase plain trip trip-IsReadable trip_rules none transition_lem_example.0

infer_phase_total_example : (infer_phase plain trip).0 ≡ phase_of trip
infer_phase_total_example = infer_phase_total plain trip trip-IsReadable

planned-PlanIsNormal : PlanIsNormal planned
unfolding truthy
planned-PlanIsNormal = record {
  phase = refl;
  phase2_step = refl;
  excluded_candidates = tt;
  daily_plans = (record { activities = tt }, tt);
  constraints = tt;
  preferences = tt;
}

plan_round_trip_example :
    plan_from_dict plain (plan_to_dict planned)
    ≡ ok (record planned { version = current_state_version })
plan_round_trip_example = plan_round_trip plain planned planned-PlanIsNormal

-- Gates that count how often they are asked.
abbrev allowing : ℕ → Exec ℕ GateResult
allowing a n = (ok (record { allowed = true; feedback = none }), n + a)

abbrev counting : HookManager ℕ ℕ
counting = record { hooks = []; gates = [] }
