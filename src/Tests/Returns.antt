-- ===== src/Tests/Returns.antt =====
-- Sample backtracks: backend/phase/backtrack.py and backend/tools/plan_tools/backtrack.py.
use travel_agent_pro.Prelude.{◌≡◌, refl, ap, ℤ, pos, ◌≤ℤ◌, none, some, [], ◌∷◌, arith}
use travel_agent_pro.Python.{truthy}
use travel_agent_pro.Python.Text.{strip}
use travel_agent_pro.Python.Dict.{null, int, str, list, nil}
use travel_agent_pro.Python.Exec.{ok, raise, value_error, Returns}
use travel_agent_pro.Plan.Model.{DateRange}
use travel_agent_pro.Plan.Days.{total_days}
use travel_agent_pro.Plan.Step.{dicts_of}
use travel_agent_pro.Plan.Encode.{plan_to_dict}
use travel_agent_pro.Plan.Load.{plan_from_dict}
use travel_agent_pro.Plan.Downstream.{clear_downstream, reset_all, reset}
use travel_agent_pro.Dates.{fromisoformat}
use travel_agent_pro.Phase.Router.{phase_of, skeleton_days_match}
use travel_agent_pro.Phase.Backtrack.{backtrack, request_backtrack}
use travel_agent_pro.Phase.Return.{
  backtrack_refused, backtrack_keeps, UserDataIsKept, backtrack_to_2, backtrack_to_3,
  backtrack_lasts, backtrack_unreadable,
}
use travel_agent_pro.Tests.Samples.{plain, three_days, three_days_total, same_some, planned}

backtrack_keeps_example :
    ((backtrack "now" (pos 2) "again" "" planned).0 ≡ ok tt)
    × ((backtrack "now" (pos 2) "again" "" planned).1.phase ≡ pos 2)
    × UserDataIsKept "now" "again" "" planned (pos 2) (backtrack "now" (pos 2) "again" "" planned).1
backtrack_keeps_example = backtrack_keeps "now" "again" "" planned (pos 2) refl

backtrack_refused_example :
    backtrack "now" (pos 3) "again" "" planned ≡ (raise value_error, planned)
backtrack_refused_example = backtrack_refused "now" "again" "" planned (pos 3) refl

backtrack_to_2_example : (backtrack "now" (pos 2) "again" "" planned).1 ≡ record planned {
  phase = pos 2;
  phase2_step = str "brief";
  skeleton_plans = list nil;
  selected_skeleton_id = null;
  transport_options = list nil;
  selected_transport = null;
  accommodation_options = list nil;
  accommodation = none;
  risks = list nil;
  alternatives = list nil;
  daily_plans = [];
  deliverables = null;
  backtrack_history =
      (record {
        from_phase = int (pos 3);
        to_phase = int (pos 2);
        reason = str "again";
        snapshot_path = str "";
        timestamp = str "now";
      })
      ∷ [];
}
backtrack_to_2_example = backtrack_to_2 "now" "again" "" planned refl

backtrack_to_3_example :
    (backtrack "now" (pos 3) "again" "" (record planned { phase = pos 4 })).1 ≡ record planned {
      phase = pos 3;
      daily_plans = [];
      deliverables = null;
      backtrack_history =
          (record {
            from_phase = int (pos 4);
            to_phase = int (pos 3);
            reason = str "again";
            snapshot_path = str "";
            timestamp = str "now";
          })
          ∷ [];
    }
backtrack_to_3_example = backtrack_to_3 "now" "again" "" (record planned { phase = pos 4 }) refl

counted_three :
    (d : DateRange) (n : ℤ) → some three_days ≡ some d → total_days d ≡ ok n → pos 1 ≤ℤ n
counted_three d n e h = ground (arith, ap total_days (same_some d e), three_days_total, h)

returned_rules : phase_of (backtrack "now" (pos 2) "again" "" planned).1 ≡ ok (pos 2)
unfolding phase_of skeleton_days_match dicts_of truthy total_days fromisoformat backtrack
    clear_downstream reset_all reset
returned_rules = refl

backtrack_lasts_example : pos 2 ≤ℤ pos 2
backtrack_lasts_example =
    backtrack_lasts "now" "again" "" planned (pos 2) (pos 2) refl refl (omega arith) counted_three
      returned_rules

again_stated : strip "again" ≡ "again"
unfolding strip
again_stated = refl

backtrack_unreadable_example :
    Returns (request_backtrack "now" (int (pos 0)) (str "again") planned).0
    × (plan_from_dict plain
          (plan_to_dict (request_backtrack "now" (int (pos 0)) (str "again") planned).1)
        ≡ raise value_error)
backtrack_unreadable_example =
    backtrack_unreadable "now" "again" planned (pos 0) refl refl (rw again_stated refl) plain
