-- ===== src/Phase/Return.antt =====
-- What a backtrack leaves of a plan, and that the router does not undo it.
use travel_agent_pro.Prelude.{
  ◌≡◌, true, false, none, some, [], ◌∷◌, ◌++◌, String, str_eq, ℤ, pos, negsuc, leb_ℤ, ltb_ℤ, ◌≤ℤ◌,
  Option-cases, inl, inr, zero, suc, arith,
}
use travel_agent_pro.Python.{truthy}
use travel_agent_pro.Python.Dict.{Fields, null, int, str, list, nil}
use travel_agent_pro.Python.Exec.{Result, ok, raise, value_error, Returns, Result-cases}
use travel_agent_pro.Python.Builtins.{Builtins}
use travel_agent_pro.Python.Text.{strip}
use travel_agent_pro.Plan.Model.{TravelPlanState, DateRange, BacktrackEvent}
use travel_agent_pro.Plan.Encode.{plan_to_dict}
use travel_agent_pro.Plan.Load.{supported_phase, plan_from_dict}
use travel_agent_pro.Plan.Days.{total_days}
use travel_agent_pro.Plan.RoundTrip.Whole.{unsupported_refused}
use travel_agent_pro.Phase.Router.{phase_of}
use travel_agent_pro.Phase.Backtrack.{backtrack, request_backtrack}

module _ (now reason path : String) (s : TravelPlanState) (to : ℤ) where
  abbrev returned : Result (Unit {0}) × TravelPlanState
  returned = backtrack now to reason path s

  -- A target that is not earlier is refused, and the plan is as before.
  pub backtrack_refused : leb_ℤ s.phase to ≡ true → returned ≡ (raise value_error, s)
  unfolding backtrack
  backtrack_refused h = ground arith

  -- What the user said outlives every accepted backtrack, and the event is appended.
  pub record UserDataIsKept (t : TravelPlanState) : Type 0 where
    pub session_id : t.session_id ≡ s.session_id
    pub trip_id : t.trip_id ≡ s.trip_id
    pub travelers : t.travelers ≡ s.travelers
    pub budget : t.budget ≡ s.budget
    pub constraints : t.constraints ≡ s.constraints
    pub preferences : t.preferences ≡ s.preferences
    pub decision_events : t.decision_events ≡ s.decision_events
    pub lesson_events : t.lesson_events ≡ s.lesson_events
    pub history :
        t.backtrack_history
        ≡ s.backtrack_history
          ++ (record {
            from_phase = int s.phase;
            to_phase = int to;
            reason = str reason;
            snapshot_path = str path;
            timestamp = str now;
          })
            ∷ []

  -- A backtrack to an earlier phase returns, the plan is in that phase, session, travelers, budget,
  -- constraints, preferences, decisions and lessons are as before, and the event is appended to the
  -- history.
  pub backtrack_keeps :
      leb_ℤ s.phase to ≡ false
      → (returned.0 ≡ ok tt) × (returned.1.phase ≡ to) × UserDataIsKept returned.1
  unfolding backtrack
  backtrack_keeps h = ground arith

  -- An accepted backtrack from a supported phase has dropped the daily plans and the deliverables,
  -- one to phase 2 or earlier the skeletons with all that is locked, too.
  pub backtrack_clears :
      leb_ℤ s.phase to ≡ false
      → supported_phase s.phase ≡ true
      → (returned.1.daily_plans ≡ []) × (returned.1.deliverables ≡ null)
  unfolding backtrack
  backtrack_clears h sup = ground arith

module _ (now reason path : String) (s : TravelPlanState) where
  abbrev event_of : ℤ → BacktrackEvent
  event_of to = record {
    from_phase = int s.phase;
    to_phase = int to;
    reason = str reason;
    snapshot_path = str path;
    timestamp = str now;
  }

  -- Going back to phase 3 from a later phase changes the phase, empties the daily plans and the
  -- deliverables, appends to the history, and leaves all else as it was.
  pub backtrack_to_3 :
      leb_ℤ s.phase (pos 3) ≡ false
      → (backtrack now (pos 3) reason path s).1 ≡ record s {
        phase = pos 3;
        daily_plans = [];
        deliverables = null;
        backtrack_history = s.backtrack_history ++ event_of (pos 3) ∷ [];
      }
  unfolding backtrack
  backtrack_to_3 h = ground arith

  -- Going back to phase 2 from a later phase resets the step, the skeletons and what was selected or
  -- collected for them, the daily plans and the deliverables, appends to the history, and leaves all
  -- else as it was.
  pub backtrack_to_2 :
      leb_ℤ s.phase (pos 2) ≡ false
      → (backtrack now (pos 2) reason path s).1 ≡ record s {
        phase = pos 2;
        phase2_step = str "brief";
        skeleton_plans = list nil;
        selected_skeleton_id = null;
        transport_options = list nil;
        selected_transport = null;
        accommodation_options = list nil;
        accommodation = none;
        risks = list nil;
        alternatives = list nil;
        daily_plans = [];
        deliverables = null;
        backtrack_history = s.backtrack_history ++ event_of (pos 2) ∷ [];
      }
  unfolding backtrack
  backtrack_to_2 h = ground arith

  -- After a backtrack from a supported phase to an earlier one, from 1 on, the rules of the router
  -- give no later phase than the one gone back to, if the dates of the plan, where they can be
  -- counted, have at least one day.
  pub backtrack_lasts :
      (to p : ℤ)
      → leb_ℤ s.phase to ≡ false
      → supported_phase s.phase ≡ true
      → pos 1 ≤ℤ to
      → ((d : DateRange) (n : ℤ) → s.dates ≡ some d → total_days d ≡ ok n → pos 1 ≤ℤ n)
      → phase_of (backtrack now to reason path s).1 ≡ ok p
      → p ≤ℤ to
  unfolding backtrack phase_of truthy
  backtrack_lasts (negsuc k) p earlier sup from1 days e = absurd (omega arith)
  backtrack_lasts (pos zero) p earlier sup from1 days e = absurd (omega arith)
  backtrack_lasts (pos (suc zero)) p earlier sup from1 days e = ground arith
  backtrack_lasts (pos (suc (suc zero))) p earlier sup from1 days e = ground arith
  backtrack_lasts (pos (suc (suc (suc zero)))) p earlier sup from1 days e =
      elim (Option-cases s.dates) [
        | inl no_dates ↦ ground (arith, no_dates)
        | inr (d, dated) ↦ elim (Result-cases (total_days d)) [
          | inl (n, counted) ↦ ground (arith, dated, counted, days d n dated counted)
          | inr (x, failed) ↦ ground (arith, dated, failed)
        ]
      ]
  backtrack_lasts (pos (suc (suc (suc (suc k))))) p earlier sup from1 days e = ground arith

module _ (now reason : String) (s : TravelPlanState) (to : ℤ) (sup : supported_phase s.phase ≡ true)
    (below : ltb_ℤ to (pos 1) ≡ true) (stated : str_eq (strip reason) "" ≡ false) where
  abbrev answered : Result Fields × TravelPlanState
  answered = request_backtrack now (int to) (str reason) s

  answered_phase : Returns answered.0 × (answered.1.phase ≡ to)
  unfolding request_backtrack
  answered_phase = ground arith

  -- From a supported phase, `request_backtrack` to a target below 1 with a reason that is not blank
  -- returns, and reading back what is written of the plan it leaves raises a ValueError.
  pub backtrack_unreadable :
      (py : Builtins)
      → Returns answered.0 × (plan_from_dict py (plan_to_dict answered.1) ≡ raise value_error)
  backtrack_unreadable py =
      (answered_phase.0, unsupported_refused py answered.1 (rw answered_phase.1 (ground arith)))
