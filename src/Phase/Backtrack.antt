-- ===== src/Phase/Backtrack.antt =====
-- `BacktrackService` of backend/phase/backtrack.py, `execute_backtrack` of
-- backend/state/plan_writers.py and the tool of backend/tools/plan_tools/backtrack.py.
use travel_agent_pro.Prelude.{true, [], ◌∷◌, ◌++◌, String, str_eq, ℤ, leb_ℤ}
use travel_agent_pro.Python.Dict.{Value, bool, int, str, Fields}
use travel_agent_pro.Python.Exec.{
  value_error, tool_error, Exec, throw, pure, gets, modify, raise_if, ◌>>=◌, ◌>>◌,
}
use travel_agent_pro.Python.Text.{strip}
use travel_agent_pro.Plan.Model.{TravelPlanState}
use travel_agent_pro.Plan.Encode.{fields}
use travel_agent_pro.Plan.Downstream.{clear_downstream}

-- The text of the time at which the event is made.
module _ (now : String) where
  recorded : ℤ → String → String → TravelPlanState → TravelPlanState
  recorded to_phase reason snapshot_path plan = record plan {
    backtrack_history =
        plan.backtrack_history
        ++ (record {
          from_phase = int plan.phase;
          to_phase = int to_phase;
          reason = str reason;
          snapshot_path = str snapshot_path;
          timestamp = str now;
        })
          ∷ [];
  }

  -- `BacktrackService.execute`
  unfoldable pub backtrack : ℤ → String → String → Exec TravelPlanState (Unit {0})
  unfolding recorded clear_downstream
  backtrack to_phase reason snapshot_path = do
    phase ← gets (λ plan. plan.phase)
    raise_if (leb_ℤ phase to_phase) value_error
    modify (recorded to_phase reason snapshot_path)
    modify (clear_downstream to_phase)
    modify (λ plan. record plan { phase = to_phase })

  -- The reply of the tool, without the text of `next_action`.
  backtrack_reply : ℤ → ℤ → String → Fields
  backtrack_reply from_phase to_phase reason = fields (
      ("backtracked", bool true)
      ∷ ("from_phase", int from_phase)
      ∷ ("to_phase", int to_phase)
      ∷ ("reason", str reason)
      ∷ [])

  unfoldable pub execute_backtrack : ℤ → String → Exec TravelPlanState Fields
  unfolding backtrack backtrack_reply
  execute_backtrack to_phase reason = do
    from_phase ← gets (λ plan. plan.phase)
    raise_if (leb_ℤ from_phase to_phase) value_error
    backtrack to_phase reason ""
    pure (backtrack_reply from_phase to_phase reason)

  checked_backtrack : ℤ → String → Exec TravelPlanState Fields
  unfolding execute_backtrack
  checked_backtrack to_phase reason = do
    raise_if (str_eq reason "") (tool_error "INVALID_VALUE")
    phase ← gets (λ plan. plan.phase)
    raise_if (leb_ℤ phase to_phase) (tool_error "INVALID_BACKTRACK")
    execute_backtrack to_phase reason

  -- A Boolean is no integer here, and the reason is stripped.
  unfoldable pub request_backtrack : Value → Value → Exec TravelPlanState Fields
  unfolding checked_backtrack
  request_backtrack (int to_phase) (str reason) = checked_backtrack to_phase (strip reason)
  request_backtrack _ _ = throw (tool_error "INVALID_VALUE")
