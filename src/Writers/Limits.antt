-- ===== src/Writers/Limits.antt =====
-- backend/agent/execution/limits.py
use travel_agent_pro.Prelude.{
  ◌≡◌, Option, none, some, ◌⊎◌, ℤ, pos, ltb_ℤ, ◌≤ℤ◌, ◌<ℤ◌, arith, if◌then◌else◌,
}
use travel_agent_pro.Python.Exec.{Result, ok, raise, value_error}

pub record AgentLoopLimits : Type 0 where
  pub max_iterations : ℤ
  pub max_llm_errors : ℤ

-- The first value that is given, else the default.
unfoldable pub effective_iterations : Option ℤ → Option ℤ → ℤ
effective_iterations (some n) r = n
effective_iterations none (some n) = n
effective_iterations none none = pos 3

unfoldable pub effective_llm_errors : Option ℤ → ℤ
effective_llm_errors (some n) = n
effective_llm_errors none = pos 1

unfoldable pub from_constructor_args : Option ℤ → Option ℤ → Option ℤ → Result AgentLoopLimits
from_constructor_args iterations retries llm_errors =
    if ltb_ℤ (effective_iterations iterations retries) (pos 1)
    then raise value_error
    else if ltb_ℤ (effective_llm_errors llm_errors) (pos 0)
    then raise value_error
    else ok (record {
      max_iterations = effective_iterations iterations retries;
      max_llm_errors = effective_llm_errors llm_errors;
    })

-- Limits that are returned are the effective ones, with at least one iteration and no negative number
-- of errors; otherwise the call raises a ValueError and one of the two limits is out of range.
pub from_constructor_args_lem :
    (iterations retries llm_errors : Option ℤ)
    → ((from_constructor_args iterations retries llm_errors
          ≡ ok (record {
            max_iterations = effective_iterations iterations retries;
            max_llm_errors = effective_llm_errors llm_errors;
          }))
        × (pos 1 ≤ℤ effective_iterations iterations retries)
        × (pos 0 ≤ℤ effective_llm_errors llm_errors))
      ⊎ ((from_constructor_args iterations retries llm_errors ≡ raise value_error)
          × ((effective_iterations iterations retries <ℤ pos 1)
              ⊎ (effective_llm_errors llm_errors <ℤ pos 0)))
unfolding from_constructor_args
from_constructor_args_lem iterations retries llm_errors = ground arith
