-- ===== src/Plan/Days.antt =====
-- `DateRange.total_days` of backend/state/models.py.
use travel_agent_pro.Prelude.{none, some, ℕ, ℤ, pos, sub_ℕ, ◌+ℤ◌}
use travel_agent_pro.Dates.{fromisoformat}
use travel_agent_pro.Python.Dict.{Value, str}
use travel_agent_pro.Python.Exec.{Result, ok, raise, value_error, type_error, and_then}
use travel_agent_pro.Plan.Model.{DateRange}

-- `date.fromisoformat(v)`
date_of : Value → Result ℕ
date_of (str s) = elim (fromisoformat s) [ none ↦ raise value_error | some n ↦ ok n ]
date_of _ = raise type_error

-- Both ends count; a range that ends before it starts has no day or fewer.
unfoldable pub total_days : DateRange → Result ℤ
unfolding date_of ◌+ℤ◌
total_days d =
    and_then (date_of d.start) λ s. and_then (date_of d.finish) λ e. ok (sub_ℕ e s +ℤ pos 1)
