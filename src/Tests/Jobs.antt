-- ===== src/Tests/Jobs.antt =====
-- Sample runs of backend/memory/async_jobs.py.
use travel_agent_pro.Prelude.{◌≡◌, ℕ, ◌≤◌, List, [], ◌∷◌, some, String, true, length, arith}
use travel_agent_pro.Memory.Windows.{build_gate_user_window, build_extraction_user_window}
use travel_agent_pro.Memory.WindowBounds.{
  total_length, latest, extraction_window_bounds, gate_window_latest,
}
use travel_agent_pro.Memory.Jobs.{Event, submitted, initial, handle_all}
use travel_agent_pro.Memory.JobOrder.{
  IsSound, final, ended_twice, head, scheduler_IsSound, last_submitted_kept, scheduler_drains,
}

abbrev talk : List String
talk = "Kyoto in May" ∷ "" ∷ "two adults" ∷ []

extraction_window_bounds_example :
    (length (build_extraction_user_window talk 0 3 2 15) ≤ 2)
    × (total_length (build_extraction_user_window talk 0 3 2 15) ≤ 15)
extraction_window_bounds_example =
    extraction_window_bounds talk 0 3 2 15 (omega arith) (omega arith)

gate_window_latest_example : latest (build_gate_user_window talk 2 5) ≡ some "two adults"
gate_window_latest_example = gate_window_latest talk 2 5 (omega arith)

-- Two submissions while the first one runs.
abbrev events : List (Event ℕ)
events = submitted 1 ∷ submitted 2 ∷ submitted 3 ∷ []

scheduler_IsSound_example : IsSound (handle_all events initial)
scheduler_IsSound_example = scheduler_IsSound events

last_submitted_kept_example : final (handle_all events initial) ≡ some 3
last_submitted_kept_example = last_submitted_kept events

scheduler_drains_example :
    ((ended_twice (handle_all events initial)).idle ≡ true)
    × (head (ended_twice (handle_all events initial)).started ≡ some 3)
scheduler_drains_example = scheduler_drains events
