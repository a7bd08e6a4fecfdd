-- ===== src/Tests/Writes.antt =====
-- Sample writes: backend/state/plan_writers.py and backend/agent/execution/limits.py.
use travel_agent_pro.Prelude.{◌≡◌, refl, some, String}
use travel_agent_pro.Python.Text.{strip, lower}
use travel_agent_pro.Python.Dict.{str, dict, Fields, empty, entry, get, contains}
use travel_agent_pro.Python.Exec.{ok}
use travel_agent_pro.Writers.Pace.{normalize_pace_value}
use travel_agent_pro.Writers.Brief.{
  overwritten, write_trip_brief, HasUniqueKeys, write_trip_brief_lem,
}
use travel_agent_pro.Tests.Samples.{plain, trip}

abbrev slow : String
slow = "relaxed"

slow_pace : normalize_pace_value plain (str " Relaxed ") ≡ some slow
unfolding normalize_pace_value strip lower
slow_pace = refl

abbrev wishes : Fields
wishes = entry "goal" (str "temples") (entry "pace" (str "Relaxed") empty)

wishes-HasUniqueKeys : HasUniqueKeys wishes
unfolding contains
wishes-HasUniqueKeys = (refl, (refl, tt))

write_trip_brief_lem_example :
    (after : Fields) × (write_trip_brief plain (dict wishes) trip
      ≡ (ok tt, record trip { trip_brief = dict after }))
    × ((k : String) → get k after ≡ overwritten plain wishes empty k)
write_trip_brief_lem_example =
    write_trip_brief_lem plain wishes empty trip wishes-HasUniqueKeys refl
