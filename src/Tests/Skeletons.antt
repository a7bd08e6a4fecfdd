-- ===== src/Tests/Skeletons.antt =====
-- Sample skeletons for backend/tools/plan_tools/phase2_tools.py.
use travel_agent_pro.Prelude.{◌≡◌, refl, ℕ, ◌≤◌, true, List, [], ◌∷◌, length, String, pos, All, ◌⊎◌}
use travel_agent_pro.Python.{truthy, is_some}
use travel_agent_pro.Python.Text.{strip}
use travel_agent_pro.Python.Dict.{
  Value, Values, str, list, dict, nil, cons, Fields, entry, empty, of_values,
}
use travel_agent_pro.Python.Exec.{Exception, ok, raise}
use travel_agent_pro.Plan.Model.{TravelPlanState}
use travel_agent_pro.Plan.Step.{dict_items, infer_of}
use travel_agent_pro.Phase.Router.{skeleton_days_match}
use travel_agent_pro.Tools.History.{occurrences}
use travel_agent_pro.Skeletons.Tools.{set_skeleton_plans, select_skeleton}
use travel_agent_pro.Skeletons.Places.{places, days_in}
use travel_agent_pro.Skeletons.Selected.{IsSettled, with_skeletons, set_skeletons_outcome}
use travel_agent_pro.Skeletons.Locked.{HasId, FirstAgrees, selecting, select_outcome}
use travel_agent_pro.Choices.Tools.{require_dicts, py_len}
use travel_agent_pro.Choices.Outcome.{shortlisted, tool_of, listed_in, with_list, replaced_outcome}
use travel_agent_pro.Tests.Samples.{plain, trip}

abbrev texts : String → Value
texts s = list (cons (str s) nil)

abbrev day : String → String → String → Value
day role locked candidate = dict (
    entry "area_cluster" (texts "Higashiyama") (
      entry "locked_pois" (texts locked)
        (entry "candidate_pois" (texts candidate) (entry "date_role" (str role) empty))))

abbrev days : Value
days = list (
    cons (day "arrival_day" "Gion" "Nishiki") (
      cons (day "full_day" "Arashiyama" "Nijo")
        (cons (day "departure_day" "Fushimi" "Tofukuji") nil)))

abbrev skeleton : Fields
skeleton = entry "id" (str "slow") (entry "name" (str "Slow") (entry "days" days empty))

abbrev given : Value
given = list (cons (dict skeleton) nil)

set_skeletons_outcome_example :
    ((x : Exception) × (set_skeleton_plans plain given trip ≡ (raise x, trip)))
    ⊎ ((plans : List Fields) × (counts : ℕ × ℕ) × (w : Value) × (events : List Fields)
        × (set_skeleton_plans plain given trip ≡ (ok counts, with_skeletons trip plans w events))
        × ((q : String)
            → All (λ (p : Fields). occurrences q (places (dict_items (days_in p))) ≤ 1) plans)
        × ((chosen : Value)
            → skeleton_days_match (with_skeletons trip plans chosen events) ≡ ok true)
        × ((t : String) → trip.selected_skeleton_id ≡ str t → IsSettled plans w))
set_skeletons_outcome_example = set_skeletons_outcome plain given trip

abbrev choosing : TravelPlanState
choosing = record trip {
  phase = pos 2;
  trip_brief = dict (entry "goal" (str "rest") empty);
  skeleton_plans = given;
}

select_outcome_example :
    ((x : Exception) × (select_skeleton plain (str " slow ") choosing ≡ (raise x, choosing)))
    ⊎ ((t : String) × (id : String) × (events : List Fields) × (str " slow " ≡ str t)
        × (strip id ≡ strip t)
        × (select_skeleton plain (str " slow ") choosing ≡ (
          ok (id, choosing.selected_skeleton_id),
          selecting (cons (dict skeleton) nil) choosing refl id events,
        ))
        × HasId id (dict skeleton ∷ [])
        × FirstAgrees choosing.dates id (dict skeleton ∷ [])
        × (choosing.phase ≡ pos 2
            → is_some choosing.dates ≡ true
            → truthy choosing.trip_brief ≡ true
            → infer_of (selecting (cons (dict skeleton) nil) choosing refl id events) ≡ ok "lock"))
select_outcome_example =
    select_outcome (cons (dict skeleton) nil) choosing refl plain (str " slow ")

replaced_outcome_example :
    ((x : Exception) × (tool_of plain shortlisted given trip ≡ (raise x, trip)))
    ⊎ ((vs : Values) × (n : ℕ) × (given ≡ list vs)
        × (require_dicts (list vs) ≡ ok tt)
        × (py_len plain (listed_in shortlisted trip) ≡ ok n)
        × (tool_of plain shortlisted given trip
            ≡ (ok (length (of_values vs), n), with_list shortlisted (list vs) trip)))
replaced_outcome_example = replaced_outcome plain trip shortlisted given
