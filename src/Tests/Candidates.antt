-- ===== src/Tests/Candidates.antt =====
-- Sample submissions: backend/agent/phase3/candidate_store.py.
use travel_agent_pro.Prelude.{◌≡◌, refl, ℤ, pos, Bool, true, some, [], ◌∷◌, ◌⊎◌, All}
use travel_agent_pro.Python.Dict.{Value, str, int, dict, list, nil, Fields, get}
use travel_agent_pro.Python.Exec.{Exception, Result, ok, raise}
use travel_agent_pro.Plan.Encode.{fields}
use travel_agent_pro.Store.Candidates.{
  Name, RunDir, read_file, of_day, candidate_sequence, greatest_sequence, next_candidate_sequence,
  candidate_payload, submit_candidate, restore_candidate_as_latest,
}
use travel_agent_pro.Store.Latest.{Below, view}
use travel_agent_pro.Store.Refines.{updated, submit_refines, restore_refines}
use travel_agent_pro.Tests.Samples.{plain, any_visit_info}

abbrev day_two : Value
day_two =
    dict
      (fields (("day", int (pos 2)) ∷ ("date", str "2026-05-02") ∷ ("activities", list nil) ∷ []))

-- One attempt for the second day.
abbrev one_attempt : RunDir
one_attempt =
    ((pos 2, pos 1), candidate_payload "sess_1" "run_1" "w1" (pos 2) (pos 1) (pos 1) day_two) ∷ []

abbrev second_try : Result Name × RunDir
second_try =
    submit_candidate plain any_visit_info "sess_1" "run_1" "w1" (pos 2) (pos 2) day_two one_attempt

submit_refines_example :
    ((x : Exception) × (second_try ≡ (raise x, one_attempt)))
    ⊎ ((n : ℤ) × (second_try.0 ≡ ok (pos 2, pos 2))
        × (candidate_sequence plain
              (candidate_payload "sess_1" "run_1" "w1" (pos 2) (pos 2) n day_two)
            ≡ ok n)
        × All (Below plain n) (of_day (pos 2) one_attempt)
        × ((e : ℤ)
            → view plain second_try.1 e
              ≡ updated plain
                  (view plain one_attempt)
                  (pos 2)
                  (candidate_payload "sess_1" "run_1" "w1" (pos 2) (pos 2) n day_two)
                  e))
submit_refines_example =
    submit_refines plain any_visit_info "sess_1" "run_1" "w1" (pos 2) (pos 2) day_two one_attempt

abbrev restored_dir : Result Bool × RunDir
restored_dir = restore_candidate_as_latest plain (pos 2) (pos 1) (some "worker failed") one_attempt

restored_returns : restored_dir.0 ≡ ok true
unfolding restore_candidate_as_latest read_file next_candidate_sequence of_day greatest_sequence
    candidate_sequence get
restored_returns = refl

restore_refines_example :
    (p : Fields) × (q : Fields) × (n : ℤ) × (read_file (pos 2, pos 1) one_attempt ≡ some p)
    × (get "seq" q ≡ some (int n))
    × All (Below plain n) (of_day (pos 2) one_attempt)
    × (get "dayplan" q ≡ get "dayplan" p)
    × (get "status" q ≡ some (str "accepted"))
    × ((e : ℤ) → view plain restored_dir.1 e ≡ updated plain (view plain one_attempt) (pos 2) q e)
restore_refines_example =
    restore_refines plain (pos 2) (pos 1) (some "worker failed") one_attempt restored_returns
