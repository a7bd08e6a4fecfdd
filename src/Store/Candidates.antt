-- ===== src/Store/Candidates.antt =====
-- The operations of `Phase3CandidateStore` of backend/agent/phase3/candidate_store.py on the directory of
-- one run. A file is known by the day and the attempt in its name, and holds a JSON object; writing a
-- temporary file and `os.replace` are one step.
use travel_agent_pro.Prelude.{
  ℕ, Bool, true, false, not, ◌&&◌, ◌||◌, Option, none, some, List, [], ◌∷◌, ◌++◌, map, keep, String,
  str_eq, ℤ, pos, eq_ℤ, ltb_ℤ, leb_ℤ, ◌+ℤ◌, leb, ltb, ◌==◌, all, if◌then◌else◌,
}
use travel_agent_pro.Python.{py_eq, is_text}
use travel_agent_pro.Python.Dict.{
  Value, null, int, str, list, dict, Fields, get_or, put, pop, of_values,
}
use travel_agent_pro.Python.Exec.{
  Result, ok, raise, tool_error, and_then, reject_if, caught, Exec, pure, lift, gets, modify, ◌>>=◌,
  ◌>>◌,
}
use travel_agent_pro.Python.Builtins.{Builtins, py_int, get_null, subscript}
use travel_agent_pro.Python.Text.{codes, show_ℤ}
use travel_agent_pro.Plan.Encode.{fields}

abbrev pub Name : Type 0
Name = ℤ × ℤ

-- A run whose directory was not made has no files.
abbrev pub RunDir : Type 0
RunDir = List (Name × Fields)

abbrev same_name : Name → Name → Bool
same_name x y = eq_ℤ x.0 y.0 && eq_ℤ x.1 y.1

unfoldable pub read_file : Name → RunDir → Option Fields
read_file n [] = none
read_file n (f ∷ dir) = if same_name f.0 n then some f.1 else read_file n dir

unfoldable pub put_file : Name → Fields → RunDir → RunDir
put_file n p [] = (n, p) ∷ []
put_file n p (f ∷ dir) = if same_name f.0 n then (n, p) ∷ dir else f ∷ put_file n p dir

-- The objects in the files of one day.
unfoldable pub of_day : ℤ → RunDir → List Fields
of_day d [] = []
of_day d (f ∷ dir) = if eq_ℤ f.0.0 d then f.1 ∷ of_day d dir else of_day d dir

-- `re.fullmatch(r"[A-Za-z0-9_-]+", s)`
unfoldable pub validate_safe_segment : String → Result (Unit {0})
validate_safe_segment s =
    reject_if
      (str_eq s ""
        || not (
            all
              (λ c.
                leb b'A' c && leb c b'Z'
                || leb b'a' c && leb c b'z'
                || leb b'0' c && leb c b'9'
                || c == b'_'
                || c == b'-')
              (codes s)))
      (tool_error "INVALID_DAYPLAN")

-- The object that is written for a candidate.
abbrev pub candidate_payload : String → String → String → ℤ → ℤ → ℤ → Value → Fields
candidate_payload session_id run_id worker_id day attempt seq dayplan = fields (
    ("session_id", str session_id)
    ∷ ("run_id", str run_id)
    ∷ ("worker_id", str worker_id)
    ∷ ("day", int day)
    ∷ ("attempt", int attempt)
    ∷ ("seq", int seq)
    ∷ ("status", str "submitted")
    ∷ ("dayplan", dayplan)
    ∷ [])

-- `payload["status_reason"] = reason` where there is a reason, else the key is dropped.
unfoldable pub with_reason : Option String → Fields → Fields
with_reason none p = pop "status_reason" p
with_reason (some r) p =
    if str_eq r "" then pop "status_reason" p else put "status_reason" (str r) p

abbrev pub restored : ℤ → Option String → Fields → Fields
restored seq reason p = with_reason reason (put "status" (str "accepted") (put "seq" (int seq) p))

module _ (py : Builtins) where
  -- `_candidate_sequence`
  unfoldable pub candidate_sequence : Fields → Result ℤ
  candidate_sequence p =
      caught (py_int py (get_or "seq" (get_or "attempt" (int (pos 0)) p) p)) (pos 0)

  -- The greatest number so far, from `latest` on.
  unfoldable pub greatest_sequence : ℤ → List Fields → Result ℤ
  greatest_sequence latest [] = ok latest
  greatest_sequence latest (p ∷ ps) =
      and_then (candidate_sequence p)
        λ i. greatest_sequence (if ltb_ℤ latest i then i else latest) ps

  unfoldable pub next_candidate_sequence : ℤ → RunDir → Result ℤ
  next_candidate_sequence day dir =
      and_then (greatest_sequence (pos 0) (of_day day dir)) λ i. ok (i +ℤ pos 1)

  -- The loop of `get_latest_candidate`.
  unfoldable pub latest_of : Option Fields → List Fields → Result (Option Fields)
  latest_of best [] = ok best
  latest_of none (p ∷ ps) = latest_of (some p) ps
  latest_of (some b) (p ∷ ps) =
      and_then (candidate_sequence p)
        λ i. and_then (candidate_sequence b) λ j. latest_of (some (if ltb_ℤ j i then p else b)) ps

  unfoldable pub get_latest_candidate : ℤ → RunDir → Result (Option Fields)
  get_latest_candidate day dir = latest_of none (of_day day dir)

  -- The text of a file's name; paths are sorted by it.
  file_text : Name → List ℕ
  file_text n = codes "day_" ++ (show_ℤ n.0 ++ (codes "_attempt_" ++ (show_ℤ n.1 ++ codes ".json")))

  text_before : List ℕ → List ℕ → Bool
  text_before [] ys = true
  text_before (x ∷ xs) [] = false
  text_before (x ∷ xs) (y ∷ ys) = if x == y then text_before xs ys else ltb x y

  insert_path : Name × Fields → RunDir → RunDir
  insert_path f [] = f ∷ []
  insert_path f (g ∷ dir) =
      let later = insert_path f dir in
      if text_before (file_text f.0) (file_text g.0) then f ∷ g ∷ dir else g ∷ later

  unfoldable pub sorted_paths : RunDir → RunDir
  unfolding insert_path file_text text_before
  sorted_paths [] = []
  sorted_paths (f ∷ dir) = insert_path f (sorted_paths dir)

  -- `latest_by_day`, the dict of the days met so far.
  abbrev pub ByDay : Type 0
  ByDay = List (ℤ × Fields)

  unfoldable pub put_latest : ℤ → Fields → ByDay → Result ByDay
  put_latest day p [] = ok ((day, p) ∷ [])
  put_latest day p ((d, b) ∷ found) =
      let rest = put_latest day p found in
      if eq_ℤ d day
      then (and_then (candidate_sequence p)
          λ i. and_then (candidate_sequence b) λ j. ok ((d, if ltb_ℤ j i then p else b) ∷ found))
      else (and_then rest λ found'. ok ((d, b) ∷ found'))

  unfoldable pub collect_latest : ByDay → List Fields → Result ByDay
  collect_latest found [] = ok found
  collect_latest found (p ∷ ps) = and_then (subscript (dict p) "day") λ v.
      and_then (py_int py v)
        λ day. and_then (put_latest day p found) λ found'. collect_latest found' ps

  insert_day : ℤ × Fields → ByDay → ByDay
  insert_day x [] = x ∷ []
  insert_day x (y ∷ ys) =
      let later = insert_day x ys in if leb_ℤ x.0 y.0 then x ∷ y ∷ ys else y ∷ later

  sorted_days : ByDay → ByDay
  unfolding insert_day
  sorted_days [] = []
  sorted_days (x ∷ xs) = insert_day x (sorted_days xs)

  -- The latest candidate of each day in the order of the days, only those accepted if so asked.
  unfoldable pub load_latest_candidates : Bool → RunDir → Result (List Fields)
  unfolding sorted_days
  load_latest_candidates accepted_only dir =
      and_then (collect_latest [] (map (λ (f : Name × Fields). f.1) (sorted_paths dir))) λ found.
        ok (
          keep (λ p. not accepted_only || is_text (get_null "status" p) "accepted")
            (map (λ (x : ℤ × Fields). x.1) (sorted_days found)))

  module _ (validate_visit_info : Value → Result (Unit {0})) where
    -- A ToolError of the evidence becomes an error of the candidate.
    evidence_error : Result (Unit {0}) → Result (Unit {0})
    evidence_error (raise (tool_error code)) = raise (tool_error "INVALID_DAYPLAN_EVIDENCE")
    evidence_error r = r

    check_visit : Value → Result (Unit {0})
    unfolding evidence_error
    check_visit null = ok tt
    check_visit v = evidence_error (validate_visit_info v)

    check_activity : Value → Result (Unit {0})
    unfolding check_visit
    check_activity (dict a) = check_visit (get_null "visit_info" a)
    check_activity _ = ok tt

    check_activities : List Value → Result (Unit {0})
    unfolding check_activity
    check_activities [] = ok tt
    check_activities (v ∷ vs) =
        let later = check_activities vs in and_then (check_activity v) λ _. later

    check_list : Value → Result (Unit {0})
    unfolding check_activities
    check_list (list vs) = check_activities (of_values vs)
    check_list _ = raise (tool_error "INVALID_DAYPLAN")

    abbrev is_date : Value → Bool
    is_date (str s) = not (str_eq s "")
    is_date _ = false

    unfoldable pub validate_dayplan : ℤ → Value → Result (Unit {0})
    unfolding check_list
    validate_dayplan day (dict d) =
        and_then
          (reject_if (not (py_eq (get_null "day" d) (int day))) (tool_error "INVALID_DAYPLAN"))
          λ _.
            and_then (reject_if (not (is_date (get_null "date" d))) (tool_error "INVALID_DAYPLAN"))
              λ _. check_list (get_null "activities" d)
    validate_dayplan day _ = raise (tool_error "INVALID_DAYPLAN")

    -- The reply names the day and the attempt, and so the path.
    unfoldable pub submit_candidate : String → String → String → ℤ → ℤ → Value → Exec RunDir Name
    submit_candidate session_id run_id worker_id day attempt dayplan = do
      lift (validate_safe_segment worker_id)
      lift (validate_dayplan day dayplan)
      lift (validate_safe_segment session_id)
      lift (validate_safe_segment run_id)
      dir ← gets (λ dir. dir)
      seq ← lift (next_candidate_sequence day dir)
      modify (
          put_file (day, attempt)
            (candidate_payload session_id run_id worker_id day attempt seq dayplan))
      pure (day, attempt)

  rewrite : Name → (Fields → Result Fields) → Exec RunDir Bool
  rewrite name change dir = elim (read_file name dir) [
    | none ↦ (ok false, dir)
    | some p ↦ elim (change p) [ ok q ↦ (ok true, put_file name q dir) | raise e ↦ (raise e, dir) ]
  ]

  unfoldable pub update_candidate_status : ℤ → ℤ → String → Option String → Exec RunDir Bool
  unfolding rewrite
  update_candidate_status day attempt status reason dir =
      if str_eq status "accepted" || str_eq status "rejected"
      then rewrite (day, attempt) (λ p. ok (with_reason reason (put "status" (str status) p))) dir
      else (raise (tool_error "INVALID_DAYPLAN"), dir)

  unfoldable pub update_latest_candidate_status : ℤ → String → Option String → Exec RunDir Bool
  update_latest_candidate_status day status reason dir = elim (get_latest_candidate day dir) [
    | raise e ↦ (raise e, dir)
    | ok none ↦ (ok false, dir)
    | ok (some p) ↦ elim (py_int py (get_or "attempt" (int (pos 0)) p)) [
      | raise e ↦ (raise e, dir)
      | ok attempt ↦ update_candidate_status day attempt status reason dir
    ]
  ]

  unfoldable pub restore_candidate_as_latest : ℤ → ℤ → Option String → Exec RunDir Bool
  unfolding rewrite
  restore_candidate_as_latest day attempt reason dir =
      rewrite (day, attempt)
        (λ p. and_then (next_candidate_sequence day dir) λ seq. ok (restored seq reason p)) dir
