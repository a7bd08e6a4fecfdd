-- ===== src/Store/Refines.antt =====
-- The writes of backend/agent/phase3/candidate_store.py as changes of each day's latest candidate.
use travel_agent_pro.Prelude.{
  ◌≡◌, refl, ap, Bool, true, false, Option, none, some, String, str_eq, eq_iff, ℤ, eq_ℤ, ◌⊎◌, inl,
  inr, All, arith, Bool-cases, Option-cases, if◌then◌else◌,
}
use travel_agent_pro.Python.Dict.{Value, str, int, Fields, empty, entry, get, put, pop, get-put}
use travel_agent_pro.Python.Exec.{Exception, Result, ok, raise, Result-cases}
use travel_agent_pro.Python.Builtins.{Builtins}
use travel_agent_pro.Store.Candidates.{
  RunDir, Name, of_day, read_file, put_file, candidate_sequence, next_candidate_sequence,
  candidate_payload, submit_candidate, with_reason, restored, restore_candidate_as_latest,
  validate_safe_segment, validate_dayplan,
}
use travel_agent_pro.Store.Latest.{Below, next_sequence-Below, view, written_latest}

get-pop : (k j : String) (d : Fields) → str_eq k j ≡ false → get j (pop k d) ≡ get j d
unfolding get pop
get-pop k j empty differs = refl
get-pop k j (entry i v d) differs =
    ground (arith, eq_iff k j, eq_iff i k, eq_iff i j, get-pop k j d differs)

-- A reason touches no other key.
get-with_reason :
    (j : String) (reason : Option String) (p : Fields)
    → str_eq "status_reason" j ≡ false
    → get j (with_reason reason p) ≡ get j p
unfolding with_reason
get-with_reason j none p differs = get-pop "status_reason" j p differs
get-with_reason j (some r) p differs = elim (Bool-cases (str_eq r "")) [
  | inl e ↦ rw e (get-pop "status_reason" j p differs)
  | inr e ↦ rw e (rw (get-put "status_reason" j (str r) p) (rw differs refl))
]

get-restored_seq :
    (n : ℤ) (reason : Option String) (p : Fields) → get "seq" (restored n reason p) ≡ some (int n)
get-restored_seq n reason p =
    rw (get-with_reason "seq" reason (put "status" (str "accepted") (put "seq" (int n) p)) refl) (
      rw (get-put "status" "seq" (str "accepted") (put "seq" (int n) p))
        (get-put "seq" "seq" (int n) p))

get-restored_status :
    (n : ℤ) (reason : Option String) (p : Fields)
    → get "status" (restored n reason p) ≡ some (str "accepted")
get-restored_status n reason p =
    rw (get-with_reason "status" reason (put "status" (str "accepted") (put "seq" (int n) p)) refl)
      (get-put "status" "status" (str "accepted") (put "seq" (int n) p))

get-restored_dayplan :
    (n : ℤ) (reason : Option String) (p : Fields)
    → get "dayplan" (restored n reason p) ≡ get "dayplan" p
get-restored_dayplan n reason p =
    rw (get-with_reason "dayplan" reason (put "status" (str "accepted") (put "seq" (int n) p)) refl)
      (rw (get-put "status" "dayplan" (str "accepted") (put "seq" (int n) p))
        (get-put "seq" "dayplan" (int n) p))

module _ (py : Builtins) where
  numbered-sequence :
      (n : ℤ) (p : Fields) → get "seq" p ≡ some (int n) → candidate_sequence py p ≡ ok n
  unfolding candidate_sequence
  numbered-sequence n p h = ground (arith, h)

  restored-sequence :
      (n : ℤ) (reason : Option String) (p : Fields)
      → candidate_sequence py (restored n reason p) ≡ ok n
  restored-sequence n reason p =
      numbered-sequence n (restored n reason p) (get-restored_seq n reason p)

  -- The abstract write: one day's latest candidate is another one.
  abbrev pub updated : (ℤ → Result (Option Fields)) → ℤ → Fields → ℤ → Result (Option Fields)
  updated latest day p e = if eq_ℤ day e then ok (some p) else latest e

  module _ (validate_visit_info : Value → Result (Unit {0})) (session_id run_id worker_id : String)
      (day attempt : ℤ) (dayplan : Value) (dir : RunDir) where
    abbrev submitted : Result Name × RunDir
    submitted =
        submit_candidate py validate_visit_info session_id run_id worker_id day attempt dayplan dir

    abbrev payload : ℤ → Fields
    payload n = candidate_payload session_id run_id worker_id day attempt n dayplan

    submit_cases :
        ((x : Exception) × (submitted ≡ (raise x, dir)))
        ⊎ ((n : ℤ) × (submitted ≡ (ok (day, attempt), put_file (day, attempt) (payload n) dir))
            × (next_candidate_sequence py day dir ≡ ok n))
    unfolding submit_candidate
    submit_cases = elim (Result-cases (validate_safe_segment worker_id)) [
      | inr (x, e) ↦ inl (x, ground (arith, e))
      | inl (u, ew) ↦ elim (Result-cases (validate_dayplan py validate_visit_info day dayplan)) [
        | inr (x, e) ↦ inl (x, ground (arith, ew, e))
        | inl (v, ed) ↦ elim (Result-cases (validate_safe_segment session_id)) [
          | inr (x, e) ↦ inl (x, ground (arith, ew, ed, e))
          | inl (w, es) ↦ elim (Result-cases (validate_safe_segment run_id)) [
            | inr (x, e) ↦ inl (x, ground (arith, ew, ed, es, e))
            | inl (t, er) ↦ elim (Result-cases (next_candidate_sequence py day dir)) [
              | inr (x, e) ↦ inl (x, ground (arith, ew, ed, es, er, e))
              | inl (n, e) ↦ inr (n, ground (arith, ew, ed, es, er, e), e)
            ]
          ]
        ]
      ]
    ]

    payload-sequence : (n : ℤ) → candidate_sequence py (payload n) ≡ ok n
    unfolding candidate_sequence get
    payload-sequence n = refl

    -- A submission raises and leaves every file as it was, or the candidate that was submitted is the
    -- latest one of its day from then on, and the latest ones of all other days are as before. Its number
    -- is above the numbers of all candidates that the day had.
    pub submit_refines :
        ((x : Exception) × (submitted ≡ (raise x, dir)))
        ⊎ ((n : ℤ) × (submitted.0 ≡ ok (day, attempt))
            × (candidate_sequence py (payload n) ≡ ok n)
            × All (Below py n) (of_day day dir)
            × ((e : ℤ) → view py submitted.1 e ≡ updated (view py dir) day (payload n) e))
    submit_refines = elim (submit_cases) [
      | inl (x, e) ↦ inl (x, e)
      | inr (n, e, next) ↦ inr (
        n,
        ap (λ (r : Result Name × RunDir). r.0) e,
        payload-sequence n,
        next_sequence-Below py day n dir next,
        (λ d. rw e (written_latest py day attempt n (payload n) dir (payload-sequence n) next d)),
      )
    ]

  module _ (day attempt : ℤ) (reason : Option String) (dir : RunDir) where
    abbrev again : Result Bool × RunDir
    again = restore_candidate_as_latest py day attempt reason dir

    restore_cases :
        (again.0 ≡ ok true)
        → (p : Fields) × (n : ℤ) × (read_file (day, attempt) dir ≡ some p)
          × (next_candidate_sequence py day dir ≡ ok n)
          × (again.1 ≡ put_file (day, attempt) (restored n reason p) dir)
    unfolding restore_candidate_as_latest
    restore_cases h = elim (Option-cases (read_file (day, attempt) dir)) [
      | inl e ↦ absurd (ground (arith, e))
      | inr (p, e) ↦ elim (Result-cases (next_candidate_sequence py day dir)) [
        | inl (n, f) ↦ (p, n, e, f, ground (arith, e, f))
        | inr (x, f) ↦ absurd (ground (arith, e, f))
      ]
    ]

    -- A restoration that returns true has found the attempt: with the same day plan, accepted and with a
    -- number above those of all candidates that the day had, it is the latest candidate of its day from
    -- then on, and the latest ones of all other days are as before.
    pub restore_refines :
        again.0 ≡ ok true
        → (p : Fields) × (q : Fields) × (n : ℤ) × (read_file (day, attempt) dir ≡ some p)
          × (get "seq" q ≡ some (int n))
          × All (Below py n) (of_day day dir)
          × (get "dayplan" q ≡ get "dayplan" p)
          × (get "status" q ≡ some (str "accepted"))
          × ((e : ℤ) → view py again.1 e ≡ updated (view py dir) day q e)
    restore_refines h =
        let (p, n, found, next, e) = restore_cases h in
        (
          p,
          restored n reason p,
          n,
          found,
          get-restored_seq n reason p,
          next_sequence-Below py day n dir next,
          get-restored_dayplan n reason p,
          get-restored_status n reason p,
          (λ d. rw e (
              written_latest py day attempt n (restored n reason p) dir
                (restored-sequence n reason p) next d)),
        )
