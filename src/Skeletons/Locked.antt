-- ===== src/Skeletons/Locked.antt =====
-- What `select_skeleton` of backend/tools/plan_tools/phase2_tools.py selects.
use travel_agent_pro.Prelude.{
  ◌≡◌, refl, ap, Bool, Option, none, length, eq_ℤ_iff, sym, ◌∙◌, true, false, some, List, [], ◌∷◌,
  any, String, str_eq, eq_iff, eq_refl, ◌⊎◌, inl, inr, pos, Bool-cases, Option-cases, arith,
}
use travel_agent_pro.Python.{truthy, py_eq, is_some, is_text}
use travel_agent_pro.Python.Text.{one_of, strip, codes, is_space}
use travel_agent_pro.Python.Dict.{
  Value, Values, null, bool, int, float, str, list, dict, nil, cons, Fields, of_values,
}
use travel_agent_pro.Python.Exec.{Exception, ok, raise, Result-cases}
use travel_agent_pro.Python.Builtins.{Builtins, get_null}
use travel_agent_pro.Plan.Model.{TravelPlanState, DateRange}
use travel_agent_pro.Plan.Days.{total_days}
use travel_agent_pro.Plan.Step.{dict_items, dicts_of, names_skeleton, infer_phase2_step, infer_of}
use travel_agent_pro.Plan.Encode.{fields}
use travel_agent_pro.Daily.Writers.{append_decision_event}
use travel_agent_pro.Daily.Checks.{is_filled}
use travel_agent_pro.Writers.Single.{write_selected_skeleton_id}
use travel_agent_pro.Skeletons.Days.{invalid, count_days, validate_skeleton_day_count}
use travel_agent_pro.Skeletons.Tools.{
  stripped, IdMap, find_id, note_id, note_item, collect_ids, validated_skeleton_id_map,
  check_selected, resolve_id, select_skeleton,
}

-- A text with something in it that stands as the id of a skeleton.
abbrev pub HasId : String → List Value → Type 0
HasId s [] = ⊥
HasId s (dict d ∷ vs) = (get_null "id" d ≡ str s) ⊎ HasId s vs
HasId s (_ ∷ vs) = HasId s vs

-- What holds of each id in a map.
abbrev Valid : (String → Type 0) → List (String × String) → Type 0
Valid P [] = Unit
Valid P ((k, s) ∷ m) = (P s × (str_eq (strip s) "" ≡ false) × (strip s ≡ k)) × Valid P m

find-Valid :
    (P : String → Type 0) (k s : String) (m : List (String × String))
    → Valid P m
    → find_id k m ≡ some s
    → P s × (str_eq (strip s) "" ≡ false) × (strip s ≡ k)
unfolding find_id
find-Valid P k s [] h e = absurd (cc)
find-Valid P k s ((j, t) ∷ m) (h, hs) e = elim (Bool-cases (str_eq j k)) [
  | inl f ↦
      let same : t ≡ s = ground (arith, f) in
      let asked : j ≡ k = (eq_iff j k).0 f in rw (sym same) (h.0, h.1, h.2 ∙ asked)
  | inr f ↦ find-Valid P k s m hs (ground (arith, f))
]

module _ (P : String → Type 0) where
  note_id-Valid :
      (v : Value) (m : IdMap)
      → ((s : String) → v ≡ str s → P s)
      → Valid P m.valid
      → Valid P (note_id v m).valid
  unfolding note_id
  note_id-Valid (str s) m p h = elim (Bool-cases (str_eq (strip s) "")) [
    | inl e ↦ rw e h
    | inr e ↦ elim (Bool-cases (is_some (find_id (strip s) m.valid))) [
      | inl f ↦ rw e (rw f h)
      | inr f ↦ rw e (rw f ((p s refl, e, refl), h))
    ]
  ]
  note_id-Valid null m p h = h
  note_id-Valid (bool b) m p h = h
  note_id-Valid (int i) m p h = h
  note_id-Valid (float x) m p h = h
  note_id-Valid (list l) m p h = h
  note_id-Valid (dict d) m p h = h

  collect-Valid :
      (vs : List Value) (m : IdMap)
      → ((s : String) → HasId s vs → P s)
      → Valid P m.valid
      → Valid P (collect_ids vs m).valid
  unfolding collect_ids note_item
  collect-Valid [] m p h = h
  collect-Valid (dict d ∷ vs) m p h =
      collect-Valid vs (note_id (get_null "id" d) m) (λ s i. p s (inr i))
        (note_id-Valid (get_null "id" d) m (λ s e. p s (inl e)) h)
  collect-Valid (null ∷ vs) m p h = collect-Valid vs m p h
  collect-Valid (bool b ∷ vs) m p h = collect-Valid vs m p h
  collect-Valid (int i ∷ vs) m p h = collect-Valid vs m p h
  collect-Valid (float x ∷ vs) m p h = collect-Valid vs m p h
  collect-Valid (str s ∷ vs) m p h = collect-Valid vs m p h
  collect-Valid (list l ∷ vs) m p h = collect-Valid vs m p h

resolved_id :
    (id s : String) (vs : List Value)
    → resolve_id id (validated_skeleton_id_map vs) ≡ ok s
    → HasId s vs × (str_eq (strip s) "" ≡ false) × (strip s ≡ id)
unfolding resolve_id validated_skeleton_id_map
resolved_id id s vs h =
    let m = collect_ids vs (record { valid = []; colliding = [] }) in
    elim (Bool-cases (one_of m.colliding id)) [
      | inl e ↦ absurd (ground (arith, e))
      | inr e ↦ elim (Option-cases (find_id id m.valid)) [
        | inl f ↦ absurd (ground (arith, e, f))
        | inr (t, f) ↦
            let same : t ≡ s = ground (arith, e, f) in
            find-Valid (λ s. HasId s vs) id s m.valid
              (collect-Valid (λ s. HasId s vs) vs (record { valid = []; colliding = [] }) (λ s i. i)
                tt)
              (rw (sym same) f)
      ]
    ]

-- One type or another one.
abbrev pub Either : Bool → Type 0 → Type 0 → Type 0
Either true A B = A
Either false A B = B

-- Days that are a list are as many as those of the trip.
abbrev pub CountAgrees : DateRange → Value → Type 0
CountAgrees d (list vs) = total_days d ≡ ok (pos (length (of_values vs)))
CountAgrees d _ = Unit

-- With dates, this holds of the first skeleton with an id.
abbrev pub FirstAgrees : Option DateRange → String → List Value → Type 0
FirstAgrees none id vs = Unit
FirstAgrees (some d) id [] = Unit
FirstAgrees (some d) id (dict k ∷ vs) =
    Either (is_text (get_null "id" k) id) (CountAgrees d (get_null "days" k))
      (FirstAgrees (some d) id vs)
FirstAgrees (some d) id (_ ∷ vs) = FirstAgrees (some d) id vs

count_days-CountAgrees : (d : DateRange) (v : Value) → count_days d v ≡ ok tt → CountAgrees d v
unfolding count_days
count_days-CountAgrees d (list vs) h = elim (Result-cases (total_days d)) [
  | inl (n, e) ↦ ground (arith, h, e, eq_ℤ_iff (pos (length (of_values vs))) n)
  | inr (x, e) ↦ absurd (ground (arith, h, e))
]
count_days-CountAgrees d null h = tt
count_days-CountAgrees d (bool b) h = tt
count_days-CountAgrees d (int i) h = tt
count_days-CountAgrees d (float x) h = tt
count_days-CountAgrees d (str s) h = tt
count_days-CountAgrees d (dict f) h = tt

check_selected-FirstAgrees :
    (dates : Option DateRange) (id : String) (vs : List Value)
    → check_selected dates id vs ≡ ok tt
    → FirstAgrees dates id vs
unfolding check_selected validate_skeleton_day_count
check_selected-FirstAgrees none id vs h = tt
check_selected-FirstAgrees (some d) id [] h = tt
check_selected-FirstAgrees (some d) id (dict k ∷ vs) h =
    elim (Bool-cases (is_text (get_null "id" k) id)) [
      | inl e ↦ rw e (count_days-CountAgrees d (get_null "days" k) (rw e at h))
      | inr e ↦ rw e (check_selected-FirstAgrees (some d) id vs (rw e at h))
    ]
check_selected-FirstAgrees (some d) id (null ∷ vs) h = check_selected-FirstAgrees (some d) id vs h
check_selected-FirstAgrees (some d) id (bool b ∷ vs) h = check_selected-FirstAgrees (some d) id vs h
check_selected-FirstAgrees (some d) id (int i ∷ vs) h = check_selected-FirstAgrees (some d) id vs h
check_selected-FirstAgrees (some d) id (float x ∷ vs) h =
    check_selected-FirstAgrees (some d) id vs h
check_selected-FirstAgrees (some d) id (str s ∷ vs) h = check_selected-FirstAgrees (some d) id vs h
check_selected-FirstAgrees (some d) id (list l ∷ vs) h = check_selected-FirstAgrees (some d) id vs h

-- What stands as an id is found by the router.
HasId-names_skeleton :
    (s : String) (vs : Values)
    → HasId s (of_values vs)
    → any (names_skeleton (str s)) (dict_items vs) ≡ true
unfolding names_skeleton py_eq
HasId-names_skeleton s nil h = absurd h
HasId-names_skeleton s (cons (dict d) vs) (inl e) = ground (arith, e, eq_refl s)
HasId-names_skeleton s (cons (dict d) vs) (inr i) = ground (arith, HasId-names_skeleton s vs i)
HasId-names_skeleton s (cons null vs) h = HasId-names_skeleton s vs h
HasId-names_skeleton s (cons (bool b) vs) h = HasId-names_skeleton s vs h
HasId-names_skeleton s (cons (int i) vs) h = HasId-names_skeleton s vs h
HasId-names_skeleton s (cons (float x) vs) h = HasId-names_skeleton s vs h
HasId-names_skeleton s (cons (str t) vs) h = HasId-names_skeleton s vs h
HasId-names_skeleton s (cons (list l) vs) h = HasId-names_skeleton s vs h

filled-text : (v : Value) → is_filled v ≡ true → (t : String) × (v ≡ str t)
filled-text (str t) h = (t, refl)
filled-text null h = absurd (cc)
filled-text (bool b) h = absurd (cc)
filled-text (int i) h = absurd (cc)
filled-text (float x) h = absurd (cc)
filled-text (list vs) h = absurd (cc)
filled-text (dict d) h = absurd (cc)

blank : str_eq (strip "") "" ≡ true
unfolding strip codes is_space
blank = refl

not_empty : (s : String) → str_eq (strip s) "" ≡ false → truthy (str s) ≡ true
unfolding truthy
not_empty s h = elim (Bool-cases (str_eq s "")) [
  | inl e ↦ absurd (ground (arith, blank, rw ((eq_iff s "").0 e) at h))
  | inr e ↦ rw e refl
]

module _ (vs : Values) (s : TravelPlanState) (listed : s.skeleton_plans ≡ list vs) where
  -- The plan with the selection recorded.
  abbrev pub selecting : String → List Fields → TravelPlanState
  selecting id events = record s { selected_skeleton_id = str id; decision_events = events }

  abbrev decided : String → List Fields
  decided id =
      (append_decision_event "" "skeleton" (dict (fields (("id", str id) ∷ [])))
        "selected_skeleton_id updated in plan state" s).decision_events

  step_lock :
      (id : String) (events : List Fields)
      → s.phase ≡ pos 2
      → is_some s.dates ≡ true
      → truthy s.trip_brief ≡ true
      → HasId id (of_values vs)
      → truthy (str id) ≡ true
      → infer_of (selecting id events) ≡ ok "lock"
  unfolding infer_phase2_step dicts_of
  step_lock id events phase dated brief has filled =
      ground (arith, phase, dated, brief, filled, listed, HasId-names_skeleton id vs has)

  -- Where the skeletons are a list: a call of `select_skeleton` raises and leaves the plan as it was, or
  -- its argument is a text that is, but for blanks around either, the id of one of the skeletons; it
  -- selects that id as it stands there, and changes nothing else but the record of decisions. With dates,
  -- the days of the first skeleton with that id, if they are a list, are as many as those of the trip.
  -- Then, in phase 2 with dates and a brief, the step that the router infers is "lock".
  pub select_outcome :
      (py : Builtins) (v : Value)
      → ((x : Exception) × (select_skeleton py v s ≡ (raise x, s)))
        ⊎ ((t : String) × (id : String) × (events : List Fields) × (v ≡ str t)
            × (strip id ≡ strip t)
            × (select_skeleton py v s ≡ (ok (id, s.selected_skeleton_id), selecting id events))
            × HasId id (of_values vs)
            × FirstAgrees s.dates id (of_values vs)
            × (s.phase ≡ pos 2
                → is_some s.dates ≡ true
                → truthy s.trip_brief ≡ true
                → infer_of (selecting id events) ≡ ok "lock"))
  unfolding select_skeleton write_selected_skeleton_id append_decision_event
  select_outcome py v = elim (Bool-cases (is_filled v)) [
    | inr e ↦ inl (invalid, rw e refl)
    | inl e ↦
        elim (Result-cases (resolve_id (stripped v) (validated_skeleton_id_map (of_values vs)))) [
          | inr (x, f) ↦ inl (x, rw e (rw listed (rw f refl)))
          | inl (id, f) ↦ elim (Result-cases (check_selected s.dates id (of_values vs))) [
            | inr (x, g) ↦ inl (x, rw e (rw listed (rw f (rw g refl))))
            | inl (u, g) ↦
                let (has, filled, asked) = resolved_id (stripped v) id (of_values vs) f in
                let (t, text) = filled-text v e in
                inr (
                  t,
                  id,
                  decided id,
                  text,
                  asked ∙ ap stripped text,
                  rw e (rw listed (rw f (rw g refl))),
                  has,
                  check_selected-FirstAgrees s.dates id (of_values vs) g,
                  (λ phase dated brief.
                      step_lock id (decided id) phase dated brief has (not_empty id filled)),
                )
          ]
        ]
  ]
