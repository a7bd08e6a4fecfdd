-- ===== src/Skeletons/Places.antt =====
-- What the checks of backend/tools/plan_tools/phase2_tools.py make of accepted skeletons.
use travel_agent_pro.Prelude.{
  ◌≡◌, refl, ℕ, ◌+◌, ◌≤◌, Bool, true, false, not, some, List, [], ◌∷◌, ◌++◌, length, String, eq_iff,
  pos, eq_ℤ, Bool-cases, inl, inr, arith, All,
}
use travel_agent_pro.Python.Text.{one_of}
use travel_agent_pro.Python.Dict.{
  Value, Values, null, bool, int, float, str, list, dict, nil, cons, Fields, of_values,
}
use travel_agent_pro.Python.Exec.{ok, tool_error, reject_if, and_then-eq-ok}
use travel_agent_pro.Python.Builtins.{get_null}
use travel_agent_pro.Plan.Model.{DateRange}
use travel_agent_pro.Plan.Days.{total_days}
use travel_agent_pro.Plan.Step.{dict_items, names_skeleton}
use travel_agent_pro.Phase.Router.{days_agree, days_match}
use travel_agent_pro.Tools.History.{occurrences, occurrences-append}
use travel_agent_pro.Skeletons.Days.{
  items_in, register_poi, register_pois, check_day, register_day, register_days, validate_skeleton,
  validate_skeleton_days, count_days, validate_days, validate_skeleton_day_count,
  validate_day_counts,
}

abbrev texts_of : List Value → List String
texts_of [] = []
texts_of (str s ∷ vs) = s ∷ texts_of vs
texts_of (_ ∷ vs) = texts_of vs

-- The places of some days, each as often as it stands there.
abbrev pub places : List Fields → List String
places [] = []
places (d ∷ ds) =
    texts_of (items_in (get_null "locked_pois" d))
    ++ (texts_of (items_in (get_null "candidate_pois" d)) ++ places ds)

-- The days of a skeleton, none where they are no list.
abbrev pub days_of : Value → Values
days_of (list vs) = vs
days_of _ = nil

abbrev pub days_in : Fields → Values
days_in s = days_of (get_null "days" s)

abbrev bit : Bool → ℕ
bit true = 1
bit false = 0

module _ (q : String) where
  register_pois-bit :
      (vs : List Value) (owners after : List String)
      → register_pois vs owners ≡ ok after
      → bit (one_of after q) ≡ occurrences q (texts_of vs) + bit (one_of owners q)
  unfolding register_pois register_poi
  register_pois-bit [] owners after h = ground arith
  register_pois-bit (str s ∷ vs) owners after h = elim (Bool-cases (one_of owners s)) [
    | inl e ↦ absurd (ground (arith, e))
    | inr e ↦ ground (arith, e, eq_iff s q, eq_iff q s, register_pois-bit vs (s ∷ owners) after)
  ]
  register_pois-bit (null ∷ vs) owners after h = register_pois-bit vs owners after h
  register_pois-bit (bool b ∷ vs) owners after h = register_pois-bit vs owners after h
  register_pois-bit (int i ∷ vs) owners after h = register_pois-bit vs owners after h
  register_pois-bit (float x ∷ vs) owners after h = register_pois-bit vs owners after h
  register_pois-bit (list l ∷ vs) owners after h = register_pois-bit vs owners after h
  register_pois-bit (dict d ∷ vs) owners after h = register_pois-bit vs owners after h

  both-bit :
      (locked candidates : List Value) (rest owners o after : List String)
      → register_pois locked owners ≡ ok o
      → register_pois candidates o ≡ ok after
      → bit (one_of after q) + occurrences q rest
        ≡ occurrences q (texts_of locked ++ (texts_of candidates ++ rest)) + bit (one_of owners q)
  both-bit locked candidates rest owners o after h k = omega (
    arith,
    register_pois-bit locked owners o h,
    register_pois-bit candidates o after k,
    occurrences-append q (texts_of locked) (texts_of candidates ++ rest),
    occurrences-append q (texts_of candidates) rest,
  )

  register_day-bit :
      (d : Fields) (ds : List Fields) (owners after : List String)
      → register_day d owners ≡ ok after
      → bit (one_of after q) + occurrences q (places ds)
        ≡ occurrences q (places (d ∷ ds)) + bit (one_of owners q)
  unfolding register_day
  register_day-bit d ds owners after h =
      let locked = items_in (get_null "locked_pois" d) in
      let candidates = items_in (get_null "candidate_pois" d) in
      let (u, h₁, k₁) = and_then-eq-ok (check_day d) _ h in
      let (o, h₂, k₂) = and_then-eq-ok (register_pois locked owners) _ k₁ in
      both-bit locked candidates (places ds) owners o after h₂ k₂

  register_days-bit :
      (ds : List Fields) (owners after : List String)
      → register_days ds owners ≡ ok after
      → bit (one_of after q) ≡ occurrences q (places ds) + bit (one_of owners q)
  unfolding register_days
  register_days-bit [] owners after h = ground arith
  register_days-bit (d ∷ ds) owners after h =
      let (o, h₁, k₁) = and_then-eq-ok (register_day d owners) _ h in
      omega (arith, register_day-bit d ds owners o h₁, register_days-bit ds o after k₁)

  bit_le : (b : Bool) → bit b ≤ 1
  bit_le true = omega arith
  bit_le false = omega arith

  days_places :
      (ds : List Fields) (after : List String)
      → register_days ds [] ≡ ok after
      → occurrences q (places ds) ≤ 1
  days_places ds after h = omega (arith, register_days-bit ds [] after h, bit_le (one_of after q))

  value_places :
      (v : Value) → validate_days v ≡ ok tt → occurrences q (places (dict_items (days_of v))) ≤ 1
  unfolding validate_days
  value_places (list nil) h = omega arith
  value_places (list (cons v vs)) h =
      let (after, h₁, k₁) = and_then-eq-ok (register_days (dict_items (cons v vs)) []) _ h in
      days_places (dict_items (cons v vs)) after h₁
  value_places null h = omega arith
  value_places (bool b) h = omega arith
  value_places (int i) h = omega arith
  value_places (float x) h = omega arith
  value_places (str s) h = omega arith
  value_places (dict d) h = omega arith

  pub skeletons_places :
      (ss : List Fields)
      → validate_skeleton_days ss ≡ ok tt
      → All (λ (s : Fields). occurrences q (places (dict_items (days_in s))) ≤ 1) ss
  unfolding validate_skeleton_days
  skeletons_places [] h = tt
  skeletons_places (s ∷ ss) h =
      let (u, h₁, k₁) = and_then-eq-ok (validate_skeleton s) _ h in
      (value_places (get_null "days" s) h₁, skeletons_places ss k₁)

-- Where each skeleton's days were counted against the dates, the one that is selected, whichever it is,
-- has as many days as the trip.
module _ (d : DateRange) (selected : Value) where
  counted_eq :
      (b : Bool)
      → reject_if (not b) (tool_error "SKELETON_DAY_COUNT_MISMATCH") ≡ ok tt
      → ok b ≡ ok true
  counted_eq true h = refl
  counted_eq false h = absurd (cc)

  counted_days : (v : Value) → count_days d v ≡ ok tt → days_agree d v ≡ ok true
  unfolding count_days days_agree
  counted_days (list vs) h =
      let (n, h₁, k₁) = and_then-eq-ok (total_days d) _ h in
      rw h₁ (counted_eq (eq_ℤ (pos (length (of_values vs))) n) k₁)
  counted_days null h = refl
  counted_days (bool b) h = refl
  counted_days (int i) h = refl
  counted_days (float x) h = refl
  counted_days (str s) h = refl
  counted_days (dict e) h = refl

  pub counted-days_match :
      (ss : List Fields)
      → validate_day_counts (some d) ss ≡ ok tt
      → days_match selected d ss ≡ ok true
  unfolding validate_day_counts validate_skeleton_day_count days_match
  counted-days_match [] h = refl
  counted-days_match (s ∷ ss) h =
      let (u, h₁, k₁) = and_then-eq-ok (validate_skeleton_day_count (some d) s) _ h in
      let later = counted-days_match ss k₁ in
      elim (Bool-cases (names_skeleton selected s)) [
        | inl e ↦ rw e (counted_days (get_null "days" s) h₁)
        | inr e ↦ rw e later
      ]
