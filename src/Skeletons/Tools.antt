-- ===== src/Skeletons/Tools.antt =====
-- The tools `set_skeleton_plans` and `select_skeleton` of backend/tools/plan_tools/phase2_tools.py.
use travel_agent_pro.Prelude.{
  ℕ, Bool, true, false, not, ◌||◌, ◌==◌, Option, none, some, List, [], ◌∷◌, map, length, any, keep,
  String, str_eq, if◌then◌else◌,
}
use travel_agent_pro.Python.Text.{one_of, strip}
use travel_agent_pro.Python.{is_text, is_some}
use travel_agent_pro.Python.Dict.{Value, str, list, dict, Fields, of_values, to_values, put}
use travel_agent_pro.Python.Exec.{
  Result, ok, raise, and_then, reject_if, Exec, pure, throw, lift, gets, modify, ◌>>=◌, ◌>>◌,
}
use travel_agent_pro.Python.Builtins.{Builtins, get_null, iterate}
use travel_agent_pro.Plan.Model.{TravelPlanState, DateRange}
use travel_agent_pro.Plan.Step.{names_skeleton}
use travel_agent_pro.Daily.Checks.{is_filled}
use travel_agent_pro.Writers.Single.{
  write_skeleton_plans, write_selected_skeleton_id, clear_selected_skeleton_id,
}
use travel_agent_pro.Skeletons.Days.{
  invalid, validate_skeleton_day_count, validate_skeleton_days, validate_day_counts,
}

-- A text without the blanks around it.
abbrev pub stripped : Value → String
stripped (str s) = strip s
stripped _ = ""

abbrev pub normal : Fields → Fields
normal p =
    put "name" (str (stripped (get_null "name" p))) (put "id" (str (stripped (get_null "id" p))) p)

-- The id and the name are texts, and the id is new.
unfoldable pub check_names : List String → Fields → Result (Unit {0})
check_names seen p = and_then (reject_if (not (is_filled (get_null "id" p))) invalid) λ _.
    and_then (reject_if (not (is_filled (get_null "name" p))) invalid)
      λ _. reject_if (one_of seen (stripped (get_null "id" p))) invalid

-- The first loop of `set_skeleton_plans`, with the ids before.
unfoldable pub normalize_plans : List String → List Value → Result (List Fields)
normalize_plans seen [] = ok []
normalize_plans seen (dict p ∷ vs) =
    and_then (check_names seen p) λ _.
      and_then (normalize_plans (stripped (get_null "id" p) ∷ seen) vs) λ ps. ok (normal p ∷ ps)
normalize_plans seen (_ ∷ vs) = raise invalid

-- Whether an earlier skeleton goes by the selected text as its id, and as its name.
unfoldable pub match_previous : String → Value → Bool × Bool
match_previous selected (dict d) = (named (get_null "id" d), named (get_null "name" d))
  where
    named : Value → Bool
    named (str s) = str_eq (strip s) selected
    named _ = false
match_previous selected _ = (false, false)

abbrev matched : Bool × Bool → Bool
matched m = m.0 || m.1

-- `write_if_uniquely_resolved`
unfoldable pub write_if_unique : List Fields → Value → Exec TravelPlanState (Unit {0})
write_if_unique plans candidate =
    if length (keep (names_skeleton candidate) plans) == 1
    then write_selected_skeleton_id candidate
    else modify clear_selected_skeleton_id

-- The ids of the new skeletons with the selected text as their name.
abbrev pub ids_named : String → List Fields → List Value
ids_named selected plans =
    map (get_null "id") (keep (λ p. is_text (get_null "name" p) selected) plans)

-- `write_if_uniquely_resolved(ids[0])` where there is exactly one.
unfoldable pub write_only : List Fields → List Value → Exec TravelPlanState (Unit {0})
write_only plans (i ∷ []) = write_if_unique plans i
write_only plans _ = modify clear_selected_skeleton_id

-- For the one earlier skeleton that was selected.
unfoldable pub write_successor :
    List Fields → String → Bool × Bool → Exec TravelPlanState (Unit {0})
write_successor plans selected (false, by_name) = write_only plans (ids_named selected plans)
write_successor plans selected (true, by_name) =
    if any (λ p. is_text (get_null "id" p) selected) plans
    then write_if_unique plans (str selected)
    else if by_name
    then write_only plans (ids_named selected plans)
    else modify clear_selected_skeleton_id

-- What the earlier skeletons that match leave to write.
unfoldable pub reconcile_matches :
    List Fields → String → List (Bool × Bool) → Exec TravelPlanState (Unit {0})
reconcile_matches plans selected (m ∷ []) = write_successor plans selected m
reconcile_matches plans selected _ = modify clear_selected_skeleton_id

unfoldable pub reconcile_selected :
    List Value → List Fields → Value → Exec TravelPlanState (Unit {0})
reconcile_selected previous plans (str s) =
    reconcile_matches plans (strip s) (keep matched (map (match_previous (strip s)) previous))
reconcile_selected previous plans _ = pure tt

-- The reply: how many skeletons there are, and how many there were.
unfoldable pub set_skeleton_plans : Builtins → Value → Exec TravelPlanState (ℕ × ℕ)
set_skeleton_plans py (list vs) = do
  plans ← lift (normalize_plans [] (of_values vs))
  lift (validate_skeleton_days plans)
  dates ← gets (λ plan. plan.dates)
  lift (validate_day_counts dates plans)
  before ← gets (λ plan. plan.skeleton_plans)
  previous ← lift (iterate py before)
  write_skeleton_plans (list (to_values (map dict plans)))
  selected ← gets (λ plan. plan.selected_skeleton_id)
  reconcile_selected previous plans selected
  pure (length plans, length previous)
set_skeleton_plans py _ = throw invalid

-- The ids as they are written, under their stripped form, and those that clash.
pub record IdMap : Type 0 where
  pub valid : List (String × String)
  pub colliding : List String

unfoldable pub find_id : String → List (String × String) → Option String
find_id k [] = none
find_id k ((j, s) ∷ m) = if str_eq j k then some s else find_id k m

unfoldable pub note_id : Value → IdMap → IdMap
note_id (str s) m =
    if str_eq (strip s) ""
    then m
    else if is_some (find_id (strip s) m.valid)
    then record m { colliding = strip s ∷ m.colliding }
    else record m { valid = (strip s, s) ∷ m.valid }
note_id _ m = m

unfoldable pub note_item : Value → IdMap → IdMap
note_item (dict d) m = note_id (get_null "id" d) m
note_item _ m = m

unfoldable pub collect_ids : List Value → IdMap → IdMap
collect_ids [] m = m
collect_ids (v ∷ vs) m = collect_ids vs (note_item v m)

unfoldable pub validated_skeleton_id_map : List Value → IdMap
validated_skeleton_id_map vs = collect_ids vs (record { valid = []; colliding = [] })

-- The first skeleton with the id is checked against the dates.
unfoldable pub check_selected : Option DateRange → String → List Value → Result (Unit {0})
check_selected dates id [] = ok tt
check_selected dates id (dict d ∷ vs) =
    let later = check_selected dates id vs in
    if is_text (get_null "id" d) id then validate_skeleton_day_count dates d else later
check_selected dates id (_ ∷ vs) = check_selected dates id vs

-- The id to select, or the error.
unfoldable pub resolve_id : String → IdMap → Result String
resolve_id id m =
    if one_of m.colliding id
    then raise invalid
    else (elim (find_id id m.valid) [ none ↦ raise invalid | some s ↦ ok s ])

-- The reply: the new value and the one before.
unfoldable pub select_skeleton : Builtins → Value → Exec TravelPlanState (String × Value)
select_skeleton py id = do
  lift (reject_if (not (is_filled id)) invalid)
  skeletons ← gets (λ plan. plan.skeleton_plans)
  items ← lift (iterate py skeletons)
  matched_id ← lift (resolve_id (stripped id) (validated_skeleton_id_map items))
  dates ← gets (λ plan. plan.dates)
  lift (check_selected dates matched_id items)
  prev ← gets (λ plan. plan.selected_skeleton_id)
  write_selected_skeleton_id (str matched_id)
  pure (matched_id, prev)
