-- ===== src/Evidence/Excluded.antt =====
-- The tool `set_excluded_candidates` of backend/tools/plan_tools/evidence.py.
use travel_agent_pro.Prelude.{◌≡◌, refl, ℕ, not, List, [], ◌∷◌, map, length, ◌⊎◌, inl, inr}
use travel_agent_pro.Python.Dict.{Value, null, bool, int, float, str, list, dict, Values, of_values}
use travel_agent_pro.Python.Exec.{
  Exception, Result, ok, raise, tool_error, and_then, reject_if, Exec, pure, throw, lift, gets,
  ◌>>=◌, ◌>>◌, Result-cases,
}
use travel_agent_pro.Python.Builtins.{Builtins, get_null}
use travel_agent_pro.Plan.Model.{TravelPlanState}
use travel_agent_pro.Plan.Decode.{excluded_categories, excluded_from_dict}
use travel_agent_pro.Daily.Checks.{is_filled}
use travel_agent_pro.Evidence.Rules.{require_enum}
use travel_agent_pro.Writers.Single.{write_excluded_candidates}

unfoldable pub check_item : Value → Result (Unit {0})
check_item (dict d) =
    and_then (reject_if (not (is_filled (get_null "name" d))) (tool_error "INVALID_VALUE")) λ _.
      and_then (reject_if (not (is_filled (get_null "reason" d))) (tool_error "INVALID_VALUE"))
        λ _. require_enum excluded_categories (get_null "category" d)
check_item _ = raise (tool_error "INVALID_VALUE")

unfoldable pub check_items : List Value → Result (Unit {0})
check_items [] = ok tt
check_items (v ∷ vs) = let later = check_items vs in and_then (check_item v) λ _. later

-- The reply: how many are written, and how many there were.
unfoldable pub set_excluded_candidates : Builtins → Value → Exec TravelPlanState (ℕ × ℕ)
set_excluded_candidates py (list vs) = do
  lift (check_items (of_values vs))
  before ← gets (λ plan. plan.excluded_candidates)
  write_excluded_candidates py (list vs)
  pure (length (of_values vs), length before)
set_excluded_candidates py _ = throw (tool_error "INVALID_VALUE")

-- A call of `set_excluded_candidates` raises and leaves the plan as it was, or its argument is a list of
-- items that all pass the check, the candidates of the plan are those of these items, in their order and
-- as many as reported, and nothing else has changed.
pub set_excluded_outcome :
    (py : Builtins) (v : Value) (s : TravelPlanState)
    → ((x : Exception) × (set_excluded_candidates py v s ≡ (raise x, s)))
      ⊎ ((vs : Values) × (v ≡ list vs)
          × (check_items (of_values vs) ≡ ok tt)
          × (set_excluded_candidates py v s ≡ (
            ok (length (of_values vs), length s.excluded_candidates),
            record s { excluded_candidates = map (excluded_from_dict py) (of_values vs) },
          )))
unfolding set_excluded_candidates write_excluded_candidates
set_excluded_outcome py (list vs) s = elim (Result-cases (check_items (of_values vs))) [
  | inr (x, e) ↦ inl (x, rw e refl)
  | inl (u, e) ↦ inr (vs, refl, e, rw e refl)
]
set_excluded_outcome py null s = inl (tool_error "INVALID_VALUE", refl)
set_excluded_outcome py (bool b) s = inl (tool_error "INVALID_VALUE", refl)
set_excluded_outcome py (int i) s = inl (tool_error "INVALID_VALUE", refl)
set_excluded_outcome py (float x) s = inl (tool_error "INVALID_VALUE", refl)
set_excluded_outcome py (str t) s = inl (tool_error "INVALID_VALUE", refl)
set_excluded_outcome py (dict d) s = inl (tool_error "INVALID_VALUE", refl)
