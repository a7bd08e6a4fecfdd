-- ===== src/Phase/Router.antt =====
-- `PhaseRouter` of backend/phase/router.py.
use travel_agent_pro.Prelude.{
  Bool, true, false, not, ◌||◌, Option, none, some, List, [], ◌∷◌, length, String, ℤ, pos, ltb_ℤ,
  eq_ℤ, if◌then◌else◌,
}
use travel_agent_pro.Python.{truthy, is_some, py_eq}
use travel_agent_pro.Python.Dict.{Value, int, str, list, dict, Fields, put, set_default, of_values}
use travel_agent_pro.Python.Exec.{
  Result, ok, raise, and_then, Exec, pure, lift, gets, modify, ◌>>=◌, ◌>>◌,
}
use travel_agent_pro.Python.Builtins.{Builtins, py_dict, get_null}
use travel_agent_pro.Plan.Model.{TravelPlanState, DateRange}
use travel_agent_pro.Plan.Encode.{
  dates_to_dict, travelers_to_dict, budget_to_dict, preference_to_dict, constraint_to_dict, list_of,
}
use travel_agent_pro.Plan.Step.{dicts_of, names_skeleton, infer_of}
use travel_agent_pro.Plan.Days.{total_days}
use travel_agent_pro.Phase.Hooks.{HookManager, run_gate}

-- The dates are authoritative: they replace what the brief says.
unfoldable pub with_dates : Option DateRange → Fields → Result Fields
with_dates none brief = ok brief
with_dates (some d) brief =
    and_then (total_days d) λ n. ok (put "total_days" (int n) (put "dates" (dates_to_dict d) brief))

-- `if x: brief.setdefault(k, x.to_dict())`
abbrev default_part : {A : Type 0} → String → (A → Value) → Option A → Fields → Fields
default_part k f none brief = brief
default_part k f (some a) brief = set_default k (f a) brief

abbrev default_list : {A : Type 0} → String → (A → Value) → List A → Fields → Fields
default_list k f [] brief = brief
default_list k f (a ∷ as') brief = set_default k (list_of f (a ∷ as')) brief

-- The brief that `_hydrate_phase3_brief` builds.
unfoldable pub hydrated : TravelPlanState → Fields → Result Fields
unfolding with_dates
hydrated plan brief =
    and_then (with_dates plan.dates (set_default "destination" plan.destination brief)) λ dated.
      ok (
        default_list "constraints" constraint_to_dict plan.constraints (
          default_list "preferences" preference_to_dict plan.preferences (
            default_part "budget" budget_to_dict plan.budget
              (default_part "travelers" travelers_to_dict plan.travelers dated))))

-- Whether a skeleton has as many days as the trip; days that are no list are let through.
unfoldable pub days_agree : DateRange → Value → Result Bool
days_agree dates (list vs) =
    and_then (total_days dates) λ n. ok (eq_ℤ (pos (length (of_values vs))) n)
days_agree dates _ = ok true

-- The loop over the skeletons: the first that goes by the selected id decides.
unfoldable pub days_match : Value → DateRange → List Fields → Result Bool
days_match selected dates [] = ok true
days_match selected dates (s ∷ rest) =
    let later = days_match selected dates rest in
    if names_skeleton selected s then days_agree dates (get_null "days" s) else later

unfoldable pub skeleton_days_match : TravelPlanState → Result Bool
unfolding days_match
skeleton_days_match plan = elim plan.dates [
  | none ↦ ok true
  | some d ↦
      if not (truthy plan.selected_skeleton_id) || not (truthy plan.skeleton_plans)
      then ok true
      else and_then (dicts_of plan.skeleton_plans) (days_match plan.selected_skeleton_id d)
]

-- The rules of `infer_phase` behind the synchronisation.
unfoldable pub phase_of : TravelPlanState → Result ℤ
phase_of plan = if not (truthy plan.destination) then ok (pos 1) else (elim plan.dates [
  | none ↦ ok (pos 2)
  | some d ↦
      if not (truthy plan.selected_skeleton_id) || not (is_some plan.accommodation)
      then ok (pos 2)
      else (and_then (skeleton_days_match plan) λ matched.
          if matched
          then (and_then (total_days d)
              λ n. ok (if ltb_ℤ (pos (length plan.daily_plans)) n then pos 3 else pos 4))
          else ok (pos 2))
])

module _ (py : Builtins) where
  unfoldable pub hydrate_brief : Exec TravelPlanState (Unit {0})
  hydrate_brief plan =
      if ltb_ℤ plan.phase (pos 2) || not (truthy plan.destination)
      then (ok tt, plan)
      else (elim (and_then (py_dict py plan.trip_brief) (hydrated plan)) [
        | raise e ↦ (raise e, plan)
        | ok brief ↦
            if py_eq (dict brief) plan.trip_brief
            then (ok tt, plan)
            else (ok tt, record plan { trip_brief = dict brief })
      ])

  unfoldable pub sync_phase_state : Exec TravelPlanState (Unit {0})
  sync_phase_state = do
    hydrate_brief
    inferred ← gets infer_of
    step ← lift inferred
    modify (λ plan. record plan { phase2_step = str step })

  unfoldable pub infer_phase : Exec TravelPlanState ℤ
  infer_phase = do sync_phase_state; inferred ← gets phase_of; lift inferred

-- What a gate of "before_phase_transition" is told beside the plan.
pub record PhaseChange : Type 0 where
  pub from_phase : ℤ
  pub to_phase : ℤ

module _ (py : Builtins) where
  -- Without hooks nothing can refuse.
  gate_allows :
      Option (HookManager TravelPlanState PhaseChange) → PhaseChange → Exec TravelPlanState Bool
  gate_allows none change = pure true
  gate_allows (some hooks) change = do
    result ← run_gate hooks "before_phase_transition" change
    pure result.allowed

  enter_phase : ℤ → Bool → Exec TravelPlanState Bool
  enter_phase inferred false = pure false
  enter_phase inferred true = do
    modify (λ plan. record plan { phase = inferred })
    sync_phase_state py
    pure true

  unfoldable pub check_and_apply_transition :
      Option (HookManager TravelPlanState PhaseChange) → Exec TravelPlanState Bool
  unfolding gate_allows enter_phase
  check_and_apply_transition hooks = do
    inferred ← infer_phase py
    current ← gets (λ plan. plan.phase)
    if eq_ℤ inferred current then pure false else do
      allowed ← gate_allows hooks (record { from_phase = current; to_phase = inferred })
      enter_phase inferred allowed
