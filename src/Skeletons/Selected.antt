-- ===== src/Skeletons/Selected.antt =====
-- What `set_skeleton_plans` and `select_skeleton` of backend/tools/plan_tools/phase2_tools.py leave
-- selected.
use travel_agent_pro.Prelude.{
  ◌≡◌, refl, ap, sym, ℕ, Bool, true, false, ◌==◌, ==_iff, some, List, [], ◌∷◌, map, length, any,
  keep, String, ◌⊎◌, inl, inr, All, Bool-cases, Option-cases, ◌≤◌, arith,
}
use travel_agent_pro.Python.{is_text}
use travel_agent_pro.Python.Text.{strip}
use travel_agent_pro.Python.Dict.{
  Value, null, bool, int, float, str, list, dict, Fields, of_values, to_values, put, get-put,
}
use travel_agent_pro.Python.Exec.{Exception, ok, raise, Exec, Result-cases, and_then-eq-ok, ok-same}
use travel_agent_pro.Python.Builtins.{Builtins, get_null, iterate}
use travel_agent_pro.Plan.Model.{TravelPlanState}
use travel_agent_pro.Plan.Step.{dict_items, dicts_of, names_skeleton}
use travel_agent_pro.Phase.Router.{skeleton_days_match}
use travel_agent_pro.Tools.History.{occurrences}
use travel_agent_pro.Daily.Writers.{append_decision_event}
use travel_agent_pro.Writers.Single.{
  write_skeleton_plans, write_selected_skeleton_id, clear_selected_skeleton_id,
}
use travel_agent_pro.Skeletons.Days.{invalid, validate_skeleton_days, validate_day_counts}
use travel_agent_pro.Skeletons.Places.{places, days_in, skeletons_places, counted-days_match}
use travel_agent_pro.Skeletons.Tools.{
  stripped, normal, check_names, normalize_plans, write_if_unique, ids_named, write_only,
  write_successor, reconcile_matches, reconcile_selected, set_skeleton_plans,
}

-- The selection after new skeletons: none, or what exactly one of them goes by.
abbrev pub IsSettled : List Fields → Value → Type 0
IsSettled plans v = (v ≡ null) ⊎ (length (keep (names_skeleton v) plans) ≡ 1)

-- A writer that returns, settles the selection, and touches nothing else but the record of decisions.
abbrev Settles : List Fields → Exec TravelPlanState (Unit {0}) → Type 0
Settles plans m =
    (s : TravelPlanState)
    → (v : Value) × (m s
        ≡ (ok tt, record s { selected_skeleton_id = v; decision_events = (m s).1.decision_events }))
      × IsSettled plans v

module _ (plans : List Fields) where
  clear-Settles : Settles plans (λ s. (ok tt, clear_selected_skeleton_id s))
  unfolding clear_selected_skeleton_id
  clear-Settles s = (null, refl, inl refl)

  write-Settles :
      (i : String)
      → length (keep (names_skeleton (str i)) plans) ≡ 1
      → Settles plans (write_selected_skeleton_id (str i))
  unfolding write_selected_skeleton_id append_decision_event
  write-Settles i h s = (str i, refl, inr h)

  write_if_unique-Settles : (i : String) → Settles plans (write_if_unique plans (str i))
  unfolding write_if_unique
  write_if_unique-Settles i s =
      elim (Bool-cases (length (keep (names_skeleton (str i)) plans) == 1)) [
        | inl e ↦
            rw e (write-Settles i ((==_iff (length (keep (names_skeleton (str i)) plans)) 1).0 e) s)
        | inr e ↦ rw e (clear-Settles s)
      ]

  abbrev IsText : Value → Type 0
  IsText v = (i : String) × (v ≡ str i)

  write_only-Settles : (ids : List Value) → All IsText ids → Settles plans (write_only plans ids)
  unfolding write_only
  write_only-Settles [] h s = clear-Settles s
  write_only-Settles (v ∷ w ∷ vs) h s = clear-Settles s
  write_only-Settles (v ∷ []) ((i, e), h) s = rw e (write_if_unique-Settles i s)

  texts_kept :
      (P : Fields → Bool) (ps : List Fields)
      → All (λ (p : Fields). IsText (get_null "id" p)) ps
      → All IsText (map (get_null "id") (keep P ps))
  texts_kept P [] h = tt
  texts_kept P (p ∷ ps) h = elim (Bool-cases (P p)) [
    | inl e ↦ rw e (h.0, texts_kept P ps h.1)
    | inr e ↦ rw e (texts_kept P ps h.1)
  ]

  module _ (named : All (λ (p : Fields). IsText (get_null "id" p)) plans) where
    only : (t : String) → Settles plans (write_only plans (ids_named t plans))
    only t =
        write_only-Settles (ids_named t plans)
          (texts_kept (λ p. is_text (get_null "name" p) t) plans named)

    write_successor-Settles :
        (t : String) (m : Bool × Bool) → Settles plans (write_successor plans t m)
    unfolding write_successor
    write_successor-Settles t (false, by_name) s = only t s
    write_successor-Settles t (true, by_name) s =
        elim (Bool-cases (any (λ (p : Fields). is_text (get_null "id" p) t) plans)) [
          | inl e ↦ rw e (write_if_unique-Settles t s)
          | inr e ↦ elim (Bool-cases by_name) [
            | inl f ↦ rw e (rw f (only t s))
            | inr f ↦ rw e (rw f (clear-Settles s))
          ]
        ]

    reconcile_matches-Settles :
        (t : String) (ms : List (Bool × Bool)) → Settles plans (reconcile_matches plans t ms)
    unfolding reconcile_matches
    reconcile_matches-Settles t [] s = clear-Settles s
    reconcile_matches-Settles t (m ∷ []) s = write_successor-Settles t m s
    reconcile_matches-Settles t (m ∷ n ∷ ms) s = clear-Settles s

    -- Without a selected text nothing is written.
    reconciled :
        (previous : List Value) (v : Value) (s : TravelPlanState)
        → (w : Value) × (events : List Fields) × (reconcile_selected previous plans v s
            ≡ (ok tt, record s { selected_skeleton_id = w; decision_events = events }))
          × ((t : String) → v ≡ str t → IsSettled plans w)
    unfolding reconcile_selected
    reconciled previous (str t) s =
        let (w, e, settled) = reconcile_matches-Settles (strip t) (keep _ (map _ previous)) s in
        (w, _, e, (λ t h. settled))
    reconciled previous null s =
        (s.selected_skeleton_id, s.decision_events, refl, (λ t h. absurd (cc)))
    reconciled previous (bool b) s =
        (s.selected_skeleton_id, s.decision_events, refl, (λ t h. absurd (cc)))
    reconciled previous (int i) s =
        (s.selected_skeleton_id, s.decision_events, refl, (λ t h. absurd (cc)))
    reconciled previous (float x) s =
        (s.selected_skeleton_id, s.decision_events, refl, (λ t h. absurd (cc)))
    reconciled previous (list l) s =
        (s.selected_skeleton_id, s.decision_events, refl, (λ t h. absurd (cc)))
    reconciled previous (dict d) s =
        (s.selected_skeleton_id, s.decision_events, refl, (λ t h. absurd (cc)))

get-normal : (p : Fields) → get_null "id" (normal p) ≡ str (stripped (get_null "id" p))
get-normal p =
    let i = str (stripped (get_null "id" p)) in
    ground (
      arith,
      get-put "name" "id" (str (stripped (get_null "name" p))) (put "id" i p),
      get-put "id" "id" i p,
    )

-- Accepted skeletons have texts as their ids.
normalized-IsText :
    (seen : List String) (vs : List Value) (plans : List Fields)
    → normalize_plans seen vs ≡ ok plans
    → All (λ (p : Fields). (i : String) × (get_null "id" p ≡ str i)) plans
unfolding normalize_plans
normalized-IsText seen [] plans h = rw (sym (ok-same h)) tt
normalized-IsText seen (dict p ∷ vs) plans h =
    let (u, h₁, k₁) = and_then-eq-ok (check_names seen p) _ h in
    let (ps, h₂, k₂) =
      and_then-eq-ok (normalize_plans (stripped (get_null "id" p) ∷ seen) vs) _ k₁ in
    rw (sym (ok-same k₂)) (
      (stripped (get_null "id" p), get-normal p),
      normalized-IsText (stripped (get_null "id" p) ∷ seen) vs ps h₂,
    )
normalized-IsText seen (null ∷ vs) plans h = absurd (cc)
normalized-IsText seen (bool b ∷ vs) plans h = absurd (cc)
normalized-IsText seen (int i ∷ vs) plans h = absurd (cc)
normalized-IsText seen (float x ∷ vs) plans h = absurd (cc)
normalized-IsText seen (str s ∷ vs) plans h = absurd (cc)
normalized-IsText seen (list l ∷ vs) plans h = absurd (cc)

dict_items-dicts : (ps : List Fields) → dict_items (to_values (map dict ps)) ≡ ps
dict_items-dicts [] = refl
dict_items-dicts (p ∷ ps) = ap (λ (l : List Fields). p ∷ l) (dict_items-dicts ps)

-- The plan with these skeletons, and something selected.
abbrev pub with_skeletons : TravelPlanState → List Fields → Value → List Fields → TravelPlanState
with_skeletons s plans v events = record s {
  skeleton_plans = list (to_values (map dict plans));
  selected_skeleton_id = v;
  decision_events = events;
}

match_any :
    (s : TravelPlanState) (plans : List Fields) (v : Value) (events : List Fields)
    → validate_day_counts s.dates plans ≡ ok tt
    → skeleton_days_match (with_skeletons s plans v events) ≡ ok true
unfolding skeleton_days_match dicts_of
match_any s plans v events h = elim (Option-cases s.dates) [
  | inl e ↦ rw e refl
  | inr (d, e) ↦
      let counted : validate_day_counts (some d) plans ≡ ok tt = rw e at h in
      let matched = counted-days_match d v plans counted in
      rw e (rw (dict_items-dicts plans) (ground (arith, matched)))
]

module _ (py : Builtins) where
  -- A call of `set_skeleton_plans` raises and leaves the plan as it was, or it has written some skeletons,
  -- and beside them only the selection and the record of decisions. Then no place stands twice in one
  -- skeleton; whichever skeleton is selected, the router finds its days to match the dates; and where a
  -- text was selected before, nothing is now, or what exactly one of the skeletons goes by.
  pub set_skeletons_outcome :
      (v : Value) (s : TravelPlanState)
      → ((x : Exception) × (set_skeleton_plans py v s ≡ (raise x, s)))
        ⊎ ((plans : List Fields) × (counts : ℕ × ℕ) × (w : Value) × (events : List Fields)
            × (set_skeleton_plans py v s ≡ (ok counts, with_skeletons s plans w events))
            × ((q : String)
                → All (λ (p : Fields). occurrences q (places (dict_items (days_in p))) ≤ 1) plans)
            × ((chosen : Value)
                → skeleton_days_match (with_skeletons s plans chosen events) ≡ ok true)
            × ((t : String) → s.selected_skeleton_id ≡ str t → IsSettled plans w))
  unfolding set_skeleton_plans write_skeleton_plans
  set_skeletons_outcome (list vs) s = elim (Result-cases (normalize_plans [] (of_values vs))) [
    | inr (x, e) ↦ inl (x, rw e refl)
    | inl (plans, e) ↦ elim (Result-cases (validate_skeleton_days plans)) [
      | inr (x, f) ↦ inl (x, rw e (rw f refl))
      | inl (u, f) ↦ elim (Result-cases (validate_day_counts s.dates plans)) [
        | inr (x, g) ↦ inl (x, rw e (rw f (rw g refl)))
        | inl (t, g) ↦ elim (Result-cases (iterate py s.skeleton_plans)) [
          | inr (x, k) ↦ inl (x, rw e (rw f (rw g (rw k refl))))
          | inl (previous, k) ↦
              let written = record s { skeleton_plans = list (to_values (map dict plans)) } in
              let (w, events, run, settled) =
                reconciled plans (normalized-IsText [] (of_values vs) plans e) previous
                  s.selected_skeleton_id written in
              inr (
                plans,
                (length plans, length previous),
                w,
                events,
                rw e (rw f (rw g (rw k (rw run refl)))),
                (λ q. skeletons_places q plans f),
                (λ chosen. match_any s plans chosen events g),
                settled,
              )
        ]
      ]
    ]
  ]
  set_skeletons_outcome null s = inl (invalid, refl)
  set_skeletons_outcome (bool b) s = inl (invalid, refl)
  set_skeletons_outcome (int i) s = inl (invalid, refl)
  set_skeletons_outcome (float x) s = inl (invalid, refl)
  set_skeletons_outcome (str t) s = inl (invalid, refl)
  set_skeletons_outcome (dict d) s = inl (invalid, refl)
