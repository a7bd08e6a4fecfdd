-- ===== src/Phase/Inference.antt =====
-- What the router of backend/phase/router.py concludes from a plan.
use travel_agent_pro.Prelude.{
  ◌≡◌, refl, ap, sym, inl, inr, Option-cases, ◌∙◌, true, Option, none, some, List, [], ◌∷◌, ℤ,
  arith,
}
use travel_agent_pro.Python.Dict.{
  Value, null, bool, int, float, str, Values, Fields, dict, list, set_default,
}
use travel_agent_pro.Python.Exec.{ok, and_then, Returns}
use travel_agent_pro.Python.Builtins.{Builtins}
use travel_agent_pro.Plan.Model.{TravelPlanState, DateRange}
use travel_agent_pro.Plan.Step.{infer_of, infer_phase2_step, dicts_of, dict_items}
use travel_agent_pro.Plan.Load.{supported_phase}
use travel_agent_pro.Plan.Days.{total_days}
use travel_agent_pro.Phase.Router.{
  hydrate_brief, hydrated, with_dates, sync_phase_state, days_agree, days_match,
  skeleton_days_match, phase_of, infer_phase,
}

-- Two states that differ in the trip brief and the step of phase 2 at most.
abbrev pub SameDecisions : TravelPlanState → TravelPlanState → Type 0
SameDecisions s t = t ≡ record s { trip_brief = t.trip_brief; phase2_step = t.phase2_step }

pub phase_of-brief :
    (s : TravelPlanState) (b v : Value)
    → phase_of (record s { trip_brief = b; phase2_step = v }) ≡ phase_of s
unfolding phase_of skeleton_days_match
phase_of-brief s b v = refl

abbrev IsDict : Value → Type 0
IsDict (dict d) = Unit
IsDict _ = ⊥

IsDict-dict : (v : Value) → IsDict v → (b : Fields) × (v ≡ dict b)
IsDict-dict (dict d) h = (d, refl)
IsDict-dict null h = absurd h
IsDict-dict (bool b) h = absurd h
IsDict-dict (int i) h = absurd h
IsDict-dict (float x) h = absurd h
IsDict-dict (str t) h = absurd h
IsDict-dict (list vs) h = absurd h

-- A plan whose brief is a dict, whose skeletons are a list, and whose dates, where it has any, are
-- dates.
pub record IsReadable (s : TravelPlanState) : Type 0 where
  pub brief : (b : Fields) × (s.trip_brief ≡ dict b)
  pub skeletons : (vs : Values) × (s.skeleton_plans ≡ list vs)
  pub days : (d : DateRange) → s.dates ≡ some d → (n : ℤ) × (total_days d ≡ ok n)

-- The step is found for every plan with such a brief and such skeletons.
infer_of_total :
    (s : TravelPlanState) (b : Fields) (vs : Values)
    → s.trip_brief ≡ dict b
    → s.skeleton_plans ≡ list vs
    → Returns (infer_of s)
unfolding infer_phase2_step dicts_of
infer_of_total s b vs hb hs = ground (arith, hb, hs)

module _ (py : Builtins) (s : TravelPlanState) where
  hydrate-SameDecisions : SameDecisions s (hydrate_brief py s).1
  unfolding hydrate_brief
  hydrate-SameDecisions = ground arith

  pub sync-SameDecisions : SameDecisions s (sync_phase_state py s).1
  unfolding sync_phase_state
  sync-SameDecisions = ground (arith, hydrate-SameDecisions)

  -- Filling in the brief changes nothing that the phase is inferred from.
  pub phase_of-sync : phase_of (sync_phase_state py s).1 ≡ phase_of s
  phase_of-sync =
      let t = (sync_phase_state py s).1 in
      ap phase_of sync-SameDecisions ∙ phase_of-brief s t.trip_brief t.phase2_step

  -- The inferred phase is what the rules say of the plan as it came in.
  pub infer_phase_lem : (infer_phase py s).0 ≡ and_then (sync_phase_state py s).0 (λ _. phase_of s)
  unfolding infer_phase
  infer_phase_lem = ground (arith, phase_of-sync)

with_dates_total :
    (o : Option DateRange) (b : Fields)
    → ((d : DateRange) → o ≡ some d → (n : ℤ) × (total_days d ≡ ok n))
    → Returns (with_dates o b)
unfolding with_dates
with_dates_total none b h = tt
with_dates_total (some d) b h = rw (h d refl).1 tt

days_match_total :
    (selected : Value) (d : DateRange) (n : ℤ)
    → total_days d ≡ ok n
    → (plans : List Fields) → Returns (days_match selected d plans)
unfolding days_match days_agree
days_match_total selected d n e [] = tt
days_match_total selected d n e (p ∷ plans) =
    ground (arith, e, days_match_total selected d n e plans)

module _ (py : Builtins) (s : TravelPlanState) (h : IsReadable s) where
  hydrated_total : (b : Fields) → Returns (hydrated s b)
  unfolding hydrated
  hydrated_total b =
      ground (arith, with_dates_total s.dates (set_default "destination" s.destination b) h.days)

  hydrate_total : Returns (hydrate_brief py s).0
  unfolding hydrate_brief
  hydrate_total = ground (arith, hydrated_total h.brief.0, h.brief.1)

  hydrate-IsDict : IsDict (hydrate_brief py s).1.trip_brief
  unfolding hydrate_brief
  hydrate-IsDict = ground (arith, h.brief.1)

  pub sync_total : Returns (sync_phase_state py s).0
  unfolding sync_phase_state
  sync_total =
      let (b, e) = IsDict-dict (hydrate_brief py s).1.trip_brief hydrate-IsDict in
      let same = hydrate-SameDecisions py s in
      ground (
        arith,
        hydrate_total,
        infer_of_total (hydrate_brief py s).1 b h.skeletons.0 e
            (ap (λ (t : TravelPlanState). t.skeleton_plans) same ∙ h.skeletons.1),
      )

  -- For a readable plan, `infer_phase`, which first fills in the brief and the step, returns what the
  -- rules say of the plan as it came in.
  pub infer_phase_total : (infer_phase py s).0 ≡ phase_of s
  infer_phase_total = ground (arith, infer_phase_lem py s, sync_total)

  sync-IsDict : IsDict (sync_phase_state py s).1.trip_brief
  unfolding sync_phase_state
  sync-IsDict = ground (arith, hydrate-IsDict)

  pub sync-IsReadable : IsReadable (sync_phase_state py s).1
  sync-IsReadable =
      let same = sync-SameDecisions py s in
      record {
        brief = IsDict-dict (sync_phase_state py s).1.trip_brief sync-IsDict;
        skeletons =
            (h.skeletons.0, ap (λ (t : TravelPlanState). t.skeleton_plans) same ∙ h.skeletons.1);
        days = λ d e. h.days d (sym (ap (λ (t : TravelPlanState). t.dates) same) ∙ e);
      }

  pub phase_of_total : Returns (phase_of s)
  unfolding phase_of skeleton_days_match dicts_of
  phase_of_total = elim (Option-cases s.dates) [
    | inl e ↦ ground (arith, e)
    | inr (d, e) ↦
        let (n, en) = h.days d e in
        ground (
          arith,
          e,
          en,
          h.skeletons.1,
          days_match_total s.selected_skeleton_id d n en (dict_items h.skeletons.0),
        )
  ]

pub phase_of_supported :
    (s : TravelPlanState) (p : ℤ) → phase_of s ≡ ok p → supported_phase p ≡ true
unfolding phase_of
phase_of_supported s p e = ground arith
