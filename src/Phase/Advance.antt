-- ===== src/Phase/Advance.antt =====
-- `check_and_apply_transition` of backend/phase/router.py.
use travel_agent_pro.Prelude.{
  ◌≡◌, refl, ap, sym, ◌∙◌, Bool, true, false, not, Option, none, some, ℤ, eq_ℤ, arith, inl, inr,
  ◌⊎◌, ◌≢◌,
}
use mathlib.Core.Path.{subst}
use travel_agent_pro.Python.Exec.{Result, ok}
use travel_agent_pro.Python.Builtins.{Builtins}
use travel_agent_pro.Plan.Model.{TravelPlanState}
use travel_agent_pro.Phase.Hooks.{HookManager, run_gate}
use travel_agent_pro.Phase.Router.{
  sync_phase_state, skeleton_days_match, phase_of, infer_phase, PhaseChange,
  check_and_apply_transition,
}
use travel_agent_pro.Phase.Inference.{
  IsReadable, sync-SameDecisions, sync_total, sync-IsReadable, infer_phase_total, phase_of-sync,
}

module _ (py : Builtins) (s : TravelPlanState) where
  state-infer_phase : (infer_phase py s).1 ≡ (sync_phase_state py s).1
  unfolding infer_phase
  state-infer_phase = ground arith

  phase-sync : (sync_phase_state py s).1.phase ≡ s.phase
  phase-sync = ap (λ (t : TravelPlanState). t.phase) (sync-SameDecisions py s)

at_phase-IsReadable :
    (s : TravelPlanState) (p : ℤ) → IsReadable s → IsReadable (record s { phase = p })
at_phase-IsReadable s p h = record { brief = h.brief; skeletons = h.skeletons; days = h.days }

phase_of-at_phase : (s : TravelPlanState) (p : ℤ) → phase_of (record s { phase = p }) ≡ phase_of s
unfolding phase_of skeleton_days_match
phase_of-at_phase s p = refl

module _ (py : Builtins) (s : TravelPlanState) {p : ℤ} (h : IsReadable s)
    (rules : phase_of s ≡ ok p) where
  abbrev synced : TravelPlanState
  synced = (sync_phase_state py s).1

  abbrev entered : TravelPlanState
  entered = record synced { phase = p }

  entered-IsReadable : IsReadable entered
  entered-IsReadable = at_phase-IsReadable synced p (sync-IsReadable py s h)

  abbrev applied : Option (HookManager TravelPlanState PhaseChange) → Result Bool × TravelPlanState
  applied hooks = check_and_apply_transition py hooks s

  -- For a plan whose brief is a dict, whose skeletons are a list and whose dates, if any, are dates:
  -- without hooks, `check_and_apply_transition` leaves it in the phase that the rules give, and
  -- returns whether that is another phase than before.
  pub transition_lem : ((applied none).0 ≡ ok (not (eq_ℤ p s.phase))) × ((applied none).1.phase ≡ p)
  unfolding check_and_apply_transition
  transition_lem = ground (
    arith,
    infer_phase_total py s h,
    rules,
    state-infer_phase py s,
    phase-sync py s,
    sync_total py entered entered-IsReadable,
    phase-sync py entered,
  )

  -- The state that the call leaves is one of two synchronised ones.
  state-applied : ((applied none).1 ≡ synced) ⊎ ((applied none).1 ≡ (sync_phase_state py entered).1)
  unfolding check_and_apply_transition
  state-applied = ground (
    arith,
    infer_phase_total py s h,
    rules,
    state-infer_phase py s,
    sync_total py entered entered-IsReadable,
  )

  applied-IsReadable : IsReadable (applied none).1
  applied-IsReadable = elim state-applied [
    | inl e ↦ subst IsReadable (sym e) (sync-IsReadable py s h)
    | inr e ↦ subst IsReadable (sym e) (sync-IsReadable py entered entered-IsReadable)
  ]

  rules-applied : phase_of (applied none).1 ≡ ok p
  rules-applied = elim state-applied [
    | inl e ↦ ap phase_of e ∙ phase_of-sync py s ∙ rules
    | inr e ↦
        ap phase_of e
        ∙ phase_of-sync py entered
        ∙ phase_of-at_phase synced p
        ∙ phase_of-sync py s
        ∙ rules
  ]

  -- For a readable plan and any hooks: a call that returns true has put the plan into the phase that
  -- the rules give, and that is another phase than before.
  pub changed_phase :
      (hooks : Option (HookManager TravelPlanState PhaseChange))
      → (applied hooks).0 ≡ ok true
      → ((applied hooks).1.phase ≡ p) × (p ≢ s.phase)
  unfolding check_and_apply_transition
  changed_phase none e = ground (
    arith,
    infer_phase_total py s h,
    rules,
    state-infer_phase py s,
    phase-sync py s,
    phase-sync py entered,
  )
  changed_phase (some m) e =
      let change : PhaseChange = record { from_phase = s.phase; to_phase = p } in
      let left = (run_gate m "before_phase_transition" change synced).1 in
      ground (
        arith,
        infer_phase_total py s h,
        rules,
        state-infer_phase py s,
        phase-sync py s,
        phase-sync py (record left { phase = p }),
      )

module _ (py : Builtins) (s : TravelPlanState) {p : ℤ} (h : IsReadable s)
    (rules : phase_of s ≡ ok p) where
  -- For a readable plan, without hooks: a second call right after the first returns false.
  pub transition_settles :
      (check_and_apply_transition py none (check_and_apply_transition py none s).1).0 ≡ ok false
  transition_settles =
      let u = (check_and_apply_transition py none s).1 in
      let again =
        transition_lem py u (applied-IsReadable py s h rules) (rules-applied py s h rules) in
      ground (arith, again.0, (transition_lem py s h rules).1)
