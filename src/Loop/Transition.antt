-- ===== src/Loop/Transition.antt =====
-- `detect_phase_transition` of backend/agent/execution/phase_transition.py, with a plan and a router.
use travel_agent_pro.Prelude.{
  ◌≡◌, refl, ◌≢◌, Bool, true, false, not, Option, none, some, ℤ, eq_ℤ, eq_ℤ_iff, inl, inr,
  Bool-cases, arith, if◌then◌else◌,
}
use travel_agent_pro.Python.Exec.{ok, Exec, gets, ◌>>=◌}
use travel_agent_pro.Python.Builtins.{Builtins}
use travel_agent_pro.Plan.Model.{TravelPlanState}
use travel_agent_pro.Phase.Hooks.{HookManager}
use travel_agent_pro.Phase.Router.{phase_of, PhaseChange, check_and_apply_transition}
use travel_agent_pro.Phase.Inference.{IsReadable}
use travel_agent_pro.Phase.Advance.{transition_lem}
use travel_agent_pro.Tools.Types.{ToolResult}

pub data Reason : Type 0 where
  backtrack plan_tool_direct transition : Reason

-- `PhaseTransitionRequest` without the result that is only shown.
pub record Request : Type 0 where
  pub from_phase : ℤ
  pub to_phase : ℤ
  pub reason : Reason

abbrev asking : Reason → ℤ → TravelPlanState → Option Request
asking why before plan = some (record { from_phase = before; to_phase = plan.phase; reason = why })

module _ (py : Builtins) (hooks : Option (HookManager TravelPlanState PhaseChange)) where
  -- The router is asked where a tool wrote to the plan.
  unfoldable pub ask_router : Bool → ℤ → Exec TravelPlanState (Option Request)
  ask_router false before plan = (ok none, plan)
  ask_router true before plan =
      (check_and_apply_transition py hooks >>= λ changed.
      gets (λ after. if changed then asking transition before after else none))
        plan

  -- `rebuild_result` is there where the batch ended with a backtrack.
  unfoldable pub detect_phase_transition :
      Option ToolResult → Bool → ℤ → Exec TravelPlanState (Option Request)
  unfolding ask_router
  detect_phase_transition (some r) saw_state_update before plan =
      (ok (asking backtrack before plan), plan)
  detect_phase_transition none saw_state_update before plan =
      if not (eq_ℤ plan.phase before)
      then (ok (asking plan_tool_direct before plan), plan)
      else ask_router saw_state_update before plan

-- What a request says of the plan before and after.
abbrev pub Tells : ℤ → TravelPlanState → Option Request → Type 0
Tells before after none = after.phase ≡ before
Tells before after (some q) =
    (q.from_phase ≡ before) × (q.to_phase ≡ after.phase) × (after.phase ≢ before)

differs : (a b : ℤ) → eq_ℤ a b ≡ false → a ≢ b
differs a b h e = absurd (ground (arith, h, (eq_ℤ_iff a b).1 e))

module _ (py : Builtins) (s : TravelPlanState) {p : ℤ} (h : IsReadable s)
    (rules : phase_of s ≡ ok p) where
  routed :
      (saw_state_update : Bool) (before : ℤ)
      → s.phase ≡ before
      → (o : Option Request) × ((ask_router py none saw_state_update before s).0 ≡ ok o)
        × Tells before (ask_router py none saw_state_update before s).1 o
  unfolding ask_router
  routed false before e = (none, refl, e)
  routed true before e =
      let after = (check_and_apply_transition py none s).1 in
      let (answer, phase) = transition_lem py s h rules in
      elim (Bool-cases (eq_ℤ p s.phase)) [
        | inl f ↦ (
          none,
          ground (arith, answer, f),
          ground (arith, answer, f, phase, e, (eq_ℤ_iff p s.phase).0),
        )
        | inr f ↦ (
          asking transition before after,
          ground (arith, answer, f),
          (
            refl,
            ground (arith, answer, f),
            (λ k. ground (arith, answer, f, phase, e, k, (eq_ℤ_iff p s.phase).1)),
          ),
        )
      ]

  -- For a readable plan and no gates, after a batch without a backtrack: `detect_phase_transition` returns,
  -- and it requests a rebuild exactly where the plan is now in another phase than before the batch, from
  -- that phase to the new one, whether a tool moved the plan or the router does now.
  pub detect_exact :
      (saw_state_update : Bool) (before : ℤ)
      → (o : Option Request) × ((detect_phase_transition py none none saw_state_update before s).0
          ≡ ok o)
        × Tells before (detect_phase_transition py none none saw_state_update before s).1 o
  unfolding detect_phase_transition ask_router
  detect_exact saw before = elim (Bool-cases (eq_ℤ s.phase before)) [
    | inr e ↦ rw e (asking plan_tool_direct before s, refl, (refl, refl, differs s.phase before e))
    | inl e ↦ rw e (routed saw before ((eq_ℤ_iff s.phase before).0 e))
  ]
