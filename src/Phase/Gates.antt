-- ===== src/Phase/Gates.antt =====
-- The gates of backend/agent/hooks.py in their order.
use travel_agent_pro.Prelude.{
  ◌≡◌, refl, List, [], ◌∷◌, ◌++◌, String, str_eq, Bool-cases, inl, inr, arith, if◌then◌else◌,
}
use travel_agent_pro.Python.Exec.{Exec, pure, ◌>>=◌}
use travel_agent_pro.Phase.Hooks.{
  GateResult, HookManager, registered, registered-register_in, register_gate, run_gates, run_gate,
}

module _ {S A : Type 0} (a : A) where
  -- Running two lists of gates one after the other is running the first and, only if it allows, the
  -- second: behind a gate that refuses or raises none is asked.
  pub run_gates-append :
      (xs ys : List (A → Exec S GateResult)) (s : S)
      → run_gates a (xs ++ ys) s
        ≡ (run_gates a xs >>= λ r. if r.allowed then run_gates a ys else pure r) s
  unfolding run_gates
  run_gates-append [] ys s = refl
  run_gates-append (g ∷ gs) ys s = ground (arith, run_gates-append gs ys (g a s).1)

  -- A gate registered for an event is asked after all that were registered for it before, if these
  -- allow, and running the gates of another event is as before.
  pub run_gate-register_gate :
      (m : HookManager S A) (event other : String) (fn : A → Exec S GateResult) (s : S)
      → run_gate (register_gate event fn m) other a s ≡ (
          if str_eq event other
          then (run_gate m other a >>= λ r. if r.allowed then run_gates a (fn ∷ []) else pure r) s
          else run_gate m other a s)
  unfolding register_gate run_gate
  run_gate-register_gate m event other fn s =
      rw (registered-register_in event other fn m.gates) (elim (Bool-cases (str_eq event other)) [
        | inl same ↦ rw same (run_gates-append (registered other m.gates) (fn ∷ []) s)
        | inr differs ↦ rw differs
      ])
