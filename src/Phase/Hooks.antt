-- ===== src/Phase/Hooks.antt =====
-- `HookManager` of backend/agent/hooks.py. A hook or a gate is given the arguments of its event and
-- may mutate the shared objects `S`, or raise.
use travel_agent_pro.Prelude.{
  ◌≡◌, Bool, true, Option, none, List, [], ◌∷◌, ◌++◌, String, str_eq, eq_iff, arith, if◌then◌else◌,
}
use travel_agent_pro.Python.Exec.{Exec, pure, ◌>>=◌, ◌>>◌}

pub record GateResult : Type 0 where
  pub allowed : Bool
  pub feedback : Option String

-- A defaultdict of lists.
abbrev pub Registry : Type 0 → Type 0
Registry F = List (String × List F)

module _ {F : Type 0} where
  -- `registry.get(event, [])`
  unfoldable pub registered : String → Registry F → List F
  registered event [] = []
  registered event ((e, fs) ∷ r) = if str_eq e event then fs else registered event r

  -- `registry[event].append(fn)`
  unfoldable pub register_in : String → F → Registry F → Registry F
  register_in event fn [] = (event, fn ∷ []) ∷ []
  register_in event fn ((e, fs) ∷ r) =
      if str_eq e event then (e, fs ++ fn ∷ []) ∷ r else (e, fs) ∷ register_in event fn r

  -- A registered function runs last of its event, and no other event has changed.
  pub registered-register_in :
      (event other : String) (fn : F) (r : Registry F)
      → registered other (register_in event fn r)
        ≡ (if str_eq event other then registered other r ++ fn ∷ [] else registered other r)
  unfolding registered register_in
  registered-register_in event other fn [] = ground arith
  registered-register_in event other fn ((e, fs) ∷ r) = ground (
    arith,
    eq_iff e event,
    eq_iff e other,
    eq_iff event other,
    registered-register_in event other fn r,
  )

module _ (S A : Type 0) where
  pub record HookManager : Type 0 where
    pub hooks : Registry (A → Exec S (Unit {0}))
    pub gates : Registry (A → Exec S GateResult)

module _ {S A : Type 0} where
  unfoldable pub register : String → (A → Exec S (Unit {0})) → HookManager S A → HookManager S A
  register event fn m = record m { hooks = register_in event fn m.hooks }

  unfoldable pub register_gate :
      String → (A → Exec S GateResult) → HookManager S A → HookManager S A
  register_gate event fn m = record m { gates = register_in event fn m.gates }

  unfoldable pub run_all : A → List (A → Exec S (Unit {0})) → Exec S (Unit {0})
  run_all a [] = pure tt
  run_all a (fn ∷ fns) = let rest = run_all a fns in fn a >> rest

  unfoldable pub run : HookManager S A → String → A → Exec S (Unit {0})
  run m event a = run_all a (registered event m.hooks)

  -- The first gate that refuses ends the run with its own result.
  unfoldable pub run_gates : A → List (A → Exec S GateResult) → Exec S GateResult
  run_gates a [] = pure (record { allowed = true; feedback = none })
  run_gates a (fn ∷ fns) =
      let rest = run_gates a fns in fn a >>= λ result. if result.allowed then rest else pure result

  unfoldable pub run_gate : HookManager S A → String → A → Exec S GateResult
  run_gate m event a = run_gates a (registered event m.gates)
