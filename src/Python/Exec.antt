-- ===== src/Python/Exec.antt =====
-- Exceptions, and methods that mutate an object and may raise. What was written before a raise
-- stays written, so the state comes back beside the exception too.
use travel_agent_pro.Prelude.{◌≡◌, refl, ◌⊎◌, inl, inr, Bool, true, false, List, [], ◌∷◌, String}

-- `tool_error` carries the error code of a ToolError; messages are left out.
pub data Exception : Type 0 where
  value_error type_error key_error attribute_error overflow_error assertion_error index_error
        llm_error :
      Exception
  tool_error : String → Exception

pub data Result {ℓ} (A : Type ℓ) : Type ℓ where
  ok : A → Result A
  raise : Exception → Result A

-- The chain of calls without state.
abbrev pub and_then {ℓ κ} : {A : Type ℓ} {B : Type κ} → Result A → (A → Result B) → Result B
and_then (ok a) f = f a
and_then (raise e) f = raise e

abbrev pub Exec : Type 0 → Type 0 → Type 0
Exec S A = S → Result A × S

module _ {S A : Type 0} where
  abbrev pub pure : A → Exec S A
  pure a s = (ok a, s)

  abbrev pub throw : Exception → Exec S A
  throw e s = (raise e, s)

  abbrev pub lift : Result A → Exec S A
  lift r s = (r, s)

  abbrev pub gets : (S → A) → Exec S A
  gets f s = (ok (f s), s)

abbrev pub modify : {S : Type 0} → (S → S) → Exec S (Unit {0})
modify f s = (ok tt, f s)

module _ {S A B : Type 0} where
  abbrev pub continue : Result A → (A → Exec S B) → Exec S B
  continue (ok a) f s = f a s
  continue (raise e) f s = (raise e, s)

  infixl 5 ◌>>=◌ ◌>>◌
  abbrev pub ◌>>=◌ : Exec S A → (A → Exec S B) → Exec S B
  ◌>>=◌ m f s = let (r, s') = m s in continue r f s'

  abbrev pub ◌>>◌ : Exec S A → Exec S B → Exec S B
  m >> k = m >>= λ _. k

-- `if bad: raise e`
abbrev pub raise_if : {S : Type 0} → Bool → Exception → Exec S (Unit {0})
raise_if true e s = (raise e, s)
raise_if false e s = (ok tt, s)

-- The same before any state is touched.
abbrev pub reject_if : Bool → Exception → Result (Unit {0})
reject_if true e = raise e
reject_if false e = ok tt

pub and_then-eq-ok {ℓ κ} :
    {A : Type ℓ} {B : Type κ} (m : Result A) (f : A → Result B) {b : B}
    → and_then m f ≡ ok b
    → (a : A) × (m ≡ ok a) × (f a ≡ ok b)
and_then-eq-ok (ok a) f h = (a, refl, h)
and_then-eq-ok (raise e) f h = cc

-- `except (TypeError, ValueError)` with a value to fall back to.
abbrev pub caught : {A : Type 0} → Result A → A → Result A
caught (raise value_error) a = ok a
caught (raise type_error) a = ok a
caught r a = r

-- A comprehension whose body may raise: the first exception ends it.
abbrev pub map_result : {A B : Type 0} → (A → Result B) → List A → Result (List B)
map_result f [] = ok []
map_result f (x ∷ xs) =
    let rest = map_result f xs in and_then (f x) (λ y. and_then rest (λ ys. ok (y ∷ ys)))

-- A call that returns.
abbrev pub Returns {ℓ} : {A : Type ℓ} → Result A → Type 0
Returns (ok a) = Unit
Returns (raise e) = ⊥

pub Returns-ok {ℓ} : {A : Type ℓ} (r : Result A) → Returns r → (a : A) × (r ≡ ok a)
Returns-ok (ok a) h = (a, refl)
Returns-ok (raise e) h = absurd h

-- To split on a computed call and keep the equation.
pub Result-cases {ℓ} :
    {A : Type ℓ} (r : Result A) → ((a : A) × (r ≡ ok a)) ⊎ ((e : Exception) × (r ≡ raise e))
Result-cases (ok a) = inl (a, refl)
Result-cases (raise e) = inr (e, refl)

pub ok-same {ℓ} : {A : Type ℓ} {a b : A} → ◌≡◌ {A = Result A} (ok a) (ok b) → a ≡ b
ok-same e = cc
