-- ===== src/Python.antt =====
-- What the modelled sources use of Python itself: values that JSON can carry, truth, equality,
-- dicts in insertion order, and exceptions.
pub mod Exec
pub mod Text
pub mod Dict
pub mod Builtins
pub use Dict.*
use Prim.Native.Nat.{◌^◌}
use travel_agent_pro.Prelude.{
  ℕ, ◌*◌, Bool, true, false, not, ◌&&◌, Option, none, some, List, [], ◌∷◌, String, str_eq, ◌==◌,
  ltb, if◌then◌else◌, ℤ, pos, negsuc, pos_part, neg_part, eq_ℤ,
}
use travel_agent_pro.Python.Dict.{
  Float, finite, inf, nan, Value, null, bool, int, float, str, list, dict, Values, nil, cons,
  Fields, empty, entry, get, size,
}

-- `bool(v)`.
unfoldable pub truthy : Value → Bool
truthy null = false
truthy (bool b) = b
truthy (int i) = not (eq_ℤ i (pos 0))
truthy (float (finite negative m e)) = not (m == 0)
truthy (float _) = true
truthy (str s) = not (str_eq s "")
truthy (list nil) = false
truthy (list (cons x xs)) = true
truthy (dict empty) = false
truthy (dict (entry k v fs)) = true

-- `bool(x)` of an optional object whose class defines no truth value.
abbrev pub is_some {ℓ} : {A : Type ℓ} → Option A → Bool
is_some none = false
is_some (some _) = true

-- A finite float against an integer, exactly: `(-1)^negative * m * 2^e`.
float_eq_int : Bool → ℕ → ℤ → ℤ → Bool
float_eq_int negative m e i =
    let magnitude = if negative then neg_part i else pos_part i in
    let other = if negative then pos_part i else neg_part i in
    other == 0 && m * 2 ^ pos_part e == magnitude * 2 ^ neg_part e

float_eq : Float → Float → Bool
float_eq (finite s m e) (finite t n f) =
    let left = m * 2 ^ (pos_part e) * 2 ^ (neg_part f) in
    let right = n * 2 ^ (pos_part f) * 2 ^ (neg_part e) in
    if m == 0 then n == 0 else (elim s [ true ↦ t | false ↦ not t ]) && left == right
float_eq (inf s) (inf t) = elim s [ true ↦ t | false ↦ not t ]
-- Inside a container the same object is equal to itself, a NaN too.
float_eq nan nan = true
float_eq _ _ = false

-- The number that a Boolean counts as.
abbrev bit : Bool → ℤ
bit true = pos 1
bit false = pos 0

num_eq : ℤ → Value → Bool
num_eq i (bool b) = eq_ℤ i (bit b)
num_eq i (int j) = eq_ℤ i j
num_eq i (float (finite s m e)) = float_eq_int s m e i
num_eq i _ = false

abbrev equal_at : Option Value → (Value → Bool) → Bool
equal_at none eq = false
equal_at (some w) eq = eq w

-- `v == w`: a Boolean is a number, dicts ignore the order of their keys.
unfoldable mutual
  unfolding num_eq float_eq_int float_eq get size

  pub py_eq : Value → Value → Bool
  py_eq null null = true
  py_eq null w = false
  py_eq (bool b) w = num_eq (bit b) w
  py_eq (int i) w = num_eq i w
  py_eq (float (finite s m e)) (int j) = float_eq_int s m e j
  py_eq (float (finite s m e)) (bool b) = float_eq_int s m e (bit b)
  py_eq (float x) (float y) = float_eq x y
  py_eq (float x) w = false
  py_eq (str s) (str t) = str_eq s t
  py_eq (str s) w = false
  py_eq (list xs) (list ys) = eq_values xs ys
  py_eq (list xs) w = false
  py_eq (dict fs) (dict gs) = size fs == size gs && eq_fields fs gs
  py_eq (dict fs) w = false

  pub eq_values : Values → Values → Bool
  eq_values nil nil = true
  eq_values nil (cons y ys) = false
  eq_values (cons x xs) nil = false
  eq_values (cons x xs) (cons y ys) = py_eq x y && eq_values xs ys

  pub eq_fields : Fields → Fields → Bool
  eq_fields empty gs = true
  eq_fields (entry k v fs) gs = equal_at (get k gs) (py_eq v) && eq_fields fs gs

-- `v == "…"` for a text on the right.
abbrev pub is_text : Value → String → Bool
is_text (str s) t = str_eq s t
is_text _ t = false
