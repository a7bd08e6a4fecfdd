-- ===== src/Python/Dict.antt =====
-- JSON values as Python holds them, and a dict with text keys in insertion order.
use travel_agent_pro.Prelude.{
  ℕ, suc, ◌≡◌, refl, Bool, true, false, Option, none, some, List, [], ◌∷◌, String, str_eq, eq_iff,
  arith, ℤ, if◌then◌else◌,
}

-- A float by its sign (true is negative), its whole mantissa and the exponent of 2.
pub data Float : Type 0 where
  finite : Bool → ℕ → ℤ → Float
  inf : Bool → Float
  nan : Float

mutual
  pub data Value : Type 0 where
    null : Value
    bool : Bool → Value
    int : ℤ → Value
    float : Float → Value
    str : String → Value
    list : Values → Value
    dict : Fields → Value

  pub data Values : Type 0 where
    nil : Values
    cons : Value → Values → Values

  pub data Fields : Type 0 where
    empty : Fields
    entry : String → Value → Fields → Fields

-- `d.get(k)` before the default is put in.
unfoldable pub get : String → Fields → Option Value
get k empty = none
get k (entry j v d) = if str_eq j k then some v else get k d

-- `d[k] = v`: in place where the key is there, at the end where it is not.
unfoldable pub put : String → Value → Fields → Fields
put k v empty = entry k v empty
put k v (entry j w d) = if str_eq j k then entry j v d else entry j w (put k v d)

-- `k in d`
unfoldable pub contains : String → Fields → Bool
contains k empty = false
contains k (entry j v d) = if str_eq j k then true else contains k d

-- `d.setdefault(k, v)`
unfoldable pub set_default : String → Value → Fields → Fields
set_default k v empty = entry k v empty
set_default k v (entry j w d) = if str_eq j k then entry j w d else entry j w (set_default k v d)

-- `d.pop(k, None)`
unfoldable pub pop : String → Fields → Fields
pop k empty = empty
pop k (entry j v d) = if str_eq j k then d else entry j v (pop k d)

-- `d.update(e)`
unfoldable pub update : Fields → Fields → Fields
update d empty = d
update d (entry k v e) = update (put k v d) e

unfoldable pub size : Fields → ℕ
size empty = 0
size (entry k v d) = suc (size d)

-- `d.get(k, default)`
abbrev pub get_or : String → Value → Fields → Value
get_or k v d = elim (get k d) [ none ↦ v | some w ↦ w ]

abbrev pub to_values : List Value → Values
to_values [] = nil
to_values (x ∷ xs) = cons x (to_values xs)

abbrev pub of_values : Values → List Value
of_values nil = []
of_values (cons x xs) = x ∷ of_values xs

pub of_values-to_values : (xs : List Value) → of_values (to_values xs) ≡ xs
of_values-to_values [] = refl
of_values-to_values (x ∷ xs) = λ i. x ∷ of_values-to_values xs i

pub get-put :
    (k j : String) (v : Value) (d : Fields)
    → get j (put k v d) ≡ (if str_eq k j then some v else get j d)
unfolding get put
get-put k j v empty = refl
get-put k j v (entry i w d) = ground (arith, eq_iff k j, eq_iff i k, eq_iff i j, get-put k j v d)

-- A key that is there keeps its value, a new one gets the default.
pub get-set_default :
    (k j : String) (v : Value) (d : Fields)
    → get j (set_default k v d) ≡ (if str_eq k j then some (get_or k v d) else get j d)
unfolding get set_default
get-set_default k j v empty = ground arith
get-set_default k j v (entry i w d) =
    ground (arith, eq_iff k j, eq_iff i k, eq_iff i j, get-set_default k j v d)
