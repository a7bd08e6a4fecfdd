-- ===== src/Plan/RoundTrip/Texts.antt =====
-- The conversions of `from_dict` at values that `to_dict` writes.
use travel_agent_pro.Prelude.{
  ◌≡◌, refl, ◌⊎◌, ◌≢◌, inl, inr, true, false, List, [], ◌∷◌, map, String, str_eq, eq_iff, arith,
  All, Bool-cases, if◌then◌else◌,
}
use travel_agent_pro.Python.{truthy}
use travel_agent_pro.Python.Dict.{
  Float, float, Value, Values, nil, cons, str, list, to_values, of_values,
}
use travel_agent_pro.Python.Exec.{Result, ok, caught, map_result}
use travel_agent_pro.Python.Text.{strip, lower, one_of}
use travel_agent_pro.Python.Builtins.{Builtins, or_else}
use travel_agent_pro.Plan.Decode.{
  normalize_enum, evidence_source_types, evidence_claim_types, evidence_confidence_levels,
  visit_roles, excluded_categories,
}

-- `v or d` is `v`.
abbrev pub IsKept : Value → Value → Type 0
IsKept d v = (truthy v ≡ true) ⊎ (v ≡ d)

pub or_else-IsKept : (v d : Value) → IsKept d v → or_else v d ≡ v
unfolding or_else
or_else-IsKept v d (inl h) = rw h
or_else-IsKept v d (inr h) = ground (arith, h)

-- A text that `or ""` follows is kept, the empty one too.
pub or_else-text : (s : String) → or_else (str s) (str "") ≡ str s
unfolding or_else truthy
or_else-text s = elim (Bool-cases (str_eq s "")) [
  | inl e ↦ rw (e, (eq_iff s "").0 e)
  | inr e ↦ rw e
]

-- The same after a second key that is not there.
pub or_else-text_null :
    (s : String) (d : Value) → truthy d ≡ false → or_else (or_else (str s) d) (str "") ≡ str s
unfolding or_else truthy
or_else-text_null s d h = elim (Bool-cases (str_eq s "")) [
  | inl e ↦ rw (e, h, (eq_iff s "").0 e)
  | inr e ↦ rw (e, e)
]

pub or_else-list : (vs : Values) → or_else (list vs) (list nil) ≡ list vs
unfolding or_else truthy
or_else-list nil = refl
or_else-list (cons v vs) = refl

pub or_else-nonempty : (s t : String) → s ≢ "" → or_else (str s) (str t) ≡ str s
unfolding or_else truthy
or_else-nonempty s t h = ground (arith, eq_iff s "")

pub coordinate_kept :
    (x z : Float)
    → IsKept (float z) (float x)
    → (if truthy (float x) then caught (ok x) z else ok z) ≡ ok x
coordinate_kept x z (inl h) = rw h
coordinate_kept x z (inr h) = ground (arith, h)

module _ (py : Builtins) where
  -- The words of an enumeration are their own normal form.
  abbrev pub IsStable : String → Type 0
  IsStable s = lower py.lowered (strip s) ≡ s

  one_of-IsStable :
      (words : List String) (s : String) → All IsStable words → one_of words s ≡ true → IsStable s
  one_of-IsStable [] s h e = cc
  one_of-IsStable (w ∷ ws) s h e = elim (Bool-cases (str_eq s w)) [
    | inl same ↦ rw ((eq_iff s w).0 same) h.0
    | inr other ↦ one_of-IsStable ws s h.1 (rw other at e)
  ]

  pub normalize_enum_stable :
      (words : List String) (s fallback : String)
      → All IsStable words
      → one_of words s ≡ true
      → normalize_enum py (str s) words fallback ≡ s
  unfolding normalize_enum
  normalize_enum_stable words s fallback h e = rw (one_of-IsStable words s h e) (rw e)

  pub source_types-IsStable : All IsStable evidence_source_types
  unfolding lower strip
  source_types-IsStable = (refl, (refl, (refl, (refl, tt))))

  pub claim_types-IsStable : All IsStable evidence_claim_types
  unfolding lower strip
  claim_types-IsStable = (refl, (refl, (refl, tt)))

  pub confidence-IsStable : All IsStable evidence_confidence_levels
  unfolding lower strip
  confidence-IsStable = (refl, (refl, tt))

  pub roles-IsStable : All IsStable visit_roles
  unfolding lower strip
  roles-IsStable = (refl, (refl, (refl, tt)))

  pub categories-IsStable : All IsStable excluded_categories
  unfolding lower strip
  categories-IsStable = (refl, (refl, (refl, (refl, (refl, (refl, tt))))))

-- Decoding every entry of an encoded list.
pub map-inverse :
    {A : Type 0} (P : A → Type 0) (f : A → Value) (g : Value → A)
    → ((a : A) → P a → g (f a) ≡ a)
    → (xs : List A) → All P xs
    → map g (map f xs) ≡ xs
map-inverse P f g inverse [] h = refl
map-inverse P f g inverse (x ∷ xs) h = cc (inverse x h.0, map-inverse P f g inverse xs h.1)

pub map_result-inverse :
    {A : Type 0} (P : A → Type 0) (f : A → Value) (g : Value → Result A)
    → ((a : A) → P a → g (f a) ≡ ok a)
    → (xs : List A) → All P xs
    → map_result g (map f xs) ≡ ok xs
map_result-inverse P f g inverse [] h = refl
map_result-inverse P f g inverse (x ∷ xs) h =
    rw (inverse x h.0) (rw (map_result-inverse P f g inverse xs h.1))

-- The same with no condition on the entries, through the values of the encoded list.
pub map_result-decode :
    {A : Type 0} (f : A → Value) (g : Value → Result A)
    → ((a : A) → g (f a) ≡ ok a)
    → (xs : List A) → map_result g (of_values (to_values (map f xs))) ≡ ok xs
map_result-decode f g inverse [] = refl
map_result-decode f g inverse (x ∷ xs) = rw (inverse x) (rw (map_result-decode f g inverse xs))
