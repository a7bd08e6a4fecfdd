-- ===== src/Harness/Times.antt =====
-- Times of day: the pattern HH:MM of backend/tools/plan_tools/daily_plans.py and `_time_to_minutes`
-- of backend/harness/validator.py.
use travel_agent_pro.Prelude.{
  ℕ, ◌+◌, ◌-◌, ◌*◌, Bool, false, ◌&&◌, ◌||◌, Option, none, some, List, [], ◌∷◌, String, ◌==◌, leb,
  ℤ, pos, negsuc, ◌+ℤ◌, if◌then◌else◌,
}
use travel_agent_pro.Python.Text.{codes}
use travel_agent_pro.Python.Builtins.{Builtins, digit_value}

module _ (py : Builtins) where
  -- The hour of `[01]\d|2[0-3]`.
  hour_of : ℕ → ℕ → Option ℕ
  hour_of a b =
      if a == b'0' || a == b'1'
      then (elim (digit_value py b) [ none ↦ none | some d ↦ some ((a - 48) * 10 + d) ])
      else if a == b'2' && leb b'0' b && leb b b'3'
      then some (20 + (b - 48))
      else none

  -- The minute of `[0-5]\d`.
  minute_of : ℕ → ℕ → Option ℕ
  minute_of a b =
      if leb b'0' a && leb a b'5'
      then (elim (digit_value py b) [ none ↦ none | some d ↦ some ((a - 48) * 10 + d) ])
      else none

  -- A match of the pattern at the start.
  clock_prefix : List ℕ → Option ℕ
  clock_prefix (a ∷ b ∷ c ∷ d ∷ e ∷ rest) = elim (hour_of a b) [
    | none ↦ none
    | some h ↦ elim (minute_of d e) [
      | none ↦ none
      | some m ↦ if c == b':' then some (h * 60 + m) else none
    ]
  ]
  clock_prefix _ = none

  -- `_TIME_PATTERN.fullmatch`, with the minutes since midnight.
  unfoldable pub clock_time : List ℕ → Option ℕ
  unfolding clock_prefix hour_of minute_of digit_value
  clock_time (a ∷ b ∷ c ∷ d ∷ e ∷ []) = clock_prefix (a ∷ b ∷ c ∷ d ∷ e ∷ [])
  clock_time _ = none

  -- `re.search`: the leftmost match.
  unfoldable pub first_clock : List ℕ → Option ℕ
  unfolding clock_prefix hour_of minute_of digit_value
  first_clock [] = none
  first_clock (c ∷ cs) =
      let later = first_clock cs in elim (clock_prefix (c ∷ cs)) [ none ↦ later | some m ↦ some m ]

-- The two texts around the one colon of a text, by their code points.
before_colon : List ℕ → List ℕ
before_colon [] = []
before_colon (c ∷ cs) = let rest = before_colon cs in if c == b':' then [] else c ∷ rest

after_colon : List ℕ → Option (List ℕ)
after_colon [] = none
after_colon (c ∷ cs) = let rest = after_colon cs in if c == b':' then some cs else rest

has_colon : List ℕ → Bool
has_colon [] = false
has_colon (c ∷ cs) = c == b':' || has_colon cs

-- `h * 60`
times_60 : ℤ → ℤ
times_60 (pos h) = pos (h * 60)
times_60 (negsuc h) = negsuc (h * 60 + 59)

-- `_time_to_minutes`: a match anywhere in the text, or else two integers around one colon; `int` of
-- a text by its code points is a parameter, none for its ValueError.
module _ (py : Builtins) (int_of : List ℕ → Option ℤ) where
  loose_minutes : List ℕ → Option ℤ
  unfolding before_colon after_colon has_colon times_60 ◌+ℤ◌
  loose_minutes cs = elim (after_colon cs) [
    | none ↦ none
    | some rest ↦ if has_colon rest then none else (elim (int_of (before_colon cs)) [
      | none ↦ none
      | some h ↦ elim (int_of rest) [ none ↦ none | some m ↦ some (times_60 h +ℤ m) ]
    ])
  ]

  unfoldable pub time_to_minutes : String → Option ℤ
  unfolding loose_minutes first_clock codes
  time_to_minutes t = elim (first_clock py (codes t)) [
    | some m ↦ some (pos m)
    | none ↦ loose_minutes (codes t)
  ]
