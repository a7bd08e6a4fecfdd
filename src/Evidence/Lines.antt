-- ===== src/Evidence/Lines.antt =====
-- `str.splitlines`, and text to which a line is appended.
use Prim.Native.Char.{Char, code}
use travel_agent_pro.Prelude.{
  ◌≡◌, refl, ap, ℕ, Bool, true, not, ◌&&◌, ◌||◌, ◌==◌, leb, List, [], ◌∷◌, ◌++◌, String, Bool-cases,
  inl, inr, if◌then◌else◌, arith,
}
use travel_agent_pro.Python.Text.{text_append}

abbrev is_break : ℕ → Bool
is_break c = leb 10 c && leb c 13 || leb 28 c && leb c 30 || c == 133 || c == 8232 || c == 8233

abbrev before_first : Char → List String → List String
before_first c [] = String.◌∷◌ c "" ∷ []
before_first c (l ∷ ls) = String.◌∷◌ c l ∷ ls

-- Between "\r" and "\n" there is an empty line here, which the readers of lines skip.
unfoldable pub split_lines : String → List String
split_lines String.[] = []
split_lines (String.◌∷◌ c s) =
    let rest = split_lines s in if is_break (code c) then "" ∷ rest else before_first c rest

-- A text without a line boundary.
unfoldable pub is_one_line : String → Bool
is_one_line String.[] = true
is_one_line (String.◌∷◌ c s) = not (is_break (code c)) && is_one_line s

-- An empty text, or one with a line boundary at its end.
unfoldable pub is_closed : String → Bool
is_closed String.[] = true
is_closed (String.◌∷◌ c String.[]) = is_break (code c)
is_closed (String.◌∷◌ c (String.◌∷◌ d s)) = is_closed (String.◌∷◌ d s)

split_lines-cons :
    (c : Char) (s : String)
    → (l : String) × (ls : List String) × (split_lines (String.◌∷◌ c s) ≡ l ∷ ls)
unfolding split_lines
split_lines-cons c s = elim (Bool-cases (is_break (code c))) [
  | inl e ↦ ("", split_lines s, rw e refl)
  | inr e ↦
      elim (split_lines s)
        as (λ xs.
          (l : String) × (ls : List String) × ((if is_break (code c)
              then "" ∷ xs
              else before_first c xs)
            ≡ l ∷ ls)) [
              | [] ↦ (String.◌∷◌ c "", [], rw e refl)
              | x ∷ xs ↦ (String.◌∷◌ c x, xs, rw e refl)
            ]
]

split_lines-one : (l : String) → is_one_line l ≡ true → split_lines (text_append l "\n") ≡ l ∷ []
unfolding split_lines is_one_line
split_lines-one String.[] h = refl
split_lines-one (String.◌∷◌ c l) h = elim (Bool-cases (is_break (code c))) [
  | inl e ↦ absurd (ground (arith, h, e))
  | inr e ↦ rw e (rw (split_lines-one l (ground (arith, h, e))) refl)
]

-- A line behind a closed text is one line more.
pub split_lines-append :
    (t l : String)
    → is_closed t ≡ true
    → is_one_line l ≡ true
    → split_lines (text_append t (text_append l "\n")) ≡ split_lines t ++ l ∷ []
unfolding split_lines is_closed
split_lines-append String.[] l h k = split_lines-one l k
split_lines-append (String.◌∷◌ c String.[]) l h k = rw h (rw (split_lines-one l k) refl)
split_lines-append (String.◌∷◌ c (String.◌∷◌ d s)) l h k =
    let later = split_lines-append (String.◌∷◌ d s) l h k in
    let (x, xs, e) = split_lines-cons d s in
    elim (Bool-cases (is_break (code c))) [
      | inl f ↦ rw f (ap (λ (ls : List String). "" ∷ ls) later)
      | inr f ↦ rw f (rw later (rw e refl))
    ]

closed_line : (l : String) → is_closed (text_append l "\n") ≡ true
unfolding is_closed
closed_line String.[] = refl
closed_line (String.◌∷◌ c String.[]) = refl
closed_line (String.◌∷◌ c (String.◌∷◌ d s)) = closed_line (String.◌∷◌ d s)

pub closed-append : (t l : String) → is_closed (text_append t (text_append l "\n")) ≡ true
unfolding is_closed
closed-append String.[] l = closed_line l
closed-append (String.◌∷◌ c String.[]) String.[] = refl
closed-append (String.◌∷◌ c String.[]) (String.◌∷◌ d l) = closed_line (String.◌∷◌ d l)
closed-append (String.◌∷◌ c (String.◌∷◌ d s)) l = closed-append (String.◌∷◌ d s) l
