-- ===== src/Python/Text.antt =====
-- What the modelled sources use of `str`, and `re.fullmatch` against a fixed pattern of characters.
use Prim.Native.Char.{Char, code}
use Prim.Native.String
use travel_agent_pro.Prelude.{
  ℕ, zero, suc, ◌+◌, ◌-◌, ◌*◌, ◌/◌, ◌%◌, Bool, true, false, ◌&&◌, ◌||◌, List, [], ◌∷◌, String,
  str_eq, ◌==◌, leb, ltb, ℤ, pos, negsuc, if◌then◌else◌,
}

-- The code points of a text.
unfoldable pub codes : String → List ℕ
codes String.[] = []
codes (String.◌∷◌ c s) = code c ∷ codes s

-- `len(s)`
unfoldable pub text_length : String → ℕ
text_length String.[] = 0
text_length (String.◌∷◌ c s) = suc (text_length s)

-- `str.isspace` of one character.
unfoldable pub is_space : ℕ → Bool
is_space c =
    leb 9 c && leb c 13
    || leb 28 c && leb c 32
    || c == 133
    || c == 160
    || c == 5760
    || leb 8192 c && leb c 8202
    || c == 8232
    || c == 8233
    || c == 8239
    || c == 8287
    || c == 12288

lstrip : String → String
lstrip String.[] = ""
lstrip (String.◌∷◌ c s) = let rest = lstrip s in if is_space (code c) then rest else String.◌∷◌ c s

pub rstrip : String → String
rstrip String.[] = ""
rstrip (String.◌∷◌ c s) =
    let rest = rstrip s in if is_space (code c) && str_eq rest "" then "" else String.◌∷◌ c rest

-- `s.strip()`
unfoldable pub strip : String → String
unfolding lstrip rstrip is_space
strip s = lstrip (rstrip s)

unfoldable pub is_digit : ℕ → Bool
is_digit c = leb 48 c && leb c 57

-- The value of decimal digits.
unfoldable pub digits_value : ℕ → List ℕ → ℕ
digits_value n [] = n
digits_value n (c ∷ cs) = digits_value (n * 10 + (c - 48)) cs

-- `str.lower` on ASCII text; what lies beyond needs the Unicode tables and is left to `other`.
lower_char : Char → Char
lower_char c =
    if leb b'A' (code c) && leb (code c) b'Z'
    then String.char_at "abcdefghijklmnopqrstuvwxyz" (code c - b'A')
    else c

is_ascii : String → Bool
is_ascii String.[] = true
is_ascii (String.◌∷◌ c s) = leb (code c) 127 && is_ascii s

lower_ascii : String → String
lower_ascii String.[] = ""
lower_ascii (String.◌∷◌ c s) = String.◌∷◌ (lower_char c) (lower_ascii s)

unfoldable pub lower : (String → String) → String → String
unfolding lower_char is_ascii lower_ascii
lower other s = if is_ascii s then lower_ascii s else other s

-- `s in {…}`
abbrev pub one_of : List String → String → Bool
one_of [] s = false
one_of (t ∷ ts) s = str_eq s t || one_of ts s

-- The decimal digits of a number; the number itself is fuel enough for its own digits.
decimal : ℕ → ℕ → List ℕ → List ℕ
decimal zero n tail = (48 + n % 10) ∷ tail
decimal (suc f) n tail =
    let shorter = decimal f (n / 10) ((48 + n % 10) ∷ tail) in
    if ltb n 10 then (48 + n) ∷ tail else shorter

-- `str(i)` of an integer, by code points.
unfoldable pub show_ℤ : ℤ → List ℕ
unfolding decimal
show_ℤ (pos n) = decimal n n []
show_ℤ (negsuc n) = b'-' ∷ decimal (suc n) (suc n) []

is_prefix : List ℕ → List ℕ → Bool
is_prefix [] ys = true
is_prefix (x ∷ xs) [] = false
is_prefix (x ∷ xs) (y ∷ ys) = x == y && is_prefix xs ys

-- `xs in ys` of two texts, by code points.
unfoldable pub contains_text : List ℕ → List ℕ → Bool
unfolding is_prefix
contains_text xs [] = is_prefix xs []
contains_text xs (y ∷ ys) = is_prefix xs (y ∷ ys) || contains_text xs ys

-- `s.startswith(prefix)`
unfoldable pub starts_with : String → String → Bool
unfolding is_prefix
starts_with prefix s = is_prefix (codes prefix) (codes s)

abbrev pub text_append : String → String → String
text_append String.[] t = t
text_append (String.◌∷◌ c s) t = String.◌∷◌ c (text_append s t)

-- `s[:n]`
unfoldable pub text_take : ℕ → String → String
text_take zero s = ""
text_take (suc n) String.[] = ""
text_take (suc n) (String.◌∷◌ c s) = String.◌∷◌ c (text_take n s)
