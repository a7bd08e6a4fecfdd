-- ===== src/Dates.antt =====
-- datetime.date: `fromisoformat` into the proleptic Gregorian ordinal, which is what the difference
-- of two dates is computed from.
use travel_agent_pro.Prelude.{
  ℕ, zero, suc, ◌+◌, ◌-◌, ◌*◌, ◌/◌, ◌%◌, Bool, not, ◌&&◌, ◌||◌, Option, none, some, List, [], ◌∷◌,
  String, ◌==◌, ltb, leb, if◌then◌else◌, all,
}
use travel_agent_pro.Python.Text.{codes, is_digit, digits_value}

is_leap : ℕ → Bool
is_leap y = y % 4 == 0 && (not (y % 100 == 0) || y % 400 == 0)

days_in_month : ℕ → ℕ → ℕ
days_in_month y m =
    if m == 2
    then (if is_leap y then 29 else 28)
    else if m == 4 || m == 6 || m == 9 || m == 11
    then 30
    else 31

-- `_days_before_year`
days_before_year : ℕ → ℕ
days_before_year y = let p = y - 1 in p * 365 + p / 4 - p / 100 + p / 400

-- The days of the `k` months before month `k + 1`.
days_before : ℕ → ℕ → ℕ
days_before y zero = 0
days_before y (suc k) = days_before y k + days_in_month y (suc k)

ymd_ordinal : ℕ → ℕ → ℕ → ℕ
ymd_ordinal y m d = days_before_year y + days_before y (m - 1) + d

calendar_date : ℕ → ℕ → ℕ → Option ℕ
calendar_date y m d =
    if leb 1 y && leb 1 m && leb m 12 && leb 1 d && leb d (days_in_month y m)
    then some (ymd_ordinal y m d)
    else none

-- `date.weekday()` of an ordinal, Monday is 0.
weekday : ℕ → ℕ
weekday n = (n + 6) % 7

week1_monday : ℕ → ℕ
week1_monday y =
    let first = ymd_ordinal y 1 1 in
    let w = weekday first in let monday = first - w in if ltb 3 w then monday + 7 else monday

has_week_53 : ℕ → Bool
has_week_53 y = let w = weekday (ymd_ordinal y 1 1) in w == 3 || (w == 2 && is_leap y)

week_date : ℕ → ℕ → ℕ → Option ℕ
week_date y w d =
    let n = week1_monday y + (w - 1) * 7 + (d - 1) in
    if leb 1 y
      && leb 1 w
      && (leb w 52 || w == 53 && has_week_53 y)
      && leb 1 d
      && leb d 7
      && leb n 3652059
    then some n
    else none

abbrev number : List ℕ → ℕ
number cs = digits_value 0 cs

-- Each documented form: YYYY-MM-DD, YYYYMMDD, YYYY-Www-D, YYYYWwwD, YYYY-Www and YYYYWww.
from_codes : List ℕ → Option ℕ
from_codes (a ∷ b ∷ c ∷ d ∷ s ∷ m ∷ n ∷ t ∷ e ∷ f ∷ []) =
    if not (all is_digit (a ∷ b ∷ c ∷ d ∷ n ∷ f ∷ []) && s == b'-')
    then none
    else let y = number (a ∷ b ∷ c ∷ d ∷ []) in
      if m == b'W' && is_digit t && e == b'-'
      then week_date y (number (n ∷ t ∷ [])) (number (f ∷ []))
      else if is_digit m && t == b'-' && is_digit e
      then calendar_date y (number (m ∷ n ∷ [])) (number (e ∷ f ∷ []))
      else none
from_codes (a ∷ b ∷ c ∷ d ∷ s ∷ m ∷ n ∷ t ∷ []) =
    if not (all is_digit (a ∷ b ∷ c ∷ d ∷ n ∷ t ∷ []))
    then none
    else let y = number (a ∷ b ∷ c ∷ d ∷ []) in
      if s == b'-' && m == b'W'
      then week_date y (number (n ∷ t ∷ [])) 1
      else if s == b'W' && is_digit m
      then week_date y (number (m ∷ n ∷ [])) (number (t ∷ []))
      else if is_digit s && is_digit m
      then calendar_date y (number (s ∷ m ∷ [])) (number (n ∷ t ∷ []))
      else none
from_codes (a ∷ b ∷ c ∷ d ∷ s ∷ m ∷ n ∷ []) =
    if all is_digit (a ∷ b ∷ c ∷ d ∷ m ∷ n ∷ []) && s == b'W'
    then week_date (number (a ∷ b ∷ c ∷ d ∷ [])) (number (m ∷ n ∷ [])) 1
    else none
from_codes _ = none

-- `date.fromisoformat(s)`; none is its ValueError.
unfoldable pub fromisoformat : String → Option ℕ
unfolding codes is_digit digits_value from_codes week_date calendar_date has_week_53 week1_monday
    weekday ymd_ordinal days_before days_before_year days_in_month is_leap
fromisoformat s = from_codes (codes s)
