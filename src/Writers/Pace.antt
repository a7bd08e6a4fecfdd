-- ===== src/Writers/Pace.antt =====
-- `normalize_pace_value` of backend/state/models.py.
use travel_agent_pro.Prelude.{
  ◌≡◌, refl, ◌⊎◌, inl, inr, Bool, true, not, Option, none, some, List, [], ◌∷◌, String, eq_iff, any,
  keep, arith, if◌then◌else◌,
}
use travel_agent_pro.Python.Dict.{Value, null, bool, int, float, str, list, dict}
use travel_agent_pro.Python.Text.{codes, strip, lower, is_space, one_of, contains_text}
use travel_agent_pro.Python.Builtins.{Builtins}

abbrev paces : List String
paces = "relaxed" ∷ "balanced" ∷ "intensive" ∷ []

abbrev balanced_markers : List String
balanced_markers =
    "balanced" ∷ "平衡" ∷ "均衡" ∷ "适中" ∷ "中等" ∷ "3-4" ∷ "3到4" ∷ "三到四" ∷ "三四" ∷ "不要太赶" ∷ "别太赶" ∷ "不太赶"
    ∷ []

abbrev relaxed_markers : List String
relaxed_markers = "relaxed" ∷ "轻松" ∷ "慢" ∷ "休闲" ∷ "松弛" ∷ "2-3" ∷ "2到3" ∷ "两到三" ∷ "二到三" ∷ "不赶路" ∷ []

abbrev intensive_markers : List String
intensive_markers = "intensive" ∷ "紧凑" ∷ "高密" ∷ "尽量多" ∷ "多玩" ∷ "打卡" ∷ "5个" ∷ "五个" ∷ []

-- Whether a marker is in the text without its white space.
unfoldable pub mentions : List String → String → Bool
mentions markers text =
    any (λ m. contains_text (codes m) (keep (λ c. not (is_space c)) (codes text))) markers

pace_of : String → Option String
pace_of text =
    if one_of paces text
    then some text
    else if mentions balanced_markers text
    then some "balanced"
    else if mentions relaxed_markers text
    then some "relaxed"
    else if mentions intensive_markers text
    then some "intensive"
    else none

unfoldable pub normalize_pace_value : Builtins → Value → Option String
unfolding pace_of
normalize_pace_value py (str s) = pace_of (lower py.lowered (strip s))
normalize_pace_value py _ = none

abbrev IsPace : String → Type 0
IsPace p = (p ≡ "relaxed") ⊎ (p ≡ "balanced") ⊎ (p ≡ "intensive")

one_of-IsPace : (p : String) → one_of paces p ≡ true → IsPace p
one_of-IsPace p h = ground (arith, eq_iff p "relaxed", eq_iff p "balanced", eq_iff p "intensive")

pace_of-IsPace : (text p : String) → pace_of text ≡ some p → IsPace p
unfolding pace_of
pace_of-IsPace text p h = ground (arith, one_of-IsPace text)

normalize-IsPace :
    (py : Builtins) (v : Value) (p : String) → normalize_pace_value py v ≡ some p → IsPace p
unfolding normalize_pace_value
normalize-IsPace py (str s) p h = pace_of-IsPace (lower py.lowered (strip s)) p h
normalize-IsPace py null p h = cc
normalize-IsPace py (bool b) p h = cc
normalize-IsPace py (int i) p h = cc
normalize-IsPace py (float x) p h = cc
normalize-IsPace py (list vs) p h = cc
normalize-IsPace py (dict d) p h = cc

relaxed_stable : (py : Builtins) → normalize_pace_value py (str "relaxed") ≡ some "relaxed"
unfolding normalize_pace_value strip lower
relaxed_stable py = refl

balanced_stable : (py : Builtins) → normalize_pace_value py (str "balanced") ≡ some "balanced"
unfolding normalize_pace_value strip lower
balanced_stable py = refl

intensive_stable : (py : Builtins) → normalize_pace_value py (str "intensive") ≡ some "intensive"
unfolding normalize_pace_value strip lower
intensive_stable py = refl

-- A value that is mapped to a pace is mapped to "relaxed", "balanced" or "intensive", and that text is
-- mapped to itself: mapping a second time changes nothing.
pub normalize_pace_stable :
    (py : Builtins) (v : Value) (p : String)
    → normalize_pace_value py v ≡ some p
    → ((p ≡ "relaxed") ⊎ (p ≡ "balanced") ⊎ (p ≡ "intensive"))
      × (normalize_pace_value py (str p) ≡ some p)
normalize_pace_stable py v p h =
    let known = normalize-IsPace py v p h in
    (
      known,
      elim known [
        | inl e ↦ rw e (relaxed_stable py)
        | inr (inl e) ↦ rw e (balanced_stable py)
        | inr (inr e) ↦ rw e (intensive_stable py)
      ],
    )
