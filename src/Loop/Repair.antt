-- ===== src/Loop/Repair.antt =====
-- backend/agent/execution/repair_hints.py: the key of the hint, without its text.
use travel_agent_pro.Prelude.{
  ℕ, suc, Bool, false, not, ◌&&◌, ◌||◌, ltb, leb, ◌==◌, Option, none, some, List, [], ◌∷◌, length,
  any, keep, String, ℤ, pos, eq_ℤ, leb_ℤ, if◌then◌else◌,
}
use travel_agent_pro.Python.{truthy, is_some, is_text}
use travel_agent_pro.Python.Text.{codes, strip, text_length, is_space, one_of, contains_text}
use travel_agent_pro.Python.Dict.{Value, list, Fields, of_values}
use travel_agent_pro.Python.Exec.{Result, ok, and_then}
use travel_agent_pro.Python.Builtins.{Builtins, get_null, py_str, digit_value}
use travel_agent_pro.Plan.Model.{TravelPlanState, DateRange, DayPlan}
use travel_agent_pro.Plan.Days.{total_days}
use travel_agent_pro.Plan.Step.{dicts_of, names_skeleton}

abbrev joined : String → String → String
joined String.[] t = t
joined (String.◌∷◌ c s) t = String.◌∷◌ c (joined s t)

-- `any(token in text for token in tokens)`
unfoldable pub has_token : List String → String → Bool
has_token tokens text = any (λ t. contains_text (codes t) (codes text)) tokens

-- The rest behind a prefix.
behind : List ℕ → List ℕ → Option (List ℕ)
behind [] cs = some cs
behind (p ∷ ps) [] = none
behind (p ∷ ps) (c ∷ cs) = if p == c then behind ps cs else none

-- `\s*`
skip_spaces : List ℕ → List ℕ
skip_spaces [] = []
skip_spaces (c ∷ cs) = if is_space c then skip_spaces cs else c ∷ cs

-- `re.search`
abbrev found_in : (List ℕ → Bool) → List ℕ → Bool
found_in here [] = here []
found_in here (c ∷ cs) = here (c ∷ cs) || found_in here cs

-- The regular expression `方案\s*` and one of the letters A, B, C or the digits one to three.
unfoldable pub names_variant : List ℕ → Bool
unfolding behind skip_spaces
names_variant cs = elim (behind (codes "方案") cs) [
  | none ↦ false
  | some rest ↦ elim (skip_spaces rest) [
    | [] ↦ false
    | c ∷ ds ↦ leb b'A' c && leb c b'C' || leb b'1' c && leb c b'3'
  ]
]

abbrev skeleton_signals : List String
skeleton_signals = "骨架" ∷ "轻松版" ∷ "平衡版" ∷ "高密度版" ∷ "深度版" ∷ "跳岛" ∷ []

unfoldable pub has_skeleton_signals : String → Bool
has_skeleton_signals text = has_token skeleton_signals text || found_in names_variant (codes text)

-- The first skeleton that goes by the selected id.
unfoldable pub find_selected : Value → List Fields → Option Fields
find_selected selected [] = none
find_selected selected (s ∷ ss) =
    if names_skeleton selected s then some s else find_selected selected ss

-- The hint for a selected skeleton whose days are not as many as those of the trip.
unfoldable pub mismatch_key : DateRange → Option Fields → List String → Result (Option String)
mismatch_key d none used = ok none
mismatch_key d (some s) used = elim (get_null "days" s) [
  | list vs ↦
      (and_then (total_days d) λ n. ok (
        if eq_ℤ (pos (length (of_values vs))) n || one_of used "p2_skeleton_day_mismatch"
        then none
        else some "p2_skeleton_day_mismatch"))
  | _ ↦ ok none
]

unfoldable pub skeleton_day_mismatch : TravelPlanState → List String → Result (Option String)
unfolding mismatch_key
skeleton_day_mismatch plan used = elim plan.dates [
  | none ↦ ok none
  | some d ↦
      if truthy plan.selected_skeleton_id && truthy plan.skeleton_plans
      then (and_then (dicts_of plan.skeleton_plans)
          λ ss. mismatch_key d (find_selected plan.selected_skeleton_id ss) used)
      else ok none
]

-- What the text says that the plan does not hold yet, by the step of phase 2.
unfoldable pub lacks_brief : TravelPlanState → String → Bool
lacks_brief plan text =
    not (truthy plan.trip_brief) && has_token ("画像" ∷ "偏好" ∷ "约束" ∷ "预算" ∷ "日期" ∷ "旅行" ∷ []) text

unfoldable pub lacks_candidates : TravelPlanState → String → Bool
lacks_candidates plan text =
    not (truthy plan.shortlist) && has_token ("候选" ∷ "推荐" ∷ "不建议" ∷ "why" ∷ "why_not" ∷ []) text

unfoldable pub lacks_skeletons : TravelPlanState → String → Bool
lacks_skeletons plan text = not (truthy plan.skeleton_plans) && has_skeleton_signals text

unfoldable pub lacks_choices : TravelPlanState → String → Bool
lacks_choices plan text =
    not (truthy plan.transport_options) && has_token ("航班" ∷ "火车" ∷ "高铁" ∷ "交通" ∷ []) text
    || not (truthy plan.accommodation_options)
      && (not (is_some plan.accommodation) && has_token ("住宿" ∷ "酒店" ∷ "民宿" ∷ "旅馆" ∷ []) text)
    || not (truthy plan.risks) && has_token ("风险" ∷ "注意" ∷ "天气" ∷ []) text
    || not (truthy plan.alternatives) && has_token ("备选" ∷ "替代" ∷ "雨天" ∷ []) text

unfoldable pub lacks_writing : TravelPlanState → String → Bool
lacks_writing plan text =
    let step = plan.phase2_step in
    is_text step "brief" && lacks_brief plan text
    || is_text step "candidate" && (lacks_candidates plan text || lacks_skeletons plan text)
    || is_text step "skeleton" && lacks_skeletons plan text
    || is_text step "lock" && lacks_choices plan text

module _ (py : Builtins) where
  -- A first key for each step, and a second one.
  unfoldable pub step_key : Value → List String → Option String
  step_key step used =
      let key = joined "p2_" (py_str py step) in
      let retry = joined key "_retry" in
      if not (one_of used key) then some key else if one_of used retry then none else some retry

  abbrev where_lacking : Bool → Option String → Option String
  where_lacking b key = if b then key else none

  unfoldable pub phase2_step_hint : TravelPlanState → String → List String → Option String
  unfolding step_key
  phase2_step_hint plan text used =
      where_lacking
        (truthy plan.destination
          && (leb 12 (text_length (strip text)) && lacks_writing plan (strip text)))
        (step_key plan.phase2_step used)

  abbrev first_of : Option String → Option String → Option String
  first_of none other = other
  first_of (some k) other = some k

  unfoldable pub phase2_state_hint : TravelPlanState → String → List String → Result (Option String)
  phase2_state_hint plan text used =
      and_then (skeleton_day_mismatch plan used)
        λ m. ok (first_of m (phase2_step_hint plan text used))

  is_digit : ℕ → Bool
  is_digit c = is_some (digit_value py c)

  abbrev counting : List ℕ
  counting = codes "123456789一二三四五六七八九十"

  -- `第\s*[1-9一二三四五六七八九十]\s*天|Day\s*\d|DAY\s*\d`
  ordinal : List ℕ → Bool
  ordinal [] = false
  ordinal (c ∷ cs) = any (λ n. n == c) counting && is_some (behind (codes "天") (skip_spaces cs))

  digit_first : List ℕ → Bool
  digit_first [] = false
  digit_first (c ∷ cs) = is_digit c

  abbrev follows : (List ℕ → Bool) → Option (List ℕ) → Bool
  follows test none = false
  follows test (some cs) = test (skip_spaces cs)

  unfoldable pub names_day : List ℕ → Bool
  unfolding behind skip_spaces ordinal digit_first is_digit
  names_day cs =
      follows ordinal (behind (codes "第") cs)
      || follows digit_first (behind (codes "Day") cs)
      || follows digit_first (behind (codes "DAY") cs)

  -- `\d{1,2}:\d{2}`: one digit before the colon is enough for a match.
  unfoldable pub names_time : List ℕ → Bool
  unfolding is_digit
  names_time (a ∷ b ∷ c ∷ d ∷ cs) = is_digit a && (b == b':' && (is_digit c && is_digit d))
  names_time _ = false

  -- `\d{4}-\d{2}-\d{2}`
  unfoldable pub names_date : List ℕ → Bool
  unfolding is_digit
  names_date (a ∷ b ∷ c ∷ d ∷ e ∷ f ∷ g ∷ h ∷ i ∷ j ∷ cs) =
      is_digit a
      && (is_digit b
          && (is_digit c
              && (is_digit d
                  && (e == b'-'
                      && (is_digit f
                          && (is_digit g && (h == b'-' && (is_digit i && is_digit j))))))))
  names_date _ = false

  abbrev activity_markers : List String
  activity_markers = "活动" ∷ "景点" ∷ "行程" ∷ "安排" ∷ "上午" ∷ "下午" ∷ "晚上" ∷ "餐厅" ∷ []

  abbrev json_markers : List String
  json_markers = "\"day\"" ∷ "\"date\"" ∷ "\"activities\"" ∷ "\"start_time\"" ∷ []

  unfoldable pub tells_days : String → Bool
  tells_days text =
      let cs = codes text in
      let active = has_token activity_markers text in
      found_in names_day cs && (found_in names_time cs || active)
      || leb 2 (length (keep (λ t. contains_text (codes t) cs) json_markers))
      || found_in names_date cs && active

  -- How many different days are planned.
  unfoldable pub planned_count : List ℤ → List DayPlan → ℕ
  planned_count seen [] = 0
  planned_count seen (d ∷ ds) =
      let rest = planned_count (d.day ∷ seen) ds in if any (eq_ℤ d.day) seen then rest else suc rest

  unfoldable pub phase3_daily_hint : TravelPlanState → String → List String → Result (Option String)
  phase3_daily_hint plan text used = elim plan.dates [
    | none ↦ ok none
    | some d ↦
        if one_of used "p3_daily" || ltb (text_length (strip text)) 20
        then ok none
        else (and_then (total_days d) λ n. ok (
            if not (leb_ℤ n (pos (planned_count [] plan.daily_plans))) && tells_days (strip text)
            then some "p3_daily"
            else none))
  ]

  -- The two builders, one after the other: each is for its own phase.
  unfoldable pub repair_hint : TravelPlanState → ℤ → String → List String → Result (Option String)
  repair_hint plan current_phase text used =
      if eq_ℤ current_phase (pos 2)
      then phase2_state_hint plan text used
      else if eq_ℤ current_phase (pos 3)
      then phase3_daily_hint plan text used
      else ok none
