-- ===== src/Tools/Phases.antt =====
-- Which tools `ToolEngine` of backend/tools/engine.py offers in a phase.
use travel_agent_pro.Prelude.{
  ◌≡◌, refl, Bool, true, not, ◌&&◌, ◌||◌, Option, none, some, List, [], ◌∷◌, ◌++◌, String, str_eq,
  eq_iff, ℤ, pos, eq_ℤ, any, all, keep, ◌⊎◌, inl, inr, arith, if◌then◌else◌,
}
use travel_agent_pro.Python.Text.{one_of}
use travel_agent_pro.Tools.Types.{ToolDef}
use travel_agent_pro.Tools.Engine.{Toolbox}

abbrev xiaohongshu_tools : List String
xiaohongshu_tools =
    "xiaohongshu_search_notes" ∷ "xiaohongshu_read_note" ∷ "xiaohongshu_get_comments" ∷ []

abbrev common : List String
common = "update_trip_basics" ∷ "request_backtrack" ∷ []

abbrev brief_names : List String
brief_names =
    common
    ++ ("set_trip_brief" ∷ "add_preferences" ∷ "add_constraints" ∷ "web_search" ∷ xiaohongshu_tools
        ++ ("set_candidate_pool" ∷ "set_shortlist" ∷ []))

abbrev candidate_names : List String
candidate_names =
    common
    ++ ("set_trip_brief" ∷ "set_candidate_pool" ∷ "set_shortlist" ∷ "set_excluded_candidates"
          ∷ "add_preferences" ∷ "add_constraints" ∷ "web_search" ∷ xiaohongshu_tools
        ++ ("quick_travel_search" ∷ "get_poi_info" ∷ "set_skeleton_plans" ∷ "select_skeleton" ∷ []))

abbrev skeleton_names : List String
skeleton_names =
    common
    ++ ("set_trip_brief" ∷ "set_skeleton_plans" ∷ "select_skeleton" ∷ "set_candidate_pool"
          ∷ "set_shortlist" ∷ "set_excluded_candidates" ∷ "add_preferences" ∷ "add_constraints"
          ∷ "web_search" ∷ xiaohongshu_tools
        ++ ("quick_travel_search" ∷ "get_poi_info" ∷ "calculate_route" ∷ "assemble_day_plan"
            ∷ "check_availability" ∷ []))

abbrev lock_names : List String
lock_names =
    common
    ++ ("set_trip_brief" ∷ "set_candidate_pool" ∷ "set_shortlist" ∷ "set_excluded_candidates"
          ∷ "set_skeleton_plans" ∷ "select_skeleton" ∷ "set_transport_options" ∷ "select_transport"
          ∷ "set_accommodation_options" ∷ "set_accommodation" ∷ "set_risks" ∷ "set_alternatives"
          ∷ "add_preferences" ∷ "add_constraints" ∷ "web_search" ∷ xiaohongshu_tools
        ++ ("quick_travel_search" ∷ "get_poi_info" ∷ "calculate_route" ∷ "assemble_day_plan"
            ∷ "check_availability" ∷ "search_flights" ∷ "search_trains" ∷ "search_accommodations"
            ∷ []))

-- `_phase2_tool_names`: an unknown step has the tools of "brief".
unfoldable pub phase2_tool_names : String → List String
phase2_tool_names step =
    if str_eq step "candidate"
    then candidate_names
    else if str_eq step "skeleton"
    then skeleton_names
    else if str_eq step "lock"
    then lock_names
    else brief_names

-- `_phase2_builtin_tool_names`
unfoldable pub phase2_builtin_tool_names : List String
phase2_builtin_tool_names =
    "update_trip_basics" ∷ "request_backtrack" ∷ "set_trip_brief" ∷ "set_candidate_pool"
    ∷ "set_shortlist" ∷ "set_excluded_candidates" ∷ "set_skeleton_plans" ∷ "select_skeleton"
    ∷ "set_transport_options" ∷ "select_transport" ∷ "set_accommodation_options"
    ∷ "set_accommodation" ∷ "set_risks" ∷ "set_alternatives" ∷ "add_preferences" ∷ "add_constraints"
    ∷ "web_search" ∷ "xiaohongshu_search_notes" ∷ "xiaohongshu_read_note"
    ∷ "xiaohongshu_get_comments" ∷ "quick_travel_search" ∷ "get_poi_info" ∷ "calculate_route"
    ∷ "assemble_day_plan" ∷ "check_availability" ∷ "search_flights" ∷ "search_trains"
    ∷ "search_accommodations" ∷ []

module _ {W : Type 0} where
  -- The step stands for the plan; without a plan no tool of phase 2 is held back.
  unfoldable pub is_offered : ℤ → Option String → ToolDef W → Bool
  is_offered phase step t =
      any (eq_ℤ phase) t.phases
      && (if eq_ℤ phase (pos 2)
          then (elim step [
            | none ↦ true
            | some x ↦
                one_of (phase2_tool_names x) t.name || not (one_of phase2_builtin_tool_names t.name)
          ])
          else true)

  -- The tools whose schemas `get_tools_for_phase` returns.
  unfoldable pub get_tools_for_phase : ℤ → Option String → Toolbox W → Toolbox W
  unfolding is_offered
  get_tools_for_phase phase step tools =
      if any (eq_ℤ phase) (pos 1 ∷ pos 2 ∷ pos 3 ∷ pos 4 ∷ [])
      then keep (is_offered phase step) tools
      else []

one_of-all :
    (xs ys : List String) (n : String)
    → all (one_of ys) xs ≡ true
    → one_of xs n ≡ true
    → one_of ys n ≡ true
one_of-all [] ys n h m = cc
one_of-all (x ∷ xs) ys n h m = ground (arith, eq_iff n x, one_of-all xs ys n)

-- The steps of phase 2 in their order.
abbrev pub NextStep : String → String → Type 0
NextStep a b =
    ((a ≡ "brief") × (b ≡ "candidate"))
    ⊎ ((a ≡ "candidate") × (b ≡ "skeleton"))
    ⊎ ((a ≡ "skeleton") × (b ≡ "lock"))

names_grow :
    (a b : String) → NextStep a b → all (one_of (phase2_tool_names b)) (phase2_tool_names a) ≡ true
unfolding phase2_tool_names
names_grow a b (inl (x, y)) = rw x (rw y refl)
names_grow a b (inr (inl (x, y))) = rw x (rw y refl)
names_grow a b (inr (inr (x, y))) = rw x (rw y refl)

module _ {W : Type 0} (a b : String) (next : NextStep a b) where
  offered_next :
      (t : ToolDef W) → is_offered (pos 2) (some a) t ≡ true → is_offered (pos 2) (some b) t ≡ true
  unfolding is_offered
  offered_next t h =
      ground
        (arith, one_of-all (phase2_tool_names a) (phase2_tool_names b) t.name (names_grow a b next))

  keep_next :
      (n : String) (tools : Toolbox W)
      → any (λ (t : ToolDef W). str_eq t.name n) (keep (is_offered (pos 2) (some a)) tools) ≡ true
      → any (λ (t : ToolDef W). str_eq t.name n) (keep (is_offered (pos 2) (some b)) tools) ≡ true
  keep_next n [] h = h
  keep_next n (t ∷ ts) h = ground (arith, offered_next t, keep_next n ts)

  -- A tool that is offered in phase 2 at one step is offered at the next step too: from "brief" over
  -- "candidate" and "skeleton" to "lock" no tool is taken away.
  pub tools_grow :
      (n : String) (tools : Toolbox W)
      → any (λ (t : ToolDef W). str_eq t.name n) (get_tools_for_phase (pos 2) (some a) tools) ≡ true
      → any (λ (t : ToolDef W). str_eq t.name n) (get_tools_for_phase (pos 2) (some b) tools) ≡ true
  unfolding get_tools_for_phase
  tools_grow n tools h = keep_next n tools h
