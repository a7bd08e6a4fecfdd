-- ===== src/Context/Pairs.antt =====
-- What compaction keeps of a history.
use travel_agent_pro.Prelude.{
  ◌≡◌, refl, sym, ◌∙◌, true, Option, none, some, List, [], ◌∷◌, ◌++◌, map, String, Option-cases,
  inl, inr,
}
use mathlib.Core.Path.{subst}
use travel_agent_pro.Tools.Types.{ToolResult}
use travel_agent_pro.Tools.Answers.{call_ids}
use travel_agent_pro.Loop.Messages.{Message, system, user, assistant, tool}
use travel_agent_pro.Loop.Pairing.{Pending, IsPaired, Pending-append, users-IsPaired}
use travel_agent_pro.Context.Compaction.{
  Mode, Estimates, shorter, compact_tool_result_for_prompt, pending_name, pending_after,
  compact_each, compact_in, mode_for, compact_messages_for_prompt,
}
use travel_agent_pro.Context.Summary.{fits, on_before_llm}

-- The same result but for its data.
abbrev pub Likeness : ToolResult → ToolResult → Type 0
Likeness r t =
    (t.tool_call_id ≡ r.tool_call_id)
    × (t.status ≡ r.status)
    × (t.metadata ≡ r.metadata)
    × (t.error_code ≡ r.error_code)
    × (t.suggestion ≡ r.suggestion)

-- Message by message the same, but for the data of results.
abbrev pub Alike : List Message → List Message → Type 0
Alike [] [] = Unit
Alike [] (n ∷ ns) = ⊥
Alike (m ∷ ms) [] = ⊥
Alike (tool r ∷ ms) (tool t ∷ ns) = Likeness r t × Alike ms ns
Alike (tool r ∷ ms) (n ∷ ns) = ⊥
Alike (m ∷ ms) (n ∷ ns) = (n ≡ m) × Alike ms ns

module _ (without_query : String → String) where
  result-Likeness :
      (mode : Mode) (name : Option String) (r : ToolResult)
      → Likeness r (compact_tool_result_for_prompt without_query mode name r)
  unfolding compact_tool_result_for_prompt
  result-Likeness mode name r = elim (Option-cases (shorter without_query mode name r)) [
    | inl e ↦ rw e (refl, refl, refl, refl, refl)
    | inr (d, e) ↦ rw e (refl, refl, refl, refl, refl)
  ]

  each-Alike :
      (mode : Mode) (pending : List (String × String)) (ms : List Message)
      → Alike ms (compact_each without_query mode pending ms).0
  unfolding compact_each
  each-Alike mode pending [] = tt
  each-Alike mode pending (tool r ∷ ms) = (
    result-Likeness mode (pending_name without_query r.tool_call_id pending) r,
    each-Alike mode pending ms,
  )
  each-Alike mode pending (assistant s cs ∷ ms) =
      (refl, each-Alike mode (pending_after without_query cs pending) ms)
  each-Alike mode pending (system s ∷ ms) = (refl, each-Alike mode pending ms)
  each-Alike mode pending (user s ∷ ms) = (refl, each-Alike mode pending ms)

Alike-refl : (ms : List Message) → Alike ms ms
Alike-refl [] = tt
Alike-refl (tool r ∷ ms) = ((refl, refl, refl, refl, refl), Alike-refl ms)
Alike-refl (assistant s cs ∷ ms) = (refl, Alike-refl ms)
Alike-refl (system s ∷ ms) = (refl, Alike-refl ms)
Alike-refl (user s ∷ ms) = (refl, Alike-refl ms)

in-Alike :
    (without_query : String → String) (o : Option Mode) (ms : List Message)
    → Alike ms (compact_in without_query o ms).0
unfolding compact_in
in-Alike without_query none ms = Alike-refl ms
in-Alike without_query (some mode) ms = each-Alike without_query mode [] ms

compact-Alike :
    (without_query : String → String) (e : Estimates) (ms : List Message)
    → Alike ms (compact_messages_for_prompt without_query e ms).0
unfolding compact_messages_for_prompt
compact-Alike without_query e ms = in-Alike without_query (mode_for e ms) ms

-- The pairs of calls and answers are those of before.
Alike-Pending :
    (is : List String) (ms ns : List Message) → Alike ms ns → Pending is ms → Pending is ns
Alike-Pending is [] [] a h = h
Alike-Pending is [] (n ∷ ns) a h = absurd a
Alike-Pending is (tool r ∷ ms) [] a h = absurd a
Alike-Pending is (system s ∷ ms) [] a h = absurd a
Alike-Pending is (user s ∷ ms) [] a h = absurd a
Alike-Pending is (assistant s cs ∷ ms) [] a h = absurd a
Alike-Pending [] (tool r ∷ ms) (n ∷ ns) a h = absurd h
Alike-Pending (i ∷ is) (tool r ∷ ms) (tool t ∷ ns) a h =
    (a.0.0 ∙ h.0, Alike-Pending is ms ns a.1 h.1)
Alike-Pending (i ∷ is) (tool r ∷ ms) (system s ∷ ns) a h = absurd a
Alike-Pending (i ∷ is) (tool r ∷ ms) (user s ∷ ns) a h = absurd a
Alike-Pending (i ∷ is) (tool r ∷ ms) (assistant s cs ∷ ns) a h = absurd a
Alike-Pending [] (system s ∷ ms) (n ∷ ns) a h =
    subst (λ m. Pending [] (m ∷ ns)) (sym a.0) (Alike-Pending [] ms ns a.1 h)
Alike-Pending [] (user s ∷ ms) (n ∷ ns) a h =
    subst (λ m. Pending [] (m ∷ ns)) (sym a.0) (Alike-Pending [] ms ns a.1 h)
Alike-Pending [] (assistant s cs ∷ ms) (n ∷ ns) a h =
    subst (λ m. Pending [] (m ∷ ns)) (sym a.0) (Alike-Pending (call_ids cs) ms ns a.1 h)
Alike-Pending (i ∷ is) (system s ∷ ms) (n ∷ ns) a h = absurd h
Alike-Pending (i ∷ is) (user s ∷ ms) (n ∷ ns) a h = absurd h
Alike-Pending (i ∷ is) (assistant s cs ∷ ms) (n ∷ ns) a h = absurd h

module _ (without_query : String → String) (e : Estimates)
    (compress_for_transition : List Message → String) (notes : List String) (m : Message)
    (ms : List Message)
    (fit : fits without_query e compress_for_transition
        (compact_messages_for_prompt without_query e ((m ∷ ms) ++ map user notes)).0
      ≡ true) where
  -- Where the prompt fits the budget, if need be with shorter results of searches, the hook before a call
  -- of the model keeps a history, followed by the notes that waited for it, message by message but for
  -- the data of results, and a history in which calls and answers are paired stays one.
  pub before_llm-IsPaired :
      Alike
        ((m ∷ ms) ++ map user notes)
        (on_before_llm without_query e compress_for_transition notes (m ∷ ms))
      × (IsPaired (m ∷ ms)
          → IsPaired (on_before_llm without_query e compress_for_transition notes (m ∷ ms)))
  unfolding on_before_llm
  before_llm-IsPaired =
      let alike = compact-Alike without_query e ((m ∷ ms) ++ map user notes) in
      rw fit (
        alike,
        (λ h.
            Alike-Pending [] ((m ∷ ms) ++ map user notes) _ alike
              (Pending-append [] (m ∷ ms) (map user notes) h (users-IsPaired notes))),
      )
