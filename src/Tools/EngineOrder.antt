-- ===== src/Tools/EngineOrder.antt =====
-- The order of the results of `execute_batch` of backend/tools/engine.py.
use travel_agent_pro.Prelude.{
  ◌≡◌, refl, ap, ℕ, suc, Bool, not, List, [], ◌∷◌, map, keep, Bool-cases, Option-cases, inl, inr,
  String, arith,
}
use travel_agent_pro.Python.Dict.{Value}
use travel_agent_pro.Python.Exec.{Result, ok, Result-cases}
use travel_agent_pro.Tools.Types.{ToolCall, ToolResult, call_id, answered_id}
use travel_agent_pro.Tools.Engine.{
  Toolbox, items, enumerate, get_tool, split_metadata, execute, is_write, execute_each,
  execute_batch, gathered,
}
use travel_agent_pro.Tools.Sorting.{in_order, sorted-in_order}

-- Each call with the result of its execution in some state.
abbrev pub Executed :
    {W : Type 0} → (ToolCall → W → ToolResult × W) → List ToolCall → List ToolResult → Type 0
Executed run [] [] = Unit
Executed {W} run (c ∷ cs) (r ∷ rs) = ((w : W) × (r ≡ (run c w).0)) × Executed run cs rs
Executed run [] (r ∷ rs) = ⊥
Executed run (c ∷ cs) [] = ⊥

-- The same of gathered results, none of which is an exception.
abbrev pub Gathered :
    {W : Type 0}
    → (ToolCall → W → ToolResult × W)
    → List ToolCall
    → List (Result ToolResult)
    → Type 0
Gathered run [] [] = Unit
Gathered {W} run (c ∷ cs) (r ∷ rs) = ((w : W) × (r ≡ ok (run c w).0)) × Gathered run cs rs
Gathered run [] (r ∷ rs) = ⊥
Gathered run (c ∷ cs) [] = ⊥

module _ {W : Type 0} (names_argument : ToolCall → W → Bool) (tools : Toolbox W) where
  abbrev ran : ToolCall → W → ToolResult × W
  ran = execute names_argument tools

  split_metadata-answered : (c : ToolCall) (v : Value) → answered_id (split_metadata c v) ≡ c.id
  unfolding split_metadata
  split_metadata-answered c v = ground arith

  pub execute-answered : (c : ToolCall) (w : W) → answered_id (ran c w).0 ≡ c.id
  unfolding execute
  execute-answered c w = elim (Option-cases (get_tool c.name tools)) [
    | inl e ↦ ground (arith, e)
    | inr (t, e) ↦ elim (Result-cases (t.run c.arguments w).0) [
      | inl (v, f) ↦ ground (arith, e, f, split_metadata-answered c v)
      | inr (x, f) ↦ ground (arith, e, f)
    ]
  ]

  pub Executed-execute_each :
      (cs : List ToolCall) (w : W) → Executed ran cs (execute_each names_argument tools cs w).0
  unfolding execute_each
  Executed-execute_each [] w = tt
  Executed-execute_each (c ∷ cs) w = ((w, refl), Executed-execute_each cs (ran c w).1)

  gathered-Executed :
      (cs : List ToolCall) (rs : List (Result ToolResult))
      → Gathered ran cs rs
      → Executed ran cs (gathered names_argument tools cs rs)
  unfolding gathered
  gathered-Executed [] [] h = tt
  gathered-Executed [] (r ∷ rs) h = absurd h
  gathered-Executed (c ∷ cs) [] h = absurd h
  gathered-Executed (c ∷ cs) (r ∷ rs) ((w, e), hs) = ((w, rw e refl), gathered-Executed cs rs hs)

  -- What a gather gives that takes the calls in turn.
  abbrev pub in_turn : List ToolCall → W → List (Result ToolResult) × W
  in_turn cs w = let (rs, v) = execute_each names_argument tools cs w in (map ok rs, v)

  pub Gathered-in_turn : (cs : List ToolCall) (w : W) → Gathered ran cs (in_turn cs w).0
  unfolding execute_each
  Gathered-in_turn [] w = tt
  Gathered-in_turn (c ∷ cs) w = ((w, refl), Gathered-in_turn cs (ran c w).1)

  abbrev writes : ToolCall → Bool
  writes = is_write names_argument tools

  Executed-in_order :
      (cs : List ToolCall) (rs ws : List ToolResult)
      → Executed ran (keep (λ c. not (writes c)) cs) rs
      → Executed ran (keep writes cs) ws
      → Executed ran cs (in_order writes cs rs ws)
  unfolding in_order
  Executed-in_order [] [] [] hr hw = tt
  Executed-in_order [] [] (w ∷ ws) hr hw = absurd hw
  Executed-in_order [] (r ∷ rs) ws hr hw = absurd hr
  Executed-in_order (c ∷ cs) [] [] hr hw = elim (Bool-cases (writes c)) [
    | inl e ↦ absurd (rw e at hw)
    | inr e ↦ absurd (rw e at hr)
  ]
  Executed-in_order (c ∷ cs) [] (w ∷ ws) hr hw = elim (Bool-cases (writes c)) [
    | inl e ↦ rw e ((rw e at hw).0, Executed-in_order cs [] ws (rw e at hr) (rw e at hw).1)
    | inr e ↦ absurd (rw e at hr)
  ]
  Executed-in_order (c ∷ cs) (r ∷ rs) [] hr hw = elim (Bool-cases (writes c)) [
    | inl e ↦ absurd (rw e at hw)
    | inr e ↦ rw e ((rw e at hr).0, Executed-in_order cs rs [] (rw e at hr).1 (rw e at hw))
  ]
  Executed-in_order (c ∷ cs) (r ∷ rs) (w ∷ ws) hr hw = elim (Bool-cases (writes c)) [
    | inl e ↦ rw e ((rw e at hw).0, Executed-in_order cs (r ∷ rs) ws (rw e at hr) (rw e at hw).1)
    | inr e ↦ rw e ((rw e at hr).0, Executed-in_order cs rs (w ∷ ws) (rw e at hr).1 (rw e at hw))
  ]

  items-keep :
      (p : ToolCall → Bool) (k : ℕ) (cs : List ToolCall)
      → items (keep (λ (c : ℕ × ToolCall). p c.1) (enumerate k cs)) ≡ keep p cs
  items-keep p k [] = refl
  items-keep p k (c ∷ cs) = elim (Bool-cases (p c)) [
    | inl e ↦ rw e (ap (λ (l : List ToolCall). c ∷ l) (items-keep p (suc k) cs))
    | inr e ↦ rw e (items-keep p (suc k) cs)
  ]

  module _ (gather : List ToolCall → W → List (Result ToolResult) × W) where
    abbrev batch : List ToolCall → W → List ToolResult × W
    batch = execute_batch names_argument tools gather

    -- Of two or more calls, those that only read are gathered first and those that write follow one
    -- after the other; the results stand in the order of the calls.
    pub batch-in_order :
        (c d : ToolCall) (cs : List ToolCall) (w : W)
        → batch (c ∷ d ∷ cs) w ≡ (
            let read = gather (keep (λ x. not (writes x)) (c ∷ d ∷ cs)) w in
            let written = execute_each names_argument tools (keep writes (c ∷ d ∷ cs)) read.1 in
            (
              in_order writes
                  (c ∷ d ∷ cs)
                  (gathered names_argument tools (keep (λ x. not (writes x)) (c ∷ d ∷ cs)) read.0)
                  written.0,
              written.1,
            ))
    unfolding execute_batch
    batch-in_order c d cs w = rw (items-keep (λ x. not (writes x)) 0 (c ∷ d ∷ cs)) (
        rw (items-keep writes 0 (c ∷ d ∷ cs)) (
          rw
            (sorted-in_order writes 0 (c ∷ d ∷ cs)
              (gathered names_argument tools (keep (λ x. not (writes x)) (c ∷ d ∷ cs))
                (gather (keep (λ x. not (writes x)) (c ∷ d ∷ cs)) w).0)
              (execute_each names_argument tools (keep writes (c ∷ d ∷ cs))
                (gather (keep (λ x. not (writes x)) (c ∷ d ∷ cs)) w).1).0)
            refl))

    module _ (gathers : (cs : List ToolCall) (w : W) → Gathered ran cs (gather cs w).0) where
      batch-Executed_many :
          (c d : ToolCall) (cs : List ToolCall) (w : W)
          → Executed ran (c ∷ d ∷ cs) (batch (c ∷ d ∷ cs) w).0
      batch-Executed_many c d cs w =
          let reads = keep (λ x. not (writes x)) (c ∷ d ∷ cs) in
          rw (batch-in_order c d cs w) (
            Executed-in_order (c ∷ d ∷ cs) (gathered names_argument tools reads (gather reads w).0)
              (execute_each names_argument tools (keep writes (c ∷ d ∷ cs)) (gather reads w).1).0
              (gathered-Executed reads (gather reads w).0 (gathers reads w))
              (Executed-execute_each (keep writes (c ∷ d ∷ cs)) (gather reads w).1))

      -- Where asyncio.gather gives the result of an execution for each call, in their order:
      -- `execute_batch` does so too, for any mix of calls that read and calls that write.
      pub batch-Executed : (cs : List ToolCall) (w : W) → Executed ran cs (batch cs w).0
      unfolding execute_batch
      batch-Executed [] w = tt
      batch-Executed (c ∷ []) w = ((w, refl), tt)
      batch-Executed (c ∷ d ∷ cs) w = batch-Executed_many c d cs w

  -- So each result answers the call at its place.
  pub Executed-ids :
      (cs : List ToolCall) (rs : List ToolResult)
      → Executed ran cs rs
      → map answered_id rs ≡ map call_id cs
  Executed-ids [] [] h = refl
  Executed-ids [] (r ∷ rs) h = absurd h
  Executed-ids (c ∷ cs) [] h = absurd h
  Executed-ids (c ∷ cs) (r ∷ rs) ((w, e), hs) =
      rw e (rw (execute-answered c w) (ap (λ (l : List String). c.id ∷ l) (Executed-ids cs rs hs)))
