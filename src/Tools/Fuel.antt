-- ===== src/Tools/Fuel.antt =====
-- The `while` of `execute_tool_batch` in backend/agent/execution/tool_batches.py comes to an end.
use travel_agent_pro.Prelude.{
  ◌≡◌, refl, ◌∙◌, ℕ, zero, suc, ◌+◌, ◌≤◌, ◌<◌, Bool, true, Option, none, some, List, [], ◌∷◌,
  length, String, Bool-cases, inl, inr, arith, if◌then◌else◌, Option-cases,
}
use travel_agent_pro.Python.Exec.{Result, ok, raise, Exec}
use travel_agent_pro.Python.Builtins.{Builtins}
use travel_agent_pro.Python.Dict.{put, int}
use travel_agent_pro.Prelude.{pos}
use travel_agent_pro.Tools.Types.{ToolCall, ToolResult}
use travel_agent_pro.Tools.Engine.{Toolbox, execute, execute_batch}
use travel_agent_pro.Tools.Skips.{
  Guardrail, is_some_result, pre_execution_skip_result, skip-stays, skip-size, is_backtrack_result,
  validate_tool_output,
}
use travel_agent_pro.Tools.Batches.{
  Batch, Next, go_on, ended, cancelled, failed, ToolHooks, is_parallel_read_call, scan, deliver,
  deliver_all, shown, noted, proceed, unless_raised, after_group, read_group, after_one, single,
  round, rounds, execute_tool_batch, twice, with_metadata,
}

twice_eq : (n : ℕ) → twice n ≡ n + n
twice_eq zero = omega arith
twice_eq (suc n) = omega (arith, twice_eq n)

abbrev Found : Type 0
Found = List ToolCall × List ToolCall × List String

-- Such a generator leaves at most 20 remembered searches.
abbrev pub IsStopped : {W : Type 0} → Next W → Type 0
IsStopped (go_on cs s) = ⊥
IsStopped (ended r s) = length s.queries ≤ 20
IsStopped (cancelled s) = Unit
IsStopped (failed x s) = Unit

module _ {W : Type 0} (py : Builtins) (guardrail : Option Guardrail) (parallel : Bool)
    (names_argument : ToolCall → W → Bool) (tools : Toolbox W)
    (gather : List ToolCall → W → List (Result ToolResult) × W) (is_cancelled : W → Bool)
    (tool_hooks : ToolHooks W) where
  abbrev asked : ToolCall → List String → Option ToolResult × List String
  asked = pre_execution_skip_result py guardrail

  abbrev reads : ToolCall → Bool
  reads =
      is_parallel_read_call py guardrail parallel names_argument tools gather is_cancelled
        tool_hooks

  abbrev scanned : List ToolCall → List String → Found
  scanned = scan py guardrail parallel names_argument tools gather is_cancelled tool_hooks

  abbrev run : ℕ → Next W → Next W
  run = rounds py guardrail parallel names_argument tools gather is_cancelled tool_hooks

  -- The rounds that are left: a call that is to be skipped takes one, another at most two.
  abbrev need : List ToolCall → Batch W → ℕ
  need [] s = 1
  need (c ∷ cs) s =
      if is_some_result (asked c s.queries).0
      then suc (suc (twice (length cs)))
      else suc (suc (suc (twice (length cs))))

  need-le : (cs : List ToolCall) (s : Batch W) → need cs s ≤ suc (twice (length cs))
  need-le [] s = omega arith
  need-le (c ∷ cs) s = ground arith

  abbrev Lower : ℕ → Next W → Type 0
  Lower k (go_on cs s) = (length s.queries ≤ 20) × (need cs s < k)
  Lower k (ended r s) = length s.queries ≤ 20
  Lower k (cancelled s) = Unit
  Lower k (failed x s) = Unit

  abbrev delivered : ToolCall → ToolResult → Exec (Batch W) (Unit {0})
  delivered = deliver py guardrail parallel names_argument tools gather is_cancelled tool_hooks

  queries-shown :
      (c : ToolCall) (r : ToolResult) (y : Result (Unit {0})) (w : W) (s : Batch W)
      → (shown py guardrail parallel names_argument tools gather is_cancelled tool_hooks c r y w
          s).1.queries
        ≡ s.queries
  unfolding shown
  queries-shown c r (raise x) w s = refl
  queries-shown c r (ok u) w s = refl

  queries-deliver :
      (c : ToolCall) (r : ToolResult) (s : Batch W) → (delivered c r s).1.queries ≡ s.queries
  unfolding deliver
  queries-deliver c r s =
      let (y, w) = tool_hooks.after_tool_call c r s.world in
      queries-shown c r y w
        (noted py guardrail parallel names_argument tools gather is_cancelled tool_hooks c r s)

  proceed-Lower :
      (k : ℕ) (cs : List ToolCall) (r : ToolResult) (y : Result (Unit {0})) (s : Batch W)
      → length s.queries ≤ 20
      → suc (twice (length cs)) < k
      → Lower k (
          proceed py guardrail parallel names_argument tools gather is_cancelled tool_hooks cs r y
            s)
  unfolding proceed
  proceed-Lower k cs r (raise x) s size h = tt
  proceed-Lower k cs r (ok u) s size h = elim (Bool-cases (is_backtrack_result r)) [
    | inl b ↦ rw b size
    | inr b ↦ rw b (size, omega (arith, need-le cs s))
  ]

  after_one-Lower :
      (k : ℕ) (c : ToolCall) (cs : List ToolCall) (r : ToolResult) (s : Batch W)
      → length s.queries ≤ 20
      → suc (twice (length cs)) < k
      → Lower k (
          after_one py guardrail parallel names_argument tools gather is_cancelled tool_hooks c cs r
            s)
  unfolding after_one
  after_one-Lower k c cs r s size h =
      let r' = with_metadata (λ m. m) r in
      let (y, t) = delivered c r' s in
      proceed-Lower k cs r' y t (rw (queries-deliver c r' s) size) h

  single-Lower :
      (k : ℕ) (c : ToolCall) (cs : List ToolCall) (skip : Option ToolResult) (s : Batch W)
      → length s.queries ≤ 20
      → suc (twice (length cs)) < k
      → Lower k (
          single py guardrail parallel names_argument tools gather is_cancelled tool_hooks c cs skip
            s)
  unfolding single
  single-Lower k c cs (some r) s size h = after_one-Lower k c cs r s size h
  single-Lower k c cs none s size h =
      let run = execute names_argument tools c s.world in
      elim (Bool-cases (is_cancelled s.world)) [
        | inl b ↦ rw b tt
        | inr b ↦ rw b (
            after_one-Lower k c cs (validate_tool_output py guardrail c run.0)
              (record s { world = run.1 }) size h)
      ]

  queries-unless_raised :
      (q : List String) (y : Result (Unit {0})) (s : Batch W) (later : Result (Unit {0}) × Batch W)
      → s.queries ≡ q
      → later.1.queries ≡ q
      → (unless_raised y s later).1.queries ≡ q
  queries-unless_raised q (raise x) s later h k = h
  queries-unless_raised q (ok u) s later h k = k

  queries-deliver_all :
      (cs : List ToolCall) (rs : List ToolResult) (s : Batch W)
      → (deliver_all py guardrail parallel names_argument tools gather is_cancelled tool_hooks cs rs
          s).1.queries
        ≡ s.queries
  unfolding deliver_all
  queries-deliver_all [] rs s = refl
  queries-deliver_all (c ∷ cs) [] s = refl
  queries-deliver_all (c ∷ cs) (r ∷ rs) s =
      let checked =
        validate_tool_output py guardrail c
          (with_metadata (put "parallel_group" (int (pos s.group))) r) in
      let (y, t) = delivered c checked s in
      queries-unless_raised s.queries y t
        (deliver_all py guardrail parallel names_argument tools gather is_cancelled tool_hooks cs rs
          t)
        (queries-deliver c checked s) (queries-deliver_all cs rs t ∙ queries-deliver c checked s)

  after_group-Lower :
      (k : ℕ) (rest : List ToolCall) (y : Result (Unit {0})) (s : Batch W)
      → length s.queries ≤ 20
      → need rest s < k
      → Lower k (after_group rest y s)
  after_group-Lower k rest (ok u) s size low = (size, low)
  after_group-Lower k rest (raise x) s size low = tt

  scan-bounds :
      (cs : List ToolCall) (q : List String)
      → length q ≤ 20
      → (length (scanned cs q).1 ≤ length cs) × (length (scanned cs q).2 ≤ 20)
  unfolding scan
  scan-bounds [] q size = (omega arith, size)
  scan-bounds (c ∷ cs) q size = ground (
    arith,
    skip-size py guardrail c q size,
    scan-bounds cs (asked c q).1 (skip-size py guardrail c q size),
  )

  scan-stop :
      (c : ToolCall) (cs : List ToolCall) (q : List String) (r : ToolResult)
      → (asked c q).0 ≡ some r
      → scanned (c ∷ cs) q ≡ ([], c ∷ cs, (asked c q).1)
  unfolding scan
  scan-stop c cs q r e = rw e refl

  scan-go :
      (c : ToolCall) (cs : List ToolCall) (q : List String)
      → (asked c q).0 ≡ none
      → reads c ≡ true
      → scanned (c ∷ cs) q ≡ (
        c ∷ (scanned cs (asked c q).1).0,
        (scanned cs (asked c q).1).1,
        (scanned cs (asked c q).1).2,
      )
  unfolding scan
  scan-go c cs q e read = rw e (rw read refl)

  -- A group that found nothing: the call at the front is skipped in the next round.
  empty_group :
      (c : ToolCall) (cs : List ToolCall) (q : List String) (r : ToolResult) (s : Batch W)
      → length q ≤ 20
      → (asked c q).0 ≡ some r
      → s.queries ≡ (asked c q).1
      → Lower (suc (suc (suc (twice (length cs))))) (go_on (c ∷ cs) s)
  empty_group c cs q r s size e same = (
    rw same (skip-size py guardrail c q size),
    rw same (rw (skip-stays py guardrail c q r size e) (omega arith)),
  )

  group_passed :
      (cs group rest : List ToolCall) (rs : List ToolResult) (s : Batch W)
      → length rest ≤ length cs
      → length s.queries ≤ 20
      → Lower (suc (suc (suc (twice (length cs))))) (
          after_group rest
            (deliver_all py guardrail parallel names_argument tools gather is_cancelled tool_hooks
              group rs s).0
            (deliver_all py guardrail parallel names_argument tools gather is_cancelled tool_hooks
              group rs s).1)
  group_passed cs group rest rs s le size =
      let (y, t) =
        deliver_all py guardrail parallel names_argument tools gather is_cancelled tool_hooks group
          rs s in
      after_group-Lower (suc (suc (suc (twice (length cs))))) rest y t
        (rw (queries-deliver_all group rs s) size)
        (omega (arith, need-le rest t, twice_eq (length cs), twice_eq (length rest)))

  read_group-Lower :
      (c : ToolCall) (cs : List ToolCall) (q : List String) (s : Batch W)
      → length q ≤ 20
      → reads c ≡ true
      → Lower (suc (suc (suc (twice (length cs))))) (
          read_group py guardrail parallel names_argument tools gather is_cancelled tool_hooks
            (c ∷ cs)
            q
            s)
  unfolding read_group deliver_all
  read_group-Lower c cs q s size read = elim (Option-cases (asked c q).0) [
    | inl e ↦
        let q' = (asked c q).1 in
        let found = scanned cs q' in
        let bounds = scan-bounds cs q' (skip-size py guardrail c q size) in
        let run = execute_batch names_argument tools gather (c ∷ found.0) s.world in
        rw (scan-go c cs q e read) (
          group_passed cs (c ∷ found.0) found.1 run.0
            (record s { world = run.1; queries = found.2; group = suc s.group }) bounds.0 bounds.1)
    | inr (r, e) ↦ rw (scan-stop c cs q r e) (
        empty_group c cs q r
          (record s {
            world = (execute_batch names_argument tools gather [] s.world).1;
            queries = (asked c q).1;
            group = suc s.group;
          })
          size e refl)
  ]

  round-Lower :
      (cs : List ToolCall) (s : Batch W)
      → length s.queries ≤ 20
      → Lower
          (need cs s)
          (round py guardrail parallel names_argument tools gather is_cancelled tool_hooks cs s)
  unfolding round
  round-Lower [] s size = size
  round-Lower (c ∷ cs) s size =
      let q = (asked c s.queries).1 in
      let size' = skip-size py guardrail c s.queries size in
      elim (Option-cases (asked c s.queries).0) [
        | inl e ↦ elim (Bool-cases (reads c)) [
          | inl read ↦ rw e (rw read (read_group-Lower c cs q s size' read))
          | inr write ↦ rw e (
              rw write (
                single-Lower (suc (suc (suc (twice (length cs))))) c cs none
                  (record s { queries = q }) size' (omega arith)))
        ]
        | inr (r, e) ↦ rw e (
            single-Lower (suc (suc (twice (length cs)))) c cs (some r) (record s { queries = q })
              size' (omega arith))
      ]

  -- A number of rounds that is not below what is needed is enough.
  next-IsStopped :
      (f k : ℕ) (n : Next W)
      → Lower k n
      → k ≤ suc f
      → ((cs : List ToolCall) (s : Batch W)
          → length s.queries ≤ 20
          → need cs s ≤ f
          → IsStopped (run f (go_on cs s)))
      → IsStopped (run f n)
  unfolding rounds
  next-IsStopped f k (go_on cs s) low le ih = ih cs s low.0 (omega (arith, low.1))
  next-IsStopped zero k (ended r s) low le ih = low
  next-IsStopped (suc f) k (ended r s) low le ih = low
  next-IsStopped zero k (cancelled s) low le ih = tt
  next-IsStopped (suc f) k (cancelled s) low le ih = tt
  next-IsStopped zero k (failed x s) low le ih = tt
  next-IsStopped (suc f) k (failed x s) low le ih = tt

  need_some : (cs : List ToolCall) (s : Batch W) → 1 ≤ need cs s
  need_some [] s = omega arith
  need_some (c ∷ cs) s = ground arith

  rounds-IsStopped :
      (f : ℕ) (cs : List ToolCall) (s : Batch W)
      → length s.queries ≤ 20
      → need cs s ≤ f
      → IsStopped (
          rounds py guardrail parallel names_argument tools gather is_cancelled tool_hooks f
            (go_on cs s))
  unfolding rounds
  rounds-IsStopped zero cs s size h = absurd (omega (arith, need_some cs s))
  rounds-IsStopped (suc f) cs s size h =
      next-IsStopped f (need cs s)
        (round py guardrail parallel names_argument tools gather is_cancelled tool_hooks cs s)
        (round-Lower cs s size) h (λ cs' s' size' h'. rounds-IsStopped f cs' s' size' h')

  -- With at most 20 remembered searches at the start, the rounds that `execute_tool_batch` is given
  -- here are enough: the generator ends with an outcome, or it is cancelled.
  pub batch_terminates :
      (calls : List ToolCall) (s : Batch W)
      → length s.queries ≤ 20
      → IsStopped (
          execute_tool_batch py guardrail parallel names_argument tools gather is_cancelled
            tool_hooks calls s)
  unfolding execute_tool_batch
  batch_terminates calls s size =
      rounds-IsStopped (suc (twice (length calls))) calls s size (need-le calls s)
