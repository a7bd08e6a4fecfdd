-- ===== src/Store/Latest.antt =====
-- Which candidate of a day is the latest, in backend/agent/phase3/candidate_store.py.
use travel_agent_pro.Prelude.{
  ◌≡◌, refl, ap, sym, true, false, Option, none, some, List, [], ◌∷◌, ℤ, pos, eq_ℤ, eq_ℤ_iff, ltb_ℤ,
  ◌<ℤ◌, ◌≤ℤ◌, ◌+ℤ◌, +ℤ_parts, All, ◌⊎◌, inl, inr, arith, Bool-cases, if◌then◌else◌,
}
use travel_agent_pro.Python.Dict.{Fields}
use travel_agent_pro.Python.Exec.{Result, ok, and_then-eq-ok}
use travel_agent_pro.Python.Builtins.{Builtins}
use travel_agent_pro.Store.Candidates.{
  RunDir, put_file, of_day, candidate_sequence, greatest_sequence, next_candidate_sequence,
  latest_of, get_latest_candidate,
}

same_ℤ : (d : ℤ) → eq_ℤ d d ≡ true
same_ℤ d = ground arith

module _ (py : Builtins) where
  -- The numbers of all candidates are known and below `n`.
  abbrev pub Below : ℤ → Fields → Type 0
  Below n p = (i : ℤ) × (candidate_sequence py p ≡ ok i) × (i <ℤ n)

  greatest-Below :
      (latest m : ℤ) (ps : List Fields)
      → greatest_sequence py latest ps ≡ ok m
      → (latest ≤ℤ m) × All (λ p. (i : ℤ) × (candidate_sequence py p ≡ ok i) × (i ≤ℤ m)) ps
  unfolding greatest_sequence
  greatest-Below latest m [] e = (ground (arith, e), tt)
  greatest-Below latest m (p ∷ ps) e =
      let (i, known, rest) =
        and_then-eq-ok (candidate_sequence py p)
          (λ i. greatest_sequence py (if ltb_ℤ latest i then i else latest) ps) e in
      let (le, all_le) = greatest-Below (if ltb_ℤ latest i then i else latest) m ps rest in
      (ground (arith, le), ((i, known, ground (arith, le)), all_le))

  -- A list in which one object has the number `n` and all others are below.
  abbrev IsPeak : ℤ → Fields → List Fields → Type 0
  IsPeak n top [] = ⊥
  IsPeak n top (p ∷ ps) = (Below n p × IsPeak n top ps) ⊎ ((p ≡ top) × All (Below n) ps)

  module _ (n : ℤ) (top : Fields) (numbered : candidate_sequence py top ≡ ok n) where
    latest_of-top :
        (ps : List Fields) → All (Below n) ps → latest_of py (some top) ps ≡ ok (some top)
    unfolding latest_of
    latest_of-top [] h = refl
    latest_of-top (p ∷ ps) ((i, e, lt), hs) = ground (arith, e, numbered, latest_of-top ps hs)

    latest_of-peak :
        (best : Fields) (ps : List Fields)
        → Below n best
        → IsPeak n top ps
        → latest_of py (some best) ps ≡ ok (some top)
    unfolding latest_of
    latest_of-peak best [] hb h = absurd h
    latest_of-peak best (p ∷ ps) (j, f, lt) (inr (same, hs)) =
        ground (arith, ap (candidate_sequence py) same, same, numbered, f, latest_of-top ps hs)
    latest_of-peak best (p ∷ ps) (j, f, lt) (inl ((i, e, lt'), hs)) =
        elim (Bool-cases (ltb_ℤ j i)) [
          | inl b ↦ rw e (rw f (rw b (latest_of-peak p ps (i, e, lt') hs)))
          | inr b ↦ rw e (rw f (rw b (latest_of-peak best ps (j, f, lt) hs)))
        ]

    latest_of-first : (ps : List Fields) → IsPeak n top ps → latest_of py none ps ≡ ok (some top)
    unfolding latest_of
    latest_of-first [] h = absurd h
    latest_of-first (p ∷ ps) (inl (below, hs)) = latest_of-peak p ps below hs
    latest_of-first (p ∷ ps) (inr (same, hs)) = rw same (latest_of-top ps hs)

    put_file-IsPeak :
        (d a : ℤ) (dir : RunDir)
        → All (Below n) (of_day d dir)
        → IsPeak n top (of_day d (put_file (d, a) top dir))
    unfolding of_day put_file
    put_file-IsPeak d a [] h = rw (same_ℤ d) (inr (refl, tt))
    put_file-IsPeak d a (((d', a'), p) ∷ dir) h = elim (Bool-cases (eq_ℤ d' d)) [
      | inr other ↦ rw other (rw other (put_file-IsPeak d a dir (rw other at h)))
      | inl day ↦ elim (Bool-cases (eq_ℤ a' a)) [
        | inl attempt ↦ rw day (rw attempt (rw (same_ℤ d) (inr (refl, (rw day at h).1))))
        | inr attempt ↦
            rw day
              (rw attempt (rw day (inl ((rw day at h).0, put_file-IsPeak d a dir (rw day at h).1))))
      ]
    ]

  of_day-put_file :
      (d e a : ℤ) (p : Fields) (dir : RunDir)
      → eq_ℤ d e ≡ false
      → of_day e (put_file (d, a) p dir) ≡ of_day e dir
  unfolding of_day put_file
  of_day-put_file d e a p [] differs = ground (arith, differs)
  of_day-put_file d e a p (((d', a'), q) ∷ dir) differs =
      ground (arith, differs, of_day-put_file d e a p dir differs)

  Below-next :
      (m n : ℤ) (ps : List Fields)
      → n ≡ m +ℤ pos 1
      → All (λ p. (i : ℤ) × (candidate_sequence py p ≡ ok i) × (i ≤ℤ m)) ps
      → All (Below n) ps
  Below-next m n [] e h = tt
  Below-next m n (p ∷ ps) e ((i, known, le), hs) =
      ((i, known, rw e (omega (arith, +ℤ_parts m (pos 1)))), Below-next m n ps e hs)

  -- A new number is above all numbers of the day.
  pub next_sequence-Below :
      (d n : ℤ) (dir : RunDir)
      → next_candidate_sequence py d dir ≡ ok n
      → All (Below n) (of_day d dir)
  unfolding next_candidate_sequence
  next_sequence-Below d n dir e =
      let (m, found, next) =
        and_then-eq-ok (greatest_sequence py (pos 0) (of_day d dir)) (λ i. ok (i +ℤ pos 1)) e in
      Below-next m n (of_day d dir) (ground (arith, next))
        (greatest-Below (pos 0) m (of_day d dir) found).1

  -- The view of a client: the latest candidate of each day.
  abbrev pub view : RunDir → ℤ → Result (Option Fields)
  view dir day = get_latest_candidate py day dir

  -- Writing an object with a new number for one day.
  pub written_latest :
      (d a n : ℤ) (top : Fields) (dir : RunDir)
      → candidate_sequence py top ≡ ok n
      → next_candidate_sequence py d dir ≡ ok n
      → (e : ℤ)
      → view (put_file (d, a) top dir) e ≡ (if eq_ℤ d e then ok (some top) else view dir e)
  unfolding get_latest_candidate
  written_latest d a n top dir numbered next e = elim (Bool-cases (eq_ℤ d e)) [
    | inl same ↦ rw same (
        rw (sym ((eq_ℤ_iff d e).0 same)) (
          latest_of-first n top numbered (of_day d (put_file (d, a) top dir))
            (put_file-IsPeak n top numbered d a dir (next_sequence-Below d n dir next))))
    | inr other ↦ rw other (rw (of_day-put_file d e a top dir other) refl)
  ]
