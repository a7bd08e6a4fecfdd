-- ===== src/Routes/Greedy.antt =====
-- What the order of stops in backend/tools/optimize_day_route.py is.
use travel_agent_pro.Prelude.{
  ◌≡◌, refl, ap, ◌∙◌, ℕ, zero, suc, ◌+◌, true, false, Option, none, some, List, [], ◌∷◌, All,
  length, ◌⊎◌, inl, inr, Bool-cases, arith,
}
use mathlib.Core.Path.{subst}
use mathlib.Core.List.{Perm}
use mathlib.Core.List.Perm
use travel_agent_pro.Python.Dict.{Fields}
use travel_agent_pro.Python.Exec.{ok}
use travel_agent_pro.Routes.Distance.{Distances, distance_between}
use travel_agent_pro.Routes.Stops.{pop_at, closest, visit, order_from, given_start, order_pois}
use travel_agent_pro.Routes.Taken.{pop_at-Perm, pop_at-All, length-pop_at}

module _ (by : Distances) (d : Fields → Fields → by.Length) where
  -- No place of a list is nearer than this.
  abbrev NoneNearer : Fields → by.Length → List Fields → Type 0
  NoneNearer current x = All (λ (p : Fields). by.lt (d current p) x ≡ false)

  -- From each place the route goes to one that no later place is nearer than.
  abbrev pub Greedy : Fields → List Fields → Type 0
  Greedy current [] = Unit
  Greedy current (p ∷ ps) = NoneNearer current (d current p) ps × Greedy p ps

  -- The lengths of the steps of a route, added to a length.
  abbrev pub route_length : by.Length → Fields → List Fields → by.Length
  route_length total current [] = total
  route_length total current (p ∷ ps) = route_length (by.sum total (d current p)) p ps

  -- What the route is from a start, or from the first place.
  abbrev pub GreedyRoute : Option Fields → List Fields → List Fields → by.Length → Type 0
  GreedyRoute (some start) pois ordered total =
      Greedy start ordered × (total ≡ route_length by.no_length start ordered)
  GreedyRoute none [] ordered total = total ≡ by.no_length
  GreedyRoute none (p ∷ ps) ordered total =
      (rest : List Fields) × (ordered ≡ p ∷ rest)
      × Greedy p rest
      × (total ≡ route_length by.no_length p rest)

-- A property of the start, if there is one.
abbrev pub AtStart : (Fields → Type 0) → Option Fields → Type 0
AtStart P none = Unit
AtStart P (some s) = P s

module _ (by : Distances) (d : Fields → Fields → by.Length) (P : Fields → Type 0)
    (measured : (a b : Fields) → P a → P b → distance_between by a b ≡ ok (d a b))
    (finite : (a b : Fields) → P a → P b → by.lt (d a b) by.infinity ≡ true)
    (asymmetric : (x y : by.Length) → by.lt x y ≡ true → by.lt y x ≡ false)
    (comparable : (x y z : by.Length)
      → by.lt y by.infinity ≡ true
      → by.lt x y ≡ false
      → by.lt y z ≡ false
      → by.lt x z ≡ false) where
  -- Where the best of some places stands.
  abbrev Found : Fields → ℕ → ℕ × by.Length → List Fields → ℕ × by.Length → Type 0
  Found current i best ps r =
      (r ≡ best)
      ⊎ ((k : ℕ) × (y : Fields) × (rest : List Fields) × (r ≡ (i + k, d current y))
          × (pop_at k ps ≡ ok (y, rest)))

  irreflexive : (x : by.Length) → by.lt x x ≡ false
  irreflexive x = elim (Bool-cases (by.lt x x)) [ inl e ↦ asymmetric x x e | inr e ↦ e ]

  stays :
      (x b r : by.Length)
      → by.lt r by.infinity ≡ true
      → by.lt x b ≡ true
      → by.lt x r ≡ false
      → by.lt b r ≡ false
  stays x b r fin lt e = elim (Bool-cases (by.lt b r)) [
    | inl f ↦ absurd (ground (arith, comparable x r b fin e (asymmetric b r f)))
    | inr f ↦ f
  ]

  closest_lem :
      (i : ℕ) (best : ℕ × by.Length) (current : Fields) (ps : List Fields)
      → P current
      → All P ps
      → by.lt best.1 by.infinity ≡ true
      → (r : ℕ × by.Length) × (closest by i best current ps ≡ ok r)
        × NoneNearer by d current r.1 ps
        × (by.lt best.1 r.1 ≡ false)
        × (by.lt r.1 by.infinity ≡ true)
        × Found current i best ps r
  unfolding closest pop_at
  closest_lem i best current [] c all fin = (best, refl, tt, irreflexive best.1, fin, inl refl)
  closest_lem i best current (p ∷ ps) c all fin = elim (Bool-cases (by.lt (d current p) best.1)) [
    | inl e ↦
        (let (r, run, least, below, fin', found) =
            closest_lem (suc i) (i, d current p) current ps c all.1 (finite current p c all.0) in
          (
            r,
            rw (measured current p c all.0) (rw e run),
            (below, least),
            stays (d current p) best.1 r.1 fin' e below,
            fin',
            elim found [
              | inl same ↦
                  inr (zero, p, ps, rw same (ap (λ (j : ℕ). (j, d current p)) (omega arith)), refl)
              | inr (k, y, rest, same, popped) ↦ inr (
                suc k,
                y,
                p ∷ rest,
                rw same (ap (λ (j : ℕ). (j, d current y)) (omega arith)),
                rw popped refl,
              )
            ],
          ))
    | inr e ↦
        (let (r, run, least, below, fin', found) =
            closest_lem (suc i) best current ps c all.1 fin in
          (
            r,
            rw (measured current p c all.0) (rw e run),
            (comparable (d current p) best.1 r.1 fin e below, least),
            below,
            fin',
            elim found [
              | inl same ↦ inl same
              | inr (k, y, rest, same, popped) ↦ inr (
                suc k,
                y,
                p ∷ rest,
                rw same (ap (λ (j : ℕ). (j, d current y)) (omega arith)),
                rw popped refl,
              )
            ],
          ))
  ]

  -- The first place that is visited, with the others.
  Stop : Fields → Fields → List Fields → Type 0
  Stop current p ps =
      (r : ℕ × by.Length) × (y : Fields) × (rest : List Fields) × (closest by 0 (0, by.infinity)
          current (p ∷ ps)
        ≡ ok r)
      × (pop_at r.0 (p ∷ ps) ≡ ok (y, rest))
      × NoneNearer by d current (d current y) rest
      × (r.1 ≡ d current y)

  Stop-at :
      (current p y : Fields) (ps rest : List Fields) (r : ℕ × by.Length) (j : ℕ)
      → closest by 0 (0, by.infinity) current (p ∷ ps) ≡ ok r
      → NoneNearer by d current r.1 (p ∷ ps)
      → r ≡ (j, d current y)
      → pop_at j (p ∷ ps) ≡ ok (y, rest)
      → Stop current p ps
  unfolding Stop
  Stop-at current p y ps rest r j run least same popped = (
    r,
    y,
    rest,
    run,
    rw same popped,
    (pop_at-All (λ q. by.lt (d current q) (d current y) ≡ false) j (p ∷ ps) y rest popped
        (subst (λ x. NoneNearer by d current x (p ∷ ps)) (ap (λ (q : ℕ × by.Length). q.1) same)
          least)).1,
    ap (λ (q : ℕ × by.Length). q.1) same,
  )

  first-Stop :
      (current p : Fields) (ps : List Fields) → P current → All P (p ∷ ps) → Stop current p ps
  unfolding closest pop_at
  first-Stop current p ps c all =
      let (r, run, least, below, fin, found) =
        closest_lem 1 (0, d current p) current ps c all.1 (finite current p c all.0) in
      let ran : closest by 0 (0, by.infinity) current (p ∷ ps) ≡ ok r =
        rw (measured current p c all.0) (rw (finite current p c all.0) run) in
      elim found [
        | inl same ↦ Stop-at current p p ps ps r 0 ran (below, least) same refl
        | inr (k, y, rest, same, popped) ↦
            Stop-at current p y ps (p ∷ rest) r (suc k) ran (below, least)
              (same ∙ ap (λ (j : ℕ). (j, d current y)) (omega arith)) (rw popped refl)
      ]

  Visited : ℕ → Fields → List Fields → by.Length → Type 1
  Visited n current ps total =
      (ordered : List Fields) × (last : by.Length) × (visit by n current ps total
        ≡ ok (ordered, last))
      × Perm ordered ps
      × ((Q : Fields → Type 0) → All Q ps → All Q ordered)
      × Greedy by d current ordered
      × (last ≡ route_length by d total current ordered)

  visit_lem :
      (n : ℕ) (current : Fields) (ps : List Fields) (total : by.Length)
      → P current
      → All P ps
      → length ps ≡ n
      → Visited n current ps total
  unfolding Visited Stop visit
  visit_lem zero current [] total c all e = ([], total, refl, Perm.rfl, (λ Q h. tt), tt, refl)
  visit_lem zero current (p ∷ ps) total c all e = absurd (omega (arith, e))
  visit_lem (suc n) current [] total c all e = absurd (omega (arith, e))
  visit_lem (suc n) current (p ∷ ps) total c all e =
      let (r, y, rest, run, popped, least, far) = first-Stop current p ps c all in
      let places = pop_at-All P r.0 (p ∷ ps) y rest popped all in
      let together = pop_at-Perm r.0 (p ∷ ps) y rest popped in
      let size : length rest ≡ n = omega (arith, length-pop_at r.0 (p ∷ ps) y rest popped, e) in
      let (ordered, last, later, same, holds, greedy, sum) =
        visit_lem n y rest (by.sum total r.1) places.0 places.1 size in
      (
        y ∷ ordered,
        last,
        rw run (rw popped (rw later refl)),
        Perm.trans (Perm.cons y same) together,
        (λ Q h.
            let all_of = pop_at-All Q r.0 (p ∷ ps) y rest popped h in (all_of.0, holds Q all_of.1)),
        (holds (λ q. by.lt (d current q) (d current y) ≡ false) least, greedy),
        sum ∙ ap (λ (x : by.Length). route_length by d (by.sum total x) y ordered) far,
      )

  order_from_lem :
      (pois : List Fields) (start : Option Fields)
      → All P pois
      → AtStart P start
      → (ordered : List Fields) × (total : by.Length) × (order_from by pois start
          ≡ ok (ordered, total))
        × Perm ordered pois
        × GreedyRoute by d start pois ordered total
  unfolding order_from Visited
  order_from_lem [] none all at = ([], by.no_length, refl, Perm.rfl, refl)
  order_from_lem [] (some s) all at = ([], by.no_length, refl, Perm.rfl, (tt, refl))
  order_from_lem (p ∷ ps) (some s) all at =
      let (ordered, total, run, same, holds, greedy, sum) =
        visit_lem (length (p ∷ ps)) s (p ∷ ps) by.no_length at all refl in
      (ordered, total, run, same, (greedy, sum))
  order_from_lem (p ∷ ps) none all at =
      let (ordered, total, run, same, holds, greedy, sum) =
        visit_lem (length ps) p ps by.no_length all.0 all.1 refl in
      (p ∷ ordered, total, rw run refl, Perm.cons p same, (ordered, refl, greedy, sum))

  -- Where, between any two of the given places, the start included, the distance is measured without an
  -- exception and is finite, and floats compare as they do away from NaN: `_order_pois` returns the given
  -- places in some order, none lost and none repeated, and the total distance of that route. From the
  -- start, or else from the first place, it goes each time to a place that no later one is nearer than;
  -- an empty dict is no start.
  pub order_pois_lem :
      (pois : List Fields) (start : Option Fields)
      → All P pois
      → AtStart P (given_start by start)
      → (ordered : List Fields) × (total : by.Length) × (order_pois by pois start
          ≡ ok (ordered, total))
        × Perm ordered pois
        × GreedyRoute by d (given_start by start) pois ordered total
  unfolding order_pois
  order_pois_lem pois start all at = order_from_lem pois (given_start by start) all at
