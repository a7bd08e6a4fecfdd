-- ===== src/Routes/Stops.antt =====
-- `_order_pois` of backend/tools/optimize_day_route.py. Places are dicts that were checked before.
use travel_agent_pro.Prelude.{
  ℕ, zero, suc, Option, none, some, List, [], ◌∷◌, length, if◌then◌else◌,
}
use travel_agent_pro.Python.Dict.{Fields, empty, entry}
use travel_agent_pro.Python.Exec.{Result, ok, raise, index_error, and_then}
use travel_agent_pro.Routes.Distance.{Distances, distance_between}

-- `remaining.pop(index)`
unfoldable pub pop_at : {A : Type 0} → ℕ → List A → Result (A × List A)
pop_at n [] = raise index_error
pop_at zero (x ∷ xs) = ok (x, xs)
pop_at (suc n) (x ∷ xs) = and_then (pop_at n xs) λ q. ok (q.0, x ∷ q.1)

module _ (by : Distances) where
  abbrev pub better : ℕ → ℕ → by.Length → by.Length → ℕ × by.Length
  better i best x d = if by.lt x d then (i, x) else (best, d)

  -- The `for` over the places that remain, from the index `i` on, with the best one before.
  unfoldable pub closest : ℕ → ℕ × by.Length → Fields → List Fields → Result (ℕ × by.Length)
  closest i best current [] = ok best
  closest i best current (p ∷ ps) =
      and_then (distance_between by current p)
        λ x. closest (suc i) (better i best.0 x best.1) current ps

  -- The `while`, for a number of rounds, with the places it appends and the total distance.
  unfoldable pub visit : ℕ → Fields → List Fields → by.Length → Result (List Fields × by.Length)
  visit zero current remaining total = ok ([], total)
  visit (suc n) current [] total = ok ([], total)
  visit (suc n) current (p ∷ ps) total =
      and_then (closest 0 (0, by.infinity) current (p ∷ ps)) λ best.
        and_then (pop_at best.0 (p ∷ ps)) λ popped.
          and_then (visit n popped.0 popped.1 (by.sum total best.1))
            λ later. ok (popped.0 ∷ later.0, later.1)

  -- One round for each place is enough.
  unfoldable pub order_from : List Fields → Option Fields → Result (List Fields × by.Length)
  order_from [] start = ok ([], by.no_length)
  order_from (p ∷ ps) (some start) = visit (length (p ∷ ps)) start (p ∷ ps) by.no_length
  order_from (p ∷ ps) none =
      and_then (visit (length ps) p ps by.no_length) λ later. ok (p ∷ later.0, later.1)

  -- `start_location or ...`: an empty dict is no start.
  abbrev pub given_start : Option Fields → Option Fields
  given_start none = none
  given_start (some empty) = none
  given_start (some (entry k v d)) = some (entry k v d)

  unfoldable pub order_pois : List Fields → Option Fields → Result (List Fields × by.Length)
  order_pois pois start = order_from pois (given_start start)
