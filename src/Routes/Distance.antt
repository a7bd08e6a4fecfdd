-- ===== src/Routes/Distance.antt =====
-- `_haversine_km` and `_distance_between` of backend/tools/optimize_day_route.py.
use travel_agent_pro.Prelude.{ℕ, Bool, String}
use travel_agent_pro.Python.Dict.{Value, dict, Fields}
use travel_agent_pro.Python.Exec.{Result, ok, and_then}
use travel_agent_pro.Python.Builtins.{subscript}

-- What the code uses of floats: `number` is `float(v)`, and the functions of `math` may raise.
pub record Distances : Type 1 where
  pub Length : Type 0
  pub no_length : Length
  pub infinity : Length
  pub constant : ℕ → Length
  pub number : Value → Result Length
  pub sum : Length → Length → Length
  pub minus : Length → Length → Length
  pub times : Length → Length → Length
  pub half : Length → Length
  pub square : Length → Length
  pub radians : Length → Length
  pub sin : Length → Result Length
  pub cos : Length → Result Length
  pub sqrt : Length → Result Length
  pub atan2 : Length → Length → Length
  pub lt : Length → Length → Bool

module _ (by : Distances) where
  unfoldable pub haversine_km : by.Length → by.Length → by.Length → by.Length → Result by.Length
  haversine_km lat1 lng1 lat2 lng2 =
      and_then (by.sin (by.half (by.radians (by.minus lat2 lat1)))) λ s.
        and_then (by.cos (by.radians lat1)) λ c. and_then (by.cos (by.radians lat2)) λ e.
          and_then (by.sin (by.half (by.radians (by.minus lng2 lng1)))) λ t.
            let a = by.sum (by.square s) (by.times (by.times c e) (by.square t)) in
            and_then (by.sqrt a) λ y.
              and_then (by.sqrt (by.minus (by.constant 1) a))
                λ x. ok (by.times (by.times (by.constant 6371) (by.constant 2)) (by.atan2 y x))

  -- `float(p[key])`
  abbrev coordinate : String → Fields → Result by.Length
  coordinate key p = and_then (subscript (dict p) key) by.number

  unfoldable pub distance_between : Fields → Fields → Result by.Length
  unfolding haversine_km
  distance_between a b = and_then (coordinate "lat" a) λ lat1. and_then (coordinate "lng" a) λ lng1.
      and_then (coordinate "lat" b)
        λ lat2. and_then (coordinate "lng" b) λ lng2. haversine_km lat1 lng1 lat2 lng2
