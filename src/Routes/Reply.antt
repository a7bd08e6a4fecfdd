-- ===== src/Routes/Reply.antt =====
-- What the tool `optimize_day_route` of backend/tools/optimize_day_route.py replies.
use travel_agent_pro.Prelude.{
  ◌≡◌, refl, ℕ, zero, suc, Bool, true, false, not, any, Option, none, some, List, [], ◌∷◌, length,
  String, ℤ, pos, leb_ℤ, ◌+ℤ◌, ◌-ℤ◌, leb, ◌⊎◌, inl, inr, arith, sym,
}
use mathlib.Core.Path.{subst}
use mathlib.Core.List.{Perm}
use mathlib.Core.List.Perm
use travel_agent_pro.Python.Dict.{
  Float, Value, Values, null, bool, int, float, str, list, dict, Fields, of_values,
}
use travel_agent_pro.Python.Exec.{
  Exception, Result, ok, raise, and_then-eq-ok, ok-same, map_result, reject_if, Result-cases,
}
use travel_agent_pro.Python.Builtins.{Builtins, or_else}
use travel_agent_pro.Routes.Distance.{Distances}
use travel_agent_pro.Routes.Stops.{pop_at, closest, visit, order_from, given_start, order_pois}
use travel_agent_pro.Routes.Taken.{pop_at-Perm, length-pop_at, ok-pair}
use travel_agent_pro.Evidence.Rules.{in_set}
use travel_agent_pro.Routes.Tool.{
  modes, mode_text, invalid, parse_minutes, validate_optional, Warning, only_one, exceeds, Route,
  validate_location, ordered_stops, with_end, duration_hours, route_of, estimate,
  optimize_day_route,
}

-- No place is lost, whatever the distances are.
visit-Perm :
    (by : Distances) (n : ℕ) (current : Fields) (ps : List Fields) (total : by.Length)
    (ordered : List Fields) (last : by.Length)
    → length ps ≡ n
    → visit by n current ps total ≡ ok (ordered, last)
    → Perm ordered ps
unfolding visit
visit-Perm by zero current [] total ordered last e h = rw (sym (ok-pair h).0) Perm.rfl
visit-Perm by zero current (p ∷ ps) total ordered last e h = absurd (omega (arith, e))
visit-Perm by (suc n) current [] total ordered last e h = absurd (omega (arith, e))
visit-Perm by (suc n) current (p ∷ ps) total ordered last e h =
    let (best, found, h₁) =
      and_then-eq-ok (closest by zero (zero, by.infinity) current (p ∷ ps)) _ h in
    let (popped, taken, h₂) = and_then-eq-ok (pop_at best.0 (p ∷ ps)) _ h₁ in
    let (later, ran, h₃) =
      and_then-eq-ok (visit by n popped.0 popped.1 (by.sum total best.1)) _ h₂ in
    let size : length popped.1 ≡ n =
      omega (arith, length-pop_at best.0 (p ∷ ps) popped.0 popped.1 taken, e) in
    rw (sym (ok-pair h₃).0) (
      Perm.trans
        (Perm.cons popped.0
          (visit-Perm by n popped.0 popped.1 (by.sum total best.1) later.0 later.1 size ran))
        (pop_at-Perm best.0 (p ∷ ps) popped.0 popped.1 taken))

order_from-Perm :
    (by : Distances) (pois : List Fields) (start : Option Fields) (ordered : List Fields)
    (total : by.Length)
    → order_from by pois start ≡ ok (ordered, total)
    → Perm ordered pois
unfolding order_from
order_from-Perm by [] start ordered total h = rw (sym (ok-pair h).0) Perm.rfl
order_from-Perm by (p ∷ ps) (some s) ordered total h =
    visit-Perm by (length (p ∷ ps)) s (p ∷ ps) by.no_length ordered total refl h
order_from-Perm by (p ∷ ps) none ordered total h =
    let (later, ran, h₁) = and_then-eq-ok (visit by (length ps) p ps by.no_length) _ h in
    rw (sym (ok-pair h₁).0)
      (Perm.cons p (visit-Perm by (length ps) p ps by.no_length later.0 later.1 refl ran))

order_pois-Perm :
    (by : Distances) (pois : List Fields) (start : Option Fields) (ordered : List Fields)
    (total : by.Length)
    → order_pois by pois start ≡ ok (ordered, total)
    → Perm ordered pois
unfolding order_pois
order_pois-Perm by pois start ordered total h =
    order_from-Perm by pois (given_start by start) ordered total h

module _ (py : Builtins) (by : Distances) (travel : by.Length → String → Result ℤ)
    (activity : List Float → Result ℤ) where
  ordered_stops-Perm :
      (pois : List Fields) (start : Option Fields) (ordered : List Fields) (total : by.Length)
      → ordered_stops py by travel activity pois start ≡ ok (ordered, total)
      → Perm ordered pois
  unfolding ordered_stops
  ordered_stops-Perm [] start ordered total h = rw (sym (ok-pair h).0) Perm.rfl
  ordered_stops-Perm (p ∷ []) start ordered total h = rw (sym (ok-pair h).0) Perm.rfl
  ordered_stops-Perm (p ∷ q ∷ ps) start ordered total h =
      order_pois-Perm by (p ∷ q ∷ ps) start ordered total h

  abbrev pub is_exceeds : Warning → Bool
  is_exceeds only_one = false
  is_exceeds (exceeds minutes available) = true

  -- A reply to some stops.
  abbrev pub Fits : List Fields → Route by.Length → Type 0
  Fits stops r = Perm r.ordered_pois stops × (any is_exceeds r.warnings ≡ not r.can_fit_in_day)

  route_of-warns :
      (count : ℕ) (ordered : List Fields) (total : by.Length) (moving staying available : ℤ)
      → any is_exceeds
          (route_of py by travel activity count ordered total moving staying available).warnings
        ≡ not (leb_ℤ (moving +ℤ staying) available)
  route_of-warns count ordered total moving staying available = ground arith

  estimate-Fits :
      (pois : List Fields) (start end : Option Fields) (mode : String) (available : ℤ)
      (r : Route by.Length)
      → estimate py by travel activity pois start end mode available ≡ ok r
      → Fits pois r
  unfolding estimate
  estimate-Fits pois start end mode available r h =
      let (route, h₁, k₁) = and_then-eq-ok (ordered_stops py by travel activity pois start) _ h in
      let (total, h₂, k₂) =
        and_then-eq-ok (with_end py by travel activity end route.0 route.1) _ k₁ in
      let (moving, h₃, k₃) = and_then-eq-ok (travel total mode) _ k₂ in
      let (hours, h₄, k₄) =
        and_then-eq-ok (map_result (duration_hours py by travel activity) route.0) _ k₃ in
      let (staying, h₅, k₅) = and_then-eq-ok (activity hours) _ k₄ in
      subst (Fits pois) (ok-same k₅) (
        ordered_stops-Perm pois start route.0 route.1 h₁,
        route_of-warns (length pois) route.0 total moving staying available,
      )

  optimize-Fits :
      (pois start_location end_location day_start day_end mode : Value) (r : Route by.Length)
      → optimize_day_route py by travel activity pois start_location end_location day_start day_end
          mode
        ≡ ok r
      → (vs : Values) × (stops : List Fields) × (pois ≡ list vs)
        × (map_result validate_location (of_values vs) ≡ ok stops)
        × Fits stops r
  unfolding optimize_day_route
  optimize-Fits (list vs) start_location end_location day_start day_end mode r h =
      let t = or_else mode (str "transit") in
      let (known, h₁, k₁) = and_then-eq-ok (in_set modes t) _ h in
      let (u, h₂, k₂) = and_then-eq-ok (reject_if (not known) invalid) _ k₁ in
      let (from, h₃, k₃) = and_then-eq-ok (parse_minutes py by travel activity day_start) _ k₂ in
      let (until, h₄, k₄) = and_then-eq-ok (parse_minutes py by travel activity day_end) _ k₃ in
      let (v, h₅, k₅) = and_then-eq-ok (reject_if (leb until from) invalid) _ k₄ in
      let (stops, h₆, k₆) = and_then-eq-ok (map_result validate_location (of_values vs)) _ k₅ in
      let (start, h₇, k₇) = and_then-eq-ok (validate_optional start_location) _ k₆ in
      let (end, h₈, k₈) = and_then-eq-ok (validate_optional end_location) _ k₇ in
      (
        vs,
        stops,
        refl,
        h₆,
        estimate-Fits stops start end (mode_text t) (pos until -ℤ pos from) r k₈,
      )
  optimize-Fits null start_location end_location day_start day_end mode r h = absurd (cc)
  optimize-Fits (bool b) start_location end_location day_start day_end mode r h = absurd (cc)
  optimize-Fits (int i) start_location end_location day_start day_end mode r h = absurd (cc)
  optimize-Fits (float x) start_location end_location day_start day_end mode r h = absurd (cc)
  optimize-Fits (str s) start_location end_location day_start day_end mode r h = absurd (cc)
  optimize-Fits (dict d) start_location end_location day_start day_end mode r h = absurd (cc)

  -- A call of `optimize_day_route` raises, or it was given a list of places that all pass the check
  -- and replies with these places in some order, none lost and none repeated; it warns that the
  -- estimated time exceeds the day exactly where it says that the stops do not fit in it.
  pub optimize_outcome :
      (pois start_location end_location day_start day_end mode : Value)
      → ((x : Exception) × (optimize_day_route py by travel activity pois start_location
              end_location day_start day_end mode
            ≡ raise x))
        ⊎ ((r : Route by.Length) × (optimize_day_route py by travel activity pois start_location
                end_location day_start day_end mode
              ≡ ok r)
            × ((vs : Values) × (stops : List Fields) × (pois ≡ list vs)
                × (map_result validate_location (of_values vs) ≡ ok stops)
                × Fits stops r))
  optimize_outcome pois start_location end_location day_start day_end mode =
      let reply =
        optimize_day_route py by travel activity pois start_location end_location day_start day_end
          mode in
      elim (Result-cases reply) [
        | inl (r, e) ↦
            inr (r, e, optimize-Fits pois start_location end_location day_start day_end mode r e)
        | inr (x, e) ↦ inl (x, e)
      ]
