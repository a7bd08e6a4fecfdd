-- ===== src/Writers/Brief.antt =====
-- `write_trip_brief` of backend/state/plan_writers.py.
use travel_agent_pro.Prelude.{
  ◌≡◌, refl, true, false, Option, none, some, String, str_eq, eq_iff, arith, Option-cases, inl, inr,
  if◌then◌else◌,
}
use travel_agent_pro.Python.Dict.{
  Value, str, dict, Fields, empty, entry, get, put, contains, update, get-put,
}
use travel_agent_pro.Python.Exec.{ok, assertion_error, Exec, throw, lift, gets, modify, ◌>>=◌}
use travel_agent_pro.Python.Builtins.{Builtins, get_null, as_dict}
use travel_agent_pro.Plan.Model.{TravelPlanState}
use travel_agent_pro.Writers.Pace.{normalize_pace_value}

module _ (py : Builtins) where
  -- A pace that is known is written in its canonical form.
  unfoldable pub normalized_fields : Fields → Fields
  normalized_fields d =
      if contains "pace" d
      then elim (normalize_pace_value py (get_null "pace" d)) [
        | none ↦ d
        | some p ↦ put "pace" (str p) d
      ]
      else d

  unfoldable pub write_trip_brief : Value → Exec TravelPlanState (Unit {0})
  write_trip_brief (dict d) = do
    brief ← gets (λ plan. plan.trip_brief)
    b ← lift (as_dict brief)
    modify (λ plan. record plan { trip_brief = dict (update b (normalized_fields d)) })
  write_trip_brief _ = throw assertion_error

-- Each key stands once, as in every dict.
abbrev pub HasUniqueKeys : Fields → Type 0
HasUniqueKeys empty = Unit
HasUniqueKeys (entry k v d) = (contains k d ≡ false) × HasUniqueKeys d

contains-put :
    (k j : String) (v : Value) (d : Fields)
    → contains j (put k v d) ≡ (if str_eq k j then true else contains j d)
unfolding contains put
contains-put k j v empty = refl
contains-put k j v (entry i w d) =
    ground (arith, eq_iff k j, eq_iff i k, eq_iff i j, contains-put k j v d)

put-HasUniqueKeys :
    (k : String) (v : Value) (d : Fields) → HasUniqueKeys d → HasUniqueKeys (put k v d)
unfolding put contains
put-HasUniqueKeys k v empty h = (refl, tt)
put-HasUniqueKeys k v (entry j w d) h =
    ground (arith, eq_iff k j, eq_iff j k, contains-put k j v d, put-HasUniqueKeys k v d)

get-update :
    (k : String) (d e : Fields)
    → HasUniqueKeys e
    → get k (update d e) ≡ (if contains k e then get k e else get k d)
unfolding get contains update
get-update k d empty h = refl
get-update k d (entry j v e) h =
    ground (arith, eq_iff j k, get-update k (put j v d) e h.1, get-put j k v d)

normalized-HasUniqueKeys :
    (py : Builtins) (d : Fields) → HasUniqueKeys d → HasUniqueKeys (normalized_fields py d)
unfolding normalized_fields
normalized-HasUniqueKeys py d h =
    elim (Option-cases (normalize_pace_value py (get_null "pace" d))) [
      | inl e ↦ ground (arith, e)
      | inr (p, e) ↦ ground (arith, e, put-HasUniqueKeys "pace" (str p) d h)
    ]

contains-normalized :
    (py : Builtins) (k : String) (d : Fields) → contains k (normalized_fields py d) ≡ contains k d
unfolding normalized_fields
contains-normalized py k d = elim (Option-cases (normalize_pace_value py (get_null "pace" d))) [
  | inl e ↦ ground (arith, e)
  | inr (p, e) ↦ ground (arith, e, eq_iff "pace" k, contains-put "pace" k (str p) d)
]

-- A pace in its canonical form, if it has one.
abbrev pub canonical : Builtins → Value → Value
canonical py v = elim (normalize_pace_value py v) [ none ↦ v | some p ↦ str p ]

-- What a key has after some fields were written over a brief.
abbrev pub overwritten : Builtins → Fields → Fields → String → Option Value
overwritten py d b k =
    if contains k d
    then if str_eq "pace" k then some (canonical py (get_null "pace" d)) else get k d
    else get k b

get-contains : (k : String) (d : Fields) → contains k d ≡ true → get k d ≡ some (get_null k d)
unfolding get contains
get-contains k empty h = absurd (cc)
get-contains k (entry j v d) h = ground (arith, get-contains k d)

get-normalized :
    (py : Builtins) (b : Fields) (k : String) (d : Fields)
    → (if contains k d then get k (normalized_fields py d) else get k b) ≡ overwritten py d b k
unfolding normalized_fields
get-normalized py b k d = elim (Option-cases (normalize_pace_value py (get_null "pace" d))) [
  | inl e ↦ ground (arith, e, eq_iff "pace" k, get-contains "pace" d)
  | inr (p, e) ↦
      ground (arith, e, eq_iff "pace" k, get-contains "pace" d, get-put "pace" k (str p) d)
]

-- With a dict of fields, each key once, and a brief that is a dict: the call returns and changes nothing
-- but the brief. There a key of the fields has the value that they give it, a pace in its canonical
-- form where it has one, and every other key has what it had.
pub write_trip_brief_lem :
    (py : Builtins) (d b : Fields) (s : TravelPlanState)
    → HasUniqueKeys d
    → s.trip_brief ≡ dict b
    → (after : Fields) × (write_trip_brief py (dict d) s
        ≡ (ok tt, record s { trip_brief = dict after }))
      × ((k : String) → get k after ≡ overwritten py d b k)
unfolding write_trip_brief
write_trip_brief_lem py d b s h e = (
  update b (normalized_fields py d),
  ground (arith, e),
  (λ k.
      rw (get-update k b (normalized_fields py d) (normalized-HasUniqueKeys py d h))
        (rw (contains-normalized py k d) (get-normalized py b k d))),
)
