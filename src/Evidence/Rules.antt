-- ===== src/Evidence/Rules.antt =====
-- The checks of backend/tools/plan_tools/evidence.py.
use travel_agent_pro.Prelude.{
  Bool, true, false, not, ◌&&◌, ◌||◌, Option, none, some, List, [], ◌∷◌, String, str_eq, all, any,
  ℕ, leb, length, ◌==◌, if◌then◌else◌,
}
use travel_agent_pro.Python.{truthy, is_some, is_text, py_eq}
use travel_agent_pro.Python.Dict.{
  Value, null, bool, str, list, dict, nil, Fields, get_or, of_values,
}
use travel_agent_pro.Python.Exec.{
  Exception, Result, ok, raise, tool_error, type_error, and_then, reject_if,
}
use travel_agent_pro.Python.Builtins.{get_null}
use travel_agent_pro.Python.Text.{codes, strip, one_of}
use travel_agent_pro.Plan.Decode.{
  evidence_source_types, evidence_claim_types, evidence_confidence_levels, visit_roles,
}
use travel_agent_pro.Daily.Checks.{is_filled}
use travel_agent_pro.Evidence.Sources.{is_http}

abbrev invalid : Exception
invalid = tool_error "INVALID_VALUE"

abbrev pub ugc_source_types : List String
ugc_source_types = "xiaohongshu" ∷ "user" ∷ []

abbrev reliable_source_types : List String
reliable_source_types = "official" ∷ "web" ∷ []

-- `v in {…}`: a list or a dict cannot be looked up in a set.
unfoldable pub in_set : List String → Value → Result Bool
in_set names (str s) = ok (one_of names s)
in_set names (list vs) = raise type_error
in_set names (dict d) = raise type_error
in_set names _ = ok false

-- Where the value has passed such a check.
abbrev pub is_one_of : List String → Value → Bool
is_one_of names (str s) = one_of names s
is_one_of names _ = false

unfoldable pub require_enum : List String → Value → Result (Unit {0})
require_enum names v = and_then (in_set names v) λ known. reject_if (not known) invalid

abbrev pub confidence_of : Fields → Value
confidence_of d = get_or "confidence" (str "unverified") d

-- What is written as a confirmed fact.
unfoldable pub is_confirmed_fact : Fields → Bool
is_confirmed_fact d =
    is_text (get_null "claim_type" d) "fact" && is_text (confidence_of d) "confirmed"

abbrev pub has_http_url : Value → Bool
has_http_url (str s) = is_http (strip s)
has_http_url _ = false

-- All its parts have been checked before it is asked.
unfoldable pub is_reliable_fact_record : Value → Bool
is_reliable_fact_record (dict d) =
    is_one_of reliable_source_types (get_null "source_type" d)
    && (is_text (get_null "claim_type" d) "fact"
        && (is_text (get_null "confidence" d) "confirmed"
            && has_http_url (get_null "source_url" d)))
is_reliable_fact_record _ = false

-- `[0-9a-f]`
abbrev is_hex : ℕ → Bool
is_hex c = leb b'0' c && leb c b'9' || leb b'a' c && leb c b'f'

-- `^src_[0-9a-f]{10}$` with `re.match`: a line feed at the end is let through.
source_id_codes : List ℕ → Bool
source_id_codes (s ∷ r ∷ c ∷ u ∷ a ∷ b ∷ d ∷ e ∷ f ∷ g ∷ h ∷ i ∷ j ∷ k ∷ rest) =
    (s == b's' && r == b'r' && c == b'c' && u == b'_')
    && (all is_hex (a ∷ b ∷ d ∷ e ∷ f ∷ g ∷ h ∷ i ∷ j ∷ k ∷ [])
        && (elim rest [ [] ↦ true | x ∷ xs ↦ x == 10 && length xs == 0 ]))
source_id_codes _ = false

unfoldable pub is_source_id : String → Bool
unfolding source_id_codes
is_source_id s = source_id_codes (codes s)

-- Whether a record's own address differs from the registered one.
unfoldable pub url_differs : Fields → Fields → Bool
url_differs d source = elim (get_null "source_url" d) [
  | str u ↦ not (str_eq (strip u) "") && not (py_eq (str (strip u)) (get_null "url" source))
  | _ ↦ false
]

abbrev pub items_of : Value → List Value
items_of (list vs) = of_values vs
items_of _ = []

abbrev pub evidence_items : Fields → List Value
evidence_items d = items_of (get_or "evidence" (list nil) d)

-- `needs_recheck` is a Boolean where this is asked.
unfoldable pub lacks_source : Fields → Bool
lacks_source d =
    is_text (get_or "role" (str "normal") d) "anchor"
    && (not (truthy (get_or "needs_recheck" (bool false) d))
        && not (any is_reliable_fact_record (evidence_items d)))

abbrev is_bool : Value → Bool
is_bool (bool b) = true
is_bool _ = false

-- `resolve` is the lookup in the registry with the session's id, where both are given.
module _ (resolve : Option (String → Result (Option Fields))) where
  resolved : Fields → Option Fields → Result (Unit {0})
  resolved d none = raise (tool_error "UNKNOWN_SOURCE_REF")
  resolved d (some source) = reject_if (url_differs d source) (tool_error "SOURCE_REF_URL_MISMATCH")

  unfoldable pub check_ref : Fields → Value → Result (Unit {0})
  unfolding resolved
  check_ref d null =
      reject_if (is_some resolve && is_confirmed_fact d)
        (tool_error "CONFIRMED_FACT_NEEDS_SOURCE_REF")
  check_ref d (str id) =
      if is_source_id id
      then elim resolve [ none ↦ ok tt | some look ↦ and_then (look id) (resolved d) ]
      else raise invalid
  check_ref d _ = raise invalid

  unfoldable pub validate_source_ref : Fields → Result (Unit {0})
  validate_source_ref d = check_ref d (get_null "source_ref" d)

  unfoldable pub validate_record : Value → Result (Unit {0})
  validate_record (dict d) =
      and_then (require_enum evidence_source_types (get_null "source_type" d)) λ _.
        and_then (require_enum evidence_claim_types (get_null "claim_type" d)) λ _.
          and_then (require_enum evidence_confidence_levels (confidence_of d)) λ _.
            and_then (reject_if (not (is_filled (get_null "summary" d))) invalid) λ _.
              and_then
                (reject_if
                  (is_one_of ugc_source_types (get_null "source_type" d) && is_confirmed_fact d)
                  (tool_error "UGC_FACT_NOT_CONFIRMABLE"))
                λ _. validate_source_ref d
  validate_record _ = raise invalid

  unfoldable pub validate_each : List Value → Result (Unit {0})
  validate_each [] = ok tt
  validate_each (v ∷ vs) = let later = validate_each vs in and_then (validate_record v) λ _. later

  unfoldable pub validate_evidence_records : Value → Result (Unit {0})
  validate_evidence_records (list vs) = validate_each (of_values vs)
  validate_evidence_records _ = raise invalid

  unfoldable pub validate_visit_info : Value → Result (Unit {0})
  validate_visit_info (dict d) =
      and_then (require_enum visit_roles (get_or "role" (str "normal") d)) λ _.
        and_then (reject_if (not (is_filled (get_null "recommendation_reason" d))) invalid) λ _.
          and_then (reject_if (not (is_bool (get_or "needs_recheck" (bool false) d))) invalid) λ _.
            and_then (validate_evidence_records (get_or "evidence" (list nil) d))
              λ _. reject_if (lacks_source d) (tool_error "ANCHOR_NEEDS_RELIABLE_SOURCE")
  validate_visit_info _ = raise invalid
