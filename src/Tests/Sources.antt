-- ===== src/Tests/Sources.antt =====
-- Sample evidence: backend/tools/plan_tools/evidence.py and backend/tools/source_registry.py.
use travel_agent_pro.Prelude.{
  ◌≡◌, refl, Option, none, some, if◌then◌else◌, [], ◌∷◌, map, length, String, str_eq, All, ◌⊎◌,
}
use travel_agent_pro.Python.{truthy, py_eq}
use travel_agent_pro.Python.Dict.{Value, Values, of_values, str, dict, list, Fields, cons, nil, get}
use travel_agent_pro.Python.Exec.{Exception, Result, ok, raise}
use travel_agent_pro.Python.Text.{codes, strip, starts_with}
use travel_agent_pro.Plan.Encode.{fields}
use travel_agent_pro.Plan.Decode.{excluded_from_dict}
use travel_agent_pro.Evidence.Sources.{Files, Json, register, is_http}
use travel_agent_pro.Evidence.Rules.{
  in_set, require_enum, is_confirmed_fact, is_reliable_fact_record, is_source_id, url_differs,
  check_ref, validate_source_ref, validate_record, validate_each, validate_evidence_records,
  lacks_source, evidence_items, validate_visit_info,
}
use travel_agent_pro.Evidence.Honesty.{IsHonest, IsSourced, Some, visit-IsHonest, anchor-IsSourced}
use travel_agent_pro.Evidence.Excluded.{check_items, set_excluded_candidates, set_excluded_outcome}
use travel_agent_pro.Tests.Samples.{plain, trip}

abbrev source : Fields
source = fields (("source_id", str "src_1a2b3c4d5e") ∷ ("url", str "https://kyoto.travel") ∷ [])

-- A registry of one source.
abbrev look : String → Result (Option Fields)
look id = ok (some source)

abbrev fact : Fields
fact = fields (
    ("source_type", str "official")
    ∷ ("claim_type", str "fact")
    ∷ ("confidence", str "confirmed")
    ∷ ("summary", str "open from 8")
    ∷ ("source_url", str "https://kyoto.travel")
    ∷ ("source_ref", str "src_1a2b3c4d5e")
    ∷ [])

abbrev visit : Fields
visit = fields (
    ("role", str "anchor")
    ∷ ("recommendation_reason", str "gardens")
    ∷ ("evidence", list (cons (dict fact) nil))
    ∷ [])

visit_accepted : validate_visit_info (some look) (dict visit) ≡ ok tt
unfolding validate_visit_info require_enum in_set validate_evidence_records validate_each
    validate_record validate_source_ref check_ref is_confirmed_fact lacks_source
    is_reliable_fact_record is_http is_source_id url_differs get truthy py_eq codes strip
    starts_with
visit_accepted = refl

visit-IsHonest_example : All (IsHonest (some look)) (evidence_items visit)
visit-IsHonest_example = visit-IsHonest (some look) visit visit_accepted

anchor-IsSourced_example : Some (IsSourced look) (evidence_items visit)
unfolding get truthy
anchor-IsSourced_example = anchor-IsSourced look visit visit_accepted refl refl

abbrev hash : String → String → String
hash session url = "src_1a2b3c4d5e"

-- The text of that record, and what it reads as.
abbrev kyoto_text : String
kyoto_text =
    "{\"source_id\": \"src_1a2b3c4d5e\", \"url\": \"https://kyoto.travel\", \"title\": \"Kyoto\", \"tool_name\": \"web_search\", \"registered_at\": \"now\"}"

abbrev samples : Json
samples = record {
  dumps = λ d. kyoto_text;
  loads = λ l.
      if str_eq l kyoto_text
      then some (
          dict (
            fields (
              ("source_id", str "src_1a2b3c4d5e")
              ∷ ("url", str "https://kyoto.travel")
              ∷ ("title", str "Kyoto")
              ∷ ("tool_name", str "web_search")
              ∷ ("registered_at", str "now")
              ∷ [])))
      else none;
}

abbrev kyoto : Result String × Files
kyoto = register samples hash "now" "sess_1" " https://kyoto.travel " "Kyoto" "web_search" []

kyoto_address : strip " https://kyoto.travel " ≡ "https://kyoto.travel"
unfolding strip
kyoto_address = refl

abbrev dropped : Value
dropped = list (
    cons
      (dict
        (fields (("name", str "Nara") ∷ ("reason", str "far") ∷ ("category", str "distance") ∷ [])))
      nil)

set_excluded_outcome_example :
    ((x : Exception) × (set_excluded_candidates plain dropped trip ≡ (raise x, trip)))
    ⊎ ((vs : Values) × (dropped ≡ list vs)
        × (check_items (of_values vs) ≡ ok tt)
        × (set_excluded_candidates plain dropped trip ≡ (
          ok (length (of_values vs), 0),
          record trip { excluded_candidates = map (excluded_from_dict plain) (of_values vs) },
        )))
set_excluded_outcome_example = set_excluded_outcome plain dropped trip
