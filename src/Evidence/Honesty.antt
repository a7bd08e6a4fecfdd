-- ===== src/Evidence/Honesty.antt =====
-- What the checks of backend/tools/plan_tools/evidence.py leave of the sources of a visit.
use travel_agent_pro.Prelude.{
  ◌≡◌, refl, true, false, ◌&&◌, Option, none, some, List, [], ◌∷◌, String, str_eq, eq_iff, any, All,
  ◌⊎◌, inl, inr, arith, Bool-cases,
}
use travel_agent_pro.Python.{truthy, is_text, py_eq}
use travel_agent_pro.Python.Dict.{
  Value, null, bool, int, float, str, list, dict, nil, Fields, get_or,
}
use travel_agent_pro.Python.Exec.{Result, ok, Result-cases}
use travel_agent_pro.Python.Builtins.{get_null}
use travel_agent_pro.Python.Text.{codes, strip, starts_with}
use travel_agent_pro.Evidence.Sources.{is_http}
use travel_agent_pro.Evidence.Rules.{
  ugc_source_types, is_one_of, is_confirmed_fact, is_reliable_fact_record, has_http_url,
  url_differs, validate_source_ref, check_ref, validate_record, validate_each,
  validate_evidence_records, items_of, evidence_items, lacks_source, validate_visit_info,
}

-- The source of a record is registered, under its own address if it gives one.
abbrev pub IsResolved : (String → Result (Option Fields)) → Fields → Type 0
IsResolved look d =
    (id : String) × (source : Fields) × (get_null "source_ref" d ≡ str id)
    × (look id ≡ ok (some source))
    × (url_differs d source ≡ false)

-- What an accepted record says truly: no UGC source stands for a confirmed fact, and with a registry
-- a confirmed fact has a registered source.
abbrev pub IsHonest : Option (String → Result (Option Fields)) → Value → Type 0
IsHonest resolve (dict d) =
    ((is_one_of ugc_source_types (get_null "source_type" d) && is_confirmed_fact d) ≡ false)
    × ((look : String → Result (Option Fields))
        → resolve ≡ some look
        → is_confirmed_fact d ≡ true
        → IsResolved look d)
IsHonest resolve _ = ⊥

module _ (look : String → Result (Option Fields)) (d : Fields) where
  check_ref-IsResolved :
      (v : Value)
      → check_ref (some look) d v ≡ ok tt
      → is_confirmed_fact d ≡ true
      → (id : String) × (source : Fields) × (v ≡ str id)
        × (look id ≡ ok (some source))
        × (url_differs d source ≡ false)
  unfolding check_ref
  check_ref-IsResolved (str id) h fact = elim (Result-cases (look id)) [
    | inl (none, e) ↦ ground (arith, e)
    | inl (some source, e) ↦ (id, source, refl, e, ground (arith, e))
    | inr (x, e) ↦ ground (arith, e)
  ]
  check_ref-IsResolved null h fact = ground arith
  check_ref-IsResolved (bool b) h fact = cc
  check_ref-IsResolved (int i) h fact = cc
  check_ref-IsResolved (float x) h fact = cc
  check_ref-IsResolved (list vs) h fact = cc
  check_ref-IsResolved (dict c) h fact = cc

  source_ref-IsResolved :
      validate_source_ref (some look) d ≡ ok tt → is_confirmed_fact d ≡ true → IsResolved look d
  unfolding validate_source_ref
  source_ref-IsResolved h fact = check_ref-IsResolved (get_null "source_ref" d) h fact

module _ (resolve : Option (String → Result (Option Fields))) where
  record_ref :
      (d : Fields)
      → validate_record resolve (dict d) ≡ ok tt
      → validate_source_ref resolve d ≡ ok tt
  unfolding validate_record
  record_ref d h = ground (arith, Result-cases (validate_source_ref resolve d))

  record-IsHonest : (v : Value) → validate_record resolve v ≡ ok tt → IsHonest resolve v
  unfolding validate_record
  record-IsHonest (dict d) h = (
    ground arith,
    λ look given fact. source_ref-IsResolved look d (rw given at (record_ref d h)) fact,
  )
  record-IsHonest null h = cc
  record-IsHonest (bool b) h = cc
  record-IsHonest (int i) h = cc
  record-IsHonest (float x) h = cc
  record-IsHonest (str s) h = cc
  record-IsHonest (list vs) h = cc

  each-IsHonest : (vs : List Value) → validate_each resolve vs ≡ ok tt → All (IsHonest resolve) vs
  unfolding validate_each
  each-IsHonest [] h = tt
  each-IsHonest (v ∷ vs) h = elim (Result-cases (validate_record resolve v)) [
    | inl (u, e) ↦ (record-IsHonest v e, each-IsHonest vs (rw e at h))
    | inr (x, e) ↦ absurd (ground (arith, e))
  ]

  list_records :
      (v : Value)
      → validate_evidence_records resolve v ≡ ok tt
      → validate_each resolve (items_of v) ≡ ok tt
  unfolding validate_evidence_records
  list_records (list vs) h = h
  list_records null h = cc
  list_records (bool b) h = cc
  list_records (int i) h = cc
  list_records (float x) h = cc
  list_records (str s) h = cc
  list_records (dict d) h = cc

  evidence_accepted :
      (d : Fields)
      → validate_visit_info resolve (dict d) ≡ ok tt
      → validate_evidence_records resolve (get_or "evidence" (list nil) d) ≡ ok tt
  unfolding validate_visit_info
  evidence_accepted d h =
      ground
        (arith, Result-cases (validate_evidence_records resolve (get_or "evidence" (list nil) d)))

  not_lacking : (d : Fields) → validate_visit_info resolve (dict d) ≡ ok tt → lacks_source d ≡ false
  unfolding validate_visit_info
  not_lacking d h = ground arith

  visit_records :
      (d : Fields)
      → validate_visit_info resolve (dict d) ≡ ok tt
      → validate_each resolve (evidence_items d) ≡ ok tt
  visit_records d h = list_records (get_or "evidence" (list nil) d) (evidence_accepted d h)

  -- Every evidence record of an accepted visit is honest: no UGC source stands for a confirmed fact,
  -- and where a registry is given, a confirmed fact has a reference that the registry resolves, to the
  -- record's own address if it gives one.
  pub visit-IsHonest :
      (d : Fields)
      → validate_visit_info resolve (dict d) ≡ ok tt
      → All (IsHonest resolve) (evidence_items d)
  visit-IsHonest d h = each-IsHonest (evidence_items d) (visit_records d h)

  visit_anchor :
      (d : Fields)
      → validate_visit_info resolve (dict d) ≡ ok tt
      → is_text (get_or "role" (str "normal") d) "anchor" ≡ true
      → truthy (get_or "needs_recheck" (bool false) d) ≡ false
      → any is_reliable_fact_record (evidence_items d) ≡ true
  unfolding lacks_source
  visit_anchor d h anchor recheck = ground (arith, not_lacking d h)

-- A record of an official or web source with an http(s) address that is the registered one of its
-- reference.
abbrev pub IsSourced : (String → Result (Option Fields)) → Value → Type 0
IsSourced look (dict d) =
    (url : String) × (id : String) × (source : Fields) × (get_null "source_url" d ≡ str url)
    × (is_http (strip url) ≡ true)
    × (get_null "source_ref" d ≡ str id)
    × (look id ≡ ok (some source))
    × (py_eq (str (strip url)) (get_null "url" source) ≡ true)
IsSourced look _ = ⊥

abbrev pub Some : {A : Type 0} → (A → Type 0) → List A → Type 0
Some P [] = ⊥
Some P (x ∷ xs) = P x ⊎ Some P xs

-- An http(s) address is not blank.
not_http : is_http "" ≡ true → ⊥
unfolding is_http starts_with codes
not_http h = cc

not_blank : (url : String) → is_http (strip url) ≡ true → str_eq (strip url) "" ≡ false
not_blank url h = elim (Bool-cases (str_eq (strip url) "")) [
  | inl e ↦ absurd (not_http (rw ((eq_iff (strip url) "").0 e) at h))
  | inr e ↦ e
]

url_kept :
    (d source : Fields) (url : String)
    → get_null "source_url" d ≡ str url
    → is_http (strip url) ≡ true
    → url_differs d source ≡ false
    → py_eq (str (strip url)) (get_null "url" source) ≡ true
unfolding url_differs
url_kept d source url e http same = ground (arith, e, not_blank url http)

http_url :
    (v : Value)
    → has_http_url v ≡ true
    → (url : String) × (v ≡ str url) × (is_http (strip url) ≡ true)
http_url (str url) h = (url, refl, h)
http_url null h = cc
http_url (bool b) h = cc
http_url (int i) h = cc
http_url (float x) h = cc
http_url (list vs) h = cc
http_url (dict d) h = cc

reliable_url :
    (d : Fields)
    → is_reliable_fact_record (dict d) ≡ true
    → (url : String) × (get_null "source_url" d ≡ str url) × (is_http (strip url) ≡ true)
unfolding is_reliable_fact_record
reliable_url d h = http_url (get_null "source_url" d) (ground arith)

reliable_fact : (d : Fields) → is_reliable_fact_record (dict d) ≡ true → is_confirmed_fact d ≡ true
unfolding is_reliable_fact_record is_confirmed_fact
reliable_fact d h = ground arith

module _ (look : String → Result (Option Fields)) where
  reliable-IsSourced :
      (v : Value) → IsHonest (some look) v → is_reliable_fact_record v ≡ true → IsSourced look v
  reliable-IsSourced (dict d) h reliable =
      let (url, e, http) = reliable_url d reliable in
      let (id, source, ref, found, same) = h.1 look refl (reliable_fact d reliable) in
      (url, id, source, e, http, ref, found, url_kept d source url e http same)
  reliable-IsSourced null h reliable = absurd h
  reliable-IsSourced (bool b) h reliable = absurd h
  reliable-IsSourced (int i) h reliable = absurd h
  reliable-IsSourced (float x) h reliable = absurd h
  reliable-IsSourced (str s) h reliable = absurd h
  reliable-IsSourced (list vs) h reliable = absurd h

  some-IsSourced :
      (vs : List Value)
      → All (IsHonest (some look)) vs
      → any is_reliable_fact_record vs ≡ true
      → Some (IsSourced look) vs
  some-IsSourced [] h e = absurd (cc)
  some-IsSourced (v ∷ vs) h e = elim (Bool-cases (is_reliable_fact_record v)) [
    | inl reliable ↦ inl (reliable-IsSourced v h.0 reliable)
    | inr not_it ↦ inr (some-IsSourced vs h.1 (rw not_it at e))
  ]

  -- With a registry, an accepted visit that is an anchor and is not marked for a recheck has a record
  -- of evidence with an http(s) address and a reference that the registry resolves to that address.
  pub anchor-IsSourced :
      (d : Fields)
      → validate_visit_info (some look) (dict d) ≡ ok tt
      → is_text (get_or "role" (str "normal") d) "anchor" ≡ true
      → truthy (get_or "needs_recheck" (bool false) d) ≡ false
      → Some (IsSourced look) (evidence_items d)
  anchor-IsSourced d h anchor recheck =
      some-IsSourced (evidence_items d) (visit-IsHonest (some look) d h)
        (visit_anchor (some look) d h anchor recheck)
