-- ===== src/Choices/Outcome.antt =====
-- What the tools of backend/tools/plan_tools/phase2_tools.py that replace a list do.
use travel_agent_pro.Prelude.{◌≡◌, refl, ℕ, length, ◌⊎◌, inl, inr}
use travel_agent_pro.Python.Dict.{Value, Values, null, bool, int, float, str, list, dict, of_values}
use travel_agent_pro.Python.Exec.{Exception, ok, raise, Exec, Result-cases}
use travel_agent_pro.Python.Builtins.{Builtins}
use travel_agent_pro.Plan.Model.{TravelPlanState}
use travel_agent_pro.Writers.Single.{
  write_candidate_pool, write_shortlist, write_transport_options, write_accommodation_options,
  write_risks, write_alternatives,
}
use travel_agent_pro.Choices.Tools.{
  Counts, py_len, require_dicts, set_candidate_pool, set_shortlist, set_transport_options,
  set_accommodation_options, set_risks, set_alternatives,
}

-- The lists of a plan with a tool that replaces them.
pub data Listed : Type 0 where
  pool shortlisted transports stays risky others : Listed

abbrev pub tool_of : Builtins → Listed → Value → Exec TravelPlanState Counts
tool_of py pool = set_candidate_pool py
tool_of py shortlisted = set_shortlist py
tool_of py transports = set_transport_options py
tool_of py stays = set_accommodation_options py
tool_of py risky = set_risks py
tool_of py others = set_alternatives py

abbrev pub listed_in : Listed → TravelPlanState → Value
listed_in pool s = s.candidate_pool
listed_in shortlisted s = s.shortlist
listed_in transports s = s.transport_options
listed_in stays s = s.accommodation_options
listed_in risky s = s.risks
listed_in others s = s.alternatives

abbrev pub with_list : Listed → Value → TravelPlanState → TravelPlanState
with_list pool v s = record s { candidate_pool = v }
with_list shortlisted v s = record s { shortlist = v }
with_list transports v s = record s { transport_options = v }
with_list stays v s = record s { accommodation_options = v }
with_list risky v s = record s { risks = v }
with_list others v s = record s { alternatives = v }

listed : (v : Value) → require_dicts v ≡ ok tt → (vs : Values) × (v ≡ list vs)
unfolding require_dicts
listed (list vs) h = (vs, refl)
listed null h = absurd (cc)
listed (bool b) h = absurd (cc)
listed (int i) h = absurd (cc)
listed (float x) h = absurd (cc)
listed (str t) h = absurd (cc)
listed (dict d) h = absurd (cc)

-- The parts that the six tools share.
module _ (py : Builtins) (s : TravelPlanState) where
  refused :
      (l : Listed) (v : Value) (x : Exception)
      → require_dicts v ≡ raise x
      → tool_of py l v s ≡ (raise x, s)
  unfolding set_candidate_pool set_shortlist set_transport_options set_accommodation_options
      set_risks set_alternatives
  refused pool v x e = rw e refl
  refused shortlisted v x e = rw e refl
  refused transports v x e = rw e refl
  refused stays v x e = rw e refl
  refused risky v x e = rw e refl
  refused others v x e = rw e refl

  unreadable :
      (l : Listed) (v : Value) (x : Exception)
      → require_dicts v ≡ ok tt
      → py_len py (listed_in l s) ≡ raise x
      → tool_of py l v s ≡ (raise x, s)
  unfolding set_candidate_pool set_shortlist set_transport_options set_accommodation_options
      set_risks set_alternatives
  unreadable pool v x e f = rw e (rw f refl)
  unreadable shortlisted v x e f = rw e (rw f refl)
  unreadable transports v x e f = rw e (rw f refl)
  unreadable stays v x e f = rw e (rw f refl)
  unreadable risky v x e f = rw e (rw f refl)
  unreadable others v x e f = rw e (rw f refl)

  written :
      (l : Listed) (vs : Values) (n : ℕ)
      → require_dicts (list vs) ≡ ok tt
      → py_len py (listed_in l s) ≡ ok n
      → tool_of py l (list vs) s ≡ (ok (length (of_values vs), n), with_list l (list vs) s)
  unfolding set_candidate_pool set_shortlist set_transport_options set_accommodation_options
      set_risks set_alternatives write_candidate_pool write_shortlist write_transport_options
      write_accommodation_options write_risks write_alternatives py_len
  written pool vs n e f = rw e (rw f refl)
  written shortlisted vs n e f = rw e (rw f refl)
  written transports vs n e f = rw e (rw f refl)
  written stays vs n e f = rw e (rw f refl)
  written risky vs n e f = rw e (rw f refl)
  written others vs n e f = rw e (rw f refl)

  -- A call of one of the six tools that replace a list of the plan (`set_candidate_pool`,
  -- `set_shortlist`, `set_transport_options`, `set_accommodation_options`, `set_risks`,
  -- `set_alternatives`) raises and leaves the plan as it was, or it was given a list of dicts, which is the
  -- list of the plan now, has replied with their number and with how many there were, and nothing else of
  -- the plan has changed.
  pub replaced_outcome :
      (l : Listed) (v : Value)
      → ((x : Exception) × (tool_of py l v s ≡ (raise x, s)))
        ⊎ ((vs : Values) × (n : ℕ) × (v ≡ list vs)
            × (require_dicts (list vs) ≡ ok tt)
            × (py_len py (listed_in l s) ≡ ok n)
            × (tool_of py l v s ≡ (ok (length (of_values vs), n), with_list l (list vs) s)))
  replaced_outcome l v = elim (Result-cases (require_dicts v)) [
    | inr (x, e) ↦ inl (x, refused l v x e)
    | inl (u, e) ↦ elim (Result-cases (py_len py (listed_in l s))) [
      | inr (x, f) ↦ inl (x, unreadable l v x e f)
      | inl (n, f) ↦
          let (vs, g) = listed v e in
          inr (vs, n, g, rw g at e, f, rw g (written l vs n (rw g at e) f))
    ]
  ]
