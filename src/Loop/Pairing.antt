-- ===== src/Loop/Pairing.antt =====
-- Histories in which the calls of an assistant message are answered right behind it, in their order.
use travel_agent_pro.Prelude.{
  ◌≡◌, refl, Bool, true, false, not, Option, some, List, [], ◌∷◌, ◌++◌, map, keep, String, ℤ, ltb_ℤ,
  if◌then◌else◌,
}
use mathlib.Core.Path.{subst}
use travel_agent_pro.Tools.Types.{ToolCall, ToolResult, answered_id}
use travel_agent_pro.Tools.Answers.{ids, call_ids}
use travel_agent_pro.Loop.Messages.{
  Message, system, user, assistant, tool, is_system, strip_non_initial_system_messages, last_user,
  extract_original_user_message, Texts, rebuild_for_phase_change, rebuild_for_step_change,
}

-- A history behind calls that wait for their answers.
abbrev pub Pending : List String → List Message → Type 0
Pending [] [] = Unit
Pending (i ∷ is) [] = ⊥
Pending [] (system s ∷ ms) = Pending [] ms
Pending [] (user s ∷ ms) = Pending [] ms
Pending [] (assistant s cs ∷ ms) = Pending (call_ids cs) ms
Pending [] (tool r ∷ ms) = ⊥
Pending (i ∷ is) (tool r ∷ ms) = (answered_id r ≡ i) × Pending is ms
Pending (i ∷ is) (system s ∷ ms) = ⊥
Pending (i ∷ is) (user s ∷ ms) = ⊥
Pending (i ∷ is) (assistant s cs ∷ ms) = ⊥

abbrev pub IsPaired : List Message → Type 0
IsPaired ms = Pending [] ms

pub Pending-append :
    (is : List String) (ms ns : List Message) → Pending is ms → IsPaired ns → Pending is (ms ++ ns)
Pending-append [] [] ns h k = k
Pending-append (i ∷ is) [] ns h k = absurd h
Pending-append [] (system s ∷ ms) ns h k = Pending-append [] ms ns h k
Pending-append [] (user s ∷ ms) ns h k = Pending-append [] ms ns h k
Pending-append [] (assistant s cs ∷ ms) ns h k = Pending-append (call_ids cs) ms ns h k
Pending-append [] (tool r ∷ ms) ns h k = absurd h
Pending-append (i ∷ is) (tool r ∷ ms) ns h k = (h.0, Pending-append is ms ns h.1 k)
Pending-append (i ∷ is) (system s ∷ ms) ns h k = absurd h
Pending-append (i ∷ is) (user s ∷ ms) ns h k = absurd h
Pending-append (i ∷ is) (assistant s cs ∷ ms) ns h k = absurd h

Pending-answers : (rs : List ToolResult) → Pending (ids rs) (map tool rs)
Pending-answers [] = tt
Pending-answers (r ∷ rs) = (refl, Pending-answers rs)

-- The answers to some calls behind them.
pub IsPaired-batch :
    (s : Option String) (cs : List ToolCall) (rs : List ToolResult)
    → ids rs ≡ call_ids cs
    → IsPaired (assistant s cs ∷ map tool rs)
IsPaired-batch s cs rs e = subst (λ is. Pending is (map tool rs)) e (Pending-answers rs)

Pending-keep :
    (is : List String) (ms : List Message)
    → Pending is ms
    → Pending is (keep (λ (m : Message). not (is_system m)) ms)
Pending-keep [] [] h = h
Pending-keep (i ∷ is) [] h = absurd h
Pending-keep [] (system s ∷ ms) h = Pending-keep [] ms h
Pending-keep [] (user s ∷ ms) h = Pending-keep [] ms h
Pending-keep [] (assistant s cs ∷ ms) h = Pending-keep (call_ids cs) ms h
Pending-keep [] (tool r ∷ ms) h = absurd h
Pending-keep (i ∷ is) (tool r ∷ ms) h = (h.0, Pending-keep is ms h.1)
Pending-keep (i ∷ is) (system s ∷ ms) h = absurd h
Pending-keep (i ∷ is) (user s ∷ ms) h = absurd h
Pending-keep (i ∷ is) (assistant s cs ∷ ms) h = absurd h

pub strip-IsPaired :
    (ms : List Message) → IsPaired ms → IsPaired (strip_non_initial_system_messages ms)
unfolding strip_non_initial_system_messages
strip-IsPaired [] h = h
strip-IsPaired (system s ∷ ms) h = Pending-keep [] ms h
strip-IsPaired (user s ∷ ms) h = Pending-keep [] ms h
strip-IsPaired (assistant s cs ∷ ms) h = Pending-keep (call_ids cs) ms h
strip-IsPaired (tool r ∷ ms) h = absurd h

abbrev pub IsUser : Message → Type 0
IsUser (user s) = Unit
IsUser (system s) = ⊥
IsUser (assistant s cs) = ⊥
IsUser (tool r) = ⊥

last-IsUser : (m : Message) (ms : List Message) → IsUser m → IsUser (last_user m ms)
unfolding last_user
last-IsUser m [] h = h
last-IsUser m (user s ∷ ms) h = last-IsUser (user s) ms tt
last-IsUser m (system s ∷ ms) h = last-IsUser m ms h
last-IsUser m (assistant s cs ∷ ms) h = last-IsUser m ms h
last-IsUser m (tool r ∷ ms) h = last-IsUser m ms h

pub extract-IsUser : (ms : List Message) → IsUser (extract_original_user_message ms)
unfolding extract_original_user_message
extract-IsUser ms = last-IsUser (user "") ms tt

pub IsPaired-user : (m : Message) (ms : List Message) → IsUser m → IsPaired ms → IsPaired (m ∷ ms)
IsPaired-user (user s) ms h k = k
IsPaired-user (system s) ms h k = absurd h
IsPaired-user (assistant s cs) ms h k = absurd h
IsPaired-user (tool r) ms h k = absurd h

bridge-IsPaired :
    (b : Bool) (x y z : String)
    → IsPaired ((if b then user x else assistant (some y) []) ∷ user z ∷ [])
bridge-IsPaired true x y z = tt
bridge-IsPaired false x y z = tt

module _ {S : Type 0} (texts : Texts S) (s : S) (original : Message) (asks : IsUser original) where
  pub phase_change-IsPaired :
      (from_phase to_phase : ℤ)
      → IsPaired (rebuild_for_phase_change texts s from_phase to_phase original)
  unfolding rebuild_for_phase_change
  phase_change-IsPaired from_phase to_phase = IsPaired-user original _ asks (
      bridge-IsPaired (ltb_ℤ to_phase from_phase) (texts.backtrack_notice s from_phase to_phase)
        (texts.handoff_note s from_phase to_phase) (texts.turn_context s to_phase))

  pub step_change-IsPaired : (phase : ℤ) → IsPaired (rebuild_for_step_change texts s phase original)
  unfolding rebuild_for_step_change
  step_change-IsPaired phase = IsPaired-user original _ asks tt

pub users-IsPaired : (notes : List String) → IsPaired (map user notes)
users-IsPaired [] = tt
users-IsPaired (n ∷ ns) = users-IsPaired ns
