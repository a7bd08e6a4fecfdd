-- ===== src/Loop/Messages.antt =====
-- `Message` of backend/agent/types.py by its Role, with what is set for each; backend/agent/message_filters.py,
-- the copies and rebuilt histories of backend/agent/execution/message_rebuild.py.
use travel_agent_pro.Prelude.{
  Bool, true, false, not, Option, some, List, [], ◌∷◌, keep, String, ℤ, ltb_ℤ, if◌then◌else◌,
}
use travel_agent_pro.Tools.Types.{ToolCall, ToolResult}

pub data Message : Type 0 where
  system user : String → Message
  assistant : Option String → List ToolCall → Message
  tool : ToolResult → Message

abbrev pub is_system : Message → Bool
is_system (system s) = true
is_system _ = false

-- Only the first message may be one of the system.
unfoldable pub strip_non_initial_system_messages : List Message → List Message
strip_non_initial_system_messages [] = []
strip_non_initial_system_messages (m ∷ ms) = m ∷ keep (λ x. not (is_system x)) ms

-- The last message of the user, from the front.
unfoldable pub last_user : Message → List Message → Message
last_user found [] = found
last_user found (user s ∷ ms) = last_user (user s) ms
last_user found (_ ∷ ms) = last_user found ms

unfoldable pub extract_original_user_message : List Message → Message
unfolding last_user
extract_original_user_message ms = last_user (user "") ms

-- The texts that the context manager and the memory build.
pub record Texts (S : Type 0) : Type 0 where
  pub static_prompt : S → String
  pub backtrack_notice : S → ℤ → ℤ → String
  pub handoff_note : S → ℤ → ℤ → String
  pub turn_context : S → ℤ → String

module _ {S : Type 0} (texts : Texts S) where
  unfoldable pub rebuild_for_phase_change : S → ℤ → ℤ → Message → List Message
  rebuild_for_phase_change s from_phase to_phase original =
      system (texts.static_prompt s)
      ∷ original
      ∷ (if ltb_ℤ to_phase from_phase
          then user (texts.backtrack_notice s from_phase to_phase)
          else assistant (some (texts.handoff_note s from_phase to_phase)) [])
      ∷ user (texts.turn_context s to_phase)
      ∷ []

  unfoldable pub rebuild_for_step_change : S → ℤ → Message → List Message
  rebuild_for_step_change s phase original =
      system (texts.static_prompt s) ∷ original ∷ user (texts.turn_context s phase) ∷ []
