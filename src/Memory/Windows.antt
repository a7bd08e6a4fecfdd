-- ===== src/Memory/Windows.antt =====
-- The windows of user messages in backend/memory/async_jobs.py. Limits and counts are natural numbers.
use travel_agent_pro.Prelude.{
  ℕ, zero, suc, ◌+◌, ◌-◌, min, max, Bool, true, false, not, ◌&&◌, List, [], ◌∷◌, ◌++◌, String,
  str_eq, ltb, keep, take, drop, last_n, length, if◌then◌else◌,
}
use travel_agent_pro.Python.Text.{text_length}

-- `l[::-1]`, what `reversed` runs through
abbrev pub reversed {ℓ} : {A : Type ℓ} → List A → List A
reversed [] = []
reversed (x ∷ xs) = reversed xs ++ x ∷ []

abbrev pub is_empty {ℓ} : {A : Type ℓ} → List A → Bool
is_empty [] = true
is_empty (x ∷ xs) = false

-- `s[n:]`
unfoldable pub text_drop : ℕ → String → String
text_drop zero s = s
text_drop (suc n) String.[] = ""
text_drop (suc n) (String.◌∷◌ c s) = text_drop n s

-- `s[-n:]`, which is all of `s` for 0
unfoldable pub text_last : ℕ → String → String
text_last zero s = s
text_last (suc n) s = text_drop (text_length s - suc n) s

-- The loop of `_clip_user_messages` from the newest message on; `kept` is in the order it has after
-- the final `reverse`.
unfoldable pub clip_loop : Bool → ℕ → ℕ → List String → List String → List String
clip_loop preserve max_chars total kept [] = kept
clip_loop preserve max_chars total kept (m ∷ ms) =
    let rest = clip_loop preserve max_chars (total + text_length m) (m ∷ kept) ms in
    if is_empty kept && preserve
    then rest
    else if not (is_empty kept) && ltb max_chars (total + text_length m)
    then kept
    else if is_empty kept && ltb max_chars (text_length m)
    then text_last max_chars m ∷ []
    else rest

-- The messages that are not empty, the last `max_messages` of them.
unfoldable pub recent_messages : ℕ → List String → List String
recent_messages max_messages messages = last_n max_messages (keep (λ m. not (str_eq m "")) messages)

unfoldable pub clip_user_messages : List String → ℕ → ℕ → Bool → List String
clip_user_messages messages max_messages max_chars preserve =
    clip_loop preserve max_chars 0 [] (reversed (recent_messages max_messages messages))

unfoldable pub build_gate_user_window : List String → ℕ → ℕ → List String
build_gate_user_window messages max_messages max_chars =
    clip_user_messages messages max_messages max_chars true

-- `user_messages[start:end]` with both ends clamped.
unfoldable pub incremental : List String → ℕ → ℕ → List String
incremental messages last_consumed submitted =
    let n = length messages in
    let start = max 0 (min last_consumed n) in
    let end = max start (min submitted n) in take (end - start) (drop start messages)

unfoldable pub build_extraction_user_window : List String → ℕ → ℕ → ℕ → ℕ → List String
build_extraction_user_window messages last_consumed submitted max_messages max_chars =
    clip_user_messages (incremental messages last_consumed submitted) max_messages max_chars false
