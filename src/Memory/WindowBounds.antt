-- ===== src/Memory/WindowBounds.antt =====
-- How large the windows of backend/memory/async_jobs.py are.
use travel_agent_pro.Prelude.{
  ◌≡◌, refl, ap, ◌∙◌, sym, ℕ, zero, suc, ◌+◌, ◌-◌, ◌≤◌, ◌<◌, min, max, Bool, true, false, not, List,
  [], ◌∷◌, ◌++◌, String, str_eq, arith, Option, none, some, keep, take, drop, last_n, length,
  length-append, length-last_n,
}
use travel_agent_pro.Python.Text.{text_length}
use travel_agent_pro.Memory.Windows.{
  reversed, text_drop, text_last, clip_loop, recent_messages, clip_user_messages, incremental,
  build_extraction_user_window, build_gate_user_window,
}

-- The characters of a window.
abbrev pub total_length : List String → ℕ
total_length [] = 0
total_length (m ∷ ms) = text_length m + total_length ms

text_length-text_drop : (n : ℕ) (s : String) → text_length (text_drop n s) ≡ text_length s - n
unfolding text_drop text_length
text_length-text_drop zero s = omega arith
text_length-text_drop (suc n) String.[] = omega arith
text_length-text_drop (suc n) (String.◌∷◌ c s) = omega (arith, text_length-text_drop n s)

text_length-text_last : (n : ℕ) (s : String) → 1 ≤ n → text_length (text_last n s) ≤ n
unfolding text_last
text_length-text_last zero s h = omega arith
text_length-text_last (suc n) s h = omega (arith, text_length-text_drop (text_length s - suc n) s)

clip_loop-total :
    (k total : ℕ) (kept ms : List String)
    → 1 ≤ k
    → total ≡ total_length kept
    → total ≤ k
    → total_length (clip_loop false k total kept ms) ≤ k
unfolding clip_loop
clip_loop-total k total kept [] pos same le = omega arith
clip_loop-total k total [] (m ∷ ms) pos same le =
    ground (arith, clip_loop-total k (total + text_length m) (m ∷ []) ms, text_length-text_last k m)
clip_loop-total k total (x ∷ xs) (m ∷ ms) pos same le =
    ground (arith, clip_loop-total k (total + text_length m) (m ∷ x ∷ xs) ms)

clip_loop-count :
    (p : Bool) (k total : ℕ) (kept ms : List String)
    → length (clip_loop p k total kept ms) ≤ length kept + length ms
unfolding clip_loop
clip_loop-count p k total kept [] = omega arith
clip_loop-count p k total [] (m ∷ ms) =
    ground (arith, clip_loop-count p k (total + text_length m) (m ∷ []) ms)
clip_loop-count p k total (x ∷ xs) (m ∷ ms) =
    ground (arith, clip_loop-count p k (total + text_length m) (m ∷ x ∷ xs) ms)

length-reversed : (ms : List String) → length (reversed ms) ≡ length ms
length-reversed [] = refl
length-reversed (m ∷ ms) = omega (arith, length-append (reversed ms) (m ∷ []), length-reversed ms)

clip_user_messages-count :
    (ms : List String) (n k : ℕ) (p : Bool) → 1 ≤ n → length (clip_user_messages ms n k p) ≤ n
unfolding clip_user_messages recent_messages
clip_user_messages-count ms zero k p h = omega arith
clip_user_messages-count ms (suc n) k p h = omega (
  arith,
  clip_loop-count p k 0 [] (reversed (last_n (suc n) (keep (λ m. not (str_eq m "")) ms))),
  length-reversed (last_n (suc n) (keep (λ m. not (str_eq m "")) ms)),
  length-last_n n (keep (λ m. not (str_eq m "")) ms),
)

-- With both limits at least 1, the extraction window has at most `max_messages` messages and at most
-- `max_chars` characters in all.
pub extraction_window_bounds :
    (messages : List String) (last_consumed submitted max_messages max_chars : ℕ)
    → 1 ≤ max_messages
    → 1 ≤ max_chars
    → (length (build_extraction_user_window messages last_consumed submitted max_messages max_chars)
        ≤ max_messages)
      × (total_length
            (build_extraction_user_window messages last_consumed submitted max_messages max_chars)
          ≤ max_chars)
unfolding build_extraction_user_window clip_user_messages
extraction_window_bounds messages a b n k hn hk = (
  clip_user_messages-count (incremental messages a b) n k false hn,
  clip_loop-total k 0 [] (reversed (recent_messages n (incremental messages a b))) hk refl
      (omega arith),
)

-- The message at the end of a window.
abbrev pub latest : List String → Option String
latest [] = none
latest (m ∷ []) = some m
latest (m ∷ n ∷ ns) = latest (n ∷ ns)

abbrev head : List String → Option String
head [] = none
head (m ∷ ms) = some m

clip_loop-latest :
    (p : Bool) (k total : ℕ) (x : String) (xs ms : List String)
    → latest (clip_loop p k total (x ∷ xs) ms) ≡ latest (x ∷ xs)
unfolding clip_loop
clip_loop-latest p k total x xs [] = refl
clip_loop-latest p k total x xs (m ∷ ms) =
    ground (arith, clip_loop-latest p k (total + text_length m) m (x ∷ xs) ms)

clip_loop-head : (k : ℕ) (ms : List String) → latest (clip_loop true k 0 [] ms) ≡ head ms
unfolding clip_loop
clip_loop-head k [] = refl
clip_loop-head k (m ∷ ms) = clip_loop-latest true k (0 + text_length m) m [] ms

head-append :
    (xs : List String) (x y : String) → head ((xs ++ x ∷ []) ++ y ∷ []) ≡ head (xs ++ x ∷ [])
head-append [] x y = refl
head-append (z ∷ zs) x y = refl

head-reversed : (ms : List String) → head (reversed ms) ≡ latest ms
head-reversed [] = refl
head-reversed (m ∷ []) = refl
head-reversed (m ∷ n ∷ ns) = head-append (reversed ns) n m ∙ head-reversed (n ∷ ns)

latest-drop : (j : ℕ) (ms : List String) → j < length ms → latest (drop j ms) ≡ latest ms
latest-drop zero ms h = refl
latest-drop (suc j) [] h = refl
latest-drop (suc zero) (m ∷ []) h = absurd (omega arith)
latest-drop (suc zero) (m ∷ n ∷ ns) h = refl
latest-drop (suc (suc j)) (m ∷ []) h = absurd (omega arith)
latest-drop (suc (suc j)) (m ∷ n ∷ ns) h = latest-drop (suc j) (n ∷ ns) (omega arith)

drop_nil : (j : ℕ) → drop {A = String} j [] ≡ []
drop_nil zero = refl
drop_nil (suc j) = refl

latest-last_n : (n : ℕ) (ms : List String) → latest (last_n (suc n) ms) ≡ latest ms
latest-last_n n [] = ap latest (drop_nil (0 - suc n))
latest-last_n n (m ∷ ms) = latest-drop (length (m ∷ ms) - suc n) (m ∷ ms) (omega arith)

-- The gate window ends with the newest message of the user that is not empty, whole, however long it
-- is, and it is empty where there is no such message; at least one message is allowed.
pub gate_window_latest :
    (messages : List String) (max_messages max_chars : ℕ)
    → 1 ≤ max_messages
    → latest (build_gate_user_window messages max_messages max_chars)
      ≡ latest (keep (λ m. not (str_eq m "")) messages)
unfolding build_gate_user_window clip_user_messages recent_messages
gate_window_latest messages zero k h = absurd (omega arith)
gate_window_latest messages (suc n) k h =
    clip_loop-head k (reversed (last_n (suc n) (keep (λ m. not (str_eq m "")) messages)))
    ∙ head-reversed (last_n (suc n) (keep (λ m. not (str_eq m "")) messages))
    ∙ latest-last_n n (keep (λ m. not (str_eq m "")) messages)

take_nil : (j : ℕ) → take {A = String} j [] ≡ []
take_nil zero = refl
take_nil (suc j) = refl

take_join : (ms : List String) (i j k : ℕ) → k ≡ i + j → take i ms ++ take j (drop i ms) ≡ take k ms
take_join ms zero j k e = ap (λ (n : ℕ). take n ms) (omega arith)
take_join [] (suc i) j k e = take_nil j ∙ sym (take_nil k)
take_join (m ∷ ms) (suc i) j zero e = absurd (omega arith)
take_join (m ∷ ms) (suc i) j (suc k) e =
    ap (λ (l : List String). m ∷ l) (take_join ms i j k (omega arith))

drop_join : (ms : List String) (a i b : ℕ) → b ≡ a + i → drop b ms ≡ drop i (drop a ms)
drop_join ms zero i b e = ap (λ (n : ℕ). drop n ms) (omega arith)
drop_join [] (suc a) i b e = drop_nil b ∙ sym (drop_nil i)
drop_join (m ∷ ms) (suc a) i zero e = absurd (omega arith)
drop_join (m ∷ ms) (suc a) i (suc b) e = drop_join ms a i b (omega arith)

slices_join :
    (ms : List String) (a b c : ℕ)
    → a ≤ b
    → b ≤ c
    → take (b - a) (drop a ms) ++ take (c - b) (drop b ms) ≡ take (c - a) (drop a ms)
slices_join ms a b c h k =
    rw (drop_join ms a (b - a) b (omega arith))
      (take_join (drop a ms) (b - a) (c - b) (c - a) (omega arith))

the_start : (a n : ℕ) → max 0 (min a n) ≡ min a n
the_start a n = omega arith

incremental-slice :
    (messages : List String) (a b : ℕ)
    → a ≤ b
    → incremental messages a b
      ≡ take
          (min b (length messages) - min a (length messages))
          (drop (min a (length messages)) messages)
unfolding incremental
incremental-slice messages a b h =
    ap (λ (n : ℕ). take (max n (min b (length messages)) - n) (drop n messages))
      (the_start a (length messages))
    ∙ ap (λ (n : ℕ). take n (drop (min a (length messages)) messages)) (omega arith)

-- Consecutive batches of messages make up the whole: with counts that do not decrease, what is read
-- up to `b` and then up to `c` is what is read up to `c` at once, no message twice and none left out.
pub incremental_joins :
    (messages : List String) (a b c : ℕ)
    → a ≤ b
    → b ≤ c
    → incremental messages a b ++ incremental messages b c ≡ incremental messages a c
incremental_joins messages a b c h k = rw (incremental-slice messages a b h) (
    rw (incremental-slice messages b c k) (
      rw (incremental-slice messages a c (omega arith)) (
        slices_join messages (min a (length messages)) (min b (length messages))
          (min c (length messages)) (omega arith) (omega arith))))
