-- ===== src/Tools/Sorting.antt =====
-- The sorting of results in `execute_batch` of backend/tools/engine.py.
use travel_agent_pro.Prelude.{
  ◌≡◌, refl, ap, sym, ◌∙◌, ℕ, suc, ◌≤◌, ◌<◌, Bool, true, false, not, List, [], ◌∷◌, ◌++◌, keep,
  Bool-cases, inl, inr, arith, if◌then◌else◌,
}
use travel_agent_pro.Tools.Types.{ToolCall, ToolResult}
use travel_agent_pro.Tools.Engine.{Indexed, items, enumerate, positioned, insert_item, sort_items}

-- All positions are `k` or later.
abbrev From : {A : Type 0} → ℕ → Indexed A → Type 0
From k [] = Unit
From k (x ∷ xs) = (k ≤ x.0) × From k xs

module _ {A : Type 0} where
  From-suc : (k : ℕ) (xs : Indexed A) → From (suc k) xs → From k xs
  From-suc k [] h = tt
  From-suc k (x ∷ xs) h = (omega arith, From-suc k xs h.1)

  From-append : (k : ℕ) (xs ys : Indexed A) → From k xs → From k ys → From k (xs ++ ys)
  From-append k [] ys hx hy = hy
  From-append k (x ∷ xs) ys hx hy = (hx.0, From-append k xs ys hx.1 hy)

  From-insert_item :
      (k : ℕ) (x : ℕ × A) (xs : Indexed A) → k ≤ x.0 → From k xs → From k (insert_item x xs)
  unfolding insert_item
  From-insert_item k x [] le h = (le, tt)
  From-insert_item k x (y ∷ ys) le h = ground (arith, From-insert_item k x ys le h.1)

  From-sort_items : (k : ℕ) (xs : Indexed A) → From k xs → From k (sort_items xs)
  unfolding sort_items
  From-sort_items k [] h = tt
  From-sort_items k (x ∷ xs) h = From-insert_item k x (sort_items xs) h.0 (From-sort_items k xs h.1)

  insert_item-front : (x : ℕ × A) (xs : Indexed A) → From x.0 xs → insert_item x xs ≡ x ∷ xs
  unfolding insert_item
  insert_item-front x [] h = refl
  insert_item-front x (y ∷ ys) h = ground arith

  insert_item-behind :
      (x y : ℕ × A) (xs : Indexed A) → y.0 < x.0 → insert_item x (y ∷ xs) ≡ y ∷ insert_item x xs
  unfolding insert_item
  insert_item-behind x y xs lt = ground arith

  -- The least position is sorted to the front, wherever it stands.
  sort_items-front :
      (x : ℕ × A) (xs : Indexed A) → From (suc x.0) xs → sort_items (x ∷ xs) ≡ x ∷ sort_items xs
  unfolding sort_items
  sort_items-front x xs h =
      insert_item-front x (sort_items xs) (From-sort_items x.0 xs (From-suc x.0 xs h))

  sort_items-middle :
      (x : ℕ × A) (xs ys : Indexed A)
      → From (suc x.0) xs
      → From (suc x.0) ys
      → sort_items (xs ++ x ∷ ys) ≡ x ∷ sort_items (xs ++ ys)
  unfolding sort_items
  sort_items-middle x [] ys hx hy = sort_items-front x ys hy
  sort_items-middle x (y ∷ xs) ys hx hy =
      ap (insert_item y) (sort_items-middle x xs ys hx.1 hy)
      ∙ insert_item-behind y x (sort_items (xs ++ ys)) (omega (arith, hx.0))

-- The calls of a kind, under their positions, with some results.
abbrev pub chosen : (ToolCall → Bool) → ℕ → List ToolCall → List ToolResult → Indexed ToolResult
chosen p k calls rs = positioned (keep (λ (c : ℕ × ToolCall). p c.1) (enumerate k calls)) rs

chosen-From :
    (p : ToolCall → Bool) (j k : ℕ) (calls : List ToolCall) (rs : List ToolResult)
    → j ≤ k
    → From j (chosen p k calls rs)
chosen-From p j k [] rs le = tt
chosen-From p j k (c ∷ cs) [] le = elim (Bool-cases (p c)) [
  | inl e ↦ rw e tt
  | inr e ↦ rw e (chosen-From p j (suc k) cs [] (omega arith))
]
chosen-From p j k (c ∷ cs) (r ∷ rs) le = elim (Bool-cases (p c)) [
  | inl e ↦ rw e (le, chosen-From p j (suc k) cs rs (omega arith))
  | inr e ↦ rw e (chosen-From p j (suc k) cs (r ∷ rs) (omega arith))
]

chosen_none : (p : ToolCall → Bool) (k : ℕ) (calls : List ToolCall) → chosen p k calls [] ≡ []
chosen_none p k [] = refl
chosen_none p k (c ∷ cs) = elim (Bool-cases (p c)) [
  | inl e ↦ rw e refl
  | inr e ↦ rw e (chosen_none p (suc k) cs)
]

abbrev tail : List ToolResult → List ToolResult
tail [] = []
tail (r ∷ rs) = rs

-- The first of some results, if there is one, before the others.
abbrev first_then : List ToolResult → List ToolResult → List ToolResult
first_then [] others = others
first_then (r ∷ rs) others = r ∷ others

-- The plain description of a batch: each call takes the next result of its kind.
unfoldable pub in_order :
    (ToolCall → Bool) → List ToolCall → List ToolResult → List ToolResult → List ToolResult
in_order writes [] read written = []
in_order writes (c ∷ cs) read written =
    let wrote = first_then written (in_order writes cs read (tail written)) in
    let only_read = first_then read (in_order writes cs (tail read) written) in
    if writes c then wrote else only_read

module _ (p : ToolCall → Bool) where
  abbrev pub sorted : ℕ → List ToolCall → List ToolResult → List ToolResult → List ToolResult
  sorted k calls rs ws =
      items (sort_items (chosen (λ c. not (p c)) k calls rs ++ chosen p k calls ws))

  -- One call in front.
  sorted_read :
      (k : ℕ) (c : ToolCall) (cs : List ToolCall) (rs ws : List ToolResult)
      → p c ≡ false
      → sorted k (c ∷ cs) rs ws ≡ first_then rs (sorted (suc k) cs (tail rs) ws)
  sorted_read k c cs [] ws e = rw e (
      ap (λ (xs : Indexed ToolResult). items (sort_items (xs ++ chosen p (suc k) cs ws)))
        (sym (chosen_none (λ c. not (p c)) (suc k) cs)))
  sorted_read k c cs (r ∷ rs) ws e = rw e (
      ap items (
        sort_items-front (k, r) (chosen (λ c. not (p c)) (suc k) cs rs ++ chosen p (suc k) cs ws)
          (From-append (suc k) (chosen (λ c. not (p c)) (suc k) cs rs) (chosen p (suc k) cs ws)
            (chosen-From (λ c. not (p c)) (suc k) (suc k) cs rs (omega arith))
            (chosen-From p (suc k) (suc k) cs ws (omega arith)))))

  sorted_write :
      (k : ℕ) (c : ToolCall) (cs : List ToolCall) (rs ws : List ToolResult)
      → p c ≡ true
      → sorted k (c ∷ cs) rs ws ≡ first_then ws (sorted (suc k) cs rs (tail ws))
  sorted_write k c cs rs [] e = rw e (
      ap
        (λ (xs : Indexed ToolResult).
          items (sort_items (chosen (λ c. not (p c)) (suc k) cs rs ++ xs)))
        (sym (chosen_none p (suc k) cs)))
  sorted_write k c cs rs (w ∷ ws) e = rw e (
      ap items (
        sort_items-middle (k, w) (chosen (λ c. not (p c)) (suc k) cs rs) (chosen p (suc k) cs ws)
          (chosen-From (λ c. not (p c)) (suc k) (suc k) cs rs (omega arith))
          (chosen-From p (suc k) (suc k) cs ws (omega arith))))

  pub sorted-in_order :
      (k : ℕ) (calls : List ToolCall) (rs ws : List ToolResult)
      → sorted k calls rs ws ≡ in_order p calls rs ws
  unfolding in_order sort_items
  sorted-in_order k [] rs ws = refl
  sorted-in_order k (c ∷ cs) rs ws = elim (Bool-cases (p c)) [
    | inl e ↦
        sorted_write k c cs rs ws e
        ∙ rw e (ap (first_then ws) (sorted-in_order (suc k) cs rs (tail ws)))
    | inr e ↦
        sorted_read k c cs rs ws e
        ∙ rw e (ap (first_then rs) (sorted-in_order (suc k) cs (tail rs) ws))
  ]
