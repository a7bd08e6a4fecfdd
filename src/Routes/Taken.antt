-- ===== src/Routes/Taken.antt =====
-- `remaining.pop(index)` of backend/tools/optimize_day_route.py.
use travel_agent_pro.Prelude.{◌≡◌, ap, sym, ◌∙◌, ℕ, zero, suc, List, [], ◌∷◌, All, length}
use mathlib.Core.List.{Perm}
use mathlib.Core.List.Perm
use travel_agent_pro.Python.Exec.{Result, ok, and_then-eq-ok}
use travel_agent_pro.Routes.Stops.{pop_at}

pub ok-pair :
    {A B : Type 0} {a c : A} {b d : B}
    → ◌≡◌ {A = Result (A × B)} (ok (a, b)) (ok (c, d))
    → (a ≡ c) × (b ≡ d)
ok-pair e = (cc, cc)

-- A place is taken out, whatever holds of all holds of the others, and together they are all.
pub pop_at-Perm :
    {A : Type 0} (k : ℕ) (xs : List A) (y : A) (rest : List A)
    → pop_at k xs ≡ ok (y, rest)
    → Perm (y ∷ rest) xs
unfolding pop_at
pop_at-Perm k [] y rest e = absurd (cc)
pop_at-Perm zero (x ∷ xs) y rest e = let (p, q) = ok-pair e in rw (sym p) (rw (sym q) Perm.rfl)
pop_at-Perm (suc k) (x ∷ xs) y rest e =
    let (t, popped, same) = and_then-eq-ok (pop_at k xs) (λ t. ok (t.0, x ∷ t.1)) e in
    let (p, q) = ok-pair same in
    rw (sym p) (
      rw (sym q) (Perm.trans (Perm.swap x t.0 t.1) (Perm.cons x (pop_at-Perm k xs t.0 t.1 popped))))

pub pop_at-All :
    {A : Type 0} (P : A → Type 0) (k : ℕ) (xs : List A) (y : A) (rest : List A)
    → pop_at k xs ≡ ok (y, rest)
    → All P xs
    → All P (y ∷ rest)
unfolding pop_at
pop_at-All P k [] y rest e h = absurd (cc)
pop_at-All P zero (x ∷ xs) y rest e h = let (p, q) = ok-pair e in rw (sym p) (rw (sym q) h)
pop_at-All P (suc k) (x ∷ xs) y rest e h =
    let (t, popped, same) = and_then-eq-ok (pop_at k xs) (λ t. ok (t.0, x ∷ t.1)) e in
    let (p, q) = ok-pair same in
    let others = pop_at-All P k xs t.0 t.1 popped h.1 in
    rw (sym p) (rw (sym q) (others.0, (h.0, others.1)))

pub length-pop_at :
    {A : Type 0} (k : ℕ) (xs : List A) (y : A) (rest : List A)
    → pop_at k xs ≡ ok (y, rest)
    → length xs ≡ suc (length rest)
unfolding pop_at
length-pop_at k [] y rest e = absurd (cc)
length-pop_at zero (x ∷ xs) y rest e = ap (λ (l : List _). suc (length l)) (ok-pair e).1
length-pop_at (suc k) (x ∷ xs) y rest e =
    let (t, popped, same) = and_then-eq-ok (pop_at k xs) (λ t. ok (t.0, x ∷ t.1)) e in
    ap suc (length-pop_at k xs t.0 t.1 popped)
    ∙ ap (λ (l : List _). suc (length l)) (ok-pair same).1
