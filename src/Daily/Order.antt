-- ===== src/Daily/Order.antt =====
-- Sorted days under the writers of backend/state/plan_writers.py.
use travel_agent_pro.Prelude.{
  ◌≡◌, refl, ap, ◌∙◌, false, ◌&&◌, Option, none, some, List, [], ◌∷◌, ◌++◌, ℤ, pos, eq_ℤ, ◌<ℤ◌,
  ◌≤ℤ◌, suc, length, arith, if◌then◌else◌,
}
use travel_agent_pro.Plan.Model.{DayPlan}
use travel_agent_pro.Daily.Writers.{insert_day, sort_days, put_day}
use travel_agent_pro.Daily.Tools.{day_exists}

-- The numbers ascend strictly from above `k`.
abbrev pub Above : ℤ → List DayPlan → Type 0
Above k [] = Unit
Above k (d ∷ ds) = (k <ℤ d.day) × Above d.day ds

-- Each day has one number, from 1 on, and the days are in the order of their numbers.
abbrev pub IsCalendar : List DayPlan → Type 0
IsCalendar days = Above (pos 0) days

-- The first day of a number.
unfoldable pub find_day : ℤ → List DayPlan → Option DayPlan
find_day n [] = none
find_day n (d ∷ ds) = if eq_ℤ d.day n then some d else find_day n ds

insert_front : (d : DayPlan) (ds : List DayPlan) → Above d.day ds → insert_day d ds ≡ d ∷ ds
unfolding insert_day
insert_front d [] h = refl
insert_front d (e ∷ es) h = ground arith

Above-mono : (j k : ℤ) (ds : List DayPlan) → j ≤ℤ k → Above k ds → Above j ds
Above-mono j k [] le h = tt
Above-mono j k (d ∷ ds) le h = (omega arith, h.1)

pub Above-insert_day :
    (k : ℤ) (d : DayPlan) (ds : List DayPlan)
    → Above k ds
    → k <ℤ d.day
    → day_exists d.day ds ≡ false
    → Above k (insert_day d ds)
unfolding insert_day day_exists
Above-insert_day k d [] h lt new = (lt, tt)
Above-insert_day k d (e ∷ es) h lt new = ground (arith, Above-insert_day e.day d es h.1)

pub sort_days-sorted : (k : ℤ) (ds : List DayPlan) → Above k ds → sort_days ds ≡ ds
unfolding sort_days
sort_days-sorted k [] h = refl
sort_days-sorted k (d ∷ ds) h =
    ap (insert_day d) (sort_days-sorted d.day ds h.1) ∙ insert_front d ds h.1

-- Sorting after one day was appended is inserting that day.
pub sort_days-append :
    (k : ℤ) (d : DayPlan) (ds : List DayPlan)
    → Above k ds
    → k <ℤ d.day
    → day_exists d.day ds ≡ false
    → sort_days (ds ++ d ∷ []) ≡ insert_day d ds
unfolding sort_days insert_day day_exists
sort_days-append k d [] h lt new = refl
sort_days-append k d (e ∷ es) h lt new = ground (
  arith,
  sort_days-append k d es (Above-mono k e.day es (omega arith) h.1) lt,
  insert_front e es h.1,
  insert_front e (insert_day d es),
  insert_front d es,
  Above-insert_day e.day d es h.1,
  Above-mono d.day e.day es,
)

pub Above-put_day : (k : ℤ) (d : DayPlan) (ds : List DayPlan) → Above k ds → Above k (put_day d ds)
unfolding put_day
Above-put_day k d [] h = tt
Above-put_day k d (e ∷ es) h = ground (arith, Above-put_day e.day d es h.1)

pub find_day-insert_day :
    (n : ℤ) (d : DayPlan) (ds : List DayPlan)
    → day_exists d.day ds ≡ false
    → find_day n (insert_day d ds) ≡ (if eq_ℤ d.day n then some d else find_day n ds)
unfolding find_day insert_day day_exists
find_day-insert_day n d [] new = refl
find_day-insert_day n d (e ∷ es) new = ground (arith, find_day-insert_day n d es)

pub find_day-put_day :
    (n : ℤ) (d : DayPlan) (ds : List DayPlan)
    → find_day n (put_day d ds)
      ≡ (if eq_ℤ d.day n && day_exists d.day ds then some d else find_day n ds)
unfolding find_day put_day day_exists
find_day-put_day n d [] = ground arith
find_day-put_day n d (e ∷ es) = ground (arith, find_day-put_day n d es)

pub length-insert_day :
    (d : DayPlan) (ds : List DayPlan) → length (insert_day d ds) ≡ suc (length ds)
unfolding insert_day
length-insert_day d [] = refl
length-insert_day d (e ∷ es) = ground (arith, length-insert_day d es)

pub length-put_day : (d : DayPlan) (ds : List DayPlan) → length (put_day d ds) ≡ length ds
unfolding put_day
length-put_day d [] = refl
length-put_day d (e ∷ es) = ap suc (length-put_day d es)
