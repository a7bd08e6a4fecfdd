-- ===== src/Memory/JobOrder.antt =====
-- What `MemoryJobScheduler` of backend/memory/async_jobs.py keeps under every order of events.
use travel_agent_pro.Prelude.{
  ◌≡◌, refl, ap, ◌∙◌, ℕ, suc, Bool, true, false, Option, none, some, List, [], ◌∷◌, length, arith,
}
use travel_agent_pro.Memory.Jobs.{
  Task, Scheduler, Event, submitted, runner_ended, initial, start, submit, run_ended, handle,
  handle_all, last_submitted,
}

module _ {A : Type 0} where
  abbrev pub head : List A → Option A
  head [] = none
  head (x ∷ xs) = some x

  -- The snapshot that runs last: the pending one, else the newest that was started.
  abbrev newest : Option A → List A → Option A
  newest (some x) log = some x
  newest none log = head log

  -- How the parts of the scheduler fit, by its running task: with a task it is busy, the task is not
  -- done, its snapshot is the newest that was started, and one more was started than ended; without
  -- one it is idle, nothing is pending, and as many were started as ended.
  abbrev Fits : Option (Task A) → Option A → Bool → List A → ℕ → Type 0
  Fits (some t) p b log n =
      (t.done ≡ false) × (b ≡ false) × (head log ≡ some t.snapshot) × (length log ≡ suc n)
  Fits none p b log n = (p ≡ none) × (b ≡ true) × (length log ≡ n)

  abbrev pub IsSound : Scheduler A → Type 0
  IsSound s = Fits s.running_task s.pending_snapshot s.idle s.started s.ended

  abbrev pub final : Scheduler A → Option A
  final s = newest s.pending_snapshot s.started

  IsSound-submit :
      (x : A) (t : Option (Task A)) (p : Option A) (b : Bool) (log : List A) (n : ℕ)
      → Fits t p b log n
      → IsSound (
          submit x
            (record { running_task = t; pending_snapshot = p; idle = b; started = log; ended = n }))
  unfolding submit start
  IsSound-submit x none p b log n h = (refl, refl, refl, ap suc h.2)
  IsSound-submit x (some t) p b log n h = ground arith

  IsSound-ended :
      (t : Task A) (p : Option A) (b : Bool) (log : List A) (n : ℕ)
      → Fits (some t) p b log n
      → IsSound (
          run_ended (record {
            running_task = some t;
            pending_snapshot = p;
            idle = b;
            started = log;
            ended = n;
          }))
  unfolding run_ended start
  IsSound-ended t none b log n h = (refl, refl, h.3)
  IsSound-ended t (some x) b log n h = (refl, h.1, refl, ap suc h.3)

  IsSound-handle :
      (e : Event A) (t : Option (Task A)) (p : Option A) (b : Bool) (log : List A) (n : ℕ)
      → Fits t p b log n
      → IsSound (
          handle e
            (record { running_task = t; pending_snapshot = p; idle = b; started = log; ended = n }))
  unfolding handle
  IsSound-handle (submitted x) t p b log n h = IsSound-submit x t p b log n h
  IsSound-handle runner_ended none p b log n h = h
  IsSound-handle runner_ended (some t) p b log n h = IsSound-ended t p b log n h

  pub handle-IsSound : (e : Event A) (s : Scheduler A) → IsSound s → IsSound (handle e s)
  handle-IsSound e s h =
      IsSound-handle e s.running_task s.pending_snapshot s.idle s.started s.ended h

  handle_all-IsSound :
      (es : List (Event A)) (s : Scheduler A) → IsSound s → IsSound (handle_all es s)
  unfolding handle_all
  handle_all-IsSound [] s h = h
  handle_all-IsSound (e ∷ es) s h = handle_all-IsSound es (handle e s) (handle-IsSound e s h)

  -- After any events: without a running task the scheduler is idle, nothing is pending and as many
  -- tasks ended as were started; with one it is not idle, the task is not done and has the snapshot
  -- started last, and exactly one more was started than ended.
  pub scheduler_IsSound : (es : List (Event A)) → IsSound (handle_all es initial)
  scheduler_IsSound es = handle_all-IsSound es initial (refl, refl, refl)

  final-submit :
      (x : A) (t : Option (Task A)) (p : Option A) (b : Bool) (log : List A) (n : ℕ)
      → Fits t p b log n
      → final (
          submit x
            (record { running_task = t; pending_snapshot = p; idle = b; started = log; ended = n }))
        ≡ some x
  unfolding submit start
  final-submit x none p b log n h = ground (arith, h.0)
  final-submit x (some t) p b log n h = ground (arith, h.0)

  final-handle_ended :
      (t : Option (Task A)) (p : Option A) (b : Bool) (log : List A) (n : ℕ)
      → final (
          handle runner_ended
            (record { running_task = t; pending_snapshot = p; idle = b; started = log; ended = n }))
        ≡ newest p log
  unfolding handle run_ended start
  final-handle_ended none p b log n = refl
  final-handle_ended (some t) none b log n = refl
  final-handle_ended (some t) (some x) b log n = refl

  final-handle_all :
      (es : List (Event A)) (s : Scheduler A)
      → IsSound s
      → final (handle_all es s) ≡ last_submitted es (final s)
  unfolding handle_all handle
  final-handle_all [] s h = refl
  final-handle_all (submitted x ∷ es) s h =
      final-handle_all es (submit x s) (handle-IsSound (submitted x) s h)
      ∙ ap (last_submitted es)
          (final-submit x s.running_task s.pending_snapshot s.idle s.started s.ended h)
  final-handle_all (runner_ended ∷ es) s h =
      final-handle_all es (handle runner_ended s) (handle-IsSound runner_ended s h)
      ∙ ap (last_submitted es)
          (final-handle_ended s.running_task s.pending_snapshot s.idle s.started s.ended)

  -- After any events the last submission is the pending snapshot, or nothing is pending and it is the
  -- newest that was started.
  pub last_submitted_kept :
      (es : List (Event A)) → final (handle_all es initial) ≡ last_submitted es none
  last_submitted_kept es = final-handle_all es initial (refl, refl, refl)

  abbrev pub ended_twice : Scheduler A → Scheduler A
  ended_twice s = handle runner_ended (handle runner_ended s)

  drained :
      (t : Option (Task A)) (p : Option A) (b : Bool) (log : List A) (n : ℕ)
      → Fits t p b log n
      → ((ended_twice (record {
        running_task = t;
        pending_snapshot = p;
        idle = b;
        started = log;
        ended = n;
      })).idle
          ≡ true)
        × (head
              (ended_twice (record {
                running_task = t;
                pending_snapshot = p;
                idle = b;
                started = log;
                ended = n;
              })).started
            ≡ newest p log)
  unfolding handle run_ended start
  drained none p b log n h = (h.1, rw h.0 refl)
  drained (some t) none b log n h = (refl, refl)
  drained (some t) (some x) b log n h = (refl, refl)

  -- After any events, the ends of two runs without a further submission make the scheduler idle, and
  -- then the newest snapshot that was started is the last one submitted.
  pub scheduler_drains :
      (es : List (Event A))
      → ((ended_twice (handle_all es initial)).idle ≡ true)
        × (head (ended_twice (handle_all es initial)).started ≡ last_submitted es none)
  scheduler_drains es =
      let s = handle_all es initial in
      let d =
        drained s.running_task s.pending_snapshot s.idle s.started s.ended (scheduler_IsSound es) in
      (d.0, d.1 ∙ last_submitted_kept es)
