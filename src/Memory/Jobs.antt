-- ===== src/Memory/Jobs.antt =====
-- `MemoryJobScheduler` of backend/memory/async_jobs.py, for any type of snapshot. The steps between
-- two awaits are one operation each: `submit`, and the end of `_run` once the runner has returned or
-- raised.
use travel_agent_pro.Prelude.{
  ℕ, suc, Bool, true, false, Option, none, some, List, [], ◌∷◌, if◌then◌else◌,
}

pub record Task (A : Type 0) : Type 0 where
  pub snapshot : A
  pub done : Bool

-- `started` records the snapshots whose tasks were created, newest first; `ended` counts the tasks
-- that ran to their end.
pub record Scheduler (A : Type 0) : Type 0 where
  pub running_task : Option (Task A)
  pub pending_snapshot : Option A
  pub idle : Bool
  pub started : List A
  pub ended : ℕ

-- What reaches the scheduler: a submission, or the runner of the running task ends.
pub data Event (A : Type 0) : Type 0 where
  submitted : A → Event A
  runner_ended : Event A

module _ {A : Type 0} where
  abbrev pub initial : Scheduler A
  initial = record {
    running_task = none;
    pending_snapshot = none;
    idle = true;
    started = [];
    ended = 0;
  }

  -- `_start`
  unfoldable pub start : A → Scheduler A → Scheduler A
  start x s = record s {
    running_task = some (record { snapshot = x; done = false });
    started = x ∷ s.started;
  }

  abbrev is_free : Option (Task A) → Bool
  is_free none = true
  is_free (some t) = t.done

  unfoldable pub submit : A → Scheduler A → Scheduler A
  submit x s =
      let cleared = record s { idle = false } in
      if is_free s.running_task
      then start x cleared
      else record cleared { pending_snapshot = some x }

  -- The `finally` block of `_run`.
  unfoldable pub run_ended : Scheduler A → Scheduler A
  run_ended s =
      let taken = record s { pending_snapshot = none; ended = suc s.ended } in
      elim s.pending_snapshot [
        | none ↦ record taken { running_task = none; idle = true }
        | some x ↦ start x taken
      ]

  -- A runner can only end while there is a task.
  unfoldable pub handle : Event A → Scheduler A → Scheduler A
  handle (submitted x) s = submit x s
  handle runner_ended s = elim s.running_task [ none ↦ s | some t ↦ run_ended s ]

  -- The events of a process, oldest first.
  unfoldable pub handle_all : List (Event A) → Scheduler A → Scheduler A
  handle_all [] s = s
  handle_all (e ∷ es) s = handle_all es (handle e s)

  -- The last submission among events, `x` where there is none.
  abbrev pub last_submitted : List (Event A) → Option A → Option A
  last_submitted [] x = x
  last_submitted (submitted y ∷ es) x = last_submitted es (some y)
  last_submitted (runner_ended ∷ es) x = last_submitted es x
