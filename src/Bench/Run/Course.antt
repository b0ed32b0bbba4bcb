-- ===== src/Bench/Run/Course.antt =====
-- The course of a run of `bench` (src/bench/mod.rs: `run`): what it spawns when, what it waits for,
-- and when its tasks are told to stop. The first sleep counts from the baseline. Until the publishers
-- are spawned nothing watches for Ctrl-C, which then ends the process and is no step here.
pub mod Ends
pub mod Waiting
pub mod Orderly
use pulsemq_cli.Base.{
  ℕ, zero, suc, ◌+◌, ◌-◌, Bool, true, false, not, ◌&&◌, Option, none, some, List, [], ◌∷◌, leb, ltb,
  if◌then◌else◌,
}
use pulsemq_cli.Bench.Config.{Config, deadline, Joined}

-- A spawned task, and how it ended.
pub data Task : Type 0 where
  running : Task
  ended : Joined → Task

-- Where `run` is: in the sleep after the subscribers were spawned, waiting for the publishers, in
-- the sleep for late messages, waiting for the subscribers, or done with all of this.
pub data Phase : Type 0 where
  settling publishing draining stopping reporting : Phase

-- `wake` is the end of the sleep that `run` is in, and `watching` says that the task which waits for
-- the deadline or Ctrl-C is there. Times are in nanoseconds.
pub record Course : Type 0 where
  pub phase : Phase
  pub now : ℕ
  pub wake : ℕ
  pub started : ℕ
  pub elapsed : ℕ
  pub watching : Bool
  pub stop : Bool
  pub subscribers : List Task
  pub publishers : List Task

-- What can happen next. `run` itself goes on when what it awaits is there.
pub data Happening : Type 0 where
  passes : ℕ → Happening
  subscriber_ends publisher_ends : ℕ → Joined → Happening
  ctrl_c expires continues : Happening

abbrev pub subscriber_settle : ℕ
subscriber_settle = 200000000

abbrev pub spawned : ℕ → List Task
spawned zero = []
spawned (suc n) = running ∷ spawned n

-- Task number `i` ends, if it has not yet.
pub end_task : ℕ → Joined → List Task → List Task
end_task i j [] = []
end_task zero j (running ∷ tasks) = ended j ∷ tasks
end_task zero j (task ∷ tasks) = task ∷ tasks
end_task (suc i) j (task ∷ tasks) = task ∷ end_task i j tasks

abbrev pub all_ended : List Task → Bool
all_ended [] = true
all_ended (running ∷ tasks) = false
all_ended (ended j ∷ tasks) = all_ended tasks

module _ {F : Type 0} (c : Config F) where
  -- No sleep without subscribers.
  abbrev pub settled_at : ℕ → ℕ
  settled_at baseline = if ltb 0 c.subscribers then baseline + subscriber_settle else baseline

  abbrev pub begin : ℕ → Course
  begin baseline = record {
    phase = settling;
    now = baseline;
    wake = settled_at baseline;
    started = 0;
    elapsed = 0;
    watching = false;
    stop = false;
    subscribers = spawned c.subscribers;
    publishers = [];
  }

  abbrev pub at : Phase → Course → Course
  at phase r = record r { phase = phase }

  -- `run` goes on from a phase, or still waits in it.
  pub advance : Phase → Course → Course
  advance settling r =
      if leb r.wake r.now
      then record r {
        phase = publishing;
        started = r.now;
        publishers = spawned c.publishers;
        watching = true;
      }
      else at settling r
  advance publishing r =
      if all_ended r.publishers
      then record r { phase = draining; elapsed = r.now - r.started; wake = r.now + c.drain }
      else at publishing r
  advance draining r =
      if leb r.wake r.now
      then record r { phase = stopping; stop = true; watching = false }
      else at draining r
  advance stopping r = if all_ended r.subscribers then at reporting r else at stopping r
  advance reporting r = at reporting r

  -- The task that waits for the deadline or Ctrl-C ends with the stop signal.
  abbrev pub stop_now : Course → Course
  stop_now r = if r.watching then record r { watching = false; stop = true } else r

  abbrev pub expire_at : Option ℕ → Course → Course
  expire_at none r = r
  expire_at (some d) r = if leb (r.started + d) r.now then stop_now r else r

  pub step : Happening → Course → Course
  unfolding advance end_task deadline
  step (passes d) r = record r { now = r.now + d }
  step (subscriber_ends i j) r = record r { subscribers = end_task i j r.subscribers }
  step (publisher_ends i j) r = record r { publishers = end_task i j r.publishers }
  step ctrl_c r = stop_now r
  step expires r = expire_at (deadline c) r
  step continues r = advance r.phase r

  unfoldable pub course : List Happening → Course → Course
  unfolding step
  course [] r = r
  course (h ∷ hs) r = course hs (step h r)
