-- ===== src/Bench/Run.antt =====
-- `bench` as a whole (src/bench/mod.rs: `run`), from the ends of its connections to its result.
pub mod Laws
pub mod Course
use pulsemq_cli.Base.{
  ℕ, zero, suc, ◌+◌, Bool, true, false, not, ◌&&◌, List, [], ◌∷◌, ◌++◌, map, Bytes, text, ltb, leb,
  Option, none, some, if◌then◌else◌,
}
use pulsemq_cli.Mqtt.{Protocol}
use pulsemq_cli.Error.{Error, usage, fmt}
use pulsemq_cli.Cli.{BenchArgs}
use pulsemq_cli.Io.{
  World, Outcome, Action, ◌>>=◌, ◌>>◌, and_then, done, failed, waiting, panicked, return, raise,
  modify, lift_result,
}
use pulsemq_cli.Bench.Float.{Float}
use pulsemq_cli.Bench.Config.{
  Config, from_args, measures_end_to_end, Joined, join_tasks, collect_failures,
}
use pulsemq_cli.Bench.Stats.{Counters, samples_new, summary, success}
use pulsemq_cli.Bench.Report.{Report, to_table, report_json}
use pulsemq_cli.Bench.Report.Value.{Json}

-- What the spawned tasks come to: how each connection ends, by its index, if it ever does, what they
-- counted together, and how long the publishers took; when the run starts, and the first time that
-- an `Instant` cannot hold; and whether standard output refuses the report. In nanoseconds.
pub record Tasks : Type 0 where
  pub publisher_ends : ℕ → Option Joined
  pub subscriber_ends : ℕ → Option Joined
  pub counters : Counters
  pub elapsed : ℕ
  pub baseline : ℕ
  pub instant_end : ℕ
  pub stdout_refuses : Bool

abbrev pub complaint : Bytes
complaint = text "the run completed with failures or refused messages; see the report above"

-- `(0..n).map(|index| tokio::spawn(…))`, from `index` on.
abbrev pub handles : (ℕ → Option Joined) → ℕ → ℕ → List (Option Joined)
handles ends index zero = []
handles ends index (suc n) = ends index ∷ handles ends (index + 1) n

abbrev pub and_more : Option Joined → Option (List Joined) → Option (List Joined)
and_more (some end) (some more) = some (end ∷ more)
and_more _ _ = none

-- `for handle in handles { … handle.await … }`: `none` where one of them never ends.
pub await_all : List (Option Joined) → Option (List Joined)
await_all [] = some []
await_all (end ∷ ends) = and_more end (await_all ends)

abbrev pub await_tasks : Option (List Joined) → Action World (List Joined)
await_tasks none w = waiting w
await_tasks (some ends) w = done ends w

abbrev pub panic_if : Bool → Action World (Unit {0})
panic_if true w = panicked
panic_if false w = done tt w

module _ {F : Type 0} (f : Float F) (P : Protocol) (to_string_pretty : Json F → Bytes) where
  abbrev pub display : Error → Bytes
  display = fmt P.debug_code P.display_error

  -- The failures of a run, publishers first.
  abbrev pub failures_of : List Joined → List Joined → List Bytes
  failures_of publishers subscribers =
      collect_failures display (join_tasks publishers samples_new).1 (text "publisher")
      ++ collect_failures display (join_tasks subscribers samples_new).1 (text "subscriber")

  pub report_of : Config F → List Joined → List Joined → Tasks → Report F
  report_of c publishers subscribers tasks = record {
    config = record {
      publishers = c.publishers;
      subscribers = c.subscribers;
      qos = P.qos_as_u8 c.qos;
      payload_size = c.payload_size;
      inflight = c.inflight;
      rate = c.rate;
      topic_prefix = c.topic_prefix;
    };
    elapsed = tasks.elapsed;
    totals = tasks.counters;
    task_failures = failures_of publishers subscribers;
    ack = (summary f (join_tasks publishers samples_new).0).0;
    end_to_end = (summary f (join_tasks subscribers samples_new).0).0;
    end_to_end_disabled = ltb 0 c.subscribers && not (measures_end_to_end c);
  }

  pub printed_report : Config F → Report F → Bytes
  printed_report c report =
      if c.json then to_string_pretty (report_json f report) ++ (10 ∷ []) else to_table f report

  abbrev pub print : Bytes → World → World
  print out w = record w { printed = w.printed ++ out }

  abbrev verdict_on : Report F → Action World (Unit {0})
  verdict_on report =
      if success report.task_failures report.totals then return tt else raise (usage complaint)

  -- `baseline + config.warmup`
  abbrev pub overflows : Config F → Tasks → Bool
  overflows c tasks = leb tasks.instant_end (tasks.baseline + c.warmup)

  unfoldable pub run : Tasks → BenchArgs F → Action World (Unit {0})
  unfolding await_all
  run tasks args = do
    c ← lift_result (from_args f P args)
    panic_if (overflows c tasks)
    publishers ← await_tasks (await_all (handles tasks.publisher_ends 0 c.publishers))
    subscribers ← await_tasks (await_all (handles tasks.subscriber_ends 0 c.subscribers))
    let report = report_of c publishers subscribers tasks
    panic_if tasks.stdout_refuses
    modify (print (printed_report c report))
    verdict_on report
