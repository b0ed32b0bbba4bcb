-- ===== src/Bench/Config.antt =====
-- The resolved configuration of a run, its pacing, and the collection of its connections' results
-- (src/bench/mod.rs, src/bench/schedule.rs).
pub mod Quota
pub mod Verdict
use pulsemq_cli.Base.{
  ℕ, zero, suc, ◌+◌, ◌-◌, ◌*◌, ◌/◌, ◌%◌, ◌^◌, min, max, Bool, true, false, not, ◌&&◌, ◌||◌, Option,
  none, some, List, [], ◌∷◌, ◌++◌, Bytes, text, decimal, ltb, leb, ◌==◌, if◌then◌else◌,
}
use pulsemq_cli.Mqtt.{QoS, Protocol}
use pulsemq_cli.Error.{Error, usage, Result, ok, err, from_mqtt, ◌>>=◌, ◌>>◌}
use pulsemq_cli.Cli.{BenchArgs}
use pulsemq_cli.Bench.Float.{Float}
use pulsemq_cli.Bench.Payload.{header_len}
use pulsemq_cli.Bench.Stats.{Samples, samples_new, merge}

-- A `Duration` is its nanoseconds.
pub data Stop : Type 0 where
  count : ℕ → Stop
  duration : ℕ → Stop
  count_within : ℕ → ℕ → Stop

pub record Config (F : Type 0) : Type 0 where
  pub publishers : ℕ
  pub subscribers : ℕ
  pub topic_prefix : Bytes
  pub qos : QoS
  pub payload_size : ℕ
  pub stop : Stop
  pub rate : Option F
  pub inflight : ℕ
  pub warmup : ℕ
  pub drain : ℕ
  pub json : Bool

abbrev pub default_count : ℕ
default_count = 10000

abbrev pub from_secs : ℕ → ℕ
from_secs secs = secs * 1000000000

abbrev pub stop_for : Option ℕ → Option ℕ → Stop
stop_for (some n) (some secs) = count_within n (from_secs secs)
stop_for (some n) none = count n
stop_for none (some secs) = duration (from_secs secs)
stop_for none none = count default_count

module _ {F : Type 0} (f : Float F) where
  -- The checks on `--rate`, for a number of publishers.
  rate_error : ℕ → Option F → Result (Unit {0})
  rate_error publishers none = ok tt
  rate_error publishers (some rate) =
      let period = f.div f.one (f.div rate (f.of_nat publishers)) in
      if not (f.is_finite rate) || not (f.less f.zero rate) || f.less f.max_rate rate
      then err (
          usage (
            text "--rate must be a finite number greater than 0 and at most "
            ++ (f.display f.max_rate ++ (text ", got " ++ f.display rate))))
      else if not (f.is_finite period) || f.less f.max_duration period
      then err (
          usage (
            text "--rate "
            ++ (f.display rate
                ++ (text " split across "
                    ++ (decimal publishers
                        ++ text " publisher(s) is too small: the resulting period does not fit")))))
      else ok tt

  unfoldable pub from_args : Protocol → BenchArgs F → Result (Config F)
  unfolding rate_error
  from_args P args =
      if args.publishers == 0 then err (usage (text "--publishers must be at least 1")) else do
        rate_error args.publishers args.rate
        qos ← from_mqtt (P.qos_from_u8 args.qos)
        ok (record {
          publishers = args.publishers;
          subscribers = args.subscribers;
          topic_prefix = args.topic_prefix;
          qos = qos;
          payload_size = args.payload_size;
          stop = stop_for args.count args.duration;
          rate = args.rate;
          inflight = args.inflight;
          warmup = from_secs args.warmup;
          drain = from_secs args.drain;
          json = args.json;
        })

  pub per_publisher_rate : Config F → Option F
  per_publisher_rate c = elim c.rate [
    | none ↦ none
    | some r ↦ some (f.div r (f.of_nat c.publishers))
  ]

  -- `Schedule::new`, less the start: the interval between messages.
  pub interval : Option F → Option ℕ
  interval none = none
  interval (some rate) = if f.less f.zero rate then some (f.from_secs (f.div f.one rate)) else none

  -- `Schedule::deadline`, from the start and the interval.
  pub schedule_deadline : ℕ → Option ℕ → ℕ → Option ℕ
  schedule_deadline start none index = none
  schedule_deadline start (some i) index = some (start + f.mul_duration i (f.of_nat index))

module _ {F : Type 0} (c : Config F) where
  pub measures_end_to_end : Bool
  measures_end_to_end = ltb 0 c.subscribers && leb header_len c.payload_size

  abbrev pub topic_for : ℕ → Bytes
  topic_for publisher = c.topic_prefix ++ (text "/" ++ decimal publisher)

  abbrev pub subscribe_filter : Bytes
  subscribe_filter = c.topic_prefix ++ text "/#"

abbrev pub share : ℕ → ℕ → ℕ → ℕ
share publishers total publisher =
    total / publishers + (if ltb publisher (total % publishers) then 1 else 0)

unfoldable pub quota_for : {F : Type 0} → Config F → ℕ → Option ℕ
quota_for c publisher = elim c.stop [
  | count n ↦ some (share c.publishers n publisher)
  | count_within n d ↦ some (share c.publishers n publisher)
  | duration d ↦ none
]

unfoldable pub deadline : {F : Type 0} → Config F → Option ℕ
deadline c = elim c.stop [ count n ↦ none | count_within n d ↦ some d | duration d ↦ some d ]

abbrev capped_by : Option ℕ → ℕ
capped_by none = 2 ^ 64 - 1
capped_by (some m) = m

unfoldable pub effective_inflight : ℕ → Option ℕ → ℕ
effective_inflight requested broker_receive_maximum =
    max (min requested (capped_by broker_receive_maximum)) 1

-- The failures from index `i` on.
abbrev failures_from : (Error → Bytes) → Bytes → ℕ → List (Result (Unit {0})) → List Bytes
failures_from display role i [] = []
failures_from display role i (ok u ∷ rest) = failures_from display role (i + 1) rest
failures_from display role i (err e ∷ rest) =
    (role ++ (text " " ++ (decimal i ++ (text ": " ++ display e))))
    ∷ failures_from display role (i + 1) rest

unfoldable pub collect_failures : (Error → Bytes) → List (Result (Unit {0})) → Bytes → List Bytes
collect_failures display results role = failures_from display role 0 results

-- How a task ends.
pub data Joined : Type 0 where
  returned : Result Samples → Joined
  task_panicked : Bytes → Joined

unfoldable pub join_tasks : List Joined → Samples → Samples × List (Result (Unit {0}))
join_tasks [] merged = (merged, [])
join_tasks (returned (ok samples) ∷ rest) merged =
    let (all, results) = join_tasks rest (merge merged samples) in (all, ok tt ∷ results)
join_tasks (returned (err e) ∷ rest) merged =
    let (all, results) = join_tasks rest merged in (all, err e ∷ results)
join_tasks (task_panicked e ∷ rest) merged =
    let (all, results) = join_tasks rest merged in
    (all, err (usage (text "task panicked: " ++ e)) ∷ results)
