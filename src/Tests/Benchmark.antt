-- ===== src/Tests/Benchmark.antt =====
-- Runs of the benchmark with small numbers, and a floating point of hundredths.
use pulsemq_cli.Base.{
  ℕ, ◌+◌, ◌*◌, ◌/◌, ◌^◌, ◌≤◌, ◌<◌, max, true, false, none, some, [], ◌∷◌, ◌⊎◌, length, ltb, leb,
  inr, ◌≡◌, refl, arith,
}
use pulsemq_cli.Mqtt.{at_least_once, publish}
use pulsemq_cli.Error.{ok}
use pulsemq_cli.Cli.{BenchArgs}
use pulsemq_cli.Io.{arrived, closed, done, write_packet, Next}
use pulsemq_cli.Io.Laws.{Ensures}
use pulsemq_cli.Bench.Float.{Float, IsMonotone}
use pulsemq_cli.Bench.Payload.{build}
use pulsemq_cli.Bench.Stats.{Samples, merge, Summary, summary, Counters, counters_new}
use pulsemq_cli.Bench.Stats.Quantiles.{IsOrdered, summary-IsOrdered, summary-merge_comm}
use pulsemq_cli.Bench.Config.{Config, count_within, from_args, quota_for, effective_inflight}
use pulsemq_cli.Bench.Config.Quota.{
  quotas, quota_or, quotas_total, HasPeriod, StopsBy, from_args_lem,
}
use pulsemq_cli.Bench.Publisher.{
  Publisher, Turn, lookup, start, window_for, send_round, drain_pubrels, drain_loop, acquire,
  with_permit, send_next, write_publish, after_write,
}
use pulsemq_cli.Client.{step_packet_id}
use pulsemq_cli.Bench.Publisher.InOrder.{begin, next, sent, Ordered-in_flight}
use pulsemq_cli.Bench.Publisher.Steps.{Reachable}
use pulsemq_cli.Bench.Publisher.Window.{reachable-in_flight}
use pulsemq_cli.Bench.Publisher.Collision.{setting, never_faulty, collision_reachable}
use pulsemq_cli.Bench.Subscriber.{Subscriber, Clock, deliver_loop}
use pulsemq_cli.Bench.Subscriber.Delivery.{Recorded}
use pulsemq_cli.Bench.Subscriber.Session.{deliver_loop-Recorded}
use pulsemq_cli.Tests.Codec.{header}
use pulsemq_cli.Tests.Fixtures.{mqtt_protocol, mqtt_protocol-IsLawful, world, message, connection}

abbrev pub hundredths : Float ℕ
hundredths = record {
  of_nat = λ n. n * 100;
  mul = λ a b. a * b / 100;
  div = λ a b. a * 100 / b;
  ceil = λ a. (a + 99) / 100;
  less = ltb;
  is_finite = λ _. true;
  display = λ _. [];
  zero = 0;
  one = 100;
  max_rate = 1000000000;
  max_duration = 1000000000000;
  p50 = 50;
  p95 = 95;
  p99 = 99;
  at_most = leb;
  million = 100000000;
  as_secs = λ nanos. nanos / 10000000;
  fixed = λ _ _. [];
  from_secs = λ a. a * 10000000;
  mul_duration = λ d a. d * a / 100;
}

hundredths-IsMonotone : IsMonotone hundredths
hundredths-IsMonotone = record { p50_p95 = λ n. omega arith; p95_p99 = λ n. omega arith }

abbrev five_samples : Samples
five_samples = record { values = 30 ∷ 10 ∷ 20 ∷ 50 ∷ 40 ∷ []; sorted = false }

abbrev pub five_summary : Summary
five_summary = record {
  count = 5;
  min_ns = 10;
  p50_ns = 30;
  p95_ns = 50;
  p99_ns = 50;
  max_ns = 50;
  mean_ns = 30;
}

summary_runs : (summary hundredths five_samples).0 ≡ some five_summary
unfolding summary
summary_runs = refl

summary-IsOrdered_example : IsOrdered five_samples.values five_summary
summary-IsOrdered_example =
    summary-IsOrdered hundredths hundredths-IsMonotone five_samples five_summary
      (λ e. absurd (ground arith)) summary_runs

abbrev more_samples : Samples
more_samples = record { values = 5 ∷ 60 ∷ []; sorted = true }

summary-merge_comm_example :
    (summary hundredths (merge five_samples more_samples)).0
    ≡ (summary hundredths (merge more_samples five_samples)).0
summary-merge_comm_example =
    summary-merge_comm hundredths hundredths-IsMonotone five_samples more_samples

abbrev pub tallied : Counters
tallied = record counters_new { refused = (135, 2) ∷ (151, 1) ∷ [] }

abbrev pub run_config : Config ℕ
run_config = record {
  publishers = 3;
  subscribers = 1;
  topic_prefix = [];
  qos = at_least_once;
  payload_size = 64;
  stop = count_within 10 30000000000;
  rate = some 50000;
  inflight = 100;
  warmup = 0;
  drain = 2000000000;
  json = false;
}

abbrev bench_args : BenchArgs ℕ
bench_args = record {
  conn = connection;
  publishers = 3;
  subscribers = 1;
  topic_prefix = [];
  qos = 1;
  payload_size = 64;
  count = some 10;
  duration = some 30;
  rate = some 50000;
  inflight = 100;
  warmup = 0;
  drain = 2;
  json = false;
}

quotas_total_example :
    (quotas run_config 3 ≡ 10)
    × ((i j : ℕ) → quota_or (quota_for run_config i) ≤ quota_or (quota_for run_config j) + 1)
quotas_total_example = quotas_total run_config 10 refl (omega arith)

from_args_runs : from_args hundredths mqtt_protocol bench_args ≡ ok run_config
unfolding from_args
from_args_runs = refl

from_args_lem_example :
    (0 < run_config.publishers)
    × ((r : ℕ) → run_config.rate ≡ some r → HasPeriod hundredths run_config.publishers r)
    × StopsBy hundredths bench_args.count bench_args.duration run_config
    × (mqtt_protocol.qos_from_u8 bench_args.qos ≡ inr run_config.qos)
from_args_lem_example = from_args_lem hundredths mqtt_protocol bench_args run_config from_args_runs

-- A window of 2, run until the identifiers have come round.
collision_reachable_example :
    (s : Publisher) × Reachable
      (setting mqtt_protocol)
      (start (never_faulty (world [])) (window_for 2 none) counters_new)
      s
    × (s.permits + length s.in_flight < window_for 2 none)
unfolding effective_inflight
collision_reachable_example =
    collision_reachable mqtt_protocol (world []) counters_new (window_for 2 none)
      mqtt_protocol-IsLawful (omega arith)

collided :
    (s : Publisher) × Reachable
      (setting mqtt_protocol)
      (start (never_faulty (world [])) (window_for 2 none) counters_new)
      s
    × (s.permits + length s.in_flight < window_for 2 none)
unfolding effective_inflight
collided =
    collision_reachable mqtt_protocol (world []) counters_new (window_for 2 none)
      mqtt_protocol-IsLawful (omega arith)

reachable-in_flight_example :
    (length collided.0.in_flight ≤ max 2 1)
    × (length collided.0.in_flight ≤ 65535)
    × ((r : ℕ) → none ≡ some r → 0 < r → length collided.0.in_flight ≤ r)
reachable-in_flight_example =
    reachable-in_flight (setting mqtt_protocol) (never_faulty (world [])) counters_new 2 none
      collided.0 collided.1

abbrev pub clock : Clock
clock = record {
  baseline = 1000;
  warmup_until = 1000;
  instant_end = 2 ^ 64;
  received_at = λ k. 2000000000 + k;
  stop_comes = true;
}

abbrev receiving : Subscriber
receiving = record {
  stream =
      world (arrived (publish (message at_least_once (some 3) (build 64 header))) ∷ closed ∷ []);
  counters = counters_new;
  samples = record { values = []; sorted = false };
  seen = 0;
}

deliver_loop-Recorded_example :
    Ensures
      (λ _ e. Recorded mqtt_protocol clock receiving e)
      (λ e. Recorded mqtt_protocol clock receiving e × ((e.stream.incoming ≡ []) ⊎ (true ≡ false)))
      (deliver_loop mqtt_protocol clock 0 5 receiving)
deliver_loop-Recorded_example = deliver_loop-Recorded mqtt_protocol clock 0 receiving 5

abbrev turn : Turn
turn = record { stop_first = false; stop_pacing = false; stop_waiting = false; now = 5 }

abbrev fresh : Publisher
fresh = start (never_faulty (world [])) (window_for 100 (some 20)) counters_new

-- The first message of a run, sent.
first_sent :
    (n : Next (Unit {0}) (Unit {0})) × (s : Publisher) × (send_round
        (setting mqtt_protocol).config
        0
        0
        mqtt_protocol
        turn
        fresh
      ≡ done n s)
unfolding send_round drain_pubrels drain_loop acquire with_permit send_next write_publish
    after_write write_packet quota_for effective_inflight step_packet_id
first_sent = (_, _, refl)

Ordered-in_flight_example :
    (first_sent.1.permits + length first_sent.1.in_flight ≡ window_for 100 (some 20))
    × (0 < first_sent.1.permits
        → lookup (step_packet_id first_sent.1.next_packet_id) first_sent.1.in_flight ≡ none)
Ordered-in_flight_example =
    Ordered-in_flight (setting mqtt_protocol) (never_faulty (world [])) counters_new 100 (some 20)
      first_sent.1 refl
      (next fresh first_sent.1 begin (sent turn first_sent.0 first_sent.1 first_sent.2))
