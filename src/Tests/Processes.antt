-- ===== src/Tests/Processes.antt =====
-- Whole runs of the process, TLS, and the report.
use pulsemq_cli.Base.{ℕ, true, false, none, some, List, [], ◌∷◌, ◌≡◌, refl, arith}
use pulsemq_cli.Mqtt.{at_least_once, puback, publish, at_most_once, connack, suback}
use pulsemq_cli.Error.{Error, ok}
use pulsemq_cli.Cli.{ConnectionArgs, SubArgs, RequestArgs, BenchArgs}
use pulsemq_cli.Io.{Event, arrived, elapsed, done}
use pulsemq_cli.Io.Laws.{Ensures}
use pulsemq_cli.Client.{Client}
use pulsemq_cli.Transport
use pulsemq_cli.Transport.Laws.{Dialled, transport_of, connect-Dialled}
use pulsemq_cli.Transport.Tls.{build_config}
use pulsemq_cli.Transport.Tls.Outcomes.{Settles}
use pulsemq_cli.Transport.Tls.Laws.{Verified, Presented, build_config-Settles}
use pulsemq_cli.Publish
use pulsemq_cli.Publish.{publish_lines}
use pulsemq_cli.Subscribe
use pulsemq_cli.Subscribe.{receive_loop, reached}
use pulsemq_cli.Subscribe.Run
use pulsemq_cli.Subscribe.Session.{Heard, run-Heard}
use pulsemq_cli.Subscribe.Liveness.{receive_loop-Finishes}
use pulsemq_cli.Request
use pulsemq_cli.Request.Session.{Replied, run-Replied}
use pulsemq_cli.Bench.Config.{Config, returned}
use pulsemq_cli.Bench.Stats.{samples_new}
use pulsemq_cli.Bench.Report.{Report, report_json}
use pulsemq_cli.Bench.Report.Reading.{read_report}
use pulsemq_cli.Bench.Report.RoundTrip.{measured, report_json-read}
use pulsemq_cli.Bench.Run as BenchRun
use pulsemq_cli.Bench.Run.{Tasks}
use pulsemq_cli.Tests.Fixtures.{
  mqtt_protocol, mqtt_protocol-IsLawful, world, client, message, no_properties, connection,
  connection-IsParsed, host,
}
use pulsemq_cli.Tests.Benchmark.{hundredths, five_summary, tallied}

-- Mutual TLS against a file of certificates.
abbrev secured : ConnectionArgs
secured = record connection {
  tls = true;
  cafile = some (99 ∷ []);
  cert = some (100 ∷ []);
  key = some (101 ∷ []);
}

build_config-Settles_example :
    Settles
      (λ config w'.
        Verified host secured (world []) config.verification w'
        × Presented host secured.cert secured.key config.client_auth)
      (world [])
      (build_config host secured (world []))
build_config-Settles_example = build_config-Settles host secured (world [])

connect-Dialled_example :
    Ensures
      (λ s v. (s ≡ transport_of true false) × Dialled (world []) v)
      (Dialled (world []))
      (Transport.connect host secured (world []))
connect-Dialled_example = connect-Dialled host secured (world [])

abbrev pub accepted : Event
accepted =
    arrived
      (connack (record { session_present = false; reason_code = 0; properties = no_properties }))

abbrev pub acked : ℕ → Event
acked id = arrived (puback (record { packet_id = id; reason_code = 0 }))

abbrev pub sub_args : SubArgs
sub_args = record {
  conn = connection;
  topic = (116 ∷ []) ∷ [];
  qos = 0;
  show_topic = false;
  count = some 1;
  max_messages = 1000000;
}

abbrev pub subscribed : List Event
subscribed =
    accepted
    ∷ arrived (suback (record { packet_id = 1; reason_codes = 0 ∷ [] }))
    ∷ arrived (publish (message at_most_once none (104 ∷ [])))
    ∷ []

run-Heard_example :
    Ensures
      (λ _ w'. Heard mqtt_protocol host sub_args (world subscribed) w')
      (λ _. Unit {0})
      (Subscribe.run mqtt_protocol host sub_args (world subscribed))
run-Heard_example =
    run-Heard mqtt_protocol host sub_args mqtt_protocol-IsLawful connection-IsParsed
      (world subscribed)

-- Two messages come, and one was asked for.
abbrev listening : Client
listening = client (
    elapsed
    ∷ arrived (publish (message at_least_once (some 7) (104 ∷ [])))
    ∷ arrived (publish (message at_most_once none (105 ∷ [])))
    ∷ [])

receive_loop-Finishes_example :
    (d : Client) × (receive_loop mqtt_protocol (some 1) false listening ≡ done tt d)
    × Run.Complete mqtt_protocol false (some 1) listening d
receive_loop-Finishes_example =
    receive_loop-Finishes mqtt_protocol false (some 1) listening (λ n. refl, (tt, (tt, tt))) refl
      refl

abbrev request_args : RequestArgs
request_args = record {
  conn = connection;
  topic = 116 ∷ [];
  reply_topic = 114 ∷ [];
  message = some (104 ∷ []);
  qos = 0;
  show_topic = false;
  count = 1;
}

run-Replied_example :
    Ensures
      (λ _ w'. Replied mqtt_protocol request_args host (world subscribed) w')
      (λ _. Unit {0})
      (Request.run mqtt_protocol host request_args (world subscribed))
run-Replied_example =
    run-Replied mqtt_protocol request_args host mqtt_protocol-IsLawful connection-IsParsed
      (world subscribed)

abbrev report : Report ℕ
report = record {
  config = record {
    publishers = 1;
    subscribers = 0;
    qos = 1;
    payload_size = 64;
    inflight = 10;
    rate = none;
    topic_prefix = 98 ∷ [];
  };
  elapsed = 2000000000;
  totals = tallied;
  task_failures = (102 ∷ []) ∷ [];
  ack = some five_summary;
  end_to_end = none;
  end_to_end_disabled = false;
}

report_json-read_example :
    read_report (report_json hundredths report) ≡ some (measured hundredths report)
report_json-read_example = report_json-read hundredths report (omega arith, (omega arith, tt))

abbrev bench_args : BenchArgs ℕ
bench_args = record {
  conn = connection;
  publishers = 2;
  subscribers = 1;
  topic_prefix = 98 ∷ [];
  qos = 1;
  payload_size = 64;
  count = some 10;
  duration = none;
  rate = none;
  inflight = 10;
  warmup = 0;
  drain = 0;
  json = false;
}

-- Every connection returns its samples, and a message was refused.
abbrev pub tasks : Tasks
tasks = record {
  publisher_ends = λ _. some (returned (ok samples_new));
  subscriber_ends = λ _. some (returned (ok samples_new));
  counters = tallied;
  elapsed = 2000000000;
  baseline = 1000;
  instant_end = 9223372036854775808;
  stdout_refuses = false;
}
