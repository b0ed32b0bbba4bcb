-- ===== src/Tests/Connections.antt =====
-- The connections of the benchmark, from their starts to their ends.
use pulsemq_cli.Base.{ℕ, ◌++◌, true, false, none, List, [], ◌∷◌, text, ◌≡◌, ◌⊎◌, refl}
use pulsemq_cli.Mqtt.{
  connack, suback, PubAck, pubrec, pubcomp, publish, at_most_once, io, disconnect,
}
use pulsemq_cli.Io.{Event, arrived, broken, World, done}
use pulsemq_cli.Io.Laws.{Ensures}
use pulsemq_cli.Client.{Negotiated}
use pulsemq_cli.Bench.Stats.{counters_new}
use pulsemq_cli.Bench.Connection.{bench_client_id}
use pulsemq_cli.Bench.Connection.Laws.{Opened}
use pulsemq_cli.Bench.Subscriber
use pulsemq_cli.Bench.Subscriber.{Subscriber}
use pulsemq_cli.Bench.Subscriber.Delivery.{Recorded}
use pulsemq_cli.Bench.Subscriber.Whole.{Admitted, run-Measured}
use pulsemq_cli.Bench.Publisher.{Publisher, start}
use pulsemq_cli.Bench.Publisher.Collision.{setting}
use pulsemq_cli.Bench.Publisher.Opening.{open_publisher, Windowed, open_publisher-Windowed}
use pulsemq_cli.Bench.Publisher.AckSide.{ack_loop, EndsAs, IsClosedBy, Did, taken_of, ack_loop-Did}
use pulsemq_cli.Bench.Publisher.Tail.{Lull, wind_down, none_in_flight}
use pulsemq_cli.Bench.Publisher.Writes.{releases}
use pulsemq_cli.Bench.Publisher.Released.{handed_in, wind_down-Released}
use pulsemq_cli.Tests.Fixtures.{
  mqtt_protocol, mqtt_protocol-IsLawful, world, message, no_properties, connection,
  connection-IsParsed, host,
}
use pulsemq_cli.Tests.Benchmark.{clock, run_config}

abbrev accepted : Event
accepted =
    arrived
      (connack (record { session_present = false; reason_code = 0; properties = no_properties }))

abbrev deliveries : World
deliveries = world (
    accepted
    ∷ arrived (suback (record { packet_id = 1; reason_codes = 1 ∷ [] }))
    ∷ arrived (publish (message at_most_once none (104 ∷ [])))
    ∷ [])

run-Measured_example :
    Ensures
      (λ r w'.
        (n : Negotiated) × (u : World) × (v : World) × (e : Subscriber) × Opened mqtt_protocol host
          connection
          (bench_client_id mqtt_protocol host (text "-sub-") 0 connection.client_id)
          deliveries
          n
          u
        × Admitted mqtt_protocol run_config u v
        × Recorded mqtt_protocol clock (Subscriber.start mqtt_protocol counters_new v) e
        × (r ≡ (e.samples, e.counters))
        × (w' ≡ e.stream))
      (λ _. Unit {0})
      (Subscriber.run mqtt_protocol host connection run_config clock 0 5 counters_new deliveries)
run-Measured_example =
    run-Measured mqtt_protocol run_config host connection mqtt_protocol-IsLawful connection-IsParsed
      clock 0 5 counters_new deliveries

open_publisher-Windowed_example :
    Ensures
      (Windowed (setting mqtt_protocol) host connection counters_new (world (accepted ∷ [])))
      (λ _. Unit {0})
      (open_publisher mqtt_protocol host connection
        (setting mqtt_protocol).config
        0
        counters_new
        (world (accepted ∷ [])))
open_publisher-Windowed_example =
    open_publisher-Windowed (setting mqtt_protocol) host connection counters_new
      mqtt_protocol-IsLawful connection-IsParsed (world (accepted ∷ []))

abbrev ack : ℕ → PubAck
ack id = record { packet_id = id; reason_code = 0 }

abbrev fresh : Publisher
fresh = start (world []) 10 counters_new

-- A PUBCOMP, then the stream breaks.
abbrev reads : List (ℕ × Event)
reads = (7, arrived (pubcomp (ack 1))) ∷ (8, broken (io [])) ∷ []

ack_loop-Did_example :
    let (end, d) = ack_loop mqtt_protocol 0 reads fresh in
    EndsAs (setting mqtt_protocol) reads end
    × IsClosedBy (setting mqtt_protocol) end d
    × Did (setting mqtt_protocol) (taken_of (setting mqtt_protocol) reads) fresh d
ack_loop-Did_example = ack_loop-Did (setting mqtt_protocol) reads fresh refl

-- Two messages in flight; a PUBREC comes while the publisher waits.
abbrev ending : Publisher
ending = record fresh { in_flight = (1, 5) ∷ (2, 6) ∷ []; pubrels = 1 ∷ [] }

abbrev lulls : List Lull
lulls = ((7, pubrec (ack 2)) ∷ []) ∷ [] ∷ []

wind_down-Released_example :
    (taken : List Lull) × (later : List Lull) × (lulls ≡ taken ++ later)
    × (d : Publisher) × (wind_down mqtt_protocol 0 lulls ending ≡ done tt d)
    × (d.stream.sent
        ≡ ending.stream.sent
          ++ (releases mqtt_protocol (ending.pubrels ++ handed_in mqtt_protocol 0 taken)
              ++ (disconnect mqtt_protocol.success ∷ [])))
    × (d.pubrels ≡ [])
    × ((taken ≡ lulls) ⊎ (none_in_flight d.in_flight ≡ true))
wind_down-Released_example = wind_down-Released mqtt_protocol 0 lulls ending (λ n. refl) refl
