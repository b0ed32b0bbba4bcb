-- ===== src/Tests/Sessions.antt =====
-- Sessions against a broker that sends a few packets.
use pulsemq_cli.Base.{
  ℕ, ◌≤◌, true, false, none, some, List, [], ◌∷◌, Bytes, text, ◌⊎◌, inl, inr, ◌≡◌, ◌≢◌, refl, arith,
}
use pulsemq_cli.Mqtt.{
  at_most_once, at_least_once, exactly_once, ReasonCode, PubAck, publish, pubrec, pubcomp, pubrel,
  pingresp, suback, connack, Connack,
}
use pulsemq_cli.Io.{arrived, elapsed, waiting}
use pulsemq_cli.Io.Laws.{Ensures}
use pulsemq_cli.Cli.{ConnectionArgs}
use pulsemq_cli.Client.{
  Client, client_id_for, handshake, connect_client, with_incoming, step_packet_id,
}
use pulsemq_cli.Client.PacketId.{allocate, allocate-injective, step_packet_id_bounds}
use pulsemq_cli.Client.Dial.{Shaken, handshake-Shaken, IsRefused, Untouched, connect_client_refused}
use pulsemq_cli.Subscribe.{first_refused, subscribe, acknowledge, receive_loop}
use pulsemq_cli.Subscribe.Laws.{
  Put, answer, acknowledge-Put, Subscribed, asked, subscribe-Subscribed,
}
use pulsemq_cli.Subscribe.Run
use pulsemq_cli.Publish.{expect_ack}
use pulsemq_cli.Publish.Handshake.{Got, expect_ack-Got}
use pulsemq_cli.Request.{reply_loop}
use pulsemq_cli.Request.Laws
use pulsemq_cli.Request.Success.{reply_loop_lem}
use pulsemq_cli.Client.Calm.{Calm, Unfailing}
use pulsemq_cli.Request.Refused.{pubacks, reply_loop_refused}
use pulsemq_cli.Tests.Fixtures.{
  mqtt_protocol, mqtt_protocol-IsLawful, world, client, message, no_properties, connection,
  connection-IsParsed, host,
}

abbrev ack : ℕ → ReasonCode → PubAck
ack id code = record { packet_id = id; reason_code = code }

-- A QoS 1 message after a ping, then one of QoS 2 and its release.
abbrev deliveries : Client
deliveries = client (
    elapsed
    ∷ arrived pingresp
    ∷ arrived (publish (message at_least_once (some 7) (104 ∷ 105 ∷ [])))
    ∷ arrived (publish (message exactly_once (some 8) (33 ∷ [])))
    ∷ arrived (pubrel (ack 8 0))
    ∷ [])

receive_loop-Ensures_example :
    Ensures
      (λ _ d. Run.Complete mqtt_protocol true (some 2) deliveries d)
      (Run.Waits mqtt_protocol true (some 2) deliveries)
      (receive_loop mqtt_protocol (some 2) true deliveries)
receive_loop-Ensures_example = Run.receive_loop-Ensures mqtt_protocol true (some 2) deliveries refl

reply_loop_lem_example :
    Ensures
      (λ _ d. Laws.Complete mqtt_protocol true 2 deliveries d)
      (Laws.Waits mqtt_protocol true 2 deliveries)
      (reply_loop mqtt_protocol true 2 deliveries)
    × (Calm deliveries → Unfailing (λ _ d. Calm d) (reply_loop mqtt_protocol true 2 deliveries))
reply_loop_lem_example = reply_loop_lem mqtt_protocol true 2 deliveries

-- A retained message before the SUBACK.
abbrev subscribing : Client
subscribing = client (
    arrived (publish (message at_most_once none []))
    ∷ arrived (suback (record { packet_id = 1; reason_codes = 1 ∷ 0 ∷ [] }))
    ∷ [])

abbrev filters : List Bytes
filters = (97 ∷ []) ∷ (98 ∷ []) ∷ []

subscribe-Subscribed_example :
    Ensures
      (λ _ d.
        Subscribed mqtt_protocol filters (asked mqtt_protocol filters at_least_once subscribing) d)
      (λ _. Unit {0})
      (subscribe mqtt_protocol filters at_least_once subscribing)
subscribe-Subscribed_example = subscribe-Subscribed mqtt_protocol filters at_least_once subscribing

first_refused_runs : first_refused mqtt_protocol.is_error filters (1 ∷ 0 ∷ []) ≡ none
unfolding first_refused
first_refused_runs = refl

acknowledge-Put_example :
    Ensures
      (λ _ d. Put (answer mqtt_protocol (some 9) exactly_once) deliveries d)
      (λ _. ⊥)
      (acknowledge mqtt_protocol (message exactly_once (some 9) []) deliveries)
acknowledge-Put_example =
    acknowledge-Put mqtt_protocol (message exactly_once (some 9) []) deliveries

-- The acknowledgements of a QoS 2 publication.
abbrev acknowledging : Client
acknowledging =
    client (arrived (pubrec (ack 1 0)) ∷ arrived pingresp ∷ arrived (pubcomp (ack 1 0)) ∷ [])

expect_ack-Got_example :
    Ensures
      (Got mqtt_protocol acknowledging)
      (λ _. Unit {0})
      (expect_ack mqtt_protocol (text "publish") acknowledging)
expect_ack-Got_example = expect_ack-Got mqtt_protocol (text "publish") acknowledging

abbrev lines_in : List (Bytes ⊎ Bytes)
lines_in = inr (97 ∷ []) ∷ inr (98 ∷ []) ∷ []

-- 0x87, not authorized.
reply_loop_refused_example :
    reply_loop mqtt_protocol true 1 (with_incoming (pubacks (ack 1 135 ∷ [])) (client []))
    ≡ waiting (with_incoming [] (client []))
reply_loop_refused_example =
    reply_loop_refused mqtt_protocol true 1 (ack 1 135 ∷ []) (client []) (omega arith)

step_packet_id_bounds_example : (1 ≤ step_packet_id 65535) × (step_packet_id 65535 ≤ 65535)
step_packet_id_bounds_example = step_packet_id_bounds 65535

allocate-injective_example : allocate 1 65530 ≢ allocate 8 65530
allocate-injective_example = allocate-injective 65530 0 7 (omega arith) (omega arith)

abbrev unnamed : ConnectionArgs
unnamed = record connection { client_id = some [] }

refused : IsRefused mqtt_protocol host unnamed
unfolding client_id_for
refused = inl refl

connect_client_refused_example :
    Untouched mqtt_protocol host unnamed
      (world [])
      (connect_client mqtt_protocol host unnamed (world []))
connect_client_refused_example =
    connect_client_refused mqtt_protocol host unnamed (world []) refused

abbrev accepting : Connack
accepting = record { session_present = false; reason_code = 0; properties = no_properties }

handshake-Shaken_example :
    Ensures
      (Shaken mqtt_protocol host connection (105 ∷ []) (world (arrived (connack accepting) ∷ [])))
      (λ _. Unit {0})
      (handshake mqtt_protocol host connection
        (105 ∷ [])
        (world (arrived (connack accepting) ∷ [])))
handshake-Shaken_example =
    handshake-Shaken mqtt_protocol host connection mqtt_protocol-IsLawful connection-IsParsed
      (105 ∷ []) (world (arrived (connack accepting) ∷ []))
