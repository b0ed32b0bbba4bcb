-- ===== src/Tests/Commands.antt =====
-- The process on concrete command lines.
use pulsemq_cli.Base.{ℕ, false, none, some, inr, List, [], ◌∷◌, map, Bytes, refl, ◌≡◌}
use pulsemq_cli.Mqtt.{at_least_once, pingresp}
use pulsemq_cli.Cli.{max_packet_size, will}
use pulsemq_cli.Client.{client_id_for}
use pulsemq_cli.Password.{password_value}
use pulsemq_cli.Io.{Event, arrived, elapsed, World, done}
use pulsemq_cli.Publish
use pulsemq_cli.Main.{Platform, command_pub, success, main}
use pulsemq_cli.Main.Exit.{Accomplished}
use pulsemq_cli.Main.Success.{CanPublish, main-Accomplished}
use pulsemq_cli.Tests.Fixtures.{
  mqtt_protocol, mqtt_protocol-IsLawful, world, no_properties, connection-IsParsed, pub_args, host,
}
use pulsemq_cli.Tests.Benchmark.{hundredths}
use pulsemq_cli.Tests.Processes.{accepted, acked, tasks}

abbrev platform : Platform ℕ
platform = record {
  host = host;
  protocol = mqtt_protocol;
  float = hundredths;
  to_string_pretty = λ _. [];
  tasks = tasks;
}

-- Two lines of standard input.
abbrev typed : List Bytes
typed = (97 ∷ []) ∷ (98 ∷ []) ∷ []

abbrev typing : Platform ℕ
typing = record platform { host = record host { stdin_lines = map inr typed } }

-- A ping and two acknowledgements.
abbrev acknowledging : List Event
acknowledging = elapsed ∷ arrived pingresp ∷ acked 1 ∷ acked 2 ∷ []

typing-CanPublish : CanPublish typing pub_args (world (accepted ∷ acknowledging))
unfolding Publish.resolve_payload Publish.resolve_properties client_id_for password_value
    max_packet_size will
typing-CanPublish = record {
  qos = at_least_once;
  source = Publish.lines;
  properties = record no_properties { message_expiry_interval = some 60 };
  messages = typed;
  session = acknowledging;
  rest = [];
  known = refl;
  readable = refl;
  expressible = refl;
  offered = refl;
  reachable = record {
    max = 1048576;
    given = none;
    last_will = some (record {
      topic = 119 ∷ [];
      payload = [];
      qos = at_least_once;
      retain = false;
      properties = no_properties;
    });
    ack = record { session_present = false; reason_code = 0; properties = no_properties };
    named = refl;
    sized = refl;
    secret = refl;
    willing = refl;
    answers = refl;
    no_delay = refl;
    no_tls = refl;
    no_websocket = refl;
    smooth = λ n. refl;
    greeted = refl;
    accepted = refl;
  };
  granted = (refl, (refl, refl));
}

main-Accomplished_example :
    (w' : World) × (main typing
        (record { command = command_pub pub_args })
        (world (accepted ∷ acknowledging))
      ≡ done success w')
    × Accomplished typing (command_pub pub_args) (world (accepted ∷ acknowledging)) w'
main-Accomplished_example =
    main-Accomplished typing mqtt_protocol-IsLawful (record { command = command_pub pub_args })
      (world (accepted ∷ acknowledging)) connection-IsParsed typing-CanPublish
