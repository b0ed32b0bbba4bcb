-- ===== src/Tests/Fixtures.antt =====
-- Data that the tests share.
use pulsemq_cli.Base.{
  arith, ℕ, Bool, true, false, Option, none, some, List, [], ◌∷◌, Bytes, leb, ◌==◌, if◌then◌else◌,
  ◌⊎◌, inl, inr, refl, map,
}
use pulsemq_cli.Mqtt.{
  QoS, at_most_once, at_least_once, exactly_once, ProtocolVersion, v5, v3_1_1, v3_1, MqttError,
  protocol, Properties, Publish, Protocol, IsLawful,
}
use pulsemq_cli.Io.{Event, World}
use pulsemq_cli.Client.{Client}
use pulsemq_cli.Cli.{ConnectionArgs, PubArgs, IsParsed}
use pulsemq_cli.Network.{succeeded}
use pulsemq_cli.Host.{Host}
use pulsemq_cli.Rustls.{Rustls}
use pulsemq_cli.Cli

abbrev pub no_properties : Properties
no_properties = record {
  user_properties = [];
  message_expiry_interval = none;
  content_type = none;
  payload_format_indicator = none;
  response_topic = none;
  maximum_packet_size = none;
  receive_maximum = none;
}

abbrev qos_of : ℕ → MqttError ⊎ QoS
qos_of n =
    if n == 0
    then inr at_most_once
    else if n == 1
    then inr at_least_once
    else if n == 2
    then inr exactly_once
    else inl (protocol [])

abbrev five : ProtocolVersion → Bool
five v5 = true
five _ = false

-- The protocol crate as its documentation has it: reason codes from 0x80 are errors.
abbrev pub mqtt_protocol : Protocol
mqtt_protocol = record {
  is_error = λ code. leb 128 code;
  success = 0;
  qos_from_u8 = qos_of;
  has_properties = five;
  level = λ v. elim v [ v5 ↦ 5 | v3_1_1 ↦ 4 | v3_1 ↦ 3 ];
  packet_name = λ _. [];
  qos_as_u8 = λ q. elim q [ at_most_once ↦ 0 | at_least_once ↦ 1 | exactly_once ↦ 2 ];
  debug_code = λ _. [];
  display_error = λ _. [];
  properties_new = no_properties;
}

pub mqtt_protocol-IsLawful : IsLawful mqtt_protocol
mqtt_protocol-IsLawful = record {
  success_lem = refl;
  qos_0 = refl;
  qos_1 = refl;
  qos_2 = refl;
  properties_v5 = refl;
  properties_v3_1_1 = refl;
  properties_v3_1 = refl;
}

abbrev pub world : List Event → World
world es = record {
  incoming = es;
  sent = [];
  writes = 0;
  fault = λ _. none;
  printed = [];
  to_terminal = true;
  warnings = [];
  warned_mode = false;
  warned_plaintext = false;
  dials = 0;
}

abbrev pub client : List Event → Client
client es = record {
  stream = world es;
  version = v5;
  keep_alive = 60;
  next_packet_id = 0;
  max_packet_size = 1048576;
}

abbrev pub message : QoS → Option ℕ → Bytes → Publish
message qos id payload = record {
  dup = false;
  qos = qos;
  retain = false;
  topic = 116 ∷ [];
  packet_id = id;
  properties = no_properties;
  payload = payload;
}

abbrev pub connection : ConnectionArgs
connection = record {
  broker = 98 ∷ [];
  port_arg = none;
  client_id = some (105 ∷ []);
  protocol = Cli.ProtocolArg.v5;
  user = none;
  password = none;
  password_file = none;
  keepalive = 60;
  max_packet_size = 1048576;
  persistent_session = true;
  tls = false;
  cafile = none;
  cert = none;
  key = none;
  insecure = false;
  websocket = false;
  will_topic = some (119 ∷ []);
  will_payload = none;
  will_qos = 1;
  will_retain = false;
}

pub connection-IsParsed : IsParsed connection
connection-IsParsed = record {
  will_range = omega arith;
  one_password = inl refl;
  resumable = λ _. refl;
}

abbrev pub pub_args : PubArgs
pub_args = record {
  conn = connection;
  topic = 116 ∷ [];
  message = none;
  file = none;
  stdin_lines = true;
  qos = 1;
  retain = false;
  user_properties = [];
  message_expiry_interval = some 60;
  content_type = none;
  payload_format_indicator = false;
}

-- A file of certificates has one for each byte, and 0 is none that rustls accepts. The key of a
-- file is its bytes.
abbrev pub certificates : Rustls
certificates = record {
  pem_certs = λ file. inr (map (λ b. b ∷ []) file);
  pem_private_key = λ file. inr (some file);
  add_error = λ cert. elim cert [ [] ↦ some [] | b ∷ rest ↦ if b == 0 then some [] else none ];
  is_parsable = λ cert. elim cert [ [] ↦ false | b ∷ rest ↦ leb 1 b ];
  native_certs = [];
  native_errors = [];
  client_auth_error = λ _ _. none;
  server_name_error = λ _. none;
  handshake = λ _ _. succeeded;
}

abbrev pub host : Host
host = record {
  password_variable = none;
  read_file = λ _. inr (115 ∷ 10 ∷ []);
  file_mode = λ _. some 420;
  stdin_all = inr [];
  stdin_lines = [];
  pid = 1;
  subsec_nanos = 2;
  hex = λ _. [];
  tcp_connect = λ _ _. succeeded;
  set_nodelay = none;
  debug_text = λ s. s;
  rustls = certificates;
  tungstenite = record {
    uri_error = λ _. none;
    request_error = λ _. none;
    upgrade = λ _. succeeded;
  };
}
