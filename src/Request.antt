-- ===== src/Request.antt =====
-- `request`: subscribe to the reply topic, publish the request, wait for replies (src/request.rs).
pub mod Laws
pub mod Refused
pub mod Session
pub mod Success
use pulsemq_cli.Base.{
  ℕ, suc, ◌+◌, Bool, true, false, Option, none, some, List, [], ◌∷◌, ◌++◌, Bytes, text, ltb,
  if◌then◌else◌,
}
use pulsemq_cli.Mqtt
use pulsemq_cli.Mqtt.{
  QoS, at_most_once, at_least_once, exactly_once, ProtocolVersion, v5, v3_1_1, v3_1, Protocol,
  Publish, Packet, puback, pubrec, pubrel, pubcomp, pingresp, disconnect, publish,
}
use pulsemq_cli.Error.{Error, unsupported, rejected, from_mqtt}
use pulsemq_cli.Cli
use pulsemq_cli.Cli.{RequestArgs, unwrap_or}
use pulsemq_cli.Host.{Host}
use pulsemq_cli.Io.{
  World, Outcome, Action, ◌>>=◌, ◌>>◌, and_then, done, failed, return, raise, modify, lift_result,
  Next, again, finish, loop,
}
use pulsemq_cli.Client.{
  Client, connect_client, with_client, send, recv_keepalive, next_packet_id, close,
}
use pulsemq_cli.Subscribe.{fuel, pub_ack, subscribe, acknowledge, print_to_stdout}

module _ (P : Protocol) where
  reply_on : Bool → ℕ → Packet → Action Client (Next ℕ (Unit {0}))
  reply_on show_topic seen (publish p) = do
    acknowledge P p
    modify (print_to_stdout p show_topic)
    return (again (seen + 1))
  reply_on show_topic seen (pubrel rel) = do
    send (pubcomp (pub_ack P rel.packet_id))
    return (again seen)
  reply_on show_topic seen (puback ack) = return (again seen)
  reply_on show_topic seen (pubcomp ack) = return (again seen)
  reply_on show_topic seen pingresp = return (again seen)
  reply_on show_topic seen (pubrec rec) = do
    send (pubrel (pub_ack P rec.packet_id))
    return (again seen)
  reply_on show_topic seen (disconnect code) = raise (rejected (text "request") code)
  reply_on show_topic seen _ = return (again seen)

  -- `while seen < args.count`
  reply_round : Bool → ℕ → ℕ → Action Client (Next ℕ (Unit {0}))
  unfolding reply_on
  reply_round show_topic count seen =
      if ltb seen count then recv_keepalive >>= reply_on show_topic seen else return (finish tt)

  pub reply_loop : Bool → ℕ → Action Client (Unit {0})
  unfolding reply_round loop
  reply_loop show_topic count c = loop (suc (fuel c)) (reply_round show_topic count) 0 c

  pub request_properties : RequestArgs → Mqtt.Properties
  request_properties args =
      if P.has_properties (Cli.version args.conn)
      then record P.properties_new { response_topic = some args.reply_topic }
      else P.properties_new

  abbrev pub packet_id_for : QoS → Action Client (Option ℕ)
  packet_id_for at_most_once = return none
  packet_id_for _ = do id ← next_packet_id; return (some id)

  abbrev pub request_packet : RequestArgs → QoS → Option ℕ → Packet
  request_packet args qos packet_id = publish (record {
    dup = false;
    qos = qos;
    retain = false;
    topic = args.topic;
    packet_id = packet_id;
    properties = request_properties args;
    payload = unwrap_or args.message [];
  })

  -- Subscribe first, then publish.
  pub ask : RequestArgs → QoS → Action Client (Unit {0})
  ask args qos = do
    subscribe P (args.reply_topic ∷ []) qos
    packet_id ← packet_id_for qos
    send (request_packet args qos packet_id)

  pub request_session : RequestArgs → QoS → Action Client (Unit {0})
  unfolding ask reply_loop
  request_session args qos = do ask args qos; reply_loop args.show_topic args.count; close P

  abbrev pub is_v3_1 : ProtocolVersion → Bool
  is_v3_1 v5 = false
  is_v3_1 v3_1_1 = false
  is_v3_1 v3_1 = true

  unfoldable pub run : Host → RequestArgs → Action World (Unit {0})
  unfolding request_session
  run host args =
      if is_v3_1 (Cli.version args.conn)
      then raise (
          unsupported (
            text
              "request requires MQTT v5.0 or v3.1.1: v3.1 has no Response Topic property and no way to correlate a reply"))
      else do
        qos ← lift_result (from_mqtt (P.qos_from_u8 args.qos))
        client ← connect_client P host args.conn
        with_client (request_session args qos) client
