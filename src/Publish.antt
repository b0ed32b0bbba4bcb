-- ===== src/Publish.antt =====
-- `pub`: publish a message, or one for each line of standard input, and complete the QoS handshake
-- of each (src/publish.rs).
pub mod Properties
pub mod Handshake
pub mod Exchanged
pub mod Exchange
pub mod Session
pub mod Liveness
pub mod Success
use pulsemq_cli.Base.{
  ℕ, suc, Bool, true, false, not, ◌&&◌, ◌||◌, Option, none, some, List, [], ◌∷◌, ◌++◌, Bytes, text,
  bytes_eq, if◌then◌else◌, is_some, ◌⊎◌, inl, inr,
}
use pulsemq_cli.Mqtt
use pulsemq_cli.Mqtt.{
  QoS, at_most_once, at_least_once, exactly_once, ReasonCode, Protocol, Publish, PubAck, Packet,
  puback, pubrec, pubrel, pubcomp, pingresp, disconnect, publish, protocol,
}
use pulsemq_cli.Error.{Error, usage, rejected, mqtt, Result, ok, err, or_usage, from_mqtt}
use pulsemq_cli.Cli
use pulsemq_cli.Cli.{PubArgs, unwrap_or}
use pulsemq_cli.Host.{Host}
use pulsemq_cli.Io.{
  World, Outcome, Action, ◌>>=◌, ◌>>◌, and_then, done, failed, return, raise, expect, lift_result,
  Next, again, finish, loop,
}
use pulsemq_cli.Client.{Client, connect_client, with_client, send, recv, next_packet_id, close}
use pulsemq_cli.Subscribe.{fuel, pub_ack}

pub data PayloadSource : Type 0 where
  once : Bytes → PayloadSource
  lines : PayloadSource

-- `--file`; `-` is standard input.
read_payload : Host → Bytes → Result Bytes
read_payload host path =
    if bytes_eq path (text "-")
    then or_usage (text "reading stdin: ") host.stdin_all
    else or_usage (path ++ text ": ") (host.read_file path)

resolve_once : Host → Option Bytes → Option Bytes → Result Bytes
unfolding read_payload
resolve_once host (some path) message = read_payload host path
resolve_once host none message = ok (unwrap_or message [])

abbrev once_result : Result Bytes → Result PayloadSource
once_result (ok bytes) = ok (once bytes)
once_result (err e) = err e

unfoldable pub resolve_payload : Host → PubArgs → Result PayloadSource
unfolding resolve_once
resolve_payload host args =
    if args.stdin_lines then ok lines else once_result (resolve_once host args.file args.message)

abbrev is_empty : {A : Type 0} → List A → Bool
is_empty [] = true
is_empty (a ∷ rest) = false

module _ (P : Protocol) where
  abbrev pub has_properties : PubArgs → Bool
  has_properties args = P.has_properties (Cli.version args.conn)

  abbrev pub uses_properties : PubArgs → Bool
  uses_properties args =
      not (is_empty args.user_properties)
      || is_some args.message_expiry_interval
      || is_some args.content_type
      || args.payload_format_indicator

  unfoldable pub resolve_properties : PubArgs → Result Mqtt.Properties
  resolve_properties args =
      if not (has_properties args) && uses_properties args
      then err (
          usage (
            text
              "--user-property/--message-expiry-interval/--content-type/--payload-format-indicator need v5 properties (--protocol 5)"))
      else if has_properties args
      then ok (record P.properties_new {
        user_properties = args.user_properties;
        message_expiry_interval = args.message_expiry_interval;
        content_type = args.content_type;
        payload_format_indicator =
            if args.payload_format_indicator
            then some 1
            else P.properties_new.payload_format_indicator;
      })
      else ok P.properties_new

  expect_ack_on : Bytes → Packet → Action Client (Next (Unit {0}) ReasonCode)
  expect_ack_on what (puback a) = return (finish a.reason_code)
  expect_ack_on what (pubrec a) = return (finish a.reason_code)
  expect_ack_on what (pubcomp a) = return (finish a.reason_code)
  expect_ack_on what pingresp = return (again tt)
  expect_ack_on what (disconnect code) = raise (rejected what code)
  expect_ack_on what p =
      raise (mqtt (protocol (text "expected an acknowledgement, got " ++ P.packet_name p)))

  expect_ack_round : Bytes → Unit {0} → Action Client (Next (Unit {0}) ReasonCode)
  unfolding expect_ack_on
  expect_ack_round what _ = do p ← recv; expect_ack_on what p

  pub expect_ack : Bytes → Action Client ReasonCode
  unfolding expect_ack_round loop
  expect_ack what c = loop (fuel c) (expect_ack_round what) tt c

  pub check : ReasonCode → Bytes → Action Client (Unit {0})
  check code what = if P.is_error code then raise (rejected what code) else return tt

  abbrev packet_id_for : QoS → Action Client (Option ℕ)
  packet_id_for at_most_once = return none
  packet_id_for _ = do id ← next_packet_id; return (some id)

  -- The part after the PUBLISH has been sent.
  pub complete : QoS → Option ℕ → Action Client (Unit {0})
  unfolding expect_ack check
  complete at_most_once packet_id = return tt
  complete at_least_once packet_id = do
    ack ← expect_ack (text "publish")
    check ack (text "publish")
  complete exactly_once packet_id = do
    rec ← expect_ack (text "publish")
    check rec (text "publish")
    id ← expect packet_id
    send (pubrel (pub_ack P id))
    comp ← expect_ack (text "publish")
    check comp (text "publish")

  abbrev pub publication : Bytes → Bytes → QoS → Bool → Mqtt.Properties → Option ℕ → Publish
  publication topic payload qos retain properties packet_id = record {
    dup = false;
    qos = qos;
    retain = retain;
    topic = topic;
    packet_id = packet_id;
    properties = properties;
    payload = payload;
  }

  pub publish_one : Bytes → Bytes → QoS → Bool → Mqtt.Properties → Action Client (Unit {0})
  unfolding complete
  publish_one topic payload qos retain properties = do
    packet_id ← packet_id_for qos
    send (publish (publication topic payload qos retain properties packet_id))
    complete qos packet_id

  -- The loop over the lines of standard input.
  pub publish_lines :
      PubArgs → QoS → Mqtt.Properties → List (Bytes ⊎ Bytes) → Action Client (Unit {0})
  unfolding publish_one
  publish_lines args qos properties [] = return tt
  publish_lines args qos properties (line ∷ rest) = do
    payload ← lift_result (or_usage (text "reading stdin: ") line)
    publish_one args.topic payload qos args.retain properties
    publish_lines args qos properties rest

  pub publish_source :
      Host → PubArgs → QoS → Mqtt.Properties → PayloadSource → Action Client (Unit {0})
  unfolding publish_one publish_lines
  publish_source host args qos properties (once payload) =
      publish_one args.topic payload qos args.retain properties
  publish_source host args qos properties lines = publish_lines args qos properties host.stdin_lines

  unfoldable pub run : Host → PubArgs → Action World (Unit {0})
  unfolding resolve_payload resolve_properties publish_source
  run host args = do
    qos ← lift_result (from_mqtt (P.qos_from_u8 args.qos))
    source ← lift_result (resolve_payload host args)
    properties ← lift_result (resolve_properties args)
    client ← connect_client P host args.conn
    with_client (do publish_source host args qos properties source; close P) client
