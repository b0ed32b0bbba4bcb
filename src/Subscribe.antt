-- ===== src/Subscribe.antt =====
-- `sub`, and the subscribe, print and acknowledge path that `request` shares (src/subscribe.rs).
pub mod Output
pub mod Terminal
pub mod Laws
pub mod Serve
pub mod Run
pub mod Session
pub mod Liveness
pub mod Success
use pulsemq_cli.Base.{
  ℕ, suc, ◌+◌, Bool, true, false, not, ◌&&◌, Option, none, some, List, [], ◌∷◌, ◌++◌, map, Bytes,
  text, decimal, leb, ◌==◌, if◌then◌else◌, length,
}
use pulsemq_cli.Mqtt
use pulsemq_cli.Mqtt.{
  QoS, at_most_once, at_least_once, exactly_once, ReasonCode, Protocol, Publish, PubAck, Subscribe,
  TopicFilter, send_at_subscribe, Packet, puback, pubrec, pubrel, pubcomp, suback, disconnect,
  publish,
}
use pulsemq_cli.Error.{Error, usage, rejected, from_mqtt}
use pulsemq_cli.Cli.{SubArgs, effective_limit}
use pulsemq_cli.Host.{Host}
use pulsemq_cli.Io.{
  World, Outcome, done, failed, Action, ◌>>=◌, ◌>>◌, and_then, return, raise, modify, lift_result,
  Next, again, finish, loop,
}
use pulsemq_cli.Client.{
  Client, connect_client, with_client, send, recv, recv_keepalive, next_packet_id, close,
}
use Output.{print_message}

-- Rounds that are enough for a loop in which each round reads.
abbrev pub fuel : Client → ℕ
fuel c = suc (length c.stream.incoming)

abbrev pub topic_filter : QoS → Bytes → TopicFilter
topic_filter qos f = record {
  filter = f;
  qos = qos;
  no_local = false;
  retain_as_published = false;
  retain_handling = send_at_subscribe;
}

-- `filters.iter().zip(reason_codes.iter())`: the first filter whose code is an error, as far as both
-- lists go.
unfoldable pub first_refused :
    (ReasonCode → Bool) → List Bytes → List ReasonCode → Option (Bytes × ReasonCode)
first_refused is_error (f ∷ fs) (code ∷ codes) =
    if is_error code then some (f, code) else first_refused is_error fs codes
first_refused is_error _ _ = none

pub check_suback : Option (Bytes × ReasonCode) → Action Client (Next (Unit {0}) (Unit {0}))
check_suback none = return (finish tt)
check_suback (some (f, code)) = raise (rejected (text "subscription to " ++ f) code)

abbrev pub print_to_stdout : Publish → Bool → Client → Client
print_to_stdout p show_topic c = record c {
  stream = record c.stream {
    printed = c.stream.printed ++ print_message p show_topic c.stream.to_terminal;
  };
}

abbrev pub reached : Option ℕ → ℕ → Bool
reached none seen = false
reached (some limit) seen = leb limit seen

module _ (P : Protocol) where
  abbrev pub pub_ack : ℕ → PubAck
  pub_ack id = record { packet_id = id; reason_code = P.success }

  await_suback_on : List Bytes → Packet → Action Client (Next (Unit {0}) (Unit {0}))
  unfolding check_suback
  await_suback_on filters (suback ack) =
      check_suback (first_refused P.is_error filters ack.reason_codes)
  await_suback_on filters (disconnect code) = raise (rejected (text "subscription") code)
  await_suback_on filters _ = return (again tt)

  await_suback : List Bytes → Unit {0} → Action Client (Next (Unit {0}) (Unit {0}))
  unfolding await_suback_on
  await_suback filters _ = do p ← recv; await_suback_on filters p

  -- The loop of `subscribe`.
  pub await_loop : List Bytes → Action Client (Unit {0})
  unfolding await_suback loop
  await_loop filters c = loop (fuel c) (await_suback filters) tt c

  abbrev pub subscription : List Bytes → QoS → ℕ → Packet
  subscription filters qos id = Mqtt.subscribe (record {
    packet_id = id;
    properties = P.properties_new;
    filters = map (topic_filter qos) filters;
  })

  unfoldable pub subscribe : List Bytes → QoS → Action Client (Unit {0})
  unfolding await_loop
  subscribe filters qos = do
    id ← next_packet_id
    send (subscription filters qos id)
    await_loop filters

  acknowledge_with : QoS → ℕ → Action Client (Unit {0})
  acknowledge_with at_most_once id = return tt
  acknowledge_with at_least_once id = send (puback (pub_ack id))
  acknowledge_with exactly_once id = send (pubrec (pub_ack id))

  unfoldable pub acknowledge : Publish → Action Client (Unit {0})
  unfolding acknowledge_with
  acknowledge p = elim p.packet_id [ none ↦ return tt | some id ↦ acknowledge_with p.qos id ]

  sub_on : Option ℕ → Bool → ℕ → Packet → Action Client (Next ℕ (Unit {0}))
  sub_on limit show_topic seen (publish p) = do
    acknowledge p
    modify (print_to_stdout p show_topic)
    return (if reached limit (seen + 1) then finish tt else again (seen + 1))
  sub_on limit show_topic seen (pubrel rel) = do
    send (pubcomp (pub_ack rel.packet_id))
    return (again seen)
  sub_on limit show_topic seen (disconnect code) = raise (rejected (text "subscription") code)
  sub_on limit show_topic seen _ = return (again seen)

  sub_round : Option ℕ → Bool → ℕ → Action Client (Next ℕ (Unit {0}))
  unfolding sub_on
  sub_round limit show_topic seen = do p ← recv_keepalive; sub_on limit show_topic seen p

  -- The loop of `run`.
  pub receive_loop : Option ℕ → Bool → Action Client (Unit {0})
  unfolding sub_round loop
  receive_loop limit show_topic c = loop (fuel c) (sub_round limit show_topic) 0 c

  abbrev is_zero : Option ℕ → Bool
  is_zero none = false
  is_zero (some n) = n == 0

  -- The part of `run` that has a connection.
  sub_session : SubArgs → QoS → Action Client (Unit {0})
  unfolding subscribe receive_loop
  sub_session args qos = do
    let limit = effective_limit args
    subscribe args.topic qos
    if is_zero limit then close P else do receive_loop limit args.show_topic; close P

  -- The check that clap makes as well.
  abbrev pub needing_topic : List Bytes → Action World (Unit {0}) → Action World (Unit {0})
  needing_topic [] m = raise (usage (text "sub needs at least one --topic"))
  needing_topic (t ∷ ts) m = m

  unfoldable pub run : Host → SubArgs → Action World (Unit {0})
  unfolding sub_session
  run host args = needing_topic args.topic (do
    qos ← lift_result (from_mqtt (P.qos_from_u8 args.qos))
    client ← connect_client P host args.conn
    with_client (sub_session args qos) client)
