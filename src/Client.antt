-- ===== src/Client.antt =====
-- Connection handling shared by the subcommands (src/client.rs).
pub mod PacketId
pub mod Laws
pub mod Dial
pub mod Connected
pub mod Calm
pub mod Elapsed
pub mod Success
use pulsemq_cli.Base.{
  ℕ, suc, ◌+◌, ◌%◌, Bool, true, false, not, ◌&&◌, Option, none, some, List, [], ◌∷◌, ◌++◌, Bytes,
  text, decimal, bytes_eq, ◌==◌, if◌then◌else◌, ◌⊎◌, inl, inr, length,
}
use pulsemq_cli.Mqtt.{
  ProtocolVersion, v3_1, ReasonCode, Protocol, Properties, Connect, Connack, Will, Packet, connect,
  connack, pingreq, disconnect, MqttError, protocol,
}
use pulsemq_cli.Error.{Error, usage, rejected, disconnected, mqtt, Result, or_usage}
use pulsemq_cli.Cli
use pulsemq_cli.Cli.{ConnectionArgs}
use pulsemq_cli.Host.{Host}
use pulsemq_cli.Password.{password}
use pulsemq_cli.Transport
use pulsemq_cli.Io.{
  Event, elapsed, World, Outcome, done, failed, waiting, panicked, stuck, Action, ◌>>=◌, ◌>>◌,
  and_then, return, raise, expect, lift_result, ReadOutcome, packet, eof, read_packet, write_packet,
}

pub record Negotiated : Type 0 where
  pub version : ProtocolVersion
  pub receive_maximum : Option ℕ
  pub session_present : Bool

-- The source's `Client`; its stream is the world, which also holds the standard output.
pub record Client : Type 0 where
  pub stream : World
  pub version : ProtocolVersion
  pub keep_alive : ℕ
  pub next_packet_id : ℕ
  pub max_packet_size : ℕ

-- `map_err(Error::Usage)`
abbrev pub usage_error {ℓ} : {A : Type ℓ} → Bytes ⊎ A → Result A
usage_error = or_usage []

abbrev protocol_name : ProtocolVersion → Bytes
protocol_name v3_1 = text "MQIsdp"
protocol_name _ = text "MQTT"

module _ (P : Protocol) where
  check_connack : ProtocolVersion → ReadOutcome → Action World Negotiated
  check_connack version (packet (connack ack)) =
      if ack.reason_code == P.success
      then return (record {
        version = version;
        receive_maximum = ack.properties.receive_maximum;
        session_present = ack.session_present;
      })
      else raise (rejected (text "connection") ack.reason_code)
  check_connack version (packet p) =
      raise (mqtt (protocol (text "expected CONNACK, got " ++ P.packet_name p)))
  check_connack version eof = raise (disconnected (text "during the handshake"))

  abbrev pub password_error : Bytes
  password_error = text "cannot read the password file: "

  unfoldable pub handshake : Host → ConnectionArgs → Bytes → Action World Negotiated
  unfolding check_connack
  handshake host args client_id = do
    let version = Cli.version args
    max ← lift_result (usage_error (Cli.max_packet_size args))
    secret ← password host args
    given ← lift_result (or_usage password_error secret)
    will ← expect (Cli.will P args)
    write_packet (
        connect (record {
          protocol_name = protocol_name version;
          protocol_version = P.level version;
          clean_start = Cli.clean_start args;
          keep_alive = args.keepalive;
          properties = record P.properties_new { maximum_packet_size = some max };
          client_id = client_id;
          will = will;
          username = args.user;
          password = given;
        }))
    outcome ← read_packet
    check_connack version outcome

  unfoldable pub generated_client_id : Host → Bytes
  generated_client_id host =
      text "wispmq-cli-" ++ (decimal host.pid ++ (text "-" ++ host.hex host.subsec_nanos))

  unfoldable pub client_id_for : Host → Option Bytes → Bytes
  unfolding generated_client_id
  client_id_for host (some id) = id
  client_id_for host none = generated_client_id host

  -- Before dialling.
  refuse_unnamed : ConnectionArgs → Bytes → Action World (Unit {0})
  refuse_unnamed args client_id =
      if not (Cli.clean_start args) && bytes_eq client_id []
      then raise (
          usage (
            text
              "--persistent-session needs a non-empty --client-id: a broker-assigned identifier cannot be resumed"))
      else return tt

  unfoldable pub connect_client : Host → ConnectionArgs → Action World Client
  unfolding client_id_for refuse_unnamed
  connect_client host args = do
    let client_id = client_id_for host args.client_id
    refuse_unnamed args client_id
    max ← lift_result (usage_error (Cli.max_packet_size args))
    secret ← password host args
    _given ← lift_result (or_usage password_error secret)
    _stream ← Transport.connect host args
    negotiated ← handshake host args client_id
    λ w.
        done
          (record {
            stream = w;
            version = negotiated.version;
            keep_alive = args.keepalive;
            next_packet_id = 0;
            max_packet_size = max;
          })
          w

-- A step on the client's stream.
unfoldable pub on_stream_done : {A : Type 0} → Client → Outcome World A → Outcome Client A
on_stream_done c (done a w) = done a (record c { stream = w })
on_stream_done c (failed e w) = failed e (record c { stream = w })
on_stream_done c (waiting w) = waiting (record c { stream = w })
on_stream_done c panicked = panicked
on_stream_done c stuck = stuck

abbrev on_stream : {A : Type 0} → Action World A → Action Client A
on_stream m c = on_stream_done c (m c.stream)

-- The client is dropped at the end of its session, and its stream is left.
unfoldable pub leave : {A : Type 0} → Outcome Client A → Outcome World A
leave (done a c) = done a c.stream
leave (failed e c) = failed e c.stream
leave (waiting c) = waiting c.stream
leave panicked = panicked
leave stuck = stuck

-- A session of a client, from the world that it was connected in.
unfoldable pub with_client : {A : Type 0} → Action Client A → Client → Action World A
unfolding leave
with_client m c w = leave (m (record c { stream = w }))

unfoldable pub send : Packet → Action Client (Unit {0})
unfolding on_stream_done write_packet
send p = on_stream (write_packet p)

unfoldable pub expect_packet : ReadOutcome → Action Client Packet
expect_packet (packet p) = return p
expect_packet eof = raise (disconnected (text "while waiting for a reply"))

unfoldable pub recv : Action Client Packet
unfolding expect_packet on_stream_done read_packet
recv = do outcome ← on_stream read_packet; expect_packet outcome

abbrev pub with_incoming : List Event → Client → Client
with_incoming es c = record c { stream = record c.stream { incoming = es } }

-- The loop of `recv_keepalive`: each time the timer runs out first, a PINGREQ.
unfoldable pub keepalive_loop : List Event → Action Client Packet
unfolding send recv
keepalive_loop [] c = waiting (with_incoming [] c)
keepalive_loop (elapsed ∷ es) c =
    and_then (send pingreq (with_incoming es c)) λ _. keepalive_loop es
keepalive_loop (e ∷ es) c = recv (with_incoming (e ∷ es) c)

unfoldable pub recv_keepalive : Action Client Packet
unfolding keepalive_loop recv
recv_keepalive c = if c.keep_alive == 0 then recv c else keepalive_loop c.stream.incoming c

-- `wrapping_add(1)` on a `u16`, stepping over 0.
unfoldable pub step_packet_id : ℕ → ℕ
step_packet_id n = let next = (n + 1) % 65536 in if next == 0 then 1 else next

unfoldable pub next_packet_id : Action Client ℕ
unfolding step_packet_id
next_packet_id c =
    let id = step_packet_id c.next_packet_id in done id (record c { next_packet_id = id })

module _ (P : Protocol) where
  unfoldable pub close : Action Client (Unit {0})
  unfolding send
  close = send (disconnect P.success)
