-- ===== src/Bench/Connection.antt =====
-- How a connection of the benchmark comes about (the starts of `run` in src/bench/publisher.rs and
-- src/bench/subscriber.rs).
pub mod Laws
use pulsemq_cli.Base.{ℕ, Option, none, some, List, ◌++◌, Bytes, text, decimal}
use pulsemq_cli.Mqtt.{Protocol}
use pulsemq_cli.Cli
use pulsemq_cli.Cli.{ConnectionArgs}
use pulsemq_cli.Host.{Host}
use pulsemq_cli.Io.{World, Outcome, Action, ◌>>=◌, and_then, done, failed, return, lift_result}
use pulsemq_cli.Transport
use pulsemq_cli.Client.{Negotiated, handshake, generated_client_id, usage_error}

module _ (P : Protocol) (host : Host) where
  -- `role` is `-pub-` or `-sub-`.
  unfoldable pub bench_client_id : Bytes → ℕ → Option Bytes → Bytes
  bench_client_id role index (some id) = id ++ (role ++ decimal index)
  bench_client_id role index none = generated_client_id P host ++ (role ++ decimal index)

  unfoldable pub dial : ConnectionArgs → Bytes → Action World Negotiated
  dial conn client_id = do
    _stream ← Transport.connect host conn
    negotiated ← handshake P host conn client_id
    _max ← lift_result (usage_error (Cli.max_packet_size conn))
    return negotiated
