-- ===== src/Transport.antt =====
-- Dialling (src/transport.rs): one TCP connection, wrapped as the flags say.
pub mod Ws
pub mod Laws
pub mod Tls
use pulsemq_cli.Base.{
  ℕ, suc, ◌+◌, Bool, true, false, ◌&&◌, Option, none, some, List, [], ◌∷◌, Bytes, if◌then◌else◌,
}
use pulsemq_cli.Mqtt.{io}
use pulsemq_cli.Error.{Error, mqtt}
use pulsemq_cli.Cli.{ConnectionArgs, port}
use pulsemq_cli.Host.{Host}
use pulsemq_cli.Network.{attempt}
use pulsemq_cli.Transport.Tls
use pulsemq_cli.Transport.Ws.Upgrade
use pulsemq_cli.Password.{warn_if_plaintext_password}
use pulsemq_cli.Io.{
  World, Outcome, Action, ◌>>=◌, ◌>>◌, and_then, return, raise, modify, done, failed, waiting,
}

-- Which transport an open connection has: the source's `Stream`.
pub data Stream : Type 0 where
  tcp tls ws wss : Stream

abbrev pub io_error : Bytes → Error
io_error e = mqtt (io e)

abbrev pub unless_io_error : Option Bytes → Action World (Unit {0})
unless_io_error none = return tt
unless_io_error (some e) = raise (mqtt (io e))

abbrev dialled : World → World
dialled w = record w { dials = w.dials + 1 }

-- The wrapping of the socket, TLS before WebSocket.
unfoldable pub wrap : Host → ConnectionArgs → Bool → Bool → Action World Stream
wrap host a true true = do Tls.wrap host a; Upgrade.wrap host a; return wss
wrap host a true false = do Tls.wrap host a; return tls
wrap host a false true = do Upgrade.wrap host a; return ws
wrap host a false false = return tcp

unfoldable pub connect : Host → ConnectionArgs → Action World Stream
unfolding wrap
connect host a = do
  modify (warn_if_plaintext_password host a)
  modify dialled
  attempt io_error (host.tcp_connect a.broker (port a))
  unless_io_error host.set_nodelay
  wrap host a a.tls a.websocket
