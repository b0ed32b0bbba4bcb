-- ===== src/Network.antt =====
-- What the process waits for on the network, as parameters: a TCP connection, a TLS handshake and a
-- WebSocket upgrade. There is no timeout on any of them.
use pulsemq_cli.Base.{Bytes}
use pulsemq_cli.Error.{Error}
use pulsemq_cli.Io.{World, Action, done, failed, waiting}

-- `unanswered`: the other side is silent, and the process waits.
pub data Attempt : Type 0 where
  succeeded : Attempt
  refused : Bytes → Attempt
  unanswered : Attempt

-- `….await.map_err(to_error)?`
abbrev pub attempt : (Bytes → Error) → Attempt → Action World (Unit {0})
attempt to_error succeeded w = done tt w
attempt to_error (refused e) w = failed (to_error e) w
attempt to_error unanswered w = waiting w
