-- ===== src/Transport/Ws/Upgrade.antt =====
-- The WebSocket upgrade (src/transport/ws.rs: `wrap` and `WsByteStream::new`).
use pulsemq_cli.Base.{false, Option, none, some, List, [], ◌++◌, Bytes, text, decimal}
use pulsemq_cli.Error.{usage}
use pulsemq_cli.Cli.{ConnectionArgs, port}
use pulsemq_cli.Host.{Host, UpgradeRequest}
use pulsemq_cli.Network.{attempt}
use pulsemq_cli.Io.{World, Action, ◌>>◌, return, raise}
use pulsemq_cli.Transport.Ws.{WsByteStream, Poll, SinkPoll}

abbrev pub mqtt_subprotocol : Bytes
mqtt_subprotocol = text "mqtt"

abbrev pub ws_path : Bytes
ws_path = text "/mqtt"

abbrev pub request_uri : ConnectionArgs → Bytes
unfolding port
request_uri a = text "ws://" ++ (a.broker ++ (text ":" ++ (decimal (port a) ++ ws_path)))

abbrev pub upgrade_request : ConnectionArgs → UpgradeRequest
unfolding port
upgrade_request a = record { uri = request_uri a; sub_protocol = mqtt_subprotocol }

abbrev pub unless_usage : Bytes → Option Bytes → Action World (Unit {0})
unless_usage before none = return tt
unless_usage before (some e) = raise (usage (before ++ e))

unfoldable pub wrap : Host → ConnectionArgs → Action World (Unit {0})
unfolding port
wrap host a = do
  unless_usage (text "--broker " ++ (host.debug_text a.broker ++ text ": "))
      (host.tungstenite.uri_error (request_uri a))
  unless_usage (text "building the WebSocket Upgrade request: ")
      (host.tungstenite.request_error (upgrade_request a))
  attempt (λ e. usage (text "WebSocket Upgrade failed: " ++ e))
      (host.tungstenite.upgrade (upgrade_request a))

-- `WsByteStream::new`, over what the inner stream is going to answer.
abbrev pub ws_new : List Poll → List SinkPoll → List SinkPoll → List (Option Bytes) → WsByteStream
ws_new messages readies flushes starts = record {
  messages = messages;
  readies = readies;
  flushes = flushes;
  starts = starts;
  frames = [];
  read_buf = [];
  read_pos = 0;
  write_buf = [];
  sending = false;
}
