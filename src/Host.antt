-- ===== src/Host.antt =====
-- What the process asks of its machine, as parameters: environment, files, standard input, the
-- process id and clock behind a generated client id, TCP, and the crates for TLS and WebSocket. The left
-- side of a result is the text of the error.
use pulsemq_cli.Base.{ℕ, Option, List, Bytes, ◌⊎◌}
use pulsemq_cli.Network.{Attempt}
use pulsemq_cli.Rustls.{Rustls}

-- The request of a WebSocket upgrade.
pub record UpgradeRequest : Type 0 where
  pub uri : Bytes
  pub sub_protocol : Bytes

-- What the tools use of the crate tungstenite to open a WebSocket: the text of each error.
pub record Tungstenite : Type 0 where
  pub uri_error : Bytes → Option Bytes
  pub request_error : UpgradeRequest → Option Bytes
  pub upgrade : UpgradeRequest → Attempt

pub record Host : Type 0 where
  pub password_variable : Option Bytes
  pub read_file : Bytes → Bytes ⊎ Bytes
  pub file_mode : Bytes → Option ℕ
  pub stdin_all : Bytes ⊎ Bytes
  pub stdin_lines : List (Bytes ⊎ Bytes)
  pub pid : ℕ
  pub subsec_nanos : ℕ
  pub hex : ℕ → Bytes
  pub tcp_connect : Bytes → ℕ → Attempt
  pub set_nodelay : Option Bytes
  pub debug_text : Bytes → Bytes  -- `{:?}` of a text
  pub rustls : Rustls
  pub tungstenite : Tungstenite
