-- ===== src/Bench/Connection/Laws.antt =====
-- A connection of the benchmark that has come about.
use pulsemq_cli.Base.{Bytes, ◌≡◌}
use pulsemq_cli.Mqtt.{Protocol, IsLawful}
use pulsemq_cli.Cli
use pulsemq_cli.Cli.{ConnectionArgs, IsParsed}
use pulsemq_cli.Host.{Host}
use pulsemq_cli.Io.{World}
use pulsemq_cli.Io.Laws.{Ensures, and_then-Ensures, weaken-Ensures, lift_result-Ensures}
use pulsemq_cli.Transport
use pulsemq_cli.Transport.Laws.{Dialled, connect-Dialled, transport_of}
use pulsemq_cli.Client.{Negotiated, handshake, usage_error}
use pulsemq_cli.Client.Dial.{Shaken, handshake-Shaken}
use pulsemq_cli.Bench.Connection.{dial}

module _ (P : Protocol) (host : Host) (conn : ConnectionArgs) where
  -- One TCP connection was made, and CONNECT and CONNACK exchanged over it.
  abbrev pub Opened : Bytes → World → Negotiated → World → Type 0
  Opened client_id w n w' = (v : World) × Dialled w v × Shaken P host conn client_id v n w'

  pub dial-Opened :
      IsLawful P
      → IsParsed conn
      → (client_id : Bytes) (w : World)
      → Ensures (Opened client_id w) (λ _. Unit) (dial P host conn client_id w)
  unfolding dial
  dial-Opened L h client_id w =
      and_then-Ensures (λ s v. (s ≡ transport_of conn.tls conn.websocket) × Dialled w v) (λ _. Unit)
        (Opened client_id w) (Transport.connect host conn w) _
        (weaken-Ensures _ _ _ (λ _. Unit) (Transport.connect host conn w)
          (connect-Dialled host conn w) (λ s x d. d) (λ x y. tt))
        (λ s v d.
          and_then-Ensures (Shaken P host conn client_id v) (λ _. Unit) (Opened client_id w)
            (handshake P host conn client_id v) _ (handshake-Shaken P host conn L h client_id v)
            (λ n u k.
              lift_result-Ensures (Opened client_id w) (usage_error (Cli.max_packet_size conn)) _ u
                (λ m e. (v, d.1, k))))
