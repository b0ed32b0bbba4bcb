-- ===== src/Bench/Publisher/Opening.antt =====
-- The start of a publisher (src/bench/publisher.rs: `run` up to its loop), and what it means for the
-- window.
use pulsemq_cli.Base.{ℕ, ◌≤◌, ◌<◌, some, length, max, text, ◌≡◌, refl}
use pulsemq_cli.Mqtt.{Protocol, IsLawful}
use pulsemq_cli.Cli.{ConnectionArgs, IsParsed}
use pulsemq_cli.Host.{Host}
use pulsemq_cli.Io.{World, Action, ◌>>=◌, done}
use pulsemq_cli.Io.Laws.{Ensures, and_then-Ensures}
use pulsemq_cli.Client.{Negotiated}
use pulsemq_cli.Bench.Config.{Config}
use pulsemq_cli.Bench.Stats.{Counters}
use pulsemq_cli.Bench.Connection.{bench_client_id, dial}
use pulsemq_cli.Bench.Connection.Laws.{Opened, dial-Opened}
use pulsemq_cli.Bench.Publisher.{Publisher, start, window_for}
use pulsemq_cli.Bench.Publisher.Steps.{Setting, Reachable}
use pulsemq_cli.Bench.Publisher.Window.{reachable-in_flight}

unfoldable pub open_publisher :
    {F : Type 0}
    → Protocol
    → Host
    → ConnectionArgs
    → Config F
    → ℕ
    → Counters
    → Action World Publisher
open_publisher P host conn c index counters = do
  negotiated ← dial P host conn (bench_client_id P host (text "-pub-") index conn.client_id)
  λ w. done (start w (window_for c.inflight negotiated.receive_maximum) counters) w

module _ (k : Setting) (host : Host) (conn : ConnectionArgs) (counters : Counters) where
  open k use {protocol, config, index}

  -- The connection was made, and from here on the messages in flight keep to the Receive Maximum
  -- of the CONNACK, whatever happens.
  abbrev pub Windowed : World → Publisher → World → Type 0
  Windowed w s w' =
      (n : Negotiated) × Opened protocol host conn
        (bench_client_id protocol host (text "-pub-") index conn.client_id) w n w'
      × (s.stream ≡ w')
      × ((d : Publisher)
          → Reachable k s d
          → (length d.in_flight ≤ max config.inflight 1)
            × (length d.in_flight ≤ 65535)
            × ((r : ℕ) → n.receive_maximum ≡ some r → 0 < r → length d.in_flight ≤ r))

  -- For parsed arguments the start of a publisher ends or waits, and when it succeeds it has made
  -- one connection that the broker accepted; from then on, however its two sides interleave, it
  -- never has more messages in flight than were asked for (or 1), than there are packet
  -- identifiers, or than a Receive Maximum of that CONNACK that is not 0.
  pub open_publisher-Windowed :
      IsLawful protocol
      → IsParsed conn
      → (w : World)
      → Ensures (Windowed w) (λ _. Unit) (open_publisher protocol host conn config index counters w)
  unfolding open_publisher
  open_publisher-Windowed L h w =
      and_then-Ensures
        (Opened protocol host conn
          (bench_client_id protocol host (text "-pub-") index conn.client_id) w)
        (λ _. Unit) (Windowed w)
        (dial protocol host conn (bench_client_id protocol host (text "-pub-") index conn.client_id)
          w)
        _ (dial-Opened protocol host conn L h _ w)
        (λ n u o. (
          n,
          o,
          refl,
          λ d r. reachable-in_flight k u counters config.inflight n.receive_maximum d r,
        ))
