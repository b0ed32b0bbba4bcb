-- ===== src/Lib.antt =====
-- wispmq-cli: the MQTT command-line tools `pub`, `sub`, `request` and `bench`.
--
-- A command reads its arguments, dials the broker over TCP, TLS or WebSocket, exchanges CONNECT and
-- CONNACK, and then runs its own loop over packets. The files follow that order:
--   Base              shared names; numbers, lists, options, bytes and text
--   Mqtt              the packets of the crate wispmq_protocol, and what the tools use of it
--   Error             src/error.rs
--   Cli               src/cli.rs: the argument structs and their methods
--   Network           what is awaited on the network: an attempt succeeds, is refused, or is unanswered
--   Rustls            what src/transport/tls.rs uses of the crates for TLS
--   Host              the machine: environment, files, standard input, TCP, the crates for TLS and
--                     WebSocket
--   Password          src/cli.rs: the password's sources and the warnings about it
--   Io                a session as the process sees it, with loops and their rules
--   Transport         src/transport.rs: `connect`
--   Transport.Tls     src/transport/tls.rs: the TLS configuration
--   Transport.Ws      src/transport/ws.rs: the upgrade, and a byte stream over WebSocket messages
--   Client            src/client.rs: handshake, receive with keep-alive, packet identifiers
--   Subscribe         src/subscribe.rs, its output in Subscribe.Output
--   Publish           src/publish.rs
--   Request           src/request.rs
--   Bench.Payload     src/bench/payload.rs: the measurement header
--   Bench.Config      src/bench/mod.rs and src/bench/schedule.rs: quotas, window, rate, results
--   Bench.Stats       src/bench/stats.rs: samples, counters, the verdict
--   Bench.Report      src/bench/stats.rs: the report, as a table and as JSON
--   Bench.Run         src/bench/mod.rs: `run`, its course in Bench.Run.Course, and from the ends of its
--                     tasks to the exit
--   Bench.Connection  how a connection of the benchmark starts
--   Bench.Publisher   src/bench/publisher.rs: the start, the write side, the ack side and the end
--   Bench.Subscriber  src/bench/subscriber.rs
--   Main              src/main.rs: the subcommands and the exit code
--   Tests             the theorems at concrete inputs
-- Each part has its proofs in modules below it, named for what they prove.
--
-- Packets. Framing and encoding are those of the crate wispmq_protocol, which is not in this
-- repository. `Protocol` is a parameter with its functions, and the results of successive
-- `read_packet` calls are a list of events: a packet, the end of the stream, an error, or the
-- keep-alive timer running out first. That list and the outcome of every write are arbitrary. When
-- the list ends, the process waits. The timer runs out between packets only; what happens to a
-- packet of which a part has been read is not modelled.
--
-- Text is its bytes. Where the source formats a value of another crate, the text is a parameter.
-- Machine integers are naturals, with the wrap of `wrapping_add` written out.
--
-- Loops run on fuel, one more than the number of events, and each round takes an event off; the
-- theorems on the loops show that the fuel suffices, as their outcome is never `stuck`.
--
-- Benchmark. Bench.Connection is how both kinds of connection start. A publisher is two tasks over
-- shared state: its steps (Bench.Publisher.Steps) are a read of the ack side, its end, and an
-- iteration of the write side (`send_round`), each of which runs without the other between two
-- awaits; an interleaving is a sequence of steps. The whole run is a list of happenings in any order:
-- time passes, a connection ends, Ctrl-C or the deadline comes, `run` goes on (Bench.Run.Course). The
-- counters that all connections share are those of one connection. Times are naturals in
-- nanoseconds, and the clock is given. `f64` is a parameter (Bench.Float), of which the quantiles use that products and
-- `ceil` are monotone. A subscriber is stopped before a read whose number is given.
--
-- TLS. A certificate and a key are their bytes, a root store is the list of its certificates. What
-- PEM parsing gives for a file, which certificates rustls takes, and the outcome of the TLS and
-- WebSocket handshakes, which may never come, are parameters.
--
-- The whole process is `main` over a `Platform`. For `bench` that holds how and whether the spawned
-- tasks end (`Tasks`), of which a publisher's parts and a subscriber's `run` are modelled by
-- themselves, the clock's bound, and whether standard output takes the report. An iteration of a
-- publisher's write side is one step, although it awaits within it: what the ack side does meanwhile
-- stands before or after it.
--
-- Not modelled: the delegation of `Stream` to the stream it wraps, clap's parsing (its promises are the
-- hypothesis `IsParsed`), a standard error that cannot be written, the runtime, and real time.
pub mod Base
pub mod Mqtt
pub mod Error
pub mod Cli
pub mod Io
pub mod Network
pub mod Rustls
pub mod Host
pub mod Password
pub mod Transport
pub mod Client
pub mod Subscribe
pub mod Publish
pub mod Request
pub mod Bench
pub mod Main
mod Tests
