-- ===== src/Main.antt =====
-- The entry point (src/main.rs, and `Cli` and `Command` of src/cli.rs): the choice of the subcommand
-- and the exit code. The runtime that a subcommand is run on is not modelled.
pub mod Exit
pub mod Success
use pulsemq_cli.Base.{ℕ, ◌∷◌, ◌++◌, Bytes, text}
use pulsemq_cli.Mqtt.{Protocol}
use pulsemq_cli.Error.{Error, fmt}
use pulsemq_cli.Cli.{PubArgs, SubArgs, RequestArgs, BenchArgs}
use pulsemq_cli.Host.{Host}
use pulsemq_cli.Io.{World, Outcome, done, failed, waiting, panicked, stuck, Action}
use pulsemq_cli.Publish
use pulsemq_cli.Subscribe
use pulsemq_cli.Request
use pulsemq_cli.Bench.Float.{Float}
use pulsemq_cli.Bench.Report.Value.{Json}
use pulsemq_cli.Bench.Run
use pulsemq_cli.Bench.Run.{Tasks}

pub data Command (F : Type 0) : Type 0 where
  command_pub : PubArgs → Command F
  command_sub : SubArgs → Command F
  command_request : RequestArgs → Command F
  command_bench : BenchArgs F → Command F

pub record Cli (F : Type 0) : Type 0 where
  pub command : Command F

pub data ExitCode : Type 0 where
  success failure : ExitCode

-- What the process runs on: its machine, the protocol crate, floating point, JSON printing, and, for
-- `bench`, what the spawned tasks come to.
pub record Platform (F : Type 0) : Type 0 where
  pub host : Host
  pub protocol : Protocol
  pub float : Float F
  pub to_string_pretty : Json F → Bytes
  pub tasks : Tasks

module _ {F : Type 0} (k : Platform F) where
  pub run_command : Command F → Action World (Unit {0})
  run_command (command_pub args) = Publish.run k.protocol k.host args
  run_command (command_sub args) = Subscribe.run k.protocol k.host args
  run_command (command_request args) = Request.run k.protocol k.host args
  run_command (command_bench args) = Run.run k.float k.protocol k.to_string_pretty k.tasks args

  abbrev pub complain : Error → World → World
  complain e w = record w {
    warnings =
        (text "wispmq-cli: " ++ fmt k.protocol.debug_code k.protocol.display_error e) ∷ w.warnings;
  }

  pub exit_with : Outcome World (Unit {0}) → Outcome World ExitCode
  exit_with (done u w) = done success w
  exit_with (failed e w) = done failure (complain e w)
  exit_with (waiting w) = waiting w
  exit_with panicked = panicked
  exit_with stuck = stuck

  unfoldable pub main : Cli F → Action World ExitCode
  unfolding run_command exit_with
  main cli w = exit_with (run_command cli.command w)
