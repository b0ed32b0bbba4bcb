-- ===== src/Main/Exit.antt =====
-- What the exit code of the process says.
use pulsemq_cli.Base.{◌+◌, ◌<◌, false, List, arith, ◌≡◌, inl, inr, sym, subst}
use pulsemq_cli.Mqtt.{IsLawful}
use pulsemq_cli.Error.{Error, ok}
use pulsemq_cli.Cli.{IsParsed, BenchArgs}
use pulsemq_cli.Io.{World, Outcome, done, failed}
use pulsemq_cli.Io.Laws.{Ensures}
use pulsemq_cli.Publish.Session.{Published, run-Published}
use pulsemq_cli.Subscribe.Session.{Heard, run-Heard}
use pulsemq_cli.Request.Session.{Replied, run-Replied}
use pulsemq_cli.Bench.Config.{Config, Joined, from_args}
use pulsemq_cli.Bench.Run.Laws.{Ended, WentWell, run-Reported}
use pulsemq_cli.Bench.Run
use pulsemq_cli.Main.{
  Command, command_pub, command_sub, command_request, command_bench, Cli, ExitCode, success,
  failure, Platform, run_command, complain,
}

module _ {F : Type 0} (k : Platform F) where
  -- Where the end of the warm-up is a time that can be held and standard output takes a report.
  abbrev pub CanReport : BenchArgs F → Type 0
  CanReport args =
      ((c : Config F)
        → from_args k.float k.protocol args ≡ ok c
        → k.tasks.baseline + c.warmup < k.tasks.instant_end)
      × (k.tasks.stdout_refuses ≡ false)

  -- What clap promises of a command's connection, and what `bench` needs to report.
  abbrev pub IsCommand : Command F → Type 0
  IsCommand (command_pub args) = IsParsed args.conn
  IsCommand (command_sub args) = IsParsed args.conn
  IsCommand (command_request args) = IsParsed args.conn
  IsCommand (command_bench args) = CanReport args

  -- What each command has done where it succeeds.
  abbrev pub Accomplished : Command F → World → World → Type 0
  Accomplished (command_pub args) w w' = Published k.protocol k.host args w w'
  Accomplished (command_sub args) w w' = Heard k.protocol k.host args w w'
  Accomplished (command_request args) w w' = Replied k.protocol args k.host w w'
  Accomplished (command_bench args) w w' =
      (c : Config F) × (publishers : List Joined) × (subscribers : List Joined) × (from_args k.float
          k.protocol args
        ≡ ok c)
      × Ended k.float k.protocol k.to_string_pretty c k.tasks publishers subscribers
      × WentWell k.float k.protocol k.to_string_pretty k.tasks publishers subscribers

  bench_Accomplished :
      (args : BenchArgs F) (w : World)
      → CanReport args
      → Ensures
          (λ _ w'. Accomplished (command_bench args) w w')
          (λ _. Unit)
          (Run.run k.float k.protocol k.to_string_pretty k.tasks args w)
  bench_Accomplished args w can =
      let Q : Outcome World (Unit {0}) → Type 0 =
        Ensures (λ _ w'. Accomplished (command_bench args) w w') (λ _. Unit) in
      elim (run-Reported k.float k.protocol k.to_string_pretty k.tasks args w) [
        | inl (e, h, o) ↦ subst Q (sym o) tt
        | inr (c, h, inl (l, o)) ↦ absurd (omega (arith, l, can.0 c h))
        | inr (c, h, inr (l, inl (e, o))) ↦ subst Q (sym o) tt
        | inr (c, h, inr (l, inr (inl (r, o)))) ↦ absurd (cc (r, can.1))
        | inr (c, h, inr (l, inr (inr (r, (js, ks, ends, inl (g, o)))))) ↦
            subst Q (sym o) (c, js, ks, h, ends, g)
        | inr (c, h, inr (l, inr (inr (r, (js, ks, ends, inr (g, o)))))) ↦ subst Q (sym o) tt
      ]

  pub run_command-Accomplished :
      (c : Command F) (w : World)
      → IsLawful k.protocol
      → IsCommand c
      → Ensures (λ _ w'. Accomplished c w w') (λ _. Unit) (run_command k c w)
  unfolding run_command
  run_command-Accomplished (command_pub args) w L h = run-Published k.protocol k.host args L h w
  run_command-Accomplished (command_sub args) w L h = run-Heard k.protocol k.host args L h w
  run_command-Accomplished (command_request args) w L h = run-Replied k.protocol args k.host L h w
  run_command-Accomplished (command_bench args) w L h = bench_Accomplished args w h

  -- The exit code is 0 exactly where the command succeeded, and else standard error says why.
  abbrev pub Exits : Command F → World → ExitCode → World → Type 0
  Exits c w success w' = Accomplished c w w' × (run_command k c w ≡ done tt w')
  Exits c w failure w' =
      (e : Error) × (v : World) × (run_command k c w ≡ failed e v) × (w' ≡ complain k e v)
