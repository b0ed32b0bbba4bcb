-- ===== src/Tests/Courses.antt =====
-- Runs of the benchmark as a whole.
use pulsemq_cli.Base.{false, [], ◌∷◌, List, ◌≡◌, refl}
use pulsemq_cli.Error.{ok}
use pulsemq_cli.Bench.Config.{Joined, returned}
use pulsemq_cli.Bench.Stats.{samples_new}
use pulsemq_cli.Bench.Run.Course.{
  reporting, Happening, passes, subscriber_ends, publisher_ends, ctrl_c, expires, continues, begin,
  course, subscriber_settle,
}
use pulsemq_cli.Bench.Run.Course.Orderly.{KeepsOrder, signalled, course-KeepsOrder}
use pulsemq_cli.Tests.Benchmark.{run_config}

abbrev returning : Joined
returning = returned (ok samples_new)

-- The publishers are started after the settling time, are interrupted, and end; the rest is drained.
abbrev interrupted : List Happening
interrupted =
    continues
    ∷ passes subscriber_settle
    ∷ continues
    ∷ passes 5000
    ∷ expires
    ∷ ctrl_c
    ∷ publisher_ends 1 returning
    ∷ publisher_ends 0 returning
    ∷ continues
    ∷ publisher_ends 2 returning
    ∷ continues
    ∷ passes 2000000000
    ∷ continues
    ∷ subscriber_ends 0 returning
    ∷ continues
    ∷ []

course-KeepsOrder_example :
    KeepsOrder run_config 7
      (signalled false interrupted)
      (course run_config interrupted (begin run_config 7))
course-KeepsOrder_example = course-KeepsOrder run_config 7 interrupted

-- It comes to its report.
interrupted_phase : (course run_config interrupted (begin run_config 7)).phase ≡ reporting
unfolding course
interrupted_phase = refl
