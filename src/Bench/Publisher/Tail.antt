-- ===== src/Bench/Publisher/Tail.antt =====
-- The end of a publisher (src/bench/publisher.rs: `run` after its loop): the wait for outstanding
-- acknowledgements, the DISCONNECT, and the verdict.
use pulsemq_cli.Base.{ℕ, Bool, true, false, List, [], ◌∷◌, if◌then◌else◌}
use pulsemq_cli.Mqtt.{Protocol, Packet, disconnect}
use pulsemq_cli.Error.{Result}
use pulsemq_cli.Io.{
  Outcome, done, failed, waiting, panicked, stuck, Action, and_then, write_packet, lift_result,
}
use pulsemq_cli.Bench.Stats.{Samples}
use pulsemq_cli.Bench.Publisher.{
  InFlight, Publisher, on_packet, drain_pubrels, write_then, AckTask, verdict,
}

-- What the ack side reads during one sleep of ten milliseconds, with the times.
abbrev pub Lull : Type 0
Lull = List (ℕ × Packet)

abbrev pub none_in_flight : InFlight → Bool
none_in_flight [] = true
none_in_flight (e ∷ rest) = false

module _ (P : Protocol) (warmup_until : ℕ) where
  -- `let _ = …`
  unfoldable pub ignoring : Outcome Publisher (Unit {0}) → Outcome Publisher (Unit {0})
  ignoring (done u s) = done tt s
  ignoring (failed e s) = done tt s
  ignoring (waiting s) = waiting s
  ignoring panicked = panicked
  ignoring stuck = stuck

  unfoldable pub during : Lull → Publisher → Publisher
  during [] s = s
  during ((now, p) ∷ reads) s = during reads (on_packet P warmup_until now p s)

  -- The list has a lull for each sleep until the five seconds are over.
  unfoldable pub wait_loop : List Lull → Action Publisher (Unit {0})
  wait_loop [] s = done tt s
  wait_loop (lull ∷ lulls) s =
      let rest = and_then (ignoring (drain_pubrels P s)) λ _ s'. wait_loop lulls (during lull s') in
      if none_in_flight s.in_flight then done tt s else rest

  unfoldable pub settle_down : List Lull → Action Publisher (Unit {0})
  settle_down lulls s =
      if s.window_closed
      then done tt s
      else and_then (wait_loop lulls s) λ _ s'. ignoring (drain_pubrels P s')

  unfoldable pub wind_down : List Lull → Action Publisher (Unit {0})
  wind_down lulls s =
      and_then (settle_down lulls s)
        λ _ s'. ignoring (write_then P s' (write_packet (disconnect P.success) s'.stream))

  abbrev pub concluded : Publisher → Result Samples → Outcome Publisher Samples
  concluded s r = lift_result r s

  -- To the end of the task, of which the ack task is joined last.
  unfoldable pub conclude : ℕ → AckTask → List Lull → Action Publisher Samples
  unfolding wind_down verdict
  conclude index ack lulls s =
      and_then (wind_down lulls s) λ _ s'. concluded s' (verdict index ack s')
