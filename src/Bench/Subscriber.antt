-- ===== src/Bench/Subscriber.antt =====
-- A subscribing connection (src/bench/subscriber.rs): it subscribes, acknowledges what is delivered
-- and times it by the header in the payload.
pub mod Delivery
pub mod Session
pub mod Whole
use pulsemq_cli.Base.{
  ℕ, zero, suc, ◌+◌, ◌-◌, ◌%◌, ◌^◌, Bool, true, false, ◌&&◌, Option, none, some, List, [], ◌∷◌,
  ◌++◌, Bytes, text, length, leb, if◌then◌else◌, decimal,
}
use pulsemq_cli.Mqtt.{
  QoS, at_most_once, at_least_once, exactly_once, ReasonCode, Protocol, Packet, Publish, PubAck,
  publish, puback, pubrec, pubrel, pubcomp, subscribe, suback, disconnect, Subscribe,
}
use pulsemq_cli.Error.{Error, rejected, disconnected}
use pulsemq_cli.Io.{
  World, Outcome, done, failed, waiting, panicked, stuck, Action, ◌>>=◌, ◌>>◌, and_then, return,
  raise, ReadOutcome, packet, eof, read_packet, write_packet, Next, again, finish, loop,
}
use pulsemq_cli.Cli.{ConnectionArgs}
use pulsemq_cli.Host.{Host}
use pulsemq_cli.Bench.Connection.{bench_client_id, dial}
use pulsemq_cli.Subscribe.{topic_filter, pub_ack}
use pulsemq_cli.Bench.Payload.{Header, decode}
use pulsemq_cli.Bench.Config.{Config, subscribe_filter}
use pulsemq_cli.Bench.Stats.{Samples, samples_new, record_sample, Counters}
use pulsemq_cli.Bench.Publisher.{add64}

-- `seen` numbers the messages; `Instant::now()` at the k-th of them is given by the clock of the run.
pub record Subscriber : Type 0 where
  pub stream : World
  pub counters : Counters
  pub samples : Samples
  pub seen : ℕ

-- The times of a run, in nanoseconds. `instant_end` is the first time that an `Instant` cannot hold,
-- and `stop_comes` says whether the stop signal comes that is awaited at the end of the stream.
pub record Clock : Type 0 where
  pub baseline : ℕ
  pub warmup_until : ℕ
  pub instant_end : ℕ
  pub received_at : ℕ → ℕ
  pub stop_comes : Bool

pub on_stream_done : {A : Type 0} → Subscriber → Outcome World A → Outcome Subscriber A
on_stream_done s (done a w) = done a (record s { stream = w })
on_stream_done s (failed e w) = failed e (record s { stream = w })
on_stream_done s (waiting w) = waiting (record s { stream = w })
on_stream_done s panicked = panicked
on_stream_done s stuck = stuck

pub write : Packet → Action Subscriber (Unit {0})
unfolding on_stream_done
write p s = on_stream_done s (write_packet p s.stream)

-- `baseline.checked_add(…)`
abbrev pub checked_add : Clock → ℕ → Option ℕ
checked_add k elapsed_ns =
    if leb k.instant_end (k.baseline + elapsed_ns) then none else some (k.baseline + elapsed_ns)

abbrev pub record_since : Clock → ℕ → Option ℕ → Samples → Samples
record_since k received_at none samples = samples
record_since k received_at (some sent_at) samples =
    if leb k.warmup_until sent_at && leb sent_at received_at
    then record_sample ((received_at - sent_at) % 2 ^ 64) samples
    else samples

abbrev pub record_latency : Clock → ℕ → Option Header → Samples → Samples
record_latency k received_at none samples = samples
record_latency k received_at (some header) samples =
    record_since k received_at (checked_add k header.elapsed_ns) samples

-- A message is counted and timed.
abbrev pub count_message : Clock → Publish → Subscriber → Subscriber
count_message k p s = record s {
  seen = s.seen + 1;
  counters = record s.counters {
    received = add64 s.counters.received 1;
    bytes_received = add64 s.counters.bytes_received (length p.payload);
  };
  samples = record_latency k (k.received_at s.seen) (decode p.payload) s.samples;
}

module _ (P : Protocol) where
  reply_to : QoS → ℕ → Action Subscriber (Unit {0})
  unfolding write
  reply_to at_most_once id = return tt
  reply_to at_least_once id = write (puback (pub_ack P id))
  reply_to exactly_once id = write (pubrec (pub_ack P id))

  pub acknowledge_message : Publish → Action Subscriber (Unit {0})
  unfolding reply_to
  acknowledge_message p = elim p.packet_id [ none ↦ return tt | some id ↦ reply_to p.qos id ]

  -- `t` counts down to the stop signal.
  pub on_delivery : Clock → ℕ → ℕ → ReadOutcome → Action Subscriber (Next ℕ (Unit {0}))
  unfolding acknowledge_message write
  on_delivery k index t (packet (publish p)) s =
      and_then (acknowledge_message p (count_message k p s)) λ _. return (again t)
  on_delivery k index t (packet (pubrel rel)) s =
      and_then (write (pubcomp (pub_ack P rel.packet_id)) s) λ _. return (again t)
  on_delivery k index t (packet (disconnect code)) s =
      failed (rejected (text "subscriber " ++ decimal index) code) s
  on_delivery k index t (packet p) s = done (again t) s
  on_delivery k index t eof s = if k.stop_comes then done (finish tt) s else waiting s

  pub delivery_round : Clock → ℕ → ℕ → Action Subscriber (Next ℕ (Unit {0}))
  unfolding on_delivery on_stream_done
  delivery_round k index zero s = done (finish tt) s
  delivery_round k index (suc t) s =
      and_then (on_stream_done s (read_packet s.stream)) λ o. on_delivery k index t o

  -- The receive loop, stopped before read number `stop`.
  pub deliver_loop : Clock → ℕ → ℕ → Action Subscriber (Unit {0})
  unfolding delivery_round loop
  deliver_loop k index stop s =
      loop (suc (suc (length s.stream.incoming))) (delivery_round k index) stop s

  -- `ack.reason_codes.iter().find(|c| c.is_error())`
  pub find_error : List ReasonCode → Option ReasonCode
  find_error [] = none
  find_error (code ∷ codes) = if P.is_error code then some code else find_error codes

  abbrev pub accept : ℕ → Option ReasonCode → Action World (Next (Unit {0}) (Unit {0}))
  accept index none = return (finish tt)
  accept index (some code) =
      raise (rejected (text "subscription for subscriber " ++ decimal index) code)

  on_suback : ℕ → ReadOutcome → Action World (Next (Unit {0}) (Unit {0}))
  unfolding find_error
  on_suback index (packet (suback a)) = accept index (find_error a.reason_codes)
  on_suback index (packet p) = return (again tt)
  on_suback index eof = raise (disconnected (text "while subscribing"))

  -- SUBSCRIBE and the wait for its SUBACK.
  pub bench_subscribe : {F : Type 0} → Config F → ℕ → Action World (Unit {0})
  unfolding on_suback loop
  bench_subscribe c index w =
      and_then
        (write_packet
          (subscribe (record {
            packet_id = 1;
            properties = P.properties_new;
            filters = topic_filter c.qos (subscribe_filter c) ∷ [];
          }))
          w)
        λ _ w'. loop (suc (length w'.incoming)) (λ _. read_packet >>= on_suback index) tt w'

  -- The end of the task: its samples and what it has counted.
  unfoldable pub measured : Outcome Subscriber (Unit {0}) → Outcome World (Samples × Counters)
  measured (done u s) = done (s.samples, s.counters) s.stream
  measured (failed e s) = failed e s.stream
  measured (waiting s) = waiting s.stream
  measured panicked = panicked
  measured stuck = stuck

  abbrev pub start : Counters → World → Subscriber
  start counters w = record { stream = w; counters = counters; samples = samples_new; seen = 0 }

  -- The whole task, with the counters as they are when it starts.
  unfoldable pub run :
      {F : Type 0}
      → Host
      → ConnectionArgs
      → Config F
      → Clock
      → ℕ
      → ℕ
      → Counters
      → Action World (Samples × Counters)
  run host conn c k index stop counters = do
    _negotiated ← dial P host conn (bench_client_id P host (text "-sub-") index conn.client_id)
    bench_subscribe c index
    λ w. measured (deliver_loop k index stop (start counters w))
