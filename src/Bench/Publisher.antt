-- ===== src/Bench/Publisher.antt =====
-- A publishing connection (src/bench/publisher.rs): the write side, which sends within a window, and
-- the ack side, which matches acknowledgements, over the state that they share.
pub mod Steps
pub mod Window
pub mod Collision
pub mod Runs
pub mod InOrder
pub mod Opening
pub mod AckSide
pub mod Tail
pub mod Writes
pub mod Released
use pulsemq_cli.Base.{
  ℕ, zero, suc, ◌+◌, ◌-◌, ◌*◌, ◌%◌, ◌^◌, min, Bool, true, false, not, ◌&&◌, Option, none, some,
  List, [], ◌∷◌, ◌++◌, Bytes, text, length, ltb, leb, ◌==◌, if◌then◌else◌, is_some, decimal,
}
use pulsemq_cli.Mqtt.{
  QoS, at_most_once, at_least_once, exactly_once, ReasonCode, Protocol, Packet, Publish, PubAck,
  publish, puback, pubrec, pubrel, pubcomp,
}
use pulsemq_cli.Error.{Error, usage, Result, ok, err}
use pulsemq_cli.Io.{
  World, Outcome, done, failed, waiting, panicked, stuck, Action, ◌>>=◌, ◌>>◌, and_then, return,
  write_packet, Next, again, finish,
}
use pulsemq_cli.Client.{step_packet_id}
use pulsemq_cli.Subscribe.{pub_ack}
use pulsemq_cli.Bench.Payload.{build}
use pulsemq_cli.Bench.Config.{Config, quota_for, topic_for, effective_inflight}
use pulsemq_cli.Bench.Stats.{Samples, samples_new, record_sample, Counters, record_refusal}

-- Send times, in nanoseconds, by packet identifier.
abbrev pub InFlight : Type 0
InFlight = List (ℕ × ℕ)

abbrev pub lookup : ℕ → InFlight → Option ℕ
lookup id [] = none
lookup id ((i, t) ∷ rest) = if id == i then some t else lookup id rest

abbrev pub remove : ℕ → InFlight → InFlight
remove id [] = []
remove id ((i, t) ∷ rest) = let more = remove id rest in if id == i then more else (i, t) ∷ more

-- `HashMap::insert`, which replaces.
abbrev pub insert_at : ℕ → ℕ → InFlight → InFlight
insert_at id now m = (id, now) ∷ remove id m

-- `permits` and `closed` are the semaphore, `pubrels` the channel from the ack side. `stream` holds
-- what was written; its events are those of the ack side's reads.
pub record Publisher : Type 0 where
  pub stream : World
  pub next_packet_id : ℕ
  pub sent : ℕ
  pub permits : ℕ
  pub closed : Bool
  pub in_flight : InFlight
  pub pubrels : List ℕ
  pub counters : Counters
  pub samples : Samples
  pub window_closed : Bool

-- `fetch_add` on an AtomicU64.
abbrev pub add64 : ℕ → ℕ → ℕ
add64 a b = (a + b) % 2 ^ 64

abbrev pub window_for : ℕ → Option ℕ → ℕ
window_for requested receive_maximum = min (effective_inflight requested receive_maximum) 65535

abbrev pub start : World → ℕ → Counters → Publisher
start w window counters = record {
  stream = w;
  next_packet_id = 0;
  sent = 0;
  permits = window;
  closed = false;
  in_flight = [];
  pubrels = [];
  counters = counters;
  samples = samples_new;
  window_closed = false;
}

module _ (P : Protocol) where
  -- The part of `complete_ack` for an identifier that was in flight since `sent`.
  abbrev settle : Bool → ℕ → ℕ → ℕ → Publisher → Publisher
  settle is_error sent warmup_until now s = record s {
    permits = s.permits + 1;
    counters =
        if is_error
        then s.counters
        else record s.counters { acknowledged = add64 s.counters.acknowledged 1 };
    samples =
        if not is_error && leb warmup_until sent
        then record_sample ((now - sent) % 2 ^ 64) s.samples
        else s.samples;
  }

  abbrev count_if_refused : ReasonCode → Publisher → Publisher
  count_if_refused code s = record s {
    counters = if P.is_error code then record_refusal code s.counters else s.counters;
  }

  abbrev settle_if : Option ℕ → Bool → ℕ → ℕ → Publisher → Publisher
  settle_if none is_error warmup_until now s = s
  settle_if (some sent) is_error warmup_until now s = settle is_error sent warmup_until now s

  pub complete_ack : ℕ → ℕ → ℕ → ReasonCode → Publisher → Publisher
  complete_ack warmup_until now id code s =
      settle_if (lookup id s.in_flight) (P.is_error code) warmup_until now
        (record (count_if_refused code s) { in_flight = remove id s.in_flight })

  -- The ack side's `match`.
  pub on_packet : ℕ → ℕ → Packet → Publisher → Publisher
  unfolding complete_ack
  on_packet warmup_until now (puback a) s =
      complete_ack warmup_until now a.packet_id a.reason_code s
  on_packet warmup_until now (pubrec a) s =
      if P.is_error a.reason_code
      then complete_ack warmup_until now a.packet_id a.reason_code s
      else record s { pubrels = s.pubrels ++ (a.packet_id ∷ []) }
  on_packet warmup_until now (pubcomp a) s =
      complete_ack warmup_until now a.packet_id a.reason_code s
  on_packet warmup_until now _ s = s

  -- The end of the ack side.
  abbrev pub close_window : Publisher → Publisher
  close_window s = record s { closed = true }

  pub write_then : Publisher → Outcome World (Unit {0}) → Outcome Publisher (Unit {0})
  write_then s (done u w) = done tt (record s { stream = w })
  write_then s (failed e w) = failed e (record s { stream = w })
  write_then s (waiting w) = waiting (record s { stream = w })
  write_then s panicked = panicked
  write_then s stuck = stuck

  -- A PUBREL for each identifier in the channel; one that was taken off is gone even if its write fails.
  unfoldable pub drain_loop : List ℕ → Action Publisher (Unit {0})
  unfolding write_then
  drain_loop [] s = done tt (record s { pubrels = [] })
  drain_loop (id ∷ ids) s =
      and_then
        (write_then (record s { pubrels = ids }) (write_packet (pubrel (pub_ack P id)) s.stream))
        (λ _. drain_loop ids)

  unfoldable pub drain_pubrels : Action Publisher (Unit {0})
  unfolding drain_loop
  drain_pubrels s = drain_loop s.pubrels s

-- What `acquire_owned` gives.
pub data Permit : Type 0 where
  acquired : Publisher → Permit
  refused : Permit
  blocked : Permit

abbrev take_permit : ℕ → Publisher → Permit
take_permit zero s = blocked
take_permit (suc n) s = acquired (record s { permits = n })

unfoldable pub acquire : QoS → Publisher → Permit
acquire at_most_once s = acquired s
acquire _ s = if s.closed then refused else take_permit s.permits s

-- What an iteration meets: the stop signal at its start, during the pacing sleep or while it waits for
-- a permit, and the time when it sends.
pub record Turn : Type 0 where
  pub stop_first : Bool
  pub stop_pacing : Bool
  pub stop_waiting : Bool
  pub now : ℕ

module _ {F : Type 0} (c : Config F) (index baseline : ℕ) where
  abbrev body : ℕ → Publisher → Bytes
  body now s =
      build c.payload_size (record {
        elapsed_ns = (now - baseline) % 2 ^ 64;
        publisher = index;
        seq = s.sent % 2 ^ 32;
      })

  abbrev message : Option ℕ → Bytes → Protocol → Packet
  message packet_id payload P = publish (record {
    dup = false;
    qos = c.qos;
    retain = false;
    topic = topic_for c index;
    packet_id = packet_id;
    properties = P.properties_new;
    payload = payload;
  })

  -- After the write: the counters and the end of the iteration.
  abbrev written : ℕ → Publisher → World → Publisher
  written bytes s w = record s {
    stream = w;
    sent = add64 s.sent 1;
    counters = record s.counters {
      published = add64 s.counters.published 1;
      bytes_sent = add64 s.counters.bytes_sent bytes;
    };
  }

  -- A write that failed: the identifier is no longer in flight, and a permit that was taken is back.
  abbrev unwritten : Option ℕ → Publisher → World → Publisher
  unwritten none s w = record s {
    stream = w;
    counters = record s.counters { publish_errors = add64 s.counters.publish_errors 1 };
  }
  unwritten (some id) s w = record s {
    stream = w;
    counters = record s.counters { publish_errors = add64 s.counters.publish_errors 1 };
    in_flight = remove id s.in_flight;
    permits = s.permits + 1;
  }

  unfoldable pub after_write :
      Option ℕ → ℕ → Publisher → Outcome World (Unit {0}) → Outcome Publisher (Unit {0})
  after_write packet_id bytes s (done u w) = done tt (written bytes s w)
  after_write packet_id bytes s (failed e w) = failed e (unwritten packet_id s w)
  after_write packet_id bytes s (waiting w) = waiting (record s { stream = w })
  after_write packet_id bytes s panicked = panicked
  after_write packet_id bytes s stuck = stuck

  unfoldable pub write_publish : Protocol → Option ℕ → Bytes → Action Publisher (Unit {0})
  unfolding after_write
  write_publish P packet_id payload s =
      after_write packet_id (length payload) s (write_packet (message packet_id payload P) s.stream)

  -- From the packet identifier to the end of the iteration, with a permit where one is needed.
  unfoldable pub send_next : Protocol → QoS → ℕ → Action Publisher (Unit {0})
  unfolding write_publish
  send_next P at_most_once now s = write_publish P none (body now s) s
  send_next P _ now s =
      let id = step_packet_id s.next_packet_id in
      write_publish P (some id) (body now s)
        (record s { next_packet_id = id; in_flight = insert_at id now s.in_flight })

  abbrev reached : Option ℕ → ℕ → Bool
  reached none sent = false
  reached (some q) sent = leb q sent

  unfoldable pub with_permit :
      Protocol → Turn → Permit → Action Publisher (Next (Unit {0}) (Unit {0}))
  unfolding send_next
  with_permit P turn (acquired s') s =
      and_then (send_next P c.qos turn.now s') λ _. return (again tt)
  with_permit P turn refused s = done (finish tt) (record s { window_closed = true })
  with_permit P turn blocked s = if turn.stop_waiting then done (finish tt) s else waiting s

  -- An iteration of the write side's loop.
  unfoldable pub send_round : Protocol → Turn → Action Publisher (Next (Unit {0}) (Unit {0}))
  unfolding drain_pubrels acquire with_permit
  send_round P turn s = and_then (drain_pubrels P s) λ _ s'.
      if reached (quota_for c index) s'.sent
      then done (finish tt) s'
      else if turn.stop_first
      then done (finish tt) s'
      else if is_some c.rate && turn.stop_pacing
      then done (finish tt) s'
      else with_permit P turn (acquire c.qos s') s'

-- How the ack task was joined.
pub data AckTask : Type 0 where
  joined : Option Bytes → AckTask
  ack_panicked : Bytes → AckTask
  timed_out : AckTask

abbrev blame : ℕ → Bytes → Result Samples
blame index why = err (usage (text "publisher " ++ (decimal index ++ why)))

-- The end of `run`. Read errors are their text.
pub verdict : ℕ → AckTask → Publisher → Result Samples
verdict index (joined (some e)) s = blame index (text ": the broker's reply stream failed: " ++ e)
verdict index (joined none) s =
    if s.window_closed
    then blame index (
        text ": the broker closed the connection after "
        ++ (decimal s.sent ++ text " message(s), before acknowledging the rest"))
    else ok s.samples
verdict index (ack_panicked e) s = blame index (text " ack task failed: " ++ e)
verdict index timed_out s = blame index (
    text
      ": acknowledgement task did not finish within the drain window; the broker likely never closed its half of the socket after DISCONNECT (3.14.4)")
