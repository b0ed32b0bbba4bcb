-- ===== src/Bench/Publisher/Collision.antt =====
-- What the window does not prevent: two messages in flight under one identifier.
use pulsemq_cli.Base.{
  ℕ, zero, suc, ◌+◌, ◌≤◌, ◌<◌, true, false, none, [], ◌∷◌, length, ◌==◌, ◌≡◌, refl, sym, subst,
  arith,
}
use pulsemq_cli.Mqtt.{Protocol, IsLawful, at_least_once, puback}
use pulsemq_cli.Io.{World, Outcome, Next, write_packet}
use pulsemq_cli.Client.{step_packet_id}
use pulsemq_cli.Subscribe.{pub_ack}
use pulsemq_cli.Bench.Config.{Config, quota_for}
use pulsemq_cli.Bench.Config
use pulsemq_cli.Bench.Stats.{Counters}
use pulsemq_cli.Bench.Publisher.{
  Publisher, start, complete_ack, on_packet, drain_loop, drain_pubrels, acquire, Turn, after_write,
  write_publish, send_next, with_permit, send_round,
}
use pulsemq_cli.Bench.Publisher.Steps.{Setting, Leaves, read, turned, Reachable, here, later}

-- A QoS 1 run without a count and without a rate.
abbrev unlimited : (F : Type 0) → Config F
unlimited F = record {
  publishers = 1;
  subscribers = 0;
  topic_prefix = [];
  qos = at_least_once;
  payload_size = 16;
  stop = Config.duration 60;
  rate = none;
  inflight = 100;
  warmup = 0;
  drain = 0;
  json = false;
}

abbrev pub setting : Protocol → Setting
setting P = record {
  F = ℕ;
  protocol = P;
  config = unlimited ℕ;
  index = 0;
  baseline = 0;
  warmup_until = 0;
}

abbrev go : Turn
go = record { stop_first = false; stop_pacing = false; stop_waiting = false; now = 0 }

abbrev pub never_faulty : World → World
never_faulty w = record w { fault = λ _. none }

module _ (P : Protocol) (L : IsLawful P) (m : ℕ) where
  -- The first message is not acknowledged; the count stands at `n + 1`.
  abbrev held : ℕ → Publisher → Publisher
  held n s = record s {
    stream = never_faulty s.stream;
    next_packet_id = n + 1;
    permits = suc m;
    closed = false;
    in_flight = (1, 0) ∷ [];
    pubrels = [];
  }

  step_packet_id-below : (n : ℕ) → n + 2 ≤ 65535 → step_packet_id (n + 1) ≡ n + 1 + 1
  unfolding step_packet_id
  step_packet_id-below n h = ground arith

  same_id : (n : ℕ) → (n + 1 + 1 == n + 1 + 1) ≡ true
  same_id n = ground arith

  other_id : (n : ℕ) → (n + 1 + 1 == 1) ≡ false
  other_id n = ground arith

  abbrev send : Publisher → Outcome Publisher (Next (Unit {0}) (Unit {0}))
  send = send_round (unlimited ℕ) 0 0 P go

  -- The message that is sent next.
  moved :
      (n : ℕ) (s : Publisher)
      → n + 2 ≤ 65535
      → (b : Publisher) × Leaves (send (held n s)) b
        × (b ≡ record b {
          stream = never_faulty b.stream;
          next_packet_id = n + 1 + 1;
          permits = m;
          closed = false;
          in_flight = (n + 1 + 1, 0) ∷ (1, 0) ∷ [];
          pubrels = [];
        })
  unfolding send_round drain_pubrels drain_loop acquire with_permit send_next write_publish
      after_write write_packet quota_for
  moved n s h = rw (step_packet_id-below n h, other_id n) (_, refl, refl)

  abbrev two_held : ℕ → Publisher → Publisher
  two_held n b = record b {
    stream = never_faulty b.stream;
    next_packet_id = n + 1 + 1;
    permits = m;
    closed = false;
    in_flight = (n + 1 + 1, 0) ∷ (1, 0) ∷ [];
    pubrels = [];
  }

  -- Its acknowledgement.
  settled :
      (n : ℕ) (b : Publisher)
      → (s : Publisher) × (on_packet P 0 0 (puback (pub_ack P (n + 1 + 1))) (two_held n b)
          ≡ held (n + 1) s)
  unfolding on_packet complete_ack
  settled n b =
      let e : m + 1 ≡ suc m = omega arith in
      (
        on_packet P 0 0 (puback (pub_ack P (n + 1 + 1))) (two_held n b),
        rw (same_id n, other_id n, L.success_lem, e) refl,
      )

  cycle :
      (n : ℕ) (s a : Publisher)
      → n + 2 ≤ 65535
      → Reachable (setting P) a (held n s)
      → (s' : Publisher) × Reachable (setting P) a (held (n + 1) s')
  cycle n s a h r =
      let (b, left, shape) = moved n s h in
      let (s', back) = settled n b in
      let sent : Reachable (setting P) a (two_held n b) =
        subst (Reachable (setting P) a) shape (later (held n s) b r (turned go b left)) in
      (
        s',
        subst (Reachable (setting P) a) back
            (later (two_held n b) _ sent (read 0 (puback (pub_ack P (n + 1 + 1))))),
      )

  cycles :
      (n : ℕ) (s a : Publisher)
      → n ≤ 65534
      → Reachable (setting P) a (held 0 s)
      → (s' : Publisher) × Reachable (setting P) a (held n s')
  cycles zero s a h r = (s, r)
  cycles (suc n) s a h r =
      let (s1, r1) = cycles n s a (omega arith) r in
      let e : suc n ≡ n + 1 = omega arith in
      let (s2, r2) = cycle n s1 a (omega arith) r1 in
      (s2, subst (λ i. Reachable (setting P) a (held i s2)) (sym e) r2)

  first :
      (w : World) (counters : Counters)
      → (b : Publisher) × Leaves (send (start (never_faulty w) (suc (suc m)) counters)) b
        × (b ≡ held 0 b)
  unfolding send_round drain_pubrels drain_loop acquire with_permit send_next write_publish
      after_write write_packet quota_for step_packet_id
  first w counters = (_, refl, refl)

  last :
      (s : Publisher)
      → (b : Publisher) × Leaves (send (held 65534 s)) b × (b.permits + length b.in_flight ≡ suc m)
  unfolding send_round drain_pubrels drain_loop acquire with_permit send_next write_publish
      after_write write_packet quota_for step_packet_id
  last s = (_, refl, omega arith)

-- Where the window is at least 2, a run with no faulty writes can reach a state with fewer messages
-- in flight and permits free than the window has: the identifiers have come round to a message that
-- is still in flight.
pub collision_reachable :
    (P : Protocol) (w : World) (counters : Counters) (window : ℕ)
    → IsLawful P
    → 2 ≤ window
    → (s : Publisher) × Reachable (setting P) (start (never_faulty w) window counters) s
      × (s.permits + length s.in_flight < window)
collision_reachable P w counters zero L h = absurd (omega arith)
collision_reachable P w counters (suc zero) L h = absurd (omega arith)
collision_reachable P w counters (suc (suc m)) L h =
    let a = start (never_faulty w) (suc (suc m)) counters in
    let (b, left, shape) = first P L m w counters in
    let r : Reachable (setting P) a (held P L m 0 b) =
      subst (Reachable (setting P) a) shape (later a b here (turned go b left)) in
    let (s1, r1) = cycles P L m 65534 b a (omega arith) r in
    let (s2, left2, lost) = last P L m s1 in
    (s2, later (held P L m 65534 s1) s2 r1 (turned go s2 left2), omega (arith, lost))
