-- ===== src/Bench/Publisher/Window.antt =====
-- The window of a publisher: however its two sides interleave, it has never more in flight.
use mathlib.Core.Option.{some-injective, none-ne-some}
use pulsemq_cli.Base.{
  ℕ, zero, suc, ◌+◌, ◌≤◌, ◌<◌, Bool, true, false, ◌&&◌, Option, none, some, List, [], ◌∷◌, Bytes,
  length, is_some, max, if◌then◌else◌, ◌≡◌, refl, sym, subst, arith, inl, inr, Bool-cases,
}
use pulsemq_cli.Mqtt.{
  QoS, at_most_once, at_least_once, exactly_once, ReasonCode, Protocol, Packet, puback, pubrec,
  pubcomp,
}
use pulsemq_cli.Io.{World, Outcome, done, failed, waiting, panicked, stuck, Next, finish}
use pulsemq_cli.Bench.Config.{Config, quota_for}
use pulsemq_cli.Bench.Config.Quota.{effective_inflight_lem}
use pulsemq_cli.Bench.Stats.{Counters}
use pulsemq_cli.Bench.Publisher.{
  lookup, insert_at, Publisher, start, complete_ack, on_packet, write_then, drain_loop,
  drain_pubrels, acquire, Permit, acquired, refused, blocked, Turn, after_write, take_permit,
  write_publish, reached, window_for, send_next, with_permit, send_round, settle_if,
}
use pulsemq_cli.Bench.Publisher.Steps.{
  Leaves, Setting, Step, read, ended, turned, Reachable, here, later, length-remove_le,
  length-remove_lt, Every, and_then-Every, write_then-Every, lookup-insert_at, if-Every,
}

-- What is in flight and what is free is no more than the window.
abbrev pub Fits : ℕ → Publisher → Type 0
Fits window s = s.permits + length s.in_flight ≤ window

if-Fits :
    (window : ℕ) (b : Bool) (x y : Publisher)
    → Fits window x
    → Fits window y
    → Fits window (if b then x else y)
if-Fits window true x y h k = h
if-Fits window false x y h k = k

module _ (P : Protocol) where
  settle_if-Fits :
      (window warmup now : ℕ) (o : Option ℕ) (b : Bool) (s : Publisher)
      → Fits window s
      → ((t : ℕ) → o ≡ some t → s.permits + length s.in_flight < window)
      → Fits window (settle_if P o b warmup now s)
  settle_if-Fits window warmup now none b s h k = h
  settle_if-Fits window warmup now (some t) b s h k = omega (arith, k t refl)

  complete_ack-Fits :
      (window warmup now id : ℕ) (code : ReasonCode) (s : Publisher)
      → Fits window s
      → Fits window (complete_ack P warmup now id code s)
  unfolding complete_ack
  complete_ack-Fits window warmup now id code s h =
      settle_if-Fits window warmup now (lookup id s.in_flight) (P.is_error code) _
        (omega (arith, length-remove_le id s.in_flight))
        (λ t e. omega (arith, length-remove_lt id s.in_flight t e))

  on_packet-Fits :
      (window warmup now : ℕ) (p : Packet) (s : Publisher)
      → Fits window s
      → Fits window (on_packet P warmup now p s)
  unfolding on_packet
  on_packet-Fits window warmup now (puback a) s h =
      complete_ack-Fits window warmup now a.packet_id a.reason_code s h
  on_packet-Fits window warmup now (pubrec a) s h =
      if-Fits window (P.is_error a.reason_code) _ _
        (complete_ack-Fits window warmup now a.packet_id a.reason_code s h) h
  on_packet-Fits window warmup now (pubcomp a) s h =
      complete_ack-Fits window warmup now a.packet_id a.reason_code s h
  on_packet-Fits window warmup now p s h = h

  -- Whatever state an outcome leaves fits.
  abbrev FitsAll : {A : Type 0} → ℕ → Outcome Publisher A → Type 0
  FitsAll window o = (s : Publisher) → Leaves o s → Fits window s

  fits_all :
      {A : Type 0} (window : ℕ) (o : Outcome Publisher A) → Every (Fits window) o → FitsAll window o
  fits_all window (done a s) h s' e = subst (Fits window) (sym e) h
  fits_all window (failed x s) h s' e = subst (Fits window) (sym e) h
  fits_all window (waiting s) h s' e = subst (Fits window) (sym e) h
  fits_all window panicked h s' e = absurd e
  fits_all window stuck h s' e = absurd e

  drain_loop-Fits :
      (window : ℕ) (ids : List ℕ) (s : Publisher)
      → Fits window s
      → Every (Fits window) (drain_loop P ids s)
  unfolding drain_loop write_then
  drain_loop-Fits window [] s h = h
  drain_loop-Fits window (id ∷ ids) s h =
      and_then-Every (Fits window) _ _
        (write_then-Every (Fits window) P (record s { pubrels = ids }) _ (λ w. h))
        (λ _ s' h'. drain_loop-Fits window ids s' h')

-- One more may be put in flight.
abbrev Spare : ℕ → Publisher → Type 0
Spare window s = s.permits + length s.in_flight < window

module _ {F : Type 0} (P : Protocol) (c : Config F) (index baseline window : ℕ) where
  after_write-Fits :
      (o : Option ℕ) (bytes : ℕ) (s : Publisher) (r : Outcome World (Unit {0}))
      → Fits window s
      → ((id : ℕ) → o ≡ some id → (t : ℕ) × (lookup id s.in_flight ≡ some t))
      → Every (Fits window) (after_write c index baseline o bytes s r)
  unfolding after_write
  after_write-Fits o bytes s (done u w) h k = h
  after_write-Fits none bytes s (failed e w) h k = h
  after_write-Fits (some id) bytes s (failed e w) h k =
      let (t, found) = k id refl in omega (arith, length-remove_lt id s.in_flight t found)
  after_write-Fits o bytes s (waiting w) h k = h
  after_write-Fits o bytes s panicked h k = tt
  after_write-Fits o bytes s stuck h k = tt

  write_publish-Fits :
      (o : Option ℕ) (payload : Bytes) (s : Publisher)
      → Fits window s
      → ((id : ℕ) → o ≡ some id → (t : ℕ) × (lookup id s.in_flight ≡ some t))
      → Every (Fits window) (write_publish c index baseline P o payload s)
  unfolding write_publish
  write_publish-Fits o payload s h k = after_write-Fits o (length payload) s _ h k

  send_some-Fits :
      (now id : ℕ) (payload : Bytes) (s : Publisher)
      → Spare window s
      → Every (Fits window) (
          write_publish c index baseline P
            (some id)
            payload
            (record s { next_packet_id = id; in_flight = insert_at id now s.in_flight }))
  send_some-Fits now id payload s h =
      write_publish-Fits (some id) payload _ (omega (arith, length-remove_le id s.in_flight))
        (λ i e.
          let k = some-injective _ _ e in
          (
            now,
            subst (λ j. lookup j (insert_at id now s.in_flight) ≡ some now) k
                (lookup-insert_at id now s.in_flight),
          ))

  -- What a permit promises, for a quality of service.
  abbrev Allows : QoS → Publisher → Type 0
  Allows at_most_once s = Fits window s
  Allows _ s = Spare window s

  send_next-Fits :
      (qos : QoS) (now : ℕ) (s : Publisher)
      → Allows qos s
      → Every (Fits window) (send_next c index baseline P qos now s)
  unfolding send_next
  send_next-Fits at_most_once now s h =
      write_publish-Fits none _ s h (λ i e. absurd (none-ne-some i e))
  send_next-Fits at_least_once now s h = send_some-Fits now _ _ s h
  send_next-Fits exactly_once now s h = send_some-Fits now _ _ s h

  with_permit-Fits :
      (turn : Turn) (permit : Permit) (s : Publisher)
      → Fits window s
      → ((s' : Publisher) → permit ≡ acquired s' → Allows c.qos s')
      → Every (Fits window) (with_permit c index baseline P turn permit s)
  unfolding with_permit
  with_permit-Fits turn (acquired s') s h k =
      and_then-Every (Fits window) _ _ (send_next-Fits c.qos turn.now s' (k s' refl)) (λ u a g. g)
  with_permit-Fits turn refused s h k = h
  with_permit-Fits turn blocked s h k = elim (Bool-cases turn.stop_waiting) [
    | inl e ↦ rw e h
    | inr e ↦ rw e h
  ]

  acquired_injective : (s s' : Publisher) → acquired s ≡ acquired s' → s ≡ s'
  acquired_injective s s' e = cc

  take_permit-Spare :
      (n : ℕ) (s s' : Publisher)
      → s.permits ≡ n
      → Fits window s
      → take_permit n s ≡ acquired s'
      → Spare window s'
  take_permit-Spare zero s s' p h e = absurd (ground arith)
  take_permit-Spare (suc n) s s' p h e =
      subst (Spare window) (acquired_injective _ s' e) (omega arith)

  acquire-Allows :
      (qos : QoS) (s s' : Publisher) → Fits window s → acquire qos s ≡ acquired s' → Allows qos s'
  unfolding acquire
  acquire-Allows at_most_once s s' h e = subst (Fits window) (acquired_injective s s' e) h
  acquire-Allows at_least_once s s' h e = ground (arith, take_permit-Spare s.permits s s' refl h)
  acquire-Allows exactly_once s s' h e = ground (arith, take_permit-Spare s.permits s s' refl h)

  abbrev paced : Turn → Publisher → Outcome Publisher (Next (Unit {0}) (Unit {0}))
  paced turn a =
      if is_some c.rate && turn.stop_pacing
      then done (finish tt) a
      else with_permit c index baseline P turn (acquire c.qos a) a

  abbrev unless_stopped : Turn → Publisher → Outcome Publisher (Next (Unit {0}) (Unit {0}))
  unless_stopped turn a = if turn.stop_first then done (finish tt) a else paced turn a

  send_round-Fits :
      (turn : Turn) (s : Publisher)
      → Fits window s
      → Every (Fits window) (send_round c index baseline P turn s)
  unfolding send_round drain_pubrels
  send_round-Fits turn s h =
      and_then-Every (Fits window) _ _ (drain_loop-Fits P window s.pubrels s h) (λ u a g.
        if-Every {A = Next (Unit {0}) (Unit {0})} (Fits window)
          (reached c index baseline (quota_for c index) a.sent) (done (finish tt) a)
          (unless_stopped turn a) g
          (if-Every {A = Next (Unit {0}) (Unit {0})} (Fits window) turn.stop_first
            (done (finish tt) a) (paced turn a) g
            (if-Every {A = Next (Unit {0}) (Unit {0})} (Fits window)
              (is_some c.rate && turn.stop_pacing) (done (finish tt) a)
              (with_permit c index baseline P turn (acquire c.qos a) a) g
              (with_permit-Fits turn (acquire c.qos a) a g
                (λ s' e. acquire-Allows c.qos a s' g e)))))

Step-Fits :
    (k : Setting) (window : ℕ) (a b : Publisher) → Step k a b → Fits window a → Fits window b
Step-Fits k window a b (read now p) h = on_packet-Fits k.protocol window k.warmup_until now p a h
Step-Fits k window a b ended h = h
Step-Fits k window a b (turned turn s' l) h =
    fits_all k.protocol window _
      (send_round-Fits k.protocol k.config k.index k.baseline window turn a h) b l

reachable-Fits :
    (k : Setting) (window : ℕ) (a b : Publisher) → Reachable k a b → Fits window a → Fits window b
reachable-Fits k window a b here h = h
reachable-Fits k window a c (later b _ r s) h =
    Step-Fits k window b c s (reachable-Fits k window a b r h)

-- However the two sides of a publisher interleave, whatever the broker sends and whichever writes
-- fail, the map of messages in flight never has more entries than were asked for (or 1), than there
-- are packet identifiers, or than a Receive Maximum of the broker that is not 0.
pub reachable-in_flight :
    (k : Setting) (w : World) (counters : Counters) (requested : ℕ) (receive_maximum : Option ℕ)
    (s : Publisher)
    → Reachable k (start w (window_for requested receive_maximum) counters) s
    → (length s.in_flight ≤ max requested 1)
      × (length s.in_flight ≤ 65535)
      × ((r : ℕ) → receive_maximum ≡ some r → 0 < r → length s.in_flight ≤ r)
reachable-in_flight k w counters requested m s r =
    let fits = reachable-Fits k (window_for requested m) _ s r (omega arith) in
    let (lo, asked, kept) = effective_inflight_lem requested m in
    (omega (arith, asked), omega arith, λ r e p. omega (arith, kept r e p))
