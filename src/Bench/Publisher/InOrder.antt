-- ===== src/Bench/Publisher/InOrder.antt =====
-- Where acknowledgements come in order, the identifiers in flight are distinct and no permit is lost.
use mathlib.Core.Option.{some-injective, none-ne-some}
use pulsemq_cli.Base.{
  ℕ, zero, suc, ◌+◌, ◌≤◌, ◌<◌, Bool, ◌&&◌, Option, none, some, List, [], ◌∷◌, Bytes, length,
  is_some, if◌then◌else◌, ◌≡◌, refl, sym, ap, ◌∙◌, subst, arith, inl, inr, Bool-cases,
}
use pulsemq_cli.Mqtt.{QoS, at_most_once, at_least_once, exactly_once, ReasonCode, Protocol, puback}
use pulsemq_cli.Io.{
  World, Outcome, done, failed, waiting, panicked, stuck, and_then, return, Next, again, finish,
}
use pulsemq_cli.Client.{step_packet_id}
use pulsemq_cli.Client.PacketId.{allocate}
use pulsemq_cli.Bench.Config.{Config, quota_for}
use pulsemq_cli.Bench.Stats.{Counters}
use pulsemq_cli.Bench.Publisher.{
  InFlight, lookup, remove, Publisher, start, complete_ack, on_packet, write_then, drain_loop,
  drain_pubrels, acquire, Permit, acquired, refused, blocked, Turn, after_write, take_permit,
  write_publish, reached, window_for, send_next, with_permit, send_round, settle_if,
}
use pulsemq_cli.Bench.Publisher.Steps.{
  Setting, Every, and_then-Every, write_then-Every, IfDone, and_then-IfDone, if-IfDone, done-IfDone,
}
use pulsemq_cli.Bench.Publisher.Runs.{
  oldest, IsRun, step-allocate, remove_fresh, lookup_fresh, remove-IsRun, length-IsRun,
}

-- A step of a QoS 1 run: the ack side reads the acknowledgement of the oldest message, with any
-- reason code, or the write side makes an iteration in which no write fails.
pub data OrderedStep (k : Setting) (s : Publisher) : Publisher → Type 0 where
  acked :
      (now id : ℕ) (code : ReasonCode)
      → oldest s.in_flight ≡ some id
      → OrderedStep k s (
          on_packet k.protocol k.warmup_until now
            (puback (record { packet_id = id; reason_code = code }))
            s)
  sent :
      (turn : Turn) (n : Next (Unit {0}) (Unit {0})) (s' : Publisher)
      → send_round k.config k.index k.baseline k.protocol turn s ≡ done n s'
      → OrderedStep k s s'

pub data Ordered (k : Setting) (s : Publisher) : Publisher → Type 0 where
  begin : Ordered k s s
  next : (a b : Publisher) → Ordered k s a → OrderedStep k a b → Ordered k s b

-- The identifiers in flight are consecutive, up to the one allocated last, and every permit that is
-- not free is for one of them.
abbrev Core : ℕ → Publisher → Type 0
Core window s =
    (a : ℕ) × (n : ℕ) × IsRun a n s.in_flight
    × (s.next_packet_id ≡ allocate n a)
    × (s.permits + n ≡ window)

module _ (P : Protocol) (window : ℕ) where
  drain_loop-Core :
      (ids : List ℕ) (s : Publisher) → Core window s → Every (Core window) (drain_loop P ids s)
  unfolding drain_loop write_then
  drain_loop-Core [] s h = h
  drain_loop-Core (id ∷ ids) s h =
      and_then-Every (Core window) _ _
        (write_then-Every (Core window) P (record s { pubrels = ids }) _ (λ w. h))
        (λ _ s' h'. drain_loop-Core ids s' h')

  settle_if-Core :
      (o : Option ℕ) (t : ℕ)
      → o ≡ some t
      → (b : Bool) (warmup now : ℕ) (s : Publisher) (a n : ℕ) → IsRun a n s.in_flight
      → s.next_packet_id ≡ allocate n a
      → s.permits + 1 + n ≡ window
      → Core window (settle_if P o b warmup now s)
  settle_if-Core none t e b warmup now s a n run at free = absurd (none-ne-some t e)
  settle_if-Core (some u) t e b warmup now s a n run at free = (a, n, run, at, free)

  complete_ack-Core :
      (warmup now id : ℕ) (code : ReasonCode) (s : Publisher)
      → window ≤ 65535
      → Core window s
      → oldest s.in_flight ≡ some id
      → Core window (complete_ack P warmup now id code s)
  unfolding complete_ack
  complete_ack-Core warmup now id code s b (a, zero, run, at, free) o =
      absurd (no_oldest s.in_flight run o)
    where
      no_oldest : (m : InFlight) → IsRun a zero m → oldest m ≡ some id → ⊥
      no_oldest [] r e = none-ne-some id e
      no_oldest (e ∷ m) r h = r
  complete_ack-Core warmup now id code s b (a, suc n, run, at, free) o =
      let (left, (t, found), last) = remove-IsRun n a s.in_flight (omega arith) run in
      let same : allocate 1 a ≡ id = some-injective _ _ (sym last ∙ o) in
      subst (λ i. Core window (complete_ack P warmup now i code s)) same
        (settle_if-Core (lookup (allocate 1 a) s.in_flight) t found (P.is_error code) warmup now _
          (step_packet_id a) n left at (omega (arith, free)))

  take_permit-Core :
      (n : ℕ) (s s' : Publisher)
      → s.permits ≡ n
      → Core window s
      → take_permit n s ≡ acquired s'
      → Core window (record s' { permits = suc s'.permits })
  take_permit-Core zero s s' p h e = absurd (ground arith)
  take_permit-Core (suc n) s s' p h e =
      let eq : record s { permits = n } ≡ s' = cc in
      subst (λ (x : Publisher). Core window (record x { permits = suc x.permits })) eq
        (h.0, h.1, h.2, h.3, omega (arith, h.4, p))

-- A QoS 1 run.
module _ {F : Type 0} (P : Protocol) (c : Config F) (index baseline window : ℕ) where
  write_publish-Core :
      (o : Option ℕ) (payload : Bytes) (s : Publisher)
      → Core window s
      → IfDone (Core window) (write_publish c index baseline P o payload s)
  unfolding write_publish after_write
  write_publish-Core o payload s h = after _
    where
      after :
          (r : Outcome World (Unit {0}))
          → IfDone (Core window) (after_write c index baseline o (length payload) s r)
      after (done u w) = h
      after (failed e w) = tt
      after (waiting w) = tt
      after panicked = tt
      after stuck = tt

  -- `s` has a permit in hand.
  send_next-Core :
      (now : ℕ) (s : Publisher)
      → window ≤ 65535
      → Core window (record s { permits = suc s.permits })
      → IfDone (Core window) (send_next c index baseline P at_least_once now s)
  unfolding send_next
  send_next-Core now s b (a, n, run, at, free) =
      let id = step_packet_id s.next_packet_id in
      let e : id ≡ allocate (suc n) a = ap step_packet_id at ∙ step-allocate n a in
      let fresh : remove id s.in_flight ≡ s.in_flight =
        subst (λ i. remove i s.in_flight ≡ s.in_flight) (sym e)
          (remove_fresh n n a s.in_flight (omega arith) (omega (arith, free)) run) in
      write_publish-Core (some id) _ _
        (a, suc n, (e, subst (IsRun a n) (sym fresh) run), e, omega (arith, free))

  with_permit-Core :
      (turn : Turn) (permit : Permit) (s : Publisher)
      → c.qos ≡ at_least_once
      → window ≤ 65535
      → Core window s
      → ((s' : Publisher)
          → permit ≡ acquired s'
          → Core window (record s' { permits = suc s'.permits }))
      → IfDone (Core window) (with_permit c index baseline P turn permit s)
  unfolding with_permit
  with_permit-Core turn (acquired s') s q b h k =
      subst
        (λ (o : QoS).
          IfDone {A = Next (Unit {0}) (Unit {0})} (Core window)
            (and_then (send_next c index baseline P o turn.now s') λ _. return (again tt)))
        (sym q) (pass _ (send_next-Core turn.now s' b (k s' refl)))
    where
      pass :
          (o : Outcome Publisher (Unit {0}))
          → IfDone (Core window) o
          → IfDone {A = Next (Unit {0}) (Unit {0})}
              (Core window)
              (and_then o λ _. return (again tt))
      pass (done u x) g = g
      pass (failed e x) g = tt
      pass (waiting x) g = tt
      pass panicked g = tt
      pass stuck g = tt
  with_permit-Core turn refused s q b h k = h
  with_permit-Core turn blocked s q b h k = elim (Bool-cases turn.stop_waiting) [
    | inl e ↦ rw e h
    | inr e ↦ rw e tt
  ]

  acquire-Core :
      (qos : QoS) (s s' : Publisher)
      → qos ≡ at_least_once
      → Core window s
      → acquire qos s ≡ acquired s'
      → Core window (record s' { permits = suc s'.permits })
  unfolding acquire
  acquire-Core at_most_once s s' q h e = absurd (ground arith)
  acquire-Core exactly_once s s' q h e = absurd (ground arith)
  acquire-Core at_least_once s s' q h e = elim (Bool-cases s.closed) [
    | inl k ↦ absurd (ground arith)
    | inr k ↦ take_permit-Core P window s.permits s s' refl h (ground (arith, k))
  ]

  abbrev paced : Turn → Publisher → Outcome Publisher (Next (Unit {0}) (Unit {0}))
  paced turn a =
      if is_some c.rate && turn.stop_pacing
      then done (finish tt) a
      else with_permit c index baseline P turn (acquire c.qos a) a

  abbrev unless_stopped : Turn → Publisher → Outcome Publisher (Next (Unit {0}) (Unit {0}))
  unless_stopped turn a = if turn.stop_first then done (finish tt) a else paced turn a

  send_round-Core :
      (turn : Turn) (s : Publisher)
      → c.qos ≡ at_least_once
      → window ≤ 65535
      → Core window s
      → IfDone (Core window) (send_round c index baseline P turn s)
  unfolding send_round drain_pubrels
  send_round-Core turn s q b h =
      and_then-IfDone (Core window) (Core window) _ _ (drain_loop-Core P window s.pubrels s h)
        (λ u a g.
          if-IfDone {A = Next (Unit {0}) (Unit {0})} (Core window)
            (reached c index baseline (quota_for c index) a.sent) (done (finish tt) a)
            (unless_stopped turn a) g
            (if-IfDone {A = Next (Unit {0}) (Unit {0})} (Core window) turn.stop_first
              (done (finish tt) a) (paced turn a) g
              (if-IfDone {A = Next (Unit {0}) (Unit {0})} (Core window)
                (is_some c.rate && turn.stop_pacing) (done (finish tt) a)
                (with_permit c index baseline P turn (acquire c.qos a) a) g
                (with_permit-Core turn (acquire c.qos a) a q b g
                  (λ s' e. acquire-Core c.qos a s' q g e)))))

OrderedStep-Core :
    (k : Setting) (window : ℕ) (a b : Publisher)
    → k.config.qos ≡ at_least_once
    → window ≤ 65535
    → OrderedStep k a b
    → Core window a
    → Core window b
unfolding on_packet
OrderedStep-Core k window a b q w (acked now id code o) h =
    complete_ack-Core k.protocol window k.warmup_until now id code a w h o
OrderedStep-Core k window a b q w (sent turn n s' e) h =
    done-IfDone (Core window) _ n b
      (send_round-Core k.protocol k.config k.index k.baseline window turn a q w h) e

Ordered-Core :
    (k : Setting) (window : ℕ) (a b : Publisher)
    → k.config.qos ≡ at_least_once
    → window ≤ 65535
    → Ordered k a b
    → Core window a
    → Core window b
Ordered-Core k window a b q w begin h = h
Ordered-Core k window a c q w (next b _ r s) h =
    OrderedStep-Core k window b c q w s (Ordered-Core k window a b q w r h)

-- In a QoS 1 run whose messages are acknowledged in the order they were sent, with whatever reason
-- codes, and in which no write has failed, every permit of the window is free or belongs to a
-- message in flight, and while one is free the next packet identifier is that of no message in
-- flight.
pub Ordered-in_flight :
    (k : Setting) (w : World) (counters : Counters) (requested : ℕ) (receive_maximum : Option ℕ)
    (s : Publisher)
    → k.config.qos ≡ at_least_once
    → Ordered k (start w (window_for requested receive_maximum) counters) s
    → (s.permits + length s.in_flight ≡ window_for requested receive_maximum)
      × (0 < s.permits → lookup (step_packet_id s.next_packet_id) s.in_flight ≡ none)
Ordered-in_flight k w counters requested m s q r =
    let window = window_for requested m in
    let (a, n, run, at, free) =
      Ordered-Core k window _ s q (omega arith) r (0, zero, tt, refl, omega arith) in
    (
      omega (arith, free, length-IsRun n a s.in_flight run),
      λ l.
          subst (λ i. lookup i s.in_flight ≡ none) (sym (ap step_packet_id at ∙ step-allocate n a))
            (lookup_fresh n n a s.in_flight (omega arith) (omega (arith, free)) run),
    )
