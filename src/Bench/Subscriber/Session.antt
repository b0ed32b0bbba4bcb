-- ===== src/Bench/Subscriber/Session.antt =====
-- The receive loop of a subscribing connection, and its subscription.
use mathlib.Core.List.{append-nil}
use pulsemq_cli.Base.{
  ℕ, ◌%◌, ◌^◌, Bool, true, ◌⊎◌, inl, inr, if◌then◌else◌, zero, suc, ◌+◌, ◌<◌, false, none, List, [],
  ◌∷◌, ◌++◌, length, All, ◌≡◌, refl, sym, ap, ◌∙◌, arith,
}
use pulsemq_cli.Mqtt.{Packet, ReasonCode, Protocol, publish, pubrel, pubcomp, disconnect}
use pulsemq_cli.Io.{done, waiting, finish, ReadOutcome, packet, eof, read_packet}
use pulsemq_cli.Io.Laws.{
  Ensures, and_then-Ensures, weaken-Ensures, Round, loop-Ensures, read_packet-Took, packets,
}
use pulsemq_cli.Subscribe.{pub_ack}
use pulsemq_cli.Subscribe.Laws.{answer}
use pulsemq_cli.Bench.Payload.{decode}
use pulsemq_cli.Bench.Subscriber.{
  Subscriber, Clock, count_message, write, acknowledge_message, on_delivery, delivery_round,
  deliver_loop, on_stream_done, find_error,
}
use pulsemq_cli.Bench.Subscriber.Delivery.{
  latencies, record_latency_values, Served, Recorded, Served-Recorded, Served-step, Put, write-Put,
  acknowledge_message-Put, Read, on_stream_done-Read,
}

module _ (P : Protocol) (k : Clock) (index : ℕ) (s : Subscriber) where
  abbrev Between : Subscriber → ℕ → Subscriber → Type 0
  Between b t e = Served P k s e × (length e.stream.incoming < length b.stream.incoming)

  abbrev Waits : Subscriber → Type 0
  Waits e = Served P k s e × ((e.stream.incoming ≡ []) ⊎ (k.stop_comes ≡ false))

  on_packet-Round :
      (t : ℕ) (q : Packet) (b d : Subscriber)
      → Served P k s b
      → Read P k b (packet q) d
      → Ensures
          (Round (Between b) (λ _ e. Served P k s e))
          (λ _. ⊥)
          (on_delivery P k index t (packet q) d)
  unfolding on_delivery
  on_packet-Round t (publish m) b d h r =
      and_then-Ensures (λ _ e. Put P k (answer P m.packet_id m.qos) (count_message k m d) e)
        (λ _. ⊥) _ (acknowledge_message P m (count_message k m d)) _
        (acknowledge_message-Put P k m (count_message k m d))
        (λ _ e put. (
          Served-step P k s b (publish m) d e h (r.2 (publish m) refl)
              (ap (λ (x : Subscriber). x.stream.incoming) put)
              (ap (λ (x : Subscriber). x.stream.sent) put
                ∙ ap (λ (x : Subscriber). x.stream.sent ++ answer P m.packet_id m.qos) r.0)
              (ap (λ (x : Subscriber). x.seen) put ∙ ap (λ (x : Subscriber). x.seen + 1) r.0)
              (ap (λ (x : Subscriber). x.samples.values) put
                ∙ record_latency_values k (k.received_at d.seen) (decode m.payload) d.samples
                ∙ ap (λ (x : Subscriber). x.samples.values ++ latencies k (k.received_at x.seen) m)
                    r.0
                ∙ ap (◌++◌ b.samples.values) (sym (append-nil _)))
              (omega (
                arith,
                ap (λ (x : Subscriber). x.counters.received) put,
                ap (λ (x : Subscriber). x.counters.received) r.0,
              ))
              (omega (
                arith,
                ap (λ (x : Subscriber). x.counters.bytes_received) put,
                ap (λ (x : Subscriber). x.counters.bytes_received) r.0,
              )),
          omega (arith, r.1, ap (λ (x : Subscriber). length x.stream.incoming) put),
        ))
  on_packet-Round t (pubrel rel) b d h r =
      and_then-Ensures (λ _ e. Put P k (pubcomp (pub_ack P rel.packet_id) ∷ []) d e) (λ _. ⊥) _
        (write (pubcomp (pub_ack P rel.packet_id)) d) _
        (write-Put P k (pubcomp (pub_ack P rel.packet_id)) d)
        (λ _ e put. (
          Served-step P k s b (pubrel rel) d e h (r.2 (pubrel rel) refl)
              (ap (λ (x : Subscriber). x.stream.incoming) put)
              (ap (λ (x : Subscriber). x.stream.sent) put
                ∙ ap (λ (x : Subscriber). x.stream.sent ++ (pubcomp (pub_ack P rel.packet_id) ∷ []))
                    r.0)
              (omega
                (arith, ap (λ (x : Subscriber). x.seen) put, ap (λ (x : Subscriber). x.seen) r.0))
              (ap (λ (x : Subscriber). x.samples.values) put
                ∙ ap (λ (x : Subscriber). x.samples.values) r.0
                ∙ sym (append-nil _))
              (omega (
                arith,
                ap (λ (x : Subscriber). x.counters.received) put,
                ap (λ (x : Subscriber). x.counters.received) r.0,
              ))
              (omega (
                arith,
                ap (λ (x : Subscriber). x.counters.bytes_received) put,
                ap (λ (x : Subscriber). x.counters.bytes_received) r.0,
              )),
          omega (arith, r.1, ap (λ (x : Subscriber). length x.stream.incoming) put),
        ))
  on_packet-Round t (disconnect code) b d h r = tt
  on_packet-Round t p b d h r = (
    Served-step P k s b p d d h (r.2 p refl) refl
        (ap (λ (x : Subscriber). x.stream.sent) r.0 ∙ sym (append-nil _))
        (omega (arith, ap (λ (x : Subscriber). x.seen) r.0))
        (ap (λ (x : Subscriber). x.samples.values) r.0 ∙ sym (append-nil _))
        (omega (arith, ap (λ (x : Subscriber). x.counters.received) r.0))
        (omega (arith, ap (λ (x : Subscriber). x.counters.bytes_received) r.0)),
    r.1,
  )

  -- The end of the stream, where the task waits for the stop signal.
  at_end : (b d : Subscriber) → Served P k s b → Read P k b eof d → Served P k s d
  at_end b d h r = (
    h.0,
    h.1 ∙ ap (◌++◌ h.0) (r.3 refl),
    ap (λ (x : Subscriber). x.stream.sent) r.0 ∙ h.2,
    ap (λ (x : Subscriber). x.seen) r.0 ∙ h.3,
    ap (λ (x : Subscriber). x.samples.values) r.0 ∙ h.4,
    ap (λ (x : Subscriber). x.counters.received % 2 ^ 64) r.0 ∙ h.5,
    ap (λ (x : Subscriber). x.counters.bytes_received % 2 ^ 64) r.0 ∙ h.6,
  )

  on_delivery-Round :
      (t : ℕ) (o : ReadOutcome) (b d : Subscriber)
      → Served P k s b
      → Read P k b o d
      → Ensures (Round (Between b) (λ _ e. Served P k s e)) Waits (on_delivery P k index t o d)
  unfolding on_delivery
  on_delivery-Round t (packet q) b d h r =
      weaken-Ensures (Round (Between b) (λ _ e. Served P k s e)) (λ _. ⊥) _ Waits
        (on_delivery P k index t (packet q) d) (on_packet-Round t q b d h r) (λ n e x. x)
        (λ e x. absurd x)
  on_delivery-Round t eof b d h r = if_ends k.stop_comes refl
    where
      if_ends :
          (stops : Bool)
          → k.stop_comes ≡ stops
          → Ensures
              (Round (Between b) (λ _ e. Served P k s e))
              Waits
              (if stops then done (finish tt) d else waiting d)
      if_ends true e = at_end b d h r
      if_ends false e = (at_end b d h r, inr e)

  delivery_round-Round :
      (t : ℕ) (b : Subscriber)
      → Served P k s b
      → Ensures (Round (Between b) (λ _ e. Served P k s e)) Waits (delivery_round P k index t b)
  unfolding delivery_round
  delivery_round-Round zero b h = h
  delivery_round-Round (suc t) b h =
      and_then-Ensures (Read P k b) Waits _ (on_stream_done b (read_packet b.stream)) _
        (weaken-Ensures (Read P k b) _ (Read P k b) Waits (on_stream_done b (read_packet b.stream))
          (on_stream_done-Read P k b (read_packet b.stream) (read_packet-Took b.stream))
          (λ o d r. r)
          (λ d w. (
            (
              h.0,
              h.1
                  ∙ ap (◌++◌ h.0)
                      (w.1 ∙ ap (λ (x : Subscriber). packets x.stream.incoming) (sym w.0)),
              ap (λ (x : Subscriber). x.stream.sent) w.0 ∙ h.2,
              ap (λ (x : Subscriber). x.seen) w.0 ∙ h.3,
              ap (λ (x : Subscriber). x.samples.values) w.0 ∙ h.4,
              ap (λ (x : Subscriber). x.counters.received % 2 ^ 64) w.0 ∙ h.5,
              ap (λ (x : Subscriber). x.counters.bytes_received % 2 ^ 64) w.0 ∙ h.6,
            ),
            inl (ap (λ (x : Subscriber). x.stream.incoming) w.0),
          )))
        (λ o d r. on_delivery-Round t o b d h r)

  deliver_loop-Served :
      (stop : ℕ) → Ensures (λ _ e. Served P k s e) Waits (deliver_loop P k index stop s)
  unfolding deliver_loop
  deliver_loop-Served stop =
      loop-Ensures (λ e. length e.stream.incoming) (λ _ e. Served P k s e) (λ _ e. Served P k s e)
        Waits (delivery_round P k index) (λ t b h. delivery_round-Round t b h)
        (suc (suc (length s.stream.incoming))) stop s (omega arith)
        (
          [],
          refl,
          sym (append-nil s.stream.sent),
          omega arith,
          sym (append-nil s.samples.values),
          omega arith,
          omega arith,
        )

  -- Until it is stopped, before whichever read that is, a subscriber answers, counts and times
  -- every packet that it takes, in order: the counter of messages goes up by their number and the
  -- counter of bytes by the lengths of their payloads, both in 64 bits, and a sample is added for
  -- just those messages whose header shows a time that can be held, not before the end of the
  -- warm-up and not after the receipt. It waits only where all that came is taken, or where the
  -- stream has ended and no stop signal comes.
  pub deliver_loop-Recorded :
      (stop : ℕ)
      → Ensures
          (λ _ e. Recorded P k s e)
          (λ e. Recorded P k s e × ((e.stream.incoming ≡ []) ⊎ (k.stop_comes ≡ false)))
          (deliver_loop P k index stop s)
  deliver_loop-Recorded stop =
      weaken-Ensures (λ _ e. Served P k s e) Waits (λ _ e. Recorded P k s e) _
        (deliver_loop P k index stop s) (deliver_loop-Served stop)
        (λ u e h. Served-Recorded P k s e h) (λ e h. (Served-Recorded P k s e h.0, h.1))

-- No error is found among the reason codes of a SUBACK exactly when none of them is an error.
pub find_error-none :
    (P : Protocol) (codes : List ReasonCode)
    → (find_error P codes ≡ none → All (λ code. P.is_error code ≡ false) codes)
      × (All (λ code. P.is_error code ≡ false) codes → find_error P codes ≡ none)
unfolding find_error
find_error-none P [] = ((λ e. tt), λ h. refl)
find_error-none P (code ∷ codes) =
    let (l, r) = find_error-none P codes in (λ e. ground (arith, l), λ h. ground (arith, r h.1))
