-- ===== src/Bench/Subscriber/Delivery.antt =====
-- What a subscribing connection answers and records.
use mathlib.Core.List.{append-nil, append_assoc}
use pulsemq_cli.Base.{
  ℕ, ◌+◌, ◌-◌, ◌%◌, ◌^◌, ◌≤◌, ◌<◌, ◌&&◌, Option, none, some, List, [], ◌∷◌, ◌++◌, length, leb, ◌⊎◌,
  ◌↔◌, ◌≡◌, refl, sym, ap, ap₂, subst, ◌∙◌, arith, inl, inr, Bool-cases, Option-cases,
}
use pulsemq_cli.Mqtt.{
  QoS, at_most_once, at_least_once, exactly_once, Protocol, Packet, Publish, publish, puback,
  pubrel, pubcomp,
}
use pulsemq_cli.Io.{
  World, Outcome, done, failed, waiting, panicked, stuck, Action, and_then, ReadOutcome, packet,
  eof, read_packet, write_packet, Next, again, finish, loop,
}
use pulsemq_cli.Io
use pulsemq_cli.Io.Laws.{
  Ensures, and_then-Ensures, weaken-Ensures, Round, loop-Ensures, read_packet-Took, Wrote,
  write_packet-Wrote, packets,
}
use pulsemq_cli.Subscribe.{pub_ack}
use pulsemq_cli.Subscribe.Laws.{answer}
use pulsemq_cli.Bench.Payload.{Header, decode}
use pulsemq_cli.Bench.Stats.{Samples, samples_new}
use pulsemq_cli.Bench.Subscriber.{
  Subscriber, Clock, checked_add, record_latency, record_since, write, reply_to,
  acknowledge_message, on_stream_done,
}

-- The latency that a header shows: its time is a time that can be held, not before the end of the
-- warm-up and not after the receipt.
abbrev pub Shows : Clock → ℕ → Option Header → ℕ → Type 0
Shows k received_at none latency = ⊥
Shows k received_at (some h) latency =
    (k.baseline + h.elapsed_ns < k.instant_end)
    × (k.warmup_until ≤ k.baseline + h.elapsed_ns)
    × (k.baseline + h.elapsed_ns ≤ received_at)
    × (latency ≡ (received_at - (k.baseline + h.elapsed_ns)) % 2 ^ 64)

abbrev pub latencies : Clock → ℕ → Publish → List ℕ
latencies k received_at p = (record_latency k received_at (decode p.payload) samples_new).values

abbrev pub OneOrNone : Clock → ℕ → Option Header → Type 0
OneOrNone k received_at o =
    let found = (record_latency k received_at o samples_new).values in
    ((latency : ℕ) → (found ≡ latency ∷ []) ↔ Shows k received_at o latency)
    × ((found ≡ []) ⊎ ((latency : ℕ) × (found ≡ latency ∷ [])))

-- A message adds one sample or none: exactly the latency that its header shows, if its time can be
-- held, is not before the end of the warm-up and not after the receipt.
record_latency_lem : (k : Clock) (received_at : ℕ) (o : Option Header) → OneOrNone k received_at o
record_latency_lem k r none = ground arith
record_latency_lem k r (some h) =
    elim (Bool-cases (leb k.instant_end (k.baseline + h.elapsed_ns))) [
      | inl e ↦ rw e (ground arith)
      | inr e ↦
          elim (Bool-cases
            (leb k.warmup_until (k.baseline + h.elapsed_ns) && leb (k.baseline + h.elapsed_ns) r)) [
              | inl f ↦ rw (e, f) (ground arith)
              | inr f ↦ rw (e, f) (ground arith)
            ]
    ]

pub record_latency_values :
    (k : Clock) (received_at : ℕ) (o : Option Header) (s : Samples)
    → (record_latency k received_at o s).values
      ≡ s.values ++ (record_latency k received_at o samples_new).values
record_latency_values k r none s = sym (append-nil s.values)
record_latency_values k r (some h) s = since (checked_add k h.elapsed_ns)
  where
    since :
        (o : Option ℕ)
        → (record_since k r o s).values ≡ s.values ++ (record_since k r o samples_new).values
    since none = sym (append-nil s.values)
    since (some t) = elim (Bool-cases (leb k.warmup_until t && leb t r)) [
      | inl e ↦ rw e refl
      | inr e ↦ rw e (sym (append-nil s.values))
    ]

packet_injective : (p q : Packet) → packet p ≡ packet q → p ≡ q
packet_injective p q e = cc

module _ (P : Protocol) (k : Clock) where
  abbrev pub reply : Packet → List Packet
  reply (publish m) = answer P m.packet_id m.qos
  reply (pubrel rel) = pubcomp (pub_ack P rel.packet_id) ∷ []
  reply _ = []

  abbrev pub replies : List Packet → List Packet
  replies [] = []
  replies (p ∷ ps) = reply p ++ replies ps

  abbrev pub messages : List Packet → ℕ
  messages [] = 0
  messages (publish m ∷ ps) = 1 + messages ps
  messages (p ∷ ps) = messages ps

  -- The samples of the packets, of which the first message is number `seen`.
  abbrev pub timed : ℕ → List Packet → List ℕ
  timed seen [] = []
  timed seen (publish m ∷ ps) = latencies k (k.received_at seen) m ++ timed (seen + 1) ps
  timed seen (p ∷ ps) = timed seen ps

  -- The bytes of their payloads.
  abbrev pub sizes : List Packet → ℕ
  sizes [] = 0
  sizes (publish m ∷ ps) = length m.payload + sizes ps
  sizes (p ∷ ps) = sizes ps

  -- A counter of 64 bits has gone up by `n`.
  abbrev pub Counted : ℕ → ℕ → ℕ → Type 0
  Counted before after n = after % 2 ^ 64 ≡ (before + n) % 2 ^ 64

  -- The packets between `s` and `d` have been answered, counted and timed, in order.
  abbrev pub Served : Subscriber → Subscriber → Type 0
  Served s d =
      (taken : List Packet) × (packets s.stream.incoming ≡ taken ++ packets d.stream.incoming)
      × (d.stream.sent ≡ s.stream.sent ++ replies taken)
      × (d.seen ≡ s.seen + messages taken)
      × (d.samples.values ≡ s.samples.values ++ timed s.seen taken)
      × Counted s.counters.received d.counters.received (messages taken)
      × Counted s.counters.bytes_received d.counters.bytes_received (sizes taken)

  -- The samples of the packets, of which the first message is number `seen`: one for each message
  -- whose header shows a latency, and none for the others.
  abbrev pub Timed : ℕ → List Packet → List ℕ → Type 0
  Timed seen [] found = found ≡ []
  Timed seen (publish m ∷ ps) found =
      ((latency : ℕ) × (rest : List ℕ) × (found ≡ latency ∷ rest)
        × Shows k (k.received_at seen) (decode m.payload) latency
        × Timed (seen + 1) ps rest)
      ⊎ (((latency : ℕ) → Shows k (k.received_at seen) (decode m.payload) latency → ⊥)
          × Timed (seen + 1) ps found)
  Timed seen (p ∷ ps) found = Timed seen ps found

  nil_not_cons : (n : ℕ) (xs : List ℕ) → xs ≡ [] → xs ≡ n ∷ [] → ⊥
  nil_not_cons n xs e h = ground (arith, sym e ∙ h)

  timed-Timed : (seen : ℕ) (ps : List Packet) → Timed seen ps (timed seen ps)
  timed-Timed seen [] = refl
  timed-Timed seen (publish m ∷ ps) =
      let r = record_latency_lem k (k.received_at seen) (decode m.payload) in
      elim r.1 [
        | inl e ↦ inr (
          λ l h. nil_not_cons l _ e ((r.0 l).1 h),
          subst (Timed (seen + 1) ps) (ap (λ xs. xs ++ timed (seen + 1) ps) (sym e))
              (timed-Timed (seen + 1) ps),
        )
        | inr (l, e) ↦ inl (
          l,
          timed (seen + 1) ps,
          ap (λ xs. xs ++ timed (seen + 1) ps) e,
          (r.0 l).0 e,
          timed-Timed (seen + 1) ps,
        )
      ]
  timed-Timed seen (puback m ∷ ps) = timed-Timed seen ps
  timed-Timed seen (p ∷ ps) = timed-Timed seen ps

  -- The same, with the samples told from the headers.
  abbrev pub Recorded : Subscriber → Subscriber → Type 0
  Recorded s d =
      (taken : List Packet) × (packets s.stream.incoming ≡ taken ++ packets d.stream.incoming)
      × (d.stream.sent ≡ s.stream.sent ++ replies taken)
      × Counted s.counters.received d.counters.received (messages taken)
      × Counted s.counters.bytes_received d.counters.bytes_received (sizes taken)
      × (found : List ℕ) × (d.samples.values ≡ s.samples.values ++ found)
      × Timed s.seen taken found

  pub Served-Recorded : (s d : Subscriber) → Served s d → Recorded s d
  Served-Recorded s d h = (h.0, h.1, h.2, h.5, h.6, timed s.seen h.0, h.4, timed-Timed s.seen h.0)

  replies-append :
      (ps : List Packet) (p : Packet) → replies (ps ++ (p ∷ [])) ≡ replies ps ++ reply p
  replies-append [] p = append-nil (reply p)
  replies-append (q ∷ ps) p =
      ap (◌++◌ (reply q)) (replies-append ps p)
      ∙ sym (append_assoc (reply q) (replies ps) (reply p))

  messages-append :
      (ps : List Packet) (p : Packet) → messages (ps ++ (p ∷ [])) ≡ messages ps + messages (p ∷ [])
  messages-append [] p = omega arith
  messages-append (publish m ∷ ps) p = omega (arith, messages-append ps p)
  messages-append (puback m ∷ ps) p = messages-append ps p
  messages-append (q ∷ ps) p = messages-append ps p

  sizes-append :
      (ps : List Packet) (p : Packet) → sizes (ps ++ (p ∷ [])) ≡ sizes ps + sizes (p ∷ [])
  sizes-append [] p = omega arith
  sizes-append (publish m ∷ ps) p = omega (arith, sizes-append ps p)
  sizes-append (puback m ∷ ps) p = sizes-append ps p
  sizes-append (q ∷ ps) p = sizes-append ps p

  Counted-step : (a b c m n k : ℕ) → k ≡ m + n → Counted a b m → Counted b c n → Counted a c k
  Counted-step a b c m n k e h i = omega (arith, h, i)

  timed-append :
      (seen : ℕ) (ps : List Packet) (p : Packet)
      → timed seen (ps ++ (p ∷ [])) ≡ timed seen ps ++ timed (seen + messages ps) (p ∷ [])
  timed-append seen [] p = let e : seen + 0 ≡ seen = omega arith in rw e refl
  timed-append seen (publish m ∷ ps) p =
      let e : seen + 1 + messages ps ≡ seen + (1 + messages ps) = omega arith in
      ap (◌++◌ (latencies k (k.received_at seen) m)) (timed-append (seen + 1) ps p)
      ∙ sym (append_assoc (latencies k (k.received_at seen) m) (timed (seen + 1) ps) _)
      ∙ ap (λ n. (latencies k (k.received_at seen) m ++ timed (seen + 1) ps) ++ timed n (p ∷ [])) e
  timed-append seen (puback m ∷ ps) p = timed-append seen ps p
  timed-append seen (q ∷ ps) p = timed-append seen ps p

  pub Served-step :
      (s b : Subscriber) (p : Packet) (d e : Subscriber)
      → Served s b
      → (packets b.stream.incoming ≡ p ∷ packets d.stream.incoming)
      → (e.stream.incoming ≡ d.stream.incoming)
      → (e.stream.sent ≡ b.stream.sent ++ reply p)
      → (e.seen ≡ b.seen + messages (p ∷ []))
      → (e.samples.values ≡ b.samples.values ++ timed b.seen (p ∷ []))
      → Counted b.counters.received e.counters.received (messages (p ∷ []))
      → Counted b.counters.bytes_received e.counters.bytes_received (sizes (p ∷ []))
      → Served s e
  Served-step s b p d e (ps, h, sent, seen, found, received, bytes) front i r n v x y = (
    ps ++ (p ∷ []),
    h ∙ ap (◌++◌ ps) (front ∙ ap (λ es. p ∷ packets es) (sym i)) ∙ sym (append_assoc ps (p ∷ []) _),
    r
        ∙ ap (λ xs. xs ++ reply p) sent
        ∙ append_assoc s.stream.sent (replies ps) (reply p)
        ∙ ap (◌++◌ s.stream.sent) (sym (replies-append ps p)),
    omega (arith, n, seen, messages-append ps p),
    v
        ∙ ap₂ (λ xs i. xs ++ timed i (p ∷ [])) found seen
        ∙ append_assoc s.samples.values (timed s.seen ps) _
        ∙ ap (◌++◌ s.samples.values) (sym (timed-append s.seen ps p)),
    Counted-step _ _ _ _ _ _ (messages-append ps p) received x,
    Counted-step _ _ _ _ _ _ (sizes-append ps p) bytes y,
  )

  -- `ps` were written, and nothing else changed.
  abbrev pub Put : List Packet → Subscriber → Subscriber → Type 0
  Put ps s d = d ≡ record s {
    stream = record s.stream { sent = s.stream.sent ++ ps; writes = d.stream.writes };
  }

  on_stream_done-Put :
      (p : Packet) (s : Subscriber) (o : Outcome World (Unit {0}))
      → Ensures (λ _ w. Wrote p s.stream w) (λ _. ⊥) o
      → Ensures (λ _ d. Put (p ∷ []) s d) (λ _. ⊥) (on_stream_done s o)
  unfolding on_stream_done
  on_stream_done-Put p s (done u w) h = ground arith
  on_stream_done-Put p s (failed e w) h = tt
  on_stream_done-Put p s (waiting w) h = h
  on_stream_done-Put p s panicked h = h
  on_stream_done-Put p s stuck h = h

  pub write-Put :
      (p : Packet) (s : Subscriber) → Ensures (λ _ d. Put (p ∷ []) s d) (λ _. ⊥) (write p s)
  unfolding write
  write-Put p s = on_stream_done-Put p s (write_packet p s.stream) (write_packet-Wrote p s.stream)

  pub acknowledge_message-Put :
      (m : Publish) (s : Subscriber)
      → Ensures (λ _ d. Put (answer P m.packet_id m.qos) s d) (λ _. ⊥) (acknowledge_message P m s)
  unfolding acknowledge_message reply_to
  acknowledge_message-Put m s = elim (Option-cases m.packet_id) [
    | inl e ↦ rw (e, acknowledge_message) (rw append-nil)
    | inr (id, e) ↦ rw (e, acknowledge_message) (by_qos m.qos id)
  ]
    where
      by_qos :
          (q : QoS) (id : ℕ)
          → Ensures (λ _ d. Put (answer P (some id) q) s d) (λ _. ⊥) (reply_to P q id s)
      by_qos at_most_once id = rw append-nil
      by_qos at_least_once id = write-Put _ s
      by_qos exactly_once id = write-Put _ s

  -- A read: the next packet, and nothing else changed.
  abbrev pub Read : Subscriber → ReadOutcome → Subscriber → Type 0
  Read s o d =
      (d ≡ record s { stream = record s.stream { incoming = d.stream.incoming } })
      × (length d.stream.incoming < length s.stream.incoming)
      × ((p : Packet) → o ≡ packet p → packets s.stream.incoming ≡ p ∷ packets d.stream.incoming)
      × (o ≡ eof → packets s.stream.incoming ≡ packets d.stream.incoming)

  pub on_stream_done-Read :
      (s : Subscriber) (o : Outcome World ReadOutcome)
      → Ensures (Io.Laws.Took s.stream) (Io.Laws.Drained s.stream) o
      → Ensures
          (Read s)
          (λ d.
            (d ≡ record s { stream = record s.stream { incoming = [] } })
            × (packets s.stream.incoming ≡ []))
          (on_stream_done s o)
  unfolding on_stream_done
  on_stream_done-Read s (done (packet p) w) h = (
    ap (λ x. record s { stream = x }) h.0,
    h.1,
    λ q e. h.2.0 ∙ ap (λ x. x ∷ packets w.incoming) (packet_injective p q e),
    λ e. absurd (ground arith),
  )
  on_stream_done-Read s (done eof w) h =
      (ap (λ x. record s { stream = x }) h.0, h.1, λ q e. absurd (ground arith), λ e. h.2)
  on_stream_done-Read s (failed e w) h = tt
  on_stream_done-Read s (waiting w) h = (ap (λ x. record s { stream = x }) h.0, h.1)
  on_stream_done-Read s panicked h = h
  on_stream_done-Read s stuck h = h
