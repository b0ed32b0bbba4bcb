-- ===== src/Client/Laws.antt =====
-- What sending and receiving leave of a session.
use mathlib.Core.List.{append-nil, append_assoc}
use pulsemq_cli.Base.{
  ◌<◌, List, [], ◌∷◌, ◌++◌, length, if◌then◌else◌, ◌==◌, ◌≡◌, ◌≢◌, refl, sym, ap, subst, ◌∙◌, arith,
  inl, inr, Bool-cases,
}
use pulsemq_cli.Mqtt.{Packet, pingreq}
use pulsemq_cli.Io.{
  Event, arrived, closed, broken, elapsed, World, Outcome, done, failed, waiting, panicked, stuck,
  Action, read_packet, write_packet, ReadOutcome, packet, eof,
}
use pulsemq_cli.Io.Laws.{
  Ensures, and_then-Ensures, weaken-Ensures, packets, replies, Took, Drained, Wrote,
  read_packet-Took, write_packet-Wrote,
}
use pulsemq_cli.Client.{
  Client, send, recv, recv_keepalive, keepalive_loop, with_incoming, on_stream_done, on_stream,
  expect_packet,
}

-- Only the stream differs.
abbrev pub Moved : Client → Client → Type 0
Moved c d = d ≡ record c { stream = d.stream }

on_stream-Ensures :
    {A : Type 0} (Q : A → World → Type 0) (W : World → Type 0) (m : Action World A) (c : Client)
    (o : Outcome World A)
    → Ensures Q W o
    → Ensures (λ a d. Moved c d × Q a d.stream) (λ d. Moved c d × W d.stream) (on_stream_done c o)
unfolding on_stream_done
on_stream-Ensures Q W m c (done a w) h = (refl, h)
on_stream-Ensures Q W m c (failed e w) h = tt
on_stream-Ensures Q W m c (waiting w) h = (refl, h)
on_stream-Ensures Q W m c panicked h = h
on_stream-Ensures Q W m c stuck h = h

-- A send that succeeds puts its packet at the end of what was sent.
abbrev pub Sent : Packet → Client → Client → Type 0
Sent p c d = Moved c d × Wrote p c.stream d.stream

pub send-Sent : (p : Packet) (c : Client) → Ensures (λ _ d. Sent p c d) (λ _. ⊥) (send p c)
unfolding send
send-Sent p c =
    weaken-Ensures (λ _ d. Sent p c d) (λ d. Moved c d × ⊥) (λ _ d. Sent p c d) (λ _. ⊥) (send p c)
      (on_stream-Ensures (λ _ w. Wrote p c.stream w) (λ _. ⊥) (write_packet p) c
        (write_packet p c.stream) (write_packet-Wrote p c.stream))
      (λ _ d h. h) (λ d h. h.1)

-- A receive takes the packet `p` off the front of what comes in and writes nothing.
abbrev pub Received : Client → Packet → Client → Type 0
Received c p d = Moved c d × Took c.stream (packet p) d.stream

expect_packet-Received :
    (c : Client) (o : ReadOutcome) (d : Client)
    → Moved c d × Took c.stream o d.stream
    → Ensures (Received c) (λ e. Moved c e × Drained c.stream e.stream) (expect_packet o d)
unfolding expect_packet
expect_packet-Received c (packet p) d h = h
expect_packet-Received c eof d h = tt

pub recv-Received :
    (c : Client) → Ensures (Received c) (λ d. Moved c d × Drained c.stream d.stream) (recv c)
unfolding recv
recv-Received c =
    and_then-Ensures (λ o d. Moved c d × Took c.stream o d.stream)
      (λ d. Moved c d × Drained c.stream d.stream) (Received c) (on_stream read_packet c)
      expect_packet
      (on_stream-Ensures (Took c.stream) (Drained c.stream) read_packet c (read_packet c.stream)
        (read_packet-Took c.stream))
      (expect_packet-Received c)

-- What the keep-alive timer asks for each time it runs out.
abbrev pub ping : Client → List Packet
ping c = if c.keep_alive == 0 then [] else pingreq ∷ []

-- Only what is read and written differs.
abbrev pub Transferred : Client → Client → Type 0
Transferred c d = d ≡ record c {
  stream = record c.stream {
    incoming = d.stream.incoming;
    sent = d.stream.sent;
    writes = d.stream.writes;
  };
}

-- What was sent, with what is still owed, stays the same, if `owed` is owed for the events that were
-- taken off.
abbrev pub Balanced :
    (List Packet) → ((Packet → List Packet) → List Packet) → Client → Client → Type 0
Balanced tick owed c d =
    (f : Packet → List Packet)
    → d.stream.sent ++ (owed f ++ replies f tick d.stream.incoming)
      ≡ c.stream.sent ++ replies f tick c.stream.incoming

-- A receive with keep-alive takes the packet `p` off the front; it sends a ping for each time that
-- the timer ran out before, and nothing else.
abbrev pub Arrived : Client → Packet → Client → Type 0
Arrived c p d =
    Transferred c d
    × (length d.stream.incoming < length c.stream.incoming)
    × (packets c.stream.incoming ≡ p ∷ packets d.stream.incoming)
    × Balanced (ping c) (λ f. f p) c d

abbrev pub Idle : Client → Client → Type 0
Idle c d =
    Transferred c d
    × (packets c.stream.incoming ≡ [])
    × (d.stream.incoming ≡ [])
    × ((f : Packet → List Packet)
        → d.stream.sent ≡ c.stream.sent ++ replies f (ping c) c.stream.incoming)

-- Of two sessions that differ in what is left to read, one has sent what the other has.
Received-sent : (c d : Client) (p : Packet) → Received c p d → d.stream.sent ≡ c.stream.sent
Received-sent c d p h = ap (λ (w : World). w.sent) h.1.0

Received-Arrived :
    (c : Client) (p : Packet) (d : Client) → ping c ≡ [] → Received c p d → Arrived c p d
Received-Arrived c p d q h = (
  ground arith,
  h.1.1,
  h.1.2.0,
  λ f. rw (q, Received-sent c d p h) (ap (◌++◌ c.stream.sent) (sym (h.1.2.1 f))),
)

Drained-Idle : (c d : Client) → ping c ≡ [] → Moved c d × Drained c.stream d.stream → Idle c d
Drained-Idle c d q h = (
  ground arith,
  h.1.1,
  ap (λ (w : World). w.incoming) h.1.0,
  λ f. rw (q, h.1.2 f, append-nil) (ap (λ (w : World). w.sent) h.1.0),
)

recv-Arrived : (c : Client) → c.keep_alive ≡ 0 → Ensures (Arrived c) (Idle c) (recv c)
recv-Arrived c z =
    weaken-Ensures (Received c) (λ d. Moved c d × Drained c.stream d.stream) (Arrived c) (Idle c)
      (recv c) (recv-Received c) (λ p d h. Received-Arrived c p d (ground arith) h)
      (λ d h. Drained-Idle c d (ground arith) h)

ping_on : (c : Client) → c.keep_alive ≢ 0 → ping c ≡ pingreq ∷ []
ping_on c n = ground arith

Sent-keep_alive : (p : Packet) (c d : Client) → Sent p c d → d.keep_alive ≡ c.keep_alive
Sent-keep_alive p c d s = ap (λ (k : Client). k.keep_alive) s.0

Sent-sent : (p : Packet) (c d : Client) → Sent p c d → d.stream.sent ≡ c.stream.sent ++ (p ∷ [])
Sent-sent p c d s = ap (λ (w : World). w.sent) s.1

-- After a ping, the rest of the wait.
module _ (es : List Event) (c d e : Client) (n : c.keep_alive ≢ 0)
    (s : Sent pingreq (with_incoming es c) d) where
  pinged_on : ping d ≡ pingreq ∷ []
  pinged_on = ping_on d (λ z. n (sym (Sent-keep_alive pingreq (with_incoming es c) d s) ∙ z))

  pinged_owed :
      (f : Packet → List Packet)
      → d.stream.sent ++ replies f (ping d) es
        ≡ c.stream.sent ++ (pingreq ∷ replies f (pingreq ∷ []) es)
  pinged_owed f =
      rw (pinged_on, Sent-sent pingreq (with_incoming es c) d s)
        (append_assoc c.stream.sent (pingreq ∷ []) _)

  pinged_Arrived :
      (p : Packet) → Arrived (with_incoming es d) p e → Arrived (with_incoming (elapsed ∷ es) c) p e
  pinged_Arrived p a = (
    ground arith,
    omega (arith, a.1),
    a.2,
    λ f.
        subst
          (λ t.
            e.stream.sent ++ (f p ++ replies f t e.stream.incoming)
            ≡ c.stream.sent ++ replies f t (elapsed ∷ es))
          (sym (ping_on c n)) ((rw pinged_on at (a.3 f)) ∙ (rw pinged_on at (pinged_owed f))),
  )

  pinged_Idle : Idle (with_incoming es d) e → Idle (with_incoming (elapsed ∷ es) c) e
  pinged_Idle a = (
    ground arith,
    a.1,
    a.2,
    λ f.
        subst (λ t. e.stream.sent ≡ c.stream.sent ++ replies f t (elapsed ∷ es)) (sym (ping_on c n))
          (a.3 f ∙ pinged_owed f),
  )

keepalive_loop-Arrived :
    (es : List Event) (c : Client)
    → c.keep_alive ≢ 0
    → Ensures (Arrived (with_incoming es c)) (Idle (with_incoming es c)) (keepalive_loop es c)
unfolding keepalive_loop
keepalive_loop-Arrived [] c n = (refl, refl, refl, λ f. sym (append-nil c.stream.sent))
keepalive_loop-Arrived (elapsed ∷ es) c n =
    let c' = with_incoming es c in
    and_then-Ensures (λ _ d. Sent pingreq c' d) (Idle (with_incoming (elapsed ∷ es) c))
      (Arrived (with_incoming (elapsed ∷ es) c)) (send pingreq c') (λ _. keepalive_loop es)
      (weaken-Ensures (λ _ d. Sent pingreq c' d) (λ _. ⊥) (λ _ d. Sent pingreq c' d)
        (Idle (with_incoming (elapsed ∷ es) c)) (send pingreq c') (send-Sent pingreq c')
        (λ _ d s. s) (λ d b. absurd b))
      (λ _ d s.
        weaken-Ensures (Arrived (with_incoming es d)) (Idle (with_incoming es d)) _ _
          (keepalive_loop es d)
          (keepalive_loop-Arrived es d (λ z. n (sym (Sent-keep_alive pingreq c' d s) ∙ z)))
          (λ p e a. pinged_Arrived es c d e n s p a) (λ e a. pinged_Idle es c d e n s a))
keepalive_loop-Arrived (arrived p ∷ es) c n = (refl, omega arith, refl, λ f. refl)
keepalive_loop-Arrived (closed ∷ es) c n = tt
keepalive_loop-Arrived (broken x ∷ es) c n = tt

-- A receive takes the next packet and has sent exactly the pings that were due before it, or, when
-- nothing comes, all that were due; it neither panics nor spins.
pub recv_keepalive-Arrived : (c : Client) → Ensures (Arrived c) (Idle c) (recv_keepalive c)
unfolding recv_keepalive
recv_keepalive-Arrived c = elim (Bool-cases (c.keep_alive == 0)) [
  | inl z ↦ rw z (recv-Arrived c (ground arith))
  | inr n ↦ rw n (keepalive_loop-Arrived c.stream.incoming c (ground arith))
]
