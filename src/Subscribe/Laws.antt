-- ===== src/Subscribe/Laws.antt =====
-- Acknowledging, and subscribing.
use mathlib.Core.List.{append-nil, append_assoc}
use pulsemq_cli.Base.{
  ℕ, ◌+◌, ◌<◌, Bool, false, Option, none, some, List, [], ◌∷◌, ◌++◌, Bytes, length, ◌≡◌, refl, sym,
  ap, subst, ◌∙◌, arith, inl, inr, Option-cases, All, All-append,
}
use pulsemq_cli.Mqtt.{
  QoS, at_most_once, at_least_once, exactly_once, Protocol, Packet, Publish, puback, pubrec, suback,
  SubAck, disconnect, ReasonCode,
}
use pulsemq_cli.Io.Laws.{Ensures, and_then-Ensures, weaken-Ensures, Round, loop-Ensures, packets}
use pulsemq_cli.Client.{Client, send, recv, next_packet_id, step_packet_id}
use pulsemq_cli.Client.Laws.{Sent, send-Sent, Received, recv-Received}
use pulsemq_cli.Subscribe.{
  fuel, await_loop, subscription, first_refused, check_suback, pub_ack, await_suback_on,
  await_suback, subscribe, acknowledge_with, acknowledge,
}

-- The packets `ps` were written, and nothing was read.
abbrev pub Put : List Packet → Client → Client → Type 0
Put ps c d =
    (d ≡ record c {
      stream = record c.stream { sent = c.stream.sent ++ ps; writes = d.stream.writes };
    })

Sent-Put : (p : Packet) (c d : Client) → Sent p c d → Put (p ∷ []) c d
Sent-Put p c d s = ground arith

Put-nil : (c : Client) → Put [] c c
Put-nil c = rw append-nil

pub send-Put : (p : Packet) (c : Client) → Ensures (λ _ d. Put (p ∷ []) c d) (λ _. ⊥) (send p c)
send-Put p c =
    weaken-Ensures (λ _ d. Sent p c d) (λ _. ⊥) (λ _ d. Put (p ∷ []) c d) (λ _. ⊥) (send p c)
      (send-Sent p c) (λ _ d s. Sent-Put p c d s) (λ d b. b)

-- Each filter, as far as there is a reason code for it, is granted: the code is no error.
abbrev pub Grants : (ReasonCode → Bool) → List Bytes → List ReasonCode → Type 0
Grants is_error [] codes = Unit {0}
Grants is_error (f ∷ filters) [] = Unit {0}
Grants is_error (f ∷ filters) (code ∷ codes) =
    (is_error code ≡ false) × Grants is_error filters codes

none-Grants :
    (is_error : ReasonCode → Bool) (filters : List Bytes) (codes : List ReasonCode)
    → first_refused is_error filters codes ≡ none
    → Grants is_error filters codes
unfolding first_refused
none-Grants is_error [] codes e = tt
none-Grants is_error (f ∷ filters) [] e = tt
none-Grants is_error (f ∷ filters) (code ∷ codes) e =
    ground (arith, none-Grants is_error filters codes)

module _ (P : Protocol) where
  -- What a message of the broker is answered with (4.3.2, 4.3.3).
  abbrev pub answer : Option ℕ → QoS → List Packet
  answer none qos = []
  answer (some id) at_most_once = []
  answer (some id) at_least_once = puback (pub_ack P id) ∷ []
  answer (some id) exactly_once = pubrec (pub_ack P id) ∷ []

  acknowledge_with-Put :
      (qos : QoS) (id : ℕ) (c : Client)
      → Ensures (λ _ d. Put (answer (some id) qos) c d) (λ _. ⊥) (acknowledge_with P qos id c)
  unfolding acknowledge_with
  acknowledge_with-Put at_most_once id c = Put-nil c
  acknowledge_with-Put at_least_once id c = send-Put _ c
  acknowledge_with-Put exactly_once id c = send-Put _ c

  -- A message is answered by PUBACK at QoS 1, PUBREC at QoS 2, each with its identifier, and not at
  -- all at QoS 0.
  pub acknowledge-Put :
      (m : Publish) (c : Client)
      → Ensures (λ _ d. Put (answer m.packet_id m.qos) c d) (λ _. ⊥) (acknowledge P m c)
  unfolding acknowledge
  acknowledge-Put m c = elim (Option-cases m.packet_id) [
    | inl e ↦ rw (e, acknowledge) (Put-nil c)
    | inr (id, e) ↦ rw (e, acknowledge) (acknowledge_with-Put m.qos id c)
  ]

  -- A packet that `subscribe` passes over while it waits for the SUBACK.
  abbrev pub IsPassedOver : Packet → Type 0
  IsPassedOver (suback ack) = ⊥
  IsPassedOver (disconnect code) = ⊥
  IsPassedOver _ = Unit

  abbrev pub Awaits : Client → Client → Type 0
  Awaits c d =
      (d ≡ record c { stream = record c.stream { incoming = d.stream.incoming } })
      × (skipped : List Packet) × (packets c.stream.incoming ≡ skipped ++ packets d.stream.incoming)
      × All IsPassedOver skipped

  -- The SUBACK came after packets that were all passed over, and refuses none of the filters.
  abbrev pub Subscribed : List Bytes → Client → Client → Type 0
  Subscribed filters c d =
      (d ≡ record c { stream = record c.stream { incoming = d.stream.incoming } })
      × (skipped : List Packet) × (ack : SubAck) × (packets c.stream.incoming
          ≡ skipped ++ (suback ack ∷ packets d.stream.incoming))
      × All IsPassedOver skipped
      × Grants P.is_error filters ack.reason_codes

  await_suback_on-Round :
      (filters : List Bytes) (p : Packet) (c b d : Client)
      → Awaits c b
      → Received b p d
      → Ensures
          (Round
            (λ _ e. Awaits c e × (length e.stream.incoming < length b.stream.incoming))
            (λ _ e. Subscribed filters c e))
          (λ _. Unit)
          (await_suback_on P filters p d)
  unfolding await_suback_on check_suback
  await_suback_on-Round filters (suback ack) c b d a r =
      elim (Option-cases (first_refused P.is_error filters ack.reason_codes)) [
        | inl e ↦ rw e (
          ground arith,
          a.1,
          ack,
          a.2 ∙ ap (◌++◌ a.1) r.1.2.0,
          a.3,
          none-Grants P.is_error filters ack.reason_codes e,
        )
        | inr (x, e) ↦ rw e tt
      ]
  await_suback_on-Round filters (disconnect code) c b d a r = tt
  await_suback_on-Round filters p c b d a r = (
    (
      ground arith,
      a.1 ++ (p ∷ []),
      a.2 ∙ ap (◌++◌ a.1) r.1.2.0 ∙ sym (append_assoc a.1 (p ∷ []) _),
      All-append IsPassedOver a.1 (p ∷ []) a.3 (tt, tt),
    ),
    r.1.1,
  )

  await_suback-Round :
      (filters : List Bytes) (c : Client) (t : Unit {0}) (b : Client)
      → Awaits c b
      → Ensures
          (Round
            (λ _ e. Awaits c e × (length e.stream.incoming < length b.stream.incoming))
            (λ _ e. Subscribed filters c e))
          (λ _. Unit)
          (await_suback P filters t b)
  unfolding await_suback
  await_suback-Round filters c t b a =
      and_then-Ensures (Received b) (λ _. Unit) _ (recv b) (await_suback_on P filters)
        (weaken-Ensures (Received b) _ (Received b) (λ _. Unit) (recv b) (recv-Received b)
          (λ p d r. r) (λ d h. tt))
        (λ p d r. await_suback_on-Round filters p c b d a r)

  await_loop-Subscribed :
      (filters : List Bytes) (c : Client)
      → Ensures (λ _ d. Subscribed filters c d) (λ _. Unit) (await_loop P filters c)
  unfolding await_loop
  await_loop-Subscribed filters c =
      loop-Ensures (λ d. length d.stream.incoming) (λ _ d. Awaits c d)
        (λ _ d. Subscribed filters c d) (λ _. Unit) (await_suback P filters)
        (await_suback-Round filters c) (fuel c) tt c (omega arith) (refl, [], refl, tt)

  -- After the SUBSCRIBE has been written.
  abbrev pub asked : List Bytes → QoS → Client → Client
  asked filters qos c =
      let id = step_packet_id c.next_packet_id in
      record c {
        next_packet_id = id;
        stream = record c.stream {
          sent = c.stream.sent ++ (subscription P filters qos id ∷ []);
          writes = c.stream.writes + 1;
        };
      }

  -- `subscribe` writes one SUBSCRIBE with every filter, in order, and a fresh identifier; if it
  -- succeeds a SUBACK has come whose codes, as far as there is one for a filter, are no errors, and
  -- every other packet before it is gone, neither printed nor answered; it ends or waits.
  pub subscribe-Subscribed :
      (filters : List Bytes) (qos : QoS) (c : Client)
      → Ensures
          (λ _ d. Subscribed filters (asked filters qos c) d)
          (λ _. Unit)
          (subscribe P filters qos c)
  unfolding subscribe next_packet_id
  subscribe-Subscribed filters qos c =
      let id = step_packet_id c.next_packet_id in
      let b : Client = record c { next_packet_id = id } in
      and_then-Ensures (λ _ d. d ≡ asked filters qos c) (λ _. Unit)
        (λ _ d. Subscribed filters (asked filters qos c) d) (send (subscription P filters qos id) b)
        (λ _. await_loop P filters)
        (weaken-Ensures (λ _ d. Sent (subscription P filters qos id) b d) (λ _. ⊥)
          (λ _ d. d ≡ asked filters qos c) (λ _. Unit) (send (subscription P filters qos id) b)
          (send-Sent (subscription P filters qos id) b) (λ _ d s. ground arith) (λ d h. tt))
        (λ _ d e.
          subst
            (λ a.
              Ensures (λ _ x. Subscribed filters (asked filters qos c) x) (λ _. Unit)
                (await_loop P filters a))
            (sym e) (await_loop-Subscribed filters (asked filters qos c)))
