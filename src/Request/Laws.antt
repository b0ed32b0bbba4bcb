-- ===== src/Request/Laws.antt =====
-- The reply loop, and what it makes of a refusal.
use pulsemq_cli.Base.{
  ℕ, suc, ◌+◌, ◌≤◌, ◌<◌, Bool, List, [], ◌∷◌, length, length-append, ◌≡◌, refl, sym, ap, subst,
  arith, inl, inr, Bool-cases, ltb, ltb→lt,
}
use pulsemq_cli.Mqtt.{Protocol, Packet, pubrec, pubrel, pubcomp, disconnect, publish}
use pulsemq_cli.Io.{done, and_then, Next, again, finish}
use pulsemq_cli.Io.Laws.{Ensures, and_then-Ensures, weaken-Ensures, Round, loop-Ensures}
use pulsemq_cli.Client.{Client, send, recv_keepalive}
use pulsemq_cli.Client.Laws.{Arrived, Idle, recv_keepalive-Arrived}
use pulsemq_cli.Subscribe.{fuel, pub_ack, acknowledge}
use pulsemq_cli.Subscribe.Laws.{Put, send-Put, answer, acknowledge-Put}
use pulsemq_cli.Subscribe.Serve.{
  messages, delivered, Served, Handled, Handled-Put, Handled-nothing, Handled-message,
  delivered_split, Served-step, Idle-Served,
}
use pulsemq_cli.Request.{reply_on, reply_round, reply_loop}

-- What each packet of the broker is answered with. A PUBREC is answered by PUBREL, whatever its
-- reason code.
abbrev pub reply : Protocol → Packet → List Packet
reply P (publish m) = answer P m.packet_id m.qos
reply P (pubrel rel) = pubcomp (pub_ack P rel.packet_id) ∷ []
reply P (pubrec rec) = pubrel (pub_ack P rec.packet_id) ∷ []
reply P _ = []

length-messages_le : (p : Packet) → length (messages (p ∷ [])) ≤ 1
length-messages_le (publish m) = omega arith
length-messages_le p = omega arith

module _ (P : Protocol) (show_topic : Bool) where
  abbrev Ended : Packet → ℕ → Client → Next ℕ (Unit {0}) → Client → Type 0
  Ended p seen c (again seen') d =
      Handled (reply P) show_topic p c d × (seen' ≡ seen + length (messages (p ∷ [])))
  Ended p seen c (finish u) d = ⊥

  answered :
      (p : Packet) (q : Packet) (seen : ℕ) (c : Client)
      → messages (p ∷ []) ≡ []
      → reply P p ≡ q ∷ []
      → Ensures (Ended p seen c) (λ _. ⊥) (and_then (send q c) λ _ d. done (again seen) d)
  answered p q seen c n r =
      and_then-Ensures (λ _ d. Put (q ∷ []) c d) (λ _. ⊥) (Ended p seen c) (send q c)
        (λ _ d. done (again seen) d) (send-Put q c)
        (λ _ d put. (
          Handled-Put (reply P) show_topic p c d n (subst (λ ps. Put ps c d) (sym r) put),
          omega (arith, ap length n),
        ))

  reply_on-Ended :
      (seen : ℕ) (p : Packet) (c : Client)
      → Ensures (Ended p seen c) (λ _. ⊥) (reply_on P show_topic seen p c)
  unfolding reply_on
  reply_on-Ended seen (publish m) c =
      and_then-Ensures (λ _ d. Put (answer P m.packet_id m.qos) c d) (λ _. ⊥)
        (Ended (publish m) seen c) (acknowledge P m c) _ (acknowledge-Put P m c)
        (λ _ d put. (Handled-message (reply P) show_topic m c d put, refl))
  reply_on-Ended seen (pubrel rel) c = answered (pubrel rel) _ seen c refl refl
  reply_on-Ended seen (pubrec rec) c = answered (pubrec rec) _ seen c refl refl
  reply_on-Ended seen (disconnect code) c = tt
  reply_on-Ended seen p c = (Handled-nothing (reply P) show_topic p c refl refl, omega arith)

  module _ (count : ℕ) where
    abbrev Between : Client → ℕ → Client → Type 0
    Between c seen d =
        Served (reply P) show_topic c d
        × (seen + length (delivered d) ≡ length (delivered c))
        × (seen ≤ count)

    -- The end of the loop: `count` messages have been taken off.
    abbrev pub Complete : Client → Client → Type 0
    Complete c d =
        Served (reply P) show_topic c d × (count + length (delivered d) ≡ length (delivered c))

    -- The loop waits: all that came has been served, and it was fewer than `count` messages.
    abbrev pub Waits : Client → Client → Type 0
    Waits c d =
        Served (reply P) show_topic c d × (d.stream.incoming ≡ []) × (length (delivered c) < count)

    Ended-Between :
        (c : Client) (seen : ℕ) (b a : Client) (p : Packet)
        → Between c seen b
        → seen < count
        → Arrived b p a
        → (n : Next ℕ (Unit {0})) (d : Client) → Ended p seen a n d
        → Round
            (λ seen' e. Between c seen' e × (length e.stream.incoming < length b.stream.incoming))
            (λ _ e. Complete c e)
            n
            d
    Ended-Between c seen b a p k l r (again seen') d e =
        let split = ap length (delivered_split (reply P) show_topic c b a d p k.0 r e.0) in
        let one = length-messages_le p in
        (
          (
            Served-step (reply P) show_topic c b a d p k.0 r e.0,
            omega (arith, split, length-append (messages (p ∷ [])) (delivered d)),
            omega (arith, one),
          ),
          omega (arith, ap length e.0.0),
        )
    Ended-Between c seen b a p k l r (finish u) d e = absurd e

    Round-Between :
        (c : Client) (seen : ℕ) (b : Client)
        → Between c seen b
        → Ensures
            (Round
              (λ seen' d. Between c seen' d × (length d.stream.incoming < length b.stream.incoming))
              (λ _ d. Complete c d))
            (Waits c)
            (reply_round P show_topic count seen b)
    unfolding reply_round
    Round-Between c seen b k = elim (Bool-cases (ltb seen count)) [
      | inl l ↦ rw l (
          and_then-Ensures (Arrived b) (Waits c) _ (recv_keepalive b) (reply_on P show_topic seen)
            (weaken-Ensures (Arrived b) (Idle b) (Arrived b) (Waits c) (recv_keepalive b)
              (recv_keepalive-Arrived b) (λ p a r. r)
              (λ a i. (
                Idle-Served (reply P) show_topic c b a k.0 i,
                i.2,
                omega (arith, ap length (ap messages i.1), ltb→lt seen count l),
              )))
            (λ p a r.
              weaken-Ensures (Ended p seen a) (λ _. ⊥) _ (Waits c) (reply_on P show_topic seen p a)
                (reply_on-Ended seen p a) (Ended-Between c seen b a p k (ltb→lt seen count l) r)
                (λ _ x. absurd x)))
      | inr l ↦ rw l (k.0, ground arith)
    ]

    -- The reply loop of `request` prints the first `count` messages and answers every packet on the
    -- way, in order, and then ends; with fewer messages it waits for more.
    pub reply_loop-Ensures :
        (c : Client) → Ensures (λ _ d. Complete c d) (Waits c) (reply_loop P show_topic count c)
    unfolding reply_loop
    reply_loop-Ensures c =
        loop-Ensures (λ d. length d.stream.incoming) (Between c) (λ _ d. Complete c d) (Waits c)
          (reply_round P show_topic count) (Round-Between c) (suc (fuel c)) 0 c (omega arith)
          ((refl, refl, refl, refl), omega arith, omega arith)
