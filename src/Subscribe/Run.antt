-- ===== src/Subscribe/Run.antt =====
-- The receive loop of `sub`: what it prints, what it answers, and when it ends.
use pulsemq_cli.Base.{
  ℕ, ◌+◌, ◌<◌, Bool, true, false, Option, List, [], ◌∷◌, length, length-append, ◌≡◌, refl, ap, ◌∙◌,
  arith, inl, inr, Bool-cases,
}
use pulsemq_cli.Mqtt.{Protocol, Packet, pubrel, pubcomp, disconnect, publish}
use pulsemq_cli.Io.{Next, again, finish}
use pulsemq_cli.Io.Laws.{Ensures, and_then-Ensures, weaken-Ensures, Round, loop-Ensures}
use pulsemq_cli.Client.{Client, send, recv_keepalive}
use pulsemq_cli.Client.Laws.{Arrived, Idle, recv_keepalive-Arrived}
use pulsemq_cli.Subscribe.{fuel, pub_ack, acknowledge, reached, sub_on, sub_round, receive_loop}
use pulsemq_cli.Subscribe.Serve.{
  messages, delivered, Served, Handled, Handled-Put, Handled-nothing, Handled-message,
  delivered_split, Served-step, Idle-Served,
}
use pulsemq_cli.Subscribe.Laws.{Put, send-Put, answer, acknowledge-Put}

-- What each packet of the broker is answered with.
abbrev pub reply : Protocol → Packet → List Packet
reply P (publish m) = answer P m.packet_id m.qos
reply P (pubrel rel) = pubcomp (pub_ack P rel.packet_id) ∷ []
reply P _ = []

module _ (P : Protocol) (show_topic : Bool) (limit : Option ℕ) where
  -- How a round that handled `p` ends. Only a message can end the loop, by reaching the limit.
  abbrev Ended : Packet → ℕ → Client → Next ℕ (Unit {0}) → Client → Type 0
  Ended p seen c (again seen') d =
      Handled (reply P) show_topic p c d
      × (seen' ≡ seen + length (messages (p ∷ [])))
      × (reached limit seen ≡ false → reached limit seen' ≡ false)
  Ended p seen c (finish u) d =
      Handled (reply P) show_topic p c d
      × (length (messages (p ∷ [])) ≡ 1)
      × (reached limit (seen + 1) ≡ true)

  sub_on-Ended :
      (seen : ℕ) (p : Packet) (c : Client)
      → Ensures (Ended p seen c) (λ _. ⊥) (sub_on P limit show_topic seen p c)
  unfolding sub_on
  sub_on-Ended seen (publish m) c =
      and_then-Ensures (λ _ d. Put (answer P m.packet_id m.qos) c d) (λ _. ⊥)
        (Ended (publish m) seen c) (acknowledge P m c) _ (acknowledge-Put P m c)
        (λ _ d put. elim (Bool-cases (reached limit (seen + 1))) [
          | inl e ↦ rw e (Handled-message (reply P) show_topic m c d put, refl, e)
          | inr e ↦ rw e (Handled-message (reply P) show_topic m c d put, refl, λ _. e)
        ])
  sub_on-Ended seen (pubrel rel) c =
      and_then-Ensures (λ _ d. Put (pubcomp (pub_ack P rel.packet_id) ∷ []) c d) (λ _. ⊥)
        (Ended (pubrel rel) seen c) (send (pubcomp (pub_ack P rel.packet_id)) c) _ (send-Put _ c)
        (λ _ d put.
          (Handled-Put (reply P) show_topic (pubrel rel) c d refl put, omega arith, λ h. h))
  sub_on-Ended seen (disconnect code) c = tt
  sub_on-Ended seen p c = (Handled-nothing (reply P) show_topic p c refl refl, omega arith, λ h. h)

  -- What holds between two rounds.
  abbrev Between : Client → ℕ → Client → Type 0
  Between c seen d =
      Served (reply P) show_topic c d
      × (seen + length (delivered d) ≡ length (delivered c))
      × (reached limit seen ≡ false)

  -- The end of the loop: the limit's number of messages has been taken off.
  abbrev pub Complete : Client → Client → Type 0
  Complete c d =
      Served (reply P) show_topic c d
      × (seen : ℕ) × (seen + 1 + length (delivered d) ≡ length (delivered c))
      × (reached limit seen ≡ false)
      × (reached limit (seen + 1) ≡ true)

  -- The loop waits: all that came has been served, and the limit is not reached.
  abbrev pub Waits : Client → Client → Type 0
  Waits c d =
      Served (reply P) show_topic c d
      × (d.stream.incoming ≡ [])
      × (reached limit (length (delivered c)) ≡ false)

  Ended-Between :
      (c : Client) (seen : ℕ) (b a : Client) (p : Packet)
      → Between c seen b
      → Arrived b p a
      → (n : Next ℕ (Unit {0})) (d : Client) → Ended p seen a n d
      → Round
          (λ seen' e. Between c seen' e × (length e.stream.incoming < length b.stream.incoming))
          (λ _ e. Complete c e)
          n
          d
  Ended-Between c seen b a p k r (again seen') d e = (
    (
      Served-step (reply P) show_topic c b a d p k.0 r e.0,
      omega (
        arith,
        ap length (delivered_split (reply P) show_topic c b a d p k.0 r e.0),
        length-append (messages (p ∷ [])) (delivered d),
      ),
      e.2 k.2,
    ),
    omega (arith, ap length e.0.0),
  )
  Ended-Between c seen b a p k r (finish u) d e = (
    Served-step (reply P) show_topic c b a d p k.0 r e.0,
    seen,
    omega (
      arith,
      ap length (delivered_split (reply P) show_topic c b a d p k.0 r e.0),
      length-append (messages (p ∷ [])) (delivered d),
    ),
    k.2,
    e.2,
  )

  Idle-Waits : (c : Client) (seen : ℕ) (b a : Client) → Between c seen b → Idle b a → Waits c a
  Idle-Waits c seen b a k i = (
    Idle-Served (reply P) show_topic c b a k.0 i,
    i.2,
    ap (reached limit) (omega (arith, k.1, ap length (ap messages i.1))) ∙ k.2,
  )

  Round-Between :
      (c : Client) (seen : ℕ) (b : Client)
      → Between c seen b
      → Ensures
          (Round
            (λ seen' d. Between c seen' d × (length d.stream.incoming < length b.stream.incoming))
            (λ _ d. Complete c d))
          (Waits c)
          (sub_round P limit show_topic seen b)
  unfolding sub_round
  Round-Between c seen b k =
      and_then-Ensures (Arrived b) (Waits c) _ (recv_keepalive b) (sub_on P limit show_topic seen)
        (weaken-Ensures (Arrived b) (Idle b) (Arrived b) (Waits c) (recv_keepalive b)
          (recv_keepalive-Arrived b) (λ p a r. r) (λ a i. Idle-Waits c seen b a k i))
        (λ p a r.
          weaken-Ensures (Ended p seen a) (λ _. ⊥) _ (Waits c) (sub_on P limit show_topic seen p a)
            (sub_on-Ended seen p a) (Ended-Between c seen b a p k r) (λ _ x. absurd x))

  -- Unless the limit is 0, the receive loop of `sub` prints every message that it takes off, in
  -- order, and answers every packet as its QoS asks; when it succeeds the limit has just been
  -- reached, and when it waits it has served all that came and the limit is not reached.
  pub receive_loop-Ensures :
      (c : Client)
      → reached limit 0 ≡ false
      → Ensures (λ _ d. Complete c d) (Waits c) (receive_loop P limit show_topic c)
  unfolding receive_loop
  receive_loop-Ensures c h =
      loop-Ensures (λ d. length d.stream.incoming) (Between c) (λ _ d. Complete c d) (Waits c)
        (sub_round P limit show_topic) (Round-Between c) (fuel c) 0 c (omega arith)
        ((refl, refl, refl, refl), omega arith, h)
