-- ===== src/Subscribe/Liveness.antt =====
-- Where nothing goes wrong, `sub` gets to its limit.
use pulsemq_cli.Base.{ℕ, Bool, true, false, Option, none, some, length, ◌≡◌}
use pulsemq_cli.Mqtt.{
  QoS, at_most_once, at_least_once, exactly_once, Protocol, Packet, Publish, publish, puback,
  pubrec, pubrel, pubcomp, disconnect,
}
use pulsemq_cli.Io.{done}
use pulsemq_cli.Client.{Client, recv_keepalive}
use pulsemq_cli.Client.Calm.{
  finishes, Unfailing, and_then-Unfailing, loop-Unfailing, IsCalm, Calm, send-Calm,
  recv_keepalive-Calm,
}
use pulsemq_cli.Subscribe.{
  fuel, pub_ack, acknowledge, acknowledge_with, sub_on, sub_round, receive_loop, reached,
}
use pulsemq_cli.Subscribe.Serve.{delivered}
use pulsemq_cli.Subscribe.Run
use pulsemq_cli.Subscribe.Run.{receive_loop-Ensures}

module _ (P : Protocol) where
  acknowledge_with-Calm :
      (qos : QoS) (id : ℕ) (c : Client)
      → Calm c
      → Unfailing (λ _ d. Calm d) (acknowledge_with P qos id c)
  unfolding acknowledge_with
  acknowledge_with-Calm at_most_once id c h = h
  acknowledge_with-Calm at_least_once id c h = send-Calm (puback (pub_ack P id)) c h
  acknowledge_with-Calm exactly_once id c h = send-Calm (pubrec (pub_ack P id)) c h

  pub acknowledge-Calm :
      (m : Publish) (c : Client) → Calm c → Unfailing (λ _ d. Calm d) (acknowledge P m c)
  unfolding acknowledge
  acknowledge-Calm m c h =
      elim m.packet_id
        as (λ o. Unfailing (λ _ d. Calm d) (acknowledge P (record m { packet_id = o }) c)) [
          | none ↦ h
          | some id ↦ acknowledge_with-Calm m.qos id c h
        ]

  module _ (show_topic : Bool) (limit : Option ℕ) where
    sub_on-Calm :
        (seen : ℕ) (p : Packet) (c : Client)
        → IsCalm p
        → Calm c
        → Unfailing (λ _ d. Calm d) (sub_on P limit show_topic seen p c)
    unfolding sub_on
    sub_on-Calm seen (publish m) c k h =
        and_then-Unfailing (λ _ d. Calm d) (λ _ d. Calm d) (acknowledge P m c) _
          (acknowledge-Calm m c h) (λ _ d g. g)
    sub_on-Calm seen (pubrel rel) c k h =
        and_then-Unfailing (λ _ d. Calm d) (λ _ d. Calm d) _ _
          (send-Calm (pubcomp (pub_ack P rel.packet_id)) c h) (λ _ d g. g)
    sub_on-Calm seen (disconnect code) c k h = absurd k
    sub_on-Calm seen p c k h = h

    sub_round-Calm :
        (seen : ℕ) (c : Client)
        → Calm c
        → Unfailing (λ _ d. Calm d) (sub_round P limit show_topic seen c)
    unfolding sub_round
    sub_round-Calm seen c h =
        and_then-Unfailing (λ p d. IsCalm p × Calm d) (λ _ d. Calm d) (recv_keepalive c) _
          (recv_keepalive-Calm c h) (λ p d k. sub_on-Calm seen p d k.0 k.1)

    pub receive_loop-Calm :
        (c : Client) → Calm c → Unfailing (λ _ d. Calm d) (receive_loop P limit show_topic c)
    unfolding receive_loop
    receive_loop-Calm c h =
        loop-Unfailing Calm (sub_round P limit show_topic) sub_round-Calm (fuel c) 0 c h

    -- Where no write fails, the stream neither ends nor breaks, the broker does not disconnect, and
    -- the messages among what comes reach the limit, which is not 0, the receive loop of `sub`
    -- ends, with just the limit reached and all that it took off printed and answered.
    pub receive_loop-Finishes :
        (c : Client)
        → Calm c
        → reached limit 0 ≡ false
        → reached limit (length (delivered c)) ≡ true
        → (d : Client) × (receive_loop P limit show_topic c ≡ done tt d)
          × Run.Complete P show_topic limit c d
    receive_loop-Finishes c h l e =
        finishes (Run.Waits P show_topic limit c) (Run.Complete P show_topic limit c)
          (receive_loop P limit show_topic c) (receive_loop-Ensures P show_topic limit c l)
          (receive_loop-Calm c h) (λ d w. absurd (cc (w.2, e)))
