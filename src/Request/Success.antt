-- ===== src/Request/Success.antt =====
-- When a run of `request` succeeds.
use pulsemq_cli.Base.{
  ℕ, suc, ◌≤◌, Bool, false, none, some, List, [], ◌∷◌, length, ltb, ◌≡◌, sym, subst, arith, inl,
  inr, Bool-cases,
}
use pulsemq_cli.Mqtt.{
  QoS, at_most_once, at_least_once, exactly_once, Protocol, Packet, disconnect, publish, pubrel,
  pubrec, pubcomp,
}
use pulsemq_cli.Error.{ok, from_mqtt}
use pulsemq_cli.Cli
use pulsemq_cli.Cli.{RequestArgs}
use pulsemq_cli.Host.{Host}
use pulsemq_cli.Io.{Event, World, and_then}
use pulsemq_cli.Io.Laws.{Ensures, packets}
use pulsemq_cli.Io.Success.{Gives, and_then-Gives, ok_then}
use pulsemq_cli.Client.{
  Client, send, recv_keepalive, close, connect_client, with_client, next_packet_id, step_packet_id,
}
use pulsemq_cli.Client.Calm.{
  finishes, IsCalm, AreCalm, Calm, Unfailing, and_then-Unfailing, loop-Unfailing, send-Calm,
  recv_keepalive-Calm,
}
use pulsemq_cli.Client.Success.{CanConnect, connect_client-Fit, Live, send-Live}
use pulsemq_cli.Subscribe.{fuel, pub_ack, acknowledge, subscribe}
use pulsemq_cli.Subscribe.Liveness.{acknowledge-Calm}
use pulsemq_cli.Subscribe.Serve.{messages}
use pulsemq_cli.Subscribe.Success.{Answers, subscribe-Live, close-Gives, leave-Gives}
use pulsemq_cli.Request.{
  reply_on, reply_round, reply_loop, ask, packet_id_for, request_packet, request_session, is_v3_1,
  run,
}
use pulsemq_cli.Request.Laws
use pulsemq_cli.Request.Laws.{reply_loop-Ensures}

module _ (P : Protocol) (show_topic : Bool) (count : ℕ) where
  reply_on-Calm :
      (seen : ℕ) (p : Packet) (c : Client)
      → IsCalm p
      → Calm c
      → Unfailing (λ _ d. Calm d) (reply_on P show_topic seen p c)
  unfolding reply_on
  reply_on-Calm seen (publish m) c k h =
      and_then-Unfailing (λ _ d. Calm d) (λ _ d. Calm d) (acknowledge P m c) _
        (acknowledge-Calm P m c h) (λ _ d g. g)
  reply_on-Calm seen (pubrel rel) c k h =
      and_then-Unfailing (λ _ d. Calm d) (λ _ d. Calm d) _ _
        (send-Calm (pubcomp (pub_ack P rel.packet_id)) c h) (λ _ d g. g)
  reply_on-Calm seen (pubrec rec) c k h =
      and_then-Unfailing (λ _ d. Calm d) (λ _ d. Calm d) _ _
        (send-Calm (pubrel (pub_ack P rec.packet_id)) c h) (λ _ d g. g)
  reply_on-Calm seen (disconnect code) c k h = absurd k
  reply_on-Calm seen p c k h = h

  reply_round-Calm :
      (seen : ℕ) (c : Client)
      → Calm c
      → Unfailing (λ _ d. Calm d) (reply_round P show_topic count seen c)
  unfolding reply_round
  reply_round-Calm seen c h = elim (Bool-cases (ltb seen count)) [
    | inl l ↦ rw l (
        and_then-Unfailing (λ p d. IsCalm p × Calm d) (λ _ d. Calm d) (recv_keepalive c) _
          (recv_keepalive-Calm c h) (λ p d k. reply_on-Calm seen p d k.0 k.1))
    | inr l ↦ rw l h
  ]

  reply_loop-Calm :
      (c : Client) → Calm c → Unfailing (λ _ d. Calm d) (reply_loop P show_topic count c)
  unfolding reply_loop
  reply_loop-Calm c h =
      loop-Unfailing Calm (reply_round P show_topic count) reply_round-Calm (suc (fuel c)) 0 c h

  -- Where the reply loop of `request` succeeds it has printed just the first `count` messages and
  -- answered every packet on the way, in order; where it waits it has served all that came, with
  -- fewer than `count` messages. It does one of the two, and does not fail, where no write fails,
  -- the stream neither ends nor breaks and the broker does not disconnect.
  pub reply_loop_lem :
      (c : Client)
      → Ensures
          (λ _ d. Laws.Complete P show_topic count c d)
          (Laws.Waits P show_topic count c)
          (reply_loop P show_topic count c)
        × (Calm c → Unfailing (λ _ d. Calm d) (reply_loop P show_topic count c))
  reply_loop_lem c = (reply_loop-Ensures P show_topic count c, reply_loop-Calm c)

  -- The reply loop, and then the DISCONNECT.
  replied_Gives :
      (c : Client)
      → Calm c
      → count ≤ length (messages (packets c.stream.incoming))
      → Gives (λ _ _. Unit {0}) (and_then (reply_loop P show_topic count c) λ _. close P)
  replied_Gives c h l =
      let (d, o, k) =
        finishes (Laws.Waits P show_topic count c) (Laws.Complete P show_topic count c)
          (reply_loop P show_topic count c) (reply_loop-Ensures P show_topic count c)
          (reply_loop-Calm c h) (λ d w. omega (arith, w.2)) in
      let calm : Calm d = subst (Unfailing (λ _ x. Calm x)) o (reply_loop-Calm c h) in
      subst (λ x. Gives (λ _ _. Unit {0}) (and_then x λ _. close P)) (sym o)
        (close-Gives P d calm.0)

module _ (P : Protocol) (host : Host) (args : RequestArgs) where
  publish-Live :
      (rest : List Event) (qos : QoS) (c : Client)
      → Live rest c
      → Gives
          (λ _ d. Live rest d)
          (and_then (packet_id_for P qos c) λ id d. send (request_packet P args qos id) d)
  unfolding next_packet_id
  publish-Live rest at_most_once c h = send-Live rest (request_packet P args at_most_once none) c h
  publish-Live rest at_least_once c h =
      let id : ℕ = step_packet_id c.next_packet_id in
      send-Live rest (request_packet P args at_least_once (some id))
        (record c { next_packet_id = id }) h
  publish-Live rest exactly_once c h =
      let id : ℕ = step_packet_id c.next_packet_id in
      send-Live rest (request_packet P args exactly_once (some id))
        (record c { next_packet_id = id }) h

  ask-Live :
      (rest es : List Event) (qos : QoS) (c : Client)
      → Live es c
      → Answers P (args.reply_topic ∷ []) rest es
      → Gives (λ _ d. Live rest d) (ask P args qos c)
  unfolding ask next_packet_id
  ask-Live rest es qos c h a =
      and_then-Gives (λ _ d. Live rest d) (λ _ d. Live rest d)
        (subscribe P (args.reply_topic ∷ []) qos c) _
        (subscribe-Live P (args.reply_topic ∷ []) rest es qos c h a)
        (λ _ d k. publish-Live rest qos d k)

  request_session-Gives :
      (rest es : List Event) (qos : QoS) (c : Client)
      → Live es c
      → Answers P (args.reply_topic ∷ []) rest es
      → AreCalm rest
      → args.count ≤ length (messages (packets rest))
      → Gives (λ _ _. Unit {0}) (request_session P args qos c)
  unfolding request_session
  request_session-Gives rest es qos c h a calm l =
      and_then-Gives (λ _ d. Live rest d) (λ _ _. Unit {0}) (ask P args qos c) _
        (ask-Live rest es qos c h a)
        (λ _ d k.
          replied_Gives P args.show_topic args.count d (k.1, subst AreCalm (sym k.0) calm)
            (subst (λ xs. args.count ≤ length (messages (packets xs))) (sym k.0) l))

  pub run-Gives :
      (qos : QoS) (es rest : List Event) (w : World)
      → is_v3_1 P (Cli.version args.conn) ≡ false
      → from_mqtt (P.qos_from_u8 args.qos) ≡ ok qos
      → CanConnect P host args.conn es w
      → Answers P (args.reply_topic ∷ []) rest es
      → AreCalm rest
      → args.count ≤ length (messages (packets rest))
      → Gives (λ _ _. Unit {0}) (run P host args w)
  unfolding run with_client
  run-Gives qos es rest w v q can a calm l = rw v (
      ok_then (λ _ _. Unit {0}) (from_mqtt (P.qos_from_u8 args.qos)) qos w _ q
        (and_then-Gives _ (λ _ _. Unit {0}) (connect_client P host args.conn w) _
          (connect_client-Fit P host args.conn es w can)
          (λ c x f.
            leave-Gives _
              (request_session-Gives rest es qos (record c { stream = x }) f a calm l))))
