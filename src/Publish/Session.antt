-- ===== src/Publish/Session.antt =====
-- A whole run of `pub`, from its arguments to the DISCONNECT.
use mathlib.Core.List.{append-nil, append_assoc}
use pulsemq_cli.Base.{ℕ, ◌+◌, List, [], ◌∷◌, ◌++◌, Bytes, ◌≡◌, sym, ap, subst, ◌∙◌, arith}
use pulsemq_cli.Mqtt
use pulsemq_cli.Mqtt.{
  QoS, Protocol, IsLawful, Packet, Connect, Connack, connect, connack, disconnect,
}
use pulsemq_cli.Error.{ok, from_mqtt}
use pulsemq_cli.Cli.{PubArgs, IsParsed}
use pulsemq_cli.Host.{Host}
use pulsemq_cli.Io.{World, and_then}
use pulsemq_cli.Io.Laws.{lift_result-Ensures, Ensures, and_then-Ensures, weaken-Ensures, packets}
use pulsemq_cli.Client.{Client, connect_client, close}
use pulsemq_cli.Client.Connected.{Connected, connect_client-Connected, with_client-Ensures}
use pulsemq_cli.Subscribe.Laws.{Put, send-Put}
use pulsemq_cli.Publish.{
  PayloadSource, once, lines, resolve_payload, resolve_properties, publish_source, publish_one, run,
}
use pulsemq_cli.Publish.Handshake.{Acked}
use pulsemq_cli.Publish.Exchanged.{acks_of, Exchanged, Exchanged-Put, Exchanged-trans}
use pulsemq_cli.Publish.Exchange.{
  payloads, exchanges, acks_for, publish_one-Steps, publish_lines-Exchanged, ids_of,
}

plus_zero : (n : ℕ) → n ≡ n + 0
plus_zero n = omega arith

module _ (P : Protocol) (host : Host) (args : PubArgs) where
  -- The messages that are asked for.
  abbrev pub messages_of : PayloadSource → List Bytes
  messages_of (once payload) = payload ∷ []
  messages_of lines = payloads P host.stdin_lines

  publish_source-Exchanged :
      (source : PayloadSource) (qos : QoS) (properties : Mqtt.Properties) (c : Client)
      → Ensures
          (λ _ d.
            Exchanged P
              (exchanges P args qos properties c.next_packet_id (messages_of source))
              (acks_for P qos (messages_of source))
              c
              d)
          (λ _. Unit)
          (publish_source P host args qos properties source c)
  unfolding publish_source
  publish_source-Exchanged (once payload) qos properties c =
      weaken-Ensures _ (λ _. Unit) _ (λ _. Unit)
        (publish_one P args.topic payload qos args.retain properties c)
        (publish_one-Steps P args.topic payload qos args.retain properties c)
        (λ _ d k.
          subst (λ ps. Exchanged P ps (acks_for P qos (payload ∷ [])) c d) (sym (append-nil _))
            (subst
              (λ n. Exchanged P (ids_of P qos args.topic args.retain properties payload c) n c d)
              (plus_zero (acks_of P qos)) k.0))
        (λ d x. tt)
  publish_source-Exchanged lines qos properties c =
      publish_lines-Exchanged P args qos properties host.stdin_lines c

  session-Exchanged :
      (source : PayloadSource) (qos : QoS) (properties : Mqtt.Properties) (c : Client)
      → Ensures
          (λ _ d.
            Exchanged P
              (exchanges P args qos properties c.next_packet_id (messages_of source)
                ++ (disconnect P.success ∷ []))
              (acks_for P qos (messages_of source))
              c
              d)
          (λ _. Unit)
          (and_then (publish_source P host args qos properties source c) λ _. close P)
  unfolding close
  session-Exchanged source qos properties c =
      and_then-Ensures
        (λ _ d.
          Exchanged P (exchanges P args qos properties c.next_packet_id (messages_of source))
            (acks_for P qos (messages_of source)) c d)
        (λ _. Unit) _ (publish_source P host args qos properties source c) _
        (publish_source-Exchanged source qos properties c)
        (λ _ d k.
          weaken-Ensures (λ _ e. Put (disconnect P.success ∷ []) d e) (λ _. ⊥) _ (λ _. Unit)
            (close P d) (send-Put (disconnect P.success) d)
            (λ _ e put.
              subst
                (λ n.
                  Exchanged P
                    (exchanges P args qos properties c.next_packet_id (messages_of source)
                      ++ (disconnect P.success ∷ []))
                    n c e)
                (sym (plus_zero (acks_for P qos (messages_of source))))
                (Exchanged-trans P _ (disconnect P.success ∷ []) _ 0 c d e k
                  (Exchanged-Put P (disconnect P.success ∷ []) d e put)))
            (λ e x. tt))

  -- What a run that succeeds has done with the connection that it made.
  abbrev pub Published : World → World → Type 0
  Published w w' =
      (qos : QoS) × (source : PayloadSource) × (properties : Mqtt.Properties) × (given : Connect)
      × (ack : Connack) × (taken : List Packet) × (from_mqtt (P.qos_from_u8 args.qos) ≡ ok qos)
      × (resolve_payload host args ≡ ok source)
      × (resolve_properties P args ≡ ok properties)
      × (w'.sent
          ≡ w.sent
            ++ (connect given
                ∷ (exchanges P args qos properties 0 (messages_of source)
                    ++ (disconnect P.success ∷ []))))
      × (packets w.incoming ≡ connack ack ∷ (taken ++ packets w'.incoming))
      × (ack.reason_code ≡ P.success)
      × Acked P (acks_for P qos (messages_of source)) taken
      × (w'.printed ≡ w.printed)

  Exchanged-Published :
      (qos : QoS) (source : PayloadSource) (properties : Mqtt.Properties)
      → from_mqtt (P.qos_from_u8 args.qos) ≡ ok qos
      → resolve_payload host args ≡ ok source
      → resolve_properties P args ≡ ok properties
      → (w : World) (c : Client) (v : World) (d : Client) → Connected P host args.conn w c v
      → Exchanged P
          (exchanges P args qos properties c.next_packet_id (messages_of source)
            ++ (disconnect P.success ∷ []))
          (acks_for P qos (messages_of source))
          c
          d
      → Published w d.stream
  Exchanged-Published qos source properties q s p w c v d k x =
      let (u, n, shaken, sent, incoming, printed, dials, zero_id, stream) = k in
      let (max, given, ack, e0, e1, e2, e3, e4, e5, e6, e7, came, success, e9, e10, e11, quiet) =
        shaken in
      let (wrote, silent, taken, took, acked) = x in
      (
        qos,
        source,
        properties,
        given,
        ack,
        taken,
        q,
        s,
        p,
        wrote
            ∙ ap
                (λ i.
                  c.stream.sent
                  ++ (exchanges P args qos properties i (messages_of source)
                      ++ (disconnect P.success ∷ [])))
                zero_id
            ∙ ap
                (λ l.
                  l
                  ++ (exchanges P args qos properties 0 (messages_of source)
                      ++ (disconnect P.success ∷ [])))
                (ap (λ (t : World). t.sent) stream ∙ e1 ∙ ap (λ l. l ++ (connect given ∷ [])) sent)
            ∙ append_assoc w.sent (connect given ∷ []) _,
        ap packets (sym incoming)
            ∙ came
            ∙ ap (λ (t : World). connack ack ∷ packets t.incoming) (sym stream)
            ∙ ap (◌∷◌ (connack ack)) took,
        success,
        acked,
        silent ∙ ap (λ (t : World). t.printed) stream ∙ quiet ∙ printed,
      )

  pub run-Published :
      IsLawful P
      → IsParsed args.conn
      → (w : World) → Ensures (λ _ w'. Published w w') (λ _. Unit) (run P host args w)
  unfolding run
  run-Published L h w = lift_result-Ensures _ (from_mqtt (P.qos_from_u8 args.qos)) _ w (λ qos q.
      lift_result-Ensures _ (resolve_payload host args) _ w (λ source s.
        lift_result-Ensures _ (resolve_properties P args) _ w (λ properties p.
          and_then-Ensures (Connected P host args.conn w) (λ _. Unit) _
            (connect_client P host args.conn w) _ (connect_client-Connected P host args.conn L h w)
            (λ c v k.
              with_client-Ensures _ (λ _ w'. Published w w') _ c v k.8
                (session-Exchanged source qos properties c)
                (λ _ d x. Exchanged-Published qos source properties q s p w c v d k x)))))
