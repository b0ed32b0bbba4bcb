-- ===== src/Publish/Success.antt =====
-- When a run of `pub` succeeds.
use pulsemq_cli.Base.{ℕ, ◌+◌, List, [], ◌∷◌, map, Bytes, ◌≡◌, refl, sym, subst, arith, inr}
use pulsemq_cli.Mqtt
use pulsemq_cli.Mqtt.{QoS, Protocol, disconnect}
use pulsemq_cli.Error.{ok, from_mqtt}
use pulsemq_cli.Cli.{PubArgs}
use pulsemq_cli.Host.{Host}
use pulsemq_cli.Io.{Event, World, Outcome, and_then}
use pulsemq_cli.Client.{Client, connect_client, with_client, leave, close}
use pulsemq_cli.Io.Success.{Gives, and_then-Gives, ok_then}
use pulsemq_cli.Client.Success.{CanConnect, connect_client-Fit}
use pulsemq_cli.Publish.{
  PayloadSource, once, lines, resolve_payload, resolve_properties, publish_source, publish_lines,
  run,
}
use pulsemq_cli.Publish.Exchange.{acks_for}
use pulsemq_cli.Publish.Liveness.{
  Smooth, Grants, Succeeds, and_then-Succeeds, send-Succeeds, publish_one-Succeeds,
  publish_lines-Succeeds,
}

plus_zero : (n : ℕ) → n ≡ n + 0
plus_zero n = omega arith

module _ (P : Protocol) (host : Host) (args : PubArgs) where
  -- The messages are to be had: standard input, where it is asked for, has just these lines.
  abbrev pub Offers : PayloadSource → List Bytes → Type 0
  Offers (once payload) messages = messages ≡ payload ∷ []
  Offers lines messages = host.stdin_lines ≡ map inr messages

  publish_source-Succeeds :
      (rest : List Event) (source : PayloadSource) (messages : List Bytes) (qos : QoS)
      (properties : Mqtt.Properties) (c : Client)
      → Offers source messages
      → Smooth c
      → Grants P rest (acks_for P qos messages) c.stream.incoming
      → Succeeds P rest 0 (publish_source P host args qos properties source c)
  unfolding publish_source
  publish_source-Succeeds rest (once payload) messages qos properties c o h g =
      publish_one-Succeeds P rest 0 args.topic payload qos args.retain properties c h
        (subst (λ ms. Grants P rest (acks_for P qos ms) c.stream.incoming) o g)
  publish_source-Succeeds rest lines messages qos properties c o h g =
      subst (λ ls. Succeeds P rest 0 (publish_lines P args qos properties ls c)) (sym o)
        (publish_lines-Succeeds P rest 0 args qos properties messages c h
          (subst (λ n. Grants P rest n c.stream.incoming) (plus_zero _) g))

  session-Succeeds :
      (rest : List Event) (source : PayloadSource) (messages : List Bytes) (qos : QoS)
      (properties : Mqtt.Properties) (c : Client)
      → Offers source messages
      → Smooth c
      → Grants P rest (acks_for P qos messages) c.stream.incoming
      → Succeeds P rest 0
          (and_then (publish_source P host args qos properties source c) λ _. close P)
  unfolding close
  session-Succeeds rest source messages qos properties c o h g =
      and_then-Succeeds P rest 0 0 (publish_source P host args qos properties source c) (close P)
        (publish_source-Succeeds rest source messages qos properties c o h g)
        (λ d i j. send-Succeeds P rest 0 (disconnect P.success) d i j)

  -- Left by the session.
  leave-Gives :
      (rest : List Event) (o : Outcome Client (Unit {0}))
      → Succeeds P rest 0 o
      → Gives (λ _ w. w.incoming ≡ rest) (leave o)
  unfolding leave
  leave-Gives rest o (d, e, h, g) =
      subst (λ x. Gives (λ _ w. w.incoming ≡ rest) (leave x)) (sym e) (tt, d.stream, refl, g)

  pub run-Gives :
      (qos : QoS) (source : PayloadSource) (properties : Mqtt.Properties) (messages : List Bytes)
      (es rest : List Event) (w : World)
      → from_mqtt (P.qos_from_u8 args.qos) ≡ ok qos
      → resolve_payload host args ≡ ok source
      → resolve_properties P args ≡ ok properties
      → Offers source messages
      → CanConnect P host args.conn es w
      → Grants P rest (acks_for P qos messages) es
      → Gives (λ _ w'. w'.incoming ≡ rest) (run P host args w)
  unfolding run with_client
  run-Gives qos source properties messages es rest w q s p o can g =
      let Q : Unit {0} → World → Type 0 = λ _ w'. w'.incoming ≡ rest in
      ok_then Q (from_mqtt (P.qos_from_u8 args.qos)) qos w _ q (
        ok_then Q (resolve_payload host args) source w _ s (
          ok_then Q (resolve_properties P args) properties w _ p (
            and_then-Gives _ Q (connect_client P host args.conn w) _
              (connect_client-Fit P host args.conn es w can)
              (λ c v f. leave-Gives rest _ (
                session-Succeeds rest source messages qos properties (record c { stream = v }) o f.1
                  (subst (Grants P rest (acks_for P qos messages)) (sym f.0) g))))))
