-- ===== src/Main/Success.antt =====
-- When the process exits with 0.
use pulsemq_cli.Base.{◌≤◌, true, false, List, [], ◌∷◌, Bytes, length, ◌≡◌, ap, subst}
use pulsemq_cli.Mqtt
use pulsemq_cli.Mqtt.{QoS, IsLawful}
use pulsemq_cli.Error.{ok, from_mqtt}
use pulsemq_cli.Cli
use pulsemq_cli.Cli.{PubArgs, SubArgs, RequestArgs, BenchArgs, effective_limit}
use pulsemq_cli.Io.{Event, World, done}
use pulsemq_cli.Io.Laws.{Ensures, packets}
use pulsemq_cli.Client.Calm.{AreCalm}
use pulsemq_cli.Client.Success.{CanConnect}
use pulsemq_cli.Publish.{PayloadSource, resolve_payload, resolve_properties}
use pulsemq_cli.Publish.Exchange.{acks_for}
use pulsemq_cli.Publish.Liveness.{Grants}
use pulsemq_cli.Publish.Success as PublishSuccess
use pulsemq_cli.Publish.Success.{Offers}
use pulsemq_cli.Subscribe.{reached}
use pulsemq_cli.Subscribe.Serve.{messages}
use pulsemq_cli.Subscribe.Success as SubscribeSuccess
use pulsemq_cli.Subscribe.Success.{Answers}
use pulsemq_cli.Request.{is_v3_1}
use pulsemq_cli.Request.Success as RequestSuccess
use pulsemq_cli.Bench.Config.{Config, Joined, from_args}
use pulsemq_cli.Bench.Run
use pulsemq_cli.Bench.Run.Laws.{Ended, WentWell, run_done}
use pulsemq_cli.Main.{
  Command, command_pub, command_sub, command_request, command_bench, Cli, success, Platform,
  run_command, exit_with, main,
}
use pulsemq_cli.Main.Exit.{CanReport, IsCommand, Accomplished, run_command-Accomplished}

module _ {F : Type 0} (k : Platform F) where
  -- The arguments are sound, the broker can be reached, no write fails, and the broker gives the
  -- acknowledgements that the messages ask for, with PINGRESPs and runs of the timer between them.
  pub record CanPublish (args : PubArgs) (w : World) : Type 0 where
    pub qos : QoS
    pub source : PayloadSource
    pub properties : Mqtt.Properties
    pub messages : List Bytes
    pub session : List Event
    pub rest : List Event
    pub known : from_mqtt (k.protocol.qos_from_u8 args.qos) ≡ ok qos
    pub readable : resolve_payload k.host args ≡ ok source
    pub expressible : resolve_properties k.protocol args ≡ ok properties
    pub offered : Offers k.protocol k.host args source messages
    pub reachable : CanConnect k.protocol k.host args.conn session w
    pub granted : Grants k.protocol rest (acks_for k.protocol qos messages) session

  -- The arguments are sound, the broker can be reached, no write fails, and the broker accepts the
  -- subscription and then sends at least as many messages as the limit has, and no DISCONNECT.
  pub record CanListen (args : SubArgs) (w : World) : Type 0 where
    pub qos : QoS
    pub session : List Event
    pub rest : List Event
    pub topical : args.topic ≡ [] → ⊥
    pub known : from_mqtt (k.protocol.qos_from_u8 args.qos) ≡ ok qos
    pub reachable : CanConnect k.protocol k.host args.conn session w
    pub answered : Answers k.protocol args.topic rest session
    pub calm : AreCalm rest
    pub enough : reached (effective_limit args) (length (messages (packets rest))) ≡ true

  -- As for `sub`, with the reply topic and the number of replies.
  pub record CanAsk (args : RequestArgs) (w : World) : Type 0 where
    pub qos : QoS
    pub session : List Event
    pub rest : List Event
    pub supported : is_v3_1 k.protocol (Cli.version args.conn) ≡ false
    pub known : from_mqtt (k.protocol.qos_from_u8 args.qos) ≡ ok qos
    pub reachable : CanConnect k.protocol k.host args.conn session w
    pub answered : Answers k.protocol (args.reply_topic ∷ []) rest session
    pub calm : AreCalm rest
    pub enough : args.count ≤ length (messages (packets rest))

  -- The arguments are sound and every connection came to a good end.
  pub record CanMeasure (args : BenchArgs F) : Type 0 where
    pub config : Config F
    pub resolved : from_args k.float k.protocol args ≡ ok config
    pub publishers : List Joined
    pub subscribers : List Joined
    pub ends : Ended k.float k.protocol k.to_string_pretty config k.tasks publishers subscribers
    pub well : WentWell k.float k.protocol k.to_string_pretty k.tasks publishers subscribers

  abbrev pub Can : Command F → World → Type 0
  Can (command_pub args) w = CanPublish args w
  Can (command_sub args) w = CanListen args w
  Can (command_request args) w = CanAsk args w
  Can (command_bench args) w = CanMeasure args

  bench_Gives :
      (args : BenchArgs F) (w : World)
      → CanReport k args
      → CanMeasure args
      → (v : World) × (Run.run k.float k.protocol k.to_string_pretty k.tasks args w ≡ done tt v)
  bench_Gives args w sound can =
      run_done k.float k.protocol k.to_string_pretty k.tasks args can.config can.publishers
        can.subscribers w can.resolved (sound.0 can.config can.resolved) sound.1 can.ends can.well

  run_command-Gives :
      (c : Command F) (w : World)
      → IsCommand k c
      → Can c w
      → (v : World) × (run_command k c w ≡ done tt v)
  unfolding run_command
  run_command-Gives (command_pub args) w h can =
      let (u, v, e, g) =
        PublishSuccess.run-Gives k.protocol k.host args can.qos can.source can.properties
          can.messages can.session can.rest w can.known can.readable can.expressible can.offered
          can.reachable can.granted in
      (v, e)
  run_command-Gives (command_sub args) w h can =
      let (u, v, e, g) =
        SubscribeSuccess.run-Gives k.protocol k.host args can.qos can.session can.rest w can.topical
          can.known can.reachable can.answered can.calm can.enough in
      (v, e)
  run_command-Gives (command_request args) w h can =
      let (u, v, e, g) =
        RequestSuccess.run-Gives k.protocol k.host args can.qos can.session can.rest w can.supported
          can.known can.reachable can.answered can.calm can.enough in
      (v, e)
  run_command-Gives (command_bench args) w h can = bench_Gives args w h can

  -- A parsed command line for which nothing goes wrong exits with 0, and its command has then done
  -- what it was asked for. For `pub`: the arguments are sound, a plain connection is made and
  -- accepted, no write fails, and the broker gives the acknowledgements that the messages ask for,
  -- none of them an error, with nothing but PINGRESPs and runs of the timer between them. For `sub`
  -- and `request`: likewise, and the broker answers the subscription with a SUBACK that refuses no
  -- filter, after other packets if it likes, and then sends as many messages as were asked for,
  -- among any other packets but a DISCONNECT. For `bench`: the end of the warm-up is a time that
  -- can be held, every connection returned its samples, nothing was refused, no publish failed, and
  -- standard output takes the report.
  pub main-Accomplished :
      IsLawful k.protocol
      → (cli : Cli F) (w : World) → IsCommand k cli.command
      → Can cli.command w
      → (w' : World) × (main k cli w ≡ done success w') × Accomplished k cli.command w w'
  unfolding main exit_with
  main-Accomplished L cli w h can =
      let (v, e) = run_command-Gives cli.command w h can in
      (
        v,
        ap (exit_with k) e,
        subst (Ensures (λ _ w'. Accomplished k cli.command w w') (λ _. Unit)) e
            (run_command-Accomplished k cli.command w L h),
      )
