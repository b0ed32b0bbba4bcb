-- ===== src/Request/Session.antt =====
-- A whole run of `request`, from its arguments to the DISCONNECT.
use pulsemq_cli.Base.{ℕ, Bool, true, false, Option, none, some, [], ◌∷◌, ◌≡◌, refl, if◌then◌else◌}
use pulsemq_cli.Mqtt.{QoS, at_most_once, at_least_once, exactly_once, Protocol, IsLawful}
use pulsemq_cli.Error.{Error, ok, from_mqtt}
use pulsemq_cli.Cli
use pulsemq_cli.Cli.{RequestArgs, IsParsed}
use pulsemq_cli.Host.{Host}
use pulsemq_cli.Io.{World, Action, and_then, raise}
use pulsemq_cli.Io.Laws.{Ensures, and_then-Ensures, weaken-Ensures, lift_result-Ensures}
use pulsemq_cli.Client.{Client, connect_client, close, send, step_packet_id, next_packet_id}
use pulsemq_cli.Client.Connected.{Connected, connect_client-Connected, with_client-Ensures}
use pulsemq_cli.Subscribe.{subscribe}
use pulsemq_cli.Subscribe.Laws.{Put, send-Put, Subscribed, asked, subscribe-Subscribed}
use pulsemq_cli.Subscribe.Session.{Closed, close-Closed}
use pulsemq_cli.Request.{
  request_packet, ask, reply_loop, request_session, is_v3_1, run, packet_id_for,
}
use pulsemq_cli.Request.Laws
use pulsemq_cli.Request.Laws.{reply_loop-Ensures}

unless-Ensures :
    (R : Unit {0} → World → Type 0) (refused : Bool) (e : Error) (m : Action World (Unit {0}))
    (w : World)
    → (refused ≡ false → Ensures R (λ _. Unit) (m w))
    → Ensures R (λ _. Unit) ((if refused then raise e else m) w)
unless-Ensures R true e m w h = tt
unless-Ensures R false e m w h = h refl

module _ (P : Protocol) (args : RequestArgs) where
  -- The packet identifier of the request, and the client that has taken it.
  abbrev pub id_of : QoS → Client → Option ℕ
  id_of at_most_once c = none
  id_of _ c = some (step_packet_id c.next_packet_id)

  abbrev pub numbered : QoS → Client → Client
  numbered at_most_once c = c
  numbered _ c = record c { next_packet_id = step_packet_id c.next_packet_id }

  -- One PUBLISH has been written: the request, with a fresh identifier where its QoS has one.
  abbrev pub Requested : QoS → Client → Client → Type 0
  Requested qos c d = Put (request_packet P args qos (id_of qos c) ∷ []) (numbered qos c) d

  send_request-Requested :
      (qos : QoS) (c : Client)
      → Ensures
          (λ _ d. Requested qos c d)
          (λ _. ⊥)
          (and_then (packet_id_for P qos c) λ id. send (request_packet P args qos id))
  unfolding next_packet_id
  send_request-Requested at_most_once c = send-Put (request_packet P args at_most_once none) c
  send_request-Requested at_least_once c =
      send-Put (request_packet P args at_least_once (id_of at_least_once c))
        (numbered at_least_once c)
  send_request-Requested exactly_once c =
      send-Put (request_packet P args exactly_once (id_of exactly_once c)) (numbered exactly_once c)

  abbrev Asked : QoS → Client → Client → Type 0
  Asked qos c b =
      (a : Client) × Subscribed P (args.reply_topic ∷ []) (asked P (args.reply_topic ∷ []) qos c) a
      × Requested qos a b

  ask-Asked :
      (qos : QoS) (c : Client) → Ensures (λ _ b. Asked qos c b) (λ _. Unit) (ask P args qos c)
  unfolding ask
  ask-Asked qos c =
      and_then-Ensures
        (λ _ a. Subscribed P (args.reply_topic ∷ []) (asked P (args.reply_topic ∷ []) qos c) a)
        (λ _. Unit) _ (subscribe P (args.reply_topic ∷ []) qos c) _
        (subscribe-Subscribed P (args.reply_topic ∷ []) qos c)
        (λ _ a s.
          weaken-Ensures (λ _ b. Requested qos a b) (λ _. ⊥) _ (λ _. Unit) _
            (send_request-Requested qos a) (λ _ b r. (a, s, r)) (λ b x. tt))

  -- The subscription to the reply topic stands before the request is written; then `count` replies
  -- have come, and the client has closed.
  abbrev pub Answered : QoS → Client → Client → Type 0
  Answered qos c d =
      (a : Client) × (b : Client) × (e : Client) × Subscribed P (args.reply_topic ∷ [])
        (asked P (args.reply_topic ∷ []) qos c) a
      × Requested qos a b
      × Laws.Complete P args.show_topic args.count b e
      × Closed P e d

  request_session-Answered :
      (qos : QoS) (c : Client)
      → Ensures (λ _ d. Answered qos c d) (λ _. Unit) (request_session P args qos c)
  unfolding request_session
  request_session-Answered qos c =
      and_then-Ensures (λ _ b. Asked qos c b) (λ _. Unit) _ (ask P args qos c) _ (ask-Asked qos c)
        (λ _ b k.
          and_then-Ensures (λ _ e. Laws.Complete P args.show_topic args.count b e) (λ _. Unit) _
            (reply_loop P args.show_topic args.count b) _
            (weaken-Ensures _ (Laws.Waits P args.show_topic args.count b) _ (λ _. Unit)
              (reply_loop P args.show_topic args.count b)
              (reply_loop-Ensures P args.show_topic args.count b) (λ _ e x. x) (λ e x. tt))
            (λ _ e m.
              weaken-Ensures (λ _ d. Closed P e d) (λ _. Unit) _ (λ _. Unit) (close P e)
                (close-Closed P e) (λ _ d j. (k.0, b, e, k.1, k.2, m, j)) (λ d x. x)))

  abbrev pub Replied : Host → World → World → Type 0
  Replied host w w' =
      (qos : QoS) × (c : Client) × (v : World) × (d : Client) × (is_v3_1 P (Cli.version args.conn)
        ≡ false)
      × (from_mqtt (P.qos_from_u8 args.qos) ≡ ok qos)
      × Connected P host args.conn w c v
      × Answered qos c d
      × (w' ≡ d.stream)

  -- For parsed arguments a run of `request` ends or waits, and when it succeeds the version is not
  -- 3.1 and, on one connection that the broker accepted, the subscription to the reply topic stood
  -- before the request was written, with a fresh identifier where its QoS has one; the asked number
  -- of messages has then been printed and answered, and a DISCONNECT ends the session.
  pub run-Replied :
      (host : Host)
      → IsLawful P
      → IsParsed args.conn
      → (w : World) → Ensures (λ _ w'. Replied host w w') (λ _. Unit) (run P host args w)
  unfolding run
  run-Replied host L h w =
      unless-Ensures (λ _ w'. Replied host w w') (is_v3_1 P (Cli.version args.conn)) _ _ w
        (λ e. lift_result-Ensures _ (from_mqtt (P.qos_from_u8 args.qos)) _ w (λ qos q.
          and_then-Ensures (Connected P host args.conn w) (λ _. Unit) _
            (connect_client P host args.conn w) _ (connect_client-Connected P host args.conn L h w)
            (λ c v k.
              with_client-Ensures _ (λ _ w'. Replied host w w') _ c v k.8
                (request_session-Answered qos c) (λ _ d x. (qos, c, v, d, e, q, k, x, refl)))))
