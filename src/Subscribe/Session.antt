-- ===== src/Subscribe/Session.antt =====
-- A whole run of `sub`, from its arguments to the DISCONNECT.
use pulsemq_cli.Base.{
  ℕ, true, false, Option, none, some, List, [], ◌∷◌, Bytes, ◌≡◌, refl, inl, inr, ◌⊎◌, Bool-cases,
  arith,
}
use pulsemq_cli.Mqtt.{QoS, Protocol, IsLawful, disconnect}
use pulsemq_cli.Error.{ok, from_mqtt}
use pulsemq_cli.Cli.{SubArgs, IsParsed, effective_limit}
use pulsemq_cli.Host.{Host}
use pulsemq_cli.Io.{World, Action}
use pulsemq_cli.Io.Laws.{Ensures, and_then-Ensures, weaken-Ensures, lift_result-Ensures}
use pulsemq_cli.Client.{Client, connect_client, close}
use pulsemq_cli.Client.Connected.{Connected, connect_client-Connected, with_client-Ensures}
use pulsemq_cli.Subscribe.{
  subscribe, receive_loop, reached, is_zero, sub_session, run, needing_topic,
}
use pulsemq_cli.Subscribe.Laws.{Put, send-Put, Subscribed, asked, subscribe-Subscribed}
use pulsemq_cli.Subscribe.Run
use pulsemq_cli.Subscribe.Run.{receive_loop-Ensures}

module _ (P : Protocol) where
  -- Only a DISCONNECT has been written.
  abbrev pub Closed : Client → Client → Type 0
  Closed c d = Put (disconnect P.success ∷ []) c d

  pub close-Closed : (c : Client) → Ensures (λ _ d. Closed c d) (λ _. Unit) (close P c)
  unfolding close
  close-Closed c =
      weaken-Ensures (λ _ d. Closed c d) (λ _. ⊥) (λ _ d. Closed c d) (λ _. Unit) (close P c)
        (send-Put (disconnect P.success) c) (λ _ d put. put) (λ d x. tt)

  pub not_reached : (limit : Option ℕ) → is_zero P limit ≡ false → reached limit 0 ≡ false
  not_reached none h = refl
  not_reached (some n) h = ground arith

  module _ (args : SubArgs) where
    -- Subscribed, then the receive loop up to the limit, unless that is 0, then closed.
    abbrev pub Listened : QoS → Client → Client → Type 0
    Listened qos c d =
        let limit = effective_limit args in
        (a : Client) × Subscribed P args.topic (asked P args.topic qos c) a
        × (((is_zero P limit ≡ true) × Closed a d)
            ⊎ ((b : Client) × (is_zero P limit ≡ false)
                × Run.Complete P args.show_topic limit a b
                × Closed b d))

    sub_session-Listened :
        (qos : QoS) (c : Client)
        → Ensures (λ _ d. Listened qos c d) (λ _. Unit) (sub_session P args qos c)
    unfolding sub_session
    sub_session-Listened qos c =
        and_then-Ensures (λ _ a. Subscribed P args.topic (asked P args.topic qos c) a) (λ _. Unit)
          (λ _ d. Listened qos c d) (subscribe P args.topic qos c) _
          (subscribe-Subscribed P args.topic qos c)
          (λ _ a s. elim (Bool-cases (is_zero P (effective_limit args))) [
            | inl z ↦ rw z (
                weaken-Ensures (λ _ d. Closed a d) (λ _. Unit) _ (λ _. Unit) (close P a)
                  (close-Closed a) (λ _ d k. (a, s, inl (refl, k))) (λ d x. x))
            | inr z ↦ rw z (
                and_then-Ensures (λ _ b. Run.Complete P args.show_topic (effective_limit args) a b)
                  (λ _. Unit) _ (receive_loop P (effective_limit args) args.show_topic a) _
                  (weaken-Ensures _ (Run.Waits P args.show_topic (effective_limit args) a) _
                    (λ _. Unit) (receive_loop P (effective_limit args) args.show_topic a)
                    (receive_loop-Ensures P args.show_topic (effective_limit args) a
                      (not_reached (effective_limit args) z))
                    (λ _ b k. k) (λ b x. tt))
                  (λ _ b k.
                    weaken-Ensures (λ _ d. Closed b d) (λ _. Unit) _ (λ _. Unit) (close P b)
                      (close-Closed b) (λ _ d j. (a, s, inr (b, refl, k, j))) (λ d x. x)))
          ])

  needing_topic-Ensures :
      (R : Unit {0} → World → Type 0) (topics : List Bytes) (m : Action World (Unit {0}))
      (w : World)
      → Ensures R (λ _. Unit) (m w)
      → Ensures R (λ _. Unit) (needing_topic P topics m w)
  needing_topic-Ensures R [] m w h = tt
  needing_topic-Ensures R (t ∷ ts) m w h = h

  -- What a run that succeeds has done: it has connected, and held a session as `Listened` says.
  abbrev pub Heard : Host → SubArgs → World → World → Type 0
  Heard host args w w' =
      (qos : QoS) × (c : Client) × (v : World) × (d : Client) × (from_mqtt (P.qos_from_u8 args.qos)
        ≡ ok qos)
      × Connected P host args.conn w c v
      × Listened args qos c d
      × (w' ≡ d.stream)

  -- For parsed arguments a run of `sub` ends or waits, and when it succeeds it has made one
  -- connection that the broker accepted, has subscribed to every filter, has, unless the limit is
  -- 0, printed and answered what it took off, in order, until just the limit was reached, and has
  -- closed with a DISCONNECT.
  pub run-Heard :
      (host : Host) (args : SubArgs)
      → IsLawful P
      → IsParsed args.conn
      → (w : World) → Ensures (λ _ w'. Heard host args w w') (λ _. Unit) (run P host args w)
  unfolding run
  run-Heard host args L h w =
      needing_topic-Ensures (λ _ w'. Heard host args w w') args.topic _ w
        (lift_result-Ensures _ (from_mqtt (P.qos_from_u8 args.qos)) _ w (λ qos q.
          and_then-Ensures (Connected P host args.conn w) (λ _. Unit) _
            (connect_client P host args.conn w) _ (connect_client-Connected P host args.conn L h w)
            (λ c v k.
              with_client-Ensures _ (λ _ w'. Heard host args w w') _ c v k.8
                (sub_session-Listened args qos c) (λ _ d x. (qos, c, v, d, q, k, x, refl)))))
