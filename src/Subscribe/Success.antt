-- ===== src/Subscribe/Success.antt =====
-- When a run of `sub` succeeds.
use pulsemq_cli.Base.{
  ℕ, zero, suc, ◌<◌, true, false, Option, none, List, [], ◌∷◌, Bytes, length, ◌≡◌, refl, sym, ap,
  subst, arith, ◌∙◌, inl, inr, Bool-cases,
}
use pulsemq_cli.Mqtt.{QoS, Protocol, suback, disconnect}
use pulsemq_cli.Error.{ok, from_mqtt}
use pulsemq_cli.Cli.{SubArgs, effective_limit}
use pulsemq_cli.Host.{Host}
use pulsemq_cli.Io.{
  Event, arrived, closed, broken, elapsed, World, Outcome, Action, done, and_then, loop, continue,
  read_from,
}
use pulsemq_cli.Io.Laws.{packets}
use pulsemq_cli.Io.Success.{Gives, and_then-Gives, ok_then}
use pulsemq_cli.Client.{
  Client, recv, send, close, with_incoming, connect_client, with_client, leave, step_packet_id,
  next_packet_id,
}
use pulsemq_cli.Client.Calm.{AreCalm, Calm, Unfailing}
use pulsemq_cli.Client.Success.{CanConnect, connect_client-Fit, Live, send-Live}
use pulsemq_cli.Client.Elapsed.{recv_elapsed}
use pulsemq_cli.Subscribe.{
  fuel, first_refused, check_suback, await_suback, await_suback_on, await_loop, subscribe,
  subscription, receive_loop, reached, is_zero, sub_session, run, needing_topic,
}
use pulsemq_cli.Subscribe.Serve.{messages}
use pulsemq_cli.Subscribe.Liveness.{receive_loop-Calm, receive_loop-Finishes}
use pulsemq_cli.Subscribe.Session.{not_reached}

module _ (P : Protocol) (filters : List Bytes) (rest : List Event) where
  -- After packets that are neither, and runs of the timer, comes a SUBACK that refuses none of the
  -- filters, before any DISCONNECT, and then `rest`.
  abbrev pub Answers : List Event → Type 0
  Answers [] = ⊥
  Answers (arrived (suback a) ∷ es) =
      (first_refused P.is_error filters a.reason_codes ≡ none) × (es ≡ rest)
  Answers (arrived (disconnect code) ∷ es) = ⊥
  Answers (arrived p ∷ es) = Answers es
  Answers (elapsed ∷ es) = Answers es
  Answers (closed ∷ es) = ⊥
  Answers (broken e ∷ es) = ⊥

  abbrev Awaited : Client → Outcome Client (Unit {0}) → Type 0
  Awaited c o = o ≡ done tt (with_incoming rest c)

  round_elapsed :
      (es : List Event) (c : Client)
      → await_suback P filters tt (with_incoming (elapsed ∷ es) c)
        ≡ await_suback P filters tt (with_incoming es c)
  unfolding await_suback
  round_elapsed es c = ap (λ o. and_then o (await_suback_on P filters)) (recv_elapsed es c)

  await_suback-Awaited :
      (es : List Event) (fuel : ℕ) (c : Client)
      → length es < fuel
      → Answers es
      → Awaited c (loop fuel (await_suback P filters) tt (with_incoming es c))
  unfolding loop await_suback await_suback_on check_suback recv read_from
  await_suback-Awaited es zero c l h = absurd (omega arith)
  await_suback-Awaited [] (suc f) c l h = absurd h
  await_suback-Awaited (arrived (suback a) ∷ es) (suc f) c l h =
      rw (h.0) (ap (λ xs. done tt (with_incoming xs c)) h.1)
  await_suback-Awaited (arrived (disconnect code) ∷ es) (suc f) c l h = absurd h
  await_suback-Awaited (arrived p ∷ es) (suc f) c l h =
      await_suback-Awaited es f c (omega (arith, l)) h
  await_suback-Awaited (elapsed ∷ es) (suc f) c l h =
      subst (λ o. Awaited c (continue (λ t s. loop f (await_suback P filters) t s) o))
        (sym (round_elapsed es c)) (await_suback-Awaited es (suc f) c (omega (arith, l)) h)
  await_suback-Awaited (closed ∷ es) (suc f) c l h = absurd h
  await_suback-Awaited (broken e ∷ es) (suc f) c l h = absurd h

pub leave-Gives :
    (o : Outcome Client (Unit {0})) → Gives (λ _ _. Unit {0}) o → Gives (λ _ _. Unit {0}) (leave o)
unfolding leave
leave-Gives o (u, d, e, h) =
    subst (λ x. Gives (λ _ _. Unit {0}) (leave x)) (sym e) (u, d.stream, refl, tt)

module _ (P : Protocol) where
  pub subscribe-Live :
      (filters : List Bytes) (rest es : List Event) (qos : QoS) (c : Client)
      → Live es c
      → Answers P filters rest es
      → Gives (λ _ d. Live rest d) (subscribe P filters qos c)
  unfolding subscribe await_loop next_packet_id
  subscribe-Live filters rest es qos c h a =
      let id : ℕ = step_packet_id c.next_packet_id in
      and_then-Gives (λ _ d. Live es d) (λ _ d. Live rest d)
        (send (subscription P filters qos id) (record c { next_packet_id = id })) _
        (send-Live es (subscription P filters qos id) (record c { next_packet_id = id }) h)
        (λ _ d k. (
          tt,
          with_incoming rest d,
          await_suback-Awaited P filters rest d.stream.incoming (fuel d) d (omega arith)
              (subst (Answers P filters rest) (sym k.0) a),
          (refl, k.1),
        ))

  pub close-Gives :
      (d : Client) → ((n : ℕ) → d.stream.fault n ≡ none) → Gives (λ _ _. Unit {0}) (close P d)
  unfolding close
  close-Gives d h =
      let (u, e, o, k) = send-Live d.stream.incoming (disconnect P.success) d (refl, h) in
      (u, e, o, tt)

module _ (P : Protocol) (host : Host) (args : SubArgs) where
  -- The receive loop, and then the DISCONNECT.
  received_Gives :
      (limit : Option ℕ) (c : Client)
      → Calm c
      → is_zero P limit ≡ false
      → reached limit (length (messages (packets c.stream.incoming))) ≡ true
      → Gives (λ _ _. Unit {0}) (and_then (receive_loop P limit args.show_topic c) λ _. close P)
  received_Gives limit c h z e =
      let (d, o, k) = receive_loop-Finishes P args.show_topic limit c h (not_reached P limit z) e in
      let calm : Calm d =
        subst (Unfailing (λ _ x. Calm x)) o (receive_loop-Calm P args.show_topic limit c h) in
      subst (λ x. Gives (λ _ _. Unit {0}) (and_then x λ _. close P)) (sym o)
        (close-Gives P d calm.0)

  sub_session-Gives :
      (rest es : List Event) (qos : QoS) (c : Client)
      → Live es c
      → Answers P args.topic rest es
      → AreCalm rest
      → reached (effective_limit args) (length (messages (packets rest))) ≡ true
      → Gives (λ _ _. Unit {0}) (sub_session P args qos c)
  unfolding sub_session
  sub_session-Gives rest es qos c h a calm e =
      and_then-Gives (λ _ d. Live rest d) (λ _ _. Unit {0}) (subscribe P args.topic qos c) _
        (subscribe-Live P args.topic rest es qos c h a)
        (λ _ d k. elim (Bool-cases (is_zero P (effective_limit args))) [
          | inl z ↦ rw z (close-Gives P d k.1)
          | inr z ↦ rw z (
              received_Gives (effective_limit args) d (k.1, subst AreCalm (sym k.0) calm) z
                (ap (λ xs. reached (effective_limit args) (length (messages (packets xs)))) k.0
                  ∙ e))
        ])

  -- The check for a filter is passed.
  needing_topic-Gives :
      (topics : List Bytes) (m : Action World (Unit {0})) (w : World)
      → (topics ≡ [] → ⊥)
      → Gives (λ _ _. Unit {0}) (m w)
      → Gives (λ _ _. Unit {0}) (needing_topic P topics m w)
  needing_topic-Gives [] m w n h = absurd (n refl)
  needing_topic-Gives (t ∷ ts) m w n h = h

  pub run-Gives :
      (qos : QoS) (es rest : List Event) (w : World)
      → (args.topic ≡ [] → ⊥)
      → from_mqtt (P.qos_from_u8 args.qos) ≡ ok qos
      → CanConnect P host args.conn es w
      → Answers P args.topic rest es
      → AreCalm rest
      → reached (effective_limit args) (length (messages (packets rest))) ≡ true
      → Gives (λ _ _. Unit {0}) (run P host args w)
  unfolding run with_client
  run-Gives qos es rest w n q can a calm e = needing_topic-Gives args.topic _ w n (
      ok_then (λ _ _. Unit {0}) (from_mqtt (P.qos_from_u8 args.qos)) qos w _ q
        (and_then-Gives _ (λ _ _. Unit {0}) (connect_client P host args.conn w) _
          (connect_client-Fit P host args.conn es w can)
          (λ c v f.
            leave-Gives _ (sub_session-Gives rest es qos (record c { stream = v }) f a calm e))))
