-- ===== src/Publish/Liveness.antt =====
-- Where the broker acknowledges all and no write fails, publishing comes to its end.
use native.Mathlib.Nat.{add_assoc}
use pulsemq_cli.Base.{
  ℕ, zero, suc, ◌+◌, ◌<◌, Bool, false, none, List, [], ◌∷◌, ◌++◌, map, Bytes, text, length, ◌≡◌,
  refl, sym, ap, subst, arith, inr,
}
use pulsemq_cli.Mqtt
use pulsemq_cli.Mqtt.{
  QoS, at_most_once, at_least_once, exactly_once, ReasonCode, Protocol, Packet, puback, pubrec,
  pubcomp, pingresp, pubrel, publish,
}
use pulsemq_cli.Io.{
  Event, arrived, closed, broken, elapsed, World, Outcome, Action, done, read_from, loop, continue,
  and_then,
}
use pulsemq_cli.Cli.{PubArgs}
use pulsemq_cli.Client.{
  Client, step_packet_id, on_stream_done, send, recv, with_incoming, next_packet_id,
}
use pulsemq_cli.Client.Calm.{write_packet_calm}
use pulsemq_cli.Client.Elapsed.{recv_elapsed}
use pulsemq_cli.Subscribe.{fuel, pub_ack}
use pulsemq_cli.Publish.{
  expect_ack, expect_ack_round, expect_ack_on, check, complete, publish_one, publish_lines,
}
use pulsemq_cli.Publish.Exchanged.{acks_of}
use pulsemq_cli.Publish.Exchange.{acks_for, id_for}

-- No write fails.
abbrev pub Smooth : Client → Type 0
Smooth c = (n : ℕ) → c.stream.fault n ≡ none

round_elapsed :
    (P : Protocol) (what : Bytes) (es : List Event) (c : Client)
    → expect_ack_round P what tt (with_incoming (elapsed ∷ es) c)
      ≡ expect_ack_round P what tt (with_incoming es c)
unfolding expect_ack_round
round_elapsed P what es c = ap (λ o. and_then o (expect_ack_on P what)) (recv_elapsed es c)

plus_zero : (n : ℕ) → 0 + n ≡ n
plus_zero n = omega arith

plus_one : (n : ℕ) → 1 + n ≡ suc n
plus_one n = omega arith

plus_two : (n : ℕ) → 2 + n ≡ suc (suc n)
plus_two n = omega arith

module _ (P : Protocol) (rest : List Event) where
  -- First come `n` acknowledgements, none of them an error, with PINGRESPs and runs of the timer
  -- between them, and then `rest`.
  abbrev pub Grants : ℕ → List Event → Type 0
  Grants zero es = es ≡ rest
  Grants (suc n) (arrived (puback a) ∷ es) = (P.is_error a.reason_code ≡ false) × Grants n es
  Grants (suc n) (arrived (pubrec a) ∷ es) = (P.is_error a.reason_code ≡ false) × Grants n es
  Grants (suc n) (arrived (pubcomp a) ∷ es) = (P.is_error a.reason_code ≡ false) × Grants n es
  Grants (suc n) (arrived pingresp ∷ es) = Grants (suc n) es
  Grants (suc n) (elapsed ∷ es) = Grants (suc n) es
  Grants (suc n) _ = ⊥

  -- The next of them has been taken off.
  abbrev Granted : ℕ → Client → Outcome Client ReasonCode → Type 0
  Granted n c o =
      (code : ReasonCode) × (es : List Event) × (o ≡ done code (with_incoming es c))
      × (P.is_error code ≡ false)
      × Grants n es

  expect_loop-Granted :
      (what : Bytes) (n : ℕ) (es : List Event) (fuel : ℕ) (c : Client)
      → length es < fuel
      → Grants (suc n) es
      → Granted n c (loop fuel (expect_ack_round P what) tt (with_incoming es c))
  unfolding loop expect_ack_round expect_ack_on recv read_from
  expect_loop-Granted what n es zero c l g = absurd (omega arith)
  expect_loop-Granted what n [] (suc f) c l g = absurd g
  expect_loop-Granted what n (arrived (puback a) ∷ es) (suc f) c l g =
      (a.reason_code, es, refl, g.0, g.1)
  expect_loop-Granted what n (arrived (pubrec a) ∷ es) (suc f) c l g =
      (a.reason_code, es, refl, g.0, g.1)
  expect_loop-Granted what n (arrived (pubcomp a) ∷ es) (suc f) c l g =
      (a.reason_code, es, refl, g.0, g.1)
  expect_loop-Granted what n (arrived pingresp ∷ es) (suc f) c l g =
      expect_loop-Granted what n es f c (omega (arith, l)) g
  expect_loop-Granted what n (elapsed ∷ es) (suc f) c l g =
      subst (λ o. Granted n c (continue (λ t s. loop f (expect_ack_round P what) t s) o))
        (sym (round_elapsed P what es c))
        (expect_loop-Granted what n es (suc f) c (omega (arith, l)) g)
  expect_loop-Granted what n (arrived p ∷ es) (suc f) c l g = absurd g
  expect_loop-Granted what n (closed ∷ es) (suc f) c l g = absurd g
  expect_loop-Granted what n (broken e ∷ es) (suc f) c l g = absurd g

  -- The part is done, and `n` acknowledgements are still to come.
  abbrev pub Succeeds : ℕ → Outcome Client (Unit {0}) → Type 0
  Succeeds n o = (d : Client) × (o ≡ done tt d) × Smooth d × Grants n d.stream.incoming

  pub and_then-Succeeds :
      (m n : ℕ) (o : Outcome Client (Unit {0})) (f : Action Client (Unit {0}))
      → Succeeds m o
      → ((d : Client) → Smooth d → Grants m d.stream.incoming → Succeeds n (f d))
      → Succeeds n (and_then o λ _. f)
  and_then-Succeeds m n o f h k =
      subst (λ x. Succeeds n (and_then x λ _. f)) (sym h.1) (k h.0 h.2 h.3)

  pub send-Succeeds :
      (n : ℕ) (p : Packet) (c : Client)
      → Smooth c
      → Grants n c.stream.incoming
      → Succeeds n (send p c)
  unfolding send on_stream_done
  send-Succeeds n p c h g =
      let w : World = record c.stream {
        sent = c.stream.sent ++ (p ∷ []);
        writes = c.stream.writes + 1;
      } in
      (record c { stream = w }, ap (on_stream_done c) (write_packet_calm p c.stream (h _)), h, g)

  -- Waiting for an acknowledgement, and the check of its code.
  acknowledged-Succeeds :
      (n : ℕ) (what : Bytes) (c : Client)
      → Smooth c
      → Grants (suc n) c.stream.incoming
      → Succeeds n (and_then (expect_ack P what c) λ code. check P code what)
  unfolding expect_ack check
  acknowledged-Succeeds n what c h g =
      let (code, es, e, fine, more) =
        expect_loop-Granted what n c.stream.incoming (fuel c) c (omega arith) g in
      subst (λ o. Succeeds n (and_then o λ code. check P code what)) (sym e)
        (rw fine (with_incoming es c, refl, h, more))

  acknowledged_then-Succeeds :
      (m n : ℕ) (what : Bytes) (c : Client) (k : Action Client (Unit {0}))
      → Smooth c
      → Grants (suc m) c.stream.incoming
      → ((d : Client) → Smooth d → Grants m d.stream.incoming → Succeeds n (k d))
      → Succeeds n (and_then (expect_ack P what c) λ code s. and_then (check P code what s) λ _. k)
  unfolding expect_ack check
  acknowledged_then-Succeeds m n what c k h g next =
      let (code, es, e, fine, more) =
        expect_loop-Granted what m c.stream.incoming (fuel c) c (omega arith) g in
      subst (λ o. Succeeds n (and_then o λ code s. and_then (check P code what s) λ _. k)) (sym e)
        (rw fine (next (with_incoming es c) h more))

  complete-Succeeds :
      (n : ℕ) (qos : QoS) (id : ℕ) (c : Client)
      → Smooth c
      → Grants (acks_of P qos + n) c.stream.incoming
      → Succeeds n (complete P qos (id_for P qos id) c)
  unfolding complete
  complete-Succeeds n at_most_once id c h g =
      (c, refl, h, subst (λ m. Grants m c.stream.incoming) (plus_zero n) g)
  complete-Succeeds n at_least_once id c h g =
      acknowledged-Succeeds n (text "publish") c h
        (subst (λ m. Grants m c.stream.incoming) (plus_one n) g)
  complete-Succeeds n exactly_once id c h g =
      acknowledged_then-Succeeds (suc n) n (text "publish") c _ h
        (subst (λ m. Grants m c.stream.incoming) (plus_two n) g)
        (λ d i j.
          and_then-Succeeds (suc n) n (send (pubrel (pub_ack P id)) d) _
            (send-Succeeds (suc n) (pubrel (pub_ack P id)) d i j)
            (λ e x y. acknowledged-Succeeds n (text "publish") e x y))

  sent_then-Succeeds :
      (n : ℕ) (qos : QoS) (id : ℕ) (p : Packet) (c : Client)
      → Smooth c
      → Grants (acks_of P qos + n) c.stream.incoming
      → Succeeds n (and_then (send p c) λ _. complete P qos (id_for P qos id))
  sent_then-Succeeds n qos id p c h g =
      and_then-Succeeds (acks_of P qos + n) n (send p c) _ (send-Succeeds _ p c h g)
        (λ d i j. complete-Succeeds n qos id d i j)

  pub publish_one-Succeeds :
      (n : ℕ) (topic payload : Bytes) (qos : QoS) (retain : Bool) (properties : Mqtt.Properties)
      (c : Client)
      → Smooth c
      → Grants (acks_of P qos + n) c.stream.incoming
      → Succeeds n (publish_one P topic payload qos retain properties c)
  unfolding publish_one next_packet_id
  publish_one-Succeeds n topic payload at_most_once retain properties c h g =
      sent_then-Succeeds n at_most_once 0 _ (c) h g
  publish_one-Succeeds n topic payload at_least_once retain properties c h g =
      sent_then-Succeeds n at_least_once (step_packet_id c.next_packet_id) _
        (record c { next_packet_id = step_packet_id c.next_packet_id }) h g
  publish_one-Succeeds n topic payload exactly_once retain properties c h g =
      sent_then-Succeeds n exactly_once (step_packet_id c.next_packet_id) _
        (record c { next_packet_id = step_packet_id c.next_packet_id }) h g

  -- Where no write fails and the broker sends, with PINGRESPs and runs of the timer before any of
  -- them, the acknowledgements that the lines ask for and `n` more, none of them an error,
  -- publishing the lines succeeds and leaves just the `n`.
  pub publish_lines-Succeeds :
      (n : ℕ) (args : PubArgs) (qos : QoS) (properties : Mqtt.Properties) (ls : List Bytes)
      (c : Client)
      → Smooth c
      → Grants (acks_for P qos ls + n) c.stream.incoming
      → Succeeds n (publish_lines P args qos properties (map inr ls) c)
  unfolding publish_lines
  publish_lines-Succeeds n args qos properties [] c h g =
      (c, refl, h, subst (λ m. Grants m c.stream.incoming) (plus_zero n) g)
  publish_lines-Succeeds n args qos properties (line ∷ ls) c h g =
      and_then-Succeeds (acks_for P qos ls + n) n _ _
        (publish_one-Succeeds (acks_for P qos ls + n) args.topic line qos args.retain properties c h
          (subst (λ m. Grants m c.stream.incoming) (add_assoc (acks_of P qos) (acks_for P qos ls) n)
            g))
        (λ d i j. publish_lines-Succeeds n args qos properties ls d i j)
