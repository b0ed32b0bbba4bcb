-- ===== src/Bench/Subscriber/Whole.antt =====
-- A subscribing connection from its dialling to its samples.
use mathlib.Core.List.{append_assoc}
use pulsemq_cli.Base.{
  ℕ, suc, ◌<◌, false, List, [], ◌∷◌, ◌++◌, text, length, All, All-append, ◌≡◌, refl, sym, ap, ◌∙◌,
  arith, inl, inr, Option-cases,
}
use pulsemq_cli.Mqtt.{Protocol, IsLawful, Packet, SubAck, suback, subscribe}
use pulsemq_cli.Cli.{ConnectionArgs, IsParsed}
use pulsemq_cli.Host.{Host}
use pulsemq_cli.Io.{
  World, Outcome, done, failed, waiting, panicked, stuck, and_then, ReadOutcome, packet, eof,
  read_packet, write_packet, loop,
}
use pulsemq_cli.Io.Laws.{
  Ensures, and_then-Ensures, weaken-Ensures, Round, loop-Ensures, read_packet-Took, packets, Took,
  Wrote, write_packet-Wrote,
}
use pulsemq_cli.Subscribe.{topic_filter}
use pulsemq_cli.Client.{Negotiated}
use pulsemq_cli.Bench.Connection.{bench_client_id, dial}
use pulsemq_cli.Bench.Connection.Laws.{Opened, dial-Opened}
use pulsemq_cli.Bench.Config.{Config, subscribe_filter}
use pulsemq_cli.Bench.Stats.{Samples, Counters}
use pulsemq_cli.Bench.Subscriber.{
  Subscriber, Clock, find_error, on_suback, bench_subscribe, deliver_loop, start, measured, run,
}
use pulsemq_cli.Bench.Subscriber.Delivery.{Recorded}
use pulsemq_cli.Bench.Subscriber.Session.{find_error-none, deliver_loop-Recorded}

module _ (P : Protocol) {F : Type 0} (c : Config F) where
  abbrev IsNoSuback : Packet → Type 0
  IsNoSuback (suback ack) = ⊥
  IsNoSuback _ = Unit

  abbrev Awaits : World → World → Type 0
  Awaits w v =
      (v ≡ record w { incoming = v.incoming })
      × (skipped : List Packet) × (packets w.incoming ≡ skipped ++ packets v.incoming)
      × All IsNoSuback skipped

  abbrev Granted : World → World → Type 0
  Granted w v =
      (v ≡ record w { incoming = v.incoming })
      × (skipped : List Packet) × (ack : SubAck) × (packets w.incoming
          ≡ skipped ++ (suback ack ∷ packets v.incoming))
      × All IsNoSuback skipped
      × All (λ code. P.is_error code ≡ false) ack.reason_codes

  on_suback-Round :
      (index : ℕ) (o : ReadOutcome) (w b d : World)
      → Awaits w b
      → Took b o d
      → Ensures
          (Round (λ _ e. Awaits w e × (length e.incoming < length b.incoming)) (λ _ e. Granted w e))
          (λ _. ⊥)
          (on_suback P index o d)
  unfolding on_suback
  on_suback-Round index (packet (suback ack)) w b d a t =
      elim (Option-cases (find_error P ack.reason_codes)) [
        | inl e ↦ rw e (
          ground arith,
          a.1,
          ack,
          a.2 ∙ ap (◌++◌ a.1) t.2.0,
          a.3,
          (find_error-none P ack.reason_codes).0 e,
        )
        | inr (x, e) ↦ rw e tt
      ]
  on_suback-Round index (packet p) w b d a t = (
    (
      ground arith,
      a.1 ++ (p ∷ []),
      a.2 ∙ ap (◌++◌ a.1) t.2.0 ∙ sym (append_assoc a.1 (p ∷ []) _),
      All-append IsNoSuback a.1 (p ∷ []) a.3 (tt, tt),
    ),
    t.1,
  )
  on_suback-Round index eof w b d a t = tt

  awaited-Granted :
      (index : ℕ) (w : World)
      → Ensures
          (λ _ v. Granted w v)
          (λ _. Unit)
          (loop
            (suc (length w.incoming))
            (λ (t : Unit {0}) u. and_then (read_packet u) (on_suback P index))
            tt
            w)
  awaited-Granted index w =
      loop-Ensures (λ v. length v.incoming) (λ _ v. Awaits w v) (λ _ v. Granted w v) (λ _. Unit)
        (λ t u. and_then (read_packet u) (on_suback P index))
        (λ t b a.
          and_then-Ensures (Took b) (λ _. Unit) _ (read_packet b) (on_suback P index)
            (weaken-Ensures (Took b) _ (Took b) (λ _. Unit) (read_packet b) (read_packet-Took b)
              (λ o d r. r) (λ d x. tt))
            (λ o d r.
              weaken-Ensures _ (λ _. ⊥) _ (λ _. Unit) (on_suback P index o d)
                (on_suback-Round index o w b d a r) (λ n e x. x) (λ e x. tt)))
        (suc (length w.incoming)) tt w (omega arith) (refl, [], refl, tt)

  -- The SUBSCRIBE, for the whole prefix, has identifier 1; a SUBACK without an error came.
  abbrev pub Admitted : World → World → Type 0
  Admitted w v =
      (v.sent
        ≡ w.sent
          ++ (subscribe (record {
            packet_id = 1;
            properties = P.properties_new;
            filters = topic_filter c.qos (subscribe_filter c) ∷ [];
          })
              ∷ []))
      × (skipped : List Packet) × (ack : SubAck) × (packets w.incoming
          ≡ skipped ++ (suback ack ∷ packets v.incoming))
      × All IsNoSuback skipped
      × All (λ code. P.is_error code ≡ false) ack.reason_codes

  bench_subscribe-Admitted :
      (index : ℕ) (w : World)
      → Ensures (λ _ v. Admitted w v) (λ _. Unit) (bench_subscribe P c index w)
  unfolding bench_subscribe
  bench_subscribe-Admitted index w =
      let asked : Packet = subscribe (record {
        packet_id = 1;
        properties = P.properties_new;
        filters = topic_filter c.qos (subscribe_filter c) ∷ [];
      }) in
      and_then-Ensures (λ _ v. Wrote asked w v) (λ _. Unit) _ (write_packet asked w) _
        (weaken-Ensures (λ _ v. Wrote asked w v) (λ _. ⊥) (λ _ v. Wrote asked w v) (λ _. Unit)
          (write_packet asked w) (write_packet-Wrote asked w) (λ _ v r. r) (λ v x. tt))
        (λ _ v wrote.
          weaken-Ensures (λ _ x. Granted v x) (λ _. Unit) _ (λ _. Unit) _ (awaited-Granted index v)
            (λ _ x g. (
              ap (λ (y : World). y.sent) g.0 ∙ ap (λ (y : World). y.sent) wrote,
              g.1,
              g.2,
              ap (λ (y : World). packets y.incoming) (sym wrote) ∙ g.3,
              g.4,
              g.5,
            ))
            (λ x u. tt))

  measured-Ensures :
      (Q : Subscriber → Type 0) (W : Subscriber → Type 0) (R : Samples × Counters → World → Type 0)
      (o : Outcome Subscriber (Unit {0}))
      → Ensures (λ _ e. Q e) W o
      → ((e : Subscriber) → Q e → R (e.samples, e.counters) e.stream)
      → Ensures R (λ _. Unit) (measured P o)
  unfolding measured
  measured-Ensures Q W R (done u e) h k = k e h
  measured-Ensures Q W R (failed x e) h k = tt
  measured-Ensures Q W R (waiting e) h k = tt
  measured-Ensures Q W R panicked h k = h
  measured-Ensures Q W R stuck h k = h

  -- For parsed arguments a subscriber of the benchmark ends or waits; when it returns its samples
  -- it has made one connection under its own name that the broker accepted, has written one
  -- SUBSCRIBE for the whole prefix and seen a SUBACK without an error after packets that are none,
  -- and has then answered, counted in messages and in bytes, and timed by its header every packet
  -- that it took, in order.
  pub run-Measured :
      (host : Host) (conn : ConnectionArgs)
      → IsLawful P
      → IsParsed conn
      → (k : Clock) (index stop : ℕ) (counters : Counters) (w : World)
      → Ensures
          (λ r w'.
            (n : Negotiated) × (u : World) × (v : World) × (e : Subscriber) × Opened P host conn
              (bench_client_id P host (text "-sub-") index conn.client_id)
              w
              n
              u
            × Admitted u v
            × Recorded P k (start P counters v) e
            × (r ≡ (e.samples, e.counters))
            × (w' ≡ e.stream))
          (λ _. Unit)
          (run P host conn c k index stop counters w)
  unfolding run
  run-Measured host conn L h k index stop counters w =
      and_then-Ensures
        (Opened P host conn (bench_client_id P host (text "-sub-") index conn.client_id) w)
        (λ _. Unit) _
        (dial P host conn (bench_client_id P host (text "-sub-") index conn.client_id) w) _
        (dial-Opened P host conn L h _ w)
        (λ n u o.
          and_then-Ensures (λ _ v. Admitted u v) (λ _. Unit) _ (bench_subscribe P c index u) _
            (bench_subscribe-Admitted index u)
            (λ _ v a.
              measured-Ensures (Recorded P k (start P counters v)) _ _
                (deliver_loop P k index stop (start P counters v))
                (deliver_loop-Recorded P k index (start P counters v) stop)
                (λ e served. (n, u, v, e, o, a, served, refl, refl))))
