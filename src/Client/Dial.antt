-- ===== src/Client/Dial.antt =====
-- The handshake, and what is refused before anything is dialled.
use pulsemq_cli.Base.{
  ℕ, true, not, ◌&&◌, some, [], ◌∷◌, ◌++◌, Bytes, bytes_eq, ◌⊎◌, inl, inr, ◌≡◌, refl, sym, ap,
  subst, ◌∙◌, arith, Bool-cases,
}
use pulsemq_cli.Mqtt.{Protocol, ProtocolVersion, IsLawful, Connect, Connack, connect, connack}
use pulsemq_cli.Error.{usage}
use pulsemq_cli.Cli
use pulsemq_cli.Cli.{ConnectionArgs, IsParsed}
use pulsemq_cli.Cli.Laws.{will_total}
use pulsemq_cli.Host.{Host}
use pulsemq_cli.Password.{password_value}
use pulsemq_cli.Password.Laws.{password_shape}
use pulsemq_cli.Io.{
  World, Outcome, done, failed, Action, and_then, ReadOutcome, packet, eof, read_packet,
  write_packet,
}
use pulsemq_cli.Io
use pulsemq_cli.Io.Laws.{
  Ensures, and_then-Ensures, weaken-Ensures, read_packet-Took, Wrote, write_packet-Wrote, Drained,
  packets,
}
use pulsemq_cli.Client.{
  Client, Negotiated, handshake, check_connack, connect_client, client_id_for, refuse_unnamed,
}

pub Sum-cases :
    {A : Type 0} → (r : Bytes ⊎ A) → ((e : Bytes) × (r ≡ inl e)) ⊎ ((a : A) × (r ≡ inr a))
Sum-cases (inl e) = inl (e, refl)
Sum-cases (inr a) = inr (a, refl)

module _ (P : Protocol) (host : Host) (args : ConnectionArgs) where
  -- The grounds for refusing to dial.
  abbrev pub IsRefused : Type 0
  IsRefused =
      (not (Cli.clean_start args) && bytes_eq (client_id_for P host args.client_id) [] ≡ true)
      ⊎ ((e : Bytes) × (Cli.max_packet_size args ≡ inl e))
      ⊎ ((e : Bytes) × (password_value host args.password_file args.password ≡ inl e))

  -- A usage error, and nothing was dialled, sent or read.
  abbrev pub Untouched : World → Outcome World Client → Type 0
  Untouched w o =
      (e : Bytes) × (w' : World) × (o ≡ failed (usage e) w')
      × (w'.dials ≡ w.dials)
      × (w'.sent ≡ w.sent)
      × (w'.incoming ≡ w.incoming)

  -- A persistent session without a name, a bad packet size or an unreadable password file is a
  -- usage error before anything is dialled, sent or read.
  pub connect_client_refused : (w : World) → IsRefused → Untouched w (connect_client P host args w)
  unfolding connect_client refuse_unnamed
  connect_client_refused w h =
      elim (Bool-cases
        (not (Cli.clean_start args) && bytes_eq (client_id_for P host args.client_id) [])) [
          | inl b ↦ rw (b, connect_client) (_, w, refl, refl, refl, refl)
          | inr b ↦ elim (Sum-cases (Cli.max_packet_size args)) [
            | inl (e, m) ↦ rw (b, connect_client, m) (_, w, refl, refl, refl, refl)
            | inr (n, m) ↦
                let (ws, f, p) = password_shape host args w in
                elim (Sum-cases (password_value host args.password_file args.password)) [
                  | inl (e, v) ↦
                      rw (b, connect_client, m, p, v)
                        (_, record w { warnings = ws; warned_mode = f }, refl, refl, refl, refl)
                  | inr (v, q) ↦ absurd (ground arith)
                ]
          ]
        ]

  -- A CONNECT that announces what the arguments say, then a CONNACK of success.
  abbrev pub Shaken : Bytes → World → Negotiated → World → Type 0
  Shaken client_id w n w' =
      (max : ℕ) × (given : Connect) × (ack : Connack) × (Cli.max_packet_size args ≡ inr max)
      × (w'.sent ≡ w.sent ++ (connect given ∷ []))
      × (given.client_id ≡ client_id)
      × (given.clean_start ≡ Cli.clean_start args)
      × (given.keep_alive ≡ args.keepalive)
      × (given.properties.maximum_packet_size ≡ some max)
      × (inr given.password ≡ password_value host args.password_file args.password)
      × (Cli.will P args ≡ some given.will)
      × (packets w.incoming ≡ connack ack ∷ packets w'.incoming)
      × (ack.reason_code ≡ P.success)
      × (n.receive_maximum ≡ ack.properties.receive_maximum)
      × (n.session_present ≡ ack.session_present)
      × (w'.dials ≡ w.dials)
      × (w'.printed ≡ w.printed)

  abbrev Accepted : ReadOutcome → World → Negotiated → World → Type 0
  Accepted o w n w' =
      (w' ≡ w)
      × (ack : Connack) × (o ≡ packet (connack ack))
      × (ack.reason_code ≡ P.success)
      × (n.receive_maximum ≡ ack.properties.receive_maximum)
      × (n.session_present ≡ ack.session_present)

  check_connack-Accepted :
      (version : ProtocolVersion) (o : ReadOutcome) (w : World)
      → Ensures (Accepted o w) (λ _. ⊥) (check_connack P version o w)
  unfolding check_connack
  check_connack-Accepted version (packet (connack ack)) w = ground arith
  check_connack-Accepted version (packet p) w = tt
  check_connack-Accepted version eof w = tt

  accepted_packets :
      (v : World) (o : ReadOutcome) (u : World) (ack : Connack)
      → Io.Laws.Took v o u
      → o ≡ packet (connack ack)
      → packets v.incoming ≡ connack ack ∷ packets u.incoming
  accepted_packets v o u ack t e = (subst (λ x. Io.Laws.Took v x u) e t).2.0

  abbrev Greeted : Connect → World → Negotiated → World → Type 0
  Greeted given w n w' =
      (ack : Connack) × (w'.sent ≡ w.sent ++ (connect given ∷ []))
      × (packets w.incoming ≡ connack ack ∷ packets w'.incoming)
      × (ack.reason_code ≡ P.success)
      × (n.receive_maximum ≡ ack.properties.receive_maximum)
      × (n.session_present ≡ ack.session_present)
      × (w'.dials ≡ w.dials)
      × (w'.printed ≡ w.printed)

  greeted :
      (given : Connect) (o : ReadOutcome) (w v1 v2 : World) (n : Negotiated) (v3 : World)
      → Wrote (connect given) w v1
      → Io.Laws.Took v1 o v2
      → Accepted o v2 n v3
      → Greeted given w n v3
  greeted given o w v1 v2 n v3 wrote t k = (
    k.1,
    ap (λ (x : World). x.sent) k.0
        ∙ ap (λ (x : World). x.sent) t.0
        ∙ ap (λ (x : World). x.sent) wrote,
    ap (λ (x : World). packets x.incoming) (sym wrote)
        ∙ accepted_packets v1 o v2 k.1 t k.2
        ∙ ap (λ (x : World). connack k.1 ∷ packets x.incoming) (sym k.0),
    k.3,
    k.4,
    k.5,
    ap (λ (x : World). x.dials) k.0
        ∙ ap (λ (x : World). x.dials) t.0
        ∙ ap (λ (x : World). x.dials) wrote,
    ap (λ (x : World). x.printed) k.0
        ∙ ap (λ (x : World). x.printed) t.0
        ∙ ap (λ (x : World). x.printed) wrote,
  )

  exchange-Greeted :
      (given : Connect) (version : ProtocolVersion) (w : World)
      → Ensures
          (Greeted given w)
          (λ _. Unit)
          (and_then
            (write_packet (connect given) w)
            λ _ v. and_then (read_packet v) (check_connack P version))
  exchange-Greeted given version w =
      and_then-Ensures (λ _ v. Wrote (connect given) w v) (λ _. Unit) _
        (write_packet (connect given) w) _
        (weaken-Ensures (λ _ v. Wrote (connect given) w v) (λ _. ⊥)
          (λ _ v. Wrote (connect given) w v) (λ _. Unit) (write_packet (connect given) w)
          (write_packet-Wrote (connect given) w) (λ _ v h. h) (λ v h. tt))
        (λ _ v1 wrote.
          and_then-Ensures (Io.Laws.Took v1) (λ _. Unit) _ (read_packet v1)
            (check_connack P version)
            (weaken-Ensures (Io.Laws.Took v1) (Drained v1) (Io.Laws.Took v1) (λ _. Unit)
              (read_packet v1) (read_packet-Took v1) (λ o v h. h) (λ v h. tt))
            (λ o v2 t.
              weaken-Ensures (Accepted o v2) (λ _. ⊥) (Greeted given w) (λ _. Unit)
                (check_connack P version o v2) (check_connack-Accepted version o v2)
                (λ n v3 k. greeted given o w v1 v2 n v3 wrote t k) (λ v h. tt)))

  -- For parsed arguments the handshake ends or waits, and succeeds only when the first packet is a
  -- CONNACK of success; one CONNECT has then been written, with the name, keep-alive, Will and
  -- password of the arguments, announcing their packet size.
  pub handshake-Shaken :
      IsLawful P
      → IsParsed args
      → (client_id : Bytes) (w : World)
      → Ensures (Shaken client_id w) (λ _. Unit) (handshake P host args client_id w)
  unfolding handshake check_connack
  handshake-Shaken L h client_id w = elim (Sum-cases (Cli.max_packet_size args)) [
    | inl (e, m) ↦ rw (m, handshake) tt
    | inr (max, m) ↦
        let (ws, f, p) = password_shape host args w in
        elim (Sum-cases (password_value host args.password_file args.password)) [
          | inl (e, v) ↦ rw (handshake, m, p, v) tt
          | inr (given, v) ↦
              let (will, e, i) = will_total P args L h in
              let v0 : World = record w { warnings = ws; warned_mode = f } in
              rw (handshake, m, p, v, e)
                (weaken-Ensures (Greeted _ v0) (λ _. Unit) _ (λ _. Unit) _
                  (exchange-Greeted _ (Cli.version args) v0)
                  (λ n u k. (
                    max,
                    _,
                    k.0,
                    m,
                    k.1,
                    refl,
                    refl,
                    refl,
                    refl,
                    sym v,
                    e,
                    k.2,
                    k.3,
                    k.4,
                    k.5,
                    k.6,
                    k.7,
                  ))
                  (λ v u. tt))
        ]
  ]
